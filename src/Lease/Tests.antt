-- ===== src/Lease/Tests.antt =====
-- The theorems about the lease manager at concrete inputs.
use premise_protocol.Base.{codes, some, none}
use premise_protocol.Lease.{nat, Scope, LeaseStore, new_store}
use premise_protocol.Lease.Manager
use premise_protocol.Lease.Manager.{Manager, AcquireInput}
use premise_protocol.Lease.Manager.Calls
use premise_protocol.Lease.Manager.Calls.Safety.{AcceptsLive, accepts_live}
use premise_protocol.Lease.Manager.Calls.InMemory.{in_memory}

abbrev pull : Scope
pull = record { tenant_id = codes "acme"; resource_id = codes "pull/42" }

abbrev manager : Manager LeaseStore
manager = record { store = new_store; default_duration = 30000; last_observed_at = none }

abbrev manager_request : AcquireInput
manager_request = record {
  scope = pull;
  owner = codes "a";
  lease_id = codes "l1";
  duration_ms = none;
}

accepts_live_example :
    AcceptsLive manager pull
      (some (nat 10))
      Manager.acquired
      (Calls.acquire in_memory manager manager_request (some (nat 10)))
accepts_live_example = (accepts_live in_memory manager (some (nat 10))).0 manager_request
