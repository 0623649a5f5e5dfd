-- ===== src/Lease/Store/Tests.antt =====
-- The theorems about the lease store at concrete inputs.
use premise_protocol.Base.{
  ◌<◌, ◌≡◌, ◌≢◌, refl, Text-discrete, codes, trim, none, some, List, [], ◌∷◌, arith, ℕ_discrete,
}
use premise_protocol.Json.{json_pair}
use premise_protocol.Lease.{
  Number, nat, Scope, Lease, LeaseStore, AcquireRequest, RenewRequest, HolderRequest, new_store,
  identity_reason, active, next_token, valid_scope, valid_text, time_of, token_of, acquired, held,
  returns, valid, updated, released, observe_clock, valid_acquire_request, valid_holder_request,
  scope_key, clock, store_unavailable,
}
use premise_protocol.Lease.Store.{
  step, find_holder, acquire, renew, release, validate, Call, acquires, validates, run, new_lease,
}
use premise_protocol.Lease.Store.Invariant.{Inv, Keeps}
use premise_protocol.Lease.Store.History.{new_store-Inv, acquire-Keeps, run-Keeps}
use premise_protocol.Lease.Manager.{Manager}
use premise_protocol.Lease.Manager.Calls
use premise_protocol.Lease.Manager.Calls.InMemory.{IsSynced, in_memory, in_memory-available}
use premise_protocol.Lease.Store.Tokens.{acquire-increasing, stale_token_fenced}
use premise_protocol.Lease.Store.Held.{Quiet, scope_key-injective}
use premise_protocol.Lease.Store.Exclusion.{acquire-exclusive, acquire-validate}

-- What a run of the store computes with.
runs : Unit {0}
unfolding acquire validate find_holder identity_reason run step observe_clock valid_acquire_request
    valid_holder_request active next_token Text-discrete trim scope_key json_pair valid_scope
    valid_text time_of token_of ℕ_discrete
runs = tt

abbrev pull : Scope
pull = record { tenant_id = codes "acme"; resource_id = codes "pull/42" }

abbrev first_request : AcquireRequest
first_request = record {
  scope = pull;
  owner = codes "a";
  lease_id = codes "l1";
  expires_at = nat 20;
}

abbrev second_request : AcquireRequest
second_request = record {
  scope = pull;
  owner = codes "b";
  lease_id = codes "l2";
  expires_at = nat 40;
}

abbrev first_lease : Lease
first_lease = new_lease first_request 1 10 20

abbrev second_lease : Lease
second_lease = new_lease second_request 2 25 40

abbrev store_a : LeaseStore
store_a = (acquire new_store first_request (nat 10)).0

abbrev store_b : LeaseStore
store_b = (acquire (run store_a []) second_request (nat 25)).0

granted_first : acquire new_store first_request (nat 10) ≡ (store_a, returns (acquired first_lease))
unfolding runs
granted_first = refl

granted_second :
    acquire (run store_a []) second_request (nat 25) ≡ (store_b, returns (acquired second_lease))
unfolding runs
granted_second = refl

acquire-increasing_example : first_lease.fencing_token < second_lease.fencing_token
acquire-increasing_example =
    acquire-increasing new_store store_a store_b first_request second_request (nat 10) (nat 25)
      first_lease second_lease [] new_store-Inv granted_first granted_second refl

abbrev late_holder : HolderRequest
late_holder = record {
  scope = pull;
  owner = codes "a";
  lease_id = codes "l1";
  fencing_token = nat 1;
}

abbrev late_renewal : RenewRequest
late_renewal = record {
  scope = pull;
  owner = codes "a";
  lease_id = codes "l1";
  fencing_token = nat 1;
  expires_at = nat 60;
}

store_a-Inv : Inv store_a
store_a-Inv = (acquire-Keeps new_store first_request (nat 10) new_store-Inv).1

-- After the second acquisition the first holder is fenced off.
stale_token_fenced_example :
    ((j : Lease) → (validate (run store_b []) late_holder (nat 26)).1 ≢ returns (valid j))
    × ((release (run store_b []) late_holder (nat 26)).1 ≢ returns released)
    × ((j : Lease) → (renew (run store_b []) late_renewal (nat 26)).1 ≢ returns (updated j))
stale_token_fenced_example =
    stale_token_fenced (run store_a []) store_b second_request (nat 25) (nat 26) second_lease []
      late_holder late_renewal 1 (run-Keeps store_a [] store_a-Inv).1 granted_second (refl, refl)
      (refl, refl) (omega arith)

-- Another owner asks twice while the lease runs, and is told that it is held.
abbrev busy_calls : List (Number × Call)
busy_calls = (nat 12, acquires second_request) ∷ (nat 13, validates late_holder) ∷ []

abbrev store_c : LeaseStore
store_c = record (run store_a busy_calls) { last_observed_at = some 15 }

busy_calls-Quiet : Quiet first_lease busy_calls
unfolding time_of
busy_calls-Quiet = ((λ t e. ground arith, tt), ((λ t e. ground arith, tt), tt))

observed_15 : observe_clock (run store_a busy_calls) (nat 15) ≡ some (15, store_c)
unfolding runs
observed_15 = refl

requested : valid_acquire_request second_request 15 ≡ some 40
unfolding runs
requested = refl

acquire-exclusive_example :
    ((run store_a busy_calls).leases (scope_key pull) ≡ some first_lease)
    × ((acquire (run store_a busy_calls) second_request (nat 15)).1 ≡ returns (held first_lease))
acquire-exclusive_example =
    acquire-exclusive new_store store_a store_c first_request second_request (nat 10) (nat 15)
      first_lease busy_calls 15 40 new_store-Inv granted_first busy_calls-Quiet refl observed_15
      (omega arith) requested

shown : valid_holder_request late_holder ≡ some 1
unfolding runs
shown = refl

acquire-validate_example :
    (validate (run store_a busy_calls) late_holder (nat 15)).1 ≡ returns (valid first_lease)
acquire-validate_example =
    acquire-validate new_store store_a store_c first_request late_holder (nat 10) (nat 15)
      first_lease busy_calls 15 new_store-Inv granted_first busy_calls-Quiet
      (refl, refl, refl, shown) observed_15 (omega arith)

run-Keeps_example : Keeps new_store (run new_store busy_calls)
run-Keeps_example = run-Keeps new_store busy_calls new_store-Inv

scope_key-injective_example : pull ≡ pull
scope_key-injective_example = scope_key-injective pull pull refl

held_clock : clock store_a ≡ 10
unfolding runs
held_clock = refl

-- A manager over the store of the first lease, whose last reading was 11.
abbrev held_manager : Manager LeaseStore
held_manager = record { store = store_a; default_duration = 30000; last_observed_at = some 11 }

held-IsSynced : IsSynced held_manager
held-IsSynced = record { inv = store_a-Inv; behind = omega (arith, held_clock) }

-- The holder renews its lease.
in_memory-available_example :
    (Calls.renew in_memory held_manager
      (record {
        scope = pull;
        owner = codes "a";
        lease_id = codes "l1";
        fencing_token = nat 1;
        duration_ms = none;
      })
      (some (nat 12))).1.reason
    ≢ store_unavailable
in_memory-available_example = (in_memory-available held_manager (some (nat 12)) held-IsSynced).1 _
