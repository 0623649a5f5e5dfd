-- ===== src/Lease/Manager/Calls/InMemory.antt =====
-- The manager over the in-memory store.
use premise_protocol.Base.{ℕ, ◌≤◌, ◌<◌, ◌≡◌, ◌≢◌, ap, Option, arith}
use premise_protocol.Lease.{
  Number, LeaseStore, store_unavailable, HolderRequest, max_safe_integer, clock, counter, scope_key,
}
use premise_protocol.Lease.Store
use premise_protocol.Lease.Store.{find_holder, holds, fails, new_lease, renewed}
use premise_protocol.Lease.Store.Invariant.{Inv}
use premise_protocol.Lease.Manager.{StoreOps, AcquireInput, RenewInput, Manager, reads, read_clock}
use premise_protocol.Lease.Manager.Calls.{acquire, renew, release, validate}
use premise_protocol.Lease.Manager.Calls.Cases.{
  acquire_cases, renew_cases, release_cases, validate_cases,
}
use premise_protocol.Lease.Manager.Calls.Blameless.{
  acquire-blameless, renew-blameless, release-blameless, validate-blameless,
}
use premise_protocol.Lease.Manager.Calls.Safety.{read_clock-reads, last}

abbrev pub in_memory : StoreOps LeaseStore
in_memory = record {
  acquire = Store.acquire;
  renew = Store.renew;
  release = Store.release;
  validate = Store.validate;
}

-- The store is sound, and no other caller has moved its clock past the manager's.
pub record IsSynced (m : Manager LeaseStore) : Type 0 where
  pub inv : Inv m.store
  pub behind : clock m.store ≤ last m

synced :
    (m u : Manager LeaseStore) (now : Option Number) (t : ℕ)
    → IsSynced m
    → read_clock m now ≡ reads t u
    → (u.store ≡ m.store) × (clock m.store ≤ t) × (t ≤ max_safe_integer)
synced m u now t h e =
    let (_, after, safe, next) = read_clock-reads m u now t e in
    (ap (λ (x : Manager LeaseStore). x.store) next, omega (arith, h.behind), safe)

-- Over an in-memory store that is sound and whose clock is not ahead of the manager's last reading, as
-- it is while nobody else drives the store, the manager does not report that the store is unavailable,
-- on any input and at any reading of the clock; an acquisition also needs a fencing token to be left
-- for the scope.
pub in_memory-available :
    (m : Manager LeaseStore) (now : Option Number)
    → IsSynced m
    → ((i : AcquireInput)
        → counter m.store (scope_key i.scope) < max_safe_integer
        → (acquire in_memory m i now).1.reason ≢ store_unavailable)
      × ((i : RenewInput) → (renew in_memory m i now).1.reason ≢ store_unavailable)
      × ((i : HolderRequest) → (release in_memory m i now).1.reason ≢ store_unavailable)
      × ((i : HolderRequest) → (validate in_memory m i now).1.reason ≢ store_unavailable)
in_memory-available m now h = (
  λ i left.
      acquire_cases in_memory m now (λ x. x.1.reason ≢ store_unavailable) i (λ r n. n)
        (λ t u e p. cc)
        (λ t d expires u ok e f g.
          let (same, behind, safe) = synced m u now t h e in
          rw same (acquire-blameless m.store t h.inv behind safe i expires left)),
  λ i.
      renew_cases in_memory m now (λ x. x.1.reason ≢ store_unavailable) i (λ r n. n) (λ t u e p. cc)
        (λ t d expires u ok e f g.
          let (same, behind, safe) = synced m u now t h e in
          rw same (renew-blameless m.store t h.inv behind safe i expires)),
  λ i.
      release_cases in_memory m now (λ x. x.1.reason ≢ store_unavailable) i (λ r n. n)
        (λ t u ok e.
          let (same, behind, safe) = synced m u now t h e in
          rw same (release-blameless m.store t h.inv behind safe i)),
  λ i.
      validate_cases in_memory m now (λ x. x.1.reason ≢ store_unavailable) i (λ r n. n)
        (λ t u ok e.
          let (same, behind, safe) = synced m u now t h e in
          rw same (validate-blameless m.store t h.inv behind safe i)),
)
