-- ===== src/Lease/Manager/Calls.antt =====
-- The methods of ValidationLeaseManager of packages/runtime-core/src/validation-lease.ts.
pub mod Cases
pub mod Safety
pub mod Blameless
pub mod InMemory
use premise_protocol.Base.{ℕ, ◌&&◌, false, text_eq, Option, none, some, if◌then◌else◌}
use premise_protocol.Lease.{
  Number, nat, invalid_input, store_unavailable, lease_active, AcquireRequest, RenewRequest,
  HolderRequest, AcquireResult, MutationResult, ValidationResult, Attempt, returns, throws,
}
use premise_protocol.Lease.Manager.{
  StoreOps, AcquireInput, RenewInput, Decision, acquired, already_held, contended, renewed,
  released, valid, Manager, rejected_for, successful, valid_lease_for_scope, store_reason,
  valid_acquire_input, valid_renew_input, valid_mutation_input, expiry, reads, fails, read_clock,
  duration,
}

-- What the manager makes of the store's answer.
pub answer_acquire : AcquireInput → ℕ → Attempt AcquireResult → Decision
unfolding store_reason
answer_acquire i t throws = rejected_for store_unavailable
answer_acquire i t (returns (AcquireResult.acquired l)) =
    if valid_lease_for_scope l i.scope t
    then successful acquired (some l)
    else rejected_for store_unavailable
answer_acquire i t (returns (AcquireResult.held l)) =
    if valid_lease_for_scope l i.scope t
    then record {
      accepted = false;
      decision =
          if text_eq l.owner i.owner && text_eq l.lease_id i.lease_id
          then already_held
          else contended;
      reason = lease_active;
      lease = none;
    }
    else rejected_for store_unavailable
answer_acquire i t (returns (AcquireResult.refused r)) = rejected_for (store_reason r)

pub answer_renew : RenewInput → ℕ → Attempt MutationResult → Decision
unfolding store_reason
answer_renew i t throws = rejected_for store_unavailable
answer_renew i t (returns (MutationResult.updated l)) =
    if valid_lease_for_scope l i.scope t
    then successful renewed (some l)
    else rejected_for store_unavailable
answer_renew i t (returns MutationResult.released) = rejected_for store_unavailable
answer_renew i t (returns (MutationResult.refused r)) = rejected_for (store_reason r)

pub answer_release : Attempt MutationResult → Decision
unfolding store_reason
answer_release throws = rejected_for store_unavailable
answer_release (returns (MutationResult.updated l)) = rejected_for store_unavailable
answer_release (returns MutationResult.released) = successful released none
answer_release (returns (MutationResult.refused r)) = rejected_for (store_reason r)

pub answer_validate : HolderRequest → ℕ → Attempt ValidationResult → Decision
unfolding store_reason
answer_validate i t throws = rejected_for store_unavailable
answer_validate i t (returns (ValidationResult.valid l)) =
    if valid_lease_for_scope l i.scope t
    then successful valid (some l)
    else rejected_for store_unavailable
answer_validate i t (returns (ValidationResult.refused r)) = rejected_for (store_reason r)

abbrev pub acquire_request : AcquireInput → ℕ → AcquireRequest
acquire_request i expires = record {
  scope = i.scope;
  owner = i.owner;
  lease_id = i.lease_id;
  expires_at = nat expires;
}

abbrev pub renew_request : RenewInput → ℕ → RenewRequest
renew_request i expires = record {
  scope = i.scope;
  owner = i.owner;
  lease_id = i.lease_id;
  fencing_token = i.fencing_token;
  expires_at = nat expires;
}

module _ {S : Type 0} (ops : StoreOps S) where
  pub acquire : Manager S → AcquireInput → Option Number → Manager S × Decision
  acquire m i now =
      if valid_acquire_input i
      then elim (read_clock m now) [
        | fails r ↦ (m, rejected_for r)
        | reads t m1 ↦ elim (duration m1 i.duration_ms) [
          | none ↦ (m1, rejected_for invalid_input)
          | some d ↦ elim (expiry t d) [
            | none ↦ (m1, rejected_for invalid_input)
            | some expires ↦
                let (s, result) = ops.acquire m1.store (acquire_request i expires) (nat t) in
                (record m1 { store = s }, answer_acquire i t result)
          ]
        ]
      ]
      else (m, rejected_for invalid_input)

  pub renew : Manager S → RenewInput → Option Number → Manager S × Decision
  renew m i now =
      if valid_renew_input i
      then elim (read_clock m now) [
        | fails r ↦ (m, rejected_for r)
        | reads t m1 ↦ elim (duration m1 i.duration_ms) [
          | none ↦ (m1, rejected_for invalid_input)
          | some d ↦ elim (expiry t d) [
            | none ↦ (m1, rejected_for invalid_input)
            | some expires ↦
                let (s, result) = ops.renew m1.store (renew_request i expires) (nat t) in
                (record m1 { store = s }, answer_renew i t result)
          ]
        ]
      ]
      else (m, rejected_for invalid_input)

  pub release : Manager S → HolderRequest → Option Number → Manager S × Decision
  release m i now =
      if valid_mutation_input i
      then elim (read_clock m now) [
        | fails r ↦ (m, rejected_for r)
        | reads t m1 ↦
            let (s, result) = ops.release m1.store i (nat t) in
            (record m1 { store = s }, answer_release result)
      ]
      else (m, rejected_for invalid_input)

  pub validate : Manager S → HolderRequest → Option Number → Manager S × Decision
  validate m i now =
      if valid_mutation_input i
      then elim (read_clock m now) [
        | fails r ↦ (m, rejected_for r)
        | reads t m1 ↦
            let (s, result) = ops.validate m1.store i (nat t) in
            (record m1 { store = s }, answer_validate i t result)
      ]
      else (m, rejected_for invalid_input)
