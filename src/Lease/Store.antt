-- ===== src/Lease/Store.antt =====
-- InMemoryValidationLeaseStore of packages/runtime-core/src/validation-lease.ts. An operation gives
-- the store that it leaves and what it returns, or that it throws.
pub mod Cases
pub mod Invariant
pub mod History
pub mod Fencing
pub mod Tokens
pub mod Held
pub mod Exclusion
mod Tests
use premise_protocol.Base.{
  ℕ, Text, Option, none, some, put, drop_key, leb, if◌then◌else◌, List, [], ◌∷◌,
}
use premise_protocol.Lease.{
  Number, Lease, Reason, lease_missing, lease_expired, invalid_input, AcquireRequest, RenewRequest,
  HolderRequest, AcquireResult, acquired, held, MutationResult, updated, released, ValidationResult,
  valid, Attempt, returns, throws, LeaseStore, observe_clock, valid_acquire_request,
  valid_renew_request, valid_holder_request, scope_key, identity_reason, active, next_token,
}

-- The lease that `acquire` stores.
abbrev pub new_lease : AcquireRequest → ℕ → ℕ → ℕ → Lease
new_lease r token now expires = record {
  scope = r.scope;
  owner = r.owner;
  lease_id = r.lease_id;
  fencing_token = token;
  acquired_at = now;
  renewed_at = now;
  expires_at = expires;
}

pub acquire : LeaseStore → AcquireRequest → Number → LeaseStore × Attempt AcquireResult
acquire s r now = elim (observe_clock s now) [
  | none ↦ (s, throws)
  | some (t, s1) ↦ elim (valid_acquire_request r t) [
    | none ↦ (s1, returns (AcquireResult.refused invalid_input))
    | some expires ↦
        let key = scope_key r.scope in
        let (s2, current) = active s1 key t in
        elim current [
          | some lease ↦ (s2, returns (held lease))
          | none ↦ elim (next_token s2 key) [
            | none ↦ (s2, throws)
            | some (token, s3) ↦
                let lease = new_lease r token t expires in
                (record s3 { leases = put s3.leases key lease }, returns (acquired lease))
          ]
        ]
  ]
]

pub data Holder : Type 0 where
  holds : Lease → Holder
  fails : Reason → Holder

-- What `renew`, `release` and `validate` have in common: the lease of the key if it is there, has
-- not run out and is the caller's. One that has run out is deleted.
pub find_holder : LeaseStore → Text → Text → Text → ℕ → ℕ → LeaseStore × Holder
find_holder s key owner lease_id token now = elim (s.leases key) [
  | none ↦ (s, fails lease_missing)
  | some current ↦
      if leb current.expires_at now
      then (record s { leases = drop_key s.leases key }, fails lease_expired)
      else elim (identity_reason current owner lease_id token) [
        | none ↦ (s, holds current)
        | some reason ↦ (s, fails reason)
      ]
]

abbrev pub renewed : Lease → ℕ → ℕ → Lease
renewed current now expires = record current { renewed_at = now; expires_at = expires }

pub renew : LeaseStore → RenewRequest → Number → LeaseStore × Attempt MutationResult
renew s r now = elim (observe_clock s now) [
  | none ↦ (s, throws)
  | some (t, s1) ↦ elim (valid_renew_request r t) [
    | none ↦ (s1, returns (MutationResult.refused invalid_input))
    | some (token, expires) ↦
        let key = scope_key r.scope in
        let (s2, holder) = find_holder s1 key r.owner r.lease_id token t in
        elim holder [
          | fails reason ↦ (s2, returns (MutationResult.refused reason))
          | holds current ↦
              let lease = renewed current t expires in
              (record s2 { leases = put s2.leases key lease }, returns (updated lease))
        ]
  ]
]

pub release : LeaseStore → HolderRequest → Number → LeaseStore × Attempt MutationResult
release s r now = elim (observe_clock s now) [
  | none ↦ (s, throws)
  | some (t, s1) ↦ elim (valid_holder_request r) [
    | none ↦ (s1, returns (MutationResult.refused invalid_input))
    | some token ↦
        let key = scope_key r.scope in
        let (s2, holder) = find_holder s1 key r.owner r.lease_id token t in
        elim holder [
          | fails reason ↦ (s2, returns (MutationResult.refused reason))
          | holds current ↦ (record s2 { leases = drop_key s2.leases key }, returns released)
        ]
  ]
]

pub validate : LeaseStore → HolderRequest → Number → LeaseStore × Attempt ValidationResult
validate s r now = elim (observe_clock s now) [
  | none ↦ (s, throws)
  | some (t, s1) ↦ elim (valid_holder_request r) [
    | none ↦ (s1, returns (ValidationResult.refused invalid_input))
    | some token ↦
        let (s2, holder) = find_holder s1 (scope_key r.scope) r.owner r.lease_id token t in
        elim holder [
          | fails reason ↦ (s2, returns (ValidationResult.refused reason))
          | holds current ↦ (s2, returns (valid current))
        ]
  ]
]

-- A call of the store, at a time that its caller gives.
pub data Call : Type 0 where
  acquires : AcquireRequest → Call
  renews : RenewRequest → Call
  releases validates : HolderRequest → Call

pub step : LeaseStore → Number × Call → LeaseStore
step s (now, acquires r) = (acquire s r now).0
step s (now, renews r) = (renew s r now).0
step s (now, releases r) = (release s r now).0
step s (now, validates r) = (validate s r now).0

pub run : LeaseStore → List (Number × Call) → LeaseStore
run s [] = s
run s (c ∷ cs) = run (step s c) cs
