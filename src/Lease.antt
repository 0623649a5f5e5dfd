-- ===== src/Lease.antt =====
-- packages/runtime-core/src/validation-lease.ts: the types, the validators and the in-memory store.
-- A JavaScript number is `nat n`, the whole number n, or `other`: a negative, a fractional or an
-- infinite number, or NaN, all of which every validator refuses. The clock is an argument.
pub mod Store
pub mod Manager
mod Tests
use premise_protocol.Base.{
  ℕ, suc, ◌+◌, ◌-◌, ◌^◌, Bool, true, false, not, ◌&&◌, ◌||◌, Text, Text-discrete, text_eq, is_empty,
  trim, Option, none, some, Dict, empty, put, drop_key, leb, ltb, ◌==◌, if◌then◌else◌,
}
use premise_protocol.Json.{json_pair}

abbrev pub max_safe_integer : ℕ
max_safe_integer = 9007199254740991

pub data Number : Type 0 where
  nat : ℕ → Number
  other : Number

pub record Scope : Type 0 where
  pub tenant_id : Text
  pub resource_id : Text

pub record Lease : Type 0 where
  pub scope : Scope
  pub owner : Text
  pub lease_id : Text
  pub fencing_token : ℕ
  pub acquired_at : ℕ
  pub renewed_at : ℕ
  pub expires_at : ℕ

pub data Reason : Type 0 where
  ok invalid_input clock_unavailable clock_regression store_unavailable : Reason
  lease_active lease_missing lease_expired owner_mismatch lease_id_mismatch : Reason
  stale_fencing_token : Reason

pub record AcquireRequest : Type 0 where
  pub scope : Scope
  pub owner : Text
  pub lease_id : Text
  pub expires_at : Number

pub record RenewRequest : Type 0 where
  pub scope : Scope
  pub owner : Text
  pub lease_id : Text
  pub fencing_token : Number
  pub expires_at : Number

-- Of `release` and of `validate`.
pub record HolderRequest : Type 0 where
  pub scope : Scope
  pub owner : Text
  pub lease_id : Text
  pub fencing_token : Number

pub data AcquireResult : Type 0 where
  acquired held : Lease → AcquireResult
  refused : Reason → AcquireResult

pub data MutationResult : Type 0 where
  updated : Lease → MutationResult
  released : MutationResult
  refused : Reason → MutationResult

pub data ValidationResult : Type 0 where
  valid : Lease → ValidationResult
  refused : Reason → ValidationResult

-- A call that may throw.
pub data Attempt (A : Type 0) : Type 0 where
  returns : A → Attempt A
  throws : Attempt A

pub valid_text : Text → Bool
valid_text t = not (is_empty t) && text_eq (trim t) t

pub valid_scope : Scope → Bool
valid_scope s = valid_text s.tenant_id && valid_text s.resource_id

-- A safe integer that is not negative.
pub time_of : Number → Option ℕ
time_of (nat n) = if leb n max_safe_integer then some n else none
time_of other = none

-- A safe integer that is positive.
pub token_of : Number → Option ℕ
token_of (nat n) = if leb n max_safe_integer && ltb 0 n then some n else none
token_of other = none

pub scope_key : Scope → Text
scope_key s = json_pair s.tenant_id s.resource_id

pub record LeaseStore : Type 0 where
  pub leases : Dict Lease
  pub fencing_counters : Dict ℕ
  pub last_observed_at : Option ℕ

abbrev pub new_store : LeaseStore
new_store = record { leases = empty; fencing_counters = empty; last_observed_at = none }

-- observeClock: `none` where it throws.
pub observe_clock : LeaseStore → Number → Option (ℕ × LeaseStore)
unfolding time_of
observe_clock s now = elim (time_of now) [
  | none ↦ none
  | some t ↦ elim s.last_observed_at [
    | none ↦ some (t, record s { last_observed_at = some t })
    | some last ↦ if ltb t last then none else some (t, record s { last_observed_at = some t })
  ]
]

-- A valid request, with its numbers read; `none` for one that is refused as INVALID_INPUT.
pub valid_acquire_request : AcquireRequest → ℕ → Option ℕ
unfolding valid_scope time_of
valid_acquire_request r now =
    if valid_scope r.scope && valid_text r.owner && valid_text r.lease_id
    then elim (time_of r.expires_at) [
      | none ↦ none
      | some expires ↦ if ltb now expires then some expires else none
    ]
    else none

pub valid_renew_request : RenewRequest → ℕ → Option (ℕ × ℕ)
unfolding valid_scope time_of token_of
valid_renew_request r now =
    if valid_scope r.scope && valid_text r.owner && valid_text r.lease_id
    then elim (token_of r.fencing_token) [
      | none ↦ none
      | some token ↦ elim (time_of r.expires_at) [
        | none ↦ none
        | some expires ↦ if ltb now expires then some (token, expires) else none
      ]
    ]
    else none

pub valid_holder_request : HolderRequest → Option ℕ
unfolding valid_scope token_of
valid_holder_request r =
    if valid_scope r.scope && valid_text r.owner && valid_text r.lease_id
    then token_of r.fencing_token
    else none

pub identity_reason : Lease → Text → Text → ℕ → Option Reason
identity_reason current owner lease_id token =
    if not (current.fencing_token == token)
    then some stale_fencing_token
    else if not (text_eq current.owner owner)
    then some owner_mismatch
    else if not (text_eq current.lease_id lease_id)
    then some lease_id_mismatch
    else none

-- The lease of a key that has not run out; one that has is deleted.
pub active : LeaseStore → Text → ℕ → LeaseStore × Option Lease
active s key now = elim (s.leases key) [
  | none ↦ (s, none)
  | some current ↦
      if leb current.expires_at now
      then (record s { leases = drop_key s.leases key }, none)
      else (s, some current)
]

abbrev or_zero : Option ℕ → ℕ
or_zero none = 0
or_zero (some n) = n

-- The last token that was given out for a key.
abbrev pub counter : LeaseStore → Text → ℕ
counter s key = or_zero (s.fencing_counters key)

-- nextToken: `none` where it throws.
pub next_token : LeaseStore → Text → Option (ℕ × LeaseStore)
next_token s key =
    let next = suc (counter s key) in
    if leb max_safe_integer (counter s key)
    then none
    else some (next, record s { fencing_counters = put s.fencing_counters key next })

-- The latest time that the store has been given.
abbrev pub clock : LeaseStore → ℕ
clock s = or_zero s.last_observed_at
