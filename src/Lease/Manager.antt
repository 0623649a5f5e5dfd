-- ===== src/Lease/Manager.antt =====
-- ValidationLeaseManager of packages/runtime-core/src/validation-lease.ts, over any store. The clock is
-- what one reading of it gives: `none` where it throws.
pub mod Calls
use premise_protocol.Base.{
  ℕ, ◌+◌, ◌-◌, Bool, true, false, ◌&&◌, Text, text_eq, Option, none, some, leb, ltb, if◌then◌else◌,
}
use premise_protocol.Lease.{
  Number, nat, Scope, Lease, Reason, ok, invalid_input, clock_unavailable, clock_regression,
  store_unavailable, lease_active, lease_missing, lease_expired, owner_mismatch, lease_id_mismatch,
  stale_fencing_token, AcquireRequest, RenewRequest, HolderRequest, AcquireResult, MutationResult,
  ValidationResult, Attempt, returns, throws, valid_text, valid_scope, time_of, token_of,
  max_safe_integer,
}

-- The interface ValidationLeaseStore.
pub record StoreOps (S : Type 0) : Type 0 where
  pub acquire : S → AcquireRequest → Number → S × Attempt AcquireResult
  pub renew : S → RenewRequest → Number → S × Attempt MutationResult
  pub release : S → HolderRequest → Number → S × Attempt MutationResult
  pub validate : S → HolderRequest → Number → S × Attempt ValidationResult

pub record AcquireInput : Type 0 where
  pub scope : Scope
  pub owner : Text
  pub lease_id : Text
  pub duration_ms : Option Number

pub record RenewInput : Type 0 where
  pub scope : Scope
  pub owner : Text
  pub lease_id : Text
  pub fencing_token : Number
  pub duration_ms : Option Number

pub data Verdict : Type 0 where
  acquired already_held contended renewed released valid rejected : Verdict

pub record Decision : Type 0 where
  pub accepted : Bool
  pub decision : Verdict
  pub reason : Reason
  pub lease : Option Lease

pub record Manager (S : Type 0) : Type 0 where
  pub store : S
  pub default_duration : ℕ
  pub last_observed_at : Option ℕ

-- A safe integer that is positive.
pub duration_of : Number → Option ℕ
unfolding token_of
duration_of n = token_of n

abbrev pub default_lease_duration_ms : ℕ
default_lease_duration_ms = 30000

abbrev pub or_else : {A : Type 0} → Option A → A → A
or_else none a = a
or_else (some b) a = b

-- The constructor: `none` where it throws.
pub create : {S : Type 0} → S → Option Number → Option (Manager S)
unfolding duration_of
create store lease_duration_ms =
    elim (duration_of (or_else lease_duration_ms (nat default_lease_duration_ms))) [
      | none ↦ none
      | some d ↦ some (record { store = store; default_duration = d; last_observed_at = none })
    ]

abbrev pub rejected_for : Reason → Decision
rejected_for r = record { accepted = false; decision = rejected; reason = r; lease = none }

abbrev pub successful : Verdict → Option Lease → Decision
successful d l = record { accepted = true; decision = d; reason = ok; lease = l }

abbrev pub in_range : ℕ → Bool
in_range n = leb n max_safe_integer

same_scope : Scope → Scope → Bool
same_scope a b = text_eq a.tenant_id b.tenant_id && text_eq a.resource_id b.resource_id

-- validLeaseForScope: what the manager asks of a lease that the store gives it.
pub valid_lease_for_scope : Lease → Scope → ℕ → Bool
unfolding same_scope
valid_lease_for_scope l scope now =
    same_scope l.scope scope
    && valid_text l.owner
    && valid_text l.lease_id
    && (in_range l.fencing_token && ltb 0 l.fencing_token)
    && in_range l.acquired_at
    && in_range l.renewed_at
    && in_range l.expires_at
    && leb l.acquired_at l.renewed_at
    && leb l.renewed_at now
    && ltb now l.expires_at

-- storeReason: what the store may say of its refusal, all else being taken for its failure.
pub store_reason : Reason → Reason
store_reason invalid_input = invalid_input
store_reason lease_missing = lease_missing
store_reason lease_expired = lease_expired
store_reason owner_mismatch = owner_mismatch
store_reason lease_id_mismatch = lease_id_mismatch
store_reason stale_fencing_token = stale_fencing_token
store_reason r = store_unavailable

valid_duration_input : Option Number → Bool
unfolding duration_of
valid_duration_input none = true
valid_duration_input (some n) = elim (duration_of n) [ none ↦ false | some _ ↦ true ]

pub valid_acquire_input : AcquireInput → Bool
unfolding valid_duration_input
valid_acquire_input i =
    valid_scope i.scope
    && valid_text i.owner
    && valid_text i.lease_id
    && valid_duration_input i.duration_ms

pub valid_renew_input : RenewInput → Bool
unfolding valid_duration_input
valid_renew_input i =
    valid_scope i.scope
    && valid_text i.owner
    && valid_text i.lease_id
    && elim (token_of i.fencing_token) [ none ↦ false | some _ ↦ true ]
    && valid_duration_input i.duration_ms

pub valid_mutation_input : HolderRequest → Bool
valid_mutation_input i =
    valid_scope i.scope
    && valid_text i.owner
    && valid_text i.lease_id
    && elim (token_of i.fencing_token) [ none ↦ false | some _ ↦ true ]

pub expiry : ℕ → ℕ → Option ℕ
expiry now duration = if leb now (max_safe_integer - duration) then some (now + duration) else none

pub data ClockReading (S : Type 0) : Type 0 where
  reads : ℕ → Manager S → ClockReading S
  fails : Reason → ClockReading S

module _ {S : Type 0} where
  -- readClock
  pub read_clock : Manager S → Option Number → ClockReading S
  read_clock m none = fails clock_unavailable
  read_clock m (some n) = elim (time_of n) [
    | none ↦ fails clock_unavailable
    | some t ↦ elim m.last_observed_at [
      | none ↦ reads t (record m { last_observed_at = some t })
      | some last ↦
          if ltb t last
          then fails clock_regression
          else reads t (record m { last_observed_at = some t })
    ]
  ]

  pub duration : Manager S → Option Number → Option ℕ
  unfolding duration_of
  duration m value = duration_of (or_else value (nat m.default_duration))
