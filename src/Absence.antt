-- ===== src/Absence.antt =====
-- packages/runtime-core/src/negative-premises.ts: NegativePremiseStore, a bounded store of observations
-- that a resource is absent, and what may be concluded from one.
pub mod Key
pub mod Store
use premise_protocol.Base.{
  ℕ, suc, Bool, true, false, not, ◌&&◌, ◌||◌, Text, text_eq, trim, is_empty, Option, none, some,
  List, [], ◌∷◌, length, ltb, leb, if◌then◌else◌, empty,
}
use premise_protocol.Quota.{Quota}

pub record Identity : Type 0 where
  pub tenant_id : Text
  pub resource : Text
  pub incarnation_id : Text
  pub query_digest : Text
  pub frontier_digest : Text
  pub authorization_context_digest : Text

-- Date.parse, `none` for NaN, else counted from the least time that it can give; and the SHA-256 digest
-- of the UTF-8 of a text, in hexadecimal digits.
pub record Host : Type 0 where
  pub sha256 : Text → Text
  pub parse_date : Text → Option ℕ

pub record Absent : Type 0 where
  pub identity : Identity
  pub reason : Text
  pub observed_at : Text
  pub expires_at : Text

pub data AbsenceState : Type 0 where
  absent stale unknown : AbsenceState

pub data AbsenceDecision : Type 0 where
  uses revalidates rejects : AbsenceDecision

pub data AbsenceReason : Type 0 where
  is_absent not_found expired frontier_changed entity_present incarnation_changed invalid_scope :
      AbsenceReason

pub record Check : Type 0 where
  pub state : AbsenceState
  pub decision : AbsenceDecision
  pub reason : AbsenceReason

-- An observation. One with a field of another type is no observation.
pub record Observation : Type 0 where
  pub entity_present : Option Bool
  pub frontier_digest : Option Text
  pub incarnation_id : Option Text

pub record AbsenceStore : Type 0 where
  pub quota : Quota Absent
  pub hits : ℕ
  pub misses : ℕ
  pub expirations : ℕ

unfoldable pub is_required : Text → Bool
is_required t = not (is_empty (trim t))

pub valid_scope : Identity → Bool
valid_scope i =
    is_required i.tenant_id
    && is_required i.resource
    && is_required i.incarnation_id
    && is_required i.query_digest
    && is_required i.frontier_digest
    && is_required i.authorization_context_digest

abbrev given : Option Text → Bool
given none = false
given (some t) = true

abbrev required_if_given : Option Text → Bool
required_if_given none = true
required_if_given (some t) = is_required t

abbrev is_given_flag : Option Bool → Bool
is_given_flag none = false
is_given_flag (some b) = true

pub valid_observation : Observation → Bool
valid_observation o =
    required_if_given o.frontier_digest
    && required_if_given o.incarnation_id
    && (is_given_flag o.entity_present || given o.frontier_digest || given o.incarnation_id)

-- The tests of `assertObservation`.
pub observed : Option Observation → Option Observation
observed none = none
observed (some o) = if valid_observation o then some o else none

pub decision : AbsenceState → AbsenceDecision
decision absent = uses
decision stale = revalidates
decision unknown = rejects

abbrev pub answer : AbsenceState → AbsenceReason → Check
answer s r = record { state = s; decision = decision s; reason = r }

abbrev pub tenant_of : Absent → Text
tenant_of e = e.identity.tenant_id

-- What was observed differs from what was stored.
abbrev differs : Option Text → Text → Bool
differs none t = false
differs (some s) t = not (text_eq s t)

abbrev is_true : Option Bool → Bool
is_true (some true) = true
is_true _ = false

-- The end of `check`, for a stored absence that holds at the time.
pub compare_observed : Absent → Observation → Check
compare_observed e o =
    if differs o.incarnation_id e.identity.incarnation_id
    then answer stale incarnation_changed
    else if differs o.frontier_digest e.identity.frontier_digest
    then answer stale frontier_changed
    else if is_true o.entity_present
    then answer stale entity_present
    else answer absent is_absent

abbrev max_safe_integer : ℕ
max_safe_integer = 0x1fffffffffffff

pub is_bad_bound : ℕ → Bool
is_bad_bound n = ltb n 1 || ltb max_safe_integer n

abbrev pub bound_of : Option ℕ → ℕ
bound_of none = 1024
bound_of (some n) = n

abbrev pub is_bad_option : Option ℕ → Bool
is_bad_option none = false
is_bad_option (some n) = is_bad_bound n

abbrev pub store_of : ℕ → Option ℕ → AbsenceStore
store_of bound per_tenant = record {
  quota = record {
    entries = [];
    tenant_counts = empty;
    max_entries = bound;
    max_per_tenant = per_tenant;
    evictions = 0;
    peak_entries = 0;
  };
  hits = 0;
  misses = 0;
  expirations = 0;
}

-- The constructor; `none` where it throws. An option that is no natural number throws like 0.
pub create : Option ℕ → Option ℕ → Option AbsenceStore
create max_entries per_tenant =
    if is_bad_bound (bound_of max_entries) || is_bad_option per_tenant
    then none
    else some (store_of (bound_of max_entries) per_tenant)
