-- ===== src/Tools/Answers.antt =====
-- The state of the class GuardedTool, and what it accepts of the answer to a check or a revalidation.
use premise_protocol.Base.{
  ℕ, Bool, true, false, not, ◌&&◌, ◌==◌, Text, Option, none, some, [], if◌then◌else◌,
}
use premise_protocol.Entries.{OrderedMap}
use premise_protocol.Tools.{
  Resource, VersionReference, VersionField, ToolState, fresh, stale, invalid, unknown, missing,
  RevalidationOutcome, is_fresh, is_changed, is_missing, has_version_mismatch, BlockedOutcome,
  by_change, by_missing, by_unknown, by_version_mismatch, by_rejection, Reply, replies, CheckReply,
  RevalidationReply, ActionResult, valid_version, is_left_out, is_given, same_resource, is_resource,
  IdempotencyStore,
}

pub record StoredCheck : Type 0 where
  pub resource : Resource
  pub state : ToolState
  pub version : Option VersionReference

pub record ProofResource : Type 0 where
  pub resource : Resource
  pub version : VersionReference

pub record ActionRequest (A : Type 0) : Type 0 where
  pub resource : Resource
  pub expected_version : VersionReference
  pub idempotency_key : Text
  pub action : A

-- Where an action that was launched stands: its microtask is queued, its callback is called, or its
-- promise has its result.
pub data Phase (R : Type 0) : Type 0 where
  queued calling : Phase R
  answered : ActionResult R → Phase R

pub record InFlight (A R : Type 0) : Type 0 where
  pub fingerprint : Text
  pub request : ActionRequest A
  pub phase : Phase R

-- The tool. An object that it returned is a number; `calls` are the calls of the side effect so far,
-- under their keys, the latest first.
pub record GuardedTool (A R : Type 0) : Type 0 where
  pub checks : ℕ → Option StoredCheck
  pub ready : ℕ → Option ProofResource
  pub next_identity : ℕ
  pub store : IdempotencyStore R
  pub in_flight : OrderedMap (InFlight A R)
  pub calls : OrderedMap (ActionRequest A)

-- An object that a caller hands in: its identity, and what its fields now read.
pub record Handle : Type 0 where
  pub identity : ℕ
  pub resource : Resource
  pub version : VersionField

abbrev pub set_at : {V : Type 0} → ℕ → V → (ℕ → Option V) → ℕ → Option V
set_at i v m j = if i == j then some v else m j

-- resourceFrom(input) ?? the empty resource.
abbrev pub resource_of : Handle → Resource
resource_of h =
    if is_resource h.resource then h.resource else record { tenant_id = []; resource = [] }

abbrev needs_version : ToolState → Bool
needs_version fresh = true
needs_version stale = true
needs_version _ = false

-- The answer of a check that is stored, `none` where the result is UNKNOWN.
unfoldable pub accept_check : Resource → Reply CheckReply → Option StoredCheck
accept_check input (replies r) =
    if not (same_resource r.resource input) then none else elim r.state [
      | none ↦ none
      | some state ↦
          if needs_version state && not (is_given (valid_version r.version))
          then none
          else if not (is_left_out r.version) && not (is_given (valid_version r.version))
          then none
          else some (record { resource = input; state = state; version = valid_version r.version })
    ]
accept_check input _ = none

-- The proof that a revalidation gives, or what blocks it.
pub data Revalidation : Type 0 where
  proves : ProofResource → Revalidation
  blocked : BlockedOutcome → Revalidation

abbrev blocks_as : RevalidationOutcome → BlockedOutcome
blocks_as is_changed = by_change
blocks_as is_missing = by_missing
blocks_as has_version_mismatch = by_version_mismatch
blocks_as _ = by_unknown

unfoldable pub accept_revalidation : Resource → Reply RevalidationReply → Revalidation
accept_revalidation resource (replies r) =
    if not (same_resource r.resource resource) then blocked by_unknown else elim r.outcome [
      | none ↦ blocked by_unknown
      | some outcome ↦
          if not (is_left_out r.observed_version)
            && not (is_given (valid_version r.observed_version))
          then blocked by_unknown
          else elim outcome [
            | is_fresh ↦ elim (valid_version r.observed_version) [
              | none ↦ blocked by_unknown
              | some v ↦ proves (record { resource = resource; version = v })
            ]
            | other ↦ blocked (blocks_as other)
          ]
    ]
accept_revalidation resource _ = blocked by_unknown

-- What a stored check allows.
unfoldable pub revalidate_stored :
    Option StoredCheck → Resource → Reply RevalidationReply → Revalidation
revalidate_stored none resource reply = blocked by_unknown
revalidate_stored (some c) resource reply =
    if not (same_resource c.resource resource) then blocked by_unknown else elim c.state [
      | missing ↦ blocked by_missing
      | unknown ↦ blocked by_unknown
      | invalid ↦ blocked by_rejection
      | _ ↦ elim c.version [
        | none ↦ blocked by_unknown
        | some v ↦ accept_revalidation resource reply
      ]
    ]
