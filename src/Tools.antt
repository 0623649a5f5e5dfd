-- ===== src/Tools.antt =====
-- packages/runtime-core/src/guarded-tools.ts: the data, the validators, and the store of idempotency
-- keys. A side effect is called only after a check and a revalidation, and once for each key.
pub mod Answers
pub mod Guarded
pub mod Run
pub mod Cases
pub mod Stages
pub mod Rewrites
pub mod Retained
pub mod Once
pub mod Proofs
pub mod Proven
pub mod Calls
mod Tests
use premise_protocol.Base.{
  ℕ, suc, Bool, true, false, not, ◌&&◌, ◌||◌, Text, text_eq, Option, none, some, List, [], ◌∷◌,
  ◌++◌, leb, length, Text-discrete, if◌then◌else◌,
}
use premise_protocol.Absence.{is_required}
use premise_protocol.Entries.{OrderedMap, lookup}

pub record Resource : Type 0 where
  pub tenant_id : Text
  pub resource : Text

pub record VersionReference : Type 0 where
  pub scheme : Text
  pub token : Text

-- A version field of a callback's answer: left out, no object with two strings, or one.
pub data VersionField : Type 0 where
  left_out malformed : VersionField
  version : VersionReference → VersionField

pub data ToolState : Type 0 where
  fresh stale invalid unknown missing : ToolState

pub data RevalidationOutcome : Type 0 where
  is_fresh is_changed is_missing is_unknown has_version_mismatch : RevalidationOutcome

pub data ActionOutcome : Type 0 where
  applied version_mismatch rejected unknown_outcome : ActionOutcome

pub data BlockedOutcome : Type 0 where
  by_change by_missing by_unknown by_version_mismatch by_rejection : BlockedOutcome

-- What a callback comes to: an answer, something that is no object, an error, or (for the side effect)
-- the end of its time.
pub data Reply (A : Type 0) : Type 0 where
  replies : A → Reply A
  no_object fails times_out : Reply A

-- The answers of the callbacks; a state or outcome is `none` if it is none of those that are known.
pub record CheckReply : Type 0 where
  pub resource : Resource
  pub state : Option ToolState
  pub version : VersionField
  pub reason : Option Text

pub record RevalidationReply : Type 0 where
  pub resource : Resource
  pub outcome : Option RevalidationOutcome
  pub observed_version : VersionField
  pub reason : Option Text

pub record ActionReply (R : Type 0) : Type 0 where
  pub resource : Resource
  pub outcome : Option ActionOutcome
  pub observed_version : VersionField
  pub result : Option R
  pub reason : Option Text

pub record ActionResult (R : Type 0) : Type 0 where
  pub accepted : Bool
  pub outcome : ActionOutcome
  pub resource : Resource
  pub expected_version : Option VersionReference
  pub observed_version : Option VersionReference
  pub result : Option R
  pub reason : Option Text

-- validVersion, with the version that is valid.
pub valid_version : VersionField → Option VersionReference
valid_version (version v) = if is_required v.scheme && is_required v.token then some v else none
valid_version _ = none

abbrev pub is_left_out : VersionField → Bool
is_left_out left_out = true
is_left_out _ = false

abbrev pub is_given : {A : Type 0} → Option A → Bool
is_given none = false
is_given (some a) = true

pub same_resource : Resource → Resource → Bool
same_resource a b = text_eq a.tenant_id b.tenant_id && text_eq a.resource b.resource

-- resourceFrom accepts it.
pub is_resource : Resource → Bool
is_resource r = is_required r.tenant_id && is_required r.resource

-- An entry of the store: COMPLETED with its result, or PENDING.
pub record Entry (R : Type 0) : Type 0 where
  pub fingerprint : Text
  pub completed : Option (ActionResult R)

pub record IdempotencyStore (R : Type 0) : Type 0 where
  pub entries : OrderedMap (Entry R)
  pub max_entries : ℕ

pub data Claim (R : Type 0) : Type 0 where
  claim_new claim_pending claim_conflict claim_full claim_throws : Claim R
  claim_completed : ActionResult R → Claim R

-- A write through the object that a Map holds under a key.
pub write : {V : Type 0} → Text → V → OrderedMap V → OrderedMap V
write k v [] = []
write k v ((j, w) ∷ es) =
    let rest = write k v es in
    elim (Text-discrete j k) [ yes _ ↦ (j, v) ∷ es | no _ ↦ (j, w) ∷ rest ]

module _ {R : Type 0} where
  abbrev claim_existing : Entry R → Text → Claim R
  claim_existing e fingerprint =
      if not (text_eq e.fingerprint fingerprint)
      then claim_conflict
      else elim e.completed [ none ↦ claim_pending | some r ↦ claim_completed r ]

  pub claim : IdempotencyStore R → Text → Text → IdempotencyStore R × Claim R
  claim s key fingerprint =
      let fresh_entry : Entry R = record { fingerprint = fingerprint; completed = none } in
      if not (is_required key) || not (is_required fingerprint)
      then (s, claim_throws)
      else elim (lookup key s.entries) [
        | some e ↦ (s, claim_existing e fingerprint)
        | none ↦
            if leb s.max_entries (length s.entries)
            then (s, claim_full)
            else (record s { entries = s.entries ++ (key, fresh_entry) ∷ [] }, claim_new)
      ]

  -- `none` if it throws.
  pub complete : IdempotencyStore R → Text → Text → ActionResult R → Option (IdempotencyStore R)
  complete s key fingerprint r = elim (lookup key s.entries) [
    | none ↦ none
    | some e ↦
        if not (text_eq e.fingerprint fingerprint) || is_given e.completed
        then none
        else some (record s {
          entries = write key (record { fingerprint = fingerprint; completed = some r }) s.entries;
        })
  ]
