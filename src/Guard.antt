-- ===== src/Guard.antt =====
-- packages/runtime-core/src/premise-guard.ts: the local execution kernel that asks an adapter for a
-- conditional commit. The adapter's `commit` and the host's clock and Date.parse are arguments.
pub mod Execute
use premise_protocol.Base.{
  ℕ, Bool, true, false, not, ◌&&◌, ◌||◌, ◌==◌, ◌⊎◌, inl, inr, Text, Text-discrete, text_eq,
  is_empty, codes, Option, none, some, List, [], ◌∷◌, length, any, map, ltb, if◌then◌else◌,
}
use premise_protocol.Policy.{
  Capability, cas, conditional_action, atomic_batch, idempotency_key, fenced_lease, includes,
}

pub data GuardState : Type 0 where
  fresh stale invalid unknown : GuardState

pub data GuardDecision : Type 0 where
  allow revalidate reject unsupported : GuardDecision

-- A JSON value that the kernel compares and reads: what JSON.stringify gives for it, and the fields
-- that it reads if the value is an object. `expires_at` is there if it is a string.
pub record LeaseFields : Type 0 where
  pub lease_id : Option Text
  pub fencing_token : Option Text
  pub expires_at : Option Text
  pub invalidated : Bool

pub record Opaque : Type 0 where
  pub json : Option Text
  pub string : Option Text
  pub object : Option LeaseFields

pub record Receipt : Type 0 where
  pub premise_id : Text
  pub state : GuardState
  pub valid : Bool
  pub identity_key : Text
  pub version_token : Text
  pub artifact_digest : Opaque
  pub migration : Opaque
  pub lease : Opaque
  pub alerts : Opaque
  pub revoked : Option Bool

pub record LeaseClaim : Type 0 where
  pub lease_id : Text
  pub fencing_token : Text

pub record Intent : Type 0 where
  pub action_digest : Text
  pub critical_premises : List Text
  pub required_capability : Capability
  pub idempotency : Text
  pub lease : Option LeaseClaim

pub data CommitReason : Type 0 where
  version_mismatch rejects revalidates : CommitReason

pub record CommitResult (T : Type 0) : Type 0 where
  pub accepted : Bool
  pub result : Option T
  pub reason : Option CommitReason
  pub observed_version : Option Text
  pub observed_receipts : Option (List Receipt)

-- Reasons that the kernel gives itself, and the one that it passes on.
pub data GuardReason : Type 0 where
  invalid_intent duplicate_premise duplicate_receipt invalid_receipt : GuardReason
  missing_conditional_commit incomplete_slice stale_receipt invalid_lease : GuardReason
  commit_rejected : GuardReason
  adapter_says : CommitReason → GuardReason

pub record GuardResult (T : Type 0) : Type 0 where
  pub accepted : Bool
  pub decision : GuardDecision
  pub result : Option T
  pub reason : Option GuardReason
  pub observed_version : Option Text
  pub observed_receipts : Option (List Receipt)

abbrev pub refusal : {T : Type 0} → GuardDecision → GuardReason → GuardResult T
refusal d r = record {
  accepted = false;
  decision = d;
  result = none;
  reason = some r;
  observed_version = none;
  observed_receipts = none;
}

abbrev pub contains : List Text → Text → Bool
contains xs a = any (text_eq a) xs

-- `unique(xs).length !== xs.length`: a Set keeps the first of equal elements.
pub duplicates : List Text → Bool
duplicates [] = false
duplicates (x ∷ xs) = contains xs x || duplicates xs

abbrev pub premise_ids : List Receipt → List Text
premise_ids = map (λ r. r.premise_id)

-- new Map(receipts.map(...)).get(premise_id): the last receipt of that premise.
pub find_receipt : List Receipt → Text → Option Receipt
find_receipt [] p = none
find_receipt (r ∷ rs) p = elim (find_receipt rs p) [
  | some later ↦ some later
  | none ↦ if text_eq r.premise_id p then some r else none
]

abbrev pub option_eq : Option Text → Option Text → Bool
option_eq none none = true
option_eq (some a) (some b) = text_eq a b
option_eq _ _ = false

-- The host: Date.parse, with `none` for NaN and for a time before the epoch, which is past by any
-- clock, and Date.now(), one reading for the whole run.
pub record Host : Type 0 where
  pub parse_date : Text → Option ℕ
  pub now : ℕ

module _ (host : Host) where
  unexpired : Option Text → Bool
  unexpired none = false
  unexpired (some t) = elim (host.parse_date t) [ none ↦ false | some e ↦ ltb host.now e ]

  pub receipt_lease_usable : Receipt → Intent → Bool
  unfolding unexpired
  receipt_lease_usable r i = elim i.lease [
    | none ↦ true
    | some claim ↦ elim r.lease.object [
      | none ↦ false
      | some l ↦
          option_eq l.lease_id (some claim.lease_id)
          && option_eq l.fencing_token (some claim.fencing_token)
          && not l.invalidated
          && unexpired l.expires_at
    ]
  ]
