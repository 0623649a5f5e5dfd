-- ===== src/Subsumption.antt =====
-- packages/runtime-core/src/receipt-subsumption.ts: when a receipt may stand for a required validation,
-- and which of several is taken.
pub mod Sets
pub mod Eligible
pub mod Chosen
pub mod Best
mod Tests
use premise_protocol.Base.{
  ℕ, suc, Bool, true, false, not, ◌&&◌, ◌||◌, ◌==◌, Text, Text-discrete, text_eq, trim, is_empty,
  Option, none, some, List, [], ◌∷◌, ◌++◌, ltb, leb, any, all, if◌then◌else◌,
}
use premise_protocol.Absence.{is_required}

pub record ReceiptScope : Type 0 where
  pub tenant_id : Text
  pub resource_id : Text
  pub incarnation_id : Text
  pub version_scheme : Text
  pub version_token : Text
  pub validator_id : Text
  pub authorization_context_digest : Text
  pub policy_digest : Text
  pub query_digest : Text
  pub scopes : List Text
  pub change_set_digest : Option Text
  pub causal_frontier : List Text
  pub query_family : Text
  pub query_parts : List Text

pub record Candidate (T : Type 0) : Type 0 where
  pub receipt_id : Text
  pub scope : ReceiptScope
  pub observed_at : Text
  pub expires_at : Text
  pub value : T

pub record Requirement : Type 0 where
  pub scope : ReceiptScope
  pub required_query_parts : List Text
  pub required_scopes : List Text
  pub required_frontier : List Text
  pub now : Text

pub data Reason : Type 0 where
  matches tenant_mismatch resource_mismatch incarnation_mismatch version_scheme_mismatch : Reason
  version_mismatch authorization_mismatch policy_mismatch change_set_mismatch : Reason
  validator_mismatch query_family_mismatch query_insufficient scope_insufficient : Reason
  frontier_insufficient expired invalid : Reason

-- Date.parse, `none` for NaN, else counted from the least time that it can give, and the order of
-- localeCompare: not after.
pub record Host : Type 0 where
  pub parse_date : Text → Option ℕ
  pub locale_le : Text → Text → Bool

-- `<` on strings: by code units.
pub text_lt : Text → Text → Bool
text_lt s [] = false
text_lt [] (d ∷ t) = true
text_lt (c ∷ s) (d ∷ t) = let rest = text_lt s t in ltb c d || (c == d && rest)

-- The function `set` does not throw: strings with a visible character, strictly ascending.
pub ascending : Text → List Text → Bool
ascending previous [] = true
ascending previous (v ∷ vs) = text_lt previous v && ascending v vs

pub is_set : List Text → Bool
is_set [] = true
is_set (v ∷ vs) = all is_required (v ∷ vs) && ascending v vs

abbrev pub has : List Text → Text → Bool
has available v = any (text_eq v) available

pub covers : List Text → List Text → Bool
covers available required = all (has available) required

-- Array.prototype.join with the character U+0000.
pub join : List Text → Text
join [] = []
join (v ∷ []) = v
join (v ∷ w ∷ vs) = v ++ 0 ∷ join (w ∷ vs)

abbrev pub same_digest : Option Text → Option Text → Bool
same_digest none none = true
same_digest (some a) (some b) = text_eq a b
same_digest _ _ = false

abbrev required_unless_null : Option Text → Bool
required_unless_null none = true
required_unless_null (some d) = is_required d

-- validateScope does not throw.
pub valid_scope : ReceiptScope → Bool
valid_scope s =
    is_required s.tenant_id
    && is_required s.resource_id
    && is_required s.incarnation_id
    && is_required s.version_scheme
    && is_required s.version_token
    && is_required s.validator_id
    && is_required s.authorization_context_digest
    && is_required s.policy_digest
    && required_unless_null s.change_set_digest
    && is_required s.query_family
    && is_set s.query_parts
    && is_set s.scopes
    && is_set s.causal_frontier

-- The comparison of what is required beyond the identity.
pub sufficient : ReceiptScope → ReceiptScope → Requirement → Reason
sufficient c r q =
    if not (covers c.query_parts q.required_query_parts)
    then query_insufficient
    else if not (covers c.scopes q.required_scopes)
    then scope_insufficient
    else if not (text_eq (join c.causal_frontier) (join r.causal_frontier))
    then frontier_insufficient
    else if not (covers r.causal_frontier q.required_frontier)
    then frontier_insufficient
    else matches

pub scope_reason : ReceiptScope → ReceiptScope → Requirement → Reason
scope_reason c r q =
    if not (text_eq c.tenant_id r.tenant_id)
    then tenant_mismatch
    else if not (text_eq c.resource_id r.resource_id)
    then resource_mismatch
    else if not (text_eq c.incarnation_id r.incarnation_id)
    then incarnation_mismatch
    else if not (text_eq c.version_scheme r.version_scheme)
    then version_scheme_mismatch
    else if not (text_eq c.version_token r.version_token)
    then version_mismatch
    else if not (text_eq c.validator_id r.validator_id)
    then validator_mismatch
    else if not (text_eq c.authorization_context_digest r.authorization_context_digest)
    then authorization_mismatch
    else if not (text_eq c.policy_digest r.policy_digest)
    then policy_mismatch
    else if not (same_digest c.change_set_digest r.change_set_digest)
    then change_set_mismatch
    else if not (text_eq c.query_family r.query_family)
    then query_family_mismatch
    else sufficient c r q

-- One time of the comparison: the later one first, and the rest if they are the same.
abbrev pub by_times : Option ℕ → Option ℕ → Bool → Bool
by_times (some l) (some r) rest = ltb r l || (l == r && rest)
by_times _ _ rest = rest

module _ (host : Host) where
  pub timestamp : Text → Option ℕ
  timestamp t = if is_required t then host.parse_date t else none

  module _ {T : Type 0} where
    -- The tests that come before the comparison of the scopes, from the times on.
    pub assess_at : Candidate T → Requirement → ℕ → ℕ → ℕ → Reason
    assess_at c q now observed expires =
        if leb expires observed || ltb now observed
        then invalid
        else if leb expires now
        then expired
        else if not (
            is_set q.required_query_parts && is_set q.required_scopes && is_set q.required_frontier)
        then invalid
        else scope_reason c.scope q.scope q

    -- assessReceiptSubsumption: the receipt is eligible if the reason is `matches`. What throws is
    -- caught, and is `invalid`.
    pub assess : Candidate T → Requirement → Reason
    assess c q =
        if not (is_required c.receipt_id && valid_scope c.scope && valid_scope q.scope)
        then invalid
        else elim (timestamp q.now) [
          | none ↦ invalid
          | some now ↦ elim (timestamp c.observed_at) [
            | none ↦ invalid
            | some observed ↦ elim (timestamp c.expires_at) [
              | none ↦ invalid
              | some expires ↦ assess_at c q now observed expires
            ]
          ]
        ]

    -- The comparison of the sort, as "not after": newest observation, then latest expiry, then the order
    -- of the receipts' names. The sort sees only receipts whose times parse.
    pub not_after : Candidate T → Candidate T → Bool
    not_after l r = by_times (host.parse_date l.observed_at) (host.parse_date r.observed_at) (
        by_times (host.parse_date l.expires_at) (host.parse_date r.expires_at)
          (host.locale_le l.receipt_id r.receipt_id))

    -- A stable sort.
    pub insert : Candidate T → List (Candidate T) → List (Candidate T)
    insert c [] = c ∷ []
    insert c (d ∷ ds) = let rest = insert c ds in if not_after c d then c ∷ d ∷ ds else d ∷ rest

    pub sort : List (Candidate T) → List (Candidate T)
    sort [] = []
    sort (c ∷ cs) = insert c (sort cs)

    pub eligible : List (Candidate T) → Requirement → List (Candidate T)
    eligible [] q = []
    eligible (c ∷ cs) q =
        let rest = eligible cs q in elim (assess c q) [ matches ↦ c ∷ rest | _ ↦ rest ]

    -- selectSubsumingReceipt: `none` is its answer `invalid`.
    pub select : List (Candidate T) → Requirement → Option (Candidate T)
    select cs q = elim (sort (eligible cs q)) [ [] ↦ none | c ∷ _ ↦ some c ]
