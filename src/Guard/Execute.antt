-- ===== src/Guard/Execute.antt =====
-- executePremiseGuard of packages/runtime-core/src/premise-guard.ts.
pub mod Ready
pub mod Choose
pub mod Commit
pub mod Observed
mod Tests
use premise_protocol.Base.{
  Bool, true, false, not, ◌&&◌, ◌||◌, ◌==◌, ◌⊎◌, inl, inr, Text, text_eq, is_empty, codes, Option,
  none, some, List, [], ◌∷◌, length, any, if◌then◌else◌,
}
use premise_protocol.Policy.{
  Capability, cas, conditional_action, idempotency_key, fenced_lease, includes,
}
use premise_protocol.Guard.{
  fresh, stale, invalid, unknown, GuardDecision, allow, revalidate, reject, unsupported,
  GuardReason, invalid_intent, duplicate_premise, duplicate_receipt, invalid_receipt,
  missing_conditional_commit, incomplete_slice, stale_receipt, invalid_lease, commit_rejected,
  adapter_says, Opaque, Receipt, Intent, CommitResult, rejects, GuardResult, refusal, contains,
  duplicates, premise_ids, find_receipt, option_eq, Host, receipt_lease_usable,
}

-- How the loop over the critical premises ends: with a refusal, or with the receipts to commit.
pub data Selection : Type 0 where
  stops : GuardDecision → GuardReason → Selection
  selects : List Receipt → Selection

abbrev pub with_first : Receipt → Selection → Selection
with_first r (stops d e) = stops d e
with_first r (selects rs) = selects (r ∷ rs)

module _ (host : Host) (i : Intent) (receipts : List Receipt) where
  -- One round: the receipt of a premise, or why the action is refused.
  pub choose : Text → (GuardDecision × GuardReason) ⊎ Receipt
  choose p = elim (find_receipt receipts p) [
    | none ↦ inl (reject, incomplete_slice)
    | some r ↦
        if not r.valid || elim r.state [ unknown ↦ true | invalid ↦ true | _ ↦ false ]
        then inl (reject, invalid_receipt)
        else if elim r.state [ stale ↦ true | _ ↦ false ]
        then inl (revalidate, stale_receipt)
        else if not (receipt_lease_usable host r i)
        then inl (reject, invalid_lease)
        else inr r
  ]

  pub select : List Text → Selection
  select [] = selects []
  select (p ∷ ps) =
      let rest = select ps in elim (choose p) [ inl (d, e) ↦ stops d e | inr r ↦ with_first r rest ]

-- The identity fields that a receipt has to have.
pub well_formed : Receipt → Bool
well_formed r =
    not (is_empty r.premise_id) && not (is_empty r.identity_key) && not (is_empty r.version_token)

abbrev is_string : Opaque → Text → Bool
is_string o t = elim o.string [ none ↦ false | some s ↦ text_eq s t ]

-- What an observed receipt has to be to count as new evidence.
pub acceptable : Receipt → Bool
unfolding well_formed
acceptable r =
    well_formed r
    && r.valid
    && elim r.state [ fresh ↦ true | _ ↦ false ]
    && not (elim r.revoked [ some true ↦ true | _ ↦ false ])
    && not (is_string r.alerts (codes "RED"))
    && not (is_string r.migration (codes "BLOCKED"))

pub same_artifacts : Receipt → Receipt → Bool
same_artifacts r prior =
    option_eq r.artifact_digest.json prior.artifact_digest.json
    && option_eq r.migration.json prior.migration.json
    && option_eq r.lease.json prior.lease.json
    && option_eq r.alerts.json prior.alerts.json

-- The loop of completeObservedReceipts: false where it returns undefined. `seen` holds the premises
-- of the receipts before this one.
pub all_acceptable : List Receipt → List Text → List Receipt → Bool
unfolding acceptable same_artifacts
all_acceptable previous seen [] = true
all_acceptable previous seen (r ∷ rs) =
    acceptable r
    && not (contains seen r.premise_id)
    && elim (find_receipt previous r.premise_id) [
      | none ↦ false
      | some prior ↦ same_artifacts r prior
    ]
    && all_acceptable previous (r.premise_id ∷ seen) rs

-- The receipts in the order of the premises, if each has one.
pub in_order : List Receipt → List Text → Option (List Receipt)
in_order receipts [] = some []
in_order receipts (p ∷ ps) = elim (find_receipt receipts p) [
  | none ↦ none
  | some r ↦ elim (in_order receipts ps) [ none ↦ none | some rs ↦ some (r ∷ rs) ]
]

pub complete_observed_receipts :
    List Text → Option (List Receipt) → List Receipt → Option (List Receipt)
complete_observed_receipts premises none previous = none
complete_observed_receipts premises (some receipts) previous =
    if length receipts == length premises && all_acceptable previous [] receipts
    then in_order receipts premises
    else none

-- The interface PremiseGuardAdapter; `commit` gives `none` where it throws.
pub record Adapter (T : Type 0) : Type 0 where
  pub capabilities : List Capability
  pub commit : Intent → List Receipt → Option (CommitResult T)

-- The tests ahead of the loop, in their order.
pub precheck : Intent → List Receipt → List Capability → Option (GuardDecision × GuardReason)
precheck i receipts caps =
    if is_empty i.action_digest || is_empty i.idempotency || length i.critical_premises == 0
    then some (reject, invalid_intent)
    else if elim i.lease [
      | none ↦ false
      | some claim ↦ is_empty claim.lease_id || is_empty claim.fencing_token
    ]
    then some (reject, invalid_intent)
    else if duplicates i.critical_premises
    then some (reject, duplicate_premise)
    else if duplicates (premise_ids receipts)
    then some (reject, duplicate_receipt)
    else if any (λ r. not (well_formed r)) receipts
    then some (reject, invalid_receipt)
    else if not (includes caps i.required_capability)
        || not (includes caps idempotency_key)
        || not (includes caps cas || includes caps conditional_action)
        || (elim i.lease [ none ↦ false | some _ ↦ true ] && not (includes caps fenced_lease))
    then some (unsupported, missing_conditional_commit)
    else none

-- What the kernel makes of the adapter's answer.
pub answer : {T : Type 0} → Intent → List Receipt → CommitResult T → GuardResult T
answer i selected c =
    if c.accepted
    then record {
      accepted = true;
      decision = allow;
      result = c.result;
      reason = none;
      observed_version = none;
      observed_receipts = none;
    }
    else elim c.reason [
      | some rejects ↦ record {
        accepted = false;
        decision = reject;
        result = none;
        reason = some (adapter_says rejects);
        observed_version = c.observed_version;
        observed_receipts = none;
      }
      | none ↦ record {
        accepted = false;
        decision = reject;
        result = none;
        reason = some commit_rejected;
        observed_version = c.observed_version;
        observed_receipts = none;
      }
      | some why ↦ record {
        accepted = false;
        decision = revalidate;
        result = none;
        reason = some (adapter_says why);
        observed_version = c.observed_version;
        observed_receipts =
            complete_observed_receipts i.critical_premises c.observed_receipts selected;
      }
    ]

-- executePremiseGuard; `none` where the adapter's commit throws.
pub execute : {T : Type 0} → Host → Intent → List Receipt → Adapter T → Option (GuardResult T)
execute host i receipts adapter = elim (precheck i receipts adapter.capabilities) [
  | some (d, e) ↦ some (refusal d e)
  | none ↦ elim (select host i receipts i.critical_premises) [
    | stops d e ↦ some (refusal d e)
    | selects chosen ↦ elim (adapter.commit i chosen) [
      | none ↦ none
      | some c ↦ some (answer i chosen c)
    ]
  ]
]
