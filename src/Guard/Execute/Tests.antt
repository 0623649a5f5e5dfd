-- ===== src/Guard/Execute/Tests.antt =====
-- The theorems about executePremiseGuard at concrete inputs.
use premise_protocol.Base.{
  ℕ, ◌≡◌, refl, ◌↔◌, true, Text, Text-discrete, codes, Option, none, some, List, [], ◌∷◌, All,
}
use premise_protocol.Policy.{cas, idempotency_key}
use premise_protocol.Guard.{
  fresh, Opaque, Receipt, Intent, CommitResult, GuardResult, Host, premise_ids, find_receipt,
}
use premise_protocol.Guard.Execute.{
  Adapter, execute, complete_observed_receipts, all_acceptable, in_order,
}
use premise_protocol.Guard.Execute.Commit.{Committed, execute-Committed, execute-only-Chosen}
use premise_protocol.Guard.Execute.Ready.{MayCommit}
use premise_protocol.Guard.Execute.Choose.{Chosen}
use premise_protocol.Guard.Execute.Observed.{IsRenewal, complete-IsRenewal}

abbrev host : Host
host = record { parse_date = λ t. none; now = 1000 }

abbrev nothing : Opaque
nothing = record { json = none; string = none; object = none }

abbrev receipt : Text → Text → Receipt
receipt p v = record {
  premise_id = p;
  state = fresh;
  valid = true;
  identity_key = codes "repo";
  version_token = v;
  artifact_digest = nothing;
  migration = nothing;
  lease = nothing;
  alerts = nothing;
  revoked = none;
}

abbrev receipts : List Receipt
receipts = (receipt (codes "b") (codes "v1") ∷ receipt (codes "a") (codes "v1") ∷ [])

abbrev intent : Intent
intent = record {
  action_digest = codes "sha256:1";
  critical_premises = (codes "a" ∷ codes "b" ∷ []);
  required_capability = cas;
  idempotency = codes "k";
  lease = none;
}

-- Adapters that commit, and that throw without receipts.
abbrev commits : Adapter ℕ
commits = record {
  capabilities = (cas ∷ idempotency_key ∷ []);
  commit = λ i rs. some (record {
    accepted = true;
    result = some 7;
    reason = none;
    observed_version = none;
    observed_receipts = none;
  });
}

abbrev not_without_receipts : Intent → List Receipt → Option (CommitResult ℕ)
not_without_receipts i [] = none
not_without_receipts i (r ∷ rs) = commits.commit i (r ∷ rs)

abbrev careful : Adapter ℕ
careful = record { capabilities = (cas ∷ idempotency_key ∷ []); commit = not_without_receipts }

execute-Committed_example :
    ((res : GuardResult ℕ) × (execute host intent receipts commits ≡ some res)
      × (res.accepted ≡ true)
      × (res.result ≡ some 7))
    ↔ Committed host intent receipts commits (some 7)
execute-Committed_example = execute-Committed host intent receipts commits (some 7)

alike :
    (rs : List Receipt)
    → MayCommit intent receipts commits.capabilities
    → Chosen host intent receipts intent.critical_premises rs
    → commits.commit intent rs ≡ careful.commit intent rs
alike [] may chosen = elim chosen [ ]
alike (r ∷ rs) may chosen = refl

execute-only-Chosen_example :
    execute host intent receipts commits ≡ execute host intent receipts careful
execute-only-Chosen_example = execute-only-Chosen host intent receipts commits careful refl alike

complete_test :
    complete_observed_receipts
      (codes "a" ∷ codes "b" ∷ [])
      (some (receipt (codes "b") (codes "v2") ∷ receipt (codes "a") (codes "v2") ∷ []))
      receipts
    ≡ some (receipt (codes "a") (codes "v2") ∷ receipt (codes "b") (codes "v2") ∷ [])
unfolding complete_observed_receipts all_acceptable in_order find_receipt Text-discrete
complete_test = refl

complete-IsRenewal_example :
    (premise_ids (receipt (codes "a") (codes "v2") ∷ receipt (codes "b") (codes "v2") ∷ [])
      ≡ (codes "a" ∷ codes "b" ∷ []))
    × All
        (IsRenewal receipts)
        (receipt (codes "a") (codes "v2") ∷ receipt (codes "b") (codes "v2") ∷ [])
complete-IsRenewal_example =
    complete-IsRenewal (codes "a" ∷ codes "b" ∷ [])
      (some (receipt (codes "b") (codes "v2") ∷ receipt (codes "a") (codes "v2") ∷ [])) receipts
      (receipt (codes "a") (codes "v2") ∷ receipt (codes "b") (codes "v2") ∷ []) complete_test
