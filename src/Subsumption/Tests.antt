-- ===== src/Subsumption/Tests.antt =====
-- The theorems on subsumption at concrete inputs.
use premise_protocol.Base.{
  ℕ, ◌≡◌, ◌≢◌, ◌↔◌, refl, arith, Bool, Text, codes, trim, Text-discrete, Option, none, some, List,
  [], ◌∷◌, leb,
}
use premise_protocol.Absence.{is_required}
use premise_protocol.Subsumption.{
  ReceiptScope, Candidate, Requirement, matches, Host, is_set, covers, join, valid_scope, timestamp,
  assess, select, not_after, ascending, text_lt, assess_at, scope_reason, sufficient, sort,
  eligible, insert,
}
use premise_protocol.Subsumption.Eligible.{Eligible, assess-Eligible, assess-frontier}
use premise_protocol.Subsumption.Chosen.{Among, IsOrder, NotAfter}
use premise_protocol.Subsumption.Best.{select-best}

-- The time of a text is its first code unit, by which names are ordered, too.
abbrev first_unit : Text → Option ℕ
first_unit [] = none
first_unit (c ∷ s) = some c

abbrev rank : Text → ℕ
rank [] = 0
rank (c ∷ s) = c

abbrev by_rank : Text → Text → Bool
by_rank a b = leb (rank a) (rank b)

abbrev host : Host
host = record { parse_date = first_unit; locale_le = by_rank }

by_rank-IsOrder : IsOrder by_rank
by_rank-IsOrder = record { total = λ a b. ground arith; trans = λ a b c h k. ground (arith, h, k) }

abbrev scope : ReceiptScope
scope = record {
  tenant_id = codes "t";
  resource_id = codes "r";
  incarnation_id = codes "i";
  version_scheme = codes "s";
  version_token = codes "v";
  validator_id = codes "d";
  authorization_context_digest = codes "a";
  policy_digest = codes "p";
  query_digest = codes "q";
  scopes = codes "read" ∷ codes "write" ∷ [];
  change_set_digest = none;
  causal_frontier = codes "e1" ∷ codes "e2" ∷ [];
  query_family = codes "f";
  query_parts = codes "x" ∷ codes "y" ∷ [];
}

abbrev need : Requirement
need = record {
  scope = scope;
  required_query_parts = codes "x" ∷ [];
  required_scopes = codes "write" ∷ [];
  required_frontier = codes "e1" ∷ [];
  now = codes "5";
}

abbrev older : Candidate ℕ
older = record {
  receipt_id = codes "o";
  scope = scope;
  observed_at = codes "1";
  expires_at = codes "9";
  value = 1;
}

abbrev newer : Candidate ℕ
newer = record {
  receipt_id = codes "n";
  scope = scope;
  observed_at = codes "2";
  expires_at = codes "9";
  value = 2;
}

abbrev two : List (Candidate ℕ)
two = older ∷ newer ∷ []

assess-older : assess host older need ≡ matches
unfolding assess timestamp valid_scope is_set covers join is_required trim ascending text_lt
    assess_at scope_reason Text-discrete sufficient
assess-older = refl

select-two : select host two need ≡ some newer
unfolding assess timestamp valid_scope is_set covers join is_required trim ascending text_lt
    assess_at scope_reason Text-discrete sufficient select not_after sort eligible insert
select-two = refl

assess-Eligible_example : (assess host older need ≡ matches) ↔ Eligible host older need
assess-Eligible_example = assess-Eligible host older need

assess-frontier_example : older.scope.causal_frontier ≡ need.scope.causal_frontier
assess-frontier_example = assess-frontier host older need (ground arith) (ground arith) assess-older

select-best_example :
    ((c : Candidate ℕ)
      → select host two need ≡ some c
      → Among c two
        × (assess host c need ≡ matches)
        × ((d : Candidate ℕ) → Among d two → assess host d need ≡ matches → NotAfter host c d))
    × (select host two need ≡ none → (d : Candidate ℕ) → Among d two → assess host d need ≢ matches)
select-best_example = select-best host by_rank-IsOrder two need
