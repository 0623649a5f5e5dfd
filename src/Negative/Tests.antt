-- ===== src/Negative/Tests.antt =====
-- The theorems about the negative cache at concrete inputs.
use premise_protocol.Base.{ℕ, ◌≡◌, refl, Text, codes, Option, none, some, [], ◌∷◌}
use premise_protocol.Quota.Bounded.{IsBounded}
use premise_protocol.Negative.{
  Host, NegativeCache, tenant_of, create, cache_of, is_bad_bound, puts, run,
}
use premise_protocol.Negative.Bounded.{run-IsBounded}

-- Scopes are texts that start with their tenant, and the time of a text is its first code unit.
abbrev first_unit : Text → Option ℕ
first_unit [] = none
first_unit (c ∷ s) = some c

abbrev first_text : Text → Text
first_text [] = []
first_text (c ∷ s) = c ∷ []

abbrev host : Host Text
host = record { key_of = λ s. some s; tenant_id = first_text; parse_date = first_unit }

abbrev small : NegativeCache
small = cache_of 2 (some 1)

small_made : create (some 2) (some 1) ≡ some small
unfolding create is_bad_bound
small_made = refl

run-IsBounded_example :
    IsBounded tenant_of
      (run host small (
        puts (codes "a1") (codes "gone") (codes "5")
        ∷ puts (codes "a2") (codes "gone") (codes "5")
        ∷ [])).quota
run-IsBounded_example =
    run-IsBounded host (some 2) (some 1) small
      (puts (codes "a1") (codes "gone") (codes "5")
        ∷ puts (codes "a2") (codes "gone") (codes "5")
        ∷ [])
      small_made
