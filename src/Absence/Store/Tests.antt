-- ===== src/Absence/Store/Tests.antt =====
-- The theorems about the store of absences at concrete inputs.
use premise_protocol.Base.{
  ℕ, ◌≡◌, ◌≢◌, ◌↔◌, refl, ◌⊎◌, true, false, ◌&&◌, Text, codes, trim, Option, none, some, [], ◌∷◌,
  ◌++◌,
}
use premise_protocol.Entries.{lookup}
use premise_protocol.Absence.{
  Identity, Host, Absent, Observation, AbsenceStore, uses, create, is_bad_bound, store_of,
  is_required,
}
use premise_protocol.Absence.Key.{scope_of}
use premise_protocol.Absence.Store.{check, invalidate_on_appearance, puts, checks, run}
use premise_protocol.Absence.Store.Kept.{Sound, run-Sound}
use premise_protocol.Absence.Store.Checked.{decided, Usable, check-uses}
use premise_protocol.Absence.Store.Appearance.{appearance-exact}

-- A digest that keeps the text; the time of a text is its first code unit.
abbrev first_unit : Text → Option ℕ
first_unit [] = none
first_unit (c ∷ s) = some c

abbrev host : Host
host = record { sha256 = λ t. t; parse_date = first_unit }

abbrev pull : Identity
pull = record {
  tenant_id = codes "t";
  resource = codes "r";
  incarnation_id = codes "i";
  query_digest = codes "q";
  frontier_digest = codes "f";
  authorization_context_digest = codes "a";
}

abbrev gone : Absent
gone = record {
  identity = pull;
  reason = codes "404";
  observed_at = codes "1";
  expires_at = codes "5";
}

abbrev seen_absent : Observation
seen_absent = record { entity_present = some false; frontier_digest = none; incarnation_id = none }

abbrev small : AbsenceStore
small = store_of 2 (some 1)

made : create (some 2) (some 1) ≡ some small
unfolding create is_bad_bound
made = refl

run-Sound_example :
    Sound host
      (run host small
        (puts gone ∷ checks (scope_of pull) (codes "3") (some seen_absent) ∷ [])).quota
run-Sound_example =
    run-Sound host (some 2) (some 1) small
      (puts gone ∷ checks (scope_of pull) (codes "3") (some seen_absent) ∷ []) made

abbrev stored : AbsenceStore
stored = run host small (puts gone ∷ [])

check-uses_example :
    (decided (check host stored (scope_of pull) (codes "3") (some seen_absent)).1 ≡ some uses)
    ↔ Usable host stored (scope_of pull) (codes "3") (some seen_absent)
check-uses_example =
    check-uses host stored (scope_of pull) (codes "3") (some seen_absent)
      (λ k e u v f is was same. same) (run-Sound host (some 2) (some 1) small (puts gone ∷ []) made)

abbrev pull_key : Text
pull_key =
    codes "sha256:{\"authorizationContextDigest\":\"a\",\"domain\":\"premise-negative/1\","
    ++ codes "\"frontierDigest\":\"f\",\"incarnationId\":\"i\",\"queryDigest\":\"q\","
    ++ codes "\"resource\":\"r\",\"tenantId\":\"t\"}"

names_ok : (is_required (codes "t") && is_required (codes "r") && is_required (codes "j")) ≡ true
unfolding is_required trim
names_ok = refl

appearance-exact_example :
    (lookup pull_key
        (invalidate_on_appearance stored (codes "t") (codes "r") (codes "j")).0.quota.entries
      ≡ some gone)
    ↔ ((lookup pull_key stored.quota.entries ≡ some gone)
        × ((gone.identity.tenant_id ≢ codes "t") ⊎ (gone.identity.resource ≢ codes "r")))
appearance-exact_example =
    appearance-exact stored (codes "t") (codes "r") (codes "j") pull_key gone
      (run-Sound host (some 2) (some 1) small (puts gone ∷ []) made).0.inv names_ok
