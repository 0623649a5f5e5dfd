-- ===== src/Cache/Tests.antt =====
-- The theorems about the receipt cache at concrete inputs.
use premise_protocol.Base.{ℕ, ◌≡◌, refl, true, arith, Text, codes, Option, none, some, [], ◌∷◌}
use premise_protocol.Cache.{
  Host, Receipt, Cache, hit, create, cache_of, accept, put, get, evict, puts, run,
}
use premise_protocol.Times.{before, is_timestamp}
use premise_protocol.Cache.Bounded.{Inv, run-Inv}
use premise_protocol.Cache.Hits.{put-get}

-- Scopes are texts, and the time of a text is its first code unit.
abbrev first_unit : Text → Option ℕ
first_unit [] = none
first_unit (c ∷ s) = some c

abbrev host : Host Text ℕ
host = record { key_of = λ s. some s; parse_date = first_unit; clone = λ v. some v }

abbrev receipt : Receipt Text ℕ
receipt = record {
  scope = codes "pull";
  is_fresh = true;
  valid = true;
  observed_at = codes "1";
  expires_at = codes "5";
  value = 7;
  semantic_fingerprint = none;
}

abbrev small : Cache Text ℕ
small = cache_of 1

small_made : create (some 1) ≡ some small
unfolding create
small_made = refl

run-Inv_example :
    Inv host (run host small (puts receipt ∷ puts (record receipt { scope = codes "issue" }) ∷ []))
run-Inv_example =
    run-Inv host (some 1) small
      (puts receipt ∷ puts (record receipt { scope = codes "issue" }) ∷ []) small_made

put_key : (put host small receipt).1 ≡ some (codes "pull")
unfolding put accept before is_timestamp evict
put_key = refl

live : before host.parse_date (codes "4") (codes "5") ≡ true
unfolding before
live = refl

put-get_example :
    (v : ℕ) × (some 7 ≡ some v)
    × ((get host (put host small receipt).0 (codes "pull") (codes "4")).1
        ≡ some (hit (record receipt { value = v })))
put-get_example =
    put-get host small receipt (codes "pull") (codes "4") (omega arith) (λ u w h. refl) put_key live
