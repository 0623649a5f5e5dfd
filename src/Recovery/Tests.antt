-- ===== src/Recovery/Tests.antt =====
-- The theorems on recovery at concrete inputs.
use premise_protocol.Base.{
  ℕ, suc, ◌+◌, ◌<◌, ◌≡◌, ◌↔◌, Option, none, some, List, [], ◌∷◌, ◌++◌, length,
}
use premise_protocol.Recovery.{
  Checkpoint, tail_gap, tail_reordered, tail_cursor, ready, invalid, verify_recovery,
}
use premise_protocol.Recovery.Tail.{following, verify-ready, verify-first_bad}

abbrev at_seven : Checkpoint ℕ
at_seven = record { event_cursor = 7; body = 0 }

abbrev two_more : List (Option ℕ)
two_more = some 8 ∷ some 9 ∷ []

verify-ready_example :
    (verify_recovery (some at_seven) two_more ≡ ready at_seven 9)
    ↔ (some at_seven ≡ some at_seven)
      × (two_more ≡ following 7 (length two_more))
      × (9 ≡ 7 + length two_more)
verify-ready_example = verify-ready (some at_seven) two_more at_seven 9

verify-first_bad_example :
    (verify_recovery (some at_seven) (following 7 1 ++ none ∷ []) ≡ invalid tail_cursor)
    × ((cursor : ℕ)
        → (cursor < suc (7 + 1)
            → verify_recovery (some at_seven) (following 7 1 ++ some cursor ∷ [])
              ≡ invalid tail_reordered)
          × (suc (7 + 1) < cursor
              → verify_recovery (some at_seven) (following 7 1 ++ some cursor ∷ [])
                ≡ invalid tail_gap))
verify-first_bad_example = verify-first_bad at_seven 1 []
