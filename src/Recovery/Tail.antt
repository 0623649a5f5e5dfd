-- ===== src/Recovery/Tail.antt =====
-- Which tails recover, and what the first wrong entry is answered with.
use premise_protocol.Base.{
  ℕ, suc, zero, false, append-nil, ◌+◌, ◌-◌, ◌<◌, ◌≡◌, ◌↔◌, refl, sym, ap, ◌∙◌, arith, Option, none,
  some, List, [], ◌∷◌, ◌++◌, map, length, ltb, ℕ_discrete,
}
use premise_protocol.Entries.{some_inj}
use premise_protocol.Bursts.Snapshots.{numbers}
use premise_protocol.Recovery.{
  Checkpoint, tail_gap, tail_reordered, tail_cursor, ready, invalid, scan_tail, verify_recovery,
}

-- The cursors that follow a cursor.
abbrev pub following : ℕ → ℕ → List (Option ℕ)
following from n = map some (numbers (suc from) n)

module _ {T : Type 0} where
  -- What is good at the start of a tail is passed over.
  scan-following :
      (c : Checkpoint T) (from n : ℕ) (rest : List (Option ℕ))
      → scan_tail c (suc from) (following from n ++ rest) ≡ scan_tail c (suc (from + n)) rest
  unfolding scan_tail
  scan-following c from zero rest = ap (λ k. scan_tail c (suc k) rest) (omega arith)
  scan-following c from (suc n) rest =
      let below : ltb (suc from) (suc from) ≡ false = ground arith in
      let this : suc from + n ≡ from + suc n = omega arith in
      rw (below, scan_tail)
        (scan-following c (suc from) n rest ∙ ap (λ k. scan_tail c (suc k) rest) this)

  scan-ready :
      (c : Checkpoint T) (from : ℕ) (tail : List (Option ℕ)) (d : Checkpoint T) (final : ℕ)
      → scan_tail c (suc from) tail ≡ ready d final
      → (tail ≡ following from (length tail)) × (d ≡ c) × (final ≡ from + length tail)
  unfolding scan_tail
  scan-ready c from [] d final h = (refl, cc, ground (arith, h))
  scan-ready c from (none ∷ rest) d final h = cc
  scan-ready c from (some cursor ∷ rest) d final h = elim (ℕ_discrete cursor (suc from)) [
    | yes e ↦
        let go : scan_tail c (suc (suc from)) rest ≡ ready d final = ground (arith, h, e) in
        let (a, b, k) = scan-ready c (suc from) rest d final go in
        (ap (λ x. some x ∷ rest) e ∙ ap (λ xs. some (suc from) ∷ xs) a, b, omega (arith, k))
    | no n ↦ absurd (ground (arith, h, n))
  ]

  following-ready :
      (c : Checkpoint T) (n : ℕ)
      → scan_tail c (suc c.event_cursor) (following c.event_cursor n) ≡ ready c (c.event_cursor + n)
  unfolding scan_tail
  following-ready c n =
      let last : suc (c.event_cursor + n) - 1 ≡ c.event_cursor + n = omega arith in
      ap (scan_tail c (suc c.event_cursor)) (sym (append-nil (following c.event_cursor n)))
      ∙ scan-following c c.event_cursor n []
      ∙ ap (ready c) last

  -- Recovery is ready exactly if the checkpoint parses and the cursors of the tail are those that follow
  -- it, one after the other: then with that checkpoint, and the cursor of the last entry.
  pub verify-ready :
      (o : Option (Checkpoint T)) (tail : List (Option ℕ)) (c : Checkpoint T) (final : ℕ)
      → (verify_recovery o tail ≡ ready c final)
        ↔ (o ≡ some c)
          × (tail ≡ following c.event_cursor (length tail))
          × (final ≡ c.event_cursor + length tail)
  unfolding verify_recovery
  verify-ready none tail c final = (λ h. cc, λ (e, _, _). cc)
  verify-ready (some d) tail c final = (
    λ h.
        let (a, b, k) = scan-ready d d.event_cursor tail c final h in
        (
          ap some (sym b),
          a ∙ ap (λ x. following x.event_cursor (length tail)) (sym b),
          k ∙ ap (λ x. x.event_cursor + length tail) (sym b),
        ),
    λ (e, a, k).
        let same : d ≡ c = some_inj e in
        ap (λ x. scan_tail x (suc x.event_cursor) tail) same
        ∙ ap (scan_tail c (suc c.event_cursor)) a
        ∙ following-ready c (length tail)
        ∙ ap (ready c) (sym k),
  )

  -- The first entry that is not the one expected is what is answered, whatever comes after it: an entry
  -- without a cursor, one that was there before, or one after a gap.
  pub verify-first_bad :
      (c : Checkpoint T) (n : ℕ) (rest : List (Option ℕ))
      → (verify_recovery (some c) (following c.event_cursor n ++ none ∷ rest) ≡ invalid tail_cursor)
        × ((cursor : ℕ)
            → (cursor < suc (c.event_cursor + n)
                → verify_recovery (some c) (following c.event_cursor n ++ some cursor ∷ rest)
                  ≡ invalid tail_reordered)
              × (suc (c.event_cursor + n) < cursor
                  → verify_recovery (some c) (following c.event_cursor n ++ some cursor ∷ rest)
                    ≡ invalid tail_gap))
  unfolding verify_recovery scan_tail
  verify-first_bad c n rest = (
    scan-following c c.event_cursor n (none ∷ rest),
    λ cursor. (
      λ below. scan-following c c.event_cursor n (some cursor ∷ rest) ∙ ground (arith, below),
      λ above. scan-following c c.event_cursor n (some cursor ∷ rest) ∙ ground (arith, above),
    ),
  )
