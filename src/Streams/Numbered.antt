-- ===== src/Streams/Numbered.antt =====
-- Events that are numbered one after the other.
use premise_protocol.Base.{
  ℕ, suc, ◌+◌, ◌≤◌, ◌<◌, ◌≡◌, sym, subst, arith, Bool, true, List, [], ◌∷◌, ◌++◌, length, all, All,
}
use premise_protocol.Events.{is_snapshot}
use premise_protocol.Bursts.{StreamEvent}
use premise_protocol.Bursts.Snapshots.{numbers, sequences, cons_tail}
use premise_protocol.Streams.Pages.{last_of}

module _ {T : Type 0} where
  pub numbered_tail :
      (n : ℕ) (e : StreamEvent T) (es : List (StreamEvent T))
      → sequences (e ∷ es) ≡ numbers n (length (e ∷ es))
      → (e.sequence ≡ n) × (sequences es ≡ numbers (suc n) (length es))
  numbered_tail n e es h = (cc, cons_tail h)

  -- The end of numbered events is numbered.
  pub numbered_end :
      (n : ℕ) (p : List (StreamEvent T)) (x : StreamEvent T) (d : List (StreamEvent T))
      → sequences (p ++ x ∷ d) ≡ numbers n (length (p ++ x ∷ d))
      → sequences (x ∷ d) ≡ numbers x.sequence (length (x ∷ d))
  numbered_end n [] x d h =
      let (e, t) = numbered_tail n x d h in
      subst (λ m. sequences (x ∷ d) ≡ numbers m (length (x ∷ d))) (sym e) h
  numbered_end n (e ∷ p) x d h = numbered_end (suc n) p x d (numbered_tail n e (p ++ x ∷ d) h).1

  pub numbered-last :
      (n : ℕ) (x : StreamEvent T) (d : List (StreamEvent T))
      → sequences (x ∷ d) ≡ numbers n (length (x ∷ d))
      → (last_of x d).sequence ≡ n + length d
  unfolding last_of
  numbered-last n x [] h = let e = (numbered_tail n x [] h).0 in omega (arith, e)
  numbered-last n x (y ∷ d) h =
      omega (arith, numbered-last (suc n) y d (numbered_tail n x (y ∷ d) h).1)

  pub numbered-below :
      (n m : ℕ) (es : List (StreamEvent T))
      → sequences es ≡ numbers n (length es)
      → n + length es ≤ m
      → All (λ e. e.sequence < m) es
  numbered-below n m [] h le = tt
  numbered-below n m (e ∷ es) h le =
      let (first, rest) = numbered_tail n e es h in
      (omega (arith, first, le), numbered-below (suc n) m es rest (omega arith))

  -- The first event is a snapshot.
  abbrev pub Starts : List (StreamEvent T) → Type 0
  Starts [] = ⊥
  Starts (e ∷ es) = is_snapshot e.kind ≡ true

  pub All-end :
      (P : StreamEvent T → Type 0) (p : List (StreamEvent T)) (es : List (StreamEvent T))
      → All P (p ++ es)
      → All P es
  All-end P [] es a = a
  All-end P (e ∷ p) es a = All-end P p es a.1

  pub all-All :
      (f : StreamEvent T → Bool) (es : List (StreamEvent T))
      → all f es ≡ true
      → All (λ e. f e ≡ true) es
  all-All f [] h = tt
  all-All f (e ∷ es) h = (ground (arith, h), all-All f es (ground (arith, h)))

  -- The events are numbered from their first on.
  abbrev pub Numbered : List (StreamEvent T) → Type 0
  Numbered [] = ⊥
  Numbered (e ∷ es) = sequences (e ∷ es) ≡ numbers e.sequence (length (e ∷ es))
