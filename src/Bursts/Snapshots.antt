-- ===== src/Bursts/Snapshots.antt =====
-- The latest snapshot of a burst, its streams and its sequence numbers.
use premise_protocol.Base.{
  ℕ, zero, suc, ◌+◌, ◌≡◌, ◌↔◌, ◌⊎◌, inl, inr, refl, sym, ap, ◌∙◌, arith, true, false, Option, some,
  List, [], ◌∷◌, ◌++◌, map, length, all, All, Bool-cases,
}
use premise_protocol.Events.{is_snapshot}
use premise_protocol.Bursts.{StreamEvent, drop, take, same_stream, contiguous, latest_snapshot}

pub drop_all {ℓ} : {A : Type ℓ} (xs ys : List A) → drop (length xs) (xs ++ ys) ≡ ys
drop_all [] ys = refl
drop_all (x ∷ xs) ys = drop_all xs ys

pub take_all {ℓ} : {A : Type ℓ} (xs ys : List A) → take (length xs) (xs ++ ys) ≡ xs
take_all [] ys = refl
take_all (x ∷ xs) ys = ap (λ zs. x ∷ zs) (take_all xs ys)

-- The numbers from one on.
abbrev pub numbers : ℕ → ℕ → List ℕ
numbers from zero = []
numbers from (suc n) = from ∷ numbers (suc from) n

pub cons_tail {ℓ} : {A : Type ℓ} {a b : A} {xs ys : List A} → a ∷ xs ≡ b ∷ ys → xs ≡ ys
cons_tail h = cc

module _ {T : Type 0} where
  abbrev pub sequences : List (StreamEvent T) → List ℕ
  sequences es = map (λ e. e.sequence) es

  abbrev pub Deltas : List (StreamEvent T) → Type 0
  Deltas es = All (λ e. is_snapshot e.kind ≡ false) es

  pub contiguous_lem :
      (e : StreamEvent T) (es : List (StreamEvent T))
      → (contiguous (e ∷ es) ≡ true) ↔ (sequences es ≡ numbers (suc e.sequence) (length es))
  unfolding contiguous
  contiguous_lem e [] = (λ h. refl, λ h. refl)
  contiguous_lem e (f ∷ es) =
      let (to, from) = contiguous_lem f es in
      (
        (λ h.
            let next : f.sequence ≡ suc e.sequence = ground (arith, h) in
            let rest = to (ground (arith, h)) in
            ap (λ xs. f.sequence ∷ xs) rest ∙ ap (λ n. n ∷ numbers (suc n) (length es)) next),
        λ h.
            let next : f.sequence ≡ suc e.sequence = cc in
            let rest : sequences es ≡ numbers (suc (suc e.sequence)) (length es) = cc in
            let more = from (rest ∙ ap (λ n. numbers (suc n) (length es)) (sym next)) in
            ground (arith, next, more),
      )

  pub latest-Deltas :
      (i : ℕ) (o : Option ℕ) (es : List (StreamEvent T)) → Deltas es → latest_snapshot i o es ≡ o
  unfolding latest_snapshot
  latest-Deltas i o [] d = refl
  latest-Deltas i o (e ∷ es) d = rw (d.0, latest_snapshot) (latest-Deltas (suc i) o es d.1)

  pub latest-at :
      (i : ℕ) (o : Option ℕ) (p : List (StreamEvent T)) (x : StreamEvent T)
      (d : List (StreamEvent T))
      → is_snapshot x.kind ≡ true
      → Deltas d
      → latest_snapshot i o (p ++ x ∷ d) ≡ some (i + length p)
  unfolding latest_snapshot
  latest-at i o [] x d s t =
      let this : i ≡ i + 0 = omega arith in
      rw (s, latest_snapshot) (latest-Deltas (suc i) (some i) d t ∙ ap some this)
  latest-at i o (e ∷ p) x d s t =
      let this : suc i + length p ≡ i + suc (length p) = omega arith in
      latest-at (suc i) _ p x d s t ∙ ap some this

  -- A burst has no snapshot, or has a last one.
  pub split_last :
      (es : List (StreamEvent T))
      → Deltas es
        ⊎ ((p : List (StreamEvent T)) × (x : StreamEvent T) × (d : List (StreamEvent T)) × (es
              ≡ p ++ x ∷ d)
            × (is_snapshot x.kind ≡ true)
            × Deltas d)
  split_last [] = inl tt
  split_last (e ∷ es) = elim (split_last es) [
    | inr (p, x, d, h, s, t) ↦ inr (e ∷ p, x, d, ap (λ xs. e ∷ xs) h, s, t)
    | inl t ↦ elim (Bool-cases (is_snapshot e.kind)) [
      | inl s ↦ inr ([], e, es, refl, s, t)
      | inr n ↦ inl (n, t)
    ]
  ]

  pub same_stream_lem :
      (first : StreamEvent T) (es : List (StreamEvent T))
      → (all (same_stream first) es ≡ true)
        ↔ All (λ e. (e.stream_id ≡ first.stream_id) × (e.tenant_id ≡ first.tenant_id)) es
  same_stream_lem first [] = (λ h. tt, λ h. refl)
  same_stream_lem first (e ∷ es) =
      let (to, from) = same_stream_lem first es in
      (
        (λ h. ((ground (arith, h), ground (arith, h)), to (ground (arith, h)))),
        λ ((a, b), rest). ground (arith, a, b, from rest),
      )
