-- ===== src/Events/Contiguous.antt =====
-- What a stream that is assessed as fresh has delivered.
use premise_protocol.Base.{
  ℕ, zero, suc, ◌+◌, ◌≡◌, ◌≢◌, refl, sym, ap, ◌∙◌, subst, inl, inr, false, arith, ltb, Text, Option,
  none, some, List, [], ◌∷◌, ◌++◌, ◌⊎◌, ◌&&◌, not, ℕ_discrete, Option-cases, Bool-cases,
}
use premise_protocol.Events.{
  Fingerprint, Delivery, malformed, delivers, Options, Progress, Continuity, fresh, find_print,
  Round, stops, goes, advance, take_sequence, below, beyond, misses_start, same_print, is_snapshot,
  take_event, assess_from, start, assess, stream_of, unknown, invalid_sequence, Hazard,
}

-- Consecutive numbers.
abbrev pub range : ℕ → ℕ → List ℕ
range s zero = []
range s (suc n) = s ∷ range (suc s) n

range-end : (s n : ℕ) → range s n ++ (s + n) ∷ [] ≡ range s (suc n)
range-end s zero = ap (λ m. m ∷ []) (omega arith)
range-end s (suc n) =
    ap (λ ms. s ∷ ms) (ap (λ m. range (suc s) n ++ m ∷ []) (omega arith) ∙ range-end (suc s) n)

-- The applied sequences are consecutive, from the expected one on, up to the last.
abbrev pub Run : Options → List ℕ → ℕ → Type 0
Run o applied last =
    (s n : ℕ) × (applied ≡ range s (suc n))
    × (last ≡ s + n)
    × ((e : ℕ) → o.expected_sequence ≡ some (some e) → s ≡ e)

pub record Ok (o : Options) (p : Progress) : Type 0 where
  pub fresh_start : p.last_sequence ≡ none → p.applied ≡ []
  pub run : (l : ℕ) → p.last_sequence ≡ some l → Run o p.applied l
  pub printed : (l : ℕ) → p.last_sequence ≡ some l → find_print l p.fingerprints ≢ none

some_inj : {A : Type 0} {x y : A} → some x ≡ some y → x ≡ y
some_inj e = cc

fresh_inj : {l m : ℕ} {xs ys xt yt : List ℕ} → fresh l xs xt ≡ fresh m ys yt → (l ≡ m) × (xs ≡ ys)
fresh_inj e = (cc, cc)

goes_inj : {p q : Progress} → goes p ≡ goes q → p ≡ q
goes_inj e = cc

-- The round adds a duplicate, or the next sequence.
Advanced : Options → Progress → ℕ → Fingerprint → Progress → Type 0
Advanced o p n f q =
    (find_print n p.fingerprints ≡ none)
    × (below p.last_sequence n ≡ false)
    × (beyond p.last_sequence n ≡ false)
    × (misses_start o p.last_sequence n ≡ false)
    × (advance p n f ≡ q)

sequence_cases :
    (o : Options) (p : Progress) (n : ℕ) (f : Fingerprint) (q : Progress)
    → take_sequence o p n f ≡ goes q
    → ((record p { duplicates = p.duplicates ++ n ∷ [] }) ≡ q) ⊎ Advanced o p n f q
unfolding take_sequence Advanced
sequence_cases o p n f q h = elim (Bool-cases (below p.last_sequence n)) [
  | inl b ↦ ground (arith, h, b)
  | inr b ↦ elim (Bool-cases (beyond p.last_sequence n)) [
    | inl c ↦ ground (arith, h, b, c)
    | inr c ↦ elim (Option-cases (find_print n p.fingerprints)) [
      | inr (g, d) ↦ elim (Bool-cases (same_print g f)) [
        | inr e ↦ ground (arith, h, b, c, d, e)
        | inl e ↦
            let this : take_sequence o p n f
                ≡ goes (record p { duplicates = p.duplicates ++ n ∷ [] }) =
              rw (b, c, d, e, take_sequence) refl in
            inl (goes_inj (sym this ∙ h))
      ]
      | inl d ↦ elim (Bool-cases (misses_start o p.last_sequence n)) [
        | inl e ↦ ground (arith, h, b, c, d, e)
        | inr e ↦
            elim (Bool-cases
              (o.require_snapshot && not p.has_snapshot && not (is_snapshot f.kind))) [
                | inl g ↦ ground (arith, h, b, c, d, e, g)
                | inr g ↦
                    let this : take_sequence o p n f ≡ goes (advance p n f) =
                      rw (b, c, d, e, g, take_sequence) refl in
                    inr (d, b, c, e, goes_inj (sym this ∙ h))
              ]
      ]
    ]
  ]
]

printed_now :
    (n : ℕ) (f : Fingerprint) (p : Progress) → find_print n (advance p n f).fingerprints ≢ none
unfolding find_print
printed_now n f p e = ground arith

next_of :
    (l n : ℕ) (p : Progress)
    → find_print l p.fingerprints ≢ none
    → find_print n p.fingerprints ≡ none
    → ltb n l ≡ false
    → ltb (suc l) n ≡ false
    → n ≡ suc l
next_of l n p was new a b = elim (ℕ_discrete l n) [
  | yes e ↦ absurd (was (ap (λ m. find_print m p.fingerprints) e ∙ new))
  | no ne ↦ ground (arith, ne, a, b)
]

advance-Run :
    (o : Options) (p : Progress) (n : ℕ) (f : Fingerprint)
    → Ok o p
    → Advanced o p n f (advance p n f)
    → Run o (p.applied ++ n ∷ []) n
unfolding Advanced
advance-Run o p n f ok (new, low, high, begins, same) = elim (Option-cases p.last_sequence) [
  | inl none_yet ↦ (
    n,
    0,
    ap (λ xs. xs ++ n ∷ []) (ok.fresh_start none_yet),
    omega arith,
    λ e x. ground (arith, begins, none_yet, x),
  )
  | inr (l, is) ↦
      let (s, k, applied, last, starts) = ok.run l is in
      let next : n ≡ suc l =
        next_of l n p (ok.printed l is) new (ground (arith, low, is)) (ground (arith, high, is)) in
      let at : n ≡ s + suc k = omega (arith, next, last) in
      (
        s,
        suc k,
        (ap (λ xs. xs ++ n ∷ []) applied
            ∙ ap (λ m. range s (suc k) ++ m ∷ []) at
            ∙ range-end s (suc k)),
        at,
        starts,
      )
]

sequence-Ok :
    (o : Options) (p : Progress) (n : ℕ) (f : Fingerprint) (q : Progress)
    → take_sequence o p n f ≡ goes q
    → Ok o p
    → Ok o q
unfolding Advanced
sequence-Ok o p n f q h ok = elim (sequence_cases o p n f q h) [
  | inl same ↦
      subst (Ok o) same
        (record { fresh_start = ok.fresh_start; run = ok.run; printed = ok.printed })
  | inr (new, low, high, begins, same) ↦ subst (Ok o) same (record {
    fresh_start = λ e. cc;
    run = λ l e.
        subst (Run o (p.applied ++ n ∷ [])) (some_inj e)
          (advance-Run o p n f ok (new, low, high, begins, refl));
    printed = λ l e.
        subst (λ m. find_print m (advance p n f).fingerprints ≢ none) (some_inj e)
          (printed_now n f p);
  })
]

event-Ok :
    (o : Options) (stream : Text) (p : Progress) (e : Delivery) (q : Progress)
    → take_event o stream p e ≡ goes q
    → Ok o p
    → Ok o q
unfolding take_event
event-Ok o stream p malformed q h ok = cc
event-Ok o stream p (delivers e) q h ok = elim (Option-cases e.sequence) [
  | inl bad ↦ ground (arith, h, bad)
  | inr (n, is) ↦
      let this : take_sequence o p n e.print ≡ goes q = ground (arith, h, is) in
      sequence-Ok o p n e.print q this ok
]

Round-cases : (r : Round) → ((h : Hazard) × (r ≡ stops h)) ⊎ ((q : Progress) × (r ≡ goes q))
Round-cases (stops h) = inl (h, refl)
Round-cases (goes q) = inr (q, refl)

from-Run :
    (o : Options) (stream : Text) (es : List Delivery) (p : Progress)
    → Ok o p
    → (l : ℕ) (applied duplicates : List ℕ) → assess_from o stream p es ≡ fresh l applied duplicates
    → Run o applied l
unfolding assess_from
from-Run o stream [] p ok l applied duplicates h = elim (Option-cases p.last_sequence) [
  | inl no_last ↦ ground (arith, h, no_last)
  | inr (m, is) ↦
      let this : assess_from o stream p [] ≡ fresh m p.applied p.duplicates =
        rw (is, assess_from) refl in
      let (last, all) = fresh_inj (sym this ∙ h) in
      subst (λ xs. Run o xs l) all (subst (Run o p.applied) last (ok.run m is))
]
from-Run o stream (e ∷ es) p ok l applied duplicates h =
    elim (Round-cases (take_event o stream p e)) [
      | inl (x, is) ↦ ground (arith, h, is)
      | inr (q, is) ↦
          let this : assess_from o stream p (e ∷ es) ≡ assess_from o stream q es =
            rw (is, assess_from) refl in
          from-Run o stream es q (event-Ok o stream p e q is ok) l applied duplicates (sym this ∙ h)
    ]

start-Ok : (o : Options) → Ok o start
start-Ok o = record { fresh_start = λ e. refl; run = λ l e. cc; printed = λ l e. cc }

-- A stream that is assessed as fresh has applied consecutive sequences, from the expected one on if there
-- is one, up to the final sequence that is reported.
pub assess-Run :
    (es : List Delivery) (o : Options) (l : ℕ) (applied duplicates : List ℕ)
    → assess es o ≡ fresh l applied duplicates
    → Run o applied l
unfolding assess
assess-Run [] o l applied duplicates h = cc
assess-Run (e ∷ es) o l applied duplicates h =
    from-Run o (stream_of e) (e ∷ es) start (start-Ok o) l applied duplicates
      (checked o.expected_sequence (assess_from o (stream_of e) start (e ∷ es)) h)
  where
    checked :
        (x : Option (Option ℕ)) (c : Continuity)
        → elim x [ some none ↦ unknown invalid_sequence [] [] | _ ↦ c ] ≡ fresh l applied duplicates
        → c ≡ fresh l applied duplicates
    checked none c k = k
    checked (some none) c k = cc
    checked (some (some n)) c k = k
