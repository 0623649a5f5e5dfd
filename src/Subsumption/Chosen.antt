-- ===== src/Subsumption/Chosen.antt =====
-- Which of several receipts is taken.
use premise_protocol.Base.{
  ℕ, ◌≡◌, ◌≢◌, ◌⊎◌, inl, inr, refl, sym, subst, ◌∙◌, arith, Bool, true, false, Text, Option, none,
  some, List, [], ◌∷◌, All, Bool-cases,
}
use premise_protocol.Subsumption.{
  Candidate, Reason, matches, Host, by_times, not_after, insert, sort,
}

abbrev pub Among : {T : Type 0} → Candidate T → List (Candidate T) → Type 0
Among c [] = ⊥
Among c (d ∷ ds) = (c ≡ d) ⊎ Among c ds

pub Reason-cases : (r : Reason) → (r ≡ matches) ⊎ (r ≢ matches)
Reason-cases matches = inl refl
Reason-cases _ = inr (λ e. cc)

-- What is used of localeCompare: it is a total order of the receipts' names, up to equivalence.
pub record IsOrder (le : Text → Text → Bool) : Type 0 where
  pub total : (a b : Text) → (le a b ≡ true) ⊎ (le b a ≡ true)
  pub trans : (a b c : Text) → le a b ≡ true → le b c ≡ true → le a c ≡ true

by_times-total :
    (a b : Option ℕ) (x y : Bool)
    → (x ≡ true) ⊎ (y ≡ true)
    → (by_times a b x ≡ true) ⊎ (by_times b a y ≡ true)
by_times-total none none x y h = h
by_times-total none (some b) x y h = h
by_times-total (some a) none x y h = h
by_times-total (some a) (some b) x y h = ground (arith, h)

-- Transitive where all three times are known.
by_times_trans :
    (a b c : ℕ) (x y z : Bool)
    → (x ≡ true → y ≡ true → z ≡ true)
    → by_times (some a) (some b) x ≡ true
    → by_times (some b) (some c) y ≡ true
    → by_times (some a) (some c) z ≡ true
by_times_trans a b c x y z h k l = ground (arith, h)

module _ {T : Type 0} (host : Host) where
  -- Both times of a receipt parse, as those of an eligible one do.
  abbrev pub Timed : Candidate T → Type 0
  Timed c =
      ((o : ℕ) × (host.parse_date c.observed_at ≡ some o))
      × ((e : ℕ) × (host.parse_date c.expires_at ≡ some e))

  abbrev pub NotAfter : Candidate T → Candidate T → Type 0
  NotAfter c d = not_after host c d ≡ true

  -- The comparison at times that are known.
  known :
      (c d : Candidate T) (oc od ec ed : ℕ)
      → host.parse_date c.observed_at ≡ some oc
      → host.parse_date d.observed_at ≡ some od
      → host.parse_date c.expires_at ≡ some ec
      → host.parse_date d.expires_at ≡ some ed
      → not_after host c d
        ≡ by_times
            (some oc)
            (some od)
            (by_times (some ec) (some ed) (host.locale_le c.receipt_id d.receipt_id))
  unfolding not_after
  known c d oc od ec ed a b x y = rw (a, b, x, y, not_after) refl

  module _ (order : IsOrder host.locale_le) where
    pub NotAfter-total : (c d : Candidate T) → NotAfter c d ⊎ NotAfter d c
    unfolding not_after
    NotAfter-total c d =
        by_times-total (host.parse_date c.observed_at) (host.parse_date d.observed_at) _ _ (
          by_times-total (host.parse_date c.expires_at) (host.parse_date d.expires_at) _ _
            (order.total c.receipt_id d.receipt_id))

    other_way : (c d : Candidate T) → not_after host c d ≡ false → NotAfter d c
    other_way c d e = elim (NotAfter-total c d) [ inl h ↦ cc | inr h ↦ h ]

    NotAfter-trans :
        (a b c : Candidate T)
        → Timed a
        → Timed b
        → Timed c
        → NotAfter a b
        → NotAfter b c
        → NotAfter a c
    unfolding not_after
    NotAfter-trans a b c ((oa, pa), (ea, qa)) ((ob, pb), (eb, qb)) ((oc, pc), (ec, qc)) h k =
        let ab = known a b oa ob ea eb pa pb qa qb in
        let bc = known b c ob oc eb ec pb pc qb qc in
        let ac = known a c oa oc ea ec pa pc qa qc in
        ac
        ∙ by_times_trans oa ob oc
            (by_times (some ea) (some eb) (host.locale_le a.receipt_id b.receipt_id))
            (by_times (some eb) (some ec) (host.locale_le b.receipt_id c.receipt_id))
            (by_times (some ea) (some ec) (host.locale_le a.receipt_id c.receipt_id))
            (by_times_trans ea eb ec (host.locale_le a.receipt_id b.receipt_id)
              (host.locale_le b.receipt_id c.receipt_id) (host.locale_le a.receipt_id c.receipt_id)
              (order.trans a.receipt_id b.receipt_id c.receipt_id))
            (sym ab ∙ h) (sym bc ∙ k)

  abbrev pub Sorted : List (Candidate T) → Type 0
  Sorted [] = Unit
  Sorted (c ∷ cs) = All (NotAfter c) cs × Sorted cs

  insert-All :
      (P : Candidate T → Type 0) (c : Candidate T) (ds : List (Candidate T))
      → P c
      → All P ds
      → All P (insert host c ds)
  unfolding insert
  insert-All P c [] p a = (p, tt)
  insert-All P c (d ∷ ds) p a = elim (Bool-cases (not_after host c d)) [
    | inl e ↦ rw (e, insert) (p, a)
    | inr e ↦ rw (e, insert) (a.0, insert-All P c ds p a.1)
  ]

  All-insert :
      (P : Candidate T → Type 0) (c : Candidate T) (ds : List (Candidate T))
      → All P (insert host c ds)
      → P c × All P ds
  unfolding insert
  All-insert P c [] a = a
  All-insert P c (d ∷ ds) a = elim (Bool-cases (not_after host c d)) [
    | inl e ↦
        let this : insert host c (d ∷ ds) ≡ c ∷ d ∷ ds = rw (e, insert) refl in subst (All P) this a
    | inr e ↦
        let this : insert host c (d ∷ ds) ≡ d ∷ insert host c ds = rw (e, insert) refl in
        let (first, rest) = subst (All P) this a in
        let (p, others) = All-insert P c ds rest in (p, (first, others))
  ]

  pub sort-All :
      (P : Candidate T → Type 0) (cs : List (Candidate T)) → All P cs → All P (sort host cs)
  unfolding sort
  sort-All P [] a = tt
  sort-All P (c ∷ cs) a = insert-All P c (sort host cs) a.0 (sort-All P cs a.1)

  pub All-sort :
      (P : Candidate T → Type 0) (cs : List (Candidate T)) → All P (sort host cs) → All P cs
  unfolding sort
  All-sort P [] a = tt
  All-sort P (c ∷ cs) a = let (p, rest) = All-insert P c (sort host cs) a in (p, All-sort P cs rest)

  module _ (order : IsOrder host.locale_le) where
    All-trans :
        (c d : Candidate T) (ds : List (Candidate T))
        → Timed c
        → Timed d
        → All Timed ds
        → NotAfter c d
        → All (NotAfter d) ds
        → All (NotAfter c) ds
    All-trans c d [] tc td ts h a = tt
    All-trans c d (e ∷ ds) tc td ts h a =
        (NotAfter-trans order c d e tc td ts.0 h a.0, All-trans c d ds tc td ts.1 h a.1)

    insert-Sorted :
        (c : Candidate T) (ds : List (Candidate T))
        → Timed c
        → All Timed ds
        → Sorted ds
        → Sorted (insert host c ds)
    unfolding insert
    insert-Sorted c [] tc ts s = (tt, tt)
    insert-Sorted c (d ∷ ds) tc ts s = elim (Bool-cases (not_after host c d)) [
      | inl e ↦ rw (e, insert) ((e, All-trans c d ds tc ts.0 ts.1 e s.0), s)
      | inr e ↦
          rw (e, insert)
            (
              insert-All (NotAfter d) c ds (other_way order c d e) s.0,
              insert-Sorted c ds tc ts.1 s.1,
            )
    ]

    pub sort-Sorted : (cs : List (Candidate T)) → All Timed cs → Sorted (sort host cs)
    unfolding sort
    sort-Sorted [] ts = tt
    sort-Sorted (c ∷ cs) ts =
        insert-Sorted c (sort host cs) ts.0 (sort-All Timed cs ts.1) (sort-Sorted cs ts.1)
