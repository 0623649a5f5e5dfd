-- ===== src/Cache/Bounded.antt =====
-- The cache stays within its bound, and holds sound receipts only.
use premise_protocol.Base.{
  ℕ, suc, ◌≤◌, ◌≡◌, sym, subst, ◌∙◌, inl, inr, true, arith, Text, Option, some, List, [], ◌∷◌, ◌++◌,
  length, ltb, All, Option-cases, Bool-cases,
}
use premise_protocol.Entries.{OrderedMap, lookup, remove, length-remove, remove-All, some_inj}
use premise_protocol.Cache.{
  Host, Receipt, Cache, create, cache_of, bound_of, evict, accept, put, get, invalidate, clear,
  Call, puts, gets, invalidates, clears, step, run,
}
use premise_protocol.Times.{before, is_timestamp}

pub evict-length :
    {V : Type 0} (bound : ℕ) (es : OrderedMap V) (n : ℕ) → length (evict bound es n).0 ≤ bound
unfolding evict
evict-length bound [] n = omega arith
evict-length bound (e ∷ es) n = ground (arith, evict-length bound es (suc n))

pub evict-All :
    {V : Type 0} (P : Text × V → Type 0) (bound : ℕ) (es : OrderedMap V) (n : ℕ)
    → All P es
    → All P (evict bound es n).0
unfolding evict
evict-All P bound [] n a = tt
evict-All P bound (e ∷ es) n a = elim (Bool-cases (ltb bound (length (e ∷ es)))) [
  | inl over ↦ rw over (evict-All P bound es (suc n) a.1)
  | inr fits ↦ rw fits a
]

append-All : {A : Type 0} (P : A → Type 0) (xs ys : List A) → All P xs → All P ys → All P (xs ++ ys)
append-All P [] ys a b = b
append-All P (x ∷ xs) ys a b = (a.0, append-All P xs ys a.1 b)

module _ {S T : Type 0} (host : Host S T) where
  -- A valid, fresh receipt, observed before it expires, under the key of its scope.
  abbrev pub Sound : Text × Receipt S T → Type 0
  Sound (key, r) =
      (r.is_fresh ≡ true)
      × (r.valid ≡ true)
      × (before host.parse_date r.observed_at r.expires_at ≡ true)
      × (host.key_of r.scope ≡ some key)

  pub record Inv (c : Cache S T) : Type 0 where
    pub bounded : length c.entries ≤ c.max_entries
    pub positive : 1 ≤ c.max_entries
    pub sound : All Sound c.entries

  accept-Sound :
      (r : Receipt S T) (key : Text) (v : T)
      → accept host r ≡ some key
      → Sound (key, record r { value = v })
  unfolding accept
  accept-Sound r key v h = (ground arith, ground arith, ground arith, ground arith)

  remove-Inv :
      (c : Cache S T) (key : Text) → Inv c → Inv (record c { entries = remove key c.entries })
  remove-Inv c key i = record {
    bounded = omega (arith, length-remove key c.entries, i.bounded);
    positive = i.positive;
    sound = remove-All Sound key c.entries i.sound;
  }

  put-Inv : (c : Cache S T) (r : Receipt S T) → Inv c → Inv (put host c r).0
  unfolding put
  put-Inv c r i = elim (Option-cases (accept host r)) [
    | inl h ↦ rw (h, put) i
    | inr (key, h) ↦ elim (Option-cases (host.clone r.value)) [
      | inl n ↦ rw (h, n, put) (remove-Inv c key i)
      | inr (v, m) ↦
          rw (h, m, put)
            (record {
              bounded =
                  evict-length c.max_entries
                    (remove key c.entries ++ (key, record r { value = v }) ∷ []) c.evictions;
              positive = i.positive;
              sound =
                  evict-All Sound c.max_entries
                    (remove key c.entries ++ (key, record r { value = v }) ∷ []) c.evictions
                    (append-All Sound (remove key c.entries) _
                      (remove-All Sound key c.entries i.sound) (accept-Sound r key v h, tt));
            })
    ]
  ]

  get-Inv : (c : Cache S T) (scope : S) (now : Text) → Inv c → Inv (get host c scope now).0
  unfolding get
  get-Inv c scope now i = elim (Bool-cases (is_timestamp host.parse_date now)) [
    | inr no_time ↦ rw no_time i
    | inl time ↦ rw time (elim (Option-cases (host.key_of scope)) [
      | inl n ↦ rw n i
      | inr (key, k) ↦ rw k (elim (Option-cases (lookup key c.entries)) [
        | inl n ↦ rw n (record { bounded = i.bounded; positive = i.positive; sound = i.sound })
        | inr (r, f) ↦ rw f (elim (Bool-cases (before host.parse_date now r.expires_at)) [
          | inr late ↦ rw late (record {
            bounded = (remove-Inv c key i).bounded;
            positive = i.positive;
            sound = (remove-Inv c key i).sound;
          })
          | inl live ↦
              rw live (record { bounded = i.bounded; positive = i.positive; sound = i.sound })
        ])
      ])
    ])
  ]

  invalidate-Inv : (c : Cache S T) (scope : S) → Inv c → Inv (invalidate host c scope).0
  unfolding invalidate
  invalidate-Inv c scope i = elim (Option-cases (host.key_of scope)) [
    | inl n ↦ rw (n, invalidate) i
    | inr (key, k) ↦ rw (k, invalidate) (remove-Inv c key i)
  ]

  step-Inv : (c : Cache S T) (x : Call S T) → Inv c → Inv (step host c x)
  unfolding step clear
  step-Inv c (puts r) i = put-Inv c r i
  step-Inv c (gets scope now) i = get-Inv c scope now i
  step-Inv c (invalidates scope) i = invalidate-Inv c scope i
  step-Inv c clears i = record { bounded = omega arith; positive = i.positive; sound = tt }

  pub calls-Inv : (c : Cache S T) (xs : List (Call S T)) → Inv c → Inv (run host c xs)
  unfolding run
  calls-Inv c [] i = i
  calls-Inv c (x ∷ xs) i = calls-Inv (step host c x) xs (step-Inv c x i)

  create-Inv : (asked : Option ℕ) (c : Cache S T) → create asked ≡ some c → Inv c
  unfolding create
  create-Inv asked c h = elim (Bool-cases (ltb (bound_of asked) 1)) [
    | inl small ↦ ground (arith, h, small)
    | inr positive ↦
        let made : create asked ≡ some (cache_of (bound_of asked)) = ground (arith, h, positive) in
        let same : cache_of (bound_of asked) ≡ c = some_inj (sym made ∙ h) in
        subst Inv same
          (record { bounded = omega arith; positive = ground (arith, positive); sound = tt })
  ]

  -- After any calls, a cache that the constructor made holds at most as many receipts as it was given
  -- room for, and each is valid and fresh, was observed before it expires, and stands under the key of
  -- its scope.
  pub run-Inv :
      (asked : Option ℕ) (c : Cache S T) (xs : List (Call S T))
      → create asked ≡ some c
      → Inv (run host c xs)
  run-Inv asked c xs h = calls-Inv c xs (create-Inv asked c h)
