-- ===== src/Quota/Evicted.antt =====
-- The loops that evict end, within their bounds.
use premise_protocol.Base.{
  ℕ, zero, suc, ◌≤◌, ◌≡◌, ◌≢◌, refl, sym, subst, ap, ◌∙◌, ◌⊎◌, inl, inr, arith, Bool, true, Text,
  text_eq, none, some, [], ◌∷◌, length, Option-cases, Bool-cases, ltb,
}
use premise_protocol.Entries.{OrderedMap, lookup, remove, lookup-remove, length-remove}
use premise_protocol.Entries.Distinct.{Distinct, lookup-remove_ne, length-remove_found}
use premise_protocol.Quota.{
  Quota, count_of, first_key, delete, evict_oldest, shrink_all, shrink_tenant,
}
use premise_protocol.Quota.Counted.{
  owned, Inv, owned-remove, owned-le-length, no_key-owned, count-owned, delete_found,
}

pub first_key_cases :
    {V : Type 0} (p : V → Bool) (es : OrderedMap V)
    → Distinct es
    → (first_key p es ≡ none)
      ⊎ ((k : Text) × (e : V) × (first_key p es ≡ some k) × (lookup k es ≡ some e) × (p e ≡ true))
unfolding first_key lookup
first_key_cases p [] d = inl refl
first_key_cases p ((j, f) ∷ es) d = elim (Bool-cases (p f)) [
  | inl t ↦ inr (j, f, rw t, ground arith, t)
  | inr n ↦ elim (first_key_cases p es d.1) [
    | inl all ↦ inl (rw n all)
    | inr (k, e, at, in_es, t) ↦
        let ne : j ≢ k = λ m. ground (arith, in_es, subst (λ x. lookup x es ≡ none) m d.0) in
        inr (k, e, (rw n at), (ground (arith, ne, in_es)), t)
  ]
]

module _ {V : Type 0} (tenant_of : V → Text) where
  -- r is what evictions have left of q.
  pub record Shrunk (q r : Quota V) : Type 0 where
    pub inv : Inv tenant_of r
    pub size : length r.entries ≤ length q.entries
    pub same_max : r.max_entries ≡ q.max_entries
    pub same_bound : r.max_per_tenant ≡ q.max_per_tenant
    pub fewer : (t : Text) → owned tenant_of t r.entries ≤ owned tenant_of t q.entries

  pub Shrunk-refl : (q : Quota V) → Inv tenant_of q → Shrunk q q
  Shrunk-refl q i = record {
    inv = i;
    size = omega arith;
    same_max = refl;
    same_bound = refl;
    fewer = λ t. omega arith;
  }

  pub Shrunk-trans : (q r s : Quota V) → Shrunk q r → Shrunk r s → Shrunk q s
  Shrunk-trans q r s a b = record {
    inv = b.inv;
    size = omega (arith, a.size, b.size);
    same_max = b.same_max ∙ a.same_max;
    same_bound = b.same_bound ∙ a.same_bound;
    fewer = λ t. omega (arith, a.fewer t, b.fewer t);
  }

  owned-remove-le :
      (k t : Text) (e : V) (es : OrderedMap V)
      → Distinct es
      → lookup k es ≡ some e
      → owned tenant_of t (remove k es) ≤ owned tenant_of t es
  owned-remove-le k t e es d f = ground (arith, owned-remove tenant_of k t e es d f)

  pub no_key-length : (es : OrderedMap V) → first_key (λ e. true) es ≡ none → length es ≡ 0
  unfolding first_key
  no_key-length [] h = refl
  no_key-length ((k, e) ∷ es) h = cc

  pub delete_keeps :
      (q : Quota V) (k : Text)
      → ((delete tenant_of q k).max_entries ≡ q.max_entries)
        × ((delete tenant_of q k).max_per_tenant ≡ q.max_per_tenant)
  unfolding delete
  delete_keeps q k = (ground arith, ground arith)

  -- A round takes one entry, if there is one to take.
  pub evict_round :
      (p : V → Bool) (q : Quota V)
      → Inv tenant_of q
      → first_key p q.entries ≢ none
      → Shrunk q (evict_oldest tenant_of p q)
        × (suc (length (evict_oldest tenant_of p q).entries) ≡ length q.entries)
  unfolding evict_oldest
  evict_round p q i some_key = elim (first_key_cases p q.entries i.distinct) [
    | inl n ↦ absurd (some_key n)
    | inr (k, e, at, f, t) ↦
        let (after, entries) = delete_found tenant_of q k e f i in
        let one : length q.entries ≡ suc (length (remove k q.entries)) =
          length-remove_found k e q.entries i.distinct f in
        let now : length (delete tenant_of q k).entries ≡ length (remove k q.entries) =
          ap length entries in
        rw (at, evict_oldest)
          (
            record {
              inv = record { distinct = after.distinct; counted = after.counted };
              size = omega (arith, one, now);
              same_max = (delete_keeps q k).0;
              same_bound = (delete_keeps q k).1;
              fewer = λ u.
                  subst (λ es. owned tenant_of u es ≤ owned tenant_of u q.entries) (sym entries)
                    (owned-remove-le k u e q.entries i.distinct f);
            },
            omega (arith, one, now),
          )
  ]

  pub shrink_all_lem :
      (fuel : ℕ) (q : Quota V)
      → Inv tenant_of q
      → length q.entries ≤ fuel
      → Shrunk q (shrink_all tenant_of fuel q)
        × (length (shrink_all tenant_of fuel q).entries ≤ q.max_entries)
  unfolding shrink_all
  shrink_all_lem zero q i h = (Shrunk-refl q i, omega arith)
  shrink_all_lem (suc fuel) q i h = elim (Bool-cases (ltb q.max_entries (length q.entries))) [
    | inr fits ↦ rw fits (Shrunk-refl q i, ground (arith, fits))
    | inl over ↦
        let (round, one) =
          evict_round (λ e. true) q i (λ n. ground (arith, over, no_key-length q.entries n)) in
        let (rest, fits) =
          shrink_all_lem fuel (evict_oldest tenant_of (λ e. true) q) round.inv
            (omega (arith, one)) in
        rw over (Shrunk-trans q _ _ round rest, omega (arith, fits, round.same_max))
  ]

  pub shrink_tenant_lem :
      (fuel bound : ℕ) (t : Text) (q : Quota V)
      → Inv tenant_of q
      → length q.entries ≤ fuel
      → Shrunk q (shrink_tenant tenant_of fuel bound t q)
        × (owned tenant_of t (shrink_tenant tenant_of fuel bound t q).entries ≤ bound)
  unfolding shrink_tenant
  shrink_tenant_lem zero bound t q i h =
      (Shrunk-refl q i, omega (arith, owned-le-length tenant_of t q.entries))
  shrink_tenant_lem (suc fuel) bound t q i h = elim (Bool-cases (ltb bound (count_of q t))) [
    | inr fits ↦ rw fits (Shrunk-refl q i, ground (arith, fits, count-owned tenant_of q t i))
    | inl over ↦
        let (round, one) =
          evict_round (λ e. text_eq (tenant_of e) t) q i
            (λ n.
              ground
                (arith, over, count-owned tenant_of q t i, no_key-owned tenant_of t q.entries n)) in
        let (rest, fits) =
          shrink_tenant_lem fuel bound t (evict_oldest tenant_of (λ e. text_eq (tenant_of e) t) q)
            round.inv (omega (arith, one)) in
        rw over (Shrunk-trans q _ _ round rest, fits)
  ]

  pub delete-Shrunk : (q : Quota V) (k : Text) → Inv tenant_of q → Shrunk q (delete tenant_of q k)
  unfolding delete
  delete-Shrunk q k i = elim (Option-cases (lookup k q.entries)) [
    | inl gone ↦ rw (gone, delete) (Shrunk-refl q i)
    | inr (e, f) ↦
        let (after, entries) = delete_found tenant_of q k e f i in
        record {
          inv = after;
          size = omega (arith, ap length entries, length-remove k q.entries);
          same_max = (delete_keeps q k).0;
          same_bound = (delete_keeps q k).1;
          fewer = λ u.
              subst (λ es. owned tenant_of u es ≤ owned tenant_of u q.entries) (sym entries)
                (owned-remove-le k u e q.entries i.distinct f);
        }
  ]

  pub delete-lookup_self : (q : Quota V) (k : Text) → lookup k (delete tenant_of q k).entries ≡ none
  unfolding delete
  delete-lookup_self q k = elim (Option-cases (lookup k q.entries)) [
    | inl gone ↦ rw (gone, delete) gone
    | inr (e, f) ↦ rw (f, delete) (lookup-remove k q.entries)
  ]

  pub delete-lookup_ne :
      (q : Quota V) (k j : Text)
      → k ≢ j
      → lookup j (delete tenant_of q k).entries ≡ lookup j q.entries
  unfolding delete
  delete-lookup_ne q k j ne = elim (Option-cases (lookup k q.entries)) [
    | inl gone ↦ rw (gone, delete) refl
    | inr (e, f) ↦ rw (f, delete) (lookup-remove_ne k j q.entries ne)
  ]
