-- ===== src/Quota/Counted.antt =====
-- The counts of the tenants are exact.
use premise_protocol.Base.{
  ℕ, zero, suc, ◌-◌, ◌≤◌, ◌≡◌, ◌≢◌, refl, sym, subst, ap, ◌∙◌, inl, inr, arith, Text, Text-discrete,
  text_eq, Option, none, some, [], ◌∷◌, ◌++◌, length, Option-cases, Bool-cases, put_self, put_ne,
  drop_ne, put, drop_key, leb, if◌then◌else◌,
}
use premise_protocol.Entries.{OrderedMap, lookup, remove, some_inj}
use premise_protocol.Entries.Distinct.{Distinct, remove-absent, Distinct-remove, Distinct-append}
use premise_protocol.Quota.{Quota, count_of, delete, add_entry, first_key}

-- What the Map of the counts holds for n entries.
abbrev pub tally : ℕ → Option ℕ
tally zero = none
tally (suc n) = some (suc n)

module _ {V : Type 0} (tenant_of : V → Text) where
  unfoldable pub owned : Text → OrderedMap V → ℕ
  owned t [] = 0
  owned t ((k, e) ∷ es) = let n = owned t es in if text_eq (tenant_of e) t then suc n else n

  pub record Inv (q : Quota V) : Type 0 where
    pub distinct : Distinct q.entries
    pub counted : (t : Text) → q.tenant_counts t ≡ tally (owned t q.entries)

  -- One entry of a tenant.
  abbrev one_more : V → Text → ℕ → ℕ
  one_more e t n = if text_eq (tenant_of e) t then suc n else n

  owned-cons :
      (t k : Text) (e : V) (es : OrderedMap V) → owned t ((k, e) ∷ es) ≡ one_more e t (owned t es)
  unfolding owned
  owned-cons t k e es = refl

  one_more_swap :
      (e f : V) (t : Text) (n : ℕ) → one_more e t (one_more f t n) ≡ one_more f t (one_more e t n)
  one_more_swap e f t n = ground arith

  pub owned-remove :
      (k t : Text) (e : V) (es : OrderedMap V)
      → Distinct es
      → lookup k es ≡ some e
      → owned t es ≡ one_more e t (owned t (remove k es))
  unfolding lookup remove
  owned-remove k t e [] d h = cc
  owned-remove k t e ((j, f) ∷ es) d h = elim (Text-discrete j k) [
    | yes m ↦
        let gone : lookup k es ≡ none = subst (λ x. lookup x es ≡ none) m d.0 in
        let this : lookup k ((j, f) ∷ es) ≡ some f = ground (arith, m) in
        let same : f ≡ e = some_inj (sym this ∙ h) in
        let left : remove k ((j, f) ∷ es) ≡ es = ground (arith, m, remove-absent k es gone) in
        owned-cons t j f es
        ∙ ap (λ x. one_more x t (owned t es)) same
        ∙ ap (λ x. one_more e t (owned t x)) (sym left)
    | no n ↦
        let below : lookup k es ≡ some e = ground (arith, n, h) in
        let left : remove k ((j, f) ∷ es) ≡ (j, f) ∷ remove k es = ground (arith, n) in
        owned-cons t j f es
        ∙ ap (one_more f t) (owned-remove k t e es d.1 below)
        ∙ one_more_swap f e t (owned t (remove k es))
        ∙ ap (one_more e t) (sym (owned-cons t j f (remove k es)))
        ∙ ap (λ x. one_more e t (owned t x)) (sym left)
  ]

  pub owned-append :
      (k t : Text) (e : V) (es : OrderedMap V)
      → owned t (es ++ (k, e) ∷ []) ≡ one_more e t (owned t es)
  unfolding owned
  owned-append k t e [] = refl
  owned-append k t e ((j, f) ∷ es) =
      ap (one_more f t) (owned-append k t e es) ∙ one_more_swap f e t (owned t es)

  pub owned-le-length : (t : Text) (es : OrderedMap V) → owned t es ≤ length es
  unfolding owned
  owned-le-length t [] = omega arith
  owned-le-length t ((k, e) ∷ es) = ground (arith, owned-le-length t es)

  pub no_key-owned :
      (t : Text) (es : OrderedMap V)
      → first_key (λ e. text_eq (tenant_of e) t) es ≡ none
      → owned t es ≡ 0
  unfolding first_key owned
  no_key-owned t [] h = refl
  no_key-owned t ((k, e) ∷ es) h = ground (arith, no_key-owned t es)

  -- The count that the Map gives is the number of entries.
  pub count-owned : (q : Quota V) (t : Text) → Inv q → count_of q t ≡ owned t q.entries
  count-owned q t i = elim_tally (owned t q.entries) (i.counted t)
    where
      elim_tally : (n : ℕ) → q.tenant_counts t ≡ tally n → count_of q t ≡ n
      elim_tally zero e = ground (arith, e)
      elim_tally (suc n) e = ground (arith, e)

  -- The Map of the counts after one entry of tenant u is gone.
  abbrev one_less : Quota V → Text → ℕ → Text → Option ℕ
  one_less q u n = if leb n 1 then drop_key q.tenant_counts u else put q.tenant_counts u (n - 1)

  one_less_self : (q : Quota V) (u : Text) (n : ℕ) → one_less q u (suc n) u ≡ tally n
  one_less_self q u zero = ground arith
  one_less_self q u (suc n) = ground (arith, put_self q.tenant_counts u (suc n))

  one_less_ne : (q : Quota V) (u t : Text) (n : ℕ) → u ≢ t → one_less q u n t ≡ q.tenant_counts t
  one_less_ne q u t n ne = elim (Bool-cases (leb n 1)) [
    | inl e ↦ rw e (drop_ne q.tenant_counts u t ne)
    | inr e ↦ rw e (put_ne q.tenant_counts u t (n - 1) ne)
  ]

  one_more_self : (e : V) (n : ℕ) → one_more e (tenant_of e) n ≡ suc n
  one_more_self e n = ground arith

  one_more_ne : (e : V) (t : Text) (n : ℕ) → tenant_of e ≢ t → one_more e t n ≡ n
  one_more_ne e t n ne = ground (arith, ne)

  less_counted :
      (q : Quota V) (k : Text) (e : V) (t : Text)
      → lookup k q.entries ≡ some e
      → Inv q
      → one_less q (tenant_of e) (count_of q (tenant_of e)) t ≡ tally (owned t (remove k q.entries))
  less_counted q k e t f i = elim (Text-discrete (tenant_of e) t) [
    | yes m ↦
        let left = owned (tenant_of e) (remove k q.entries) in
        let n : count_of q (tenant_of e) ≡ suc left =
          count-owned q (tenant_of e) i
          ∙ owned-remove k (tenant_of e) e q.entries i.distinct f
          ∙ one_more_self e left in
        subst
          (λ x.
            one_less q (tenant_of e) (count_of q (tenant_of e)) x
            ≡ tally (owned x (remove k q.entries)))
          m
          (ap (λ x. one_less q (tenant_of e) x (tenant_of e)) n
            ∙ one_less_self q (tenant_of e) left)
    | no ne ↦
        one_less_ne q (tenant_of e) t (count_of q (tenant_of e)) ne
        ∙ i.counted t
        ∙ ap tally (
            owned-remove k t e q.entries i.distinct f
            ∙ one_more_ne e t (owned t (remove k q.entries)) ne)
  ]

  pub delete_found :
      (q : Quota V) (k : Text) (e : V)
      → lookup k q.entries ≡ some e
      → Inv q
      → Inv (delete tenant_of q k) × ((delete tenant_of q k).entries ≡ remove k q.entries)
  unfolding delete
  delete_found q k e f i =
      rw (f, delete)
        (
          record {
            distinct = Distinct-remove k q.entries i.distinct;
            counted = λ t. less_counted q k e t f i;
          },
          refl,
        )

  pub delete-Inv : (q : Quota V) (k : Text) → Inv q → Inv (delete tenant_of q k)
  unfolding delete
  delete-Inv q k i = elim (Option-cases (lookup k q.entries)) [
    | inl gone ↦ rw (gone, delete) i
    | inr (e, f) ↦ (delete_found q k e f i).0
  ]

  pub add_entry-Inv :
      (q : Quota V) (k : Text) (e : V)
      → lookup k q.entries ≡ none
      → Inv q
      → Inv (add_entry tenant_of q k e)
  unfolding add_entry
  add_entry-Inv q k e gone i = record {
    distinct = Distinct-append k e q.entries i.distinct gone;
    counted = λ t. elim (Text-discrete (tenant_of e) t) [
      | yes m ↦
          subst
            (λ x.
              put q.tenant_counts (tenant_of e) (suc (count_of q (tenant_of e))) x
              ≡ tally (owned x (q.entries ++ (k, e) ∷ [])))
            m
            (put_self q.tenant_counts (tenant_of e) (suc (count_of q (tenant_of e)))
              ∙ ap (λ x. tally (suc x)) (count-owned q (tenant_of e) i)
              ∙ ap tally (
                  sym (
                    owned-append k (tenant_of e) e q.entries
                    ∙ one_more_self e (owned (tenant_of e) q.entries))))
      | no ne ↦
          put_ne q.tenant_counts (tenant_of e) t (suc (count_of q (tenant_of e))) ne
          ∙ i.counted t
          ∙ ap tally (sym (owned-append k t e q.entries ∙ one_more_ne e t (owned t q.entries) ne))
    ];
  }
