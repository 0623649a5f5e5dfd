-- ===== src/Quota/Every.antt =====
-- What holds of every entry goes on to hold.
use premise_protocol.Base.{
  ℕ, zero, suc, inl, inr, Bool, true, Text, text_eq, List, [], ◌∷◌, ◌++◌, length, Option-cases,
  Bool-cases, ltb, All,
}
use premise_protocol.Entries.{lookup, remove-All}
use premise_protocol.Quota.{
  Quota, count_of, first_key, delete, evict_oldest, shrink_all, shrink_tenant, enforce_bounds,
  add_entry, store,
}

pub append-All :
    {A : Type 0} (P : A → Type 0) (xs ys : List A) → All P xs → All P ys → All P (xs ++ ys)
append-All P [] ys a b = b
append-All P (x ∷ xs) ys a b = (a.0, append-All P xs ys a.1 b)

module _ {V : Type 0} (tenant_of : V → Text) (P : Text × V → Type 0) where
  pub delete-All : (q : Quota V) (k : Text) → All P q.entries → All P (delete tenant_of q k).entries
  unfolding delete
  delete-All q k a = elim (Option-cases (lookup k q.entries)) [
    | inl n ↦ rw (n, delete) a
    | inr (e, f) ↦ rw (f, delete) (remove-All P k q.entries a)
  ]

  evict-All :
      (p : V → Bool) (q : Quota V) → All P q.entries → All P (evict_oldest tenant_of p q).entries
  unfolding evict_oldest
  evict-All p q a = elim (Option-cases (first_key p q.entries)) [
    | inl n ↦ rw (n, evict_oldest) a
    | inr (k, f) ↦ rw (f, evict_oldest) (delete-All q k a)
  ]

  shrink_all-All :
      (fuel : ℕ) (q : Quota V) → All P q.entries → All P (shrink_all tenant_of fuel q).entries
  unfolding shrink_all
  shrink_all-All zero q a = a
  shrink_all-All (suc fuel) q a = elim (Bool-cases (ltb q.max_entries (length q.entries))) [
    | inl over ↦
        rw over
          (shrink_all-All fuel (evict_oldest tenant_of (λ e. true) q) (evict-All (λ e. true) q a))
    | inr fits ↦ rw fits a
  ]

  shrink_tenant-All :
      (fuel bound : ℕ) (t : Text) (q : Quota V)
      → All P q.entries
      → All P (shrink_tenant tenant_of fuel bound t q).entries
  unfolding shrink_tenant
  shrink_tenant-All zero bound t q a = a
  shrink_tenant-All (suc fuel) bound t q a = elim (Bool-cases (ltb bound (count_of q t))) [
    | inl over ↦
        let p : V → Bool = λ e. text_eq (tenant_of e) t in
        rw over (shrink_tenant-All fuel bound t (evict_oldest tenant_of p q) (evict-All p q a))
    | inr fits ↦ rw fits a
  ]

  enforce-All :
      (t : Text) (q : Quota V) → All P q.entries → All P (enforce_bounds tenant_of t q).entries
  unfolding enforce_bounds
  enforce-All t q a =
      let r = shrink_all tenant_of (length q.entries) q in
      let b = shrink_all-All (length q.entries) q a in
      elim (Option-cases r.max_per_tenant) [
        | inl n ↦ rw (n, enforce_bounds) b
        | inr (bound, is) ↦
            rw (is, enforce_bounds) (shrink_tenant-All (length r.entries) bound t r b)
      ]

  pub store-All :
      (q : Quota V) (k : Text) (e : V)
      → All P q.entries
      → P (k, e)
      → All P (store tenant_of q k e).entries
  unfolding store add_entry
  store-All q k e a x =
      enforce-All (tenant_of e) (add_entry tenant_of (delete tenant_of q k) k e)
        (append-All P (delete tenant_of q k).entries ((k, e) ∷ []) (delete-All q k a) (x, tt))
