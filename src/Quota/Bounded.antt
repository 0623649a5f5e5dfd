-- ===== src/Quota/Bounded.antt =====
-- The bounded Map keeps its bounds and its counts, and holds what was stored last.
use premise_protocol.Base.{
  ℕ, ◌≤◌, ◌≡◌, ◌≢◌, sym, subst, ap, ◌∙◌, inl, inr, arith, Text, Text-discrete, none, some, [],
  length, Option-cases,
}
use premise_protocol.Entries.{some_inj}
use premise_protocol.Entries.Distinct.{Distinct}
use premise_protocol.Quota.{
  Quota, delete, shrink_all, shrink_tenant, enforce_bounds, add_entry, store,
}
use premise_protocol.Quota.Counted.{tally, owned, Inv, owned-append, add_entry-Inv}
use premise_protocol.Quota.Evicted.{
  Shrunk, Shrunk-trans, shrink_all_lem, shrink_tenant_lem, delete-Shrunk, delete-lookup_self,
}

module _ {V : Type 0} (tenant_of : V → Text) where
  -- Sound counts, at most so many entries, and at most so many for each tenant.
  pub record IsBounded (q : Quota V) : Type 0 where
    pub inv : Inv tenant_of q
    pub size : length q.entries ≤ q.max_entries
    pub fair : (b : ℕ) → q.max_per_tenant ≡ some b → (t : Text) → owned tenant_of t q.entries ≤ b

  pub Shrunk-IsBounded : (q r : Quota V) → Shrunk tenant_of q r → IsBounded q → IsBounded r
  Shrunk-IsBounded q r s i = record {
    inv = s.inv;
    size = omega (arith, s.size, s.same_max, i.size);
    fair = λ b e t. omega (arith, s.fewer t, i.fair b (sym s.same_bound ∙ e) t);
  }

  -- Only the tenant t may be above its bound.
  enforce_bounds_lem :
      (q : Quota V) (t : Text)
      → Inv tenant_of q
      → ((b : ℕ) → q.max_per_tenant ≡ some b → (u : Text) → t ≢ u → owned tenant_of u q.entries ≤ b)
      → IsBounded (enforce_bounds tenant_of t q)
  unfolding enforce_bounds
  enforce_bounds_lem q t i others =
      let r = shrink_all tenant_of (length q.entries) q in
      let (first, size) = shrink_all_lem tenant_of (length q.entries) q i (omega arith) in
      elim (Option-cases r.max_per_tenant) [
        | inl free ↦
            rw (free, enforce_bounds)
              (record {
                inv = first.inv;
                size = omega (arith, size, first.same_max);
                fair = λ b e u. ground (arith, free, e);
              })
        | inr (bound, is) ↦
            let s = shrink_tenant tenant_of (length r.entries) bound t r in
            let (second, low) =
              shrink_tenant_lem tenant_of (length r.entries) bound t r first.inv (omega arith) in
            let both : Shrunk tenant_of q s = Shrunk-trans tenant_of q r s first second in
            let is_q : q.max_per_tenant ≡ some bound = sym first.same_bound ∙ is in
            rw (is, enforce_bounds)
              (record {
                inv = second.inv;
                size = omega (arith, size, second.size, second.same_max, first.same_max);
                fair = λ b e u.
                    let same : bound ≡ b = some_inj (sym (both.same_bound ∙ is_q) ∙ e) in
                    elim (Text-discrete t u) [
                      | yes m ↦
                          subst (λ x. owned tenant_of x s.entries ≤ b) m (omega (arith, low, same))
                      | no ne ↦ omega (arith, both.fewer u, others bound is_q u ne, same)
                    ];
              })
      ]

  owned-add :
      (r : Quota V) (k : Text) (e : V) (u : Text)
      → tenant_of e ≢ u
      → owned tenant_of u (add_entry tenant_of r k e).entries ≡ owned tenant_of u r.entries
  unfolding add_entry
  owned-add r k e u ne = ground (arith, owned-append tenant_of k u e r.entries, ne)

  pub store-IsBounded :
      (q : Quota V) (k : Text) (e : V) → IsBounded q → IsBounded (store tenant_of q k e)
  unfolding store add_entry
  store-IsBounded q k e i =
      let r = delete tenant_of q k in
      let s = add_entry tenant_of r k e in
      let shrunk : Shrunk tenant_of q r = delete-Shrunk tenant_of q k i.inv in
      enforce_bounds_lem s (tenant_of e)
        (add_entry-Inv tenant_of r k e (delete-lookup_self tenant_of q k) shrunk.inv)
        (λ b is u ne.
          omega
            (arith, owned-add r k e u ne, shrunk.fewer u, i.fair b (sym shrunk.same_bound ∙ is) u))

  -- A Map without entries and counts.
  pub empty-IsBounded :
      (q : Quota V) → q.entries ≡ [] → ((t : Text) → q.tenant_counts t ≡ none) → IsBounded q
  unfolding owned
  empty-IsBounded q e c = record {
    inv = record {
      distinct = subst Distinct (sym e) tt;
      counted = λ t. c t ∙ ap (λ es. tally (owned tenant_of t es)) (sym e);
    };
    size = omega (arith, ap length e);
    fair = λ b h t. omega (arith, ap (owned tenant_of t) e);
  }
