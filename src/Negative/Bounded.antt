-- ===== src/Negative/Bounded.antt =====
-- The negative cache keeps its bounds.
use premise_protocol.Base.{
  ℕ, ◌≡◌, refl, sym, subst, ◌∙◌, inl, inr, arith, not, ◌||◌, Text, is_empty, Option, some, List, [],
  ◌∷◌, Option-cases, Bool-cases,
}
use premise_protocol.Times.{before, is_timestamp}
use premise_protocol.Entries.{lookup, some_inj}
use premise_protocol.Quota.{delete}
use premise_protocol.Quota.Evicted.{delete-Shrunk}
use premise_protocol.Quota.Bounded.{IsBounded, Shrunk-IsBounded, store-IsBounded, empty-IsBounded}
use premise_protocol.Quota.Last.{HasRoom}
use premise_protocol.Negative.{
  Host, NegativeCache, create, is_bad_bound, is_bad_option, cache_of, bound_of, tenant_of, put, get,
  clear, Call, puts, gets, clears, step, run,
}

pub created :
    (max_entries per_tenant : Option ℕ) (c : NegativeCache)
    → create max_entries per_tenant ≡ some c
    → (cache_of (bound_of max_entries) per_tenant ≡ c)
      × HasRoom (cache_of (bound_of max_entries) per_tenant).quota
unfolding create is_bad_bound
created max_entries per_tenant c h =
    elim (Bool-cases (is_bad_bound (bound_of max_entries) || is_bad_option per_tenant)) [
      | inl bad ↦ ground (arith, h, bad)
      | inr good ↦
          let made : create max_entries per_tenant
              ≡ some (cache_of (bound_of max_entries) per_tenant) =
            rw (good, create) refl in
          (some_inj (sym made ∙ h), (ground (arith, good), λ b is. ground (arith, good, is)))
    ]

pub create-IsBounded :
    (max_entries per_tenant : Option ℕ) (c : NegativeCache)
    → create max_entries per_tenant ≡ some c
    → IsBounded tenant_of c.quota
create-IsBounded max_entries per_tenant c h =
    subst (λ x. IsBounded tenant_of x.quota) (created max_entries per_tenant c h).0
      (empty-IsBounded tenant_of _ refl (λ t. refl))

module _ {S : Type 0} (host : Host S) where
  put-IsBounded :
      (c : NegativeCache) (scope : S) (reason expires_at : Text)
      → IsBounded tenant_of c.quota
      → IsBounded tenant_of (put host c scope reason expires_at).0.quota
  unfolding put
  put-IsBounded c scope reason expires_at i =
      elim (Bool-cases (is_empty reason || not (is_timestamp host.parse_date expires_at))) [
        | inl bad ↦ rw bad i
        | inr good ↦ rw good (elim (Option-cases (host.key_of scope)) [
          | inl n ↦ rw n i
          | inr (key, k) ↦ rw k (store-IsBounded tenant_of c.quota key _ i)
        ])
      ]

  delete-IsBounded :
      (c : NegativeCache) (key : Text)
      → IsBounded tenant_of c.quota
      → IsBounded tenant_of (delete tenant_of c.quota key)
  delete-IsBounded c key i =
      Shrunk-IsBounded tenant_of c.quota (delete tenant_of c.quota key)
        (delete-Shrunk tenant_of c.quota key i.inv) i

  get-IsBounded :
      (c : NegativeCache) (scope : S) (now : Text)
      → IsBounded tenant_of c.quota
      → IsBounded tenant_of (get host c scope now).0.quota
  unfolding get
  get-IsBounded c scope now i = elim (Bool-cases (is_timestamp host.parse_date now)) [
    | inr bad ↦ rw bad i
    | inl good ↦ rw good (elim (Option-cases (host.key_of scope)) [
      | inl n ↦ rw n i
      | inr (key, k) ↦ rw k (elim (Option-cases (lookup key c.quota.entries)) [
        | inl n ↦ rw n i
        | inr (e, f) ↦ rw f (elim (Bool-cases (before host.parse_date now e.expires_at)) [
          | inr late ↦ rw late (delete-IsBounded c key i)
          | inl live ↦ rw live i
        ])
      ])
    ])
  ]

  step-IsBounded :
      (c : NegativeCache) (x : Call S)
      → IsBounded tenant_of c.quota
      → IsBounded tenant_of (step host c x).quota
  unfolding step clear
  step-IsBounded c (puts scope reason expires_at) i = put-IsBounded c scope reason expires_at i
  step-IsBounded c (gets scope now) i = get-IsBounded c scope now i
  step-IsBounded c clears i = empty-IsBounded tenant_of _ refl (λ t. refl)

  calls-IsBounded :
      (c : NegativeCache) (xs : List (Call S))
      → IsBounded tenant_of c.quota
      → IsBounded tenant_of (run host c xs).quota
  unfolding run
  calls-IsBounded c [] i = i
  calls-IsBounded c (x ∷ xs) i = calls-IsBounded (step host c x) xs (step-IsBounded c x i)

  -- After any calls, a negative cache holds no more entries than it was given room for, and no more of
  -- one tenant than the bound for a tenant; the counts of its tenants are exact, with none for a tenant
  -- that has no entry. The loops that evict have ended by then.
  pub run-IsBounded :
      (max_entries per_tenant : Option ℕ) (c : NegativeCache) (xs : List (Call S))
      → create max_entries per_tenant ≡ some c
      → IsBounded tenant_of (run host c xs).quota
  run-IsBounded max_entries per_tenant c xs h =
      calls-IsBounded c xs (create-IsBounded max_entries per_tenant c h)
