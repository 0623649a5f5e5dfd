-- ===== src/Absence/Store/Kept.antt =====
-- The store keeps its bounds, and every absence stands under the digest of its identity.
use premise_protocol.Base.{
  ℕ, suc, ◌≡◌, refl, sym, subst, ◌∙◌, inl, inr, arith, true, ◌&&◌, ◌||◌, Text, Option, some, List,
  [], ◌∷◌, Option-cases, Bool-cases, All,
}
use premise_protocol.Entries.{OrderedMap, lookup, some_inj}
use premise_protocol.Quota.{Quota, delete}
use premise_protocol.Quota.Evicted.{delete-Shrunk}
use premise_protocol.Quota.Bounded.{IsBounded, Shrunk-IsBounded, store-IsBounded, empty-IsBounded}
use premise_protocol.Quota.Every.{delete-All, store-All}
use premise_protocol.Absence.Key.{AbsenceScope, scope_of, negative_premise_key}
use premise_protocol.Absence.{
  Host, Absent, Observation, AbsenceStore, tenant_of, is_bad_bound, is_bad_option, bound_of,
  store_of, create, is_required, valid_scope, observed,
}
use premise_protocol.Absence.Store.{
  earlier, reached, time_of, remove_all, concerns, acceptable, put_absent, check_entry, check,
  invalidate_on_appearance, clear, Call, puts, checks, appears, clears, step, run,
}

module _ (host : Host) where
  -- Accepted, and under the digest of its identity.
  abbrev pub Own : Text × Absent → Type 0
  Own (k, e) =
      (negative_premise_key host (scope_of e.identity) ≡ some k) × (acceptable host e ≡ true)

  abbrev pub Sound : Quota Absent → Type 0
  Sound q = IsBounded tenant_of q × All Own q.entries

  delete-Sound : (q : Quota Absent) (k : Text) → Sound q → Sound (delete tenant_of q k)
  delete-Sound q k (b, a) = (
    Shrunk-IsBounded tenant_of q (delete tenant_of q k) (delete-Shrunk tenant_of q k b.inv) b,
    delete-All tenant_of Own q k a,
  )

  put-Sound : (s : AbsenceStore) (p : Absent) → Sound s.quota → Sound (put_absent host s p).0.quota
  unfolding put_absent
  put-Sound s p (b, a) = elim (Bool-cases (acceptable host p)) [
    | inr no_good ↦ rw no_good (b, a)
    | inl good ↦ rw good (elim (Option-cases (negative_premise_key host (scope_of p.identity))) [
      | inl n ↦ rw n (b, a)
      | inr (k, is) ↦ rw is (
        store-IsBounded tenant_of s.quota k p b,
        store-All tenant_of Own s.quota k p a (is, good),
      )
    ])
  ]

  check_entry-Sound :
      (s : AbsenceStore) (key : Text) (now : ℕ) (e : Absent) (o : Observation)
      → Sound s.quota
      → Sound (check_entry host s key now e o).0.quota
  unfolding check_entry
  check_entry-Sound s key now e o i =
      elim (Bool-cases (earlier now (host.parse_date e.observed_at))) [
        | inl early ↦ rw early i
        | inr on ↦ rw on (elim (Bool-cases (reached (host.parse_date e.expires_at) now)) [
          | inl late ↦ rw late (delete-Sound s.quota key i)
          | inr live ↦ rw live i
        ])
      ]

  check-Sound :
      (s : AbsenceStore) (scope : AbsenceScope) (now : Text) (o : Option Observation)
      → Sound s.quota
      → Sound (check host s scope now o).0.quota
  unfolding check
  check-Sound s scope now o i = elim (Bool-cases (valid_scope scope.identity)) [
    | inr bad ↦ rw bad i
    | inl good ↦ rw good (elim (Option-cases (time_of host now)) [
      | inl no_time ↦ rw no_time i
      | inr (t, is) ↦ rw is (elim (Option-cases (observed o)) [
        | inl bad ↦ rw bad i
        | inr (p, ob) ↦ rw ob (elim (Option-cases (negative_premise_key host scope)) [
          | inl no_key ↦ rw no_key i
          | inr (key, hashed) ↦ rw hashed (elim (Option-cases (lookup key s.quota.entries)) [
            | inl n ↦ rw n i
            | inr (e, f) ↦ rw f (check_entry-Sound s key t e p i)
          ])
        ])
      ])
    ])
  ]

  remove_all-Sound :
      (tenant resource : Text) (es : OrderedMap Absent) (q : Quota Absent) (n : ℕ)
      → Sound q
      → Sound (remove_all tenant resource es q n).0
  unfolding remove_all
  remove_all-Sound tenant resource [] q n i = i
  remove_all-Sound tenant resource ((k, e) ∷ es) q n i =
      elim (Bool-cases (concerns tenant resource e)) [
        | inl hit ↦
            rw (hit, remove_all)
              (remove_all-Sound tenant resource es (delete tenant_of q k) (suc n)
                (delete-Sound q k i))
        | inr other ↦ rw (other, remove_all) (remove_all-Sound tenant resource es q n i)
      ]

  step-Sound : (s : AbsenceStore) (x : Call) → Sound s.quota → Sound (step host s x).quota
  unfolding step invalidate_on_appearance clear
  step-Sound s (puts p) i = put-Sound s p i
  step-Sound s (checks scope now o) i = check-Sound s scope now o i
  step-Sound s (appears tenant resource incarnation) i =
      elim (Bool-cases (is_required tenant && is_required resource && is_required incarnation)) [
        | inl good ↦
            rw (good, step, invalidate_on_appearance)
              (remove_all-Sound tenant resource s.quota.entries s.quota 0 i)
        | inr bad ↦ rw (bad, step, invalidate_on_appearance) i
      ]
  step-Sound s clears i = (empty-IsBounded tenant_of _ refl (λ t. refl), tt)

  calls-Sound : (s : AbsenceStore) (xs : List Call) → Sound s.quota → Sound (run host s xs).quota
  unfolding run
  calls-Sound s [] i = i
  calls-Sound s (x ∷ xs) i = calls-Sound (step host s x) xs (step-Sound s x i)

  create-Sound :
      (max_entries per_tenant : Option ℕ) (s : AbsenceStore)
      → create max_entries per_tenant ≡ some s
      → Sound s.quota
  unfolding create
  create-Sound max_entries per_tenant s h =
      elim (Bool-cases (is_bad_bound (bound_of max_entries) || is_bad_option per_tenant)) [
        | inl bad ↦ ground (arith, h, bad)
        | inr good ↦
            let made : create max_entries per_tenant
                ≡ some (store_of (bound_of max_entries) per_tenant) =
              rw (good, create) refl in
            subst (λ x. Sound x.quota) (some_inj (sym made ∙ h))
              (empty-IsBounded tenant_of _ refl (λ t. refl), tt)
      ]

  -- After any calls, the store holds no more absences than it was given room for, and no more of one
  -- tenant than the bound for a tenant; its counts are exact; and each absence passed the tests of
  -- `putAbsent` and stands under the digest of its own identity.
  pub run-Sound :
      (max_entries per_tenant : Option ℕ) (s : AbsenceStore) (xs : List Call)
      → create max_entries per_tenant ≡ some s
      → Sound (run host s xs).quota
  run-Sound max_entries per_tenant s xs h =
      calls-Sound s xs (create-Sound max_entries per_tenant s h)
