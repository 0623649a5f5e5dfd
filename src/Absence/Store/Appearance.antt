-- ===== src/Absence/Store/Appearance.antt =====
-- What is left after a resource has appeared.
use premise_protocol.Base.{
  ℕ, suc, ◌≡◌, ◌≢◌, ◌↔◌, sym, subst, ap, ◌∙◌, ◌⊎◌, inl, inr, arith, true, false, ◌&&◌, Text,
  Text-discrete, none, some, [], ◌∷◌, Bool-cases, if◌then◌else◌,
}
use premise_protocol.Entries.{OrderedMap, lookup, some_inj}
use premise_protocol.Entries.Distinct.{Distinct}
use premise_protocol.Quota.{Quota, delete}
use premise_protocol.Quota.Counted.{Inv}
use premise_protocol.Absence.{Absent, AbsenceStore, tenant_of, is_required}
use premise_protocol.Absence.Store.{concerns, remove_all, invalidate_on_appearance}
use premise_protocol.Quota.Evicted.{delete-lookup_self, delete-lookup_ne}

-- What the loop has still to visit: every absence of the resource that is left.
Pending : Text → Text → OrderedMap Absent → Quota Absent → Type 0
Pending tenant resource es q =
    (k : Text) (e : Absent)
    → lookup k q.entries ≡ some e
    → concerns tenant resource e ≡ true
    → lookup k es ≡ some e

later :
    (k : Text) (e : Absent) (es : OrderedMap Absent) (j : Text) (f : Absent)
    → k ≢ j
    → lookup j ((k, e) ∷ es) ≡ some f
    → lookup j es ≡ some f
unfolding lookup
later k e es j f ne h = ground (arith, ne, h)

first_found :
    (k : Text) (e : Absent) (es : OrderedMap Absent) (j : Text) (f : Absent)
    → k ≡ j
    → lookup j ((k, e) ∷ es) ≡ some f
    → e ≡ f
unfolding lookup
first_found k e es j f m h =
    let this : lookup j ((k, e) ∷ es) ≡ some e = ground (arith, m) in some_inj (sym this ∙ h)

other_entry :
    (tenant resource k : Text) (e : Absent) (es : OrderedMap Absent) (j : Text) (f : Absent)
    → k ≡ j
    → lookup j ((k, e) ∷ es) ≡ some f
    → concerns tenant resource f ≡ true
    → concerns tenant resource e ≡ false
    → ⊥
other_entry tenant resource k e es j f m h hit kept =
    let same = ap (concerns tenant resource) (first_found k e es j f m h) in cc

Pending-visit :
    (tenant resource k : Text) (e : Absent) (es : OrderedMap Absent) (q : Quota Absent)
    → Pending tenant resource ((k, e) ∷ es) q
    → Pending tenant resource es (if concerns tenant resource e then delete tenant_of q k else q)
unfolding Pending lookup
Pending-visit tenant resource k e es q p j f found hit =
    elim (Bool-cases (concerns tenant resource e)) [
      | inl gone ↦
          let left : lookup j (delete tenant_of q k).entries ≡ some f =
            ground (arith, found, gone) in
          let ne : k ≢ j = λ m. ground (
            arith,
            left,
            subst (λ x. lookup x (delete tenant_of q k).entries ≡ none) m
                (delete-lookup_self tenant_of q k),
          ) in
          let was : lookup j q.entries ≡ some f =
            sym (delete-lookup_ne tenant_of q k j ne) ∙ left in
          later k e es j f ne (p j f was hit)
      | inr kept ↦
          let left : lookup j q.entries ≡ some f = ground (arith, found, kept) in
          let ne : k ≢ j =
            λ m. other_entry tenant resource k e es j f m (p j f left hit) hit kept in
          later k e es j f ne (p j f left hit)
    ]

remove_all-Pending :
    (tenant resource : Text) (es : OrderedMap Absent) (q : Quota Absent) (n : ℕ)
    → Pending tenant resource es q
    → Pending tenant resource [] (remove_all tenant resource es q n).0
unfolding remove_all
remove_all-Pending tenant resource [] q n p = p
remove_all-Pending tenant resource ((k, e) ∷ es) q n p =
    remove_all-Pending tenant resource es
      (if concerns tenant resource e then delete tenant_of q k else q)
      (if concerns tenant resource e then suc n else n) (Pending-visit tenant resource k e es q p)

-- An entry that is left was there.
remove_all-less :
    (tenant resource : Text) (es : OrderedMap Absent) (q : Quota Absent) (n : ℕ) (k : Text)
    (e : Absent)
    → lookup k (remove_all tenant resource es q n).0.entries ≡ some e
    → lookup k q.entries ≡ some e
unfolding remove_all
remove_all-less tenant resource [] q n k e h = h
remove_all-less tenant resource ((j, f) ∷ es) q n k e h =
    let next = if concerns tenant resource f then delete tenant_of q j else q in
    let was : lookup k next.entries ≡ some e =
      remove_all-less tenant resource es next (if concerns tenant resource f then suc n else n) k e
        h in
    elim (Bool-cases (concerns tenant resource f)) [
      | inr kept ↦ ground (arith, was, kept)
      | inl gone ↦
          let left : lookup k (delete tenant_of q j).entries ≡ some e = ground (arith, was, gone) in
          elim (Text-discrete j k) [
            | yes m ↦ ground (
              arith,
              left,
              subst (λ x. lookup x (delete tenant_of q j).entries ≡ none) m
                  (delete-lookup_self tenant_of q j),
            )
            | no ne ↦ sym (delete-lookup_ne tenant_of q j k ne) ∙ left
          ]
    ]

same_later :
    (j : Text) (f : Absent) (es : OrderedMap Absent) (k : Text) (e : Absent)
    → lookup j es ≡ none
    → (lookup k ((j, f) ∷ es) ≡ none) ⊎ (lookup k ((j, f) ∷ es) ≡ some e)
    → (lookup k es ≡ none) ⊎ (lookup k es ≡ some e)
unfolding lookup
same_later j f es k e new same = elim (Text-discrete j k) [
  | yes m ↦ inl (subst (λ x. lookup x es ≡ none) m new)
  | no ne ↦ elim same [ inl x ↦ inl (ground (arith, ne, x)) | inr x ↦ inr (ground (arith, ne, x)) ]
]

not_gone :
    (tenant resource j : Text) (f : Absent) (es : OrderedMap Absent) (k : Text) (e : Absent)
    → j ≡ k
    → (lookup k ((j, f) ∷ es) ≡ none) ⊎ (lookup k ((j, f) ∷ es) ≡ some e)
    → concerns tenant resource f ≡ true
    → concerns tenant resource e ≡ false
    → ⊥
unfolding lookup
not_gone tenant resource j f es k e m same gone other = elim same [
  | inl x ↦ ground (arith, m, x)
  | inr x ↦ let eq = ap (concerns tenant resource) (first_found j f es k e m x) in cc
]

-- An entry of another resource stays.
remove_all-others :
    (tenant resource : Text) (es : OrderedMap Absent) (q : Quota Absent) (n : ℕ) (k : Text)
    (e : Absent)
    → Distinct es
    → (lookup k es ≡ none) ⊎ (lookup k es ≡ some e)
    → concerns tenant resource e ≡ false
    → lookup k q.entries ≡ some e
    → lookup k (remove_all tenant resource es q n).0.entries ≡ some e
unfolding remove_all
remove_all-others tenant resource [] q n k e d same other h = h
remove_all-others tenant resource ((j, f) ∷ es) q n k e d same other h =
    remove_all-others tenant resource es
      (if concerns tenant resource f then delete tenant_of q j else q)
      (if concerns tenant resource f then suc n else n) k e d.1 (same_later j f es k e d.0 same)
      other
      (elim (Bool-cases (concerns tenant resource f)) [
        | inr kept ↦ rw kept h
        | inl gone ↦
            let ne : j ≢ k = λ m. not_gone tenant resource j f es k e m same gone other in
            rw gone (delete-lookup_ne tenant_of q j k ne ∙ h)
      ])

concerns_lem :
    (tenant resource : Text) (e : Absent)
    → (concerns tenant resource e ≡ false)
      ↔ ((e.identity.tenant_id ≢ tenant) ⊎ (e.identity.resource ≢ resource))
unfolding concerns
concerns_lem tenant resource e = (λ h. ground (arith, h), λ h. ground (arith, h))

all-Pending : (tenant resource : Text) (q : Quota Absent) → Pending tenant resource q.entries q
unfolding Pending
all-Pending tenant resource q k e found hit = found

none-Pending :
    (tenant resource : Text) (q : Quota Absent) (k : Text) (e : Absent)
    → Pending tenant resource [] q
    → lookup k q.entries ≡ some e
    → concerns tenant resource e ≡ true
    → ⊥
unfolding Pending lookup
none-Pending tenant resource q k e p h hit = let never = p k e h hit in cc

-- In a sound store, a well-formed appearance leaves exactly the absences of other resources: those of
-- the resource are gone, whatever their incarnation, and all others stay.
pub appearance-exact :
    (s : AbsenceStore) (tenant resource incarnation k : Text) (e : Absent)
    → Inv tenant_of s.quota
    → (is_required tenant && is_required resource && is_required incarnation) ≡ true
    → (lookup k (invalidate_on_appearance s tenant resource incarnation).0.quota.entries ≡ some e)
      ↔ ((lookup k s.quota.entries ≡ some e)
          × ((e.identity.tenant_id ≢ tenant) ⊎ (e.identity.resource ≢ resource)))
unfolding invalidate_on_appearance
appearance-exact s tenant resource incarnation k e i ok =
    let es = s.quota.entries in
    let left = remove_all tenant resource es s.quota 0 in
    rw (ok, invalidate_on_appearance)
      (
        (λ h.
            let was = remove_all-less tenant resource es s.quota 0 k e h in
            (
              was,
              elim (Bool-cases (concerns tenant resource e)) [
                | inr other ↦ (concerns_lem tenant resource e).0 other
                | inl hit ↦ absurd (
                    none-Pending tenant resource left.0 k e
                      (remove_all-Pending tenant resource es s.quota 0
                        (all-Pending tenant resource s.quota))
                      h hit)
              ],
            )),
        λ (was, other).
            remove_all-others tenant resource es s.quota 0 k e i.distinct (inr was)
              ((concerns_lem tenant resource e).1 other) was,
      )
