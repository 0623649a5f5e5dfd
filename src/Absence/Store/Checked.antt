-- ===== src/Absence/Store/Checked.antt =====
-- When a stored absence may be used.
use premise_protocol.Base.{
  ℕ, ◌≤◌, ◌<◌, ◌≡◌, ◌≢◌, ◌↔◌, refl, sym, ap, ◌∙◌, ◌⊎◌, inl, inr, arith, true, Text, Option, none,
  some, Option-cases, Bool-cases, codes,
}
use premise_protocol.Entries.{lookup, lookup-All, some_inj}
use premise_protocol.Quota.{Quota}
use premise_protocol.Absence.Key.{
  AbsenceScope, scope_of, no_field, field, Fields, scope_text, negative_premise_key,
}
use premise_protocol.Absence.Key.Texts.{text-key, same_text-key, append-cancel}
use premise_protocol.Absence.Key.Injective.{scope_of-injective}
use premise_protocol.Absence.{
  Host, Absent, Observation, AbsenceStore, AbsenceDecision, Check, uses, decision, valid_scope,
  observed, compare_observed,
}
use premise_protocol.Absence.Store.{time_of, acceptable, check_entry, check}
use premise_protocol.Absence.Store.Kept.{Own, Sound}

-- The observation says nothing against the absence.
abbrev pub Agrees : Absent → Observation → Type 0
Agrees e o =
    ((o.incarnation_id ≡ none) ⊎ (o.incarnation_id ≡ some e.identity.incarnation_id))
    × ((o.frontier_digest ≡ none) ⊎ (o.frontier_digest ≡ some e.identity.frontier_digest))
    × (o.entity_present ≢ some true)

compare-uses :
    (e : Absent) (o : Observation) → ((compare_observed e o).decision ≡ uses) ↔ Agrees e o
unfolding compare_observed decision
compare-uses e o = (λ h. ground arith, λ h. ground arith)

-- The absence that a scope names.
abbrev pub Names : AbsenceScope → Absent → Type 0
Names scope e =
    ((scope.further ≡ no_field) × (scope.identity ≡ e.identity))
    ⊎ ((scope.further ≢ no_field) × (scope_text scope ≡ scope_text (scope_of e.identity)))

no_further : (fs : Fields) → (fs ≡ no_field) ⊎ (fs ≢ no_field)
no_further no_field = inl refl
no_further (field k v fs) = inr (λ h. ground (arith, h))

is_plain : (scope : AbsenceScope) → scope.further ≡ no_field → scope ≡ scope_of scope.identity
is_plain scope h = ap (λ fs. record scope { further = fs }) h

Names_lem :
    (scope : AbsenceScope) (e : Absent)
    → Names scope e ↔ (scope_text scope ≡ scope_text (scope_of e.identity))
Names_lem scope e = (
  (λ names. elim names [
    | inl (bare, same) ↦
        ap scope_text (is_plain scope bare) ∙ ap (λ i. scope_text (scope_of i)) same
    | inr (_, same) ↦ same
  ]),
  λ same. elim (no_further scope.further) [
    | inr more ↦ inr (more, same)
    | inl bare ↦ inl (
      bare,
      scope_of-injective scope.identity e.identity
          (sym (ap scope_text (is_plain scope bare)) ∙ same),
    )
  ],
)

abbrev pub decided : Option Check → Option AbsenceDecision
decided none = none
decided (some c) = some c.decision

module _ (host : Host) where
  -- At the time t the absence has been observed, and has not expired.
  abbrev pub Current : Absent → ℕ → Type 0
  Current e t =
      (a : ℕ) × (b : ℕ) × (host.parse_date e.observed_at ≡ some a)
      × (host.parse_date e.expires_at ≡ some b)
      × (a ≤ t)
      × (t < b)

  times_of :
      (e : Absent)
      → acceptable host e ≡ true
      → (a : ℕ) × (b : ℕ) × (host.parse_date e.observed_at ≡ some a)
        × (host.parse_date e.expires_at ≡ some b)
  unfolding acceptable
  times_of e h = elim (Option-cases (time_of host e.observed_at)) [
    | inl n ↦ ground (arith, h, n)
    | inr (a, f) ↦ elim (Option-cases (time_of host e.expires_at)) [
      | inl n ↦ ground (arith, h, f, n)
      | inr (b, g) ↦ (a, b, ground (arith, f), ground (arith, g))
    ]
  ]

  entry-uses :
      (s : AbsenceStore) (key : Text) (t : ℕ) (e : Absent) (o : Observation)
      → acceptable host e ≡ true
      → ((check_entry host s key t e o).1.decision ≡ uses) ↔ (Current e t × Agrees e o)
  unfolding check_entry decision
  entry-uses s key t e o ok =
      let (a, b, f, g) = times_of e ok in
      (
        (λ h. (
          (a, b, f, g, ground (arith, h, f, g), ground (arith, h, f, g)),
          (compare-uses e o).0 (ground (arith, h, f, g)),
        )),
        λ ((c, d, k, l, m, n), agrees).
            let ok : (compare_observed e o).decision ≡ uses = (compare-uses e o).1 agrees in
            ground (arith, k, l, m, n, ok),
      )

  -- What `check` needs, up to the entry of the scope's key.
  abbrev Reached :
      AbsenceStore
      → AbsenceScope
      → Text
      → Option Observation
      → ℕ
      → Observation
      → Text
      → Absent
      → Type 0
  Reached s scope now observation t o key e =
      (valid_scope scope.identity ≡ true)
      × (time_of host now ≡ some t)
      × (observed observation ≡ some o)
      × (negative_premise_key host scope ≡ some key)
      × (lookup key s.quota.entries ≡ some e)

  check_cases :
      (s : AbsenceStore) (scope : AbsenceScope) (now : Text) (observation : Option Observation)
      → (decided (check host s scope now observation).1 ≢ some uses)
        ⊎ ((t : ℕ) × (o : Observation) × (key : Text) × (e : Absent) × Reached s scope now
              observation t o key e)
  unfolding check decision
  check_cases s scope now observation = elim (Bool-cases (valid_scope scope.identity)) [
    | inr bad ↦ inl (λ h. ground (arith, h, bad))
    | inl good ↦ elim (Option-cases (time_of host now)) [
      | inl n ↦ inl (λ h. ground (arith, h, good, n))
      | inr (t, is) ↦ elim (Option-cases (observed observation)) [
        | inl n ↦ inl (λ h. ground (arith, h, good, is, n))
        | inr (o, ob) ↦ elim (Option-cases (negative_premise_key host scope)) [
          | inl n ↦ inl (λ h. ground (arith, h, good, is, ob, n))
          | inr (key, hashed) ↦ elim (Option-cases (lookup key s.quota.entries)) [
            | inl n ↦ inl (λ h. ground (arith, h, good, is, ob, hashed, n))
            | inr (e, f) ↦ inr (t, o, key, e, (good, is, ob, hashed, f))
          ]
        ]
      ]
    ]
  ]

  check-Reached :
      (s : AbsenceStore) (scope : AbsenceScope) (now : Text) (observation : Option Observation)
      (t : ℕ) (o : Observation) (key : Text) (e : Absent)
      → Reached s scope now observation t o key e
      → decided (check host s scope now observation).1
        ≡ some (check_entry host s key t e o).1.decision
  unfolding check
  check-Reached s scope now observation t o key e (good, is, ob, hashed, f) =
      rw (good, is, ob, hashed, f, check) refl

  -- No other text than the scope's own has its digest among the texts of the stored absences.
  abbrev pub Apart : Quota Absent → AbsenceScope → Type 0
  Apart q scope =
      (k : Text) (e : Absent) (u v : Text)
      → lookup k q.entries ≡ some e
      → scope_text scope ≡ some u
      → scope_text (scope_of e.identity) ≡ some v
      → host.sha256 u ≡ host.sha256 v
      → u ≡ v

  -- A well-formed check of a stored absence that holds and that nothing observed speaks against.
  abbrev pub Usable : AbsenceStore → AbsenceScope → Text → Option Observation → Type 0
  Usable s scope now observation =
      (valid_scope scope.identity ≡ true)
      × ((t : ℕ) × (o : Observation) × (k : Text) × (e : Absent) × (time_of host now ≡ some t)
          × (observed observation ≡ some o)
          × (lookup k s.quota.entries ≡ some e)
          × Names scope e
          × Current e t
          × Agrees e o)

  same_text :
      (s : AbsenceStore) (scope : AbsenceScope) (key : Text) (e : Absent)
      → Apart s.quota scope
      → lookup key s.quota.entries ≡ some e
      → negative_premise_key host scope ≡ some key
      → negative_premise_key host (scope_of e.identity) ≡ some key
      → scope_text scope ≡ scope_text (scope_of e.identity)
  same_text s scope key e apart f h own =
      let (_, (u, is, a)) = text-key host scope key h in
      let (_, (v, was, b)) = text-key host (scope_of e.identity) key own in
      is
      ∙ ap some (apart key e u v f is was (append-cancel (codes "sha256:") _ _ (sym a ∙ b)))
      ∙ sym was

  -- In a sound store, if no absence in it has another text with the digest of the scope's text, `check`
  -- lets an absence be used exactly if the scope, the time and the observation are well formed, an
  -- absence that the scope names is stored and holds at the time, and the observation names no other
  -- incarnation, no other frontier, and no present entity. A scope without further fields names the
  -- absence of its own identity, a scope with further fields one whose identity has the same text.
  pub check-uses :
      (s : AbsenceStore) (scope : AbsenceScope) (now : Text) (observation : Option Observation)
      → Apart s.quota scope
      → Sound host s.quota
      → (decided (check host s scope now observation).1 ≡ some uses)
        ↔ Usable s scope now observation
  check-uses s scope now observation apart (b, own) =
      let stored : (k : Text) (e : Absent) → lookup k s.quota.entries ≡ some e → Own host (k, e) =
        λ k e f. lookup-All (Own host) k e s.quota.entries own f in
      (
        (λ h. elim (check_cases s scope now observation) [
          | inl bad ↦ absurd (bad h)
          | inr (t, o, key, e, (good, is, ob, hashed, f)) ↦
              let (mine, ok) = stored key e f in
              let this =
                check-Reached s scope now observation t o key e (good, is, ob, hashed, f) in
              let (current, agrees) = (entry-uses s key t e o ok).0 (some_inj (sym this ∙ h)) in
              let same = same_text s scope key e apart f hashed mine in
              (good, (t, o, key, e, is, ob, f, (Names_lem scope e).1 same, current, agrees))
        ]),
        λ (good, (t, o, key, e, is, ob, f, names, current, agrees)).
            let (mine, ok) = stored key e f in
            let hashed =
              same_text-key host scope (scope_of e.identity) key good ((Names_lem scope e).0 names)
                mine in
            check-Reached s scope now observation t o key e (good, is, ob, hashed, f)
            ∙ ap some ((entry-uses s key t e o ok).1 (current, agrees)),
      )
