-- ===== src/Tools/Rewrites.antt =====
-- What a change of a version object that the tool shares leaves.
use premise_protocol.Base.{
  ℕ, ◌≡◌, ◌⊎◌, inl, inr, refl, sym, ap, subst, arith, Text, ℕ_discrete, some, Option-cases,
}
use premise_protocol.Entries.{lookup, some_inj}
use premise_protocol.Tools.{VersionReference, write}
use premise_protocol.Tools.Answers.{ProofResource, InFlight, GuardedTool}
use premise_protocol.Tools.Run.{Place, of_check, of_proof, of_flight, rewrite}

module _ {A R : Type 0} where
  -- The action in flight with another version.
  abbrev pub with_version : InFlight A R → VersionReference → InFlight A R
  with_version f v = record f { request = record (f.request) { expected_version = v } }

  -- A proof is as it was, or has the version that was written.
  abbrev ProofKept : VersionReference → GuardedTool A R → GuardedTool A R → Type 0
  ProofKept v t u =
      (i : ℕ) (p : ProofResource)
      → u.ready i ≡ some p
      → (q : ProofResource) × (t.ready i ≡ some q)
        × (p.resource ≡ q.resource)
        × ((p.version ≡ q.version) ⊎ (p.version ≡ v))

  -- Store and calls stay; so do the actions in flight, but for one version.
  abbrev pub Rewrites : VersionReference → GuardedTool A R → GuardedTool A R → Type 0
  Rewrites v t u =
      (u.store ≡ t.store)
      × (u.calls ≡ t.calls)
      × ProofKept v t u
      × ((u.in_flight ≡ t.in_flight)
          ⊎ ((key : Text) × (f : InFlight A R) × (lookup key t.in_flight ≡ some f)
              × (u.in_flight ≡ write key (with_version f v) t.in_flight)))

  kept : (v : VersionReference) (t : GuardedTool A R) → ProofKept v t t
  kept v t i p e = (p, e, refl, inl refl)

  pub rewrite-Rewrites :
      (place : Place) (v : VersionReference) (t : GuardedTool A R)
      → Rewrites v t (rewrite place v t)
  unfolding rewrite
  rewrite-Rewrites (of_check i) v t = elim (Option-cases (t.checks i)) [
    | inl n ↦ rw (rewrite, n) (refl, refl, kept v t, inl refl)
    | inr (c, e) ↦ rw (rewrite, e) (refl, refl, kept v t, inl refl)
  ]
  rewrite-Rewrites (of_proof i) v t = elim (Option-cases (t.ready i)) [
    | inl n ↦ rw (rewrite, n) (refl, refl, kept v t, inl refl)
    | inr (p, e) ↦
        rw (rewrite, e)
          (
            refl,
            refl,
            λ j q h. elim (ℕ_discrete i j) [
              | yes same ↦
                  let is_q : record p { version = v } ≡ q = some_inj (ground (arith, h, same)) in
                  (
                    p,
                    subst (λ (k : ℕ). t.ready k ≡ some p) same e,
                    sym (ap (λ (x : ProofResource). x.resource) is_q),
                    inr (sym (ap (λ (x : ProofResource). x.version) is_q)),
                  )
              | no other ↦ (q, ground (arith, h, other), refl, inl refl)
            ],
            inl refl,
          )
  ]
  rewrite-Rewrites (of_flight key) v t = elim (Option-cases (lookup key t.in_flight)) [
    | inl n ↦ rw (rewrite, n) (refl, refl, kept v t, inl refl)
    | inr (f, l) ↦ rw (rewrite, l) (refl, refl, kept v t, inr (key, f, l, refl))
  ]
