-- ===== src/Tools/Calls.antt =====
-- All calls of the side effect are proven.
use premise_protocol.Base.{ℕ, ◌≡◌, refl, ◌⊎◌, inl, inr, sym, subst, Text, Option, List, [], ◌∷◌}
use premise_protocol.Entries.{lookup}
use premise_protocol.Tools.{Resource, VersionReference, Reply, RevalidationReply}
use premise_protocol.Tools.Answers.{GuardedTool}
use premise_protocol.Tools.Guarded.{guarded_tool}
use premise_protocol.Tools.Run.{
  Event, checks, revalidates, acts, starts, finishes, forgets, rewrites, step, run,
}
use premise_protocol.Tools.Proven.{
  Shows, Writes, Rewritten, Backed, Revalidated, AllCalls, Holds, weaken, start-Holds, finish-Holds,
  forget-Holds, act-Holds, check-Holds, revalidate-Holds, rewrite-Holds,
}

module _ {A R : Type 0} where
  -- What holds after an event: what it shows, what held, and what it wrote over a version that held.
  abbrev After :
      Event A R → (Resource → VersionReference → Type 0) → Resource → VersionReference → Type 0
  After e Q r v = Shows e r v ⊎ (Q r v ⊎ (Writes e v × ((w : VersionReference) × Q r w)))

  nothing_shown :
      (Q : Resource → VersionReference → Type 0) (e : Event A R) (t : GuardedTool A R)
      → Holds Q t
      → Holds (After e Q) t
  nothing_shown Q e t i = weaken Q (After e Q) t (λ r v h. inr (inl h)) i

  step-Holds :
      (Q : Resource → VersionReference → Type 0) (canonical : A → Option Text) (e : Event A R)
      (t : GuardedTool A R)
      → Holds Q t
      → Holds (After e Q) (step canonical e t)
  unfolding step
  step-Holds Q canonical (checks input reply) t i =
      check-Holds _ input reply t (nothing_shown Q (checks input reply) t i)
  step-Holds Q canonical (revalidates h reply) t i =
      revalidate-Holds (After (revalidates h reply) Q) h reply t
        (λ r p e says. inl (
          subst
            (λ (x : Reply RevalidationReply).
              Shows {A = A} {R = R} (revalidates h x) p.resource p.version)
            (sym e) says))
        (nothing_shown Q (revalidates h reply) t i)
  step-Holds Q canonical (acts h a key) t i =
      act-Holds _ canonical h a key t (nothing_shown Q (acts h a key) t i)
  step-Holds Q canonical (starts key) t i = start-Holds _ key t (nothing_shown Q (starts key) t i)
  step-Holds Q canonical (finishes key reply) t i =
      finish-Holds _ key reply t (nothing_shown Q (finishes key reply) t i)
  step-Holds Q canonical (forgets key) t i =
      forget-Holds _ key t (nothing_shown Q (forgets key) t i)
  step-Holds Q canonical (rewrites place v) t i =
      rewrite-Holds (After (rewrites place v) Q) place v t
        (λ r w held. elim held [
          | inl shown ↦ absurd shown
          | inr (inl q) ↦ inr (inr (refl, (w, q)))
          | inr (inr (is, held)) ↦ inr (inr (refl, held))
        ])
        (nothing_shown Q (rewrites place v) t i)

  -- A version that held before the events or was shown among them, or one written over such.
  abbrev Later :
      List (Event A R)
      → (Resource → VersionReference → Type 0)
      → Resource
      → VersionReference
      → Type 0
  Later es Q r v =
      (w : VersionReference) × (Revalidated es r w ⊎ Q r w) × ((v ≡ w) ⊎ Rewritten es v)

  Later-cons :
      (e : Event A R) (es : List (Event A R)) (Q : Resource → VersionReference → Type 0)
      (r : Resource) (v : VersionReference)
      → Later es (After e Q) r v
      → Later (e ∷ es) Q r v
  Later-cons e es Q r v (w, from, is) =
      let over : (v ≡ w) ⊎ Rewritten (e ∷ es) v = elim is [
        | inl same ↦ inl same
        | inr later ↦ inr (inr later)
      ] in
      elim from [
        | inl later ↦ (w, inl (inr later), over)
        | inr (inl shown) ↦ (w, inl (inl shown), over)
        | inr (inr (inl before)) ↦ (w, inr before, over)
        | inr (inr (inr (written, (u, before)))) ↦ (
          u,
          inr before,
          inr (elim is [
            | inl same ↦ inl (subst (Writes e) (sym same) written)
            | inr later ↦ inr later
          ]),
        )
      ]

  run-Holds :
      (Q : Resource → VersionReference → Type 0) (canonical : A → Option Text)
      (es : List (Event A R)) (t : GuardedTool A R)
      → Holds Q t
      → Holds (Later es Q) (run canonical es t)
  unfolding run
  run-Holds Q canonical [] t i = weaken Q (Later [] Q) t (λ r v h. (v, inr h, inl refl)) i
  run-Holds Q canonical (e ∷ es) t i =
      weaken (Later es (After e Q)) (Later (e ∷ es) Q) (run canonical (e ∷ es) t)
        (Later-cons e es Q)
        (run-Holds (After e Q) canonical es (step canonical e t) (step-Holds Q canonical e t i))

  -- Each call of the side effect, after any events of a new tool, carries a resource that the source
  -- answered to a revalidation to be fresh, and the version of such an answer, or a version that the
  -- holder of a version object wrote into it.
  pub calls-Revalidated :
      (canonical : A → Option Text) (es : List (Event A R)) (max : ℕ)
      → AllCalls (Backed es) (run canonical es (guarded_tool max))
  unfolding lookup
  calls-Revalidated canonical es max =
      (weaken (Later es (λ r v. ⊥)) (Backed es) (run canonical es (guarded_tool max))
        (λ r v (w, from, is). (w, elim from [ inl shown ↦ shown | inr never ↦ absurd never ], is))
        (run-Holds (λ r v. ⊥) canonical es (guarded_tool max)
          (record { proofs = λ i p e. cc; actions = λ k f l. cc; called = tt }))).called
