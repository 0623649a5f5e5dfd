-- ===== src/Tools/Retained.antt =====
-- The store of idempotency keys stays within its bound and forgets nothing.
use premise_protocol.Base.{
  ◌≤◌, ◌<◌, ◌≡◌, ◌≢◌, inl, inr, refl, sym, ap, subst, ◌∙◌, arith, Text, Text-discrete, Option, none,
  some, [], ◌∷◌, ◌++◌, length, length-append,
}
use premise_protocol.Entries.{lookup, some_inj}
use premise_protocol.Entries.Distinct.{lookup-append_ne}
use premise_protocol.Tools.{Entry, IdempotencyStore, ActionResult, ActionReply, Reply, write}
use premise_protocol.Tools.Answers.{GuardedTool}
use premise_protocol.Tools.Run.{finish}
use premise_protocol.Tools.Cases.{length-write, lookup-write_ne, write-absent, complete_cases}
use premise_protocol.Tools.Stages.{finish_cases}

module _ {R : Type 0} where
  -- The bound stays, what was completed stays, and no key is forgotten.
  pub record Retains (s u : IdempotencyStore R) : Type 0 where
    pub same_bound : u.max_entries ≡ s.max_entries
    pub within : length s.entries ≤ s.max_entries → length u.entries ≤ u.max_entries
    pub completed :
        (k : Text) (e : Entry R) (r : ActionResult R)
        → lookup k s.entries ≡ some e
        → e.completed ≡ some r
        → lookup k u.entries ≡ some e
    pub known : (k : Text) → lookup k u.entries ≡ none → lookup k s.entries ≡ none

  pub Retains-refl : (s : IdempotencyStore R) → Retains s s
  Retains-refl s = record {
    same_bound = refl;
    within = λ h. h;
    completed = λ k e r l c. l;
    known = λ k h. h;
  }

  pub Retains-trans : (s u v : IdempotencyStore R) → Retains s u → Retains u v → Retains s v
  Retains-trans s u v a b = record {
    same_bound = b.same_bound ∙ a.same_bound;
    within = λ h. b.within (a.within h);
    completed = λ k e r l c. b.completed k e r (a.completed k e r l c) c;
    known = λ k h. a.known k (b.known k h);
  }

  pub enter-Retains :
      (s : IdempotencyStore R) (key : Text) (e : Entry R)
      → lookup key s.entries ≡ none
      → length s.entries < s.max_entries
      → Retains s (record s { entries = s.entries ++ (key, e) ∷ [] })
  enter-Retains s key e n room = record {
    same_bound = refl;
    within = λ h. let size = length-append s.entries ((key, e) ∷ []) in omega (arith, size, room);
    completed = λ k d r l c.
        let other : key ≢ k =
          λ same. absurd_lookup (subst (λ x. lookup x s.entries ≡ none) same n) l in
        lookup-append_ne key k e s.entries other ∙ l;
    known = λ k h. elim (Text-discrete key k) [
      | yes same ↦ subst (λ x. lookup x s.entries ≡ none) same n
      | no other ↦ sym (lookup-append_ne key k e s.entries other) ∙ h
    ];
  }
    where
      absurd_lookup : {o : Option (Entry R)} {d : Entry R} → o ≡ none → o ≡ some d → ⊥
      absurd_lookup a b = ground (arith, a, b)

  write-Retains :
      (s : IdempotencyStore R) (key : Text) (e d : Entry R)
      → lookup key s.entries ≡ some e
      → e.completed ≡ none
      → Retains s (record s { entries = write key d s.entries })
  write-Retains s key e d l open_entry = record {
    same_bound = refl;
    within = λ h. let size = length-write key d s.entries in omega (arith, size, h);
    completed = λ k x r m c.
        let other : key ≢ k = λ same.
          let this : e ≡ x =
            some_inj (sym l ∙ subst (λ j. lookup j s.entries ≡ some x) (sym same) m) in
          pending_not_done (sym (ap (λ y. y.completed) this) ∙ open_entry) c in
        lookup-write_ne key k d s.entries other ∙ m;
    known = λ k h. write-absent key k d s.entries h;
  }
    where
      pending_not_done :
          {o : Option (ActionResult R)} {r : ActionResult R} → o ≡ none → o ≡ some r → ⊥
      pending_not_done a b = ground (arith, a, b)

module _ {A R : Type 0} where
  pub finish-Retains :
      (key : Text) (reply : Reply (ActionReply R)) (t : GuardedTool A R)
      → Retains t.store (finish key reply t).store
  finish-Retains key reply t = elim (finish_cases key reply t) [
    | inl e ↦ subst (λ x. Retains t.store x.store) (sym e) (Retains-refl t.store)
    | inr (f, u, r, a, c, e) ↦
        subst (λ x. Retains t.store x.store) (sym e)
          (elim c [
            | inl same ↦ subst (Retains t.store) (sym same) (Retains-refl t.store)
            | inr done ↦ elim (complete_cases t.store key f.fingerprint r) [
              | inl n ↦ absurd (contradicts n done)
              | inr (d, l, p, w) ↦ subst (Retains t.store) (some_inj (sym w ∙ done)) (
                  write-Retains t.store key d
                    (record { fingerprint = f.fingerprint; completed = some r }) l p)
            ]
          ])
  ]
    where
      contradicts :
          {o : Option (IdempotencyStore R)} {u : IdempotencyStore R} → o ≡ none → o ≡ some u → ⊥
      contradicts a b = ground (arith, a, b)
