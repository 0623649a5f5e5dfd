-- ===== src/Tools/Once.antt =====
-- The side effect is called at most once for each key.
use premise_protocol.Base.{
  ℕ, ◌≡◌, ◌≢◌, inl, inr, refl, sym, ap, subst, ◌∙◌, arith, Text, Text-discrete, Option, none, some,
  List, [], ◌∷◌,
}
use premise_protocol.Entries.{OrderedMap, lookup, remove, some_inj, lookup-remove, lookup-last}
use premise_protocol.Entries.Distinct.{Distinct, lookup-remove_ne, absent-remove}
use premise_protocol.Tools.{
  Resource, VersionReference, CheckReply, RevalidationReply, ActionResult, Reply, IdempotencyStore,
  write,
}
use premise_protocol.Tools.Answers.{
  ActionRequest, Phase, queued, calling, answered, InFlight, GuardedTool, Handle,
}
use premise_protocol.Tools.Guarded.{check, revalidate, guarded_tool}
use premise_protocol.Tools.Run.{
  Event, checks, revalidates, acts, starts, finishes, forgets, rewrites, rewrite, step, run,
}
use premise_protocol.Tools.Cases.{lookup-write_self, lookup-write_ne, launched, act_cases}
use premise_protocol.Tools.Stages.{At, start_cases, finish_cases, forget_cases}
use premise_protocol.Tools.Rewrites.{with_version, rewrite-Rewrites}
use premise_protocol.Tools.Retained.{Retains, enter-Retains, finish-Retains}

pub clash : {V : Type 0} {o : Option V} {v : V} → o ≡ none → o ≡ some v → ⊥
clash a b = ground (arith, a, b)

module _ {V : Type 0} where
  pub lookup-cons_ne :
      (k j : Text) (v : V) (es : OrderedMap V) → k ≢ j → lookup j ((k, v) ∷ es) ≡ lookup j es
  unfolding lookup
  lookup-cons_ne k j v es n = ground (arith, n)

  pub lookup-cons_self : (k : Text) (v : V) (es : OrderedMap V) → lookup k ((k, v) ∷ es) ≡ some v
  unfolding lookup
  lookup-cons_self k v es = ground arith

  pub written :
      (k j : Text) (v w u : V) (es : OrderedMap V)
      → lookup k es ≡ some w
      → k ≡ j
      → lookup j (write k v es) ≡ some u
      → v ≡ u
  written k j v w u es l same m = some_inj (
      sym (lookup-write_self k v w es l)
      ∙ subst (λ x. lookup x (write k v es) ≡ some u) (sym same) m)

module _ {A R : Type 0} where
  -- No key is called twice; what is queued was not called; and what is in flight or was called is in
  -- the store.
  pub record IsOnce (t : GuardedTool A R) : Type 0 where
    pub distinct : Distinct t.calls
    pub uncalled :
        (k : Text) (f : InFlight A R)
        → lookup k t.in_flight ≡ some f
        → f.phase ≡ queued
        → lookup k t.calls ≡ none
    pub claimed : (k : Text) → lookup k t.store.entries ≡ none → lookup k t.in_flight ≡ none
    pub known : (k : Text) → lookup k t.store.entries ≡ none → lookup k t.calls ≡ none

  launched-IsOnce :
      (key fingerprint : Text) (q : ActionRequest A) (t : GuardedTool A R)
      → lookup key t.store.entries ≡ none
      → Retains t.store (launched key fingerprint q t).store
      → IsOnce t
      → IsOnce (launched key fingerprint q t)
  launched-IsOnce key fingerprint q t n kept i = record {
    distinct = i.distinct;
    uncalled = λ k f l p. elim (Text-discrete key k) [
      | yes same ↦ subst (λ x. lookup x t.calls ≡ none) same (i.known key n)
      | no other ↦ i.uncalled k f (sym (lookup-cons_ne key k _ t.in_flight other) ∙ l) p
    ];
    claimed = λ k h.
        let other : key ≢ k = λ same.
          clash
            (subst (λ x. lookup x (launched key fingerprint q t).store.entries ≡ none) (sym same) h)
            (lookup-last key (record { fingerprint = fingerprint; completed = none })
              t.store.entries n) in
        lookup-cons_ne key k _ t.in_flight other ∙ i.claimed k (kept.known k h);
    known = λ k h. i.known k (kept.known k h);
  }

  called-IsOnce :
      (key : Text) (f : InFlight A R) (t : GuardedTool A R)
      → At key t f queued
      → IsOnce t
      → IsOnce (record t {
        in_flight = write key (record f { phase = calling }) t.in_flight;
        calls = (key, f.request) ∷ t.calls;
      })
  called-IsOnce key f t (l, p) i = record {
    distinct = (i.uncalled key f l p, i.distinct);
    uncalled = λ k g m r. elim (Text-discrete key k) [
      | yes same ↦
          let g_is = written key k (record f { phase = calling }) f g t.in_flight l same m in
          absurd (not_queued (ap (λ x. x.phase) g_is) r)
      | no other ↦
          lookup-cons_ne key k f.request t.calls other
          ∙ i.uncalled k g (sym (lookup-write_ne key k _ t.in_flight other) ∙ m) r
    ];
    claimed = λ k h.
        let other : key ≢ k =
          λ same. clash (i.claimed k h) (subst (λ x. lookup x t.in_flight ≡ some f) same l) in
        lookup-write_ne key k _ t.in_flight other ∙ i.claimed k h;
    known = λ k h.
        let other : key ≢ k =
          λ same. clash (i.claimed k h) (subst (λ x. lookup x t.in_flight ≡ some f) same l) in
        lookup-cons_ne key k f.request t.calls other ∙ i.known k h;
  }
    where
      not_queued : {p : Phase R} → calling ≡ p → p ≡ queued → ⊥
      not_queued a b = ground (arith, a, b)

  answered-IsOnce :
      (key : Text) (f : InFlight A R) (u : IdempotencyStore R) (r : ActionResult R)
      (t : GuardedTool A R)
      → At key t f calling
      → Retains t.store u
      → IsOnce t
      → IsOnce (record t {
        store = u;
        in_flight = write key (record f { phase = answered r }) t.in_flight;
      })
  answered-IsOnce key f u r t (l, p) kept i = record {
    distinct = i.distinct;
    uncalled = λ k g m q. elim (Text-discrete key k) [
      | yes same ↦
          let g_is = written key k (record f { phase = answered r }) f g t.in_flight l same m in
          absurd (not_queued (ap (λ x. x.phase) g_is) q)
      | no other ↦ i.uncalled k g (sym (lookup-write_ne key k _ t.in_flight other) ∙ m) q
    ];
    claimed = λ k h.
        let old = i.claimed k (kept.known k h) in
        let other : key ≢ k =
          λ same. clash old (subst (λ x. lookup x t.in_flight ≡ some f) same l) in
        lookup-write_ne key k _ t.in_flight other ∙ old;
    known = λ k h. i.known k (kept.known k h);
  }
    where
      not_queued : {p : Phase R} → answered r ≡ p → p ≡ queued → ⊥
      not_queued a b = ground (arith, a, b)

  forgotten-IsOnce :
      (key : Text) (t : GuardedTool A R)
      → IsOnce t
      → IsOnce (record t { in_flight = remove key t.in_flight })
  forgotten-IsOnce key t i = record {
    distinct = i.distinct;
    uncalled = λ k f l p. elim (Text-discrete key k) [
      | yes same ↦ absurd (
          clash (lookup-remove key t.in_flight)
            (subst (λ x. lookup x (remove key t.in_flight) ≡ some f) (sym same) l))
      | no other ↦ i.uncalled k f (sym (lookup-remove_ne key k t.in_flight other) ∙ l) p
    ];
    claimed = λ k h. absent-remove key k t.in_flight (i.claimed k h);
    known = i.known;
  }

  -- An action in flight whose version was changed.
  reversioned-IsOnce :
      (key : Text) (f : InFlight A R) (v : VersionReference) (t : GuardedTool A R)
      → lookup key t.in_flight ≡ some f
      → IsOnce t
      → IsOnce (record t { in_flight = write key (with_version f v) t.in_flight })
  reversioned-IsOnce key f v t l i = record {
    distinct = i.distinct;
    uncalled = λ k g m q. elim (Text-discrete key k) [
      | yes same ↦
          let g_is = written key k (with_version f v) f g t.in_flight l same m in
          subst (λ x. lookup x t.calls ≡ none) same
            (i.uncalled key f l (ap (λ x. x.phase) g_is ∙ q))
      | no other ↦ i.uncalled k g (sym (lookup-write_ne key k _ t.in_flight other) ∙ m) q
    ];
    claimed = λ k h.
        let other : key ≢ k =
          λ same. clash (i.claimed k h) (subst (λ x. lookup x t.in_flight ≡ some f) same l) in
        lookup-write_ne key k _ t.in_flight other ∙ i.claimed k h;
    known = i.known;
  }

  -- What IsOnce speaks of stays under a check and a revalidation.
  abbrev SameActions : GuardedTool A R → GuardedTool A R → Type 0
  SameActions t u = (t.store ≡ u.store) × (t.in_flight ≡ u.in_flight) × (t.calls ≡ u.calls)

  check-SameActions :
      (input : Resource) (reply : Reply CheckReply) (t : GuardedTool A R)
      → SameActions t (check input reply t)
  unfolding check
  check-SameActions input reply t = (ground arith, ground arith, ground arith)

  revalidate-SameActions :
      (h : Handle) (reply : Reply RevalidationReply) (t : GuardedTool A R)
      → SameActions t (revalidate h reply t)
  unfolding revalidate
  revalidate-SameActions h reply t = (ground arith, ground arith, ground arith)

  same-IsOnce : (t u : GuardedTool A R) → SameActions t u → IsOnce t → IsOnce u
  same-IsOnce t u (a, b, c) i = record {
    distinct = subst Distinct c i.distinct;
    uncalled = λ k f l p.
        subst (λ x. lookup k x ≡ none) c
          (i.uncalled k f (subst (λ x. lookup k x ≡ some f) (sym b) l) p);
    claimed = λ k h.
        subst (λ x. lookup k x ≡ none) b
          (i.claimed k (subst (λ x. lookup k x.entries ≡ none) (sym a) h));
    known = λ k h.
        subst (λ x. lookup k x ≡ none) c
          (i.known k (subst (λ x. lookup k x.entries ≡ none) (sym a) h));
  }

  step-IsOnce :
      (canonical : A → Option Text) (e : Event A R) (t : GuardedTool A R)
      → IsOnce t
      → IsOnce (step canonical e t)
  unfolding step
  step-IsOnce canonical (checks input reply) t i =
      same-IsOnce t (check input reply t) (check-SameActions input reply t) i
  step-IsOnce canonical (revalidates h reply) t i =
      same-IsOnce t (revalidate h reply t) (revalidate-SameActions h reply t) i
  step-IsOnce canonical (acts h a key) t i = elim (act_cases canonical h a key t) [
    | inl e ↦ subst IsOnce (sym e) i
    | inr (p, digest, _, _, (_, n, room, e)) ↦
        subst IsOnce (sym e) (launched-IsOnce _ _ _ t n (enter-Retains t.store _ _ n room) i)
  ]
  step-IsOnce canonical (starts key) t i = elim (start_cases key t) [
    | inl e ↦ subst IsOnce (sym e) i
    | inr (f, a, e) ↦ subst IsOnce (sym e) (called-IsOnce key f t a i)
  ]
  step-IsOnce canonical (finishes key reply) t i = elim (finish_cases key reply t) [
    | inl e ↦ subst IsOnce (sym e) i
    | inr (f, u, r, a, c, e) ↦
        let kept = subst (λ x. Retains t.store x.store) e (finish-Retains key reply t) in
        subst IsOnce (sym e) (answered-IsOnce key f u r t a kept i)
  ]
  step-IsOnce canonical (forgets key) t i = elim (forget_cases key t) [
    | inl e ↦ subst IsOnce (sym e) i
    | inr e ↦ subst IsOnce (sym e) (forgotten-IsOnce key t i)
  ]
  step-IsOnce canonical (rewrites place v) t i =
      let (store, calls, proofs, flights) = rewrite-Rewrites place v t in
      elim flights [
        | inl flight ↦ same-IsOnce t (rewrite place v t) (sym store, sym flight, sym calls) i
        | inr (key, f, l, flight) ↦
            same-IsOnce (record t { in_flight = write key (with_version f v) t.in_flight })
              (rewrite place v t) (sym store, sym flight, sym calls)
              (reversioned-IsOnce key f v t l i)
      ]

  run-IsOnce :
      (canonical : A → Option Text) (es : List (Event A R)) (t : GuardedTool A R)
      → IsOnce t
      → IsOnce (run canonical es t)
  unfolding run
  run-IsOnce canonical [] t i = i
  run-IsOnce canonical (e ∷ es) t i =
      run-IsOnce canonical es (step canonical e t) (step-IsOnce canonical e t i)

  -- After any events of a new tool no two calls of the side effect were made under one key.
  pub calls-Distinct :
      (canonical : A → Option Text) (es : List (Event A R)) (max : ℕ)
      → Distinct (run canonical es (guarded_tool max)).calls
  unfolding lookup
  calls-Distinct canonical es max =
      (run-IsOnce canonical es (guarded_tool max) (record {
        distinct = tt;
        uncalled = λ k f l p. cc;
        claimed = λ k h. refl;
        known = λ k h. refl;
      })).distinct
