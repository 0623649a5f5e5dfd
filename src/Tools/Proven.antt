-- ===== src/Tools/Proven.antt =====
-- A side effect is called only with a version that a revalidation has just proven.
use premise_protocol.Base.{
  ℕ, ◌≡◌, ◌⊎◌, inl, inr, refl, sym, subst, ◌∙◌, arith, Text, Text-discrete, Option, some, List, [],
  ◌∷◌, All, ℕ_discrete,
}
use premise_protocol.Entries.{OrderedMap, lookup, remove, some_inj, lookup-remove}
use premise_protocol.Entries.Distinct.{lookup-remove_ne}
use premise_protocol.Tools.{
  Resource, VersionReference, Reply, replies, CheckReply, RevalidationReply, ActionReply, write,
}
use premise_protocol.Tools.Answers.{
  ProofResource, ActionRequest, calling, answered, InFlight, GuardedTool, Handle, Revalidation,
  proves, blocked, resource_of, revalidate_stored,
}
use premise_protocol.Tools.Guarded.{check, revalidate, act}
use premise_protocol.Tools.Run.{Event, Place, revalidates, rewrites, rewrite, start, finish, forget}
use premise_protocol.Tools.Cases.{lookup-write_ne, launched, act_cases}
use premise_protocol.Tools.Rewrites.{with_version, rewrite-Rewrites}
use premise_protocol.Tools.Stages.{start_cases, finish_cases, forget_cases}
use premise_protocol.Tools.Once.{clash, written, lookup-cons_ne, lookup-cons_self}
use premise_protocol.Tools.Proofs.{same_resource-eq, SaysFresh, proof_shown}

module _ {A R : Type 0} where
  abbrev pub Shows : Event A R → Resource → VersionReference → Type 0
  Shows (revalidates h (replies r)) resource v = SaysFresh r resource v
  Shows _ resource v = ⊥

  -- Among the events is a revalidation whose answer says so.
  abbrev pub Revalidated : List (Event A R) → Resource → VersionReference → Type 0
  Revalidated [] resource v = ⊥
  Revalidated (e ∷ es) resource v = Shows e resource v ⊎ Revalidated es resource v

  -- Among the events is a change of a version object to this version.
  abbrev pub Writes : Event A R → VersionReference → Type 0
  Writes (rewrites place u) v = u ≡ v
  Writes _ v = ⊥

  abbrev pub Rewritten : List (Event A R) → VersionReference → Type 0
  Rewritten [] v = ⊥
  Rewritten (e ∷ es) v = Writes e v ⊎ Rewritten es v

  -- The resource was revalidated, and the version is that of the revalidation or was written over it.
  abbrev pub Backed : List (Event A R) → Resource → VersionReference → Type 0
  Backed es resource v =
      (w : VersionReference) × Revalidated es resource w × ((v ≡ w) ⊎ Rewritten es v)

  abbrev pub AllCalls : (Resource → VersionReference → Type 0) → GuardedTool A R → Type 0
  AllCalls Q t = All (λ (k, q). Q q.resource q.expected_version) t.calls

  -- All proofs, actions in flight and calls are of resources and versions with a property.
  pub record Holds (Q : Resource → VersionReference → Type 0) (t : GuardedTool A R) : Type 0 where
    pub proofs : (i : ℕ) (p : ProofResource) → t.ready i ≡ some p → Q p.resource p.version
    pub actions :
        (k : Text) (f : InFlight A R)
        → lookup k t.in_flight ≡ some f
        → Q f.request.resource f.request.expected_version
    pub called : AllCalls Q t

  pub weaken :
      (P Q : Resource → VersionReference → Type 0) (t : GuardedTool A R)
      → ((r : Resource) (v : VersionReference) → P r v → Q r v)
      → Holds P t
      → Holds Q t
  weaken P Q t f i = record {
    proofs = λ j p e. f p.resource p.version (i.proofs j p e);
    actions = λ k g l. f g.request.resource g.request.expected_version (i.actions k g l);
    called = all_calls t.calls i.called;
  }
    where
      all_calls :
          (qs : OrderedMap (ActionRequest A))
          → All (λ (k, q). P q.resource q.expected_version) qs
          → All (λ (k, q). Q q.resource q.expected_version) qs
      all_calls [] a = tt
      all_calls ((k, q) ∷ qs) a = (f q.resource q.expected_version a.0, all_calls qs a.1)

  module _ (Q : Resource → VersionReference → Type 0) where
    launched-Holds :
        (key fingerprint : Text) (q : ActionRequest A) (t : GuardedTool A R)
        → Q q.resource q.expected_version
        → Holds Q t
        → Holds Q (launched key fingerprint q t)
    launched-Holds key fingerprint q t proven i = record {
      proofs = i.proofs;
      actions = λ k f l. elim (Text-discrete key k) [
        | yes same ↦
            let this = some_inj (
              sym (lookup-cons_self key _ t.in_flight)
              ∙ subst (λ x. lookup x (launched key fingerprint q t).in_flight ≡ some f) (sym same)
                  l) in
            subst (λ g. Q g.request.resource g.request.expected_version) this proven
        | no other ↦ i.actions k f (sym (lookup-cons_ne key k _ t.in_flight other) ∙ l)
      ];
      called = i.called;
    }

    -- A new phase of an action in flight.
    moved :
        (key : Text) (f g : InFlight A R) (t : GuardedTool A R)
        → lookup key t.in_flight ≡ some f
        → g.request ≡ f.request
        → Holds Q t
        → (k : Text) (h : InFlight A R) → lookup k (write key g t.in_flight) ≡ some h
        → Q h.request.resource h.request.expected_version
    moved key f g t l same_request i k h m = elim (Text-discrete key k) [
      | yes same ↦
          let this = written key k g f h t.in_flight l same m in
          subst (λ x. Q x.request.resource x.request.expected_version) this
            (subst (λ q. Q q.resource q.expected_version) (sym same_request) (i.actions key f l))
      | no other ↦ i.actions k h (sym (lookup-write_ne key k g t.in_flight other) ∙ m)
    ]

    pub start-Holds : (key : Text) (t : GuardedTool A R) → Holds Q t → Holds Q (start key t)
    start-Holds key t i = elim (start_cases key t) [
      | inl e ↦ subst (Holds Q) (sym e) i
      | inr (f, (l, p), e) ↦ subst (Holds Q) (sym e) (record {
        proofs = i.proofs;
        actions = moved key f (record f { phase = calling }) t l refl i;
        called = (i.actions key f l, i.called);
      })
    ]

    pub finish-Holds :
        (key : Text) (reply : Reply (ActionReply R)) (t : GuardedTool A R)
        → Holds Q t
        → Holds Q (finish key reply t)
    finish-Holds key reply t i = elim (finish_cases key reply t) [
      | inl e ↦ subst (Holds Q) (sym e) i
      | inr (f, u, r, (l, p), c, e) ↦ subst (Holds Q) (sym e) (record {
        proofs = i.proofs;
        actions = moved key f (record f { phase = answered r }) t l refl i;
        called = i.called;
      })
    ]

    pub forget-Holds : (key : Text) (t : GuardedTool A R) → Holds Q t → Holds Q (forget key t)
    forget-Holds key t i = elim (forget_cases key t) [
      | inl e ↦ subst (Holds Q) (sym e) i
      | inr e ↦ subst (Holds Q) (sym e) (record {
        proofs = i.proofs;
        actions = λ k f l. elim (Text-discrete key k) [
          | yes same ↦ absurd (
              clash (lookup-remove key t.in_flight)
                (subst (λ x. lookup x (remove key t.in_flight) ≡ some f) (sym same) l))
          | no other ↦ i.actions k f (sym (lookup-remove_ne key k t.in_flight other) ∙ l)
        ];
        called = i.called;
      })
    ]

    pub act-Holds :
        (canonical : A → Option Text) (h : Handle) (a : A) (key : Text) (t : GuardedTool A R)
        → Holds Q t
        → Holds Q (act canonical h a key t).0
    act-Holds canonical h a key t i = elim (act_cases canonical h a key t) [
      | inl e ↦ subst (Holds Q) (sym e) i
      | inr (p, digest, ready, same, (_, _, _, e)) ↦
          let here = same_resource-eq p.resource (resource_of h) same in
          subst (Holds Q) (sym e) (
            launched-Holds _ _ _ t (subst (λ r. Q r p.version) here (i.proofs h.identity p ready))
              i)
    ]

    pub check-Holds :
        (input : Resource) (reply : Reply CheckReply) (t : GuardedTool A R)
        → Holds Q t
        → Holds Q (check input reply t)
    unfolding check
    check-Holds input reply t i = record {
      proofs = λ j p e. i.proofs j p (ground (arith, e));
      actions = λ k f l. i.actions k f (ground (arith, l));
      called =
          subst (λ (c : OrderedMap (ActionRequest A)). AllCalls Q (record t { calls = c }))
            (ground arith) i.called;
    }

    pub revalidate-Holds :
        (h : Handle) (reply : Reply RevalidationReply) (t : GuardedTool A R)
        → ((r : RevalidationReply) (p : ProofResource)
            → reply ≡ replies r
            → SaysFresh r p.resource p.version
            → Q p.resource p.version)
        → Holds Q t
        → Holds Q (revalidate h reply t)
    unfolding revalidate
    revalidate-Holds h reply t shows i =
        of_outcome (revalidate_stored (t.checks h.identity) (resource_of h) reply) refl
      where
        of_outcome :
            (o : Revalidation)
            → revalidate_stored (t.checks h.identity) (resource_of h) reply ≡ o
            → Holds Q (revalidate h reply t)
        of_outcome (blocked b) e = rw (e, revalidate) i
        of_outcome (proves p) e =
            let (r, is_reply, says) = proof_shown (t.checks h.identity) (resource_of h) reply p e in
            rw (e, revalidate)
              (record {
                proofs = λ j q m. elim (ℕ_discrete t.next_identity j) [
                  | yes same ↦
                      subst (λ (x : ProofResource). Q x.resource x.version)
                        (some_inj (ground (arith, m, same))) (shows r p is_reply says)
                  | no other ↦ i.proofs j q (ground (arith, m, other))
                ];
                actions = i.actions;
                called = i.called;
              })

    pub rewrite-Holds :
        (place : Place) (v : VersionReference) (t : GuardedTool A R)
        → ((r : Resource) (w : VersionReference) → Q r w → Q r v)
        → Holds Q t
        → Holds Q (rewrite place v t)
    rewrite-Holds place v t allows i =
        let (store, calls, proofs, flights) = rewrite-Rewrites place v t in
        record {
          proofs = λ j p e.
              let (q, old, same, versions) = proofs j p e in
              let holds = i.proofs j q old in
              subst (λ (r : Resource). Q r p.version) (sym same)
                (elim versions [
                  | inl kept ↦ subst (Q q.resource) (sym kept) holds
                  | inr new ↦ subst (Q q.resource) (sym new) (allows q.resource q.version holds)
                ]);
          actions = λ k g l. elim flights [
            | inl flight ↦ i.actions k g (subst (λ x. lookup k x ≡ some g) flight l)
            | inr (key, f, here, flight) ↦
                let there = subst (λ x. lookup k x ≡ some g) flight l in
                elim (Text-discrete key k) [
                  | yes same ↦
                      let this = written key k (with_version f v) f g t.in_flight here same there in
                      subst (λ x. Q x.request.resource x.request.expected_version) this
                        (allows f.request.resource f.request.expected_version
                          (i.actions key f here))
                  | no other ↦
                      i.actions k g (sym (lookup-write_ne key k _ t.in_flight other) ∙ there)
                ]
          ];
          called =
              subst (λ (c : OrderedMap (ActionRequest A)). AllCalls Q (record t { calls = c }))
                (sym calls) i.called;
        }
