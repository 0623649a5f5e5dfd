-- ===== src/Subsumption/Eligible.antt =====
-- Which receipts are eligible.
use premise_protocol.Base.{
  ℕ, ◌≤◌, ◌<◌, ◌≡◌, ◌↔◌, inl, inr, refl, sym, ◌∙◌, arith, true, ◌&&◌, Text, Option, none, some, All,
  Option-cases, Bool-cases,
}
use premise_protocol.Absence.{is_required}
use premise_protocol.Subsumption.{
  ReceiptScope, Candidate, Requirement, matches, Host, is_set, join, same_digest, valid_scope,
  sufficient, scope_reason, timestamp, assess_at, assess,
}
use premise_protocol.Subsumption.Sets.{In, covers-In, NoNul, join-injective, set-nonempty}

-- What the two scopes have to share.
pub record SameIdentity (c r : ReceiptScope) : Type 0 where
  pub tenant_id : c.tenant_id ≡ r.tenant_id
  pub resource_id : c.resource_id ≡ r.resource_id
  pub incarnation_id : c.incarnation_id ≡ r.incarnation_id
  pub version_scheme : c.version_scheme ≡ r.version_scheme
  pub version_token : c.version_token ≡ r.version_token
  pub validator_id : c.validator_id ≡ r.validator_id
  pub authorization : c.authorization_context_digest ≡ r.authorization_context_digest
  pub policy_digest : c.policy_digest ≡ r.policy_digest
  pub change_set_digest : c.change_set_digest ≡ r.change_set_digest
  pub query_family : c.query_family ≡ r.query_family

-- What the receipt covers.
pub record IsEnough (c r : ReceiptScope) (q : Requirement) : Type 0 where
  pub query_parts : All (λ v. In v c.query_parts) q.required_query_parts
  pub scopes : All (λ v. In v c.scopes) q.required_scopes
  pub frontier : join c.causal_frontier ≡ join r.causal_frontier
  pub required_frontier : All (λ v. In v r.causal_frontier) q.required_frontier

same_digest_lem : (a b : Option Text) → (same_digest a b ≡ true) ↔ (a ≡ b)
same_digest_lem none none = (λ h. refl, λ h. refl)
same_digest_lem none (some b) = (λ h. cc, λ h. cc)
same_digest_lem (some a) none = (λ h. cc, λ h. cc)
same_digest_lem (some a) (some b) = (λ h. ground arith, λ h. ground arith)

enough_lem : (c r : ReceiptScope) (q : Requirement) → (sufficient c r q ≡ matches) ↔ IsEnough c r q
unfolding sufficient
enough_lem c r q =
    let (p0, p1) = covers-In c.query_parts q.required_query_parts in
    let (s0, s1) = covers-In c.scopes q.required_scopes in
    let (f0, f1) = covers-In r.causal_frontier q.required_frontier in
    (
      (λ h. record {
        query_parts = p0 (ground (arith, h));
        scopes = s0 (ground (arith, h));
        frontier = ground (arith, h);
        required_frontier = f0 (ground (arith, h));
      }),
      λ e. ground (arith, p1 e.query_parts, s1 e.scopes, e.frontier, f1 e.required_frontier),
    )

scope_reason_lem :
    (c r : ReceiptScope) (q : Requirement)
    → (scope_reason c r q ≡ matches) ↔ (SameIdentity c r × IsEnough c r q)
unfolding scope_reason
scope_reason_lem c r q =
    let (to, from) = enough_lem c r q in
    let (d0, d1) = same_digest_lem c.change_set_digest r.change_set_digest in
    (
      (λ h. (
        record {
          tenant_id = ground (arith, h);
          resource_id = ground (arith, h);
          incarnation_id = ground (arith, h);
          version_scheme = ground (arith, h);
          version_token = ground (arith, h);
          validator_id = ground (arith, h);
          authorization = ground (arith, h);
          policy_digest = ground (arith, h);
          change_set_digest = d0 (ground (arith, h));
          query_family = ground (arith, h);
        },
        to (ground (arith, h)),
      )),
      λ (s, e). ground (
        arith,
        s.tenant_id,
        s.resource_id,
        s.incarnation_id,
        s.version_scheme,
        s.version_token,
        s.validator_id,
        s.authorization,
        s.policy_digest,
        d1 s.change_set_digest,
        s.query_family,
        from e,
      ),
    )

-- Within its time, which runs from its observation up to its expiry.
abbrev pub InTime : ℕ → ℕ → ℕ → Type 0
InTime now observed expires = (observed ≤ now) × (now < expires)

abbrev pub AreSets : Requirement → Type 0
AreSets q =
    (is_set q.required_query_parts ≡ true)
    × (is_set q.required_scopes ≡ true)
    × (is_set q.required_frontier ≡ true)

valid_scope-frontier : (s : ReceiptScope) → valid_scope s ≡ true → is_set s.causal_frontier ≡ true
unfolding valid_scope
valid_scope-frontier s h = ground (arith, h)

module _ (host : Host) {T : Type 0} where
  assess_at_lem :
      (c : Candidate T) (q : Requirement) (now observed expires : ℕ)
      → (assess_at host c q now observed expires ≡ matches) ↔ (
          InTime now observed expires
          × AreSets q
          × SameIdentity c.scope q.scope
          × IsEnough c.scope q.scope q)
  unfolding assess_at
  assess_at_lem c q now observed expires =
      let (to, from) = scope_reason_lem c.scope q.scope q in
      (
        (λ h.
            let (s, e) = to (ground (arith, h)) in
            (
              (ground (arith, h), ground (arith, h)),
              (ground (arith, h), ground (arith, h), ground (arith, h)),
              s,
              e,
            )),
        λ ((a, b), (x, y, z), s, e). ground (arith, a, b, x, y, z, from (s, e)),
      )

  -- The parts of a request that have to be well formed.
  abbrev pub WellFormed : Candidate T → Requirement → Type 0
  WellFormed c q =
      (is_required c.receipt_id ≡ true)
      × (valid_scope c.scope ≡ true)
      × (valid_scope q.scope ≡ true)

  -- A receipt that may stand for what is required.
  abbrev pub Eligible : Candidate T → Requirement → Type 0
  Eligible c q =
      WellFormed c q
      × ((now : ℕ) × (observed : ℕ) × (expires : ℕ) × (timestamp host q.now ≡ some now)
          × (timestamp host c.observed_at ≡ some observed)
          × (timestamp host c.expires_at ≡ some expires)
          × InTime now observed expires)
      × AreSets q
      × SameIdentity c.scope q.scope
      × IsEnough c.scope q.scope q

  -- A receipt is eligible exactly if it and the requirement are well formed, the time lies within that of
  -- the receipt, the two scopes share their identity, and the receipt covers the query parts and scopes
  -- that are required, with a frontier of the same joined text that has the required members.
  pub assess-Eligible :
      (c : Candidate T) (q : Requirement) → (assess host c q ≡ matches) ↔ Eligible c q
  unfolding assess
  assess-Eligible c q = (
    (λ h. to h),
    λ (w, (now, observed, expires, a, b, d, t), sets, s, e).
        rw (formed w, a, b, d, assess) ((assess_at_lem c q now observed expires).1 (t, sets, s, e)),
  )
    where
      formed :
          WellFormed c q
          → (is_required c.receipt_id && valid_scope c.scope && valid_scope q.scope) ≡ true
      formed (x, y, z) = ground (arith, x, y, z)

      well_formed :
          (is_required c.receipt_id && valid_scope c.scope && valid_scope q.scope) ≡ true
          → WellFormed c q
      well_formed h = (ground (arith, h), ground (arith, h), ground (arith, h))

      to : assess host c q ≡ matches → Eligible c q
      to h =
          elim (Bool-cases
            (is_required c.receipt_id && valid_scope c.scope && valid_scope q.scope)) [
              | inr bad ↦ ground (arith, h, bad)
              | inl good ↦ elim (Option-cases (timestamp host q.now)) [
                | inl n ↦ ground (arith, h, good, n)
                | inr (now, a) ↦ elim (Option-cases (timestamp host c.observed_at)) [
                  | inl n ↦ ground (arith, h, good, a, n)
                  | inr (observed, b) ↦ elim (Option-cases (timestamp host c.expires_at)) [
                    | inl n ↦ ground (arith, h, good, a, b, n)
                    | inr (expires, d) ↦
                        let this : assess host c q ≡ assess_at host c q now observed expires =
                          rw (good, a, b, d, assess) refl in
                        let (t, sets, s, e) =
                          (assess_at_lem c q now observed expires).0 (sym this ∙ h) in
                        (well_formed good, (now, observed, expires, a, b, d, t), sets, s, e)
                  ]
                ]
              ]
            ]

  -- If no member of the two causal frontiers contains U+0000, an eligible receipt has exactly the
  -- frontier that is required.
  pub assess-frontier :
      (c : Candidate T) (q : Requirement)
      → All NoNul c.scope.causal_frontier
      → All NoNul q.scope.causal_frontier
      → assess host c q ≡ matches
      → c.scope.causal_frontier ≡ q.scope.causal_frontier
  assess-frontier c q m n h =
      let (w, times, sets, s, e) = (assess-Eligible c q).0 h in
      join-injective c.scope.causal_frontier q.scope.causal_frontier m n
        (set-nonempty c.scope.causal_frontier (valid_scope-frontier c.scope w.1))
        (set-nonempty q.scope.causal_frontier (valid_scope-frontier q.scope w.2)) e.frontier
