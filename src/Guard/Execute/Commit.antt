-- ===== src/Guard/Execute/Commit.antt =====
-- When executePremiseGuard commits, with what, and that nothing else reaches the adapter.
use premise_protocol.Base.{
  ◌≡◌, ◌≢◌, sym, ap, ◌∙◌, ◌↔◌, ◌⊎◌, inl, inr, true, false, arith, Option, none, some, List,
  Option-cases,
}
use premise_protocol.Guard.{
  Receipt, Intent, CommitResult, GuardDecision, GuardReason, GuardResult, Host, refusal,
}
use premise_protocol.Guard.Execute.{stops, selects, select, precheck, answer, Adapter, execute}
use premise_protocol.Guard.Execute.Ready.{MayCommit, precheck-MayCommit, MayCommit-precheck}
use premise_protocol.Guard.Execute.Choose.{Chosen, select-Chosen, Chosen-select, Selection-cases}

-- The adapter's answer says that it committed, with the value that the kernel hands on.
abbrev pub Committed : {T : Type 0} → Host → Intent → List Receipt → Adapter T → Option T → Type 0
Committed {T} host i receipts adapter v =
    MayCommit i receipts adapter.capabilities
    × ((rs : List Receipt) × Chosen host i receipts i.critical_premises rs
        × ((c : CommitResult T) × (adapter.commit i rs ≡ some c)
            × (c.accepted ≡ true)
            × (c.result ≡ v)))

answer-accepted :
    {T : Type 0} (i : Intent) (rs : List Receipt) (c : CommitResult T)
    → (answer i rs c).accepted ≡ c.accepted
unfolding answer
answer-accepted i rs c = ground arith

answer-result :
    {T : Type 0} (i : Intent) (rs : List Receipt) (c : CommitResult T)
    → c.accepted ≡ true
    → (answer i rs c).result ≡ c.result
unfolding answer
answer-result i rs c h = ground (arith, h)

execute_cases :
    {T : Type 0} (host : Host) (i : Intent) (receipts : List Receipt) (adapter : Adapter T)
    → ((d : GuardDecision) × (e : GuardReason) × (execute host i receipts adapter
          ≡ some (refusal d e))
        × ((precheck i receipts adapter.capabilities ≢ none)
            ⊎ (select host i receipts i.critical_premises ≡ stops d e)))
      ⊎ ((rs : List Receipt) × (precheck i receipts adapter.capabilities ≡ none)
          × (select host i receipts i.critical_premises ≡ selects rs)
          × (((execute host i receipts adapter ≡ none) × (adapter.commit i rs ≡ none))
              ⊎ ((c : CommitResult T) × (adapter.commit i rs ≡ some c)
                  × (execute host i receipts adapter ≡ some (answer i rs c)))))
unfolding execute
execute_cases host i receipts adapter =
    elim (Option-cases (precheck i receipts adapter.capabilities)) [
      | inr ((d, e), p) ↦ inl (d, e, (ground (arith, p)), inl (λ q. cc))
      | inl p ↦ elim (Selection-cases (select host i receipts i.critical_premises)) [
        | inl (d, e, s) ↦ inl (d, e, (ground (arith, p, s)), inr s)
        | inr (rs, s) ↦ elim (Option-cases (adapter.commit i rs)) [
          | inl c ↦ inr (rs, p, s, inl (ground (arith, p, s, c), c))
          | inr (r, c) ↦ inr (rs, p, s, inr (r, c, ground (arith, p, s, c)))
        ]
      ]
    ]

execute-ready :
    {T : Type 0} (host : Host) (i : Intent) (receipts : List Receipt) (adapter : Adapter T)
    (rs : List Receipt)
    → MayCommit i receipts adapter.capabilities
    → Chosen host i receipts i.critical_premises rs
    → (c : CommitResult T) → adapter.commit i rs ≡ some c
    → execute host i receipts adapter ≡ some (answer i rs c)
unfolding execute
execute-ready host i receipts adapter rs may chosen c is =
    let p = MayCommit-precheck i receipts adapter.capabilities may in
    let s = Chosen-select host i receipts i.critical_premises rs chosen in ground (arith, p, s, is)

some_inj : {A : Type 0} {x y : A} → some x ≡ some y → x ≡ y
some_inj e = cc

false≢true : ¬ (false ≡ true)
false≢true e = cc

refused :
    {T : Type 0} {o : Option (GuardResult T)} {res : GuardResult T} {d : GuardDecision}
    {e : GuardReason}
    → o ≡ some res
    → o ≡ some (refusal d e)
    → res.accepted ≡ true
    → false ≡ true
refused ran no_commit said = sym (ap (λ r. r.accepted) (some_inj (sym ran ∙ no_commit))) ∙ said

-- The kernel answers that the action is accepted, with the value v, exactly if the intent and the
-- receipts are well formed for the adapter's capabilities, every critical premise has a receipt that
-- is valid, fresh and covered by the action's lease, and the adapter, given the action and just those
-- receipts in the order of the premises, answers that it committed, with the value v.
pub execute-Committed :
    {T : Type 0} (host : Host) (i : Intent) (receipts : List Receipt) (adapter : Adapter T)
    (v : Option T)
    → ((res : GuardResult T) × (execute host i receipts adapter ≡ some res)
        × (res.accepted ≡ true)
        × (res.result ≡ v))
      ↔ Committed host i receipts adapter v
execute-Committed host i receipts adapter v = (
  (λ (res, ran, said, value). elim (execute_cases host i receipts adapter) [
    | inl (d, e, no_commit, why) ↦ absurd (false≢true (refused ran no_commit said))
    | inr (rs, p, s, inl (throws, e)) ↦ cc
    | inr (rs, p, s, inr (c, is, k)) ↦
        let same : res ≡ answer i rs c = some_inj (sym ran ∙ k) in
        let accepted : c.accepted ≡ true =
          sym (answer-accepted i rs c) ∙ sym (ap (λ r. r.accepted) same) ∙ said in
        (
          precheck-MayCommit i receipts adapter.capabilities p,
          (
            rs,
            select-Chosen host i receipts i.critical_premises rs s,
            (
              c,
              is,
              accepted,
              sym (answer-result i rs c accepted) ∙ sym (ap (λ r. r.result) same) ∙ value,
            ),
          ),
        )
  ]),
  λ (may, (rs, chosen, (c, is, said, value))). (
    answer i rs c,
    execute-ready host i receipts adapter rs may chosen c is,
    answer-accepted i rs c ∙ said,
    answer-result i rs c said ∙ value,
  ),
)

-- Two adapters with the same capabilities that answer alike on the receipts that the kernel selects for
-- an action it may commit get the same result: no other call of `commit` is made, and none at all if the
-- intent, a receipt or a capability is refused.
pub execute-only-Chosen :
    {T : Type 0} (host : Host) (i : Intent) (receipts : List Receipt) (a b : Adapter T)
    → a.capabilities ≡ b.capabilities
    → ((rs : List Receipt)
        → MayCommit i receipts a.capabilities
        → Chosen host i receipts i.critical_premises rs
        → a.commit i rs ≡ b.commit i rs)
    → execute host i receipts a ≡ execute host i receipts b
unfolding execute
execute-only-Chosen host i receipts a b same alike =
    elim (Option-cases (precheck i receipts a.capabilities)) [
      | inr (x, p) ↦
          let q : precheck i receipts b.capabilities ≡ some x =
            ap (precheck i receipts) (sym same) ∙ p in
          ground (arith, p, q)
      | inl p ↦
          let q : precheck i receipts b.capabilities ≡ none =
            ap (precheck i receipts) (sym same) ∙ p in
          elim (Selection-cases (select host i receipts i.critical_premises)) [
            | inl (d, e, s) ↦ ground (arith, p, q, s)
            | inr (rs, s) ↦
                let eq =
                  alike rs (precheck-MayCommit i receipts a.capabilities p)
                    (select-Chosen host i receipts i.critical_premises rs s) in
                ground (arith, p, q, s, eq)
          ]
    ]
