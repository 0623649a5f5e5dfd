-- ===== src/Policy/Plan.antt =====
-- What the planner's decisions mean.
use premise_protocol.Base.{ℕ, ◌≤◌, ◌≡◌, ◌≢◌, refl, ◌↔◌, ◌⊎◌, true, false, some, arith}
use premise_protocol.Policy.{
  includes, cas, conditional_action, idempotency_key, causal_frontier, fenced_lease, subscriptions,
  ordered_events, Risk, low, medium, high, critical, is_high, fresh, invalid, reads, writes,
  immutable, event_driven, versioned, by_ttl, unknown_mode, current, revocation, incompatible_gate,
  Operation, PlanInput, plan_conflict, plan_versioned_read, plan_fresh, plan_state, uses, plan,
  plan_write, plan_read, plan_event_read, ordered_coverage,
}

-- What a write needs before it may go to the guarded commit.
pub record MayWrite (i : PlanInput) : Type 0 where
  pub versioned_source : (i.source_mode ≢ by_ttl) × (i.source_mode ≢ unknown_mode)
  pub version_token : i.has_version_token ≡ true
  pub conditional_commit :
      (includes i.capabilities cas ≡ true) ⊎ (includes i.capabilities conditional_action ≡ true)
  pub idempotent : includes i.capabilities idempotency_key ≡ true
  pub frontier :
      is_high i.risk ≡ true
      → (includes i.capabilities causal_frontier ≡ true) × (i.causal_frontier_complete ≡ true)
  pub fenced : i.lease_required ≡ true → includes i.capabilities fenced_lease ≡ true
  pub no_conflict : (i.cas_conflict ≢ some revocation) × (i.cas_conflict ≢ some incompatible_gate)
  pub observed : i.cas_observed_fresh_receipts ≡ true → includes i.capabilities cas ≡ true

write_to : (i : PlanInput) → (plan_write i).decision ≡ uses → MayWrite i
unfolding plan_write plan_conflict
write_to i h = ground arith

write_from : (i : PlanInput) → MayWrite i → (plan_write i).decision ≡ uses
unfolding plan_write plan_conflict
write_from i h = ground arith

-- A write is let through to the guard exactly if its evidence is fresh, or is invalid but was
-- replaced by the fresh receipts of a failed CAS, and the source and the adapter meet `MayWrite`.
pub plan-write_uses :
    (i : PlanInput)
    → i.operation ≡ writes
    → ((plan i).decision ≡ uses) ↔ (
        ((i.state ≡ fresh) ⊎ ((i.state ≡ invalid) × (i.cas_observed_fresh_receipts ≡ true)))
        × MayWrite i)
unfolding plan plan_state plan_fresh
plan-write_uses i w = (λ h. ground (arith, write_to i), λ h. ground (arith, write_from i))

-- What a read may rely on without validating anew.
abbrev pub MayRead : PlanInput → Type 0
MayRead i =
    (i.source_mode ≡ immutable)
    ⊎ ((i.source_mode ≡ event_driven)
        × (i.event_state ≡ some current)
        × (includes i.capabilities subscriptions ≡ true)
        × (includes i.capabilities ordered_events ≡ true)
        × (is_high i.risk ≡ true → i.causal_frontier_complete ≡ true))
    ⊎ ((i.source_mode ≡ by_ttl) × (is_high i.risk ≡ false) × (i.ttl_fresh ≡ true))
    ⊎ ((i.source_mode ≡ versioned) × (i.has_version_token ≡ true) × (i.risk ≡ low))

read_to : (i : PlanInput) → (plan_read i i.source_mode).decision ≡ uses → MayRead i
unfolding plan_read plan_versioned_read plan_event_read ordered_coverage
read_to i h = ground arith

read_from : (i : PlanInput) → MayRead i → (plan_read i i.source_mode).decision ≡ uses
unfolding plan_read plan_versioned_read plan_event_read ordered_coverage
read_from i h = ground arith

-- A read uses the evidence at hand exactly if it is fresh and its source needs no new validation: it
-- is immutable, or ordered events cover it (at high risk with a complete causal frontier), or its
-- time to live has not passed at low or medium risk, or it is versioned at low risk.
plan-read_uses :
    (i : PlanInput)
    → i.operation ≡ reads
    → ((plan i).decision ≡ uses) ↔ ((i.state ≡ fresh) × MayRead i)
unfolding plan plan_state plan_fresh
plan-read_uses i r = (λ h. ground (arith, read_to i), λ h. ground (arith, read_from i))

abbrev pub level : Risk → ℕ
level low = 0
level medium = 1
level high = 2
level critical = 3

MayWrite-mono :
    (i : PlanInput) (r : Risk)
    → level r ≤ level i.risk
    → MayWrite i
    → MayWrite (record i { risk = r })
MayWrite-mono i low h w = ground arith
MayWrite-mono i medium h w = ground arith
MayWrite-mono i high h w = ground arith
MayWrite-mono i critical h w = ground arith

MayRead-mono :
    (i : PlanInput) (r : Risk)
    → level r ≤ level i.risk
    → MayRead i
    → MayRead (record i { risk = r })
MayRead-mono i low h w = ground arith
MayRead-mono i medium h w = ground arith
MayRead-mono i high h w = ground arith
MayRead-mono i critical h w = ground arith

-- What may be used at some risk may be used at every smaller one.
pub plan-risk_mono :
    (i : PlanInput) (r : Risk)
    → level r ≤ level i.risk
    → (plan i).decision ≡ uses
    → (plan (record i { risk = r })).decision ≡ uses
plan-risk_mono i r h u = go i.operation refl
  where
    go : (o : Operation) → i.operation ≡ o → (plan (record i { risk = r })).decision ≡ uses
    go writes e =
        let (ok, may) = (plan-write_uses i e).0 u in
        (plan-write_uses (record i { risk = r }) e).1 (ok, MayWrite-mono i r h may)
    go reads e =
        let (ok, may) = (plan-read_uses i e).0 u in
        (plan-read_uses (record i { risk = r }) e).1 (ok, MayRead-mono i r h may)
