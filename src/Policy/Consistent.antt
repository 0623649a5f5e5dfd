-- ===== src/Policy/Consistent.antt =====
-- The parts of a plan fit together.
use premise_protocol.Base.{
  ◌≡◌, ◌≢◌, refl, none, Option, if◌then◌else◌, ◌&&◌, ◌||◌, not, Bool, true, false, some, arith,
}
use premise_protocol.Policy.{
  includes, cas, conditional_action, idempotency_key, causal_frontier, fenced_lease,
  conditional_read, Risk, low, medium, high, critical, is_high, fresh, stale, unknown, invalid,
  immutable, event_driven, versioned, by_ttl, unknown_mode, revocation, incompatible_gate,
  SourceMode, CasConflict, PolicyState, invalid_evidence, unknown_critical_evidence,
  unknown_evidence, ttl_not_allowed_for_risk, ttl_fresh_informational_read, ttl_expired,
  version_token_required, plan_versioned_read, plan_fresh, plan_state, conditional, authoritative,
  no_validation, source_validation, is_write, plan_read, plan_event_read, PlanInput, ValidationPlan,
  PlanDecision, PlanReason, plan_of, plan_conflict, rejects, unsupported,
  conditional_commit_required, causal_frontier_required, fenced_lease_required,
  versioned_write_required, cas_required_for_observed_receipts, cas_observed_fresh_receipts,
  atomic_guard_required, repairable, uses, revalidates, plan, plan_write,
}

source_validation_lem :
    (i : PlanInput)
    → (source_validation i ≢ no_validation)
      × (source_validation i ≡ conditional
          → (i.source_mode ≡ versioned)
            × (i.has_version_token ≡ true)
            × (includes i.capabilities conditional_read ≡ true))
unfolding source_validation
source_validation_lem i = (λ h. ground arith, λ h. ground arith)

-- The guard is required exactly for a write; evidence that is used is not validated, evidence to be
-- validated anew gets a method, and a conditional read is planned only where it can be made.
pub record IsConsistent (i : PlanInput) (p : ValidationPlan) : Type 0 where
  pub guard : p.guard_required ≡ is_write i.operation
  pub used : p.decision ≡ uses → p.validation ≡ no_validation
  pub validated : p.decision ≡ revalidates → p.validation ≢ no_validation
  pub conditional_read_possible :
      p.validation ≡ conditional
      → (i.source_mode ≡ versioned)
        × (i.has_version_token ≡ true)
        × (includes i.capabilities conditional_read ≡ true)

choice :
    (i : PlanInput) (b : Bool) {p q : ValidationPlan}
    → IsConsistent i p
    → IsConsistent i q
    → IsConsistent i (if b then p else q)
choice i true x y = x
choice i false x y = y

settled :
    (i : PlanInput) (d : PlanDecision) (g : Bool) (r : PlanReason)
    → g ≡ is_write i.operation
    → d ≢ revalidates
    → IsConsistent i (plan_of d no_validation g r)
settled i d g r e ne = record {
  guard = e;
  used = λ h. refl;
  validated = λ h. absurd (ne h);
  conditional_read_possible = λ h. cc;
}

authority :
    (i : PlanInput) (d : PlanDecision) (g : Bool) (r : PlanReason)
    → g ≡ is_write i.operation
    → d ≢ uses
    → IsConsistent i (plan_of d authoritative g r)
authority i d g r e ne = record {
  guard = e;
  used = λ h. absurd (ne h);
  validated = λ h k. cc;
  conditional_read_possible = λ h. cc;
}

source :
    (i : PlanInput) (g : Bool) (r : PlanReason)
    → g ≡ is_write i.operation
    → IsConsistent i (plan_of revalidates (source_validation i) g r)
source i g r e = record {
  guard = e;
  used = λ h. cc;
  validated = λ h. (source_validation_lem i).0;
  conditional_read_possible = (source_validation_lem i).1;
}

conflict-IsConsistent :
    (i : PlanInput) (c : Option CasConflict)
    → true ≡ is_write i.operation
    → IsConsistent i (plan_conflict i c)
unfolding plan_conflict
conflict-IsConsistent i (some revocation) e = settled i rejects true _ e (λ k. cc)
conflict-IsConsistent i (some incompatible_gate) e = settled i unsupported true _ e (λ k. cc)
conflict-IsConsistent i none e =
    choice i _ (settled i unsupported true cas_required_for_observed_receipts e (λ k. cc)) (
      choice i i.cas_observed_fresh_receipts
        (settled i uses true cas_observed_fresh_receipts e (λ k. cc))
        (settled i uses true atomic_guard_required e (λ k. cc)))
conflict-IsConsistent i (some repairable) e =
    choice i _ (settled i unsupported true cas_required_for_observed_receipts e (λ k. cc)) (
      choice i i.cas_observed_fresh_receipts
        (settled i uses true cas_observed_fresh_receipts e (λ k. cc))
        (settled i uses true atomic_guard_required e (λ k. cc)))

write-IsConsistent : (i : PlanInput) → true ≡ is_write i.operation → IsConsistent i (plan_write i)
unfolding plan_write
write-IsConsistent i e =
    let caps = i.capabilities in
    let stop : (r : PlanReason) → IsConsistent i (plan_of unsupported no_validation true r) =
      λ r. settled i unsupported true r e (λ k. cc) in
    choice i _ (authority i unsupported true versioned_write_required e (λ k. cc)) (
      choice i
        (not (includes caps cas || includes caps conditional_action)
          || not (includes caps idempotency_key))
        (stop conditional_commit_required)
        (choice i
          (is_high i.risk
            && (not (includes caps causal_frontier) || not i.causal_frontier_complete))
          (stop causal_frontier_required)
          (choice i (i.lease_required && not (includes caps fenced_lease))
            (stop fenced_lease_required) (conflict-IsConsistent i i.cas_conflict e))))

event_read-IsConsistent :
    (i : PlanInput) → false ≡ is_write i.operation → IsConsistent i (plan_event_read i)
unfolding plan_event_read
event_read-IsConsistent i e = choice i _ (source i false _ e) (
    choice i _ (settled i uses false _ e (λ k. cc))
      (choice i _ (settled i rejects false _ e (λ k. cc)) (source i false _ e)))

versioned_read-IsConsistent :
    (i : PlanInput) (r : Risk)
    → false ≡ is_write i.operation
    → IsConsistent i (plan_versioned_read i r)
unfolding plan_versioned_read
versioned_read-IsConsistent i low e = settled i uses false _ e (λ k. cc)
versioned_read-IsConsistent i medium e = source i false _ e
versioned_read-IsConsistent i high e = source i false _ e
versioned_read-IsConsistent i critical e = source i false _ e

read-IsConsistent :
    (i : PlanInput) (m : SourceMode) → false ≡ is_write i.operation → IsConsistent i (plan_read i m)
unfolding plan_read
read-IsConsistent i immutable e = settled i uses false _ e (λ k. cc)
read-IsConsistent i event_driven e = event_read-IsConsistent i e
read-IsConsistent i by_ttl e =
    choice i _ (authority i unsupported false ttl_not_allowed_for_risk e (λ k. cc)) (
      choice i i.ttl_fresh (settled i uses false ttl_fresh_informational_read e (λ k. cc))
        (authority i revalidates false ttl_expired e (λ k. cc)))
read-IsConsistent i versioned e =
    choice i _ (authority i unsupported false version_token_required e (λ k. cc))
      (versioned_read-IsConsistent i i.risk e)
read-IsConsistent i unknown_mode e = authority i unsupported false _ e (λ k. cc)

fresh-IsConsistent : (i : PlanInput) → IsConsistent i (plan_fresh i)
unfolding plan_fresh
fresh-IsConsistent i = at (is_write i.operation) refl
  where
    at :
        (b : Bool)
        → b ≡ is_write i.operation
        → IsConsistent i (if b then plan_write i else plan_read i i.source_mode)
    at true e = write-IsConsistent i e
    at false e = read-IsConsistent i i.source_mode e

state-IsConsistent : (i : PlanInput) (s : PolicyState) → IsConsistent i (plan_state i s)
unfolding plan_state
state-IsConsistent i fresh = fresh-IsConsistent i
state-IsConsistent i stale = source i (is_write i.operation) _ refl
state-IsConsistent i invalid =
    choice i _ (settled i rejects (is_write i.operation) invalid_evidence refl (λ k. cc))
      (fresh-IsConsistent i)
state-IsConsistent i unknown =
    choice i _ (settled i rejects (is_write i.operation) unknown_critical_evidence refl (λ k. cc))
      (source i (is_write i.operation) unknown_evidence refl)

-- On every branch of the planner, the guard is required exactly for a write; evidence that is used is
-- not validated, evidence to be validated anew gets a method, and a conditional read is only planned
-- for a versioned source with a version token whose adapter offers it.
pub plan-IsConsistent : (i : PlanInput) → IsConsistent i (plan i)
unfolding plan
plan-IsConsistent i = state-IsConsistent i i.state
