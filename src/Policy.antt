-- ===== src/Policy.antt =====
-- packages/runtime-core/src/premise-policy.ts: the capabilities of an adapter, the risk-aware planner
-- of validation work, and the negotiation of capabilities.
pub mod Plan
pub mod Consistent
pub mod Negotiate
mod Tests
use premise_protocol.Base.{
  Bool, true, false, not, ◌&&◌, ◌||◌, Option, none, some, List, [], ◌∷◌, if◌then◌else◌,
}

pub data Capability : Type 0 where
  resource_identity incarnation_id version_token evidence_properties scoped_read : Capability
  conditional_read change_set batch_read subscriptions ordered_events : Capability
  transaction_snapshot causal_frontier cas conditional_action atomic_batch : Capability
  idempotency_key single_flight scoped_sharing fenced_lease ttl_only unversioned : Capability
  full_resource_only : Capability

unfoldable pub Capability-discrete : Discrete Capability
Capability-discrete = hlevel

-- Array.prototype.includes
unfoldable pub includes : List Capability → Capability → Bool
unfolding Capability-discrete
includes [] c = false
includes (x ∷ xs) c =
    let rest = includes xs c in elim (Capability-discrete x c) [ yes _ ↦ true | no _ ↦ rest ]

pub data Risk : Type 0 where
  low medium high critical : Risk

pub data PolicyState : Type 0 where
  fresh stale invalid unknown : PolicyState

pub data Operation : Type 0 where
  reads writes : Operation

pub data SourceMode : Type 0 where
  immutable event_driven versioned by_ttl unknown_mode : SourceMode

pub data EventState : Type 0 where
  current invalidated unknown_event no_event : EventState

pub data CasConflict : Type 0 where
  repairable revocation incompatible_gate : CasConflict

pub data ValidationMethod : Type 0 where
  no_validation conditional authoritative : ValidationMethod

pub data PlanDecision : Type 0 where
  uses revalidates rejects unsupported : PlanDecision

pub data PlanReason : Type 0 where
  invalid_evidence unknown_critical_evidence unknown_evidence stale_evidence : PlanReason
  versioned_write_required conditional_commit_required causal_frontier_required : PlanReason
  fenced_lease_required revocation_conflict incompatible_gate_conflict : PlanReason
  cas_required_for_observed_receipts cas_observed_fresh_receipts atomic_guard_required : PlanReason
  immutable_source event_invalidated ordered_event_coverage unknown_event_coverage : PlanReason
  event_coverage_incomplete ttl_not_allowed_for_risk ttl_fresh_informational_read : PlanReason
  ttl_expired version_token_required low_risk_fresh_receipt risk_recheck_required : PlanReason
  source_mode_unknown : PlanReason

-- An optional flag that the planner compares with `true` is false where it is absent.
pub record PlanInput : Type 0 where
  pub operation : Operation
  pub risk : Risk
  pub state : PolicyState
  pub source_mode : SourceMode
  pub capabilities : List Capability
  pub has_version_token : Bool
  pub ttl_fresh : Bool
  pub event_state : Option EventState
  pub causal_frontier_complete : Bool
  pub cas_observed_fresh_receipts : Bool
  pub cas_conflict : Option CasConflict
  pub lease_required : Bool

pub record ValidationPlan : Type 0 where
  pub decision : PlanDecision
  pub validation : ValidationMethod
  pub guard_required : Bool
  pub reason : PlanReason

abbrev pub is_write : Operation → Bool
is_write reads = false
is_write writes = true

abbrev pub is_high : Risk → Bool
is_high low = false
is_high medium = false
is_high high = true
is_high critical = true

abbrev pub is_critical : Risk → Bool
is_critical critical = true
is_critical r = false

abbrev is_versioned : SourceMode → Bool
is_versioned versioned = true
is_versioned m = false

abbrev pub plan_of : PlanDecision → ValidationMethod → Bool → PlanReason → ValidationPlan
plan_of d v g r = record { decision = d; validation = v; guard_required = g; reason = r }

source_validation : PlanInput → ValidationMethod
source_validation i =
    if is_versioned i.source_mode && i.has_version_token && includes i.capabilities conditional_read
    then conditional
    else authoritative

-- The end of a write: what a failed CAS has shown.
plan_conflict : PlanInput → Option CasConflict → ValidationPlan
plan_conflict i (some revocation) = plan_of rejects no_validation true revocation_conflict
plan_conflict i (some incompatible_gate) =
    plan_of unsupported no_validation true incompatible_gate_conflict
plan_conflict i c =
    if i.cas_observed_fresh_receipts && not (includes i.capabilities cas)
    then plan_of unsupported no_validation true cas_required_for_observed_receipts
    else if i.cas_observed_fresh_receipts
    then plan_of uses no_validation true cas_observed_fresh_receipts
    else plan_of uses no_validation true atomic_guard_required

-- The branches of a write on evidence that may be used.
plan_write : PlanInput → ValidationPlan
plan_write i =
    if elim i.source_mode [ by_ttl ↦ true | unknown_mode ↦ true | _ ↦ false ]
      || not i.has_version_token
    then plan_of unsupported authoritative true versioned_write_required
    else if not (includes i.capabilities cas || includes i.capabilities conditional_action)
        || not (includes i.capabilities idempotency_key)
    then plan_of unsupported no_validation true conditional_commit_required
    else if is_high i.risk
        && (not (includes i.capabilities causal_frontier) || not i.causal_frontier_complete)
    then plan_of unsupported no_validation true causal_frontier_required
    else if i.lease_required && not (includes i.capabilities fenced_lease)
    then plan_of unsupported no_validation true fenced_lease_required
    else plan_conflict i i.cas_conflict

ordered_coverage : PlanInput → Bool
ordered_coverage i =
    elim i.event_state [ some current ↦ true | _ ↦ false ]
    && includes i.capabilities subscriptions
    && includes i.capabilities ordered_events
    && (not (is_high i.risk) || i.causal_frontier_complete)

plan_event_read : PlanInput → ValidationPlan
plan_event_read i =
    if elim i.event_state [ some invalidated ↦ true | _ ↦ false ]
    then plan_of revalidates (source_validation i) false event_invalidated
    else if ordered_coverage i
    then plan_of uses no_validation false ordered_event_coverage
    else if is_critical i.risk && elim i.event_state [ some unknown_event ↦ true | _ ↦ false ]
    then plan_of rejects no_validation false unknown_event_coverage
    else plan_of revalidates (source_validation i) false event_coverage_incomplete

plan_versioned_read : PlanInput → Risk → ValidationPlan
plan_versioned_read i low = plan_of uses no_validation false low_risk_fresh_receipt
plan_versioned_read i r = plan_of revalidates (source_validation i) false risk_recheck_required

-- The branches of a read on evidence that may be used.
plan_read : PlanInput → SourceMode → ValidationPlan
plan_read i immutable = plan_of uses no_validation false immutable_source
plan_read i event_driven = plan_event_read i
plan_read i by_ttl =
    if is_high i.risk
    then plan_of unsupported authoritative false ttl_not_allowed_for_risk
    else if i.ttl_fresh
    then plan_of uses no_validation false ttl_fresh_informational_read
    else plan_of revalidates authoritative false ttl_expired
plan_read i versioned =
    if not i.has_version_token
    then plan_of unsupported authoritative false version_token_required
    else plan_versioned_read i i.risk
plan_read i unknown_mode = plan_of unsupported authoritative false source_mode_unknown

plan_fresh : PlanInput → ValidationPlan
plan_fresh i = if is_write i.operation then plan_write i else plan_read i i.source_mode

-- The tests of the state of the evidence come first.
plan_state : PlanInput → PolicyState → ValidationPlan
plan_state i invalid =
    if not (is_write i.operation && i.cas_observed_fresh_receipts)
    then plan_of rejects no_validation (is_write i.operation) invalid_evidence
    else plan_fresh i
plan_state i unknown =
    if is_critical i.risk
    then plan_of rejects no_validation (is_write i.operation) unknown_critical_evidence
    else plan_of revalidates (source_validation i) (is_write i.operation) unknown_evidence
plan_state i stale = plan_of revalidates (source_validation i) (is_write i.operation) stale_evidence
plan_state i fresh = plan_fresh i

-- planPremiseValidation
pub plan : PlanInput → ValidationPlan
plan i = plan_state i i.state

-- negotiatePremisePolicyCapabilities
pub record Negotiation : Type 0 where
  pub supported : List Capability
  pub unsupported : List Capability
  pub all_supported : Bool

pub keep : (Capability → Bool) → List Capability → List Capability
keep p [] = []
keep p (x ∷ xs) = let rest = keep p xs in if p x then x ∷ rest else rest

abbrev pub is_nil : List Capability → Bool
is_nil [] = true
is_nil (x ∷ xs) = false

pub negotiate : List Capability → List Capability → Negotiation
unfolding keep
negotiate requested available =
    let missing = keep (λ c. not (includes available c)) requested in
    record {
      supported = keep (includes available) requested;
      unsupported = missing;
      all_supported = is_nil missing;
    }
