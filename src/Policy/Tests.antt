-- ===== src/Policy/Tests.antt =====
-- The theorems about the planner at concrete inputs.
use premise_protocol.Base.{◌≡◌, refl, inl, true, false, none, [], ◌∷◌, arith}
use premise_protocol.Policy.{
  includes, cas, idempotency_key, low, medium, writes, fresh, versioned, uses, PlanInput, plan,
}
use premise_protocol.Policy.Plan.{plan-write_uses, plan-risk_mono}
use premise_protocol.Policy.Consistent.{IsConsistent, plan-IsConsistent}

abbrev write_input : PlanInput
write_input = record {
  operation = writes;
  risk = medium;
  state = fresh;
  source_mode = versioned;
  capabilities = (cas ∷ idempotency_key ∷ []);
  has_version_token = true;
  ttl_fresh = false;
  event_state = none;
  causal_frontier_complete = false;
  cas_observed_fresh_receipts = false;
  cas_conflict = none;
  lease_required = false;
}

plan-write_uses_example : (plan write_input).decision ≡ uses
unfolding includes
plan-write_uses_example = (plan-write_uses write_input refl).1 (
  inl refl,
  record {
    versioned_source = ((λ e. cc), λ e. cc);
    version_token = refl;
    conditional_commit = inl refl;
    idempotent = refl;
    frontier = λ e. cc;
    fenced = λ e. cc;
    no_conflict = ((λ e. cc), λ e. cc);
    observed = λ e. cc;
  },
)

plan-IsConsistent_example : IsConsistent write_input (plan write_input)
plan-IsConsistent_example = plan-IsConsistent write_input

plan-risk_mono_example : (plan (record write_input { risk = low })).decision ≡ uses
plan-risk_mono_example = plan-risk_mono write_input low (omega arith) plan-write_uses_example
