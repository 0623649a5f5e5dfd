-- ===== src/Tools/Guarded.antt =====
-- The class GuardedTool: check, revalidate, act, and what performAction makes of an answer.
use premise_protocol.Base.{
  ℕ, suc, true, false, not, ◌&&◌, ◌||◌, Text, codes, Option, none, some, [], ◌∷◌, ◌++◌,
  if◌then◌else◌, text_eq,
}
use premise_protocol.Absence.{is_required}
use premise_protocol.Entries.{lookup}
use premise_protocol.Tools.{
  Resource, VersionReference, ActionOutcome, applied, rejected, unknown_outcome, Reply, replies,
  no_object, fails, times_out, CheckReply, RevalidationReply, ActionReply, ActionResult,
  valid_version, is_left_out, is_given, same_resource, is_resource, claim_new, claim_pending,
  claim_conflict, claim_full, claim_throws, claim_completed, claim,
}
use premise_protocol.Tools.Answers.{
  ActionRequest, GuardedTool, Handle, InFlight, accept_check, blocked, proves, queued, resource_of,
  revalidate_stored, set_at,
}

-- What act gives back at once: a result, the promise of the action in flight under a key, or an error.
pub data ActAnswer (R : Type 0) : Type 0 where
  answers : ActionResult R → ActAnswer R
  joins : Text → ActAnswer R
  throws : ActAnswer R

abbrev pub refuses :
    {R : Type 0} → ActionOutcome → Resource → Option VersionReference → Text → ActionResult R
refuses outcome resource expected reason = record {
  accepted = false;
  outcome = outcome;
  resource = resource;
  expected_version = expected;
  observed_version = none;
  result = none;
  reason = some reason;
}

abbrev pub key_of : Resource → Text → Text
key_of resource key = resource.tenant_id ++ 0 ∷ key

abbrev pub fingerprint_of : Resource → VersionReference → Text → Text
fingerprint_of resource v digest =
    resource.resource ++ 0 ∷ (v.scheme ++ 0 ∷ (v.token ++ 0 ∷ digest))

module _ {A R : Type 0} where
  abbrev pub guarded_tool : ℕ → GuardedTool A R
  guarded_tool max = record {
    checks = λ i. none;
    ready = λ i. none;
    next_identity = 0;
    store = record { entries = []; max_entries = max };
    in_flight = [];
    calls = [];
  }

  -- check: the result is a new object. An input that is no resource throws before anything is done.
  unfoldable pub check : Resource → Reply CheckReply → GuardedTool A R → GuardedTool A R
  check input reply t = if not (is_resource input) then t else elim (accept_check input reply) [
    | none ↦ record t { next_identity = suc t.next_identity }
    | some c ↦ record t {
      next_identity = suc t.next_identity;
      checks = set_at t.next_identity c t.checks;
    }
  ]

  unfoldable pub revalidate : Handle → Reply RevalidationReply → GuardedTool A R → GuardedTool A R
  revalidate h reply t = elim (revalidate_stored (t.checks h.identity) (resource_of h) reply) [
    | blocked o ↦ t
    | proves p ↦ record t {
      next_identity = suc t.next_identity;
      ready = set_at t.next_identity p t.ready;
    }
  ]

  -- act from the claim on: only a claim that is new launches the action.
  unfoldable pub launch :
      Text → Text → ActionRequest A → GuardedTool A R → GuardedTool A R × ActAnswer R
  launch key fingerprint request t =
      let (store, claimed) = claim t.store key fingerprint in
      let flight : InFlight A R = record {
        fingerprint = fingerprint;
        request = request;
        phase = queued;
      } in
      let refusal : ActionOutcome → Text → ActAnswer R =
        λ o reason. answers (refuses o request.resource (some request.expected_version) reason) in
      elim claimed [
        | claim_completed r ↦ (t, answers r)
        | claim_conflict ↦ (t, refusal rejected (codes "IDEMPOTENCY_CONFLICT"))
        | claim_pending ↦ (t, refusal unknown_outcome (codes "IDEMPOTENCY_IN_PROGRESS"))
        | claim_full ↦ (t, refusal rejected (codes "IDEMPOTENCY_RETENTION_FULL"))
        | claim_throws ↦ (t, throws)
        | claim_new ↦
            (record t { store = store; in_flight = (key, flight) ∷ t.in_flight }, joins key)
      ]

  unfoldable pub join_or_launch :
      Text → Text → ActionRequest A → GuardedTool A R → GuardedTool A R × ActAnswer R
  join_or_launch key fingerprint request t =
      let new = launch key fingerprint request t in
      elim (lookup key t.in_flight) [
        | none ↦ new
        | some f ↦ if text_eq f.fingerprint fingerprint then (t, joins key) else (
          t,
          answers (
              refuses rejected request.resource (some request.expected_version)
                (codes "IDEMPOTENCY_CONFLICT")),
        )
      ]

  -- act. canonicalJson of the action is an argument, `none` where it throws.
  unfoldable pub act :
      (A → Option Text) → Handle → A → Text → GuardedTool A R → GuardedTool A R × ActAnswer R
  act canonical h action idempotency_key t =
      let resource = resource_of h in
      let unproven : GuardedTool A R × ActAnswer R =
        (t, answers (refuses rejected resource none (codes "INVALID_REVALIDATION"))) in
      elim (t.ready h.identity) [
        | none ↦ unproven
        | some p ↦
            if not (same_resource p.resource resource) || not (is_given (valid_version h.version))
            then unproven
            else if not (is_required idempotency_key)
            then (
              t,
              answers
                  (refuses rejected resource (some p.version) (codes "IDEMPOTENCY_KEY_REQUIRED")),
            )
            else elim (canonical action) [
              | none ↦
                  (t, answers (refuses rejected resource (some p.version) (codes "INVALID_ACTION")))
              | some digest ↦
                  join_or_launch (key_of resource idempotency_key)
                    (fingerprint_of resource p.version digest)
                    (record {
                      resource = resource;
                      expected_version = p.version;
                      idempotency_key = idempotency_key;
                      action = action;
                    })
                    t
            ]
      ]

  -- performAction, from the answer of the side effect on.
  unfoldable pub perform : ActionRequest A → Reply (ActionReply R) → ActionResult R
  perform q (replies r) =
      let fault : Text → ActionResult R =
        λ reason. refuses unknown_outcome q.resource (some q.expected_version) reason in
      if not (same_resource r.resource q.resource)
      then fault (codes "ACT_RESOURCE_MISMATCH")
      else elim r.outcome [
        | none ↦ fault (codes "ACT_OUTCOME_INVALID")
        | some outcome ↦
            if not (is_left_out r.observed_version)
              && not (is_given (valid_version r.observed_version))
            then fault (codes "ACT_VERSION_INVALID")
            else record {
              accepted = elim outcome [ applied ↦ true | _ ↦ false ];
              outcome = outcome;
              resource = q.resource;
              expected_version = some q.expected_version;
              observed_version = valid_version r.observed_version;
              result = r.result;
              reason = r.reason;
            }
      ]
  perform q no_object =
      refuses unknown_outcome q.resource (some q.expected_version) (codes "ACT_RESOURCE_MISMATCH")
  perform q times_out =
      refuses unknown_outcome q.resource (some q.expected_version) (codes "SIDE_EFFECT_TIMEOUT")
  perform q fails =
      refuses unknown_outcome q.resource (some q.expected_version) (codes "SIDE_EFFECT_UNKNOWN")
