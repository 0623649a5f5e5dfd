-- ===== src/Streams/Coalesced.antt =====
-- A coalesced burst repairs its stream.
use premise_protocol.Base.{
  ℕ, suc, ◌≡◌, refl, sym, ap, subst, ◌∙◌, arith, true, Text, some, List, [], ◌∷◌, all, All,
}
use premise_protocol.Bursts.{StreamEvent, StreamCapability, coalesced, plan_stream_burst}
use premise_protocol.Bursts.Planned.{plan-Drops}
use premise_protocol.Streams.{Host, Runtime, RepairResult, burst_repaired, valid_event}
use premise_protocol.Streams.Pages.{last_of, page_of, repair_stream, follow_plan, apply_burst}
use premise_protocol.Streams.Accepted.{Takes, Fresh}
use premise_protocol.Streams.Numbered.{numbered_end, All-end, all-All, Starts, Numbered}
use premise_protocol.Streams.Repaired.{Spans, Fits}
use premise_protocol.Streams.Paged.{result_of, repair_stream-Repaired}

module _ {T S C F J : Type 0} (host : Host T S C F J) where
  All-Fits :
      (t k : Text) (first : StreamEvent T) (es : List (StreamEvent T))
      → k ≡ first.stream_id
      → t ≡ first.tenant_id
      → All (λ e. valid_event host e ≡ true) es
      → All (λ e. (e.stream_id ≡ first.stream_id) × (e.tenant_id ≡ first.tenant_id)) es
      → All (Fits host t k) es
  All-Fits t k first [] a b valid same = tt
  All-Fits t k first (e ∷ es) a b (v, valid) ((on, of), same) =
      ((v, on ∙ sym a, ground (arith, of, b)), All-Fits t k first es a b valid same)

  -- What a plan that drops events keeps: a numbered part of the stream from a snapshot on.
  abbrev Keeps : Text → Text → List (StreamEvent T) → Type 0
  Keeps t k es = All (Fits host t k) es × Numbered es × Starts es

  plan-Keeps :
      (capabilities : List StreamCapability) (events : List (StreamEvent T)) (k t : Text)
      (kept : List (StreamEvent T)) (skipped : List ℕ)
      → all (valid_event host) events ≡ true
      → plan_stream_burst capabilities events ≡ coalesced k t kept skipped
      → Keeps t k kept
  plan-Keeps capabilities events k t kept skipped valid plan =
      let (first, p, x, d, whole, is_kept, is_skipped, on, of, may) =
        ((plan-Drops capabilities events).0 k t kept skipped).0 plan in
      let all_valid =
        subst (λ (es : List (StreamEvent T)). All (λ e. valid_event host e ≡ true) es) whole
          (all-All (valid_event host) events valid) in
      subst (Keeps t k) (sym is_kept) (
        All-Fits t k first (x ∷ d) on of
            (All-end (λ e. valid_event host e ≡ true) (first ∷ p) (x ∷ d) all_valid)
            (All-end (λ e. (e.stream_id ≡ first.stream_id) × (e.tenant_id ≡ first.tenant_id))
              (first ∷ p) (x ∷ d) may.one_stream),
        numbered_end first.sequence (first ∷ p) x d may.numbered,
        may.is_last,
      )

  follow_plan-coalesced :
      (r q : Runtime S C F J) (k t : Text) (x : StreamEvent T) (d : List (StreamEvent T))
      (skipped : List ℕ) (result : RepairResult)
      → repair_stream host r (page_of k t x d) ≡ (q, some result)
      → follow_plan host r (coalesced k t (x ∷ d) skipped)
        ≡ (q, some (burst_repaired result.applied result.duplicates skipped))
  unfolding follow_plan
  follow_plan-coalesced r q k t x d skipped result h =
      rw (follow_plan, ap (λ o. o.1) h)
        (ap
          (λ (y : Runtime S C F J).
            (y, some (burst_repaired result.applied result.duplicates skipped)))
          (ap (λ o. o.0) h))

  apply_burst-valid :
      (r : Runtime S C F J) (capabilities : List StreamCapability) (events : List (StreamEvent T))
      → all (valid_event host) events ≡ true
      → apply_burst host r capabilities events
        ≡ follow_plan host r (plan_stream_burst capabilities events)
  unfolding apply_burst
  apply_burst-valid r capabilities events valid = rw (apply_burst, valid) refl

-- Over a store that takes every valid event under a new key and then holds under other keys what it
-- held: if all events of a burst are valid and of the runtime's tenant, the plan for it drops events,
-- and the events that it keeps have different keys, which the store does not know or holds with the
-- digest of the very event, then the burst is answered as repaired, with the numbers that the plan
-- dropped as skipped, and its stream has then seen just the numbers of the events that were kept.
pub apply_burst-Spans :
    {T S C F J : Type 0} (host : Host T S C F J) (takes : Takes host) (r : Runtime S C F J)
    (capabilities : List StreamCapability) (events : List (StreamEvent T)) (k t : Text)
    (x : StreamEvent T) (d : List (StreamEvent T)) (skipped : List ℕ)
    → all (valid_event host) events ≡ true
    → t ≡ r.tenant_id
    → plan_stream_burst capabilities events ≡ coalesced k t (x ∷ d) skipped
    → Fresh host takes r.store (x ∷ d)
    → (q : Runtime S C F J) × (b : List ℕ) × (c : List ℕ) × (apply_burst host r capabilities events
        ≡ (q, some (burst_repaired b c skipped)))
      × Spans q k x.sequence (suc (last_of x d).sequence)
apply_burst-Spans host takes r capabilities events k t x d skipped valid tenant plan fresh =
    let (fits, numbered, starts) =
      plan-Keeps host capabilities events k t (x ∷ d) skipped valid plan in
    let fits_r = subst (λ (u : Text). All (Fits host u k) (x ∷ d)) tenant fits in
    let (q, b, c, repairs, spans) =
      repair_stream-Repaired host takes r k x d fits_r fresh numbered starts in
    let page =
      subst (λ (u : Text). repair_stream host r (page_of k u x d) ≡ (q, some (result_of k x d b c)))
        (sym tenant) repairs in
    (
      q,
      b,
      c,
      apply_burst-valid host r capabilities events valid
          ∙ (ap (follow_plan host r) plan
              ∙ follow_plan-coalesced host r q k t x d skipped (result_of k x d b c) page),
      spans,
    )
