-- ===== src/Streams/Pages.antt =====
-- Pages and bursts of a stream: repairStreamFromSnapshot and applyStreamBurst of
-- packages/runtime-core/src/index.ts, and the deliveries of a runtime's life.
use premise_protocol.Base.{
  ℕ, not, ◌==◌, Text, text_eq, Option, none, some, List, [], ◌∷◌, ◌++◌, all, if◌then◌else◌,
}
use premise_protocol.Events.{is_snapshot}
use premise_protocol.Bursts.{
  StreamEvent, StreamCapability, BurstPlan, coalesced, preserved, contiguous, plan_stream_burst,
}
use premise_protocol.Streams.{
  Host, Runtime, is_applied, is_duplicate, repair_required, StreamPage, RepairResult, BurstResult,
  burst_repaired, burst_applied, burst_needs_repair, waiting_at, valid_event, valid_page,
  is_terminal, set_stream, forget_receipts, count_repair, apply_stream_event,
}

-- The deliveries of a runtime's life; one that throws leaves the runtime as it then is.
pub data Delivery (T : Type 0) : Type 0 where
  delivers : StreamEvent T → Delivery T
  repairs_by : StreamPage T → Delivery T
  bursts : List StreamCapability → List (StreamEvent T) → Delivery T

unfoldable pub last_of : {T : Type 0} → StreamEvent T → List (StreamEvent T) → StreamEvent T
last_of e [] = e
last_of e (f ∷ es) = last_of f es

-- The page that a burst is repaired with.
abbrev pub page_of :
    {T : Type 0} → Text → Text → StreamEvent T → List (StreamEvent T) → StreamPage T
page_of k t first rest = record {
  tenant_id = t;
  stream_id = k;
  events = first ∷ rest;
  head_sequence = (last_of first rest).sequence;
  next_cursor = none;
}

module _ {T S C F J : Type 0} (host : Host T S C F J) where
  -- The loop of a repair: `none` where an event throws or needs a repair itself.
  unfoldable pub repair_each :
      Runtime S C F J
      → List ℕ
      → List ℕ
      → List (StreamEvent T)
      → Runtime S C F J × Option (List ℕ × List ℕ)
  repair_each r applied duplicates [] = (r, some (applied, duplicates))
  repair_each r applied duplicates (e ∷ es) =
      let (q, o) = apply_stream_event host r e in
      elim o [
        | none ↦ (q, none)
        | some (repair_required k n why) ↦ (q, none)
        | some (is_applied k n) ↦ repair_each q (applied ++ n ∷ []) duplicates es
        | some (is_duplicate k n) ↦ repair_each q applied (duplicates ++ n ∷ []) es
      ]

  -- The repair of a page that has passed the tests: its loop, and what it catches.
  unfoldable pub run_repair :
      Runtime S C F J
      → Text
      → StreamEvent T
      → List (StreamEvent T)
      → Runtime S C F J × Option RepairResult
  run_repair r k first rest =
      let (q, o) =
        repair_each
          (count_repair host
            (forget_receipts host (set_stream host r k (waiting_at first.sequence))))
          [] [] (first ∷ rest) in
      elim o [
        | none ↦ (forget_receipts host (set_stream host q k (waiting_at first.sequence)), none)
        | some (applied, duplicates) ↦ (
          q,
          some (record {
            stream_id = k;
            from_sequence = first.sequence;
            to_sequence = (last_of first rest).sequence;
            applied = applied;
            duplicates = duplicates;
          }),
        )
      ]

  -- repairStreamFromSnapshot: `none` where it throws. The tests all throw with nothing changed.
  unfoldable pub repair_events :
      Runtime S C F J → StreamPage T → List (StreamEvent T) → Runtime S C F J × Option RepairResult
  repair_events r p [] = (r, none)
  repair_events r p (first ∷ rest) =
      if not (valid_page host p)
      then (r, none)
      else if not (text_eq p.tenant_id r.tenant_id)
      then (r, none)
      else if not (is_terminal p.next_cursor)
      then (r, none)
      else if not (is_snapshot first.kind)
      then (r, none)
      else if not ((last_of first rest).sequence == p.head_sequence)
      then (r, none)
      else if not (contiguous (first ∷ rest))
      then (r, none)
      else run_repair r p.stream_id first rest

  unfoldable pub repair_stream :
      Runtime S C F J → StreamPage T → Runtime S C F J × Option RepairResult
  repair_stream r p = repair_events r p p.events

  -- The loop over a burst that is not coalesced.
  unfoldable pub apply_each :
      Runtime S C F J
      → List ℕ
      → List ℕ
      → List (StreamEvent T)
      → Runtime S C F J × Option BurstResult
  apply_each r applied duplicates [] = (r, some (burst_applied applied duplicates))
  apply_each r applied duplicates (e ∷ es) =
      let (q, o) = apply_stream_event host r e in
      elim o [
        | none ↦ (q, none)
        | some (repair_required k n why) ↦ (q, some (burst_needs_repair why applied duplicates))
        | some (is_applied k n) ↦ apply_each q (applied ++ n ∷ []) duplicates es
        | some (is_duplicate k n) ↦ apply_each q applied (duplicates ++ n ∷ []) es
      ]

  -- applyStreamBurst after the plan. A plan that drops events keeps one at least (Bursts/Planned), so
  -- the first case, where the source reads an element that is not there, does not arise.
  unfoldable pub follow_plan : Runtime S C F J → BurstPlan T → Runtime S C F J × Option BurstResult
  follow_plan r (coalesced k t [] skipped) = (r, none)
  follow_plan r (coalesced k t (first ∷ rest) skipped) =
      let (q, o) = repair_stream r (page_of k t first rest) in
      elim o [
        | none ↦ (q, none)
        | some result ↦ (q, some (burst_repaired result.applied result.duplicates skipped))
      ]
  follow_plan r (preserved why kept) = apply_each r [] [] kept

  -- applyStreamBurst: planRuntimeStreamBurst throws if an event is not valid.
  unfoldable pub apply_burst :
      Runtime S C F J
      → List StreamCapability
      → List (StreamEvent T)
      → Runtime S C F J × Option BurstResult
  apply_burst r capabilities events =
      if not (all (valid_event host) events)
      then (r, none)
      else follow_plan r (plan_stream_burst capabilities events)

  unfoldable pub deliver : Runtime S C F J → Delivery T → Runtime S C F J
  deliver r (delivers e) = (apply_stream_event host r e).0
  deliver r (repairs_by p) = (repair_stream r p).0
  deliver r (bursts capabilities es) = (apply_burst r capabilities es).0

  unfoldable pub run_deliveries : Runtime S C F J → List (Delivery T) → Runtime S C F J
  run_deliveries r [] = r
  run_deliveries r (d ∷ ds) = run_deliveries (deliver r d) ds
