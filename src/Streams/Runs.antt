-- ===== src/Streams/Runs.antt =====
-- Every delivery keeps what the streams have seen in order.
use premise_protocol.Base.{
  ℕ, if◌then◌else◌, inl, inr, sym, subst, Bool, true, false, not, Text, text_eq, Option, none, List,
  [], ◌∷◌, ◌++◌, all, Option-cases, ◌==◌, put,
}
use premise_protocol.Events.{is_snapshot}
use premise_protocol.Bursts.{
  StreamEvent, StreamCapability, BurstPlan, coalesced, preserved, contiguous, plan_stream_burst,
}
use premise_protocol.Streams.{
  Host, Runtime, ApplyResult, is_applied, is_duplicate, repair_required, StreamPage, waiting_at,
  state_of, see, stream_repair_required, set_stream, forget_receipts, count_repair, valid_event,
  valid_page, is_terminal, apply_stream_event,
}
use premise_protocol.Streams.Pages.{
  Delivery, delivers, repairs_by, bursts, last_of, page_of, repair_each, run_repair, repair_events,
  repair_stream, follow_plan, apply_each, apply_burst, deliver, run_deliveries,
}
use premise_protocol.Streams.Window.{AllWindowed, AllWindowed-put, waiting-Window, see-Window}
use premise_protocol.Streams.Cases.{apply_event-streams, apply_stream_event_cases}

module _ {T S C F J : Type 0} (host : Host T S C F J) where
  abbrev pub RuntimeWindowed : Runtime S C F J → Type 0
  RuntimeWindowed r = AllWindowed r.stream_states

  abbrev KeepsWindows : {O : Type 0} → Runtime S C F J × Option O → Type 0
  KeepsWindows o = RuntimeWindowed o.0

  waits :
      (r : Runtime S C F J) (k : Text) (n : ℕ)
      → RuntimeWindowed r
      → AllWindowed (put r.stream_states k (waiting_at n))
  waits r k n w = AllWindowed-put r.stream_states k (waiting_at n) (n, waiting-Window n) w

  pub apply_stream_event-Windowed :
      (r : Runtime S C F J) (e : StreamEvent T)
      → RuntimeWindowed r
      → RuntimeWindowed (apply_stream_event host r e).0
  unfolding stream_repair_required
  apply_stream_event-Windowed r e w = elim (apply_stream_event_cases host r e) [
    | inl (inl q) ↦
        subst (λ (o : Runtime S C F J × Option ApplyResult). RuntimeWindowed o.0) (sym q) w
    | inl (inr (seen, q)) ↦
        subst (λ (o : Runtime S C F J × Option ApplyResult). RuntimeWindowed o.0) (sym q) w
    | inr (inl (why, q)) ↦
        subst (λ (o : Runtime S C F J × Option ApplyResult). RuntimeWindowed o.0) (sym q)
          (waits r e.stream_id e.sequence w)
    | inr (inr s) ↦
        let streams = (apply_event-streams host r _ s.entered s.is_new s.enters).0 in
        let (start, window) = w e.stream_id in
        subst (λ (o : Runtime S C F J × Option ApplyResult). RuntimeWindowed o.0) (sym s.outcome)
          (AllWindowed-put s.entered.stream_states e.stream_id
            (see (state_of r.stream_states e.stream_id) e.sequence (host.fingerprint e)
              (is_snapshot e.kind))
            (
              start,
              see-Window start e.sequence (state_of r.stream_states e.stream_id)
                  (host.fingerprint e) (is_snapshot e.kind) window s.is_next s.begins,
            )
            (subst AllWindowed (sym streams) w))
  ]

  repair_each-Windowed :
      (r : Runtime S C F J) (a d : List ℕ) (es : List (StreamEvent T))
      → RuntimeWindowed r
      → RuntimeWindowed (repair_each host r a d es).0
  unfolding repair_each
  repair_each-Windowed r a d [] w = w
  repair_each-Windowed r a d (e ∷ es) w =
      let (q, o) = apply_stream_event host r e in
      let next = apply_stream_event-Windowed r e w in
      elim (Option-cases (apply_stream_event host r e).1) [
        | inl eq ↦ rw (repair_each, eq) next
        | inr (repair_required k n why, eq) ↦ rw (repair_each, eq) next
        | inr (is_applied k n, eq) ↦
            rw (repair_each, eq) (repair_each-Windowed q (a ++ n ∷ []) d es next)
        | inr (is_duplicate k n, eq) ↦
            rw (repair_each, eq) (repair_each-Windowed q a (d ++ n ∷ []) es next)
      ]

  apply_each-Windowed :
      (r : Runtime S C F J) (a d : List ℕ) (es : List (StreamEvent T))
      → RuntimeWindowed r
      → RuntimeWindowed (apply_each host r a d es).0
  unfolding apply_each
  apply_each-Windowed r a d [] w = w
  apply_each-Windowed r a d (e ∷ es) w =
      let (q, o) = apply_stream_event host r e in
      let next = apply_stream_event-Windowed r e w in
      elim (Option-cases (apply_stream_event host r e).1) [
        | inl eq ↦ rw (apply_each, eq) next
        | inr (repair_required k n why, eq) ↦ rw (apply_each, eq) next
        | inr (is_applied k n, eq) ↦
            rw (apply_each, eq) (apply_each-Windowed q (a ++ n ∷ []) d es next)
        | inr (is_duplicate k n, eq) ↦
            rw (apply_each, eq) (apply_each-Windowed q a (d ++ n ∷ []) es next)
      ]

  run_repair-Windowed :
      (r : Runtime S C F J) (k : Text) (first : StreamEvent T) (rest : List (StreamEvent T))
      → RuntimeWindowed r
      → RuntimeWindowed (run_repair host r k first rest).0
  unfolding run_repair
  run_repair-Windowed r k first rest w =
      let begun =
        count_repair host
          (forget_receipts host (set_stream host r k (waiting_at first.sequence))) in
      let (q, o) = repair_each host begun [] [] (first ∷ rest) in
      let next : RuntimeWindowed q =
        repair_each-Windowed begun [] [] (first ∷ rest) (waits r k first.sequence w) in
      elim (Option-cases (repair_each host begun [] [] (first ∷ rest)).1) [
        | inl eq ↦ rw (run_repair, eq) (waits q k first.sequence next)
        | inr (r, eq) ↦ rw (run_repair, eq) next
      ]

  if-Windowed :
      {O : Type 0} (b : Bool) (x y : Runtime S C F J × Option O)
      → RuntimeWindowed x.0
      → RuntimeWindowed y.0
      → RuntimeWindowed (if b then x else y).0
  if-Windowed true x y w v = w
  if-Windowed false x y w v = v

  repair_stream-Windowed :
      (r : Runtime S C F J) (p : StreamPage T)
      → RuntimeWindowed r
      → RuntimeWindowed (repair_stream host r p).0
  unfolding repair_stream repair_events
  repair_stream-Windowed r p w = go p.events
    where
      go : (es : List (StreamEvent T)) → RuntimeWindowed (repair_events host r p es).0
      go [] = w
      go (first ∷ rest) =
          if-Windowed (not (valid_page host p)) (r, none) _ w
            (if-Windowed (not (text_eq p.tenant_id r.tenant_id)) (r, none) _ w
              (if-Windowed (not (is_terminal p.next_cursor)) (r, none) _ w
                (if-Windowed (not (is_snapshot first.kind)) (r, none) _ w
                  (if-Windowed (not ((last_of first rest).sequence == p.head_sequence)) (r, none) _
                    w
                    (if-Windowed (not (contiguous (first ∷ rest))) (r, none) _ w
                      (run_repair-Windowed r p.stream_id first rest w))))))

  follow_plan-Windowed :
      (r : Runtime S C F J) (plan : BurstPlan T)
      → RuntimeWindowed r
      → RuntimeWindowed (follow_plan host r plan).0
  unfolding follow_plan
  follow_plan-Windowed r (coalesced k t [] skipped) w = w
  follow_plan-Windowed r (coalesced k t (first ∷ rest) skipped) w =
      let page = page_of k t first rest in
      let next = repair_stream-Windowed r page w in
      elim (Option-cases (repair_stream host r page).1) [
        | inl eq ↦ rw (follow_plan, eq) next
        | inr (result, eq) ↦ rw (follow_plan, eq) next
      ]
  follow_plan-Windowed r (preserved why kept) w = apply_each-Windowed r [] [] kept w

  apply_burst-Windowed :
      (r : Runtime S C F J) (capabilities : List StreamCapability) (es : List (StreamEvent T))
      → RuntimeWindowed r
      → RuntimeWindowed (apply_burst host r capabilities es).0
  unfolding apply_burst
  apply_burst-Windowed r capabilities es w =
      if-Windowed (not (all (valid_event host) es)) (r, none) _ w
        (follow_plan-Windowed r (plan_stream_burst capabilities es) w)

  deliver-Windowed :
      (r : Runtime S C F J) (d : Delivery T)
      → RuntimeWindowed r
      → RuntimeWindowed (deliver host r d)
  unfolding deliver
  deliver-Windowed r (delivers e) w = apply_stream_event-Windowed r e w
  deliver-Windowed r (repairs_by p) w = repair_stream-Windowed r p w
  deliver-Windowed r (bursts capabilities es) w = apply_burst-Windowed r capabilities es w

  -- Whatever is delivered to a runtime, singly, in bursts or in pages: where each stream has seen just
  -- the sequences from a start up to the one that it expects next, and has a snapshot exactly once it
  -- has seen one, this stays so.
  pub run_deliveries-Windowed :
      (r : Runtime S C F J) (ds : List (Delivery T))
      → RuntimeWindowed r
      → RuntimeWindowed (run_deliveries host r ds)
  unfolding run_deliveries
  run_deliveries-Windowed r [] w = w
  run_deliveries-Windowed r (d ∷ ds) w =
      run_deliveries-Windowed (deliver host r d) ds (deliver-Windowed r d w)
