-- ===== src/Streams/Paged.antt =====
-- A page that follows a snapshot without a gap repairs its stream.
use premise_protocol.Base.{
  ℕ, suc, ◌<◌, ◌≡◌, inr, refl, sym, ap, subst, ◌∙◌, arith, true, false, leb, Text, is_empty, Option,
  some, List, [], ◌∷◌, length, all, All,
}
use premise_protocol.Events.{is_snapshot}
use premise_protocol.Bursts.{StreamEvent, contiguous}
use premise_protocol.Bursts.Snapshots.{numbers, sequences, contiguous_lem}
use premise_protocol.Streams.{
  Host, StreamState, Runtime, StreamPage, RepairResult, waiting_at, is_tenant_id, max_safe_integer,
  valid_event, valid_page, on_page, set_stream, forget_receipts, count_repair,
}
use premise_protocol.Streams.Pages.{
  last_of, page_of, repair_each, run_repair, repair_events, repair_stream,
}
use premise_protocol.Streams.Window.{waiting-Window, state_of-put, Window}
use premise_protocol.Streams.Accepted.{Takes, Fresh}
use premise_protocol.Streams.Numbered.{numbered-last, numbered-below, numbered_tail}
use premise_protocol.Streams.Repaired.{Spans, Fits, repair_each-Spans}

abbrev pub result_of :
    {T : Type 0} → Text → StreamEvent T → List (StreamEvent T) → List ℕ → List ℕ → RepairResult
result_of k x d b c = record {
  stream_id = k;
  from_sequence = x.sequence;
  to_sequence = (last_of x d).sequence;
  applied = b;
  duplicates = c;
}

module _ {T S C F J : Type 0} (host : Host T S C F J) where
  last_of-All :
      (P : StreamEvent T → Type 0) (x : StreamEvent T) (d : List (StreamEvent T))
      → All P (x ∷ d)
      → P (last_of x d)
  unfolding last_of
  last_of-All P x [] a = a.0
  last_of-All P x (y ∷ d) a = last_of-All P y d a.1

  -- Events that fit the stream and do not come after its head are on the page.
  Fits-on_page :
      (p : StreamPage T) (es : List (StreamEvent T))
      → All (Fits host p.tenant_id p.stream_id) es
      → All (λ e. e.sequence < suc p.head_sequence) es
      → all (on_page host p) es ≡ true
  Fits-on_page p [] fits below = refl
  Fits-on_page p (e ∷ es) ((valid, on, tenant), fits) (b, below) =
      ground (arith, valid, on, tenant, b, Fits-on_page p es fits below)

  valid_event_parts :
      (e : StreamEvent T)
      → valid_event host e ≡ true
      → (is_tenant_id e.tenant_id ≡ true)
        × (is_empty e.stream_id ≡ false)
        × (leb e.sequence max_safe_integer ≡ true)
  unfolding valid_event
  valid_event_parts e h = (ground (arith, h), ground (arith, h), ground (arith, h))

  page_valid :
      (t k : Text) (x : StreamEvent T) (d : List (StreamEvent T))
      → All (Fits host t k) (x ∷ d)
      → sequences (x ∷ d) ≡ numbers x.sequence (length (x ∷ d))
      → valid_page host (page_of k t x d) ≡ true
  unfolding valid_page
  page_valid t k x d fits numbered =
      let ((valid, on, tenant), rest) = fits in
      let (has_tenant, has_stream, safe) = valid_event_parts x valid in
      let (last_valid, last_on, last_tenant) = last_of-All (Fits host t k) x d fits in
      let (a, b, last_safe) = valid_event_parts (last_of x d) last_valid in
      let end = numbered-last x.sequence x d numbered in
      let fits_page : all (on_page host (page_of k t x d)) (x ∷ d) ≡ true =
        Fits-on_page (page_of k t x d) (x ∷ d) fits
          (numbered-below x.sequence (suc (last_of x d).sequence) (x ∷ d) numbered (omega arith)) in
      let tenant_eq : x.tenant_id ≡ t = ground (arith, tenant) in
      let good_tenant : is_tenant_id t ≡ true =
        subst (λ (u : Text). is_tenant_id u ≡ true) tenant_eq has_tenant in
      let good_stream : is_empty k ≡ false =
        subst (λ (u : Text). is_empty u ≡ false) on has_stream in
      rw (valid_page, good_tenant) (rw (good_stream) (rw (fits_page) (rw (last_safe) refl)))

  module _ (takes : Takes host) (r : Runtime S C F J) (k : Text) (x : StreamEvent T)
      (d : List (StreamEvent T)) where
    abbrev begun : Runtime S C F J
    begun = count_repair host (forget_receipts host (set_stream host r k (waiting_at x.sequence)))

    begun-Spans : Spans begun k x.sequence x.sequence
    begun-Spans =
        let waits = state_of-put r.stream_states k (waiting_at x.sequence) in
        record {
          window = subst (Window x.sequence) (sym waits) (waiting-Window x.sequence);
          is_next = ap (λ (s : StreamState). s.next_sequence) waits;
        }

    abbrev pub Repaired : Runtime S C F J × Option RepairResult → Type 0
    Repaired out =
        (q : Runtime S C F J) × (b : List ℕ) × (c : List ℕ) × (out
          ≡ (q, some (result_of k x d b c)))
        × Spans q k x.sequence (suc (last_of x d).sequence)

    run_repair_lem :
        (q : Runtime S C F J) (b c : List ℕ)
        → repair_each host begun [] [] (x ∷ d) ≡ (q, some (b, c))
        → run_repair host r k x d ≡ (q, some (result_of k x d b c))
    unfolding run_repair
    run_repair_lem q b c h =
        rw (run_repair, ap (λ o. o.1) h)
          (ap (λ (y : Runtime S C F J). (y, some (result_of k x d b c))) (ap (λ o. o.0) h))

    repair_stream-run_repair :
        valid_page host (page_of k r.tenant_id x d) ≡ true
        → is_snapshot x.kind ≡ true
        → contiguous (x ∷ d) ≡ true
        → repair_stream host r (page_of k r.tenant_id x d) ≡ run_repair host r k x d
    unfolding repair_stream repair_events
    repair_stream-run_repair valid starts gapless = ground (arith, valid, starts, gapless)

    -- A page of numbered events from a snapshot on is taken as a repair.
    pub repair_stream-Repaired :
        All (Fits host r.tenant_id k) (x ∷ d)
        → Fresh host takes r.store (x ∷ d)
        → sequences (x ∷ d) ≡ numbers x.sequence (length (x ∷ d))
        → is_snapshot x.kind ≡ true
        → Repaired (repair_stream host r (page_of k r.tenant_id x d))
    repair_stream-Repaired fits fresh numbered starts =
        let (q, b, c, runs, (spans, same)) =
          repair_each-Spans host takes (x ∷ d) begun k x.sequence x.sequence [] [] fits fresh
            numbered begun-Spans (inr starts) in
        let valid = page_valid r.tenant_id k x d fits numbered in
        let gapless : contiguous (x ∷ d) ≡ true =
          (contiguous_lem x d).1 (numbered_tail x.sequence x d numbered).1 in
        (
          q,
          b,
          c,
          repair_stream-run_repair valid starts gapless ∙ run_repair_lem q b c runs,
          record {
            window = spans.window;
            is_next = omega (arith, spans.is_next, numbered-last x.sequence x d numbered);
          },
        )
