-- ===== src/Streams/Tests.antt =====
-- The theorems on streams at concrete deliveries.
use premise_protocol.Base.{
  ℕ, suc, ◌≡◌, ◌≢◌, sym, subst, ◌∙◌, Option-cases, inl, inr, refl, arith, Bool, true, false, Text,
  text_eq, codes, Option, none, some, List, [], ◌∷◌, empty, if◌then◌else◌, Bool-cases, trim,
  trim_start, is_space, Text-discrete, ℕ_discrete,
}
use premise_protocol.Entries.{some_inj}
use premise_protocol.Tools.Once.{clash}
use premise_protocol.Events.{EventKind, snapshot, delta}
use premise_protocol.Bursts.{
  StreamEvent, StreamCapability, ordered_events, authoritative_snapshot, delta_events, contiguous,
  plan_stream_burst, plan_from, plan_at, latest_snapshot, has_capability,
}
use premise_protocol.Streams.{
  PlainEvent, Host, Runtime, burst_repaired, is_applied, is_duplicate, apply_stream_event, state_of,
  valid_event, valid_page, receive_event, accept_event, apply_event, see, holds_event,
}
use premise_protocol.Streams.Pages.{
  Delivery, delivers, bursts, last_of, apply_burst, follow_plan, repair_stream, repair_events,
  run_repair, repair_each, run_deliveries,
}
use premise_protocol.Streams.Window.{AllWindowed-empty}
use premise_protocol.Streams.Runs.{RuntimeWindowed, run_deliveries-Windowed}
use premise_protocol.Streams.Redelivered.{Answers, Undisturbed, after, redelivered-duplicate}
use premise_protocol.Streams.Accepted.{Takes, Fresh}
use premise_protocol.Streams.Repaired.{Spans}
use premise_protocol.Streams.Coalesced.{apply_burst-Spans}

-- A store is the list of its events; the body of an event is its idempotency key and its content.
abbrev Body : Type 0
Body = Text × Text

abbrev knows : List (PlainEvent Body) → Text → Bool
knows [] k = false
knows (e ∷ es) k = let rest = knows es k in if text_eq e.body.0 k then true else rest

abbrev find : List (PlainEvent Body) → Text → Option (PlainEvent Body)
find [] k = none
find (e ∷ es) k = let rest = find es k in if text_eq e.body.0 k then some e else rest

-- The store throws at an event whose key it knows with another content.
abbrev append : List (PlainEvent Body) → PlainEvent Body → Option (List (PlainEvent Body))
append s e = elim (find s e.body.0) [
  | none ↦ some (e ∷ s)
  | some f ↦ if text_eq f.body.1 e.body.1 then some s else none
]

abbrev host : Host Body (List (PlainEvent Body)) ℕ ℕ ℕ
host = record {
  is_valid_body = λ b. true;
  fingerprint = λ e. e.body.1;
  digest_of = λ e. e.body.1;
  idempotency_key = λ b. b.0;
  has_event = knows;
  append_event = append;
  get_event = find;
  audit_event = λ j e. suc j;
  clear_receipts = λ c. 0;
  mark_unknown = λ f. suc f;
}

unknown-find : (s : List (PlainEvent Body)) (k : Text) → knows s k ≡ false → find s k ≡ none
unknown-find [] k h = refl
unknown-find (f ∷ s) k h = ground (arith, h, unknown-find s k)

append_new :
    (s : List (PlainEvent Body)) (e : PlainEvent Body)
    → find s e.body.0 ≡ none
    → append s e ≡ some (e ∷ s)
append_new s e new = ground (arith, new)

append_old :
    (s : List (PlainEvent Body)) (e f : PlainEvent Body)
    → find s e.body.0 ≡ some f
    → text_eq f.body.1 e.body.1 ≡ true
    → append s e ≡ some s
append_old s e f old same = ground (arith, old, same)

append_clash :
    (s : List (PlainEvent Body)) (e f : PlainEvent Body)
    → find s e.body.0 ≡ some f
    → text_eq f.body.1 e.body.1 ≡ false
    → append s e ≡ none
append_clash s e f old differs = ground (arith, old, differs)

append-keeps :
    (s t : List (PlainEvent Body)) (e : PlainEvent Body) (k : Text)
    → append s e ≡ some t
    → e.body.0 ≢ k
    → (knows t k ≡ knows s k) × (find t k ≡ find s k)
append-keeps s t e k h ne = elim (Option-cases (find s e.body.0)) [
  | inl new ↦
      let is_t : e ∷ s ≡ t = some_inj (sym (append_new s e new) ∙ h) in
      subst Same is_t (ground (arith, ne), ground (arith, ne))
  | inr (f, old) ↦ elim (Bool-cases (text_eq f.body.1 e.body.1)) [
    | inl same ↦
        let is_t : s ≡ t = some_inj (sym (append_old s e f old same) ∙ h) in
        subst Same is_t (refl, refl)
    | inr differs ↦ absurd (clash (append_clash s e f old differs) h)
  ]
]
  where
    Same : List (PlainEvent Body) → Type 0
    Same u = (knows u k ≡ knows s k) × (find u k ≡ find s k)

host-Takes : Takes host
host-Takes = record {
  appends = λ s e valid new. (e ∷ s, append_new s e (unknown-find s e.body.0 new));
  keeps = append-keeps;
}

abbrev runtime : Runtime (List (PlainEvent Body)) ℕ ℕ ℕ
runtime = record {
  tenant_id = codes "t";
  store = record { tenant_id = codes "t"; body = (codes "f", codes "f") } ∷ [];
  journal = 0;
  receipts = 3;
  frontier = 0;
  receipt_generation = 0;
  stream_states = empty;
  continuity_checks = 0;
  repairs = 0;
}

abbrev event : ℕ → EventKind → Text → StreamEvent Body
event n kind content = record {
  stream_id = codes "s";
  tenant_id = codes "t";
  sequence = n;
  kind = kind;
  body = (content, content);
}

abbrev burst : List (StreamEvent Body)
burst = event 4 delta (codes "d") ∷ event 5 snapshot (codes "e") ∷ event 6 delta (codes "f") ∷ []

abbrev capabilities : List StreamCapability
capabilities = ordered_events ∷ authoritative_snapshot ∷ delta_events ∷ []

abbrev deliveries : List (Delivery Body)
deliveries = delivers (event 1 delta (codes "a")) ∷ bursts capabilities burst ∷ []

run_deliveries-Windowed_example : RuntimeWindowed host (run_deliveries host runtime deliveries)
run_deliveries-Windowed_example = run_deliveries-Windowed host runtime deliveries AllWindowed-empty

burst_runs :
    (apply_burst host runtime capabilities burst).1
    ≡ some (burst_repaired (5 ∷ []) (6 ∷ []) (4 ∷ []))
unfolding apply_stream_event valid_event Text-discrete trim trim_start is_space ℕ_discrete
    receive_event state_of accept_event apply_event see holds_event apply_burst follow_plan
    repair_stream repair_events run_repair repair_each valid_page last_of contiguous
    plan_stream_burst plan_from plan_at latest_snapshot has_capability
burst_runs = refl

-- One event of the burst is new to the store, and the other is held by it.
Fresh-burst :
    Fresh host host-Takes runtime.store
      (event 5 snapshot (codes "e") ∷ event 6 delta (codes "f") ∷ [])
unfolding Text-discrete ℕ_discrete
Fresh-burst = (
  inl refl,
  ((λ e. ground (arith, e)), tt),
  (
    inr (refl, (record { tenant_id = codes "t"; body = (codes "f", codes "f") }, refl, refl)),
    tt,
    tt,
  ),
)

apply_burst-Spans_example :
    (q : Runtime (List (PlainEvent Body)) ℕ ℕ ℕ) × (b : List ℕ) × (c : List ℕ) × (apply_burst host
        runtime capabilities burst
      ≡ (q, some (burst_repaired b c (4 ∷ []))))
    × Spans q
        (codes "s")
        5
        (suc (last_of (event 5 snapshot (codes "e")) (event 6 delta (codes "f") ∷ [])).sequence)
unfolding apply_stream_event valid_event Text-discrete trim trim_start is_space ℕ_discrete
    receive_event state_of accept_event apply_event see valid_page last_of contiguous
    plan_stream_burst plan_from plan_at latest_snapshot has_capability
apply_burst-Spans_example =
    apply_burst-Spans host host-Takes runtime capabilities burst (codes "s") (codes "t")
      (event 5 snapshot (codes "e")) (event 6 delta (codes "f") ∷ []) (4 ∷ []) refl refl refl
      Fresh-burst

first_answer :
    Answers host runtime
      (event 0 snapshot (codes "e"))
      (apply_stream_event host runtime (event 0 snapshot (codes "e"))).0
      (is_applied (codes "s") 0)
unfolding apply_stream_event valid_event Text-discrete trim trim_start is_space ℕ_discrete
    receive_event state_of accept_event apply_event see
first_answer = refl

-- Between the two deliveries, the next event of the stream.
abbrev first_next : List (StreamEvent Body)
first_next = event 1 delta (codes "f") ∷ []

abbrev first_runtime : Runtime (List (PlainEvent Body)) ℕ ℕ ℕ
first_runtime = (apply_stream_event host runtime (event 0 snapshot (codes "e"))).0

second_answer :
    (apply_stream_event host first_runtime (event 1 delta (codes "f"))).1
    ≡ some (is_duplicate (codes "s") 1)
unfolding apply_stream_event valid_event Text-discrete trim trim_start is_space ℕ_discrete
    receive_event state_of accept_event apply_event see holds_event
second_answer = refl

undisturbed : Undisturbed host (codes "s") first_runtime first_next
undisturbed = (λ n why h. cc (second_answer, h), tt)

redelivered-duplicate_example :
    Answers host
      (after host first_runtime first_next)
      (event 0 snapshot (codes "e"))
      (after host first_runtime first_next)
      (is_duplicate (codes "s") 0)
redelivered-duplicate_example =
    redelivered-duplicate host runtime first_runtime (event 0 snapshot (codes "e"))
      (is_applied (codes "s") 0) first_next (inl refl) first_answer undisturbed
