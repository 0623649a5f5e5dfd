-- ===== src/Streams.antt =====
-- The event streams of the runtime, class PremiseRuntime of packages/runtime-core/src/index.ts, with
-- the validation of stream events and pages of packages/protocol-types/src/v2.ts. A delivery that
-- leaves a gap fences the stream until a snapshot repairs it.
pub mod Pages
pub mod Window
pub mod Cases
pub mod Runs
pub mod Redelivered
pub mod Accepted
pub mod Numbered
pub mod Repaired
pub mod Paged
pub mod Coalesced
mod Tests
use premise_protocol.Base.{
  ℕ, suc, ◌+◌, Bool, true, false, not, ◌&&◌, ◌==◌, ltb, leb, Text, text_eq, is_empty, trim, Option,
  none, some, List, [], ◌∷◌, ◌++◌, all, if◌then◌else◌, Dict, put, empty,
}
use premise_protocol.Events.{EventKind, is_snapshot}
use premise_protocol.Bursts.{
  StreamEvent, StreamCapability, BurstPlan, coalesced, preserved, contiguous, plan_stream_burst,
}

-- An event without what belongs to its delivery.
pub record PlainEvent (T : Type 0) : Type 0 where
  pub tenant_id : Text
  pub body : T

-- The store and the parts beside it, and the digests. `append_event` answers `none` where it throws;
-- the journal's failures are caught.
pub record Host (T S C F J : Type 0) : Type 0 where
  pub is_valid_body : T → Bool
  pub fingerprint : StreamEvent T → Text
  pub digest_of : PlainEvent T → Text
  pub idempotency_key : T → Text
  pub has_event : S → Text → Bool
  pub append_event : S → PlainEvent T → Option S
  pub get_event : S → Text → Option (PlainEvent T)
  pub audit_event : J → PlainEvent T → J
  pub clear_receipts : C → C
  pub mark_unknown : F → F

pub record StreamState : Type 0 where
  pub next_sequence : ℕ
  pub seen : ℕ → Option Text
  pub has_snapshot : Bool

pub record Runtime (S C F J : Type 0) : Type 0 where
  pub tenant_id : Text
  pub store : S
  pub journal : J
  pub receipts : C
  pub frontier : F
  pub receipt_generation : ℕ
  pub stream_states : Dict StreamState
  pub continuity_checks : ℕ
  pub repairs : ℕ

pub data RepairReason : Type 0 where
  gap reordered conflict delta_before_snapshot : RepairReason

pub data ApplyResult : Type 0 where
  is_applied : Text → ℕ → ApplyResult
  is_duplicate : Text → ℕ → ApplyResult
  repair_required : Text → ℕ → RepairReason → ApplyResult

-- A page of a stream; its spec version is the type's.
pub record StreamPage (T : Type 0) : Type 0 where
  pub tenant_id : Text
  pub stream_id : Text
  pub events : List (StreamEvent T)
  pub head_sequence : ℕ
  pub next_cursor : Option Text

pub record RepairResult : Type 0 where
  pub stream_id : Text
  pub from_sequence : ℕ
  pub to_sequence : ℕ
  pub applied : List ℕ
  pub duplicates : List ℕ

pub data BurstResult : Type 0 where
  burst_repaired : List ℕ → List ℕ → List ℕ → BurstResult
  burst_applied : List ℕ → List ℕ → BurstResult
  burst_needs_repair : RepairReason → List ℕ → List ℕ → BurstResult

abbrev pub is_tenant_id : Text → Bool
is_tenant_id t = not (is_empty t) && text_eq (trim t) t

abbrev pub max_safe_integer : ℕ
max_safe_integer = 0x1fffffffffffff

abbrev pub is_terminal : Option Text → Bool
is_terminal none = true
is_terminal (some c) = false

abbrev pub is_cursor : Option Text → Bool
is_cursor none = true
is_cursor (some c) = not (is_empty c)

-- A new stream, and a stream that waits for a snapshot at a sequence.
abbrev pub waiting_at : ℕ → StreamState
waiting_at n = record { next_sequence = n; seen = λ _. none; has_snapshot = false }

pub state_of : Dict StreamState → Text → StreamState
state_of m k = elim (m k) [ none ↦ waiting_at 0 | some s ↦ s ]

pub see : StreamState → ℕ → Text → Bool → StreamState
see s n f snap = record {
  next_sequence = suc n;
  seen = λ m. if m == n then some f else s.seen m;
  has_snapshot = if s.has_snapshot then true else snap;
}

abbrev pub plain : {T : Type 0} → StreamEvent T → PlainEvent T
plain e = record { tenant_id = e.tenant_id; body = e.body }

module _ {T S C F J : Type 0} (host : Host T S C F J) where
  pub valid_event : StreamEvent T → Bool
  valid_event e =
      is_tenant_id e.tenant_id
      && host.is_valid_body e.body
      && not (is_empty e.stream_id)
      && leb e.sequence max_safe_integer

  abbrev pub on_page : StreamPage T → StreamEvent T → Bool
  on_page p e =
      valid_event e
      && text_eq e.stream_id p.stream_id
      && text_eq e.tenant_id p.tenant_id
      && leb e.sequence p.head_sequence

  pub valid_page : StreamPage T → Bool
  valid_page p =
      is_tenant_id p.tenant_id
      && not (is_empty p.stream_id)
      && all (on_page p) p.events
      && leb p.head_sequence max_safe_integer
      && is_cursor p.next_cursor

  abbrev pub set_stream : Runtime S C F J → Text → StreamState → Runtime S C F J
  set_stream r k s = record r { stream_states = put r.stream_states k s }

  -- What the receipts may stand for is unknown from here on.
  abbrev pub forget_receipts : Runtime S C F J → Runtime S C F J
  forget_receipts r = record r {
    receipts = host.clear_receipts r.receipts;
    receipt_generation = suc r.receipt_generation;
    frontier = host.mark_unknown r.frontier;
  }

  abbrev pub count_repair : Runtime S C F J → Runtime S C F J
  count_repair r = record r { continuity_checks = suc r.continuity_checks; repairs = suc r.repairs }

  pub stream_repair_required :
      Runtime S C F J → StreamEvent T → RepairReason → Runtime S C F J × Option ApplyResult
  stream_repair_required r e why = (
    count_repair (forget_receipts (set_stream r e.stream_id (waiting_at e.sequence))),
    some (repair_required e.stream_id e.sequence why),
  )

  -- applyEvent: `none` where it throws, with the runtime as it was.
  pub apply_event : Runtime S C F J → PlainEvent T → Option (Runtime S C F J × Bool)
  apply_event r e =
      if host.has_event r.store (host.idempotency_key e.body)
      then some (r, false)
      else if not (is_tenant_id e.tenant_id && host.is_valid_body e.body)
      then none
      else if not (text_eq e.tenant_id r.tenant_id)
      then none
      else elim (host.append_event r.store e) [
        | none ↦ none
        | some s ↦ some (record r { store = s; journal = host.audit_event r.journal e }, true)
      ]

  -- Whether the store holds this very event under its key.
  pub holds_event : Runtime S C F J → PlainEvent T → Bool
  holds_event r e = elim (host.get_event r.store (host.idempotency_key e.body)) [
    | none ↦ false
    | some f ↦ text_eq (host.digest_of f) (host.digest_of e)
  ]

  abbrev pub seen_event : Runtime S C F J → StreamEvent T → StreamState → Runtime S C F J
  seen_event r e s =
      set_stream r e.stream_id (see s e.sequence (host.fingerprint e) (is_snapshot e.kind))

  -- The event that is next in its stream.
  pub accept_event :
      Runtime S C F J → StreamEvent T → StreamState → Runtime S C F J × Option ApplyResult
  accept_event r e s = elim (apply_event r (plain e)) [
    | none ↦ (r, none)
    | some (q, true) ↦ (seen_event q e s, some (is_applied e.stream_id e.sequence))
    | some (q, false) ↦
        if holds_event q (plain e)
        then (seen_event q e s, some (is_duplicate e.stream_id e.sequence))
        else stream_repair_required q e conflict
  ]

  pub receive_event :
      Runtime S C F J → StreamEvent T → StreamState → Runtime S C F J × Option ApplyResult
  receive_event r e s = elim (s.seen e.sequence) [
    | some prior ↦
        if text_eq prior (host.fingerprint e)
        then (r, some (is_duplicate e.stream_id e.sequence))
        else stream_repair_required r e conflict
    | none ↦
        if ltb e.sequence s.next_sequence
        then stream_repair_required r e reordered
        else if ltb s.next_sequence e.sequence
        then stream_repair_required r e gap
        else if not s.has_snapshot && not (is_snapshot e.kind)
        then stream_repair_required r e delta_before_snapshot
        else accept_event r e s
  ]

  -- applyStreamEvent: `none` where it throws.
  pub apply_stream_event : Runtime S C F J → StreamEvent T → Runtime S C F J × Option ApplyResult
  apply_stream_event r e =
      if not (valid_event e)
      then (r, none)
      else if not (text_eq e.tenant_id r.tenant_id)
      then (r, none)
      else receive_event r e (state_of r.stream_states e.stream_id)
