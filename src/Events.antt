-- ===== src/Events.antt =====
-- assessOrderedEventContinuity of packages/runtime-core/src/receipt-cache.ts: whether the delivery of a
-- stream of events has no gap, no reordering and no conflict.
pub mod Contiguous
mod Tests
use premise_protocol.Base.{
  ℕ, suc, Bool, true, false, not, ◌&&◌, ◌||◌, ◌==◌, ltb, Text, Text-discrete, text_eq, is_empty,
  Option, none, some, List, [], ◌∷◌, ◌++◌, if◌then◌else◌,
}

pub data EventKind : Type 0 where
  snapshot delta : EventKind

-- What the fingerprint is the JSON of; that text is different for different triples.
pub record Fingerprint : Type 0 where
  pub kind : EventKind
  pub event_id : Option Text
  pub cursor : Option Text

-- A delivered value: an event, or something else. The sequence is `none` if it is no safe integer
-- or is negative.
pub record Event : Type 0 where
  pub stream_id : Text
  pub sequence : Option ℕ
  pub print : Fingerprint

pub data Delivery : Type 0 where
  delivers : Event → Delivery
  malformed : Delivery

pub data Hazard : Type 0 where
  empty_stream invalid_event invalid_sequence stream_mismatch : Hazard
  gap reordered conflict delta_before_snapshot : Hazard

pub record Options : Type 0 where
  pub expected_sequence : Option (Option ℕ)
  pub require_snapshot : Bool

-- The variables of the loop.
pub record Progress : Type 0 where
  pub applied : List ℕ
  pub duplicates : List ℕ
  pub fingerprints : List (ℕ × Fingerprint)
  pub last_sequence : Option ℕ
  pub has_snapshot : Bool

pub data Continuity : Type 0 where
  fresh : ℕ → List ℕ → List ℕ → Continuity
  unknown : Hazard → List ℕ → List ℕ → Continuity

abbrev pub is_snapshot : EventKind → Bool
is_snapshot snapshot = true
is_snapshot delta = false

abbrev same_text : Option Text → Option Text → Bool
same_text none none = true
same_text (some a) (some b) = text_eq a b
same_text _ _ = false

pub same_print : Fingerprint → Fingerprint → Bool
same_print a b =
    (if is_snapshot a.kind then is_snapshot b.kind else not (is_snapshot b.kind))
    && same_text a.event_id b.event_id
    && same_text a.cursor b.cursor

pub find_print : ℕ → List (ℕ × Fingerprint) → Option Fingerprint
find_print n [] = none
find_print n ((m, f) ∷ fs) = let rest = find_print n fs in if m == n then some f else rest

pub data Round : Type 0 where
  stops : Hazard → Round
  goes : Progress → Round

abbrev pub below : Option ℕ → ℕ → Bool
below none n = false
below (some l) n = ltb n l

abbrev pub beyond : Option ℕ → ℕ → Bool
beyond none n = false
beyond (some l) n = ltb (suc l) n

-- The first sequence is not the one expected.
abbrev pub misses_start : Options → Option ℕ → ℕ → Bool
misses_start o none n = elim o.expected_sequence [ some (some e) ↦ not (n == e) | _ ↦ false ]
misses_start o (some l) n = false

abbrev pub advance : Progress → ℕ → Fingerprint → Progress
advance p n f = record {
  applied = p.applied ++ n ∷ [];
  duplicates = p.duplicates;
  fingerprints = (n, f) ∷ p.fingerprints;
  last_sequence = some n;
  has_snapshot = p.has_snapshot || is_snapshot f.kind;
}

-- One round, from the test of the order on.
pub take_sequence : Options → Progress → ℕ → Fingerprint → Round
take_sequence o p n f =
    if below p.last_sequence n
    then stops reordered
    else if beyond p.last_sequence n
    then stops gap
    else elim (find_print n p.fingerprints) [
      | some prior ↦
          if not (same_print prior f)
          then stops conflict
          else goes (record p { duplicates = p.duplicates ++ n ∷ [] })
      | none ↦
          if misses_start o p.last_sequence n
          then stops gap
          else if o.require_snapshot && not p.has_snapshot && not (is_snapshot f.kind)
          then stops delta_before_snapshot
          else goes (advance p n f)
    ]

pub take_event : Options → Text → Progress → Delivery → Round
take_event o stream p malformed = stops invalid_event
take_event o stream p (delivers e) =
    if is_empty e.stream_id
    then stops invalid_event
    else if not (text_eq e.stream_id stream)
    then stops stream_mismatch
    else elim e.sequence [ none ↦ stops invalid_sequence | some n ↦ take_sequence o p n e.print ]

-- The loop. `assess` starts it with a delivery at hand, so the first branch is never the result of it.
pub assess_from : Options → Text → Progress → List Delivery → Continuity
assess_from o stream p [] = elim p.last_sequence [
  | none ↦ unknown empty_stream p.applied p.duplicates
  | some l ↦ fresh l p.applied p.duplicates
]
assess_from o stream p (e ∷ es) = elim (take_event o stream p e) [
  | stops h ↦ unknown h p.applied p.duplicates
  | goes q ↦ assess_from o stream q es
]

abbrev pub start : Progress
start = record {
  applied = [];
  duplicates = [];
  fingerprints = [];
  last_sequence = none;
  has_snapshot = false;
}

-- The stream of the first delivery; of a malformed one nothing is read.
abbrev pub stream_of : Delivery → Text
stream_of malformed = []
stream_of (delivers e) = e.stream_id

pub assess : List Delivery → Options → Continuity
assess [] o = unknown empty_stream [] []
assess (e ∷ es) o = elim o.expected_sequence [
  | some none ↦ unknown invalid_sequence [] []
  | _ ↦ assess_from o (stream_of e) start (e ∷ es)
]
