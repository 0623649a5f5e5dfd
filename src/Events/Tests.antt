-- ===== src/Events/Tests.antt =====
-- A stream with a repeated event at a concrete input.
use premise_protocol.Base.{ℕ, ◌≡◌, refl, true, Text-discrete, codes, none, some, List, [], ◌∷◌}
use premise_protocol.Events.{
  EventKind, snapshot, delta, Delivery, delivers, Options, fresh, assess, assess_from, take_event,
  take_sequence, find_print, same_print,
}
use premise_protocol.Events.Contiguous.{Run, assess-Run}

abbrev event : ℕ → EventKind → Delivery
event n k = delivers (record {
  stream_id = codes "s";
  sequence = some n;
  print = record { kind = k; event_id = none; cursor = none };
})

abbrev stream : List Delivery
stream = event 4 snapshot ∷ event 4 snapshot ∷ event 5 delta ∷ []

abbrev options : Options
options = record { expected_sequence = some (some 4); require_snapshot = true }

assessed : assess stream options ≡ fresh 5 (4 ∷ 5 ∷ []) (4 ∷ [])
unfolding assess assess_from take_event take_sequence find_print same_print Text-discrete
assessed = refl

assess-Run_example : Run options (4 ∷ 5 ∷ []) 5
assess-Run_example = assess-Run stream options 5 (4 ∷ 5 ∷ []) (4 ∷ []) assessed
