-- ===== src/Flights/Steps.antt =====
-- The coordinator's runs: requests, aborts, time-outs, answers and clean-ups, in any order in which
-- they can come.
use premise_protocol.Base.{ℕ, true, not, ◌&&◌, Text, List, [], ◌∷◌, if◌then◌else◌}
use premise_protocol.Flight.{Flight, FlightRequest, Answer, Coordinator, timeout, aborted}
use premise_protocol.Flights.{set, is_live, validate, abort_as_unknown, operation, handle, clean}

pub data Event (T : Type 0) : Type 0 where
  asks : FlightRequest → Event T
  aborts : Flight → Event T
  times_out : Flight → Event T
  ends : Flight → Answer T → Event T
  cleans : Flight → Event T

module _ {T : Type 0} (decimal : ℕ → Text) where
  -- An event of a flight needs the flight to be there: its handlers run once, and the clean-up comes
  -- after them.
  unfoldable pub step : Event T → Coordinator T → Coordinator T
  step (asks r) s = let (next, f) = validate decimal r s in next
  step (aborts f) s = if is_live f s.flights then abort_as_unknown f aborted s else s
  step (times_out f) s = if is_live f s.flights then abort_as_unknown f timeout s else s
  step (ends f a) s =
      if is_live f s.flights && not (s.handled f)
      then record (handle f (operation f s a) s) { handled = set s.handled f true }
      else s
  step (cleans f) s = if is_live f s.flights && s.handled f then clean f s else s

  unfoldable pub run : List (Event T) → Coordinator T → Coordinator T
  run [] s = s
  run (e ∷ es) s = run es (step e s)
