-- ===== src/Flights/Tests.antt =====
-- The theorems on flights at concrete inputs.
use premise_protocol.Base.{
  ℕ, ◌+◌, ◌≡◌, ◌⊎◌, refl, true, false, Text, Text-discrete, codes, none, some, List, [], ◌∷◌,
  ℕ_discrete,
}
use premise_protocol.Json.{json_pair}
use premise_protocol.Flight.{
  Flight, Flight-discrete, FlightRequest, changed, pending, Answer, answers,
}
use premise_protocol.Flights.{
  coordinator, is_pending, is_live, find_flight, token_for, enter, launch, join_or_launch, validate,
}
use premise_protocol.Flights.Steps.{Event, asks, ends, step, run}
use premise_protocol.Flights.Effects.{Harmless}
use premise_protocol.Flights.Sound.{Sound}
use premise_protocol.Flights.Runs.{flights-Sound}
use premise_protocol.Flights.Fenced.{launch-fences, ends-settles}
use premise_protocol.Flights.Joined.{validate-joins}

-- A number printed in one code unit, beyond those of the text before it.
abbrev decimal : ℕ → Text
decimal n = (n + 128) ∷ []

abbrev old_version : FlightRequest
old_version = record {
  tenant_id = codes "t";
  resource = codes "r";
  scope = some (record { sharing = codes "k1"; supersession = codes "v" });
  signal_aborted = false;
}

abbrev first : Flight
first = record {
  identity = 0;
  key = codes "k1";
  resource_key = json_pair (codes "t") (codes "r");
  supersession_key = codes "v";
  fencing_token = 1;
}

abbrev one : List (Event ℕ)
one = asks old_version ∷ []

abbrev answer : Answer ℕ
answer = answers (record { result = changed; fencing_token = 1; payload = some 5; reason = none })

first_live : is_live first (run decimal one coordinator).flights ≡ true
unfolding run step validate join_or_launch launch enter token_for find_flight Flight-discrete
    ℕ_discrete Text-discrete json_pair
first_live = refl

first_pending : (run decimal one coordinator).promises first ≡ pending
unfolding run step validate join_or_launch launch enter token_for find_flight Flight-discrete
    ℕ_discrete Text-discrete json_pair
first_pending = refl

flights-Sound_example : Sound (run decimal one coordinator)
flights-Sound_example = flights-Sound decimal one

launch-fences_example :
    let t =
      run decimal
        (ends first answer ∷ [])
        (launch
          (codes "k2")
          first.resource_key
          (codes "vv")
          false
          (run decimal one coordinator)).0 in
    (t.promises first ≡ pending) ⊎ Harmless first.fencing_token (t.promises first)
launch-fences_example =
    launch-fences decimal one (ends first answer ∷ []) first (codes "k2") (codes "vv") false
      first_live first_pending (λ e. cc)

ends-settles_example :
    is_pending ((step decimal (ends first answer) (run decimal one coordinator)).promises first)
    ≡ false
ends-settles_example = ends-settles decimal one first answer first_live first_pending

validate-joins_example :
    validate decimal old_version (run decimal one coordinator)
    ≡ (run decimal one coordinator, first)
validate-joins_example =
    validate-joins decimal one first old_version
      (record { sharing = codes "k1"; supersession = codes "v" }) first_live refl refl
