-- ===== src/Flights.antt =====
-- packages/runtime-core/src/fenced-single-flight.ts: one run of a validation for all that ask for the
-- same, and a fence against runs for an older version of the resource.
pub mod Steps
pub mod Invariant
pub mod Effects
pub mod Fence
pub mod Sound
pub mod Blocked
pub mod Runs
pub mod Fenced
pub mod Joined
mod Tests
use premise_protocol.Base.{
  ℕ, suc, Bool, true, false, not, ◌&&◌, ◌||◌, ◌==◌, Text, Text-discrete, text_eq, codes, Option,
  none, some, List, [], ◌∷◌, ◌++◌, any, Dict, empty, put, drop_key, ℕ_discrete, if◌then◌else◌,
}
use premise_protocol.Flight.{
  FlightResult, UnknownReason, Outcome, Flight, CurrentVersion, ScopeKeys, FlightRequest, Promise,
  Answer, Coordinator, unchanged, changed, missing, unknown_result, timeout, aborted, fenced,
  source_unknown, pending, resolved, rejected, answers, fails, Flight-discrete,
}
use premise_protocol.Json.{json_pair}

abbrev pub same_flight : Flight → Flight → Bool
same_flight f g = elim (Flight-discrete f g) [ yes _ ↦ true | no _ ↦ false ]

abbrev pub set : {V : Type 0} → (Flight → V) → Flight → V → Flight → V
set m f v g = elim (Flight-discrete f g) [ yes _ ↦ v | no _ ↦ m g ]

-- this.flights.get(key)
pub find_flight : Text → List Flight → Option Flight
find_flight key [] = none
find_flight key (f ∷ fs) =
    let rest = find_flight key fs in if text_eq f.key key then some f else rest

-- The deletion of `finally`: of the entry only if it is this very flight.
pub delete_flight : Flight → List Flight → List Flight
delete_flight f [] = []
delete_flight f (g ∷ gs) = let rest = delete_flight f gs in if same_flight f g then gs else g ∷ rest

abbrev pub is_live : Flight → List Flight → Bool
is_live f fs = any (same_flight f) fs

abbrev pub of_resource : Text → Flight → Bool
of_resource resource f = text_eq f.resource_key resource

-- The token of a new flight, and the counter after it.
pub token_for : Option CurrentVersion → Text → ℕ → ℕ × ℕ
token_for none supersession next = (suc next, suc next)
token_for (some c) supersession next =
    if text_eq c.supersession_key supersession
    then (c.fencing_token, next)
    else (suc next, suc next)

module _ {T : Type 0} where
  abbrev pub unknown_outcome : ℕ → UnknownReason → Outcome T
  unknown_outcome token reason = record {
    result = unknown_result;
    fencing_token = token;
    payload = none;
    reason = some reason;
  }

  abbrev pub is_pending : Promise T → Bool
  is_pending pending = true
  is_pending _ = false

  abbrev pub coordinator : Coordinator T
  coordinator = record {
    flights = [];
    latest_by_resource = empty;
    next_fencing_token = 0;
    legacy_flight = 0;
    next_identity = 0;
    promises = λ f. pending;
    timeout_triggered = λ f. false;
    abort_triggered = λ f. false;
    handled = λ f. false;
  }

  -- The functions settle and fail.
  pub settle : Flight → Promise T → Coordinator T → Coordinator T
  settle f p s = if is_pending (s.promises f) then record s { promises = set s.promises f p } else s

  abbrev pub raise_flag : Flight → UnknownReason → Coordinator T → Coordinator T
  raise_flag f timeout s = record s { timeout_triggered = set s.timeout_triggered f true }
  raise_flag f _ s = record s { abort_triggered = set s.abort_triggered f true }

  -- abortAsUnknown("ABORTED") and abortAsUnknown("TIMEOUT").
  pub abort_as_unknown : Flight → UnknownReason → Coordinator T → Coordinator T
  abort_as_unknown f reason s =
      if not (is_pending (s.promises f))
      then s
      else settle f (resolved (unknown_outcome f.fencing_token reason)) (raise_flag f reason s)

  -- The entry of a new flight with its token and the counter after it.
  pub enter : Text → Text → Text → ℕ → ℕ → Coordinator T → Coordinator T × Flight
  enter key resource supersession token next s =
      let f : Flight = record {
        identity = s.next_identity;
        key = key;
        resource_key = resource;
        supersession_key = supersession;
        fencing_token = token;
      } in
      (
        record s {
          flights = f ∷ s.flights;
          latest_by_resource =
              put s.latest_by_resource resource
                (record { supersession_key = supersession; fencing_token = token });
          next_fencing_token = next;
          next_identity = suc s.next_identity;
          promises = set s.promises f pending;
          timeout_triggered = set s.timeout_triggered f false;
          abort_triggered = set s.abort_triggered f false;
          handled = set s.handled f false;
        },
        f,
      )

  -- A new flight, from the test for one that runs on.
  pub launch : Text → Text → Text → Bool → Coordinator T → Coordinator T × Flight
  launch key resource supersession is_aborted s =
      let (token, next) =
        token_for (s.latest_by_resource resource) supersession s.next_fencing_token in
      let (s1, f) = enter key resource supersession token next s in
      (if is_aborted then abort_as_unknown f aborted s1 else s1, f)

  pub join_or_launch : Text → Text → FlightRequest → Coordinator T → Coordinator T × Flight
  join_or_launch key supersession r s =
      let new = launch key (json_pair r.tenant_id r.resource) supersession r.signal_aborted s in
      elim (find_flight key s.flights) [ some f ↦ (s, f) | none ↦ new ]

  -- validate, up to the promise that it returns, that of the flight. A number in a template is printed.
  pub validate : (ℕ → Text) → FlightRequest → Coordinator T → Coordinator T × Flight
  validate decimal r s = elim r.scope [
    | some keys ↦ join_or_launch keys.sharing keys.supersession r s
    | none ↦
        let key = codes "legacy-isolated:" ++ decimal (suc s.legacy_flight) in
        join_or_launch key key r (record s { legacy_flight = suc s.legacy_flight })
  ]

  -- What the operation yields: the source is not asked if the flight was aborted before.
  pub operation : Flight → Coordinator T → Answer T → Answer T
  operation f s a =
      if s.abort_triggered f
      then answers (unknown_outcome f.fencing_token aborted)
      else if s.timeout_triggered f
      then answers (unknown_outcome f.fencing_token timeout)
      else a

  -- Whether the version that a flight validates is the current one, and the outcome is of this flight.
  pub is_current : Option CurrentVersion → Flight → Outcome T → Bool
  is_current none f o = false
  is_current (some c) f o =
      text_eq c.supersession_key f.supersession_key
      && c.fencing_token == f.fencing_token
      && o.fencing_token == f.fencing_token

  -- The two handlers of the operation.
  pub handle : Flight → Answer T → Coordinator T → Coordinator T
  handle f (answers o) s =
      if not (is_pending (s.promises f))
      then s
      else if not (is_current (s.latest_by_resource f.resource_key) f o)
      then settle f (resolved (unknown_outcome f.fencing_token fenced)) s
      else settle f (resolved o) s
  handle f (fails is_abort_like) s =
      if not (is_pending (s.promises f))
      then s
      else if s.timeout_triggered f
      then settle f (resolved (unknown_outcome f.fencing_token timeout)) s
      else if s.abort_triggered f || is_abort_like
      then settle f (resolved (unknown_outcome f.fencing_token aborted)) s
      else settle f rejected s

  -- The clean-up after the handlers.
  pub clean : Flight → Coordinator T → Coordinator T
  clean f s =
      let rest = delete_flight f s.flights in
      record s {
        flights = rest;
        latest_by_resource =
            if any (of_resource f.resource_key) rest
            then s.latest_by_resource
            else drop_key s.latest_by_resource f.resource_key;
      }
