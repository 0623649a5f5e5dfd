-- ===== src/Flight.antt =====
-- The data of packages/runtime-core/src/fenced-single-flight.ts: requests, outcomes, flights, and the
-- state of the coordinator.
use premise_protocol.Base.{ℕ, Bool, Text, Text-discrete, Option, List, Dict, ℕ_discrete}

pub data FlightResult : Type 0 where
  unchanged changed missing unknown_result : FlightResult

pub data UnknownReason : Type 0 where
  timeout aborted fenced source_unknown : UnknownReason

-- The value and the version of an outcome are its payload.
pub record Outcome (T : Type 0) : Type 0 where
  pub result : FlightResult
  pub fencing_token : ℕ
  pub payload : Option T
  pub reason : Option UnknownReason

-- What does not change of a flight; its identity as an object is a number.
pub record Flight : Type 0 where
  pub identity : ℕ
  pub key : Text
  pub resource_key : Text
  pub supersession_key : Text
  pub fencing_token : ℕ

pub record CurrentVersion : Type 0 where
  pub supersession_key : Text
  pub fencing_token : ℕ

-- The keys that premiseValidationScopeKey and premiseValidationSupersessionKey make of a scope.
pub record ScopeKeys : Type 0 where
  pub sharing : Text
  pub supersession : Text

-- A request as normalizeRequest gives it, with the keys of its scope if it has one, and whether its
-- signal is aborted.
pub record FlightRequest : Type 0 where
  pub tenant_id : Text
  pub resource : Text
  pub scope : Option ScopeKeys
  pub signal_aborted : Bool

-- The public promise.
pub data Promise (T : Type 0) : Type 0 where
  pending : Promise T
  resolved : Outcome T → Promise T
  rejected : Promise T

-- How the operation ends; an error may look like an abort (isAbortLike).
pub data Answer (T : Type 0) : Type 0 where
  answers : Outcome T → Answer T
  fails : Bool → Answer T

-- The coordinator, and what the closures of each flight hold: its promise, its two flags, and whether
-- the handlers of its operation have run.
pub record Coordinator (T : Type 0) : Type 0 where
  pub flights : List Flight
  pub latest_by_resource : Dict CurrentVersion
  pub next_fencing_token : ℕ
  pub legacy_flight : ℕ
  pub next_identity : ℕ
  pub promises : Flight → Promise T
  pub timeout_triggered : Flight → Bool
  pub abort_triggered : Flight → Bool
  pub handled : Flight → Bool

unfoldable pub Flight-discrete : Discrete Flight
unfolding ℕ_discrete Text-discrete
Flight-discrete = hlevel (ℕ_discrete, Text-discrete)
