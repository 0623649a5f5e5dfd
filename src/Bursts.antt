-- ===== src/Bursts.antt =====
-- packages/runtime-core/src/stream-burst.ts: which prefix of a burst of events a connector may drop.
pub mod Snapshots
pub mod Coalesced
pub mod Planned
mod Tests
use premise_protocol.Base.{
  ℕ, zero, suc, ◌-◌, Bool, true, false, not, ◌&&◌, ◌==◌, ltb, Text, text_eq, Option, none, some,
  List, [], ◌∷◌, map, length, all, if◌then◌else◌,
}
use premise_protocol.Events.{EventKind, is_snapshot}

-- What the planner reads of an event; the rest of it is the body.
pub record StreamEvent (T : Type 0) : Type 0 where
  pub stream_id : Text
  pub tenant_id : Text
  pub sequence : ℕ
  pub kind : EventKind
  pub body : T

pub data StreamCapability : Type 0 where
  ordered_events authoritative_snapshot delta_events duplicate_safe : StreamCapability

pub data PreservedReason : Type 0 where
  empty_burst capability_missing no_snapshot : PreservedReason
  non_contiguous delta_capability_missing nothing_to_skip : PreservedReason

pub data BurstPlan (T : Type 0) : Type 0 where
  coalesced : Text → Text → List (StreamEvent T) → List ℕ → BurstPlan T
  preserved : PreservedReason → List (StreamEvent T) → BurstPlan T

unfoldable pub StreamCapability-discrete : Discrete StreamCapability
StreamCapability-discrete = hlevel

-- The function `has`.
unfoldable pub has_capability : List StreamCapability → StreamCapability → Bool
unfolding StreamCapability-discrete
has_capability [] c = false
has_capability (x ∷ xs) c =
    let rest = has_capability xs c in
    elim (StreamCapability-discrete x c) [ yes _ ↦ true | no _ ↦ rest ]

-- Array.prototype.slice from, and up to, an index.
abbrev pub drop {ℓ} : {A : Type ℓ} → ℕ → List A → List A
drop zero xs = xs
drop (suc n) [] = []
drop (suc n) (x ∷ xs) = drop n xs

abbrev pub take {ℓ} : {A : Type ℓ} → ℕ → List A → List A
take zero xs = []
take (suc n) [] = []
take (suc n) (x ∷ xs) = x ∷ take n xs

module _ {T : Type 0} where
  abbrev pub same_stream : StreamEvent T → StreamEvent T → Bool
  same_stream first e = text_eq e.stream_id first.stream_id && text_eq e.tenant_id first.tenant_id

  unfoldable pub contiguous : List (StreamEvent T) → Bool
  contiguous [] = true
  contiguous (e ∷ []) = true
  contiguous (e ∷ f ∷ es) = f.sequence == suc e.sequence && contiguous (f ∷ es)

  -- The loop for the latest snapshot from an index on; `none` is the start value -1.
  unfoldable pub latest_snapshot : ℕ → Option ℕ → List (StreamEvent T) → Option ℕ
  latest_snapshot i latest [] = latest
  latest_snapshot i latest (e ∷ es) =
      latest_snapshot (suc i) (if is_snapshot e.kind then some i else latest) es

  -- What is left once the latest snapshot is known.
  unfoldable pub plan_at :
      List StreamCapability → StreamEvent T → List (StreamEvent T) → ℕ → BurstPlan T
  plan_at capabilities first events latest =
      if latest == 0
      then preserved nothing_to_skip events
      else if not (has_capability capabilities delta_events) && ltb latest (length events - 1)
      then preserved delta_capability_missing events
      else coalesced first.stream_id first.tenant_id (drop latest events)
          (map (λ e. e.sequence) (take latest events))

  unfoldable pub plan_from :
      List StreamCapability → StreamEvent T → List (StreamEvent T) → BurstPlan T
  plan_from capabilities first events =
      if not (all (same_stream first) events)
      then preserved non_contiguous events
      else if not (contiguous events)
      then preserved non_contiguous events
      else if not (
          has_capability capabilities ordered_events
          && has_capability capabilities authoritative_snapshot)
      then preserved capability_missing events
      else elim (latest_snapshot 0 none events) [
        | none ↦ preserved no_snapshot events
        | some latest ↦ plan_at capabilities first events latest
      ]

  -- planRuntimeStreamBurst on events that are parsed.
  unfoldable pub plan_stream_burst : List StreamCapability → List (StreamEvent T) → BurstPlan T
  plan_stream_burst capabilities [] = preserved empty_burst []
  plan_stream_burst capabilities (e ∷ es) = plan_from capabilities e (e ∷ es)
