-- ===== src/Recovery.antt =====
-- verifyRuntimeCheckpointRecovery of packages/runtime-core/src/checkpoint.ts: whether the tail of a
-- journal goes on where a checkpoint ends.
pub mod Tail
mod Tests
use premise_protocol.Base.{ℕ, suc, ◌-◌, Option, none, some, List, [], ◌∷◌, ltb, if◌then◌else◌}

-- What is read of a checkpoint; the rest of it is the body.
pub record Checkpoint (T : Type 0) : Type 0 where
  pub event_cursor : ℕ
  pub body : T

pub data RecoveryHazard : Type 0 where
  bad_checkpoint tail_gap tail_reordered tail_cursor : RecoveryHazard

pub data Recovery (T : Type 0) : Type 0 where
  ready : Checkpoint T → ℕ → Recovery T
  invalid : RecoveryHazard → Recovery T

module _ {T : Type 0} where
  -- The loop over the cursors of the tail, `none` for an entry without a safe one.
  pub scan_tail : Checkpoint T → ℕ → List (Option ℕ) → Recovery T
  scan_tail checkpoint expected [] = ready checkpoint (expected - 1)
  scan_tail checkpoint expected (none ∷ rest) = invalid tail_cursor
  scan_tail checkpoint expected (some cursor ∷ rest) =
      let next = scan_tail checkpoint (suc expected) rest in
      if ltb cursor expected
      then invalid tail_reordered
      else if ltb expected cursor
      then invalid tail_gap
      else next

  -- The checkpoint is what parseRuntimeCheckpoint returns, `none` if that throws.
  pub verify_recovery : Option (Checkpoint T) → List (Option ℕ) → Recovery T
  verify_recovery none tail = invalid bad_checkpoint
  verify_recovery (some checkpoint) tail = scan_tail checkpoint (suc checkpoint.event_cursor) tail
