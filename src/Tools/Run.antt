-- ===== src/Tools/Run.antt =====
-- The events of a guarded tool in any order: each await and each microtask is a step.
use premise_protocol.Base.{ℕ, Text, codes, Option, none, some, List, [], ◌∷◌}
use premise_protocol.Entries.{lookup, remove}
use premise_protocol.Tools.{
  Resource, VersionReference, version, valid_version, unknown_outcome, Reply, CheckReply,
  RevalidationReply, ActionReply, ActionResult, write, complete,
}
use premise_protocol.Tools.Answers.{
  ActionRequest, queued, calling, answered, GuardedTool, Handle, set_at,
}
use premise_protocol.Tools.Guarded.{refuses, check, revalidate, act, perform}

-- Where the tool holds a version object that a callback gave: in a stored check, in a proof, or in the
-- request of an action in flight.
pub data Place : Type 0 where
  of_check of_proof : ℕ → Place
  of_flight : Text → Place

-- `rewrites` is a change of such an object by another holder of it. One that several places share
-- changes in one such event for each.
pub data Event (A R : Type 0) : Type 0 where
  checks : Resource → Reply CheckReply → Event A R
  revalidates : Handle → Reply RevalidationReply → Event A R
  acts : Handle → A → Text → Event A R
  starts : Text → Event A R
  finishes : Text → Reply (ActionReply R) → Event A R
  forgets : Text → Event A R
  rewrites : Place → VersionReference → Event A R

abbrev rewritten : Option VersionReference → VersionReference → Option VersionReference
rewritten none v = none
rewritten (some u) v = valid_version (version v)

module _ {A R : Type 0} where
  -- The microtask of a launched action calls the side effect.
  unfoldable pub start : Text → GuardedTool A R → GuardedTool A R
  start key t = elim (lookup key t.in_flight) [
    | none ↦ t
    | some f ↦ elim f.phase [
      | queued ↦ record t {
        in_flight = write key (record f { phase = calling }) t.in_flight;
        calls = (key, f.request) ∷ t.calls;
      }
      | _ ↦ t
    ]
  ]

  abbrev pub store_unavailable : ActionRequest A → ActionResult R
  store_unavailable q =
      refuses unknown_outcome q.resource (some q.expected_version)
        (codes "IDEMPOTENCY_STORE_UNAVAILABLE")

  -- The side effect has ended: its result is completed in the store.
  unfoldable pub finish : Text → Reply (ActionReply R) → GuardedTool A R → GuardedTool A R
  finish key reply t = elim (lookup key t.in_flight) [
    | none ↦ t
    | some f ↦ elim f.phase [
      | calling ↦
          let r = perform f.request reply in
          elim (complete t.store key f.fingerprint r) [
            | none ↦ record t {
              in_flight =
                  write key (record f { phase = answered (store_unavailable f.request) })
                    t.in_flight;
            }
            | some store ↦ record t {
              store = store;
              in_flight = write key (record f { phase = answered r }) t.in_flight;
            }
          ]
      | _ ↦ t
    ]
  ]

  -- The deletion of `finally`, after the promise has its result.
  unfoldable pub forget : Text → GuardedTool A R → GuardedTool A R
  forget key t = elim (lookup key t.in_flight) [
    | none ↦ t
    | some f ↦ elim f.phase [ answered r ↦ record t { in_flight = remove key t.in_flight } | _ ↦ t ]
  ]

  unfoldable pub rewrite : Place → VersionReference → GuardedTool A R → GuardedTool A R
  rewrite (of_check i) v t = elim (t.checks i) [
    | none ↦ t
    | some c ↦ record t {
      checks = set_at i (record c { version = rewritten c.version v }) t.checks;
    }
  ]
  rewrite (of_proof i) v t = elim (t.ready i) [
    | none ↦ t
    | some p ↦ record t { ready = set_at i (record p { version = v }) t.ready }
  ]
  rewrite (of_flight key) v t = elim (lookup key t.in_flight) [
    | none ↦ t
    | some f ↦ record t {
      in_flight =
          write key (record f { request = record (f.request) { expected_version = v } })
            t.in_flight;
    }
  ]

  unfoldable pub step : (A → Option Text) → Event A R → GuardedTool A R → GuardedTool A R
  step canonical (checks input reply) t = check input reply t
  step canonical (revalidates h reply) t = revalidate h reply t
  step canonical (acts h action key) t = (act canonical h action key t).0
  step canonical (starts key) t = start key t
  step canonical (finishes key reply) t = finish key reply t
  step canonical (forgets key) t = forget key t
  step canonical (rewrites place v) t = rewrite place v t

  unfoldable pub run : (A → Option Text) → List (Event A R) → GuardedTool A R → GuardedTool A R
  run canonical [] t = t
  run canonical (e ∷ es) t = run canonical es (step canonical e t)
