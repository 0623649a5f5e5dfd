-- ===== src/Tools/Cases.antt =====
-- What a step of the tool can do to its store, its actions in flight and its calls.
use premise_protocol.Base.{
  ◌<◌, ◌≡◌, ◌≢◌, ◌⊎◌, inl, inr, refl, ap, arith, true, not, ◌||◌, Text, text_eq, Option, none, some,
  [], ◌∷◌, ◌++◌, leb, length, Bool-cases, Option-cases,
}
use premise_protocol.Absence.{is_required}
use premise_protocol.Entries.{OrderedMap, lookup}
use premise_protocol.Tools.{
  Entry, IdempotencyStore, ActionResult, same_resource, is_given, valid_version, write, claim,
  claim_new, complete,
}
use premise_protocol.Tools.Answers.{
  ProofResource, ActionRequest, queued, GuardedTool, Handle, resource_of,
}
use premise_protocol.Tools.Guarded.{key_of, fingerprint_of, launch, join_or_launch, act}

module _ {V : Type 0} where
  pub length-write : (k : Text) (v : V) (es : OrderedMap V) → length (write k v es) ≡ length es
  unfolding write
  length-write k v [] = refl
  length-write k v ((j, w) ∷ es) = ground (arith, length-write k v es)

  pub lookup-write_self :
      (k : Text) (v w : V) (es : OrderedMap V)
      → lookup k es ≡ some w
      → lookup k (write k v es) ≡ some v
  unfolding write lookup
  lookup-write_self k v w [] h = cc
  lookup-write_self k v w ((j, u) ∷ es) h = ground (arith, h, lookup-write_self k v w es)

  pub lookup-write_ne :
      (k j : Text) (v : V) (es : OrderedMap V) → k ≢ j → lookup j (write k v es) ≡ lookup j es
  unfolding write lookup
  lookup-write_ne k j v [] n = refl
  lookup-write_ne k j v ((i, u) ∷ es) n = ground (arith, n, lookup-write_ne k j v es n)

  pub write-absent :
      (k j : Text) (v : V) (es : OrderedMap V) → lookup j (write k v es) ≡ none → lookup j es ≡ none
  unfolding write lookup
  write-absent k j v [] h = refl
  write-absent k j v ((i, u) ∷ es) h = ground (arith, h, write-absent k j v es)

module _ {R : Type 0} where
  -- A claim that is new enters an entry that was not there, with room for it; any other does nothing.
  pub claim_cases :
      (s : IdempotencyStore R) (key fingerprint : Text)
      → ((claim s key fingerprint).1 ≢ claim_new)
        ⊎ (lookup key s.entries ≡ none)
          × (length s.entries < s.max_entries)
          × (claim s key fingerprint ≡ (
            record s {
              entries =
                  s.entries ++ (key, record { fingerprint = fingerprint; completed = none }) ∷ [];
            },
            claim_new,
          ))
  unfolding claim
  claim_cases s key fingerprint =
      elim (Bool-cases (not (is_required key) || not (is_required fingerprint))) [
        | inl b ↦ inl (λ e. ground (arith, b, e))
        | inr g ↦ elim (Option-cases (lookup key s.entries)) [
          | inr (e, l) ↦ inl (λ h. ground (arith, g, l, h))
          | inl l ↦ elim (Bool-cases (leb s.max_entries (length s.entries))) [
            | inl full ↦ inl (λ h. ground (arith, g, l, full, h))
            | inr room ↦ inr (l, ground (arith, room), rw (g, l, room, claim) refl)
          ]
        ]
      ]

  -- A completion writes the result into an entry that is pending.
  pub complete_cases :
      (s : IdempotencyStore R) (key fingerprint : Text) (r : ActionResult R)
      → (complete s key fingerprint r ≡ none)
        ⊎ ((e : Entry R) × (lookup key s.entries ≡ some e)
            × (e.completed ≡ none)
            × (complete s key fingerprint r
                ≡ some (record s {
                  entries =
                      write key
                        (record { fingerprint = fingerprint; completed = some r })
                        s.entries;
                })))
  unfolding complete
  complete_cases s key fingerprint r = elim (Option-cases (lookup key s.entries)) [
    | inl l ↦ inl (rw (l, complete) refl)
    | inr (e, l) ↦ elim (Bool-cases (not (text_eq e.fingerprint fingerprint))) [
      | inl b ↦ inl (rw (l, b, complete) refl)
      | inr b ↦ elim (Option-cases e.completed) [
        | inr (x, d) ↦ inl (rw (l, b, d, complete) refl)
        | inl d ↦ inr (e, l, d, rw (l, b, d, complete) refl)
      ]
    ]
  ]

module _ {A R : Type 0} where
  -- The tool after an action was launched.
  abbrev pub launched : Text → Text → ActionRequest A → GuardedTool A R → GuardedTool A R
  launched key fingerprint q t = record t {
    store = record t.store {
      entries =
          t.store.entries ++ (key, record { fingerprint = fingerprint; completed = none }) ∷ [];
    };
    in_flight =
        (key, record { fingerprint = fingerprint; request = q; phase = queued }) ∷ t.in_flight;
  }

  -- When an action is launched: nothing is known of its key, and there is room for it.
  abbrev pub Launches : Text → Text → ActionRequest A → GuardedTool A R → GuardedTool A R → Type 0
  Launches key fingerprint q t u =
      (lookup key t.in_flight ≡ none)
      × (lookup key t.store.entries ≡ none)
      × (length t.store.entries < t.store.max_entries)
      × (u ≡ launched key fingerprint q t)

  launch_cases :
      (key fingerprint : Text) (q : ActionRequest A) (t : GuardedTool A R)
      → ((launch key fingerprint q t).0 ≡ t)
        ⊎ (lookup key t.store.entries ≡ none)
          × (length t.store.entries < t.store.max_entries)
          × ((launch key fingerprint q t).0 ≡ launched key fingerprint q t)
  unfolding launch
  launch_cases key fingerprint q t = elim (claim_cases t.store key fingerprint) [
    | inr (l, room, e) ↦
        let new : (claim t.store key fingerprint).1 ≡ claim_new = ap (λ x. x.1) e in
        inr (
          l,
          room,
          rw (new, launch)
              (ap
                (λ s. record t {
                  store = s;
                  in_flight =
                      (key, record { fingerprint = fingerprint; request = q; phase = queued })
                      ∷ t.in_flight;
                })
                (ap (λ x. x.0) e)),
        )
    | inl n ↦ inl (ground (arith, n))
  ]

  join_or_launch_cases :
      (key fingerprint : Text) (q : ActionRequest A) (t : GuardedTool A R)
      → ((join_or_launch key fingerprint q t).0 ≡ t)
        ⊎ Launches key fingerprint q t (join_or_launch key fingerprint q t).0
  unfolding join_or_launch
  join_or_launch_cases key fingerprint q t = elim (Option-cases (lookup key t.in_flight)) [
    | inr (f, l) ↦ elim (Bool-cases (text_eq f.fingerprint fingerprint)) [
      | inl b ↦ inl (rw (l, b, join_or_launch) refl)
      | inr b ↦ inl (rw (l, b, join_or_launch) refl)
    ]
    | inl l ↦ elim (launch_cases key fingerprint q t) [
      | inl e ↦ inl (rw (l, join_or_launch) e)
      | inr (k, room, e) ↦ inr (l, k, room, rw (l, join_or_launch) e)
    ]
  ]

  -- What act launches carries the version of the proof that it was given, for the proof's resource.
  pub act_cases :
      (canonical : A → Option Text) (h : Handle) (a : A) (idempotency_key : Text)
      (t : GuardedTool A R)
      → ((act canonical h a idempotency_key t).0 ≡ t)
        ⊎ ((p : ProofResource) × (digest : Text) × (t.ready h.identity ≡ some p)
            × (same_resource p.resource (resource_of h) ≡ true)
            × Launches
                (key_of (resource_of h) idempotency_key)
                (fingerprint_of (resource_of h) p.version digest)
                (record {
                  resource = resource_of h;
                  expected_version = p.version;
                  idempotency_key = idempotency_key;
                  action = a;
                })
                t
                (act canonical h a idempotency_key t).0)
  unfolding act
  act_cases canonical h a idempotency_key t = elim (Option-cases (t.ready h.identity)) [
    | inl n ↦ inl (rw (n, act) refl)
    | inr (p, e) ↦ elim (Bool-cases (same_resource p.resource (resource_of h))) [
      | inr n ↦ inl (rw (e, n, act) refl)
      | inl s ↦ elim (Bool-cases (is_given (valid_version h.version))) [
        | inr n ↦ inl (rw (e, s, n, act) refl)
        | inl v ↦ elim (Bool-cases (is_required idempotency_key)) [
          | inr n ↦ inl (rw (e, s, v, n, act) refl)
          | inl k ↦ elim (Option-cases (canonical a)) [
            | inl n ↦ inl (rw (e, s, v, k, n, act) refl)
            | inr (digest, c) ↦
                elim (join_or_launch_cases (key_of (resource_of h) idempotency_key)
                  (fingerprint_of (resource_of h) p.version digest)
                  (record {
                    resource = resource_of h;
                    expected_version = p.version;
                    idempotency_key = idempotency_key;
                    action = a;
                  })
                  t) [
                    | inl same ↦ inl (rw (e, s, v, k, c, act) same)
                    | inr (x, y, z, w) ↦ inr (p, digest, e, s, (x, y, z, rw (e, s, v, k, c, act) w))
                  ]
          ]
        ]
      ]
    ]
  ]
