-- ===== src/Flights/Blocked.antt =====
-- Every event keeps a flight for an older version blocked.
use premise_protocol.Base.{
  ℕ, suc, ◌≤◌, ◌<◌, ◌≡◌, ◌≢◌, ◌⊎◌, inl, inr, sym, ap, subst, ◌∙◌, arith, Bool, true, false, not,
  ◌&&◌, Text, Text-discrete, Option, some, List, [], ◌∷◌, Dict, put, put_self, put_ne, Bool-cases,
  Option-cases, if◌then◌else◌,
}
use premise_protocol.Json.{json_pair}
use premise_protocol.Flight.{
  Flight, FlightRequest, CurrentVersion, timeout, aborted, pending, Coordinator,
}
use premise_protocol.Flights.{
  is_live, find_flight, enter, launch, join_or_launch, validate, abort_as_unknown, operation,
}
use premise_protocol.Flights.Steps.{Event, asks, aborts, times_out, ends, cleans, step, run}
use premise_protocol.Flights.Invariant.{set_ne, token_cases, put-Counted}
use premise_protocol.Flights.Effects.{Harmless}
use premise_protocol.Flights.Fence.{Outdated, Blocked, abort-Blocked, ends-Blocked, clean-Blocked}

put-Outdated :
    (latest : Dict CurrentVersion) (f : Flight) (r : Text) (c : CurrentVersion)
    → (latest r ≡ some c) ⊎ (f.fencing_token < c.fencing_token)
    → Outdated latest f
    → Outdated (put latest r c) f
put-Outdated latest f r c how (d, e, l) = elim (Text-discrete r f.resource_key) [
  | no n ↦ (d, put_ne latest r f.resource_key c n ∙ e, l)
  | yes same ↦ (
    c,
    subst (λ k. put latest r c k ≡ some c) same (put_self latest r c),
    elim how [
      | inr later ↦ later
      | inl again ↦ same_version (subst (λ k. latest k ≡ some c) same again) e l
    ],
  )
]
  where
    same_version :
        {o : Option CurrentVersion} {d : CurrentVersion}
        → o ≡ some c
        → o ≡ some d
        → f.fencing_token < d.fencing_token
        → f.fencing_token < c.fencing_token
    same_version a b l = ground (arith, a, b, l)

module _ {T : Type 0} where
  -- A new flight, under the current token or the next one, keeps others blocked.
  enter-Blocked :
      (f : Flight) (key r supersession : Text) (token next : ℕ) (s : Coordinator T)
      → s.next_fencing_token ≤ next
      → token ≤ next
      → (s.latest_by_resource r
          ≡ some (record { supersession_key = supersession; fencing_token = token }))
        ⊎ (s.next_fencing_token < token)
      → Blocked f s
      → Blocked f (enter key r supersession token next s).0
  unfolding enter
  enter-Blocked f key r supersession token next s grows bound how (i, k, state) =
      let new : Flight = (enter key r supersession token next s).1 in
      let other : new ≢ f = λ e.
        let this : s.next_identity ≡ f.identity = ap (λ g. g.identity) e in
        omega (arith, this, i) in
      let same = set_ne s.promises new f pending other in
      (
        omega (arith, i),
        put-Counted s.latest_by_resource next r
            (record { supersession_key = supersession; fencing_token = token }) bound
            (λ q c e. let old = k q c e in omega (arith, old, grows)),
        elim state [
          | inl h ↦ inl (subst (Harmless f.fencing_token) (sym same) h)
          | inr (p, h, l, (c, e, m)) ↦
              let below = k f.resource_key c e in
              inr (
                same ∙ p,
                set_ne s.handled new f false other ∙ h,
                ground (arith, l),
                put-Outdated s.latest_by_resource f r
                    (record { supersession_key = supersession; fencing_token = token })
                    (elim how [
                      | inl again ↦ inl again
                      | inr later ↦ inr (omega (arith, later, m, below))
                    ])
                    (c, e, m),
              )
        ],
      )

  pub if_aborted-Blocked :
      (f : Flight) (b : Bool) (x : Coordinator T × Flight)
      → Blocked f x.0
      → Blocked f (if b then abort_as_unknown x.1 aborted x.0 else x.0)
  if_aborted-Blocked f true x h = abort-Blocked f x.1 aborted x.0 h
  if_aborted-Blocked f false x h = h

  pub launch-Blocked :
      (f : Flight) (key r supersession : Text) (b : Bool) (s : Coordinator T)
      → Blocked f s
      → Blocked f (launch key r supersession b s).0
  unfolding launch
  launch-Blocked f key r supersession b s blocked =
      elim (token_cases (s.latest_by_resource r) supersession s.next_fencing_token) [
        | inr t ↦
            rw (t, launch)
              (if_aborted-Blocked f b
                (enter key r supersession (suc s.next_fencing_token) (suc s.next_fencing_token) s)
                (enter-Blocked f key r supersession (suc s.next_fencing_token)
                  (suc s.next_fencing_token) s (omega arith) (omega arith) (inr (omega arith))
                  blocked))
        | inl (c, e, same, t) ↦
            rw (t, launch)
              (if_aborted-Blocked f b
                (enter key r supersession c.fencing_token s.next_fencing_token s)
                (enter-Blocked f key r supersession c.fencing_token s.next_fencing_token s
                  (omega arith) (blocked.1 r c e)
                  (inl (
                    e
                    ∙ ap
                        (λ x.
                          some (record { supersession_key = x; fencing_token = c.fencing_token }))
                        same))
                  blocked))
      ]

  module _ (decimal : ℕ → Text) where
    join_or_launch-Blocked :
        (f : Flight) (key supersession : Text) (r : FlightRequest) (s : Coordinator T)
        → Blocked f s
        → Blocked f (join_or_launch key supersession r s).0
    unfolding join_or_launch
    join_or_launch-Blocked f key supersession r s h =
        elim (Option-cases (find_flight key s.flights)) [
          | inl n ↦
              rw (n, join_or_launch)
                (launch-Blocked f key (json_pair r.tenant_id r.resource) supersession
                  r.signal_aborted s h)
          | inr (g, e) ↦ rw (e, join_or_launch) h
        ]

    validate-Blocked :
        (f : Flight) (r : FlightRequest) (s : Coordinator T)
        → Blocked f s
        → Blocked f (validate decimal r s).0
    unfolding validate
    validate-Blocked f r s h = elim (Option-cases r.scope) [
      | inr (keys, e) ↦
          rw (e, validate) (join_or_launch-Blocked f keys.sharing keys.supersession r s h)
      | inl e ↦
          rw (e, validate)
            (join_or_launch-Blocked f _ _ r (record s { legacy_flight = suc s.legacy_flight }) h)
    ]

    step-Blocked :
        (f : Flight) (e : Event T) (s : Coordinator T) → Blocked f s → Blocked f (step decimal e s)
    unfolding step
    step-Blocked f (asks r) s h = validate-Blocked f r s h
    step-Blocked f (aborts g) s h = elim (Bool-cases (is_live g s.flights)) [
      | inl b ↦ rw (b, step) (abort-Blocked f g aborted s h)
      | inr b ↦ rw (b, step) h
    ]
    step-Blocked f (times_out g) s h = elim (Bool-cases (is_live g s.flights)) [
      | inl b ↦ rw (b, step) (abort-Blocked f g timeout s h)
      | inr b ↦ rw (b, step) h
    ]
    step-Blocked f (ends g a) s h = elim (Bool-cases (is_live g s.flights && not (s.handled g))) [
      | inl b ↦ rw (b, step) (ends-Blocked f g (operation g s a) s h)
      | inr b ↦ rw (b, step) h
    ]
    step-Blocked f (cleans g) s h = elim (Bool-cases (is_live g s.flights && s.handled g)) [
      | inl b ↦
          let done : s.handled g ≡ true = ground (arith, b) in
          rw (b, step) (clean-Blocked f g s done h)
      | inr b ↦ rw (b, step) h
    ]

    pub run-Blocked :
        (f : Flight) (es : List (Event T)) (s : Coordinator T)
        → Blocked f s
        → Blocked f (run decimal es s)
    unfolding run
    run-Blocked f [] s h = h
    run-Blocked f (e ∷ es) s h = run-Blocked f es (step decimal e s) (step-Blocked f e s h)
