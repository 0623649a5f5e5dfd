-- ===== src/Flights/Runs.antt =====
-- The invariant holds in all runs of the coordinator.
use premise_protocol.Base.{
  ℕ, suc, ◌≤◌, ◌<◌, ◌≡◌, ◌⊎◌, inl, inr, refl, sym, ap, subst, ◌∙◌, arith, Bool, true, false, not,
  ◌&&◌, Text, some, List, [], ◌∷◌, All, put, put_self, Bool-cases, Option-cases, if◌then◌else◌,
}
use premise_protocol.Json.{json_pair}
use premise_protocol.Flight.{
  Flight, FlightRequest, CurrentVersion, timeout, aborted, pending, Coordinator, Flight-discrete,
}
use premise_protocol.Flights.{
  set, is_live, find_flight, enter, launch, join_or_launch, validate, abort_as_unknown, operation,
}
use premise_protocol.Flights.Steps.{Event, asks, aborts, times_out, ends, cleans, step, run}
use premise_protocol.Flights.Invariant.{
  Follows, All-map, later-Follows, again-Follows, set_self, set_ne, token_cases, put-Counted,
}
use premise_protocol.Flights.{coordinator}
use premise_protocol.Flights.Sound.{Unanswered, Sound, abort-Sound, ends-Sound, clean-Sound}

module _ {T : Type 0} where
  enter-Sound :
      (key r supersession : Text) (token next : ℕ) (s : Coordinator T)
      → token ≤ next
      → s.next_fencing_token ≤ next
      → ((s.latest_by_resource r
            ≡ some (record { supersession_key = supersession; fencing_token = token }))
          × (next ≡ s.next_fencing_token))
        ⊎ (s.next_fencing_token < token) × (token ≡ next)
      → Sound s
      → Sound (enter key r supersession token next s).0
  unfolding enter
  enter-Sound key r supersession token next s bound grows how i =
      let c : CurrentVersion = record { supersession_key = supersession; fencing_token = token } in
      let new : Flight = (enter key r supersession token next s).1 in
      record {
        followed = (
          (omega arith, bound, (c, put_self s.latest_by_resource r c, omega arith, λ e. refl)),
          All-map (Follows s.latest_by_resource s.next_fencing_token s.next_identity)
              (Follows (put s.latest_by_resource r c) next (suc s.next_identity)) s.flights
              (λ g w. elim how [
                | inl (again, e) ↦
                    subst (λ n. Follows (put s.latest_by_resource r c) n (suc s.next_identity) g)
                      (sym e)
                      (again-Follows s.latest_by_resource s.next_fencing_token s.next_identity r c g
                        again w)
                | inr (later, e) ↦
                    subst (λ n. Follows (put s.latest_by_resource r c) n (suc s.next_identity) g) e
                      (later-Follows s.latest_by_resource s.next_fencing_token s.next_identity token
                        r supersession g later w)
              ])
              i.followed,
        );
        counted =
            put-Counted s.latest_by_resource next r c bound
              (λ q d e. let old = i.counted q d e in omega (arith, old, grows));
        unanswered =
            (λ p. set_self s.handled new false, kept new s.flights i.followed i.unanswered);
      }
    where
      kept :
          (new : Flight) (gs : List Flight)
          → All (Follows s.latest_by_resource s.next_fencing_token s.next_identity) gs
          → All (Unanswered s.promises s.handled) gs
          → All (Unanswered (set s.promises new pending) (set s.handled new false)) gs
      kept new [] a b = tt
      kept new (g ∷ gs) a b = (
        λ p. elim (Flight-discrete new g) [
          | yes e ↦ subst (λ x. set s.handled new false x ≡ false) e (set_self s.handled new false)
          | no n ↦
              set_ne s.handled new g false n ∙ b.0 (sym (set_ne s.promises new g pending n) ∙ p)
        ],
        kept new gs a.1 b.1,
      )

  pub launch-Sound :
      (key r supersession : Text) (b : Bool) (s : Coordinator T)
      → Sound s
      → Sound (launch key r supersession b s).0
  unfolding launch
  launch-Sound key r supersession b s i =
      elim (token_cases (s.latest_by_resource r) supersession s.next_fencing_token) [
        | inr t ↦
            rw (t, launch)
              (abort_or b
                (enter key r supersession (suc s.next_fencing_token) (suc s.next_fencing_token) s)
                (enter-Sound key r supersession (suc s.next_fencing_token)
                  (suc s.next_fencing_token) s (omega arith) (omega arith) (inr (omega arith, refl))
                  i))
        | inl (c, e, same, t) ↦
            rw (t, launch)
              (abort_or b (enter key r supersession c.fencing_token s.next_fencing_token s) (
                enter-Sound key r supersession c.fencing_token s.next_fencing_token s
                  (i.counted r c e) (omega arith)
                  (inl (
                    e
                        ∙ ap
                            (λ x.
                              some
                                (record { supersession_key = x; fencing_token = c.fencing_token }))
                            same,
                    refl,
                  ))
                  i))
      ]
    where
      abort_or :
          (b : Bool) (x : Coordinator T × Flight)
          → Sound x.0
          → Sound (if b then abort_as_unknown x.1 aborted x.0 else x.0)
      abort_or true x h = abort-Sound x.1 aborted x.0 h
      abort_or false x h = h

  module _ (decimal : ℕ → Text) where
    join_or_launch-Sound :
        (key supersession : Text) (r : FlightRequest) (s : Coordinator T)
        → Sound s
        → Sound (join_or_launch key supersession r s).0
    unfolding join_or_launch
    join_or_launch-Sound key supersession r s h = elim (Option-cases (find_flight key s.flights)) [
      | inl n ↦
          rw (n, join_or_launch)
            (launch-Sound key (json_pair r.tenant_id r.resource) supersession r.signal_aborted s h)
      | inr (g, e) ↦ rw (e, join_or_launch) h
    ]

    validate-Sound :
        (r : FlightRequest) (s : Coordinator T) → Sound s → Sound (validate decimal r s).0
    unfolding validate
    validate-Sound r s h = elim (Option-cases r.scope) [
      | inr (keys, e) ↦ rw (e, validate) (join_or_launch-Sound keys.sharing keys.supersession r s h)
      | inl e ↦
          rw (e, validate)
            (join_or_launch-Sound _ _ r (record s { legacy_flight = suc s.legacy_flight })
              (record { followed = h.followed; counted = h.counted; unanswered = h.unanswered }))
    ]

    step-Sound : (e : Event T) (s : Coordinator T) → Sound s → Sound (step decimal e s)
    unfolding step
    step-Sound (asks r) s h = validate-Sound r s h
    step-Sound (aborts g) s h = elim (Bool-cases (is_live g s.flights)) [
      | inl b ↦ rw (b, step) (abort-Sound g aborted s h)
      | inr b ↦ rw (b, step) h
    ]
    step-Sound (times_out g) s h = elim (Bool-cases (is_live g s.flights)) [
      | inl b ↦ rw (b, step) (abort-Sound g timeout s h)
      | inr b ↦ rw (b, step) h
    ]
    step-Sound (ends g a) s h = elim (Bool-cases (is_live g s.flights && not (s.handled g))) [
      | inl b ↦ rw (b, step) (ends-Sound g (operation g s a) s h)
      | inr b ↦ rw (b, step) h
    ]
    step-Sound (cleans g) s h = elim (Bool-cases (is_live g s.flights && s.handled g)) [
      | inl b ↦ rw (b, step) (clean-Sound g s h)
      | inr b ↦ rw (b, step) h
    ]

    run_from-Sound : (es : List (Event T)) (s : Coordinator T) → Sound s → Sound (run decimal es s)
    unfolding run
    run_from-Sound [] s h = h
    run_from-Sound (e ∷ es) s h = run_from-Sound es (step decimal e s) (step-Sound e s h)

    -- After any events from the start, each live flight's resource has a current version, of the flight's
    -- own token or a later one, and of the flight's own version if it has its token; no token is beyond
    -- the counter; and a promise is pending only if the flight's operation has not ended.
    pub flights-Sound : (es : List (Event T)) → Sound (run decimal es coordinator)
    flights-Sound es =
        run_from-Sound es coordinator
          (record { followed = tt; counted = λ r c e. cc; unanswered = tt })
