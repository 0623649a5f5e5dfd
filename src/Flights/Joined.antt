-- ===== src/Flights/Joined.antt =====
-- Requests for the same validation share one flight.
use premise_protocol.Base.{
  ℕ, suc, ◌≡◌, ◌≢◌, inl, inr, refl, sym, ap, subst, ◌∙◌, arith, Bool, true, false, not, ◌&&◌, Text,
  text_eq, none, some, List, [], ◌∷◌, All, Bool-cases, Option-cases, if◌then◌else◌,
}
use premise_protocol.Json.{json_pair}
use premise_protocol.Flight.{
  Flight, FlightRequest, ScopeKeys, timeout, aborted, Coordinator, Flight-discrete,
}
use premise_protocol.Flights.{
  coordinator, same_flight, is_live, find_flight, delete_flight, token_for, enter, launch,
  join_or_launch, validate, abort_as_unknown, operation, clean,
}
use premise_protocol.Flights.Steps.{Event, asks, aborts, times_out, ends, cleans, step, run}
use premise_protocol.Flights.Invariant.{delete-All}
use premise_protocol.Flights.Effects.{abort-Frame, handle-Frame}

-- Of one key at most one flight is live.
abbrev Distinct : List Flight → Type 0
Distinct [] = Unit
Distinct (f ∷ fs) = All (λ g. g.key ≢ f.key) fs × Distinct fs

find_none : (key : Text) (fs : List Flight) → find_flight key fs ≡ none → All (λ g. g.key ≢ key) fs
unfolding find_flight
find_none key [] h = tt
find_none key (f ∷ fs) h = (λ same. ground (arith, h, same), find_none key fs (ground (arith, h)))

other_key :
    (f : Flight) (fs : List Flight) (key : Text)
    → is_live f fs ≡ true
    → All (λ g. g.key ≢ key) fs
    → f.key ≢ key
other_key f [] key h a = cc
other_key f (g ∷ gs) key h a = elim (Flight-discrete f g) [
  | yes e ↦ λ k. a.0 (ap (λ x. x.key) (sym e) ∙ k)
  | no n ↦
      let other : same_flight f g ≡ false = ground (arith, n) in
      other_key f gs key (ground (arith, h, other)) a.1
]

find_live :
    (f : Flight) (fs : List Flight)
    → Distinct fs
    → is_live f fs ≡ true
    → find_flight f.key fs ≡ some f
unfolding find_flight
find_live f [] d h = cc
find_live f (g ∷ gs) d h = elim (Flight-discrete f g) [
  | yes e ↦
      let this : text_eq g.key f.key ≡ true = ground (arith, e) in
      rw (this, find_flight) (ap some (sym e))
  | no n ↦
      let other : same_flight f g ≡ false = ground (arith, n) in
      let rest : is_live f gs ≡ true = ground (arith, h, other) in
      let keys = other_key f gs g.key rest d.0 in
      let this : text_eq g.key f.key ≡ false = ground (arith, keys) in
      rw (this, find_flight) (find_live f gs d.1 rest)
]

delete-Distinct : (f : Flight) (fs : List Flight) → Distinct fs → Distinct (delete_flight f fs)
unfolding delete_flight
delete-Distinct f [] d = tt
delete-Distinct f (g ∷ gs) d = elim (Bool-cases (same_flight f g)) [
  | inl e ↦ rw (e, delete_flight) d.1
  | inr e ↦
      rw (e, delete_flight) (delete-All (λ h. h.key ≢ g.key) f gs d.0, delete-Distinct f gs d.1)
]

module _ {T : Type 0} where
  launch-Distinct :
      (key r supersession : Text) (b : Bool) (s : Coordinator T)
      → find_flight key s.flights ≡ none
      → Distinct s.flights
      → Distinct (launch key r supersession b s).0.flights
  unfolding launch enter
  launch-Distinct key r supersession b s n d =
      if_aborted b
        (enter key r supersession
          (token_for (s.latest_by_resource r) supersession s.next_fencing_token).0
          (token_for (s.latest_by_resource r) supersession s.next_fencing_token).1 s)
        (find_none key s.flights n, d)
    where
      if_aborted :
          (b : Bool) (x : Coordinator T × Flight)
          → Distinct x.0.flights
          → Distinct (if b then abort_as_unknown x.1 aborted x.0 else x.0).flights
      if_aborted true x h = subst Distinct (abort-Frame x.1 aborted x.0).0 h
      if_aborted false x h = h

  module _ (decimal : ℕ → Text) where
    join_or_launch-Distinct :
        (key supersession : Text) (r : FlightRequest) (s : Coordinator T)
        → Distinct s.flights
        → Distinct (join_or_launch key supersession r s).0.flights
    unfolding join_or_launch
    join_or_launch-Distinct key supersession r s d =
        elim (Option-cases (find_flight key s.flights)) [
          | inl n ↦
              rw (n, join_or_launch)
                (launch-Distinct key (json_pair r.tenant_id r.resource) supersession
                  r.signal_aborted s n d)
          | inr (g, e) ↦ rw (e, join_or_launch) d
        ]

    step-Distinct :
        (e : Event T) (s : Coordinator T) → Distinct s.flights → Distinct (step decimal e s).flights
    unfolding step validate clean
    step-Distinct (asks r) s d = elim (Option-cases r.scope) [
      | inr (keys, e) ↦
          rw (e, step, validate) (join_or_launch-Distinct keys.sharing keys.supersession r s d)
      | inl e ↦
          rw (e, step, validate)
            (join_or_launch-Distinct _ _ r (record s { legacy_flight = suc s.legacy_flight }) d)
    ]
    step-Distinct (aborts g) s d = elim (Bool-cases (is_live g s.flights)) [
      | inl b ↦ rw (b, step) (subst Distinct (abort-Frame g aborted s).0 d)
      | inr b ↦ rw (b, step) d
    ]
    step-Distinct (times_out g) s d = elim (Bool-cases (is_live g s.flights)) [
      | inl b ↦ rw (b, step) (subst Distinct (abort-Frame g timeout s).0 d)
      | inr b ↦ rw (b, step) d
    ]
    step-Distinct (ends g a) s d = elim (Bool-cases (is_live g s.flights && not (s.handled g))) [
      | inl b ↦ rw (b, step) (subst Distinct (handle-Frame g (operation g s a) s).0 d)
      | inr b ↦ rw (b, step) d
    ]
    step-Distinct (cleans g) s d = elim (Bool-cases (is_live g s.flights && s.handled g)) [
      | inl b ↦ rw (b, step) (delete-Distinct g s.flights d)
      | inr b ↦ rw (b, step) d
    ]

    run-Distinct :
        (es : List (Event T)) (s : Coordinator T)
        → Distinct s.flights
        → Distinct (run decimal es s).flights
    unfolding run
    run-Distinct [] s d = d
    run-Distinct (e ∷ es) s d = run-Distinct es (step decimal e s) (step-Distinct e s d)

    -- After any events from the start, a request whose scope has the key of a live flight joins this very
    -- flight, however its other fields are, and changes nothing: of one key at most one flight is live.
    pub validate-joins :
        (es : List (Event T)) (f : Flight) (r : FlightRequest) (keys : ScopeKeys)
        → is_live f (run decimal es coordinator).flights ≡ true
        → r.scope ≡ some keys
        → keys.sharing ≡ f.key
        → validate decimal r (run decimal es coordinator) ≡ (run decimal es coordinator, f)
    unfolding validate join_or_launch
    validate-joins es f r keys l scope same =
        let s = run decimal es coordinator in
        let here : find_flight keys.sharing s.flights ≡ some f =
          ap (λ k. find_flight k s.flights) same
          ∙ find_live f s.flights (run-Distinct es coordinator tt) l in
        rw (scope, here, validate, join_or_launch) refl
