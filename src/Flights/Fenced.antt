-- ===== src/Flights/Fenced.antt =====
-- The fence between the versions of a resource, and that no flight is left pending.
use premise_protocol.Base.{
  ℕ, suc, ◌≤◌, ◌<◌, ◌≡◌, ◌≢◌, ◌⊎◌, inl, inr, sym, ap, subst, ◌∙◌, arith, Bool, true, false, Text,
  some, List, [], ◌∷◌, All, Dict, put_self,
}
use premise_protocol.Flight.{Flight, CurrentVersion, pending, Answer, Coordinator, Flight-discrete}
use premise_protocol.Flights.{same_flight, is_pending, is_live, enter, launch, operation}
use premise_protocol.Flights.Steps.{Event, ends, step, run}
use premise_protocol.Flights.Invariant.{Follows, Counted, set_ne, token_cases, put-Counted}
use premise_protocol.Flights.Effects.{Harmless, handle-settles}
use premise_protocol.Base.{ℕ_discrete}
use premise_protocol.Entries.{some_inj}
use premise_protocol.Flights.{coordinator}
use premise_protocol.Flights.Fence.{Blocked}
use premise_protocol.Flights.Blocked.{if_aborted-Blocked, launch-Blocked, run-Blocked}
use premise_protocol.Flights.Sound.{Unanswered, Sound}
use premise_protocol.Flights.Runs.{flights-Sound}

found : (P : Flight → Type 0) (f : Flight) (gs : List Flight) → is_live f gs ≡ true → All P gs → P f
found P f [] h a = cc
found P f (g ∷ gs) h a = elim (Flight-discrete f g) [
  | yes e ↦ subst P (sym e) a.0
  | no n ↦
      let other : same_flight f g ≡ false = ground (arith, n) in
      found P f gs (ground (arith, h, other)) a.1
]

-- A current version that is another than the flight's has a later token.
newer_token :
    (latest : Dict CurrentVersion) (f : Flight) (supersession : Text) (c d : CurrentVersion)
    → latest f.resource_key ≡ some c
    → latest f.resource_key ≡ some d
    → f.fencing_token ≤ c.fencing_token
    → (c.fencing_token ≡ f.fencing_token → c.supersession_key ≡ f.supersession_key)
    → d.supersession_key ≡ supersession
    → supersession ≢ f.supersession_key
    → f.fencing_token < c.fencing_token
newer_token latest f supersession c d a b m own same n =
    elim (ℕ_discrete c.fencing_token f.fencing_token) [
      | yes e ↦
          let mine = own e in
          let twice : c ≡ d = some_inj (sym a ∙ b) in
          absurd (n (sym same ∙ ap (λ x. x.supersession_key) (sym twice) ∙ mine))
      | no k ↦ omega (arith, m, k)
    ]

module _ {T : Type 0} where
  -- A token beyond the counter outdates what waits for the resource.
  enter-blocks :
      (f : Flight) (key supersession : Text) (s : Coordinator T)
      → f.identity < s.next_identity
      → f.fencing_token ≤ s.next_fencing_token
      → Counted s.latest_by_resource s.next_fencing_token
      → is_live f s.flights ≡ true
      → s.promises f ≡ pending
      → s.handled f ≡ false
      → Blocked f
          (enter key f.resource_key supersession
            (suc s.next_fencing_token)
            (suc s.next_fencing_token)
            s).0
  unfolding enter
  enter-blocks f key supersession s i m k l p h =
      let next = suc s.next_fencing_token in
      let c : CurrentVersion = record { supersession_key = supersession; fencing_token = next } in
      let new : Flight = (enter key f.resource_key supersession next next s).1 in
      let other : new ≢ f = λ e.
        let this : s.next_identity ≡ f.identity = ap (λ g. g.identity) e in
        omega (arith, this, i) in
      (
        omega (arith, i),
        put-Counted s.latest_by_resource next f.resource_key c (omega arith)
            (λ q d e. let old = k q d e in omega (arith, old)),
        inr (
          set_ne s.promises new f pending other ∙ p,
          set_ne s.handled new f false other ∙ h,
          ground (arith, l),
          (c, put_self s.latest_by_resource f.resource_key c, omega (arith, m)),
        ),
      )

  -- Another version of the resource outdates a flight that waits.
  launch-blocks :
      (f : Flight) (key supersession : Text) (b : Bool) (s : Coordinator T)
      → Sound s
      → is_live f s.flights ≡ true
      → s.promises f ≡ pending
      → supersession ≢ f.supersession_key
      → Blocked f (launch key f.resource_key supersession b s).0
  unfolding launch
  launch-blocks f key supersession b s i l p n =
      let (x, y, (c, e, m, own)) =
        found (Follows s.latest_by_resource s.next_fencing_token s.next_identity) f s.flights l
          i.followed in
      let running = found (Unanswered s.promises s.handled) f s.flights l i.unanswered p in
      let next = suc s.next_fencing_token in
      elim (token_cases (s.latest_by_resource f.resource_key) supersession s.next_fencing_token) [
        | inr t ↦
            rw (t, launch)
              (if_aborted-Blocked f b (enter key f.resource_key supersession next next s)
                (enter-blocks f key supersession s x y i.counted l p running))
        | inl (d, g, same, t) ↦
            let newer : f.fencing_token < c.fencing_token =
              newer_token s.latest_by_resource f supersession c d e g m own same n in
            launch-Blocked f key f.resource_key supersession b s
              (x, i.counted, inr (p, running, l, (c, e, newer)))
      ]

  module _ (decimal : ℕ → Text) where
    -- If a new flight for another version of the resource is launched, a live flight whose promise is
    -- pending never brings an outcome of the source: after any later events its promise is still pending,
    -- or it is rejected, or it resolved to UNKNOWN under its own token.
    pub launch-fences :
        (es later : List (Event T)) (f : Flight) (key supersession : Text) (b : Bool)
        → is_live f (run decimal es coordinator).flights ≡ true
        → (run decimal es coordinator).promises f ≡ pending
        → supersession ≢ f.supersession_key
        → let t =
            run decimal later
              (launch key f.resource_key supersession b (run decimal es coordinator)).0 in
          (t.promises f ≡ pending) ⊎ Harmless f.fencing_token (t.promises f)
    launch-fences es later f key supersession b l p n =
        let (x, k, state) =
          run-Blocked decimal f later
            (launch key f.resource_key supersession b (run decimal es coordinator)).0
            (launch-blocks f key supersession b (run decimal es coordinator)
              (flights-Sound decimal es) l p n) in
        elim state [ inl h ↦ inr h | inr (w, _, _, _) ↦ inl w ]

    -- Every flight is settled: a live flight whose promise is pending waits for the end of its operation,
    -- and however that ends, the promise is then no longer pending.
    pub ends-settles :
        (es : List (Event T)) (f : Flight) (a : Answer T)
        → is_live f (run decimal es coordinator).flights ≡ true
        → (run decimal es coordinator).promises f ≡ pending
        → is_pending ((step decimal (ends f a) (run decimal es coordinator)).promises f) ≡ false
    unfolding step
    ends-settles es f a l p =
        let s = run decimal es coordinator in
        let running =
          found (Unanswered s.promises s.handled) f s.flights l
            (flights-Sound decimal es).unanswered p in
        rw (l, running, step) (handle-settles f (operation f s a) s)
