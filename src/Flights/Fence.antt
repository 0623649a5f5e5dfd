-- ===== src/Flights/Fence.antt =====
-- A flight for an older version never brings an outcome of the source.
use premise_protocol.Base.{
  ℕ, ◌<◌, ◌≡◌, ◌≢◌, ◌⊎◌, inl, inr, refl, sym, ap, subst, ◌∙◌, arith, Bool, true, false, some, List,
  [], ◌∷◌, any, Dict, drop_ne, Bool-cases,
}
use premise_protocol.Flight.{
  Flight, CurrentVersion, UnknownReason, Outcome, Promise, pending, Answer, Coordinator,
  Flight-discrete,
}
use premise_protocol.Flights.{
  same_flight, set, is_pending, is_live, of_resource, delete_flight, is_current, abort_as_unknown,
  handle, clean,
}
use premise_protocol.Flights.Invariant.{Counted, set_ne, drop-Counted, delete-is_live}
use premise_protocol.Flights.Effects.{
  Harmless, Change, abort-Frame, abort-Change, handle-Frame, handle-Change, handle-settles,
}

abbrev pub Outdated : Dict CurrentVersion → Flight → Type 0
Outdated latest f =
    (c : CurrentVersion) × (latest f.resource_key ≡ some c) × (f.fencing_token < c.fencing_token)

not_current :
    {T : Type 0} (latest : Dict CurrentVersion) (f : Flight) (o : Outcome T)
    → Outdated latest f
    → is_current (latest f.resource_key) f o ≢ true
unfolding is_current
not_current latest f o (c, e, l) h = ground (arith, e, l, h)

live-any :
    (f : Flight) (gs : List Flight)
    → is_live f gs ≡ true
    → any (of_resource f.resource_key) gs ≡ true
live-any f [] h = h
live-any f (g ∷ gs) h = elim (Flight-discrete f g) [
  | yes e ↦ ground (arith, e)
  | no n ↦
      let rest = live-any f gs in
      let other : same_flight f g ≡ false = ground (arith, n) in ground (arith, rest, h, other)
]

module _ {T : Type 0} where
  -- A flight that can bring no outcome of the source: it brought none, or it waits while the current
  -- version of its resource has a later token.
  abbrev pub Waiting : Flight → Coordinator T → Type 0
  Waiting f s =
      (s.promises f ≡ pending)
      × (s.handled f ≡ false)
      × (is_live f s.flights ≡ true)
      × Outdated s.latest_by_resource f

  abbrev pub Blocked : Flight → Coordinator T → Type 0
  Blocked f s =
      (f.identity < s.next_identity)
      × Counted s.latest_by_resource s.next_fencing_token
      × (Harmless f.fencing_token (s.promises f) ⊎ Waiting f s)

  Harmless-settled : (token : ℕ) (p : Promise T) → Harmless token p → p ≢ pending
  Harmless-settled token p (inl e) h = cc
  Harmless-settled token p (inr (r, e)) h = cc

  -- What changes promises and flags only keeps a flight blocked.
  carry :
      (f : Flight) (s t : Coordinator T)
      → s.flights ≡ t.flights
      → s.latest_by_resource ≡ t.latest_by_resource
      → s.next_fencing_token ≡ t.next_fencing_token
      → s.next_identity ≡ t.next_identity
      → (t.promises f ≡ pending → s.handled f ≡ false → t.handled f ≡ false)
      → Change s.latest_by_resource f (s.promises f) (t.promises f)
      → Blocked f s
      → Blocked f t
  carry f s t a b c d w change (i, k, state) = (
    subst (λ n. f.identity < n) d i,
    subst (λ n. Counted t.latest_by_resource n) c (subst (λ l. Counted l s.next_fencing_token) b k),
    next state change,
  )
    where
      next :
          Harmless f.fencing_token (s.promises f) ⊎ Waiting f s
          → Change s.latest_by_resource f (s.promises f) (t.promises f)
          → Harmless f.fencing_token (t.promises f) ⊎ Waiting f t
      next (inl h) (inl e) = inl (subst (Harmless f.fencing_token) (sym e) h)
      next (inl h) (inr (p, _)) = absurd (Harmless-settled f.fencing_token (s.promises f) h p)
      next (inr (p, h, l, o)) (inl e) =
          inr (
            e ∙ p,
            w (e ∙ p) h,
            subst (λ fs. is_live f fs ≡ true) a l,
            subst (λ m. Outdated m f) b o,
          )
      next (inr x) (inr (p, inl h)) = inl h
      next (inr (p, h, l, o)) (inr (_, inr (out, e, current))) =
          absurd (not_current s.latest_by_resource f out o current)

  pub abort-Blocked :
      (f g : Flight) (r : UnknownReason) (s : Coordinator T)
      → Blocked f s
      → Blocked f (abort_as_unknown g r s)
  abort-Blocked f g r s =
      let (a, b, c, d, e) = abort-Frame g r s in
      carry f s (abort_as_unknown g r s) a b c d (λ _ h. ap (λ m. m f) (sym e) ∙ h)
        (abort-Change s.latest_by_resource g f r s)

  pub ends-Blocked :
      (f g : Flight) (a : Answer T) (s : Coordinator T)
      → Blocked f s
      → Blocked f (record (handle g a s) { handled = set s.handled g true })
  ends-Blocked f g x s =
      let (a, b, c, d, e) = handle-Frame g x s in
      carry f s (record (handle g x s) { handled = set s.handled g true }) a b c d
        (λ p h. elim (Flight-discrete g f) [
          | no n ↦ set_ne s.handled g f true n ∙ h
          | yes same ↦
              let settled =
                subst (λ y. is_pending ((handle g x s).promises y) ≡ false) same
                  (handle-settles g x s) in
              absurd (pending_settled ((handle g x s).promises f) p settled)
        ])
        (handle-Change g f x s)
    where
      pending_settled : (p : Promise T) → p ≡ pending → is_pending p ≢ false
      pending_settled p e h = ground (arith, e, h)

  pub clean-Blocked :
      (f g : Flight) (s : Coordinator T) → s.handled g ≡ true → Blocked f s → Blocked f (clean g s)
  unfolding clean
  clean-Blocked f g s h (i, k, state) = (
    i,
    elim (Bool-cases (any (of_resource g.resource_key) (delete_flight g s.flights))) [
      | inl e ↦ rw (e, clean) k
      | inr e ↦
          rw (e, clean) (drop-Counted s.latest_by_resource s.next_fencing_token g.resource_key k)
    ],
    elim state [
      | inl done ↦ inl done
      | inr (p, w, l, (c, e, m)) ↦
          let other : f ≢ g = λ same. handled_differs (s.handled f) w (ap s.handled same ∙ h) in
          let stays = delete-is_live f g s.flights other l in
          inr (p, w, stays, (c, kept stays ∙ e, m))
    ],
  )
    where
      handled_differs : (b : Bool) → b ≡ false → b ≢ true
      handled_differs b x y = cc

      kept :
          is_live f (delete_flight g s.flights) ≡ true
          → (clean g s).latest_by_resource f.resource_key ≡ s.latest_by_resource f.resource_key
      kept stays =
          elim (Bool-cases (any (of_resource g.resource_key) (delete_flight g s.flights))) [
            | inl e ↦ rw (e, clean) refl
            | inr e ↦
                let other : g.resource_key ≢ f.resource_key = λ same.
                  handled_differs (any (of_resource g.resource_key) (delete_flight g s.flights)) e (
                    subst (λ r. any (of_resource r) (delete_flight g s.flights) ≡ true) (sym same)
                      (live-any f (delete_flight g s.flights) stays)) in
                rw (e, clean) (drop_ne s.latest_by_resource g.resource_key f.resource_key other)
          ]
