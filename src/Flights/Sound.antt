-- ===== src/Flights/Sound.antt =====
-- The invariant is kept by every event.
use premise_protocol.Base.{
  ℕ, ◌≡◌, ◌≢◌, inl, inr, sym, ap, subst, ◌∙◌, arith, Bool, true, false, Text, List, [], ◌∷◌, any,
  All, Dict, drop_key, drop_ne, Bool-cases,
}
use premise_protocol.Flight.{
  Flight, CurrentVersion, UnknownReason, Promise, pending, Answer, Coordinator, Flight-discrete,
}
use premise_protocol.Flights.{
  set, is_pending, of_resource, delete_flight, abort_as_unknown, handle, clean,
}
use premise_protocol.Flights.Invariant.{Follows, Counted, All-map, delete-All, set_ne, drop-Counted}
use premise_protocol.Flights.Effects.{
  Change, abort-Frame, abort-Change, handle-Frame, handle-Change, handle-settles,
}

-- Where no flight has a resource, forgetting its version changes nothing for the flights.
drop-Follows :
    (latest : Dict CurrentVersion) (next i : ℕ) (r : Text) (gs : List Flight)
    → any (of_resource r) gs ≡ false
    → All (Follows latest next i) gs
    → All (Follows (drop_key latest r) next i) gs
drop-Follows latest next i r [] n a = tt
drop-Follows latest next i r (g ∷ gs) n ((x, y, (c, e, l, s)), rest) =
    let other : r ≢ g.resource_key = λ same. ground (arith, n, same) in
    (
      (x, y, (c, drop_ne latest r g.resource_key other ∙ e, l, s)),
      drop-Follows latest next i r gs (ground (arith, n)) rest,
    )

All-both :
    {A : Type 0} (P Q : A → Type 0) (xs : List A) → All P xs → All Q xs → All (λ x. P x × Q x) xs
All-both P Q [] a b = tt
All-both P Q (x ∷ xs) a b = ((a.0, b.0), All-both P Q xs a.1 b.1)

module _ {T : Type 0} where
  -- The handlers of a flight have not run while its promise is pending.
  abbrev pub Unanswered : (Flight → Promise T) → (Flight → Bool) → Flight → Type 0
  Unanswered promises handled f = promises f ≡ pending → handled f ≡ false

  pub record Sound (s : Coordinator T) : Type 0 where
    pub followed : All (Follows s.latest_by_resource s.next_fencing_token s.next_identity) s.flights
    pub counted : Counted s.latest_by_resource s.next_fencing_token
    pub unanswered : All (Unanswered s.promises s.handled) s.flights

  pub carry :
      (s t : Coordinator T)
      → s.flights ≡ t.flights
      → s.latest_by_resource ≡ t.latest_by_resource
      → s.next_fencing_token ≡ t.next_fencing_token
      → s.next_identity ≡ t.next_identity
      → ((f : Flight) → Unanswered s.promises s.handled f → Unanswered t.promises t.handled f)
      → Sound s
      → Sound t
  carry s t a b c d w i = record {
    followed =
        subst (λ fs. All (Follows t.latest_by_resource t.next_fencing_token t.next_identity) fs) a
          (subst (λ l. All (Follows l t.next_fencing_token t.next_identity) s.flights) b
            (subst (λ n. All (Follows s.latest_by_resource n t.next_identity) s.flights) c
              (subst (λ n. All (Follows s.latest_by_resource s.next_fencing_token n) s.flights) d
                i.followed)));
    counted =
        subst (λ n. Counted t.latest_by_resource n) c
          (subst (λ l. Counted l s.next_fencing_token) b i.counted);
    unanswered =
        subst (λ fs. All (Unanswered t.promises t.handled) fs) a
          (All-map (Unanswered s.promises s.handled) (Unanswered t.promises t.handled) s.flights w
            i.unanswered);
  }

  pending_before :
      (latest : Dict CurrentVersion) (f : Flight) (p q : Promise T)
      → Change latest f p q
      → q ≡ pending
      → p ≡ pending
  pending_before latest f p q (inl e) h = sym e ∙ h
  pending_before latest f p q (inr (e, _)) h = e

  pub abort-Sound :
      (g : Flight) (r : UnknownReason) (s : Coordinator T)
      → Sound s
      → Sound (abort_as_unknown g r s)
  abort-Sound g r s =
      let (a, b, c, d, e) = abort-Frame g r s in
      carry s (abort_as_unknown g r s) a b c d (λ f w p.
        ap (λ m. m f) (sym e)
        ∙ w (
            pending_before s.latest_by_resource f _ _ (abort-Change s.latest_by_resource g f r s)
              p))

  pub ends-Sound :
      (g : Flight) (a : Answer T) (s : Coordinator T)
      → Sound s
      → Sound (record (handle g a s) { handled = set s.handled g true })
  ends-Sound g x s =
      let (a, b, c, d, e) = handle-Frame g x s in
      carry s (record (handle g x s) { handled = set s.handled g true }) a b c d
        (λ f w p. elim (Flight-discrete g f) [
          | no n ↦
              set_ne s.handled g f true n
              ∙ w (pending_before s.latest_by_resource f _ _ (handle-Change g f x s) p)
          | yes same ↦ absurd (
              pending_settled ((handle g x s).promises f) p (
                subst (λ y. is_pending ((handle g x s).promises y) ≡ false) same
                  (handle-settles g x s)))
        ])
    where
      pending_settled : (p : Promise T) → p ≡ pending → is_pending p ≢ false
      pending_settled p e h = ground (arith, e, h)

  pub clean-Sound : (g : Flight) (s : Coordinator T) → Sound s → Sound (clean g s)
  unfolding clean
  clean-Sound g s i =
      let rest =
        delete-All (Follows s.latest_by_resource s.next_fencing_token s.next_identity) g s.flights
          i.followed in
      let waits = delete-All (Unanswered s.promises s.handled) g s.flights i.unanswered in
      elim (Bool-cases (any (of_resource g.resource_key) (delete_flight g s.flights))) [
        | inl e ↦
            rw (e, clean) (record { followed = rest; counted = i.counted; unanswered = waits })
        | inr e ↦
            rw (e, clean)
              (record {
                followed =
                    drop-Follows s.latest_by_resource s.next_fencing_token s.next_identity
                      g.resource_key (delete_flight g s.flights) e rest;
                counted =
                    drop-Counted s.latest_by_resource s.next_fencing_token g.resource_key i.counted;
                unanswered = waits;
              })
      ]
