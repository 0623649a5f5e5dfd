-- ===== src/Bursts/Coalesced.antt =====
-- What a plan keeps and what it drops.
use premise_protocol.Base.{
  ℕ, suc, ◌+◌, ◌-◌, ◌≡◌, ◌≢◌, ◌⊎◌, inl, inr, refl, ap, ◌∙◌, arith, true, false, not, ◌&&◌, ◌==◌,
  ltb, Text, none, some, List, [], ◌∷◌, ◌++◌, length, length-append, all, All,
}
use premise_protocol.Events.{is_snapshot}
use premise_protocol.Bursts.{
  StreamEvent, StreamCapability, ordered_events, authoritative_snapshot, delta_events,
  PreservedReason, delta_capability_missing, nothing_to_skip, coalesced, preserved, has_capability,
  same_stream, contiguous, latest_snapshot, plan_at, plan_from, plan_stream_burst,
}
use premise_protocol.Bursts.Snapshots.{
  drop_all, take_all, cons_tail, numbers, sequences, Deltas, contiguous_lem, latest-at,
  same_stream_lem,
}

module _ {T : Type 0} where
  -- When the events before a snapshot may be dropped.
  pub record MayDrop (capabilities : List StreamCapability) (first : StreamEvent T)
      (prefix : List (StreamEvent T)) (last : StreamEvent T) (deltas : List (StreamEvent T))
      : Type 0 where
    pub one_stream :
        All
          (λ e. (e.stream_id ≡ first.stream_id) × (e.tenant_id ≡ first.tenant_id))
          (first ∷ prefix ++ last ∷ deltas)
    pub numbered :
        sequences (first ∷ prefix ++ last ∷ deltas)
        ≡ numbers first.sequence (length (first ∷ prefix ++ last ∷ deltas))
    pub is_ordered : has_capability capabilities ordered_events ≡ true
    pub is_authoritative : has_capability capabilities authoritative_snapshot ≡ true
    pub is_last : is_snapshot last.kind ≡ true
    pub only_deltas : Deltas deltas
    pub takes_deltas : (has_capability capabilities delta_events ≡ true) ⊎ (deltas ≡ [])

  module _ (capabilities : List StreamCapability) (first : StreamEvent T) where
    beyond_last :
        (p : List (StreamEvent T)) (x : StreamEvent T) (d : List (StreamEvent T))
        → length (first ∷ p ++ x ∷ d) - 1 ≡ length (first ∷ p) + length d
    beyond_last p x d = omega (arith, length-append p (x ∷ d))

    plan_at-coalesces :
        (p : List (StreamEvent T)) (x : StreamEvent T) (d : List (StreamEvent T))
        → (has_capability capabilities delta_events ≡ true) ⊎ (d ≡ [])
        → plan_at capabilities first (first ∷ p ++ x ∷ d) (length (first ∷ p))
          ≡ coalesced first.stream_id first.tenant_id (x ∷ d) (sequences (first ∷ p))
    unfolding plan_at
    plan_at-coalesces p x d h =
        let size = beyond_last p x d in
        let test : (not (has_capability capabilities delta_events)
              && ltb (length (first ∷ p)) (length (first ∷ p ++ x ∷ d) - 1))
            ≡ false =
          elim h [
            | inl yes_delta ↦ rw yes_delta refl
            | inr empty ↦
                let zero_left : length d ≡ 0 = ap length empty in ground (arith, size, zero_left)
          ] in
        let nonzero : (length (first ∷ p) == 0) ≡ false = ground arith in
        rw (nonzero, test, drop_all p (x ∷ d), take_all p (x ∷ d), plan_at) refl

    pub plan_at-preserves :
        (p : List (StreamEvent T)) (x y : StreamEvent T) (d : List (StreamEvent T))
        → has_capability capabilities delta_events ≡ false
        → plan_at capabilities first (first ∷ p ++ x ∷ y ∷ d) (length (first ∷ p))
          ≡ preserved delta_capability_missing (first ∷ p ++ x ∷ y ∷ d)
    unfolding plan_at
    plan_at-preserves p x y d no_delta =
        let size = beyond_last p x (y ∷ d) in
        let test : ltb (length (first ∷ p)) (length (first ∷ p ++ x ∷ y ∷ d) - 1) ≡ true =
          ground (arith, size) in
        let nonzero : (length (first ∷ p) == 0) ≡ false = ground arith in
        rw (nonzero, no_delta, test, plan_at) refl

  pub plan_at-start :
      (capabilities : List StreamCapability) (first : StreamEvent T) (es : List (StreamEvent T))
      → plan_at capabilities first es 0 ≡ preserved nothing_to_skip es
  unfolding plan_at
  plan_at-start capabilities first es = refl

  pub kept_not_dropped :
      {r : PreservedReason} {s t : Text} {es fs : List (StreamEvent T)} {ns : List ℕ}
      → preserved r es ≢ coalesced s t fs ns
  kept_not_dropped h = cc

  pub preserved_inj :
      {r s : PreservedReason} {es fs : List (StreamEvent T)}
      → preserved r es ≡ preserved s fs
      → es ≡ fs
  preserved_inj h = cc

  pub coalesced_inj :
      {s t u v : Text} {es fs : List (StreamEvent T)} {ms ns : List ℕ}
      → coalesced s t es ms ≡ coalesced u v fs ns
      → (s ≡ u) × (t ≡ v) × (es ≡ fs) × (ms ≡ ns)
  coalesced_inj h = (cc, cc, cc, cc)

  -- What a plan that drops events says.
  abbrev pub Drops :
      List StreamCapability
      → List (StreamEvent T)
      → Text
      → Text
      → List (StreamEvent T)
      → List ℕ
      → Type 0
  Drops capabilities events stream tenant kept skipped =
      (first : StreamEvent T) × (p : List (StreamEvent T)) × (x : StreamEvent T) × (d : List
        (StreamEvent T))
      × (events ≡ first ∷ p ++ x ∷ d)
      × (kept ≡ x ∷ d)
      × (skipped ≡ sequences (first ∷ p))
      × (stream ≡ first.stream_id)
      × (tenant ≡ first.tenant_id)
      × MayDrop capabilities first p x d

  pub plan_from-at :
      (capabilities : List StreamCapability) (first : StreamEvent T) (p : List (StreamEvent T))
      (x : StreamEvent T) (d : List (StreamEvent T)) (es : List (StreamEvent T))
      → es ≡ p ++ x ∷ d
      → all (same_stream first) es ≡ true
      → contiguous es ≡ true
      → has_capability capabilities ordered_events ≡ true
      → has_capability capabilities authoritative_snapshot ≡ true
      → is_snapshot x.kind ≡ true
      → Deltas d
      → plan_from capabilities first es ≡ plan_at capabilities first es (length p)
  unfolding plan_from
  plan_from-at capabilities first p x d es e a b o u s t =
      let from_zero : 0 + length p ≡ length p = omega arith in
      let latest = ap (latest_snapshot 0 none) e ∙ latest-at 0 none p x d s t ∙ ap some from_zero in
      rw (a, b, o, u, latest, plan_from) refl

  -- Dropping is planned whenever it may be.
  pub may_drop :
      (capabilities : List StreamCapability) (first : StreamEvent T) (p : List (StreamEvent T))
      (x : StreamEvent T) (d : List (StreamEvent T))
      → MayDrop capabilities first p x d
      → plan_stream_burst capabilities (first ∷ p ++ x ∷ d)
        ≡ coalesced first.stream_id first.tenant_id (x ∷ d) (sequences (first ∷ p))
  unfolding plan_stream_burst
  may_drop capabilities first p x d m =
      let tail : sequences (p ++ x ∷ d) ≡ numbers (suc first.sequence) (length (p ++ x ∷ d)) =
        cons_tail m.numbered in
      plan_from-at capabilities first (first ∷ p) x d (first ∷ p ++ x ∷ d) refl
        ((same_stream_lem first (first ∷ p ++ x ∷ d)).1 m.one_stream)
        ((contiguous_lem first (p ++ x ∷ d)).1 tail) m.is_ordered m.is_authoritative m.is_last
        m.only_deltas
      ∙ plan_at-coalesces capabilities first p x d m.takes_deltas
