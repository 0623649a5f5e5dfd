-- ===== src/Streams/Redelivered.antt =====
-- An event that comes twice.
use premise_protocol.Base.{
  ℕ, ◌≡◌, ◌≢◌, List, [], ◌∷◌, Bool, Dict, put, Text, Text-discrete, ℕ_discrete, ◌⊎◌, inl, inr, sym,
  ap, subst, ◌∙◌, arith, true, text_eq, Option, none, some, Bool-cases,
}
use premise_protocol.Entries.{some_inj}
use premise_protocol.Events.{is_snapshot}
use premise_protocol.Bursts.{StreamEvent}
use premise_protocol.Streams.{
  Host, StreamState, Runtime, ApplyResult, is_applied, is_duplicate, repair_required, RepairReason,
  waiting_at, state_of, see, plain, valid_event, stream_repair_required, receive_event,
  apply_stream_event,
}
use premise_protocol.Tools.Once.{clash}
use premise_protocol.Streams.Window.{state_of-put, state_of-put_ne}
use premise_protocol.Streams.Cases.{apply_event-streams, apply_stream_event_cases}

module _ {T S C F J : Type 0} (host : Host T S C F J) where
  abbrev pub Answers : Runtime S C F J → StreamEvent T → Runtime S C F J → ApplyResult → Type 0
  Answers r e q o = apply_stream_event host r e ≡ (q, some o)

  -- Only an event that passes the tests is answered.
  no_answer :
      {A : Type 0} {r q : Runtime S C F J} {a : A} {p : Runtime S C F J × Option A}
      → p ≡ (r, none)
      → p ≡ (q, some a)
      → ⊥
  no_answer stops h = let e = ap (λ x. x.1) (sym stops ∙ h) in cc

  passes :
      (r q : Runtime S C F J) (e : StreamEvent T) (o : ApplyResult)
      → Answers r e q o
      → (valid_event host e ≡ true) × (text_eq e.tenant_id r.tenant_id ≡ true)
  unfolding apply_stream_event
  passes r q e o h = elim (Bool-cases (valid_event host e)) [
    | inr bad ↦ absurd (no_answer {r = r} (ground (arith, bad)) h)
    | inl valid ↦ elim (Bool-cases (text_eq e.tenant_id r.tenant_id)) [
      | inr foreign ↦ absurd (no_answer {r = r} (ground (arith, valid, foreign)) h)
      | inl same ↦ (valid, same)
    ]
  ]

  -- The runtime takes events of this tenant, and the stream has seen this one.
  abbrev Remembers : StreamEvent T → Runtime S C F J → Type 0
  Remembers e r =
      ((state_of r.stream_states e.stream_id).seen e.sequence ≡ some (host.fingerprint e))
      × (text_eq e.tenant_id r.tenant_id ≡ true)

  remembered :
      (q : Runtime S C F J) (e : StreamEvent T)
      → valid_event host e ≡ true
      → Remembers e q
      → Answers q e q (is_duplicate e.stream_id e.sequence)
  unfolding apply_stream_event receive_event
  remembered q e valid (seen, same) = ground (arith, valid, same, seen)

  see_self : (s : StreamState) (n : ℕ) (f : Text) (snap : Bool) → (see s n f snap).seen n ≡ some f
  unfolding see
  see_self s n f snap = ground arith

  see_other :
      (s : StreamState) (n m : ℕ) (f g : Text) (snap : Bool)
      → s.seen m ≡ some g
      → s.seen n ≡ none
      → (see s n f snap).seen m ≡ some g
  unfolding see
  see_other s n m f g snap there unseen = elim (ℕ_discrete m n) [
    | yes e ↦ absurd (clash (subst (λ (j : ℕ). s.seen j ≡ none) (sym e) unseen) there)
    | no ne ↦ ground (arith, there, ne)
  ]

  -- The answer asks for no repair of the stream.
  abbrev pub NoRepair : Text → Runtime S C F J × Option ApplyResult → Type 0
  NoRepair k out = (n : ℕ) (why : RepairReason) → out.1 ≢ some (repair_required k n why)

  Remembers-next :
      (r : Runtime S C F J) (e f : StreamEvent T)
      → NoRepair e.stream_id (apply_stream_event host r f)
      → Remembers e r
      → Remembers e (apply_stream_event host r f).0
  unfolding stream_repair_required
  Remembers-next r e f calm (seen, tenant) = elim (apply_stream_event_cases host r f) [
    | inl (inl q) ↦
        subst (λ (o : Runtime S C F J × Option ApplyResult). Remembers e o.0) (sym q) (seen, tenant)
    | inl (inr (known, q)) ↦
        subst (λ (o : Runtime S C F J × Option ApplyResult). Remembers e o.0) (sym q) (seen, tenant)
    | inr (inl (why, q)) ↦
        let other : f.stream_id ≢ e.stream_id = λ at.
          calm f.sequence why
            (ap (λ o. o.1) q ∙ ap (λ (k : Text). some (repair_required k f.sequence why)) at) in
        subst (λ (o : Runtime S C F J × Option ApplyResult). Remembers e o.0) (sym q)
          (
            ap (λ (s : StreamState). s.seen e.sequence)
                  (state_of-put_ne r.stream_states f.stream_id e.stream_id (waiting_at f.sequence)
                    other)
                ∙ seen,
            tenant,
          )
    | inr (inr s) ↦
        let st = state_of r.stream_states f.stream_id in
        let next = see st f.sequence (host.fingerprint f) (is_snapshot f.kind) in
        let (streams, same) = apply_event-streams host r (plain f) s.entered s.is_new s.enters in
        subst (λ (o : Runtime S C F J × Option ApplyResult). Remembers e o.0) (sym s.outcome)
          (elim (Text-discrete f.stream_id e.stream_id) [
            | yes at ↦
                let there : st.seen e.sequence ≡ some (host.fingerprint e) =
                  subst
                    (λ (k : Text).
                      (state_of r.stream_states k).seen e.sequence ≡ some (host.fingerprint e))
                    (sym at) seen in
                let kept =
                  see_other st f.sequence e.sequence (host.fingerprint f) (host.fingerprint e)
                    (is_snapshot f.kind) there s.unseen in
                (
                  subst
                      (λ (k : Text).
                        (state_of (put s.entered.stream_states f.stream_id next) k).seen e.sequence
                        ≡ some (host.fingerprint e))
                      at
                      (ap (λ (t : StreamState). t.seen e.sequence)
                          (state_of-put s.entered.stream_states f.stream_id next)
                        ∙ kept),
                  rw (same) tenant,
                )
            | no other ↦ (
              ap (λ (t : StreamState). t.seen e.sequence)
                    (state_of-put_ne s.entered.stream_states f.stream_id e.stream_id next other
                      ∙ ap (λ (m : Dict StreamState). state_of m e.stream_id) streams)
                  ∙ seen,
              rw (same) tenant,
            )
          ])
  ]

  -- Events one after the other, and that no answer asks for a repair of the stream.
  abbrev pub after : Runtime S C F J → List (StreamEvent T) → Runtime S C F J
  after r [] = r
  after r (f ∷ fs) = after (apply_stream_event host r f).0 fs

  abbrev pub Undisturbed : Text → Runtime S C F J → List (StreamEvent T) → Type 0
  Undisturbed k r [] = Unit
  Undisturbed k r (f ∷ fs) =
      NoRepair k (apply_stream_event host r f) × Undisturbed k (apply_stream_event host r f).0 fs

  Remembers-after :
      (e : StreamEvent T) (fs : List (StreamEvent T)) (r : Runtime S C F J)
      → Undisturbed e.stream_id r fs
      → Remembers e r
      → Remembers e (after r fs)
  Remembers-after e [] r calm m = m
  Remembers-after e (f ∷ fs) r (calm, rest) m =
      Remembers-after e fs (apply_stream_event host r f).0 rest (Remembers-next r e f calm m)

  taken-Remembers :
      (r q : Runtime S C F J) (e : StreamEvent T) (o : ApplyResult)
      → (o ≡ is_applied e.stream_id e.sequence) ⊎ (o ≡ is_duplicate e.stream_id e.sequence)
      → Answers r e q o
      → Remembers e q
  unfolding stream_repair_required
  taken-Remembers r q e o taken h =
      let tenant = (passes r q e o h).1 in
      elim (apply_stream_event_cases host r e) [
        | inl (inl stops) ↦ absurd (no_answer {r = r} stops h)
        | inl (inr (seen, dup)) ↦ subst (Remembers e) (ap (λ x. x.0) (sym dup ∙ h)) (seen, tenant)
        | inr (inl (why, fails)) ↦
            let answer : o ≡ repair_required e.stream_id e.sequence why =
              some_inj (ap (λ x. x.1) (sym h ∙ fails)) in
            absurd (elim taken [ inl t ↦ cc | inr t ↦ cc ])
        | inr (inr s) ↦
            let st = state_of r.stream_states e.stream_id in
            let next = see st e.sequence (host.fingerprint e) (is_snapshot e.kind) in
            let same = (apply_event-streams host r (plain e) s.entered s.is_new s.enters).1 in
            subst (Remembers e) (ap (λ x. x.0) (sym s.outcome ∙ h)) (
              ap (λ (t : StreamState). t.seen e.sequence)
                    (state_of-put s.entered.stream_states e.stream_id next)
                  ∙ see_self st e.sequence (host.fingerprint e) (is_snapshot e.kind),
              rw (same) tenant,
            )
      ]

  -- An event that was applied, or was a duplicate, is a duplicate when it is delivered again after any
  -- events of which none was answered with a repair of its stream, and then changes nothing.
  pub redelivered-duplicate :
      (r q : Runtime S C F J) (e : StreamEvent T) (o : ApplyResult) (fs : List (StreamEvent T))
      → (o ≡ is_applied e.stream_id e.sequence) ⊎ (o ≡ is_duplicate e.stream_id e.sequence)
      → Answers r e q o
      → Undisturbed e.stream_id q fs
      → Answers (after q fs) e (after q fs) (is_duplicate e.stream_id e.sequence)
  redelivered-duplicate r q e o fs taken h calm =
      remembered (after q fs) e (passes r q e o h).0
        (Remembers-after e fs q calm (taken-Remembers r q e o taken h))
