-- ===== src/Lease/Manager/Calls/Blameless.antt =====
-- What the in-memory store answers the manager is never taken for a failure of the store.
use premise_protocol.Base.{ℕ, ◌≤◌, ◌<◌, ◌≡◌, ◌≢◌, refl, subst, ◌∙◌, Text, none, some, arith}
use premise_protocol.Lease.{
  nat, Scope, Lease, LeaseStore, Reason, store_unavailable, HolderRequest, AcquireRequest,
  max_safe_integer, time_of, clock, counter, returns, acquired, held, observe_clock, active,
  valid_acquire_request, next_token, scope_key,
}
use premise_protocol.Lease.Store
use premise_protocol.Lease.Store.{find_holder, holds, fails, new_lease, renewed}
use premise_protocol.Lease.Store.Cases
use premise_protocol.Lease.Store.Invariant.{
  IsRefusal, find_holder-fails, Inv, observe-Keeps, active-Keeps, find_holder-holds,
  next_token-Keeps,
}
use premise_protocol.Lease.Store.History.{valid_acquire_request-bounds, valid_renew_request-bounds}
use premise_protocol.Lease.Store.Held.{scope_key-injective}
use premise_protocol.Lease.Manager.{AcquireInput, RenewInput, store_reason}
use premise_protocol.Lease.Manager.Calls.{
  answer_acquire, answer_renew, answer_release, answer_validate, acquire_request, renew_request,
}
use premise_protocol.Lease.Manager.Calls.Safety.{IsLive, IsLive-valid_lease}

observe_ok :
    (s : LeaseStore) (t : ℕ) → clock s ≤ t → t ≤ max_safe_integer → observe_clock s (nat t) ≢ none
unfolding observe_clock time_of
observe_ok s t h safe = ground arith

active-live :
    (s : LeaseStore) (key : Text) (t : ℕ) (l : Lease)
    → (active s key t).1 ≡ some l
    → (s.leases key ≡ some l) × (t < l.expires_at)
unfolding active
active-live s key t l h = ground arith

sound-IsLive :
    (s : LeaseStore) (scope : Scope) (l : Lease) (t : ℕ)
    → Inv s
    → clock s ≡ t
    → s.leases (scope_key scope) ≡ some l
    → t < l.expires_at
    → IsLive scope t l
sound-IsLive s scope l t v at stored soon =
    let x = v.sound (scope_key scope) l stored in
    record {
      of_scope = scope_key-injective _ _ x.keyed;
      owner = x.owner;
      lease_id = x.lease_id;
      token = x.issued;
      token_safe = omega (arith, x.counted, v.tokens (scope_key scope));
      acquired = x.started;
      renewed = omega (arith, x.observed);
      unexpired = soon;
      expiry_safe = x.bounded;
    }

observed_time :
    (s : LeaseStore) (now t : ℕ) (u : LeaseStore)
    → observe_clock s (nat now) ≡ some (t, u)
    → t ≡ now
unfolding observe_clock time_of
observed_time s now t u h = ground arith

refusal_reason : (r : Reason) → IsRefusal r → store_reason r ≢ store_unavailable
unfolding store_reason
refusal_reason r h = ground arith

next_token-none :
    (s u : LeaseStore) (key : Text) (now t : ℕ)
    → observe_clock s (nat now) ≡ some (t, u)
    → next_token (active u key t).0 key ≡ none
    → max_safe_integer ≤ counter s key
unfolding next_token active observe_clock time_of
next_token-none s u key now t e h = ground arith

live_answer :
    (i : AcquireInput) (t : ℕ) (l : Lease)
    → IsLive i.scope t l
    → ((answer_acquire i t (returns (acquired l))).reason ≢ store_unavailable)
      × ((answer_acquire i t (returns (held l))).reason ≢ store_unavailable)
unfolding answer_acquire
live_answer i t l live =
    let ok = IsLive-valid_lease l i.scope t live in (rw ok (λ p. cc), rw ok (λ p. cc))

new_lease-IsLive :
    (s : LeaseStore) (r : AcquireRequest) (now t expires token : ℕ) (u w : LeaseStore)
    → Inv s
    → observe_clock s (nat now) ≡ some (t, u)
    → valid_acquire_request r t ≡ some expires
    → next_token (active u (scope_key r.scope) t).0 (scope_key r.scope) ≡ some (token, w)
    → IsLive r.scope t (new_lease r token t expires)
new_lease-IsLive s r now t expires token u w v e f h =
    let key = scope_key r.scope in
    let (g1, v1, _) = observe-Keeps s (nat now) t u v e in
    let (_, v2) = active-Keeps u key t v1 in
    let (_, v3, next, counted) = next_token-Keeps _ key token w v2 h in
    let (owner, id, later, safe) = valid_acquire_request-bounds r t expires f in
    record {
      of_scope = refl;
      owner = owner;
      lease_id = id;
      token = omega arith;
      token_safe = omega (arith, v3.tokens key);
      acquired = omega arith;
      renewed = omega arith;
      unexpired = later;
      expiry_safe = safe;
    }

module _ (s : LeaseStore) (t : ℕ) (v : Inv s) (behind : clock s ≤ t)
    (safe : t ≤ max_safe_integer) where
  pub acquire-blameless :
      (i : AcquireInput) (expires : ℕ)
      → counter s (scope_key i.scope) < max_safe_integer
      → (answer_acquire i t (Store.acquire s (acquire_request i expires) (nat t)).1).reason
        ≢ store_unavailable
  unfolding answer_acquire
  acquire-blameless i expires left =
      Cases.acquire_cases s (nat t) (λ x. (answer_acquire i t x.1).reason ≢ store_unavailable)
        (acquire_request i expires) (λ e. absurd (observe_ok s t behind safe e)) (λ t1 u e. λ p. cc)
        (λ t1 u l e f.
          let (g, w, at) = observe-Keeps s (nat t) t1 u v e in
          let same = observed_time s t t1 u e in
          let (stored, soon) = active-live u (scope_key i.scope) t1 l f in
          (live_answer i t l (
            sound-IsLive u i.scope l t w (at ∙ same) stored
              (subst (λ x. x < l.expires_at) same soon))).1)
        (λ t1 u e f. absurd (omega (arith, next_token-none s u (scope_key i.scope) t t1 e f)))
        (λ t1 ex token u w e f g h.
          let same = observed_time s t t1 u e in
          (live_answer i t _ (
            subst (λ x. IsLive i.scope x (new_lease (acquire_request i expires) token t1 ex)) same
              (new_lease-IsLive s (acquire_request i expires) t t1 ex token u w v e f h))).0)

  pub renew-blameless :
      (i : RenewInput) (expires : ℕ)
      → (answer_renew i t (Store.renew s (renew_request i expires) (nat t)).1).reason
        ≢ store_unavailable
  unfolding answer_renew
  renew-blameless i expires =
      Cases.renew_cases s (nat t) (λ x. (answer_renew i t x.1).reason ≢ store_unavailable)
        (renew_request i expires) (λ e. absurd (observe_ok s t behind safe e)) (λ t1 u e. λ p. cc)
        (λ t1 token ex u reason e f.
          refusal_reason reason (find_holder-fails u _ i.owner i.lease_id token t1 reason f))
        (λ t1 token ex u l e f g.
          let (_, w, at) = observe-Keeps s (nat t) t1 u v e in
          let same = observed_time s t t1 u e in
          let (stored, soon, _, _, _, _) =
            find_holder-holds u (scope_key i.scope) i.owner i.lease_id token t1 l g in
          let (later, bounded) =
            valid_renew_request-bounds (renew_request i expires) t1 token ex f in
          let live = sound-IsLive u i.scope l t1 w at stored soon in
          let ok = IsLive-valid_lease (renewed l t1 ex) i.scope t (record {
            of_scope = live.of_scope;
            owner = live.owner;
            lease_id = live.lease_id;
            token = live.token;
            token_safe = live.token_safe;
            acquired = omega (arith, live.acquired, live.renewed);
            renewed = omega arith;
            unexpired = omega arith;
            expiry_safe = bounded;
          }) in
          rw ok (λ p. cc))

  pub release-blameless :
      (i : HolderRequest)
      → (answer_release (Store.release s i (nat t)).1).reason ≢ store_unavailable
  unfolding answer_release
  release-blameless i =
      Cases.release_cases s (nat t) (λ x. (answer_release x.1).reason ≢ store_unavailable) i
        (λ e. absurd (observe_ok s t behind safe e)) (λ t1 u e. λ p. cc)
        (λ t1 token u reason e f.
          refusal_reason reason (find_holder-fails u _ i.owner i.lease_id token t1 reason f))
        (λ t1 token u l e f g. λ p. cc)

  pub validate-blameless :
      (i : HolderRequest)
      → (answer_validate i t (Store.validate s i (nat t)).1).reason ≢ store_unavailable
  unfolding answer_validate
  validate-blameless i =
      Cases.validate_cases s (nat t) (λ x. (answer_validate i t x.1).reason ≢ store_unavailable) i
        (λ e. absurd (observe_ok s t behind safe e)) (λ t1 u e. λ p. cc)
        (λ t1 token u reason e f.
          refusal_reason reason (find_holder-fails u _ i.owner i.lease_id token t1 reason f))
        (λ t1 token u l e f g.
          let (_, w, at) = observe-Keeps s (nat t) t1 u v e in
          let same = observed_time s t t1 u e in
          let (stored, soon, _, _, _, _) =
            find_holder-holds u (scope_key i.scope) i.owner i.lease_id token t1 l g in
          let live =
            sound-IsLive u i.scope l t w (at ∙ same) stored
              (subst (λ x. x < l.expires_at) same soon) in
          rw (IsLive-valid_lease l i.scope t live) (λ p. cc))
