-- ===== src/Lease/Store/Exclusion.antt =====
-- A lease stays where it is until it runs out, unless its own holder renews or releases it.
use premise_protocol.Base.{ℕ, ◌<◌, ◌≡◌, refl, sym, subst, ap, ◌∙◌, Text, some, arith, List}
use premise_protocol.Lease.{
  Number, Lease, LeaseStore, AcquireRequest, HolderRequest, held, returns, acquired,
  valid_acquire_request, valid_holder_request, valid, identity_reason, valid_holder_request,
  observe_clock, scope_key,
}
use premise_protocol.Lease.Store.{acquire, validate, find_holder, holds, Call, run}
use premise_protocol.Lease.Store.Invariant.{Inv}
use premise_protocol.Lease.Store.Held.{Stored, observe-Stored, active-some, run-Stored, Quiet}
use premise_protocol.Lease.Store.Tokens.{acquire-Granted}

held-Stored :
    (l : Lease) (s : LeaseStore) (r : AcquireRequest) (now : Number) (expires t : ℕ)
    (u : LeaseStore)
    → Stored l s
    → r.scope ≡ l.scope
    → observe_clock s now ≡ some (t, u)
    → t < l.expires_at
    → valid_acquire_request r t ≡ some expires
    → (acquire s r now).1 ≡ returns (held l)
unfolding acquire
held-Stored l s r now expires t u h same e soon f =
    let (kept, _) = observe-Stored l s u now t e h in
    let busy = active-some l u t soon kept in rw (e, acquire, f) (rw (ap scope_key same, busy) refl)

-- Mutual exclusion. After an acquisition, whatever calls come before the lease runs out, if none of
-- them renews or releases the scope under the lease's own token, the lease still stands, and any valid
-- request to acquire the scope, at a time that the clock accepts before the expiry, is answered `held`.
pub acquire-exclusive :
    (s u w : LeaseStore) (r q : AcquireRequest) (now later : Number) (l : Lease)
    (cs : List (Number × Call)) (t expires : ℕ)
    → Inv s
    → acquire s r now ≡ (u, returns (acquired l))
    → Quiet l cs
    → q.scope ≡ r.scope
    → observe_clock (run u cs) later ≡ some (t, w)
    → t < l.expires_at
    → valid_acquire_request q t ≡ some expires
    → ((run u cs).leases (scope_key r.scope) ≡ some l)
      × ((acquire (run u cs) q later).1 ≡ returns (held l))
acquire-exclusive s u w r q now later l cs t expires v e quiet same seen_at soon valid_q =
    let g = acquire-Granted s u r now l v e in
    let at_u = subst (λ x. u.leases (scope_key x) ≡ some l) (sym g.scope) g.stored in
    let kept = run-Stored l u cs quiet at_u in
    (
      subst (λ x. (run u cs).leases (scope_key x) ≡ some l) g.scope kept,
      held-Stored l (run u cs) q later expires t w kept (same ∙ sym g.scope) seen_at soon valid_q,
    )

holder_ok :
    (l : Lease) (s : LeaseStore) (owner lease_id : Text) (token t : ℕ)
    → Stored l s
    → t < l.expires_at
    → (owner ≡ l.owner) × (lease_id ≡ l.lease_id) × (token ≡ l.fencing_token)
    → find_holder s (scope_key l.scope) owner lease_id token t ≡ (s, holds l)
unfolding find_holder identity_reason
holder_ok l s owner lease_id token t h soon same = ground arith

-- What was granted validates. Under the same conditions, a request that shows the lease's scope, owner,
-- id and token is answered with the lease, until it runs out.
pub acquire-validate :
    (s u w : LeaseStore) (r : AcquireRequest) (h : HolderRequest) (now later : Number) (l : Lease)
    (cs : List (Number × Call)) (t : ℕ)
    → Inv s
    → acquire s r now ≡ (u, returns (acquired l))
    → Quiet l cs
    → (h.scope ≡ l.scope)
      × (h.owner ≡ l.owner)
      × (h.lease_id ≡ l.lease_id)
      × (valid_holder_request h ≡ some l.fencing_token)
    → observe_clock (run u cs) later ≡ some (t, w)
    → t < l.expires_at
    → (validate (run u cs) h later).1 ≡ returns (valid l)
unfolding validate
acquire-validate s u w r h now later l cs t v e quiet (scope, owner, id, token) seen_at soon =
    let g = acquire-Granted s u r now l v e in
    let at_u = subst (λ x. u.leases (scope_key x) ≡ some l) (sym g.scope) g.stored in
    let (kept, _) = observe-Stored l (run u cs) w later t seen_at (run-Stored l u cs quiet at_u) in
    let found = holder_ok l w h.owner h.lease_id l.fencing_token t kept soon (owner, id, refl) in
    rw (seen_at, validate, token) (rw (ap scope_key scope, found) refl)
