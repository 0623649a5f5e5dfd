-- ===== src/Lease/Store/History.antt =====
-- Every call keeps the invariant, so it holds after any history, and tokens and times only grow.
use premise_protocol.Base.{ℕ, ◌≤◌, ◌<◌, ◌≡◌, refl, put, some, true, arith, List, [], ◌∷◌}
use premise_protocol.Lease.{
  Number, Lease, LeaseStore, AcquireRequest, RenewRequest, HolderRequest, max_safe_integer,
  new_store, valid_text, valid_acquire_request, valid_renew_request, time_of, observe_clock, active,
  next_token, scope_key,
}
use premise_protocol.Lease.Store.{
  acquire, renew, release, validate, find_holder, holds, new_lease, renewed, Call, acquires, renews,
  releases, validates, step, run,
}
use premise_protocol.Lease.Store.Cases.{acquire_cases, renew_cases, release_cases, validate_cases}
use premise_protocol.Lease.Store.Invariant.{
  Inv, Grows-refl, Grows-trans, Keeps, observe-Keeps, drop-Keeps, active-Keeps, find_holder-Keeps,
  find_holder-holds, next_token-Keeps, put-Keeps,
}

pub valid_acquire_request-bounds :
    (r : AcquireRequest) (now expires : ℕ)
    → valid_acquire_request r now ≡ some expires
    → (valid_text r.owner ≡ true)
      × (valid_text r.lease_id ≡ true)
      × (now < expires)
      × (expires ≤ max_safe_integer)
unfolding valid_acquire_request time_of
valid_acquire_request-bounds r now expires h = ground arith

pub valid_renew_request-bounds :
    (r : RenewRequest) (now token expires : ℕ)
    → valid_renew_request r now ≡ some (token, expires)
    → (now < expires) × (expires ≤ max_safe_integer)
unfolding valid_renew_request time_of
valid_renew_request-bounds r now token expires h = ground arith

Keeps-trans : {s t u : LeaseStore} → Keeps s t → Keeps t u → Keeps s u
Keeps-trans (g, _) (h, v) = (Grows-trans g h, v)

-- The store once the clock is read.
observed :
    (s : LeaseStore) (now : Number) (t : ℕ) (u : LeaseStore)
    → Inv s
    → observe_clock s now ≡ some (t, u)
    → Keeps s u
observed s now t u v e = let (g, w, _) = observe-Keeps s now t u v e in (g, w)

pub acquired-Keeps :
    (s : LeaseStore) (r : AcquireRequest) (now : Number) (t expires token : ℕ) (s1 s3 : LeaseStore)
    → Inv s
    → observe_clock s now ≡ some (t, s1)
    → valid_acquire_request r t ≡ some expires
    → next_token (active s1 (scope_key r.scope) t).0 (scope_key r.scope) ≡ some (token, s3)
    → Keeps s
        (record s3 { leases = put s3.leases (scope_key r.scope) (new_lease r token t expires) })
acquired-Keeps s r now t expires token s1 s3 v e f h =
    let key = scope_key r.scope in
    let (g1, v1, at) = observe-Keeps s now t s1 v e in
    let (g2, v2) = active-Keeps s1 key t v1 in
    let (g3, v3, next, counted) = next_token-Keeps _ key token s3 v2 h in
    let (owner, id, later, safe) = valid_acquire_request-bounds r t expires f in
    Keeps-trans (Grows-trans g1 (Grows-trans g2 g3), v3)
      (put-Keeps s3 key (new_lease r token t expires) v3 (record {
        keyed = refl;
        owner = owner;
        lease_id = id;
        issued = omega arith;
        counted = omega arith;
        started = omega arith;
        observed = omega (arith, g2.time, g3.time);
        bounded = safe;
      }))

pub renewed-Keeps :
    (s : LeaseStore) (r : RenewRequest) (now : Number) (t token expires : ℕ) (s1 : LeaseStore)
    (l : Lease)
    → Inv s
    → observe_clock s now ≡ some (t, s1)
    → valid_renew_request r t ≡ some (token, expires)
    → (find_holder s1 (scope_key r.scope) r.owner r.lease_id token t).1 ≡ holds l
    → let u = (find_holder s1 (scope_key r.scope) r.owner r.lease_id token t).0 in
      Keeps s (record u { leases = put u.leases (scope_key r.scope) (renewed l t expires) })
renewed-Keeps s r now t token expires s1 l v e f g =
    let key = scope_key r.scope in
    let (g1, v1, at) = observe-Keeps s now t s1 v e in
    let (stored, _, _, _, _, same) = find_holder-holds s1 key r.owner r.lease_id token t l g in
    let old = v1.sound key l stored in
    let (_, safe) = valid_renew_request-bounds r t token expires f in
    rw same (
      Keeps-trans (g1, v1)
        (put-Keeps s1 key (renewed l t expires) v1 (record {
          keyed = old.keyed;
          owner = old.owner;
          lease_id = old.lease_id;
          issued = old.issued;
          counted = old.counted;
          started = omega (arith, old.started, old.observed);
          observed = omega arith;
          bounded = safe;
        })))

pub acquire-Keeps :
    (s : LeaseStore) (r : AcquireRequest) (now : Number) → Inv s → Keeps s (acquire s r now).0
acquire-Keeps s r now v =
    acquire_cases s now (λ x. Keeps s x.0) r (λ e. (Grows-refl s, v))
      (λ t s1 e. observed s now t s1 v e)
      (λ t s1 l e f. let k = observed s now t s1 v e in Keeps-trans k (active-Keeps s1 _ t k.1))
      (λ t s1 e f. let k = observed s now t s1 v e in Keeps-trans k (active-Keeps s1 _ t k.1))
      (λ t expires token s1 s3 e f g h. acquired-Keeps s r now t expires token s1 s3 v e f h)

pub renew-Keeps :
    (s : LeaseStore) (r : RenewRequest) (now : Number) → Inv s → Keeps s (renew s r now).0
renew-Keeps s r now v =
    renew_cases s now (λ x. Keeps s x.0) r (λ e. (Grows-refl s, v))
      (λ t s1 e. observed s now t s1 v e)
      (λ t token expires s1 reason e f.
        let k = observed s now t s1 v e in Keeps-trans k (find_holder-Keeps s1 _ _ _ token t k.1))
      (λ t token expires s1 l e f g. renewed-Keeps s r now t token expires s1 l v e f g)

pub release-Keeps :
    (s : LeaseStore) (r : HolderRequest) (now : Number) → Inv s → Keeps s (release s r now).0
release-Keeps s r now v =
    release_cases s now (λ x. Keeps s x.0) r (λ e. (Grows-refl s, v))
      (λ t s1 e. observed s now t s1 v e)
      (λ t token s1 reason e f.
        let k = observed s now t s1 v e in Keeps-trans k (find_holder-Keeps s1 _ _ _ token t k.1))
      (λ t token s1 l e f g.
        let k = observed s now t s1 v e in
        let h = find_holder-Keeps s1 _ _ _ token t k.1 in
        Keeps-trans (Keeps-trans k h) (drop-Keeps _ _ h.1))

pub validate-Keeps :
    (s : LeaseStore) (r : HolderRequest) (now : Number) → Inv s → Keeps s (validate s r now).0
validate-Keeps s r now v =
    validate_cases s now (λ x. Keeps s x.0) r (λ e. (Grows-refl s, v))
      (λ t s1 e. observed s now t s1 v e)
      (λ t token s1 reason e f.
        let k = observed s now t s1 v e in Keeps-trans k (find_holder-Keeps s1 _ _ _ token t k.1))
      (λ t token s1 l e f g.
        let k = observed s now t s1 v e in Keeps-trans k (find_holder-Keeps s1 _ _ _ token t k.1))

pub step-Keeps : (s : LeaseStore) (c : Number × Call) → Inv s → Keeps s (step s c)
unfolding step
step-Keeps s (now, acquires r) v = acquire-Keeps s r now v
step-Keeps s (now, renews r) v = renew-Keeps s r now v
step-Keeps s (now, releases r) v = release-Keeps s r now v
step-Keeps s (now, validates r) v = validate-Keeps s r now v

pub run-Keeps : (s : LeaseStore) (cs : List (Number × Call)) → Inv s → Keeps s (run s cs)
unfolding run
run-Keeps s [] v = (Grows-refl s, v)
run-Keeps s (c ∷ cs) v = let k = step-Keeps s c v in Keeps-trans k (run-Keeps (step s c) cs k.1)

pub new_store-Inv : Inv new_store
new_store-Inv = record { sound = λ key l h. cc; tokens = λ key. omega arith; time = omega arith }
