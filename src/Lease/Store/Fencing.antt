-- ===== src/Lease/Store/Fencing.antt =====
-- Fencing tokens: each acquisition of a scope takes a larger one, and a smaller one is dead for good.
use premise_protocol.Base.{ℕ, ◌≤◌, ◌≡◌, subst, Text, put, drop_key, some, arith, List, [], ◌∷◌}
use premise_protocol.Lease.{
  Number, Lease, LeaseStore, AcquireRequest, RenewRequest, HolderRequest, active, observe_clock,
  next_token, scope_key, counter,
}
use premise_protocol.Lease.Store.{
  acquire, renew, release, validate, find_holder, new_lease, renewed, Call, acquires, renews,
  releases, validates, step, run,
}
use premise_protocol.Lease.Store.Cases.{acquire_cases, renew_cases, release_cases, validate_cases}
use premise_protocol.Lease.Store.Invariant.{find_holder-holds}

-- Nothing older than token n is left under the key, and nothing older will be given out.
pub record AtLeast (n : ℕ) (key : Text) (s : LeaseStore) : Type 0 where
  pub stored : (l : Lease) → s.leases key ≡ some l → n ≤ l.fencing_token
  pub counted : n ≤ counter s key

pub observe-AtLeast :
    (n : ℕ) (key : Text) (s u : LeaseStore) (now : Number) (t : ℕ)
    → observe_clock s now ≡ some (t, u)
    → AtLeast n key s
    → AtLeast n key u
unfolding observe_clock
observe-AtLeast n key s u now t e a = record {
  stored = λ l h. ground (arith, a.stored l);
  counted = ground (arith, a.counted);
}

active-AtLeast :
    (n : ℕ) (key k : Text) (s : LeaseStore) (t : ℕ)
    → AtLeast n key s
    → AtLeast n key (active s k t).0
unfolding active
active-AtLeast n key k s t a = record {
  stored = λ l h. ground (arith, a.stored l);
  counted = ground (arith, a.counted);
}

find_holder-AtLeast :
    (n : ℕ) (key k owner lease_id : Text) (s : LeaseStore) (token t : ℕ)
    → AtLeast n key s
    → AtLeast n key (find_holder s k owner lease_id token t).0
unfolding find_holder
find_holder-AtLeast n key k owner lease_id s token t a = record {
  stored = λ l h. ground (arith, a.stored l);
  counted = ground (arith, a.counted);
}

next_token-AtLeast :
    (n : ℕ) (key k : Text) (s u : LeaseStore) (token : ℕ)
    → next_token s k ≡ some (token, u)
    → AtLeast n key s
    → AtLeast n key u × (k ≡ key → n ≤ token)
unfolding next_token
next_token-AtLeast n key k s u token e a = (
  record { stored = λ l h. ground (arith, a.stored l); counted = ground (arith, a.counted) },
  λ same. let c : n ≤ counter s k = rw same a.counted in ground arith,
)

put-AtLeast :
    (n : ℕ) (key k : Text) (s : LeaseStore) (l : Lease)
    → (k ≡ key → n ≤ l.fencing_token)
    → AtLeast n key s
    → AtLeast n key (record s { leases = put s.leases k l })
put-AtLeast n key k s l new a = record {
  stored = λ j h. ground (arith, a.stored j);
  counted = a.counted;
}

drop-AtLeast :
    (n : ℕ) (key k : Text) (s : LeaseStore)
    → AtLeast n key s
    → AtLeast n key (record s { leases = drop_key s.leases k })
drop-AtLeast n key k s a = record {
  stored = λ j h. ground (arith, a.stored j);
  counted = a.counted;
}

module _ (n : ℕ) (key : Text) (s : LeaseStore) (now : Number) (a : AtLeast n key s) where
  seen : (t : ℕ) (u : LeaseStore) → observe_clock s now ≡ some (t, u) → AtLeast n key u
  seen t u e = observe-AtLeast n key s u now t e a

  acquire-AtLeast : (r : AcquireRequest) → AtLeast n key (acquire s r now).0
  acquire-AtLeast r =
      acquire_cases s now (λ x. AtLeast n key x.0) r (λ e. a) seen
        (λ t s1 l e f. active-AtLeast n key _ s1 t (seen t s1 e))
        (λ t s1 e f. active-AtLeast n key _ s1 t (seen t s1 e))
        (λ t expires token s1 s3 e f g h.
          let (b, up) =
            next_token-AtLeast n key _ _ s3 token h (active-AtLeast n key _ s1 t (seen t s1 e)) in
          put-AtLeast n key _ s3 (new_lease r token t expires) up b)

  renew-AtLeast : (r : RenewRequest) → AtLeast n key (renew s r now).0
  renew-AtLeast r =
      renew_cases s now (λ x. AtLeast n key x.0) r (λ e. a) seen
        (λ t token expires s1 reason e f.
          find_holder-AtLeast n key _ r.owner r.lease_id s1 token t (seen t s1 e))
        (λ t token expires s1 l e f g.
          let (old, _, _, _, _, same) =
            find_holder-holds s1 (scope_key r.scope) r.owner r.lease_id token t l g in
          let b = seen t s1 e in
          put-AtLeast n key _ _ (renewed l t expires)
            (λ k. b.stored l (subst (λ x. s1.leases x ≡ some l) k old))
            (find_holder-AtLeast n key _ r.owner r.lease_id s1 token t b))

  release-AtLeast : (r : HolderRequest) → AtLeast n key (release s r now).0
  release-AtLeast r =
      release_cases s now (λ x. AtLeast n key x.0) r (λ e. a) seen
        (λ t token s1 reason e f.
          find_holder-AtLeast n key _ r.owner r.lease_id s1 token t (seen t s1 e))
        (λ t token s1 l e f g.
          drop-AtLeast n key _ _
            (find_holder-AtLeast n key _ r.owner r.lease_id s1 token t (seen t s1 e)))

  validate-AtLeast : (r : HolderRequest) → AtLeast n key (validate s r now).0
  validate-AtLeast r =
      validate_cases s now (λ x. AtLeast n key x.0) r (λ e. a) seen
        (λ t token s1 reason e f.
          find_holder-AtLeast n key _ r.owner r.lease_id s1 token t (seen t s1 e))
        (λ t token s1 l e f g.
          find_holder-AtLeast n key _ r.owner r.lease_id s1 token t (seen t s1 e))

step-AtLeast :
    (n : ℕ) (key : Text) (s : LeaseStore) (c : Number × Call)
    → AtLeast n key s
    → AtLeast n key (step s c)
unfolding step
step-AtLeast n key s (now, acquires r) a = acquire-AtLeast n key s now a r
step-AtLeast n key s (now, renews r) a = renew-AtLeast n key s now a r
step-AtLeast n key s (now, releases r) a = release-AtLeast n key s now a r
step-AtLeast n key s (now, validates r) a = validate-AtLeast n key s now a r

pub run-AtLeast :
    (n : ℕ) (key : Text) (s : LeaseStore) (cs : List (Number × Call))
    → AtLeast n key s
    → AtLeast n key (run s cs)
unfolding run
run-AtLeast n key s [] a = a
run-AtLeast n key s (c ∷ cs) a = run-AtLeast n key (step s c) cs (step-AtLeast n key s c a)
