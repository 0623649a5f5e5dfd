-- ===== src/Lease/Store/Tokens.antt =====
-- What fencing tokens promise across a history of calls.
use premise_protocol.Base.{
  ℕ, ◌<◌, ◌≡◌, ◌≢◌, refl, sym, subst, ◌∙◌, Text, put, put_self, some, arith, List,
}
use premise_protocol.Lease.{
  Number, nat, Lease, LeaseStore, AcquireRequest, RenewRequest, HolderRequest, AcquireResult,
  acquired, updated, released, valid, returns, active, Attempt, valid_renew_request,
  valid_holder_request, token_of, time_of, observe_clock, next_token, scope_key, counter,
}
use premise_protocol.Lease.Store.{
  acquire, renew, release, validate, find_holder, holds, new_lease, Call, run,
}
use premise_protocol.Lease.Store.Cases.{acquire_cases, renew_cases, release_cases, validate_cases}
use premise_protocol.Lease.Store.Invariant.{
  Inv, observe-Keeps, active-Keeps, find_holder-holds, next_token-Keeps,
}
use premise_protocol.Lease.Store.History.{acquire-Keeps, run-Keeps}
use premise_protocol.Lease.Store.Fencing.{AtLeast, observe-AtLeast, run-AtLeast}

-- What a successful acquisition leaves behind.
pub record Granted (s : LeaseStore) (r : AcquireRequest) (u : LeaseStore) (l : Lease) : Type 0 where
  pub scope : l.scope ≡ r.scope
  pub owner : l.owner ≡ r.owner
  pub lease_id : l.lease_id ≡ r.lease_id
  pub stored : u.leases (scope_key r.scope) ≡ some l
  pub counted : counter u (scope_key r.scope) ≡ l.fencing_token
  pub newer : counter s (scope_key r.scope) < l.fencing_token

abbrev IfGranted : LeaseStore → AcquireRequest → LeaseStore × Attempt AcquireResult → Type 0
IfGranted s r (u, a) = (l : Lease) → a ≡ returns (acquired l) → Granted s r u l

lease-injective :
    {a b : Lease}
    → ◌≡◌ {A = Attempt AcquireResult} (returns (acquired a)) (returns (acquired b))
    → a ≡ b
lease-injective e = cc

new_lease-Granted :
    (s : LeaseStore) (r : AcquireRequest) (now : Number) (t expires token : ℕ) (s1 s3 : LeaseStore)
    → Inv s
    → observe_clock s now ≡ some (t, s1)
    → next_token (active s1 (scope_key r.scope) t).0 (scope_key r.scope) ≡ some (token, s3)
    → Granted s r
        (record s3 { leases = put s3.leases (scope_key r.scope) (new_lease r token t expires) })
        (new_lease r token t expires)
new_lease-Granted s r now t expires token s1 s3 v e h =
    let key = scope_key r.scope in
    let (g1, v1, _) = observe-Keeps s now t s1 v e in
    let (g2, v2) = active-Keeps s1 key t v1 in
    let (g3, v3, next, counted) = next_token-Keeps _ key token s3 v2 h in
    record {
      scope = refl;
      owner = refl;
      lease_id = refl;
      stored = put_self s3.leases key (new_lease r token t expires);
      counted = counted;
      newer = omega (arith, g1.tokens key, g2.tokens key);
    }

-- An acquisition that succeeds stores the caller's lease, under a token above all earlier ones.
pub acquire-Granted :
    (s u : LeaseStore) (r : AcquireRequest) (now : Number) (l : Lease)
    → Inv s
    → acquire s r now ≡ (u, returns (acquired l))
    → Granted s r u l
acquire-Granted s u r now l v e =
    (subst (IfGranted s r) e (
        acquire_cases s now (IfGranted s r) r (λ f k h. cc) (λ t s1 f k h. cc)
          (λ t s1 j f g k h. cc) (λ t s1 f g k h. cc)
          (λ t expires token s1 s3 f g h i k eq.
            subst (Granted s r _) (lease-injective eq)
              (new_lease-Granted s r now t expires token s1 s3 v f i))))
      l refl

Granted-AtLeast :
    (s : LeaseStore) (r : AcquireRequest) (u : LeaseStore) (l : Lease)
    → Granted s r u l
    → AtLeast l.fencing_token (scope_key r.scope) u
Granted-AtLeast s r u l g = record {
  stored = λ k h. let same : some l ≡ some k = sym g.stored ∙ h in ground arith;
  counted = omega (arith, g.counted);
}

-- Of two acquisitions of one scope, whatever calls come between them, the later has the larger
-- fencing token.
pub acquire-increasing :
    (s u w : LeaseStore) (r q : AcquireRequest) (now later : Number) (l k : Lease)
    (cs : List (Number × Call))
    → Inv s
    → acquire s r now ≡ (u, returns (acquired l))
    → acquire (run u cs) q later ≡ (w, returns (acquired k))
    → q.scope ≡ r.scope
    → l.fencing_token < k.fencing_token
acquire-increasing s u w r q now later l k cs v e f same =
    let first = acquire-Granted s u r now l v e in
    let inv : Inv u =
      subst (λ (x : LeaseStore × Attempt AcquireResult). Inv x.0) e (acquire-Keeps s r now v).1 in
    let (grown, inv') = run-Keeps u cs inv in
    let second = acquire-Granted (run u cs) w q later k inv' f in
    omega (
      arith,
      grown.tokens (scope_key r.scope),
      first.counted,
      subst (λ x. counter (run u cs) (scope_key x) < k.fencing_token) same second.newer,
    )

nat-injective : {m n : ℕ} → nat m ≡ nat n → m ≡ n
nat-injective e = cc

pub holder_token :
    (h : HolderRequest) (token k : ℕ)
    → valid_holder_request h ≡ some token
    → h.fencing_token ≡ nat k
    → token ≡ k
unfolding valid_holder_request token_of
holder_token h token k e f = ground arith

pub renew_token :
    (q : RenewRequest) (t token expires k : ℕ)
    → valid_renew_request q t ≡ some (token, expires)
    → q.fencing_token ≡ nat k
    → token ≡ k
unfolding valid_renew_request token_of time_of
renew_token q t token expires k e f = ground arith

-- A token below all that the store may hold finds no holder.
stale-not-holds :
    (n k : ℕ) (s : LeaseStore) (key owner lease_id : Text) (token t : ℕ) (l : Lease)
    → AtLeast n key s
    → k < n
    → token ≡ k
    → ¬ ((find_holder s key owner lease_id token t).1 ≡ holds l)
stale-not-holds n k s key owner lease_id token t l a less same h =
    let (old, _, _, _, eq, _) = find_holder-holds s key owner lease_id token t l h in
    omega (arith, a.stored l old)

module _ (n k : ℕ) (s : LeaseStore) (now : Number) (less : k < n) where
  validate-stale :
      (h : HolderRequest) (l : Lease)
      → AtLeast n (scope_key h.scope) s
      → h.fencing_token ≡ nat k
      → (validate s h now).1 ≢ returns (valid l)
  validate-stale h l a e =
      validate_cases s now (λ x. x.1 ≢ returns (valid l)) h (λ f p. cc) (λ t s1 f p. cc)
        (λ t token s1 reason f g p. cc)
        (λ t token s1 j f g i p.
          stale-not-holds n k s1 _ h.owner h.lease_id token t j (observe-AtLeast n _ s s1 now t f a)
            less (holder_token h token k g e) i)

  release-stale :
      (h : HolderRequest)
      → AtLeast n (scope_key h.scope) s
      → h.fencing_token ≡ nat k
      → (release s h now).1 ≢ returns released
  release-stale h a e =
      release_cases s now (λ x. x.1 ≢ returns released) h (λ f p. cc) (λ t s1 f p. cc)
        (λ t token s1 reason f g p. cc)
        (λ t token s1 j f g i p.
          stale-not-holds n k s1 _ h.owner h.lease_id token t j (observe-AtLeast n _ s s1 now t f a)
            less (holder_token h token k g e) i)

  renew-stale :
      (q : RenewRequest) (l : Lease)
      → AtLeast n (scope_key q.scope) s
      → q.fencing_token ≡ nat k
      → (renew s q now).1 ≢ returns (updated l)
  renew-stale q l a e =
      renew_cases s now (λ x. x.1 ≢ returns (updated l)) q (λ f p. cc) (λ t s1 f p. cc)
        (λ t token expires s1 reason f g p. cc)
        (λ t token expires s1 j f g i p.
          stale-not-holds n k s1 _ q.owner q.lease_id token t j (observe-AtLeast n _ s s1 now t f a)
            less (renew_token q t token expires k g e) i)

-- Once a scope has been acquired, a caller with a smaller fencing token can no longer validate,
-- release or renew a lease of that scope, at any time and after whatever further calls.
pub stale_token_fenced :
    (s u : LeaseStore) (r : AcquireRequest) (now later : Number) (l : Lease)
    (cs : List (Number × Call)) (h : HolderRequest) (q : RenewRequest) (k : ℕ)
    → Inv s
    → acquire s r now ≡ (u, returns (acquired l))
    → (h.scope ≡ r.scope) × (h.fencing_token ≡ nat k)
    → (q.scope ≡ r.scope) × (q.fencing_token ≡ nat k)
    → k < l.fencing_token
    → ((j : Lease) → (validate (run u cs) h later).1 ≢ returns (valid j))
      × ((release (run u cs) h later).1 ≢ returns released)
      × ((j : Lease) → (renew (run u cs) q later).1 ≢ returns (updated j))
stale_token_fenced s u r now later l cs h q k v e (hs, ht) (qs, qt) less =
    let n = l.fencing_token in
    let g = acquire-Granted s u r now l v e in
    let a = run-AtLeast n (scope_key r.scope) u cs (Granted-AtLeast s r u l g) in
    let ah = subst (λ x. AtLeast n (scope_key x) (run u cs)) (sym hs) a in
    let aq = subst (λ x. AtLeast n (scope_key x) (run u cs)) (sym qs) a in
    (
      λ j. validate-stale n k (run u cs) later less h j ah ht,
      release-stale n k (run u cs) later less h ah ht,
      λ j. renew-stale n k (run u cs) later less q j aq qt,
    )
