-- ===== src/Lease/Store/Held.antt =====
-- A stored lease stays as it is under each call before it runs out, unless its holder renews or
-- releases it.
use premise_protocol.Base.{
  ℕ, ◌<◌, ◌≡◌, ◌≢◌, sym, subst, ap, ◌∙◌, Text, Text-discrete, put_ne, drop_ne, some, none, arith,
  List, [], ◌∷◌, All,
}
use premise_protocol.Json.Decode.{json_pair-injective}
use premise_protocol.Lease.{
  Scope, Number, nat, Lease, LeaseStore, AcquireRequest, RenewRequest, HolderRequest, active,
  valid_renew_request, valid_holder_request, time_of, token_of, observe_clock, next_token,
  scope_key,
}
use premise_protocol.Lease.Store.{
  acquire, renew, release, validate, find_holder, Call, acquires, renews, releases, validates, step,
  run,
}
use premise_protocol.Lease.Store.Cases.{acquire_cases, renew_cases, release_cases, validate_cases}
use premise_protocol.Lease.Store.Invariant.{find_holder-holds}

-- A call that is no renewal or release of this scope under the lease's token.
abbrev pub IsForeign : Lease → Call → Type 0
IsForeign l (acquires r) = Unit
IsForeign l (renews r) = r.scope ≡ l.scope → r.fencing_token ≢ nat l.fencing_token
IsForeign l (releases r) = r.scope ≡ l.scope → r.fencing_token ≢ nat l.fencing_token
IsForeign l (validates r) = Unit

-- A call at a time before the lease runs out.
abbrev pub IsBefore : Lease → Number → Type 0
IsBefore l now = (t : ℕ) → time_of now ≡ some t → t < l.expires_at

abbrev pub Stored : Lease → LeaseStore → Type 0
Stored l s = s.leases (scope_key l.scope) ≡ some l

pub observe-Stored :
    (l : Lease) (s u : LeaseStore) (now : Number) (t : ℕ)
    → observe_clock s now ≡ some (t, u)
    → Stored l s
    → Stored l u × (time_of now ≡ some t)
unfolding observe_clock
observe-Stored l s u now t e h = (ground arith, ground arith)

active-Stored :
    (l : Lease) (s : LeaseStore) (k : Text) (t : ℕ)
    → t < l.expires_at
    → Stored l s
    → Stored l (active s k t).0
unfolding active
active-Stored l s k t early h = ground arith

pub active-some :
    (l : Lease) (s : LeaseStore) (t : ℕ)
    → t < l.expires_at
    → Stored l s
    → (active s (scope_key l.scope) t).1 ≡ some l
unfolding active
active-some l s t early h = ground arith

find_holder-Stored :
    (l : Lease) (s : LeaseStore) (k owner lease_id : Text) (token t : ℕ)
    → t < l.expires_at
    → Stored l s
    → Stored l (find_holder s k owner lease_id token t).0
unfolding find_holder
find_holder-Stored l s k owner lease_id token t early h = ground arith

next_token-Stored :
    (l : Lease) (s u : LeaseStore) (k : Text) (token : ℕ)
    → next_token s k ≡ some (token, u)
    → Stored l s
    → Stored l u
unfolding next_token
next_token-Stored l s u k token e h = ground arith

pub scope_key-injective : (a b : Scope) → scope_key a ≡ scope_key b → a ≡ b
unfolding scope_key
scope_key-injective a b e =
    let (tenant, resource) = json_pair-injective _ _ _ _ e in
    λ i. record { tenant_id = tenant i; resource_id = resource i }

some-ne-none : (l : Lease) → some l ≢ none
some-ne-none l e = cc

-- The token that a valid request shows is the one that is read out of it.
renew_shows :
    (q : RenewRequest) (t token expires : ℕ)
    → valid_renew_request q t ≡ some (token, expires)
    → q.fencing_token ≡ nat token
unfolding valid_renew_request token_of time_of
renew_shows q t token expires e = ground arith

holder_shows :
    (q : HolderRequest) (token : ℕ)
    → valid_holder_request q ≡ some token
    → q.fencing_token ≡ nat token
unfolding valid_holder_request token_of
holder_shows q token e = ground arith

pub same_lease :
    (l j : Lease) (s : LeaseStore) (k : Text) (token : ℕ)
    → k ≡ scope_key l.scope
    → s.leases k ≡ some j
    → Stored l s
    → j.fencing_token ≡ token
    → nat token ≡ nat l.fencing_token
same_lease l j s k token e f g h =
    let same : some j ≡ some l = sym f ∙ ap s.leases e ∙ g in ground arith

module _ (l : Lease) (s : LeaseStore) (now : Number) (early : IsBefore l now) (h : Stored l s) where
  seen :
      (t : ℕ) (u : LeaseStore) → observe_clock s now ≡ some (t, u) → Stored l u × (t < l.expires_at)
  seen t u e = let (kept, at) = observe-Stored l s u now t e h in (kept, early t at)

  acquire-Stored : (r : AcquireRequest) → Stored l (acquire s r now).0
  acquire-Stored r =
      acquire_cases s now (λ x. Stored l x.0) r (λ e. h) (λ t s1 e. (seen t s1 e).0)
        (λ t s1 j e f. let (kept, soon) = seen t s1 e in active-Stored l s1 _ t soon kept)
        (λ t s1 e f. let (kept, soon) = seen t s1 e in active-Stored l s1 _ t soon kept)
        (λ t expires token s1 s3 e f g i.
          let (kept, soon) = seen t s1 e in
          let after =
            next_token-Stored l _ s3 _ token i
              (active-Stored l s1 (scope_key r.scope) t soon kept) in
          elim (Text-discrete (scope_key r.scope) (scope_key l.scope)) [
            | yes same ↦ absurd (
                some-ne-none l (
                  sym (
                    subst (λ k. (active s1 k t).1 ≡ some l) (sym same)
                      (active-some l s1 t soon kept))
                  ∙ g))
            | no other ↦ put_ne s3.leases _ _ _ other ∙ after
          ])

  renew-Stored : (r : RenewRequest) → IsForeign l (renews r) → Stored l (renew s r now).0
  renew-Stored r foreign =
      renew_cases s now (λ x. Stored l x.0) r (λ e. h) (λ t s1 e. (seen t s1 e).0)
        (λ t token expires s1 reason e f.
          let (kept, soon) = seen t s1 e in
          find_holder-Stored l s1 _ r.owner r.lease_id token t soon kept)
        (λ t token expires s1 j e f g.
          let (kept, soon) = seen t s1 e in
          let after =
            find_holder-Stored l s1 (scope_key r.scope) r.owner r.lease_id token t soon kept in
          let (old, _, _, _, tok, _) = find_holder-holds s1 _ r.owner r.lease_id token t j g in
          elim (Text-discrete (scope_key r.scope) (scope_key l.scope)) [
            | yes same ↦ absurd (
                foreign (scope_key-injective _ _ same)
                  (renew_shows r t token expires f ∙ same_lease l j s1 _ token same old kept tok))
            | no other ↦
                put_ne (find_holder s1 (scope_key r.scope) r.owner r.lease_id token t).0.leases _ _
                  _ other
                ∙ after
          ])

  release-Stored : (r : HolderRequest) → IsForeign l (releases r) → Stored l (release s r now).0
  release-Stored r foreign =
      release_cases s now (λ x. Stored l x.0) r (λ e. h) (λ t s1 e. (seen t s1 e).0)
        (λ t token s1 reason e f.
          let (kept, soon) = seen t s1 e in
          find_holder-Stored l s1 _ r.owner r.lease_id token t soon kept)
        (λ t token s1 j e f g.
          let (kept, soon) = seen t s1 e in
          let after =
            find_holder-Stored l s1 (scope_key r.scope) r.owner r.lease_id token t soon kept in
          let (old, _, _, _, tok, _) = find_holder-holds s1 _ r.owner r.lease_id token t j g in
          elim (Text-discrete (scope_key r.scope) (scope_key l.scope)) [
            | yes same ↦ absurd (
                foreign (scope_key-injective _ _ same)
                  (holder_shows r token f ∙ same_lease l j s1 _ token same old kept tok))
            | no other ↦
                drop_ne (find_holder s1 (scope_key r.scope) r.owner r.lease_id token t).0.leases _ _
                  other
                ∙ after
          ])

  validate-Stored : (r : HolderRequest) → Stored l (validate s r now).0
  validate-Stored r =
      validate_cases s now (λ x. Stored l x.0) r (λ e. h) (λ t s1 e. (seen t s1 e).0)
        (λ t token s1 reason e f.
          let (kept, soon) = seen t s1 e in
          find_holder-Stored l s1 _ r.owner r.lease_id token t soon kept)
        (λ t token s1 j e f g.
          let (kept, soon) = seen t s1 e in
          find_holder-Stored l s1 _ r.owner r.lease_id token t soon kept)

  step-Stored : (c : Call) → IsForeign l c → Stored l (step s (now, c))
  unfolding step
  step-Stored (acquires r) f = acquire-Stored r
  step-Stored (renews r) f = renew-Stored r f
  step-Stored (releases r) f = release-Stored r f
  step-Stored (validates r) f = validate-Stored r

abbrev pub Quiet : Lease → List (Number × Call) → Type 0
Quiet l cs = All (λ (now, c). IsBefore l now × IsForeign l c) cs

pub run-Stored :
    (l : Lease) (s : LeaseStore) (cs : List (Number × Call))
    → Quiet l cs
    → Stored l s
    → Stored l (run s cs)
unfolding run
run-Stored l s [] q h = h
run-Stored l s ((now, c) ∷ cs) ((early, foreign), q) h =
    run-Stored l (step s (now, c)) cs q (step-Stored l s now early h c foreign)
