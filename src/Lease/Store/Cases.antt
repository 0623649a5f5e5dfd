-- ===== src/Lease/Store/Cases.antt =====
-- To prove something of what an operation gives, prove it of each way that the operation ends.
use premise_protocol.Base.{ℕ, ◌≡◌, refl, none, some, put, drop_key, ◌⊎◌, inl, inr, Option-cases}
use premise_protocol.Lease.{
  Number, Lease, invalid_input, AcquireRequest, RenewRequest, HolderRequest, AcquireResult,
  acquired, held, MutationResult, updated, released, ValidationResult, valid, Attempt, returns,
  throws, LeaseStore, observe_clock, valid_acquire_request, valid_renew_request,
  valid_holder_request, scope_key, active, next_token, Reason,
}
use premise_protocol.Lease.Store.{
  acquire, renew, release, validate, new_lease, renewed, find_holder, Holder, holds, fails,
}

Holder-cases : (h : Holder) → ((r : Reason) × (h ≡ fails r)) ⊎ ((l : Lease) × (h ≡ holds l))
Holder-cases (holds l) = inr (l, refl)
Holder-cases (fails r) = inl (r, refl)

module _ {ℓ} (s : LeaseStore) (now : Number) where
  pub acquire_cases :
      (P : LeaseStore × Attempt AcquireResult → Type ℓ) (r : AcquireRequest)
      → (observe_clock s now ≡ none → P (s, throws))
      → ((t : ℕ) (s1 : LeaseStore)
          → observe_clock s now ≡ some (t, s1)
          → P (s1, returns (AcquireResult.refused invalid_input)))
      → ((t : ℕ) (s1 : LeaseStore) (l : Lease)
          → observe_clock s now ≡ some (t, s1)
          → (active s1 (scope_key r.scope) t).1 ≡ some l
          → P ((active s1 (scope_key r.scope) t).0, returns (held l)))
      → ((t : ℕ) (s1 : LeaseStore)
          → observe_clock s now ≡ some (t, s1)
          → next_token (active s1 (scope_key r.scope) t).0 (scope_key r.scope) ≡ none
          → P ((active s1 (scope_key r.scope) t).0, throws))
      → ((t expires token : ℕ) (s1 s3 : LeaseStore)
          → observe_clock s now ≡ some (t, s1)
          → valid_acquire_request r t ≡ some expires
          → (active s1 (scope_key r.scope) t).1 ≡ none
          → next_token (active s1 (scope_key r.scope) t).0 (scope_key r.scope) ≡ some (token, s3)
          → P (
            record s3 { leases = put s3.leases (scope_key r.scope) (new_lease r token t expires) },
            returns (acquired (new_lease r token t expires)),
          ))
      → P (acquire s r now)
  unfolding acquire
  acquire_cases P r threw invalid busy exhausted granted =
      elim (Option-cases (observe_clock s now)) [
        | inl e ↦ rw (e, acquire) (threw e)
        | inr ((t, s1), e) ↦ elim (Option-cases (valid_acquire_request r t)) [
          | inl f ↦ rw (e, acquire, f) (invalid t s1 e)
          | inr (expires, f) ↦ elim (Option-cases (active s1 (scope_key r.scope) t).1) [
            | inr (l, g) ↦ rw (e, acquire, f, g) (busy t s1 l e g)
            | inl g ↦
                elim (Option-cases
                  (next_token (active s1 (scope_key r.scope) t).0 (scope_key r.scope))) [
                    | inl h ↦ rw (e, acquire, f, g, h) (exhausted t s1 e h)
                    | inr ((token, s3), h) ↦
                        rw (e, acquire, f, g, h) (granted t expires token s1 s3 e f g h)
                  ]
          ]
        ]
      ]

  pub renew_cases :
      (P : LeaseStore × Attempt MutationResult → Type ℓ) (r : RenewRequest)
      → (observe_clock s now ≡ none → P (s, throws))
      → ((t : ℕ) (s1 : LeaseStore)
          → observe_clock s now ≡ some (t, s1)
          → P (s1, returns (MutationResult.refused invalid_input)))
      → ((t token expires : ℕ) (s1 : LeaseStore) (reason : Reason)
          → observe_clock s now ≡ some (t, s1)
          → (find_holder s1 (scope_key r.scope) r.owner r.lease_id token t).1 ≡ fails reason
          → P (
            (find_holder s1 (scope_key r.scope) r.owner r.lease_id token t).0,
            returns (MutationResult.refused reason),
          ))
      → ((t token expires : ℕ) (s1 : LeaseStore) (l : Lease)
          → observe_clock s now ≡ some (t, s1)
          → valid_renew_request r t ≡ some (token, expires)
          → (find_holder s1 (scope_key r.scope) r.owner r.lease_id token t).1 ≡ holds l
          → P (
            record (find_holder s1 (scope_key r.scope) r.owner r.lease_id token t).0 {
              leases =
                  put
                    (find_holder s1 (scope_key r.scope) r.owner r.lease_id token t).0.leases
                    (scope_key r.scope)
                    (renewed l t expires);
            },
            returns (updated (renewed l t expires)),
          ))
      → P (renew s r now)
  unfolding renew
  renew_cases P r threw invalid failed kept = elim (Option-cases (observe_clock s now)) [
    | inl e ↦ rw (e, renew) (threw e)
    | inr ((t, s1), e) ↦ elim (Option-cases (valid_renew_request r t)) [
      | inl f ↦ rw (e, renew, f) (invalid t s1 e)
      | inr ((token, expires), f) ↦
          elim (Holder-cases (find_holder s1 (scope_key r.scope) r.owner r.lease_id token t).1) [
            | inl (reason, g) ↦ rw (e, renew, f, g) (failed t token expires s1 reason e g)
            | inr (l, g) ↦ rw (e, renew, f, g) (kept t token expires s1 l e f g)
          ]
    ]
  ]

  pub release_cases :
      (P : LeaseStore × Attempt MutationResult → Type ℓ) (r : HolderRequest)
      → (observe_clock s now ≡ none → P (s, throws))
      → ((t : ℕ) (s1 : LeaseStore)
          → observe_clock s now ≡ some (t, s1)
          → P (s1, returns (MutationResult.refused invalid_input)))
      → ((t token : ℕ) (s1 : LeaseStore) (reason : Reason)
          → observe_clock s now ≡ some (t, s1)
          → (find_holder s1 (scope_key r.scope) r.owner r.lease_id token t).1 ≡ fails reason
          → P (
            (find_holder s1 (scope_key r.scope) r.owner r.lease_id token t).0,
            returns (MutationResult.refused reason),
          ))
      → ((t token : ℕ) (s1 : LeaseStore) (l : Lease)
          → observe_clock s now ≡ some (t, s1)
          → valid_holder_request r ≡ some token
          → (find_holder s1 (scope_key r.scope) r.owner r.lease_id token t).1 ≡ holds l
          → P (
            record (find_holder s1 (scope_key r.scope) r.owner r.lease_id token t).0 {
              leases =
                  drop_key
                    (find_holder s1 (scope_key r.scope) r.owner r.lease_id token t).0.leases
                    (scope_key r.scope);
            },
            returns released,
          ))
      → P (release s r now)
  unfolding release
  release_cases P r threw invalid failed kept = elim (Option-cases (observe_clock s now)) [
    | inl e ↦ rw (e, release) (threw e)
    | inr ((t, s1), e) ↦ elim (Option-cases (valid_holder_request r)) [
      | inl f ↦ rw (e, release, f) (invalid t s1 e)
      | inr (token, f) ↦
          elim (Holder-cases (find_holder s1 (scope_key r.scope) r.owner r.lease_id token t).1) [
            | inl (reason, g) ↦ rw (e, release, f, g) (failed t token s1 reason e g)
            | inr (l, g) ↦ rw (e, release, f, g) (kept t token s1 l e f g)
          ]
    ]
  ]

  pub validate_cases :
      (P : LeaseStore × Attempt ValidationResult → Type ℓ) (r : HolderRequest)
      → (observe_clock s now ≡ none → P (s, throws))
      → ((t : ℕ) (s1 : LeaseStore)
          → observe_clock s now ≡ some (t, s1)
          → P (s1, returns (ValidationResult.refused invalid_input)))
      → ((t token : ℕ) (s1 : LeaseStore) (reason : Reason)
          → observe_clock s now ≡ some (t, s1)
          → (find_holder s1 (scope_key r.scope) r.owner r.lease_id token t).1 ≡ fails reason
          → P (
            (find_holder s1 (scope_key r.scope) r.owner r.lease_id token t).0,
            returns (ValidationResult.refused reason),
          ))
      → ((t token : ℕ) (s1 : LeaseStore) (l : Lease)
          → observe_clock s now ≡ some (t, s1)
          → valid_holder_request r ≡ some token
          → (find_holder s1 (scope_key r.scope) r.owner r.lease_id token t).1 ≡ holds l
          → P (
            (find_holder s1 (scope_key r.scope) r.owner r.lease_id token t).0,
            returns (valid l),
          ))
      → P (validate s r now)
  unfolding validate
  validate_cases P r threw invalid failed kept = elim (Option-cases (observe_clock s now)) [
    | inl e ↦ rw (e, validate) (threw e)
    | inr ((t, s1), e) ↦ elim (Option-cases (valid_holder_request r)) [
      | inl f ↦ rw (e, validate, f) (invalid t s1 e)
      | inr (token, f) ↦
          elim (Holder-cases (find_holder s1 (scope_key r.scope) r.owner r.lease_id token t).1) [
            | inl (reason, g) ↦ rw (e, validate, f, g) (failed t token s1 reason e g)
            | inr (l, g) ↦ rw (e, validate, f, g) (kept t token s1 l e f g)
          ]
    ]
  ]
