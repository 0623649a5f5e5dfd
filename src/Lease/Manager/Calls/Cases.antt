-- ===== src/Lease/Manager/Calls/Cases.antt =====
-- To prove something of what a method gives, prove it of each way that the method ends.
use premise_protocol.Base.{
  ℕ, ◌≡◌, ◌≢◌, none, arith, refl, true, some, ◌⊎◌, inl, inr, Option, Bool-cases, Option-cases,
}
use premise_protocol.Lease.{Number, nat, Reason, HolderRequest, invalid_input, store_unavailable}
use premise_protocol.Lease.Manager.{
  StoreOps, AcquireInput, RenewInput, Decision, Manager, rejected_for, ClockReading, reads, fails,
  read_clock, duration, expiry, valid_acquire_input, valid_renew_input, valid_mutation_input,
}
use premise_protocol.Lease.Manager.Calls.{
  acquire, renew, release, validate, answer_acquire, answer_renew, answer_release, answer_validate,
  acquire_request, renew_request,
}

reading_cases :
    {S : Type 0} (c : ClockReading S)
    → ((r : Reason) × (c ≡ fails r)) ⊎ ((t : ℕ) × (u : Manager S) × (c ≡ reads t u))
reading_cases (reads t u) = inr (t, u, refl)
reading_cases (fails r) = inl (r, refl)

read_clock-fails :
    {S : Type 0} (m : Manager S) (now : Option Number) (r : Reason)
    → read_clock m now ≡ fails r
    → r ≢ store_unavailable
unfolding read_clock
read_clock-fails m none r h = ground arith
read_clock-fails m (some n) r h = ground arith

module _ {ℓ} {S : Type 0} (ops : StoreOps S) (m : Manager S) (now : Option Number) where
  pub acquire_cases :
      (P : Manager S × Decision → Type ℓ) (i : AcquireInput)
      → ((r : Reason) → r ≢ store_unavailable → P (m, rejected_for r))
      → ((t : ℕ) (u : Manager S) → read_clock m now ≡ reads t u → P (u, rejected_for invalid_input))
      → ((t d expires : ℕ) (u : Manager S)
          → valid_acquire_input i ≡ true
          → read_clock m now ≡ reads t u
          → duration u i.duration_ms ≡ some d
          → expiry t d ≡ some expires
          → let r = ops.acquire u.store (acquire_request i expires) (nat t) in
            P (record u { store = r.0 }, answer_acquire i t r.1))
      → P (acquire ops m i now)
  unfolding acquire
  acquire_cases P i refused invalid asked = elim (Bool-cases (valid_acquire_input i)) [
    | inl ok ↦ elim (reading_cases (read_clock m now)) [
      | inl (r, e) ↦ rw (ok, acquire, e) (refused r (read_clock-fails m now r e))
      | inr (t, u, e) ↦ elim (Option-cases (duration u i.duration_ms)) [
        | inl f ↦ rw (ok, acquire, e, f) (invalid t u e)
        | inr (d, f) ↦ elim (Option-cases (expiry t d)) [
          | inl g ↦ rw (ok, acquire, e, f, g) (invalid t u e)
          | inr (expires, g) ↦ rw (ok, acquire, e, f, g) (asked t d expires u ok e f g)
        ]
      ]
    ]
    | inr bad ↦ rw (bad, acquire) (refused invalid_input (λ p. cc))
  ]

  pub renew_cases :
      (P : Manager S × Decision → Type ℓ) (i : RenewInput)
      → ((r : Reason) → r ≢ store_unavailable → P (m, rejected_for r))
      → ((t : ℕ) (u : Manager S) → read_clock m now ≡ reads t u → P (u, rejected_for invalid_input))
      → ((t d expires : ℕ) (u : Manager S)
          → valid_renew_input i ≡ true
          → read_clock m now ≡ reads t u
          → duration u i.duration_ms ≡ some d
          → expiry t d ≡ some expires
          → let r = ops.renew u.store (renew_request i expires) (nat t) in
            P (record u { store = r.0 }, answer_renew i t r.1))
      → P (renew ops m i now)
  unfolding renew
  renew_cases P i refused invalid asked = elim (Bool-cases (valid_renew_input i)) [
    | inl ok ↦ elim (reading_cases (read_clock m now)) [
      | inl (r, e) ↦ rw (ok, renew, e) (refused r (read_clock-fails m now r e))
      | inr (t, u, e) ↦ elim (Option-cases (duration u i.duration_ms)) [
        | inl f ↦ rw (ok, renew, e, f) (invalid t u e)
        | inr (d, f) ↦ elim (Option-cases (expiry t d)) [
          | inl g ↦ rw (ok, renew, e, f, g) (invalid t u e)
          | inr (expires, g) ↦ rw (ok, renew, e, f, g) (asked t d expires u ok e f g)
        ]
      ]
    ]
    | inr bad ↦ rw (bad, renew) (refused invalid_input (λ p. cc))
  ]

  pub release_cases :
      (P : Manager S × Decision → Type ℓ) (i : HolderRequest)
      → ((r : Reason) → r ≢ store_unavailable → P (m, rejected_for r))
      → ((t : ℕ) (u : Manager S)
          → valid_mutation_input i ≡ true
          → read_clock m now ≡ reads t u
          → let r = ops.release u.store i (nat t) in
            P (record u { store = r.0 }, answer_release r.1))
      → P (release ops m i now)
  unfolding release
  release_cases P i refused asked = elim (Bool-cases (valid_mutation_input i)) [
    | inl ok ↦ elim (reading_cases (read_clock m now)) [
      | inl (r, e) ↦ rw (ok, release, e) (refused r (read_clock-fails m now r e))
      | inr (t, u, e) ↦ rw (ok, release, e) (asked t u ok e)
    ]
    | inr bad ↦ rw (bad, release) (refused invalid_input (λ p. cc))
  ]

  pub validate_cases :
      (P : Manager S × Decision → Type ℓ) (i : HolderRequest)
      → ((r : Reason) → r ≢ store_unavailable → P (m, rejected_for r))
      → ((t : ℕ) (u : Manager S)
          → valid_mutation_input i ≡ true
          → read_clock m now ≡ reads t u
          → let r = ops.validate u.store i (nat t) in
            P (record u { store = r.0 }, answer_validate i t r.1))
      → P (validate ops m i now)
  unfolding validate
  validate_cases P i refused asked = elim (Bool-cases (valid_mutation_input i)) [
    | inl ok ↦ elim (reading_cases (read_clock m now)) [
      | inl (r, e) ↦ rw (ok, validate, e) (refused r (read_clock-fails m now r e))
      | inr (t, u, e) ↦ rw (ok, validate, e) (asked t u ok e)
    ]
    | inr bad ↦ rw (bad, validate) (refused invalid_input (λ p. cc))
  ]
