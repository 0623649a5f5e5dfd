-- ===== src/Lease/Manager/Calls/Safety.antt =====
-- What the manager promises over any store, one that lies or throws included.
use premise_protocol.Base.{
  ℕ, ◌≤◌, ◌<◌, ◌≡◌, refl, ap, true, Option, none, some, arith, inl, inr, Bool-cases,
}
use premise_protocol.Lease.{
  Number, nat, Scope, Lease, HolderRequest, max_safe_integer, time_of, or_zero, valid_text, Attempt,
  AcquireResult, MutationResult, ValidationResult, returns, throws,
}
use premise_protocol.Lease.Manager.{
  StoreOps, Verdict, acquired, renewed, valid, successful, AcquireInput, RenewInput, Decision,
  Manager, valid_lease_for_scope, same_scope, reads, read_clock,
}
use premise_protocol.Lease.Manager.Calls.Cases.{acquire_cases, renew_cases, validate_cases}
use premise_protocol.Lease.Manager.Calls.{
  acquire, renew, validate, answer_acquire, answer_renew, answer_validate,
}

-- A lease that a caller may act on at time t.
pub record IsLive (scope : Scope) (t : ℕ) (l : Lease) : Type 0 where
  pub of_scope : l.scope ≡ scope
  pub owner : valid_text l.owner ≡ true
  pub lease_id : valid_text l.lease_id ≡ true
  pub token : 0 < l.fencing_token
  pub token_safe : l.fencing_token ≤ max_safe_integer
  pub acquired : l.acquired_at ≤ l.renewed_at
  pub renewed : l.renewed_at ≤ t
  pub unexpired : t < l.expires_at
  pub expiry_safe : l.expires_at ≤ max_safe_integer

same_scope-eq : (a b : Scope) → same_scope a b ≡ true → a ≡ b
unfolding same_scope
same_scope-eq a b h = ground arith

valid_lease-IsLive :
    (l : Lease) (scope : Scope) (t : ℕ) → valid_lease_for_scope l scope t ≡ true → IsLive scope t l
unfolding valid_lease_for_scope
valid_lease-IsLive l scope t h = ground (arith, same_scope-eq l.scope scope)

pub IsLive-valid_lease :
    (l : Lease) (scope : Scope) (t : ℕ) → IsLive scope t l → valid_lease_for_scope l scope t ≡ true
unfolding valid_lease_for_scope same_scope
IsLive-valid_lease l scope t h = ground arith

module _ {S : Type 0} where
  abbrev pub last : Manager S → ℕ
  last m = or_zero m.last_observed_at

  -- The clock, where it is accepted, gives a safe time that is not before the last one.
  pub read_clock-reads :
      (m u : Manager S) (now : Option Number) (t : ℕ)
      → read_clock m now ≡ reads t u
      → (now ≡ some (nat t))
        × (last m ≤ t)
        × (t ≤ max_safe_integer)
        × (u ≡ record m { last_observed_at = some t })
  unfolding read_clock time_of
  read_clock-reads m u none t h = cc
  read_clock-reads m u (some n) t h = ground arith

answer_acquire-accepted :
    (i : AcquireInput) (t : ℕ) (a : Attempt AcquireResult)
    → (answer_acquire i t a).accepted ≡ true
    → (l : Lease) × (answer_acquire i t a ≡ successful acquired (some l)) × IsLive i.scope t l
unfolding answer_acquire
answer_acquire-accepted i t throws h = cc
answer_acquire-accepted i t (returns (AcquireResult.acquired l)) h =
    elim (Bool-cases (valid_lease_for_scope l i.scope t)) [
      | inl e ↦ (l, rw e refl, valid_lease-IsLive l i.scope t e)
      | inr e ↦ cc (rw e at h)
    ]
answer_acquire-accepted i t (returns (AcquireResult.held l)) h =
    elim (Bool-cases (valid_lease_for_scope l i.scope t)) [
      | inl e ↦ cc (rw e at h)
      | inr e ↦ cc (rw e at h)
    ]
answer_acquire-accepted i t (returns (AcquireResult.refused r)) h = cc

answer_renew-accepted :
    (i : RenewInput) (t : ℕ) (a : Attempt MutationResult)
    → (answer_renew i t a).accepted ≡ true
    → (l : Lease) × (answer_renew i t a ≡ successful renewed (some l)) × IsLive i.scope t l
unfolding answer_renew
answer_renew-accepted i t throws h = cc
answer_renew-accepted i t (returns (MutationResult.updated l)) h =
    elim (Bool-cases (valid_lease_for_scope l i.scope t)) [
      | inl e ↦ (l, rw e refl, valid_lease-IsLive l i.scope t e)
      | inr e ↦ cc (rw e at h)
    ]
answer_renew-accepted i t (returns MutationResult.released) h = cc
answer_renew-accepted i t (returns (MutationResult.refused r)) h = cc

answer_validate-accepted :
    (i : HolderRequest) (t : ℕ) (a : Attempt ValidationResult)
    → (answer_validate i t a).accepted ≡ true
    → (l : Lease) × (answer_validate i t a ≡ successful valid (some l)) × IsLive i.scope t l
unfolding answer_validate
answer_validate-accepted i t throws h = cc
answer_validate-accepted i t (returns (ValidationResult.valid l)) h =
    elim (Bool-cases (valid_lease_for_scope l i.scope t)) [
      | inl e ↦ (l, rw e refl, valid_lease-IsLive l i.scope t e)
      | inr e ↦ cc (rw e at h)
    ]
answer_validate-accepted i t (returns (ValidationResult.refused r)) h = cc

module _ {S : Type 0} (m : Manager S) (scope : Scope) (now : Option Number)
    (verdict : Verdict) where
  -- A decision that accepts does so with a lease of the scope that is alive at an accepted time.
  abbrev pub AcceptsLive : Manager S × Decision → Type 0
  AcceptsLive (u, d) =
      d.accepted ≡ true
      → (t : ℕ) × (l : Lease) × (d ≡ successful verdict (some l))
        × IsLive scope t l
        × (now ≡ some (nat t))
        × (last m ≤ t)
        × (u.last_observed_at ≡ some t)

-- The manager fails closed over every store: whatever the store answers, and also if it throws, an
-- acquisition, a renewal or a validation is accepted only with a lease of the scope that was asked
-- for, with sound fields, that has not run out at the time that the clock gave; and that time is a
-- safe integer which does not go back behind the last one, and is recorded.
pub accepts_live :
    {S : Type 0} (ops : StoreOps S) (m : Manager S) (now : Option Number)
    → ((i : AcquireInput) → AcceptsLive m i.scope now acquired (acquire ops m i now))
      × ((i : RenewInput) → AcceptsLive m i.scope now renewed (renew ops m i now))
      × ((i : HolderRequest) → AcceptsLive m i.scope now valid (validate ops m i now))
accepts_live ops m now = (
  λ i.
      acquire_cases ops m now (AcceptsLive m i.scope now acquired) i (λ r n h. cc) (λ t u e h. cc)
        (λ t d expires u ok e f g h.
          let (l, same, live) = answer_acquire-accepted i t _ h in
          let (at, after, _, next) = read_clock-reads m u now t e in
          (t, l, same, live, at, after, ap (λ (x : Manager _). x.last_observed_at) next)),
  λ i.
      renew_cases ops m now (AcceptsLive m i.scope now renewed) i (λ r n h. cc) (λ t u e h. cc)
        (λ t d expires u ok e f g h.
          let (l, same, live) = answer_renew-accepted i t _ h in
          let (at, after, _, next) = read_clock-reads m u now t e in
          (t, l, same, live, at, after, ap (λ (x : Manager _). x.last_observed_at) next)),
  λ i.
      validate_cases ops m now (AcceptsLive m i.scope now valid) i (λ r n h. cc)
        (λ t u ok e h.
          let (l, same, live) = answer_validate-accepted i t _ h in
          let (at, after, _, next) = read_clock-reads m u now t e in
          (t, l, same, live, at, after, ap (λ (x : Manager _). x.last_observed_at) next)),
)
