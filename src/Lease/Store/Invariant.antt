-- ===== src/Lease/Store/Invariant.antt =====
-- What holds of every store that a history of calls reaches.
use premise_protocol.Base.{
  ◌⊎◌, suc, put, drop_key, Option-cases, Bool-cases, inl, inr, leb, ℕ, ◌≤◌, ◌<◌, ◌≡◌, Text, some,
  true, arith,
}
use premise_protocol.Lease.{
  Reason, lease_missing, lease_expired, stale_fencing_token, owner_mismatch, lease_id_mismatch,
  observe_clock, active, identity_reason, next_token, time_of, Number, Lease, LeaseStore, counter,
  clock, scope_key, max_safe_integer, valid_text,
}
use premise_protocol.Lease.Store.{find_holder, holds, fails}

-- A lease that the store holds under a key.
pub record IsSound (s : LeaseStore) (key : Text) (l : Lease) : Type 0 where
  pub keyed : scope_key l.scope ≡ key
  pub owner : valid_text l.owner ≡ true
  pub lease_id : valid_text l.lease_id ≡ true
  pub issued : 0 < l.fencing_token
  pub counted : l.fencing_token ≤ counter s key
  pub started : l.acquired_at ≤ l.renewed_at
  pub observed : l.renewed_at ≤ clock s
  pub bounded : l.expires_at ≤ max_safe_integer

pub record Inv (s : LeaseStore) : Type 0 where
  pub sound : (key : Text) (l : Lease) → s.leases key ≡ some l → IsSound s key l
  pub tokens : (key : Text) → counter s key ≤ max_safe_integer
  pub time : clock s ≤ max_safe_integer

-- What no operation takes back.
pub record Grows (s u : LeaseStore) : Type 0 where
  pub time : clock s ≤ clock u
  pub tokens : (key : Text) → counter s key ≤ counter u key

pub Grows-refl : (s : LeaseStore) → Grows s s
Grows-refl s = record { time = omega arith; tokens = λ key. omega arith }

pub Grows-trans : {s t u : LeaseStore} → Grows s t → Grows t u → Grows s u
Grows-trans g h = record {
  time = omega arith;
  tokens = λ key. omega (arith, g.tokens key, h.tokens key);
}

abbrev pub Keeps : LeaseStore → LeaseStore → Type 0
Keeps s u = Grows s u × Inv u

-- The parts of the operations.

pub observe-Keeps :
    (s : LeaseStore) (now : Number) (t : ℕ) (u : LeaseStore)
    → Inv s
    → observe_clock s now ≡ some (t, u)
    → Grows s u × Inv u × (clock u ≡ t)
unfolding observe_clock time_of
observe-Keeps s now t u v e = (
  record { time = ground arith; tokens = λ key. ground arith },
  record {
    sound = λ key l h. ground (arith, v.sound key l);
    tokens = λ key. ground (arith, v.tokens key);
    time = ground arith;
  },
  ground arith,
)

pub drop-Keeps :
    (s : LeaseStore) (key : Text) → Inv s → Keeps s (record s { leases = drop_key s.leases key })
drop-Keeps s key v = (
  record { time = omega arith; tokens = λ j. omega arith },
  record { sound = λ j l h. ground (arith, v.sound j l); tokens = v.tokens; time = v.time },
)

pub active-Keeps : (s : LeaseStore) (key : Text) (now : ℕ) → Inv s → Keeps s (active s key now).0
unfolding active
active-Keeps s key now v = elim (Option-cases (s.leases key)) [
  | inl e ↦ rw (e, active) (Grows-refl s, v)
  | inr (l, e) ↦ elim (Bool-cases (leb l.expires_at now)) [
    | inl f ↦ rw (e, active, f) (drop-Keeps s key v)
    | inr f ↦ rw (e, active, f) (Grows-refl s, v)
  ]
]

pub find_holder-Keeps :
    (s : LeaseStore) (key owner lease_id : Text) (token now : ℕ)
    → Inv s
    → Keeps s (find_holder s key owner lease_id token now).0
unfolding find_holder
find_holder-Keeps s key owner lease_id token now v = elim (Option-cases (s.leases key)) [
  | inl e ↦ rw (e, find_holder) (Grows-refl s, v)
  | inr (l, e) ↦ elim (Bool-cases (leb l.expires_at now)) [
    | inl f ↦ rw (e, find_holder, f) (drop-Keeps s key v)
    | inr f ↦ elim (Option-cases (identity_reason l owner lease_id token)) [
      | inl g ↦ rw (e, find_holder, f, g) (Grows-refl s, v)
      | inr (reason, g) ↦ rw (e, find_holder, f, g) (Grows-refl s, v)
    ]
  ]
]

-- The holder that is found has a lease that has not run out, under its own name and token.
pub find_holder-holds :
    (s : LeaseStore) (key owner lease_id : Text) (token now : ℕ) (l : Lease)
    → (find_holder s key owner lease_id token now).1 ≡ holds l
    → (s.leases key ≡ some l)
      × (now < l.expires_at)
      × (l.owner ≡ owner)
      × (l.lease_id ≡ lease_id)
      × (l.fencing_token ≡ token)
      × ((find_holder s key owner lease_id token now).0 ≡ s)
unfolding find_holder identity_reason
find_holder-holds s key owner lease_id token now l h = ground arith

pub next_token-Keeps :
    (s : LeaseStore) (key : Text) (token : ℕ) (u : LeaseStore)
    → Inv s
    → next_token s key ≡ some (token, u)
    → Grows s u × Inv u × (token ≡ suc (counter s key)) × (counter u key ≡ token)
unfolding next_token
next_token-Keeps s key token u v e = (
  record { time = ground arith; tokens = λ j. ground arith },
  record {
    sound = λ j l h. ground (arith, v.sound j l);
    tokens = λ j. ground (arith, v.tokens j);
    time = ground arith;
  },
  ground arith,
  ground arith,
)

pub put-Keeps :
    (s : LeaseStore) (key : Text) (l : Lease)
    → Inv s
    → IsSound s key l
    → Keeps s (record s { leases = put s.leases key l })
put-Keeps s key l v new = (
  record { time = omega arith; tokens = λ j. omega arith },
  record { sound = λ j k h. ground (arith, v.sound j k); tokens = v.tokens; time = v.time },
)

-- The reasons for which no holder is found.
abbrev pub IsRefusal : Reason → Type 0
IsRefusal r =
    (r ≡ lease_missing)
    ⊎ (r ≡ lease_expired)
    ⊎ (r ≡ stale_fencing_token)
    ⊎ (r ≡ owner_mismatch)
    ⊎ (r ≡ lease_id_mismatch)

pub find_holder-fails :
    (s : LeaseStore) (key owner lease_id : Text) (token now : ℕ) (reason : Reason)
    → (find_holder s key owner lease_id token now).1 ≡ fails reason
    → IsRefusal reason
unfolding find_holder identity_reason
find_holder-fails s key owner lease_id token now reason h = ground arith
