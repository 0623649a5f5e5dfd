-- ===== src/Negative.antt =====
-- RuntimeNegativeCache of packages/runtime-core/src/receipt-cache.ts: reasons why a scope could not be
-- validated, kept until they expire, over any key of a scope.
pub mod Bounded
pub mod Lookups
mod Tests
use premise_protocol.Base.{
  ℕ, suc, Bool, true, false, not, ◌||◌, Text, is_empty, Option, none, some, List, [], ◌∷◌, length,
  ltb, if◌then◌else◌, empty,
}
use premise_protocol.Times.{before, is_timestamp}
use premise_protocol.Entries.{lookup}
use premise_protocol.Quota
use premise_protocol.Quota.{Quota, delete, store}

-- What the cache calls: premiseValidationScopeKey with `none` where it throws, and Date.parse.
pub record Host (S : Type 0) : Type 0 where
  pub key_of : S → Option Text
  pub tenant_id : S → Text
  pub parse_date : Text → Option ℕ

pub record Entry : Type 0 where
  pub tenant_id : Text
  pub reason : Text
  pub expires_at : Text

pub record NegativeCache : Type 0 where
  pub quota : Quota Entry
  pub hits : ℕ
  pub misses : ℕ
  pub expirations : ℕ

pub data Answer : Type 0 where
  negative : Text → Answer
  miss : Answer

pub record Stats : Type 0 where
  pub hits : ℕ
  pub misses : ℕ
  pub expirations : ℕ
  pub evictions : ℕ
  pub entries : ℕ
  pub peak_entries : ℕ

abbrev max_safe_integer : ℕ
max_safe_integer = 0x1fffffffffffff

-- Not a positive safe integer. An option that is no natural number throws like 0.
pub is_bad_bound : ℕ → Bool
is_bad_bound n = ltb n 1 || ltb max_safe_integer n

abbrev pub bound_of : Option ℕ → ℕ
bound_of none = 1024
bound_of (some n) = n

abbrev pub is_bad_option : Option ℕ → Bool
is_bad_option none = false
is_bad_option (some n) = is_bad_bound n

abbrev pub cache_of : ℕ → Option ℕ → NegativeCache
cache_of bound per_tenant = record {
  quota = record {
    entries = [];
    tenant_counts = empty;
    max_entries = bound;
    max_per_tenant = per_tenant;
    evictions = 0;
    peak_entries = 0;
  };
  hits = 0;
  misses = 0;
  expirations = 0;
}

-- The constructor; `none` where it throws.
pub create : Option ℕ → Option ℕ → Option NegativeCache
create max_entries per_tenant =
    if is_bad_bound (bound_of max_entries) || is_bad_option per_tenant
    then none
    else some (cache_of (bound_of max_entries) per_tenant)

abbrev pub tenant_of : Entry → Text
tenant_of e = e.tenant_id

module _ {S : Type 0} (host : Host S) where
  -- The cache afterwards, and the key, or `none` where `put` throws.
  pub put : NegativeCache → S → Text → Text → NegativeCache × Option Text
  put c scope reason expires_at =
      if is_empty reason || not (is_timestamp host.parse_date expires_at)
      then (c, none)
      else elim (host.key_of scope) [
        | none ↦ (c, none)
        | some key ↦
            let entry : Entry = record {
              tenant_id = host.tenant_id scope;
              reason = reason;
              expires_at = expires_at;
            } in
            (record c { quota = store tenant_of c.quota key entry }, some key)
      ]

  -- The cache afterwards, and the answer, or `none` where `get` throws.
  pub get : NegativeCache → S → Text → NegativeCache × Option Answer
  get c scope now =
      if not (is_timestamp host.parse_date now) then (c, none) else elim (host.key_of scope) [
        | none ↦ (record c { misses = suc c.misses }, some miss)
        | some key ↦ elim (lookup key c.quota.entries) [
          | none ↦ (record c { misses = suc c.misses }, some miss)
          | some e ↦
              if not (before host.parse_date now e.expires_at)
              then (
                record c {
                  quota = delete tenant_of c.quota key;
                  expirations = suc c.expirations;
                  misses = suc c.misses;
                },
                some miss,
              )
              else (record c { hits = suc c.hits }, some (negative e.reason))
        ]
      ]

pub clear : NegativeCache → NegativeCache
clear c = record c { quota = record (c.quota) { entries = []; tenant_counts = empty } }

pub stats : NegativeCache → Stats
stats c = record {
  hits = c.hits;
  misses = c.misses;
  expirations = c.expirations;
  evictions = c.quota.evictions;
  entries = length c.quota.entries;
  peak_entries = c.quota.peak_entries;
}

pub data Call (S : Type 0) : Type 0 where
  puts : S → Text → Text → Call S
  gets : S → Text → Call S
  clears : Call S

pub step : {S : Type 0} → Host S → NegativeCache → Call S → NegativeCache
step host c (puts scope reason expires_at) = (put host c scope reason expires_at).0
step host c (gets scope now) = (get host c scope now).0
step host c clears = clear c

pub run : {S : Type 0} → Host S → NegativeCache → List (Call S) → NegativeCache
run host c [] = c
run host c (x ∷ xs) = run host (step host c x) xs
