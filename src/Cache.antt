-- ===== src/Cache.antt =====
-- RuntimeReceiptCache of packages/runtime-core/src/receipt-cache.ts, over any key of a scope. Its Map
-- is the list of its entries in the order of their insertion, which the eviction observes.
pub mod Bounded
pub mod Hits
mod Tests
use premise_protocol.Base.{
  ℕ, suc, Bool, true, false, not, ◌||◌, Text, Option, none, some, List, [], ◌∷◌, ◌++◌, length, ltb,
  leb, if◌then◌else◌, max,
}
use premise_protocol.Times.{before, is_timestamp}
use premise_protocol.Entries.{OrderedMap, lookup, remove}

-- What the cache calls. The key of a scope is `none` where premiseValidationScopeKey throws, a time
-- is `none` where Date.parse gives NaN, and is else counted from the least time that it can give.
-- `clone` is the way through JSON.stringify and JSON.parse, with `none` where it throws.
pub record Host (S T : Type 0) : Type 0 where
  pub key_of : S → Option Text
  pub parse_date : Text → Option ℕ
  pub clone : T → Option T

pub record Receipt (S T : Type 0) : Type 0 where
  pub scope : S
  pub is_fresh : Bool
  pub valid : Bool
  pub observed_at : Text
  pub expires_at : Text
  pub value : T
  pub semantic_fingerprint : Option Text

pub record Cache (S T : Type 0) : Type 0 where
  pub entries : OrderedMap (Receipt S T)
  pub max_entries : ℕ
  pub hits : ℕ
  pub misses : ℕ
  pub stale_rejections : ℕ
  pub evictions : ℕ

pub data Lookup (S T : Type 0) : Type 0 where
  hit : Receipt S T → Lookup S T
  not_found expired invalid_scope : Lookup S T

pub record CacheStats : Type 0 where
  pub hits : ℕ
  pub misses : ℕ
  pub stale_rejections : ℕ
  pub evictions : ℕ
  pub entries : ℕ

abbrev max_safe_integer : ℕ
max_safe_integer = 0x1fffffffffffff

abbrev pub cache_of : {S T : Type 0} → ℕ → Cache S T
cache_of bound = record {
  entries = [];
  max_entries = bound;
  hits = 0;
  misses = 0;
  stale_rejections = 0;
  evictions = 0;
}

abbrev pub bound_of : Option ℕ → ℕ
bound_of none = 1024
bound_of (some n) = n

-- The constructor; `none` where it throws. An option that is no natural number throws like 0.
pub create : {S T : Type 0} → Option ℕ → Option (Cache S T)
create asked =
    if ltb (bound_of asked) 1 || ltb max_safe_integer (bound_of asked)
    then none
    else some (cache_of (bound_of asked))

-- The loop of `put`: the entries that stay, and the count of evictions.
pub evict : {V : Type 0} → ℕ → OrderedMap V → ℕ → OrderedMap V × ℕ
evict bound [] n = ([], n)
evict bound (e ∷ es) n =
    let rest = evict bound es (suc n) in if ltb bound (length (e ∷ es)) then rest else (e ∷ es, n)

module _ {S T : Type 0} (host : Host S T) where
  -- The tests of `put`, then the key; `none` where one of them throws.
  pub accept : Receipt S T → Option Text
  accept r =
      if not r.is_fresh
        || not r.valid
        || not (is_timestamp host.parse_date r.observed_at)
        || not (is_timestamp host.parse_date r.expires_at)
        || not (before host.parse_date r.observed_at r.expires_at)
      then none
      else host.key_of r.scope

  -- The cache afterwards, and the key, or `none` where `put` throws: a value that cannot be cloned
  -- throws when the entry of its key is already deleted.
  pub put : Cache S T → Receipt S T → Cache S T × Option Text
  put c r = elim (accept r) [
    | none ↦ (c, none)
    | some key ↦ elim (host.clone r.value) [
      | none ↦ (record c { entries = remove key c.entries }, none)
      | some v ↦
          let (kept, count) =
            evict c.max_entries (remove key c.entries ++ (key, record r { value = v }) ∷ [])
              c.evictions in
          (record c { entries = kept; evictions = count }, some key)
    ]
  ]

  -- The cache afterwards, and the answer, or `none` where `get` throws.
  pub get : Cache S T → S → Text → Cache S T × Option (Lookup S T)
  get c scope now =
      if not (is_timestamp host.parse_date now) then (c, none) else elim (host.key_of scope) [
        | none ↦ (c, some invalid_scope)
        | some key ↦ elim (lookup key c.entries) [
          | none ↦ (record c { misses = suc c.misses }, some not_found)
          | some r ↦
              if not (before host.parse_date now r.expires_at)
              then (
                record c {
                  entries = remove key c.entries;
                  stale_rejections = suc c.stale_rejections;
                },
                some expired,
              )
              else (
                record c { hits = suc c.hits },
                elim (host.clone r.value) [
                  | none ↦ none
                  | some v ↦ some (hit (record r { value = v }))
                ],
              )
        ]
      ]

  pub invalidate : Cache S T → S → Cache S T × Bool
  invalidate c scope = elim (host.key_of scope) [
    | none ↦ (c, false)
    | some key ↦ (
      record c { entries = remove key c.entries },
      elim (lookup key c.entries) [ none ↦ false | some _ ↦ true ],
    )
  ]

pub clear : {S T : Type 0} → Cache S T → Cache S T
clear c = record c { entries = [] }

pub stats : {S T : Type 0} → Cache S T → CacheStats
stats c = record {
  hits = c.hits;
  misses = c.misses;
  stale_rejections = c.stale_rejections;
  evictions = c.evictions;
  entries = length c.entries;
}

pub data Call (S T : Type 0) : Type 0 where
  puts : Receipt S T → Call S T
  gets : S → Text → Call S T
  invalidates : S → Call S T
  clears : Call S T

pub step : {S T : Type 0} → Host S T → Cache S T → Call S T → Cache S T
step host c (puts r) = (put host c r).0
step host c (gets scope now) = (get host c scope now).0
step host c (invalidates scope) = (invalidate host c scope).0
step host c clears = clear c

pub run : {S T : Type 0} → Host S T → Cache S T → List (Call S T) → Cache S T
run host c [] = c
run host c (x ∷ xs) = run host (step host c x) xs
