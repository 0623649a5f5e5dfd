-- ===== src/Quota.antt =====
-- What RuntimeNegativeCache (packages/runtime-core/src/receipt-cache.ts) and NegativePremiseStore
-- (packages/runtime-core/src/negative-premises.ts) have in common: a Map of bounded size, with a bound
-- for each tenant, that counts the entries of each tenant and evicts the oldest.
pub mod Counted
pub mod Evicted
pub mod Bounded
pub mod Last
pub mod Every
use premise_protocol.Base.{
  ℕ, zero, suc, ◌-◌, Bool, true, false, Text, text_eq, Option, none, some, List, [], ◌∷◌, ◌++◌,
  length, ltb, leb, if◌then◌else◌, max, Dict, put, drop_key,
}
use premise_protocol.Entries.{OrderedMap, lookup, remove}

pub record Quota (V : Type 0) : Type 0 where
  pub entries : OrderedMap V
  pub tenant_counts : Dict ℕ
  pub max_entries : ℕ
  pub max_per_tenant : Option ℕ
  pub evictions : ℕ
  pub peak_entries : ℕ

pub first_key : {V : Type 0} → (V → Bool) → OrderedMap V → Option Text
first_key p [] = none
first_key p ((k, e) ∷ es) = let rest = first_key p es in if p e then some k else rest

-- The count of a tenant, 0 where the Map has none.
abbrev pub count_of : {V : Type 0} → Quota V → Text → ℕ
count_of q t = elim (q.tenant_counts t) [ none ↦ 0 | some n ↦ n ]

module _ {V : Type 0} (tenant_of : V → Text) where
  -- The private method `delete` or `remove`, without its counters.
  pub delete : Quota V → Text → Quota V
  delete q k = elim (lookup k q.entries) [
    | none ↦ q
    | some e ↦
        let t = tenant_of e in
        let n = count_of q t in
        record q {
          entries = remove k q.entries;
          tenant_counts =
              if leb n 1 then drop_key q.tenant_counts t else put q.tenant_counts t (n - 1);
        }
  ]

  pub evict_oldest : (V → Bool) → Quota V → Quota V
  evict_oldest p q = elim (first_key p q.entries) [
    | none ↦ q
    | some k ↦ let r = delete q k in record r { evictions = suc r.evictions }
  ]

  -- The two loops, on fuel: a round takes one entry away.
  pub shrink_all : ℕ → Quota V → Quota V
  shrink_all zero q = q
  shrink_all (suc fuel) q =
      let rest = shrink_all fuel (evict_oldest (λ e. true) q) in
      if ltb q.max_entries (length q.entries) then rest else q

  pub shrink_tenant : ℕ → ℕ → Text → Quota V → Quota V
  shrink_tenant zero bound t q = q
  shrink_tenant (suc fuel) bound t q =
      let rest = shrink_tenant fuel bound t (evict_oldest (λ e. text_eq (tenant_of e) t) q) in
      if ltb bound (count_of q t) then rest else q

  pub enforce_bounds : Text → Quota V → Quota V
  enforce_bounds t q =
      let r = shrink_all (length q.entries) q in
      elim r.max_per_tenant [ none ↦ r | some bound ↦ shrink_tenant (length r.entries) bound t r ]

  -- The new entry at the end, counted.
  pub add_entry : Quota V → Text → V → Quota V
  add_entry q k e =
      let t = tenant_of e in
      let es = q.entries ++ (k, e) ∷ [] in
      record q {
        entries = es;
        tenant_counts = put q.tenant_counts t (suc (count_of q t));
        peak_entries = max q.peak_entries (length es);
      }

  -- Set the key anew, and keep the bounds.
  pub store : Quota V → Text → V → Quota V
  store q k e = enforce_bounds (tenant_of e) (add_entry (delete q k) k e)
