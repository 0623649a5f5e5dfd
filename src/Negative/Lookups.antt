-- ===== src/Negative/Lookups.antt =====
-- What the negative cache answers.
use premise_protocol.Base.{
  ℕ, ◌≡◌, refl, inl, inr, arith, true, not, ◌||◌, Text, is_empty, Option, some, Option-cases,
  Bool-cases,
}
use premise_protocol.Times.{before, is_timestamp}
use premise_protocol.Entries.{lookup}
use premise_protocol.Quota.{store}
use premise_protocol.Quota.Counted.{Inv}
use premise_protocol.Quota.Last.{HasRoom, store-lookup}
use premise_protocol.Negative.{Host, Entry, NegativeCache, negative, tenant_of, put, get}

before-is_timestamp :
    (parse_date : Text → Option ℕ) (now expiry : Text)
    → before parse_date now expiry ≡ true
    → is_timestamp parse_date now ≡ true
unfolding before is_timestamp
before-is_timestamp parse_date now expiry h = ground arith

module _ {S : Type 0} (host : Host S) where
  get_found :
      (c : NegativeCache) (scope : S) (now key : Text) (e : Entry)
      → host.key_of scope ≡ some key
      → lookup key c.quota.entries ≡ some e
      → before host.parse_date now e.expires_at ≡ true
      → (get host c scope now).1 ≡ some (negative e.reason)
  unfolding get
  get_found c scope now key e k f b =
      let t = before-is_timestamp host.parse_date now e.expires_at b in rw (t, k, f, b, get) refl

  -- A reason that `put` took for a scope is what `get` answers for it at every time before it expires:
  -- neither the bound on all entries nor that on the tenant's evicts it on its way in.
  put-negative :
      (c : NegativeCache) (scope : S) (reason expires_at key now : Text)
      → HasRoom c.quota
      → Inv tenant_of c.quota
      → (put host c scope reason expires_at).1 ≡ some key
      → before host.parse_date now expires_at ≡ true
      → (get host (put host c scope reason expires_at).0 scope now).1 ≡ some (negative reason)
  unfolding put
  put-negative c scope reason expires_at key now room i h b =
      elim (Bool-cases (is_empty reason || not (is_timestamp host.parse_date expires_at))) [
        | inl bad ↦ ground (arith, h, bad)
        | inr good ↦ elim (Option-cases (host.key_of scope)) [
          | inl n ↦ ground (arith, h, good, n)
          | inr (k, is) ↦
              let entry : Entry = record {
                tenant_id = host.tenant_id scope;
                reason = reason;
                expires_at = expires_at;
              } in
              let after : NegativeCache = record c { quota = store tenant_of c.quota k entry } in
              let done : (put host c scope reason expires_at).0 ≡ after = rw (good, is, put) refl in
              rw done (
                get_found after scope now k entry is (store-lookup tenant_of c.quota k entry room i)
                  b)
        ]
      ]
