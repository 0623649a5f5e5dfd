-- ===== src/Cache/Hits.antt =====
-- What a lookup in the cache returns.
use premise_protocol.Base.{
  ℕ, suc, ◌≤◌, ◌≡◌, refl, sym, ap, ◌∙◌, inl, inr, true, false, arith, Text, none, some, [], ◌∷◌,
  ◌++◌, length, ltb, Option-cases, Bool-cases,
}
use premise_protocol.Entries.{
  OrderedMap, lookup, remove, lookup-remove, lookup-last, lookup-All, absent-tail, some_inj,
}
use premise_protocol.Cache.{Host, Receipt, Cache, hit, evict, accept, put, get}
use premise_protocol.Times.{before, is_timestamp}
use premise_protocol.Cache.Bounded.{Sound, Inv}

evict-last :
    {V : Type 0} (bound : ℕ) (es : OrderedMap V) (k : Text) (v : V) (n : ℕ)
    → 1 ≤ bound
    → lookup k es ≡ none
    → lookup k (evict bound (es ++ (k, v) ∷ []) n).0 ≡ some v
unfolding evict
evict-last bound [] k v n pos h =
    let fits : ltb bound 1 ≡ false = ground arith in rw fits (lookup-last k v [] h)
evict-last bound (e ∷ es) k v n pos h =
    elim (Bool-cases (ltb bound (length (e ∷ es ++ (k, v) ∷ [])))) [
      | inl over ↦ rw over (evict-last bound es k v (suc n) pos (absent-tail k e es h))
      | inr fits ↦ rw fits (lookup-last k v (e ∷ es) h)
    ]

hit_inj : {S T : Type 0} {x y : Receipt S T} → hit x ≡ hit y → x ≡ y
hit_inj e = cc

module _ {S T : Type 0} (host : Host S T) where
  before-is_timestamp :
      (now expiry : Text)
      → before host.parse_date now expiry ≡ true
      → is_timestamp host.parse_date now ≡ true
  unfolding before is_timestamp
  before-is_timestamp now expiry h = ground arith

  get_found :
      (c : Cache S T) (scope : S) (now key : Text) (r : Receipt S T) (v : T)
      → host.key_of scope ≡ some key
      → lookup key c.entries ≡ some r
      → before host.parse_date now r.expires_at ≡ true
      → host.clone r.value ≡ some v
      → (get host c scope now).1 ≡ some (hit (record r { value = v }))
  unfolding get
  get_found c scope now key r v k f b m =
      let t = before-is_timestamp now r.expires_at b in rw (t, k, f, b, m, get) refl

  accept-key_of :
      (r : Receipt S T) (key : Text) → accept host r ≡ some key → host.key_of r.scope ≡ some key
  unfolding accept
  accept-key_of r key h = ground arith

  -- If the host's clone gives values that it copies as they are, a receipt that `put` took is the answer
  -- of `get` for its scope at every time before it expires, with the copied value: making room for it
  -- does not evict it.
  pub put-get :
      (c : Cache S T) (r : Receipt S T) (key now : Text)
      → 1 ≤ c.max_entries
      → ((u w : T) → host.clone u ≡ some w → host.clone w ≡ some w)
      → (put host c r).1 ≡ some key
      → before host.parse_date now r.expires_at ≡ true
      → (v : T) × (host.clone r.value ≡ some v)
        × ((get host (put host c r).0 r.scope now).1 ≡ some (hit (record r { value = v })))
  unfolding put
  put-get c r key now pos copies h b = elim (Option-cases (accept host r)) [
    | inl no_key ↦ ground (arith, no_key, h)
    | inr (k, a) ↦ elim (Option-cases (host.clone r.value)) [
      | inl no_value ↦ ground (arith, a, no_value, h)
      | inr (v, m) ↦
          let stored : Receipt S T = record r { value = v } in
          let es : OrderedMap (Receipt S T) = remove k c.entries ++ (k, stored) ∷ [] in
          let kept = evict c.max_entries es c.evictions in
          let after : Cache S T = record c { entries = kept.0; evictions = kept.1 } in
          let done : (put host c r).0 ≡ after = rw (a, m, put) refl in
          let last : lookup k kept.0 ≡ some stored =
            evict-last c.max_entries (remove k c.entries) k stored c.evictions pos
              (lookup-remove k c.entries) in
          (
            v,
            m,
            rw done (
                get_found after r.scope now k stored v (accept-key_of r k a) last b
                  (copies r.value v m)),
          )
    ]
  ]

  -- What `get` answers in a sound cache is a valid, fresh receipt of a scope with the same key, and it is
  -- not handed out at or after its expiry.
  get-Sound :
      (c : Cache S T) (scope : S) (now : Text) (r : Receipt S T)
      → Inv host c
      → (get host c scope now).1 ≡ some (hit r)
      → (host.key_of r.scope ≡ host.key_of scope)
        × (r.is_fresh ≡ true)
        × (r.valid ≡ true)
        × (before host.parse_date now r.expires_at ≡ true)
  unfolding get
  get-Sound c scope now r i h = elim (Bool-cases (is_timestamp host.parse_date now)) [
    | inr bad ↦ ground (arith, h, bad)
    | inl time ↦ elim (Option-cases (host.key_of scope)) [
      | inl no_key ↦ ground (arith, h, time, no_key)
      | inr (key, k) ↦ elim (Option-cases (lookup key c.entries)) [
        | inl missing ↦ ground (arith, h, time, k, missing)
        | inr (q, f) ↦ elim (Bool-cases (before host.parse_date now q.expires_at)) [
          | inr late ↦ ground (arith, h, time, k, f, late)
          | inl live ↦ elim (Option-cases (host.clone q.value)) [
            | inl lost ↦ ground (arith, h, time, k, f, live, lost)
            | inr (v, m) ↦
                let same : record q { value = v } ≡ r =
                  hit_inj (some_inj (sym (get_found c scope now key q v k f live m) ∙ h)) in
                let (is_fresh, valid, before_expiry, at_key) =
                  lookup-All (Sound host) key q c.entries i.sound f in
                (
                  ap (λ x. host.key_of x.scope) (sym same) ∙ at_key ∙ sym k,
                  ap (λ x. x.is_fresh) (sym same) ∙ is_fresh,
                  ap (λ x. x.valid) (sym same) ∙ valid,
                  ap (λ x. before host.parse_date now x.expires_at) (sym same) ∙ live,
                )
          ]
        ]
      ]
    ]
  ]
