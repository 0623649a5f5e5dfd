-- ===== src/Quota/Last.antt =====
-- What was stored last is not evicted to make room for it.
use premise_protocol.Base.{
  ℕ, zero, suc, ◌≤◌, ◌≡◌, ◌≢◌, refl, sym, ap, ◌∙◌, inl, inr, arith, Bool, true, Text, text_eq, none,
  some, [], ◌∷◌, ◌++◌, length, Option-cases, Bool-cases, ltb, length-append,
}
use premise_protocol.Entries.{OrderedMap, lookup, remove, lookup-last}
use premise_protocol.Entries.Distinct.{absent-remove}
use premise_protocol.Quota.{
  Quota, count_of, first_key, delete, evict_oldest, shrink_all, shrink_tenant, enforce_bounds,
  add_entry, store,
}
use premise_protocol.Quota.Counted.{
  owned, Inv, owned-append, count-owned, delete_found, add_entry-Inv, no_key-owned,
}
use premise_protocol.Quota.Evicted.{
  Shrunk, evict_round, shrink_all_lem, delete-Shrunk, delete-lookup_self, first_key_cases,
  no_key-length,
}

first_key-append :
    {V : Type 0} (p : V → Bool) (es : OrderedMap V) (x : Text × V)
    → first_key p es ≢ none
    → first_key p (es ++ x ∷ []) ≡ first_key p es
unfolding first_key
first_key-append p [] x h = absurd (h refl)
first_key-append p ((j, f) ∷ es) x h = elim (Bool-cases (p f)) [
  | inl t ↦ rw t
  | inr n ↦ rw n (first_key-append p es x (λ e. h (rw n e)))
]

first_key-present :
    {V : Type 0} (p : V → Bool) (es : OrderedMap V) (j : Text)
    → first_key p es ≡ some j
    → lookup j es ≢ none
unfolding first_key lookup
first_key-present p [] j h = cc
first_key-present p ((i, f) ∷ es) j h = elim (Bool-cases (p f)) [
  | inl t ↦ λ n. ground (arith, h, t, n)
  | inr a ↦ λ n. first_key-present p es j (ground (arith, h, a)) (ground (arith, n))
]

remove-append_ne :
    {V : Type 0} (k j : Text) (v : V) (es : OrderedMap V)
    → k ≢ j
    → remove k (es ++ (j, v) ∷ []) ≡ remove k es ++ (j, v) ∷ []
unfolding remove
remove-append_ne k j v [] n = ground (arith, n)
remove-append_ne k j v ((i, w) ∷ es) n = ground (arith, remove-append_ne k j v es n)

-- The bounds leave room for one entry, as the constructors ask.
abbrev pub HasRoom : {V : Type 0} → Quota V → Type 0
HasRoom q = (1 ≤ q.max_entries) × ((b : ℕ) → q.max_per_tenant ≡ some b → 1 ≤ b)

module _ {V : Type 0} (tenant_of : V → Text) where
  -- The entry is the last one.
  pub record IsLast (k : Text) (e : V) (q : Quota V) : Type 0 where
    pub inv : Inv tenant_of q
    pub before : OrderedMap V
    pub absent : lookup k before ≡ none
    pub entries : q.entries ≡ before ++ (k, e) ∷ []

  at_end : (q : Quota V) (k : Text) (e : V) → IsLast k e q → lookup k q.entries ≡ some e
  at_end q k e l = ap (lookup k) l.entries ∙ lookup-last k e l.before l.absent

  evict-IsLast :
      (p : V → Bool) (q : Quota V) (k : Text) (e : V) (l : IsLast k e q)
      → first_key p l.before ≢ none
      → IsLast k e (evict_oldest tenant_of p q)
  unfolding evict_oldest
  evict-IsLast p q k e l some_key = elim (first_key_cases p q.entries l.inv.distinct) [
    | inl n ↦ absurd (
        some_key (
          sym (first_key-append p l.before (k, e) some_key) ∙ ap (first_key p) (sym l.entries) ∙ n))
    | inr (j, f, at, found, t) ↦
        let first : first_key p l.before ≡ some j =
          sym (first_key-append p l.before (k, e) some_key)
          ∙ ap (first_key p) (sym l.entries)
          ∙ at in
        let ne : j ≢ k =
          λ m. first_key-present p l.before j first (ap (λ x. lookup x l.before) m ∙ l.absent) in
        let (after, left) = delete_found tenant_of q j f found l.inv in
        rw (at, evict_oldest)
          (record {
            inv = record { distinct = after.distinct; counted = after.counted };
            before = remove j l.before;
            absent = absent-remove j k l.before l.absent;
            entries = left ∙ ap (remove j) l.entries ∙ remove-append_ne j k e l.before ne;
          })
  ]

  shrink_all-IsLast :
      (fuel : ℕ) (q : Quota V) (k : Text) (e : V)
      → 1 ≤ q.max_entries
      → IsLast k e q
      → IsLast k e (shrink_all tenant_of fuel q)
  unfolding shrink_all
  shrink_all-IsLast zero q k e pos l = l
  shrink_all-IsLast (suc fuel) q k e pos l =
      elim (Bool-cases (ltb q.max_entries (length q.entries))) [
        | inr fits ↦ rw fits l
        | inl over ↦
            let size = ap length l.entries ∙ length-append l.before ((k, e) ∷ []) in
            let some_key : first_key (λ e. true) l.before ≢ none =
              λ n. ground (arith, over, size, no_key-length tenant_of l.before n) in
            let next = evict-IsLast (λ e. true) q k e l some_key in
            let (round, one) =
              evict_round tenant_of (λ e. true) q l.inv
                (λ n. ground (arith, over, no_key-length tenant_of q.entries n)) in
            rw over (
              shrink_all-IsLast fuel (evict_oldest tenant_of (λ e. true) q) k e
                (omega (arith, pos, round.same_max)) next)
      ]

  shrink_tenant-IsLast :
      (fuel bound : ℕ) (q : Quota V) (k : Text) (e : V)
      → 1 ≤ bound
      → IsLast k e q
      → IsLast k e (shrink_tenant tenant_of fuel bound (tenant_of e) q)
  unfolding shrink_tenant
  shrink_tenant-IsLast zero bound q k e pos l = l
  shrink_tenant-IsLast (suc fuel) bound q k e pos l =
      elim (Bool-cases (ltb bound (count_of q (tenant_of e)))) [
        | inr fits ↦ rw fits l
        | inl over ↦
            let t = tenant_of e in
            let size = ap (owned tenant_of t) l.entries ∙ owned-append tenant_of k t e l.before in
            let some_key : first_key (λ f. text_eq (tenant_of f) t) l.before ≢ none = λ n. ground (
              arith,
              over,
              size,
              count-owned tenant_of q t l.inv,
              no_key-owned tenant_of t l.before n,
            ) in
            rw over (
              shrink_tenant-IsLast fuel bound
                (evict_oldest tenant_of (λ f. text_eq (tenant_of f) t) q) k e pos
                (evict-IsLast (λ f. text_eq (tenant_of f) t) q k e l some_key))
      ]

  pub store-lookup :
      (q : Quota V) (k : Text) (e : V)
      → HasRoom q
      → Inv tenant_of q
      → lookup k (store tenant_of q k e).entries ≡ some e
  unfolding store enforce_bounds add_entry
  store-lookup q k e (room, each) i =
      let r = delete tenant_of q k in
      let s = add_entry tenant_of r k e in
      let shrunk : Shrunk tenant_of q r = delete-Shrunk tenant_of q k i in
      let gone = delete-lookup_self tenant_of q k in
      let start : IsLast k e s = record {
        inv = add_entry-Inv tenant_of r k e gone shrunk.inv;
        before = r.entries;
        absent = gone;
        entries = refl;
      } in
      let u = shrink_all tenant_of (length s.entries) s in
      let first : IsLast k e u =
        shrink_all-IsLast (length s.entries) s k e (omega (arith, room, shrunk.same_max)) start in
      let (kept, size) = shrink_all_lem tenant_of (length s.entries) s start.inv (omega arith) in
      elim (Option-cases u.max_per_tenant) [
        | inl free ↦ rw (free, enforce_bounds) (at_end u k e first)
        | inr (b, is) ↦
            let pos = each b (sym shrunk.same_bound ∙ sym kept.same_bound ∙ is) in
            rw (is, enforce_bounds)
              (at_end (shrink_tenant tenant_of (length u.entries) b (tenant_of e) u) k e
                (shrink_tenant-IsLast (length u.entries) b u k e pos first))
      ]
