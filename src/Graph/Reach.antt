-- ===== src/Graph/Reach.antt =====
-- Chains of edges, and when new edges out of one node close no cycle.
use premise_protocol.Base.{◌≡◌, ◌⊎◌, inl, inr, refl, subst, Text}

pub data Reaches (E : Text → Text → Type 0) : Text → Text → Type 0 where
  here : {a : Text} → Reaches E a a
  via : {a b c : Text} → E a b → Reaches E b c → Reaches E a c

abbrev pub Acyclic : (Text → Text → Type 0) → Type 0
Acyclic E = (a b : Text) → E a b → Reaches E b a → ⊥

pub Reaches-append :
    {E : Text → Text → Type 0} {a b c : Text} → Reaches E a b → Reaches E b c → Reaches E a c
Reaches-append here r = r
Reaches-append (via e q) r = via e (Reaches-append q r)

pub Reaches-map :
    {E F : Text → Text → Type 0} {a b : Text}
    → ((x y : Text) → E x y → F x y)
    → Reaches E a b
    → Reaches F a b
Reaches-map f here = here
Reaches-map f (via e q) = via (f _ _ e) (Reaches-map f q)

-- A node without edges into it is reached only from itself.
pub Reaches-source :
    {E : Text → Text → Type 0} {a n : Text} → ((x : Text) → E x n → ⊥) → Reaches E a n → a ≡ n
Reaches-source {E} none_in here = refl
Reaches-source {E} none_in (via {a} {b} e q) =
    absurd (none_in a (subst (λ (x : Text). E a x) (Reaches-source none_in q) e))

-- F has the edges of E and edges from n into D.
module _ {E F : Text → Text → Type 0} (n : Text) (D : Text → Type 0)
    (only : (a b : Text) → F a b → E a b ⊎ ((a ≡ n) × D b)) where
  abbrev Detour : Text → Text → Type 0
  Detour a c = Reaches E a n × ((d : Text) × (D d × Reaches E d c))

  old_or_Detour : {a c : Text} → Reaches F a c → Reaches E a c ⊎ Detour a c
  old_or_Detour here = inl here
  old_or_Detour (via {a} {b} {c} e q) = elim (only a b e) [
    | inl old ↦ elim (old_or_Detour q) [
      | inl r ↦ inl (via old r)
      | inr (r, rest) ↦ inr (via old r, rest)
    ]
    | inr (at_n, new) ↦
        let from : Reaches E a n = subst (λ (x : Text). Reaches E a x) at_n here in
        elim (old_or_Detour q) [
          | inl r ↦ inr (from, (b, (new, r)))
          | inr (r, rest) ↦ inr (from, rest)
        ]
  ]

  -- F has no cycle if E has none and nothing in D reaches n.
  pub Acyclic-extend : Acyclic E → ((d : Text) → D d → Reaches E d n → ⊥) → Acyclic F
  Acyclic-extend acyclic free a b e q = elim (only a b e) [
    | inl old ↦ elim (old_or_Detour q) [
      | inl r ↦ acyclic a b old r
      | inr (r, (d, (new, back))) ↦ free d new (Reaches-append back (via old r))
    ]
    | inr (at_n, new) ↦ elim (old_or_Detour q) [
      | inl r ↦ free b new (subst (λ (x : Text). Reaches E b x) at_n r)
      | inr (r, rest) ↦ free b new r
    ]
  ]
