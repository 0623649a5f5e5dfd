-- ===== src/Flights/Invariant.antt =====
-- What holds of the coordinator at all times.
use premise_protocol.Base.{
  ℕ, suc, ◌≤◌, ◌<◌, ◌≡◌, ◌≢◌, ◌⊎◌, inl, inr, refl, sym, subst, ◌∙◌, arith, true, false, Text,
  Text-discrete, text_eq, Option, none, some, List, [], ◌∷◌, All, Dict, put, put_self, put_ne,
  drop_key, drop_ne, Bool-cases,
}
use premise_protocol.Flight.{Flight, CurrentVersion, Flight-discrete}
use premise_protocol.Flights.{same_flight, set, is_live, delete_flight, token_for}

-- The version that is current for the flight's resource is that of the flight, or a later one.
abbrev pub Follows : Dict CurrentVersion → ℕ → ℕ → Flight → Type 0
Follows latest next identities f =
    (f.identity < identities)
    × (f.fencing_token ≤ next)
    × ((c : CurrentVersion) × (latest f.resource_key ≡ some c)
        × (f.fencing_token ≤ c.fencing_token)
        × (c.fencing_token ≡ f.fencing_token → c.supersession_key ≡ f.supersession_key))

-- No token is beyond the counter.
abbrev pub Counted : Dict CurrentVersion → ℕ → Type 0
Counted latest next = (r : Text) (c : CurrentVersion) → latest r ≡ some c → c.fencing_token ≤ next

pub set_self : {V : Type 0} (m : Flight → V) (f : Flight) (v : V) → set m f v f ≡ v
set_self m f v = elim (Flight-discrete f f) as (λ d. elim d [ yes _ ↦ v | no _ ↦ m f ] ≡ v) [
  | yes _ ↦ refl
  | no n ↦ absurd (n refl)
]

pub set_ne : {V : Type 0} (m : Flight → V) (f g : Flight) (v : V) → f ≢ g → set m f v g ≡ m g
set_ne m f g v n = elim (Flight-discrete f g) as (λ d. elim d [ yes _ ↦ v | no _ ↦ m g ] ≡ m g) [
  | yes e ↦ absurd (n e)
  | no _ ↦ refl
]

-- The token of a new flight, and what it does to the current version.
pub token_cases :
    (o : Option CurrentVersion) (supersession : Text) (next : ℕ)
    → ((c : CurrentVersion) × (o ≡ some c)
        × (c.supersession_key ≡ supersession)
        × (token_for o supersession next ≡ (c.fencing_token, next)))
      ⊎ (token_for o supersession next ≡ (suc next, suc next))
unfolding token_for
token_cases none supersession next = inr refl
token_cases (some c) supersession next = elim (Text-discrete c.supersession_key supersession) [
  | yes e ↦
      let this : text_eq c.supersession_key supersession ≡ true = ground (arith, e) in
      inl (c, refl, e, rw (this, token_for) refl)
  | no n ↦
      let this : text_eq c.supersession_key supersession ≡ false = ground (arith, n) in
      inr (rw (this, token_for) refl)
]

pub All-map :
    {A : Type 0} (P Q : A → Type 0) (xs : List A) → ((x : A) → P x → Q x) → All P xs → All Q xs
All-map P Q [] f a = tt
All-map P Q (x ∷ xs) f a = (f x a.0, All-map P Q xs f a.1)

-- A later token for a resource keeps all that follow.
pub later-Follows :
    (latest : Dict CurrentVersion) (next i token : ℕ) (r supersession : Text) (g : Flight)
    → next < token
    → Follows latest next i g
    → Follows
        (put latest r (record { supersession_key = supersession; fencing_token = token }))
        token
        (suc i)
        g
later-Follows latest next i token r supersession g n (a, b, (c, e, d, s)) = (
  omega (arith, a),
  omega (arith, b, n),
  elim (Text-discrete r g.resource_key) [
    | yes same ↦ (
      record { supersession_key = supersession; fencing_token = token },
      subst
          (λ k.
            put latest r (record { supersession_key = supersession; fencing_token = token }) k
            ≡ some (record { supersession_key = supersession; fencing_token = token }))
          same
          (put_self latest r (record { supersession_key = supersession; fencing_token = token })),
      omega (arith, b, n),
      λ h. absurd (omega (arith, b, n, h)),
    )
    | no other ↦ (
      c,
      put_ne latest r g.resource_key
            (record { supersession_key = supersession; fencing_token = token }) other
          ∙ e,
      d,
      s,
    )
  ],
)

-- A current version that is written again changes nothing.
pub again-Follows :
    (latest : Dict CurrentVersion) (next i : ℕ) (r : Text) (c : CurrentVersion) (g : Flight)
    → latest r ≡ some c
    → Follows latest next i g
    → Follows (put latest r c) next (suc i) g
again-Follows latest next i r c g h (a, b, (d, e, l, s)) =
    (omega (arith, a), b, (d, this ∙ e, l, s))
  where
    this : put latest r c g.resource_key ≡ latest g.resource_key
    this = elim (Text-discrete r g.resource_key) [
      | yes same ↦ subst (λ k. put latest r c k ≡ latest k) same (put_self latest r c ∙ sym h)
      | no other ↦ put_ne latest r g.resource_key c other
    ]

pub put-Counted :
    (latest : Dict CurrentVersion) (next : ℕ) (r : Text) (c : CurrentVersion)
    → c.fencing_token ≤ next
    → Counted latest next
    → Counted (put latest r c) next
put-Counted latest next r c h k q d e = elim (Text-discrete r q) [
  | yes same ↦ elim_some (subst (λ x. put latest r c x ≡ some c) same (put_self latest r c)) e
  | no other ↦ k q d (sym (put_ne latest r q c other) ∙ e)
]
  where
    elim_some :
        {o : Option CurrentVersion} {d : CurrentVersion}
        → o ≡ some c
        → o ≡ some d
        → d.fencing_token ≤ next
    elim_some a b = ground (arith, a, b, h)

pub drop-Counted :
    (latest : Dict CurrentVersion) (next : ℕ) (r : Text)
    → Counted latest next
    → Counted (drop_key latest r) next
drop-Counted latest next r k q d e = elim (Text-discrete r q) [
  | yes same ↦ ground (arith, same, e)
  | no other ↦ k q d (sym (drop_ne latest r q other) ∙ e)
]

-- What is left after a deletion.
pub delete-All :
    (P : Flight → Type 0) (f : Flight) (gs : List Flight) → All P gs → All P (delete_flight f gs)
unfolding delete_flight
delete-All P f [] a = tt
delete-All P f (g ∷ gs) a = elim (Bool-cases (same_flight f g)) [
  | inl e ↦ rw (e, delete_flight) a.1
  | inr e ↦ rw (e, delete_flight) (a.0, delete-All P f gs a.1)
]

pub delete-is_live :
    (f g : Flight) (hs : List Flight)
    → f ≢ g
    → is_live f hs ≡ true
    → is_live f (delete_flight g hs) ≡ true
unfolding delete_flight
delete-is_live f g [] n a = a
delete-is_live f g (h ∷ hs) n a = elim (Flight-discrete g h) [
  | yes e ↦
      let other : same_flight f h ≡ false = ground (arith, n, e) in
      let this : same_flight g h ≡ true = ground (arith, e) in
      rw (this, delete_flight) (ground (arith, a, other))
  | no m ↦
      let this : same_flight g h ≡ false = ground (arith, m) in
      let rest = delete-is_live f g hs n in rw (this, delete_flight) (ground (arith, a, rest))
]
