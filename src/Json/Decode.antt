-- ===== src/Json/Decode.antt =====
-- The quoting can be undone, so two pairs of strings with one JSON text are one pair.
use premise_protocol.Base.{
  ℕ, ◌+◌, ◌-◌, ◌*◌, ◌<◌, ◌/◌, ◌%◌, ◌≡◌, refl, Bool, true, false, Text, [], ◌∷◌, ◌++◌, Option, none,
  some, ltb, ◌==◌, if◌then◌else◌, arith, append_assoc, zero, suc, ap, sym, ◌∙◌, not, ◌&&◌, ◌||◌,
  &&_true, ◌⊎◌, inl, inr,
}
use premise_protocol.Json.{
  is_high, is_low, next_is_low, hex_digit, unicode_escape, escape_unit, escape, json_string,
  json_pair,
}

data Mode : Type 0 where
  plain slash : Mode
  hex : ℕ → ℕ → Mode

hex_value : ℕ → ℕ
hex_value h = if ltb h b'a' then h - b'0' else h - b'a' + 10

-- What stands behind a backslash, but for `u`.
short : ℕ → ℕ
short c =
    if c == b'b'
    then 8
    else if c == b't'
    then 9
    else if c == b'n'
    then 10
    else if c == b'f'
    then 12
    else if c == b'r'
    then 13
    else c

emit : ℕ → Option (Text × Text) → Option (Text × Text)
emit c none = none
emit c (some (s, rest)) = some (c ∷ s, rest)

unescape : Mode → Text → Option (Text × Text)
unescape m [] = none
unescape plain (c ∷ r) = elim (c == 34) [
  | true ↦ some ([], r)
  | false ↦ elim (c == 92) [ true ↦ unescape slash r | false ↦ emit c (unescape plain r) ]
]
unescape slash (c ∷ r) = elim (c == b'u') [
  | true ↦ unescape (hex 3 0) r
  | false ↦ emit (short c) (unescape plain r)
]
unescape (hex zero acc) (c ∷ r) = emit (acc * 16 + hex_value c) (unescape plain r)
unescape (hex (suc k) acc) (c ∷ r) = unescape (hex k (acc * 16 + hex_value c)) r

hex-digit_lem : (d : ℕ) → d < 16 → hex_value (hex_digit d) ≡ d
unfolding hex_value hex_digit
hex-digit_lem d h = ground arith

unescape-unicode :
    (c : ℕ) (r : Text)
    → c < 65536
    → unescape plain (unicode_escape c ++ r) ≡ emit c (unescape plain r)
unfolding unescape unicode_escape
unescape-unicode c r h =
    rw
      (
        hex-digit_lem (c / 4096 % 16) (omega arith),
        hex-digit_lem (c / 256 % 16) (omega arith),
        hex-digit_lem (c / 16 % 16) (omega arith),
        hex-digit_lem (c % 16) (omega arith),
      )
      (ap (λ k. emit k (unescape plain r)) (omega arith))

unescape-unit : (c : ℕ) (r : Text) → unescape plain (escape_unit c ++ r) ≡ emit c (unescape plain r)
unfolding unescape escape_unit short
unescape-unit c r = ground (arith, unescape-unicode c r)

unescape-next :
    (verbatim : Bool) (c : ℕ) (r : Text)
    → (verbatim ≡ true → (is_high c ≡ true) ⊎ (is_low c ≡ true))
    → unescape plain ((if verbatim then c ∷ [] else escape_unit c) ++ r) ≡ emit c (unescape plain r)
unfolding unescape
unescape-next true c r h = elim (h refl) [ inl p ↦ ground arith | inr p ↦ ground arith ]
unescape-next false c r h = unescape-unit c r

-- Half of a pair stands as it is, and is a surrogate.
verbatim-surrogate :
    (paired : Bool) (c : ℕ) (s : Text)
    → (paired ≡ true → is_low c ≡ true)
    → (paired || (not paired && is_high c && next_is_low s)) ≡ true
    → (is_high c ≡ true) ⊎ (is_low c ≡ true)
verbatim-surrogate true c s h e = inr (h refl)
verbatim-surrogate false c s h e = inl (&&_true _ _ e).0

opens-next :
    (paired : Bool) (c : ℕ) (s : Text)
    → (not paired && is_high c && next_is_low s) ≡ true
    → next_is_low s ≡ true
opens-next true c s e = cc
opens-next false c s e = (&&_true _ _ e).1

unescape-escape :
    (paired : Bool) (s rest : Text)
    → (paired ≡ true → next_is_low s ≡ true)
    → unescape plain (escape paired s ++ 34 ∷ rest) ≡ some (s, rest)
unfolding escape
unescape-escape paired [] rest h = unfold unescape in refl
unescape-escape paired (c ∷ s) rest h =
    let opens : Bool = not paired && is_high c && next_is_low s in
    rw
      (
        append_assoc (if paired || opens then c ∷ [] else escape_unit c) (escape opens s)
            (34 ∷ rest),
        unescape-next (paired || opens) c (escape opens s ++ 34 ∷ rest)
            (verbatim-surrogate paired c s h),
        unescape-escape opens s rest (opens-next paired c s),
      )
      (unfold emit in refl)

unfoldable pub tail : Text → Text
tail [] = []
tail (c ∷ s) = s

pub json_string-prefix :
    (a b r s : Text) → json_string a ++ r ≡ json_string b ++ s → (a ≡ b) × (r ≡ s)
unfolding json_string
json_string-prefix a b r s e = ground (arith, same)
  where
    after : (x t : Text) → tail ((34 ∷ (escape false x ++ 34 ∷ [])) ++ t) ≡ escape false x ++ 34 ∷ t
    after x t = unfold tail in append_assoc (escape false x) (34 ∷ []) t

    same : ◌≡◌ {A = Option (Text × Text)} (some (a, r)) (some (b, s))
    same =
        sym (unescape-escape false a r (λ p. cc))
        ∙ ap (unescape plain) (sym (after a r) ∙ ap tail e ∙ after b s)
        ∙ unescape-escape false b s (λ p. cc)

-- Pairs of strings with one JSON text are one pair.
pub json_pair-injective : (a b c d : Text) → json_pair a b ≡ json_pair c d → (a ≡ c) × (b ≡ d)
unfolding json_pair tail
json_pair-injective a b c d e =
    let (first, rest) = json_string-prefix a c _ _ (ap tail e) in
    (first, (json_string-prefix b d _ _ (ap tail rest)).0)
