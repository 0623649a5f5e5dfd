-- ===== src/Json.antt =====
-- JSON.stringify of strings, as the keys of the maps use it: an array of two strings, in UTF-16 code
-- units. A surrogate without its partner is escaped.
pub mod Decode
use premise_protocol.Base.{
  ℕ, ◌+◌, ◌-◌, ◌/◌, ◌%◌, Bool, false, not, ◌&&◌, ◌||◌, Text, [], ◌∷◌, ◌++◌, leb, ltb, ◌==◌,
  if◌then◌else◌,
}

abbrev pub is_high : ℕ → Bool
is_high c = leb 0xd800 c && leb c 0xdbff

abbrev pub is_low : ℕ → Bool
is_low c = leb 0xdc00 c && leb c 0xdfff

abbrev pub next_is_low : Text → Bool
next_is_low [] = false
next_is_low (c ∷ s) = is_low c

pub hex_digit : ℕ → ℕ
hex_digit d = if ltb d 10 then b'0' + d else b'a' + (d - 10)

pub unicode_escape : ℕ → Text
unicode_escape c =
    92
    ∷ b'u'
    ∷ hex_digit (c / 4096 % 16)
    ∷ hex_digit (c / 256 % 16)
    ∷ hex_digit (c / 16 % 16)
    ∷ hex_digit (c % 16)
    ∷ []

-- One code unit that is no half of a surrogate pair.
pub escape_unit : ℕ → Text
escape_unit c =
    if c == 34
    then 92 ∷ 34 ∷ []
    else if c == 92
    then 92 ∷ 92 ∷ []
    else if c == 8
    then 92 ∷ b'b' ∷ []
    else if c == 9
    then 92 ∷ b't' ∷ []
    else if c == 10
    then 92 ∷ b'n' ∷ []
    else if c == 12
    then 92 ∷ b'f' ∷ []
    else if c == 13
    then 92 ∷ b'r' ∷ []
    else if ltb c 32 || is_high c || is_low c
    then unicode_escape c
    else c ∷ []

-- `paired`: the unit before this one was the first half of a pair.
pub escape : Bool → Text → Text
unfolding escape_unit unicode_escape hex_digit
escape paired [] = []
escape paired (c ∷ s) =
    let opens = not paired && is_high c && next_is_low s in
    (if paired || opens then c ∷ [] else escape_unit c) ++ escape opens s

unfoldable pub json_string : Text → Text
unfolding escape
json_string s = 34 ∷ (escape false s ++ 34 ∷ [])

-- JSON.stringify([a, b])
unfoldable pub json_pair : Text → Text → Text
unfolding json_string
json_pair a b = b'[' ∷ (json_string a ++ b',' ∷ (json_string b ++ b']' ∷ []))
