-- ===== src/Js/Json.antt =====
-- JSON.stringify of arrays of strings, nested once or twice.
use diy_redis.Base.{
  ℕ, ◌+◌, ◌/◌, ◌%◌, true, false, ◌&&◌, ◌||◌, List, [], ◌∷◌, ◌++◌, ◌==◌, ltb, leb, if◌then◌else◌,
}
use diy_redis.Js.Text.{Text, codes}

abbrev hex_digit : ℕ → ℕ
hex_digit d = if ltb d 10 then 48 + d else 87 + d

hex_escape : ℕ → Text
hex_escape c =
    codes "\\u"
    ++ (hex_digit (c / 4096)
        ∷ hex_digit (c / 256 % 16)
        ∷ hex_digit (c / 16 % 16)
        ∷ hex_digit (c % 16)
        ∷ [])

-- QuoteJSONString, for a code unit that is no half of a surrogate pair
json_unit : ℕ → Text
unfolding hex_escape
json_unit c =
    if c == 34
    then codes "\\\""
    else if c == 92
    then codes "\\\\"
    else if c == 8
    then codes "\\b"
    else if c == 9
    then codes "\\t"
    else if c == 10
    then codes "\\n"
    else if c == 12
    then codes "\\f"
    else if c == 13
    then codes "\\r"
    else if ltb c 32 || (leb 0xd800 c && leb c 0xdfff)
    then hex_escape c
    else c ∷ []

json_units : Text → Text
unfolding json_unit
json_units [] = []
json_units (c ∷ []) = json_unit c
json_units (c ∷ d ∷ s) = elim (leb 0xd800 c && leb c 0xdbff && (leb 0xdc00 d && leb d 0xdfff)) [
  | true ↦ c ∷ d ∷ json_units s
  | false ↦ json_unit c ++ json_units (d ∷ s)
]

unfoldable pub json_string : Text → Text
unfolding json_units
json_string s = b'"' ∷ (json_units s ++ b'"' ∷ [])

-- The elements' forms, with commas between.
json_elements : List Text → Text
json_elements [] = []
json_elements (t ∷ []) = t
json_elements (t ∷ u ∷ us) = t ++ b',' ∷ json_elements (u ∷ us)

unfoldable pub json_array : List Text → Text
unfolding json_elements
json_array ts = b'[' ∷ (json_elements ts ++ b']' ∷ [])
