-- ===== src/Js/Text.antt =====
-- JavaScript strings: lists of UTF-16 code units. Case folding is that of the ASCII letters.
use Prim.Native.Char.{code}
use diy_redis.Base.{
  ℕ, suc, ◌+◌, ◌-◌, ◌≡◌, refl, ◌↔◌, Bool, true, false, ◌&&◌, Option, none, some, List, [], ◌∷◌,
  ◌++◌, map, Bool-cases, Option-cases, inl, inr, ◌≤◌, arith, ◌==◌, leb, if◌then◌else◌, length,
  String,
}

abbrev pub Text : Type 0
Text = List ℕ

-- The code units of a literal.
abbrev pub codes : String → Text
codes String.[] = []
codes (String.◌∷◌ c s) = code c ∷ codes s

abbrev pub crlf : Text
crlf = 13 ∷ 10 ∷ []

-- a === b
unfoldable pub str_eq : Text → Text → Bool
str_eq [] [] = true
str_eq [] (y ∷ ys) = false
str_eq (x ∷ xs) [] = false
str_eq (x ∷ xs) (y ∷ ys) = (x == y) && str_eq xs ys

pub str_eq_refl : (s : Text) → str_eq s s ≡ true
unfolding str_eq
str_eq_refl [] = refl
str_eq_refl (x ∷ xs) = ground (arith, str_eq_refl xs)

pub str_eq→eq : (s t : Text) → str_eq s t ≡ true → s ≡ t
unfolding str_eq
str_eq→eq [] [] h = refl
str_eq→eq [] (y ∷ ys) h = cc
str_eq→eq (x ∷ xs) [] h = cc
str_eq→eq (x ∷ xs) (y ∷ ys) h = ground (arith, str_eq→eq xs ys)

pub eq→str_eq : (s t : Text) → s ≡ t → str_eq s t ≡ true
eq→str_eq s t h = rw h (str_eq_refl t)

pub str_eq_iff : (s t : Text) → (str_eq s t ≡ true) ↔ (s ≡ t)
str_eq_iff s t = (str_eq→eq s t, eq→str_eq s t)

-- s.toLowerCase(), s.toUpperCase()
unfoldable pub lower_unit : ℕ → ℕ
lower_unit c = if leb b'A' c && leb c b'Z' then c + 32 else c

unfoldable pub to_lower : Text → Text
unfolding lower_unit
to_lower s = map lower_unit s

unfoldable pub upper_unit : ℕ → ℕ
upper_unit c = if leb b'a' c && leb c b'z' then c - 32 else c

unfoldable pub to_upper : Text → Text
unfolding upper_unit
to_upper s = map upper_unit s

-- s.startsWith(p)
unfoldable pub starts_with : Text → Text → Bool
starts_with s [] = true
starts_with [] (p ∷ ps) = false
starts_with (c ∷ s) (p ∷ ps) = (c == p) && starts_with s ps

-- A string as a condition: the empty one is false.
abbrev pub is_truthy : Text → Bool
is_truthy [] = false
is_truthy (c ∷ s) = true

-- s.split("\r\n")
abbrev push_head : ℕ → List Text → List Text
push_head c [] = (c ∷ []) ∷ []
push_head c (t ∷ ts) = (c ∷ t) ∷ ts

unfoldable pub split_crlf : Text → List Text
split_crlf [] = [] ∷ []
split_crlf (c ∷ []) = (c ∷ []) ∷ []
split_crlf (c ∷ d ∷ s) = elim ((c == 13) && (d == 10)) [
  | true ↦ [] ∷ split_crlf s
  | false ↦ push_head c (split_crlf (d ∷ s))
]

-- buffer.indexOf("\r\n"), s.indexOf("\r\n"): none stands for -1.
unfoldable pub find_crlf : List ℕ → Option ℕ
find_crlf [] = none
find_crlf (c ∷ []) = none
find_crlf (c ∷ d ∷ s) = elim ((c == 13) && (d == 10)) [
  | true ↦ some 0
  | false ↦ elim (find_crlf (d ∷ s)) [ none ↦ none | some i ↦ some (suc i) ]
]

-- A line end behind a text that has none is found at the text's length.
pub find_crlf-append :
    (s rest : List ℕ) → find_crlf s ≡ none → find_crlf (s ++ 13 ∷ 10 ∷ rest) ≡ some (length s)
unfolding find_crlf
find_crlf-append [] rest h = refl
find_crlf-append (c ∷ []) rest h = ground arith
find_crlf-append (c ∷ d ∷ s) rest h = ground (arith, find_crlf-append (d ∷ s) rest)

-- `split` cuts a text without line ends off whole.
pub split_crlf-append :
    (s rest : Text) → find_crlf s ≡ none → split_crlf (s ++ 13 ∷ 10 ∷ rest) ≡ s ∷ split_crlf rest
unfolding find_crlf split_crlf
split_crlf-append [] rest h = refl
split_crlf-append (c ∷ []) rest h = ground arith
split_crlf-append (c ∷ d ∷ s) rest h = ground (arith, split_crlf-append (d ∷ s) rest)

-- A line end that is found lies inside, and stays where it is when more text comes.
pub find_crlf_bound : (s : List ℕ) (i : ℕ) → find_crlf s ≡ some i → i + 2 ≤ length s
unfolding find_crlf
find_crlf_bound [] i h = cc
find_crlf_bound (c ∷ []) i h = cc
find_crlf_bound (c ∷ d ∷ s) i h = elim (Bool-cases ((c == 13) && (d == 10))) [
  | inl here ↦ ground arith
  | inr later ↦ elim (Option-cases (find_crlf (d ∷ s))) [
    | inl absent ↦ ground arith
    | inr (j, found) ↦ ground (arith, find_crlf_bound (d ∷ s) j found)
  ]
]

pub find_crlf-append_some :
    (s t : List ℕ) (i : ℕ) → find_crlf s ≡ some i → find_crlf (s ++ t) ≡ some i
unfolding find_crlf
find_crlf-append_some [] t i h = cc
find_crlf-append_some (c ∷ []) t i h = cc
find_crlf-append_some (c ∷ d ∷ s) t i h = elim (Bool-cases ((c == 13) && (d == 10))) [
  | inl here ↦ ground arith
  | inr later ↦ elim (Option-cases (find_crlf (d ∷ s))) [
    | inl absent ↦ ground arith
    | inr (j, found) ↦ ground (arith, find_crlf-append_some (d ∷ s) t j found)
  ]
]
