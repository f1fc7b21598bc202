-- ===== src/Js/Radix.antt =====
-- parseInt(s) without a radix, which reads a number behind 0x as hexadecimal.
use diy_redis.Base.{
  ℕ, ◌+◌, ◌-◌, ◌*◌, ◌≤◌, ◌≡◌, refl, ◌∙◌, Bool, true, false, ◌&&◌, ◌||◌, Option, none, some, [], ◌∷◌,
  arith, ◌==◌, leb, if◌then◌else◌, All,
}
use diy_redis.Base.Int.{ℤ, pos}
use diy_redis.Js.Text.{Text}
use diy_redis.Js.Number.{
  is_digit, skip_space, digits, or_zero, as_pos, as_neg, parse_int, decimal, digit_no_space,
  digit_no_sign, parse_int-decimal, decimal-All,
}

abbrev hex_digit : ℕ → Option ℕ
hex_digit c =
    if is_digit c
    then some (c - 48)
    else if leb b'a' c && leb c b'f'
    then some (c - 87)
    else if leb b'A' c && leb c b'F'
    then some (c - 55)
    else none

-- The number that the hexadecimal digits at the front spell.
hex_digits : Text → Option ℕ → Option ℕ
hex_digits [] acc = acc
hex_digits (c ∷ s) acc = elim (hex_digit c) [
  | none ↦ acc
  | some d ↦ hex_digits s (some (or_zero acc * 16 + d))
]

-- What stands behind the sign.
unsigned : Text → Option ℕ
unfolding hex_digits
unsigned (c ∷ x ∷ s) =
    if (c == b'0') && ((x == b'x') || (x == b'X'))
    then hex_digits s none
    else digits (c ∷ x ∷ s) none
unsigned s = digits s none

signed : Text → Option ℤ
unfolding unsigned
signed [] = none
signed (c ∷ s) =
    if c == b'-'
    then as_neg (unsigned s)
    else if c == b'+'
    then as_pos (unsigned s)
    else as_pos (unsigned (c ∷ s))

-- parseInt(s); none is NaN.
unfoldable pub parse_int_any : Text → Option ℤ
unfolding signed
parse_int_any s = signed (skip_space s)

abbrev IsDigit : ℕ → Type 0
IsDigit c = (48 ≤ c) × (c ≤ 57)

no_mark : (x : ℕ) → IsDigit x → ((x == b'x') || (x == b'X')) ≡ false
no_mark x h = ground arith

and_false : (b : Bool) → (b && false) ≡ false
and_false true = refl
and_false false = refl

unsigned-digits : (s : Text) → All IsDigit s → unsigned s ≡ digits s none
unfolding unsigned
unsigned-digits [] h = refl
unsigned-digits (c ∷ []) h = refl
unsigned-digits (c ∷ x ∷ s) (h, (h', hs)) = rw (no_mark x h', and_false (c == b'0')) refl

-- On decimal digits the two forms of parseInt agree.
any-parse_int : (s : Text) → All IsDigit s → parse_int_any s ≡ parse_int s
unfolding parse_int_any parse_int skip_space
any-parse_int [] h = refl
any-parse_int (c ∷ s) h =
    rw
      (
        digit_no_space c h.0,
        digit_no_sign c b'-' h.0 (omega arith),
        digit_no_sign c b'+' h.0 (omega arith),
        unsigned-digits (c ∷ s) h,
      )
      refl

pub parse_int_any-decimal : (n : ℕ) → parse_int_any (decimal n) ≡ some (pos n)
parse_int_any-decimal n = any-parse_int (decimal n) (decimal-All n) ∙ parse_int-decimal n
