-- ===== src/Js/Number.antt =====
-- parseInt(s, 10) and the decimal form of a number.
use diy_redis.Base.Int.{ℤ, pos, negsuc, sub_ℕ}
use diy_redis.Base.{
  append-nil, ℕ, zero, suc, ◌+◌, ◌-◌, ◌*◌, ◌/◌, ◌%◌, ◌<◌, ◌≤◌, ◌≡◌, refl, ap, ◌∙◌, Bool, true,
  false, ◌&&◌, ◌||◌, Option, none, some, [], ◌∷◌, ◌++◌, append_assoc, arith, ◌==◌, ltb, leb,
  if◌then◌else◌, All, All-append, inl, inr, Bool-cases,
}
use diy_redis.Js.Text.{Text, is_truthy, codes}
use mathlib.Core.List.{reverse}

abbrev pub is_digit : ℕ → Bool
is_digit c = leb b'0' c && leb c b'9'

-- StrWhiteSpaceChar of the language's definition
unfoldable pub is_space : ℕ → Bool
is_space c =
    (leb 9 c && leb c 13)
    || (c == 32)
    || (c == 0xa0)
    || (c == 0x1680)
    || (leb 0x2000 c && leb c 0x200a)
    || (c == 0x2028)
    || (c == 0x2029)
    || (c == 0x202f)
    || (c == 0x205f)
    || (c == 0x3000)
    || (c == 0xfeff)

unfoldable pub skip_space : Text → Text
unfolding is_space
skip_space [] = []
skip_space (c ∷ s) = if is_space c then skip_space s else c ∷ s

abbrev pub or_zero : Option ℕ → ℕ
or_zero none = 0
or_zero (some n) = n

-- The number that the digits at the front spell; none (NaN) if there is no digit.
unfoldable pub digits : Text → Option ℕ → Option ℕ
digits [] acc = acc
digits (c ∷ s) acc = if is_digit c then digits s (some (or_zero acc * 10 + (c - 48))) else acc

abbrev pub as_pos : Option ℕ → Option ℤ
as_pos none = none
as_pos (some n) = some (pos n)

abbrev pub as_neg : Option ℕ → Option ℤ
as_neg none = none
as_neg (some n) = some (sub_ℕ 0 n)

abbrev signed : Text → Option ℤ
signed [] = none
signed (c ∷ s) =
    if c == b'-'
    then as_neg (digits s none)
    else if c == b'+'
    then as_pos (digits s none)
    else as_pos (digits (c ∷ s) none)

-- parseInt(s, 10); none is NaN.
unfoldable pub parse_int : Text → Option ℤ
unfolding skip_space digits
parse_int s = signed (skip_space s)

-- The decimal digits of `n`, for `n` below the fuel.
decimal_digits : ℕ → ℕ → Text
decimal_digits zero n = []
decimal_digits (suc f) n =
    let front = decimal_digits f (n / 10) in
    if ltb n 10 then (48 + n) ∷ [] else front ++ (48 + n % 10) ∷ []

-- String(n), `${n}` of a natural number: `suc n` is enough fuel.
unfoldable pub decimal : ℕ → Text
unfolding decimal_digits
decimal n = decimal_digits (suc n) n

unfoldable pub decimal_ℤ : ℤ → Text
unfolding decimal
decimal_ℤ (pos n) = decimal n
decimal_ℤ (negsuc n) = b'-' ∷ decimal (suc n)

decimal_digits-All : (f n : ℕ) → n < f → All (λ c. (48 ≤ c) × (c ≤ 57)) (decimal_digits f n)
unfolding decimal_digits
decimal_digits-All zero n h = absurd (omega arith)
decimal_digits-All (suc f) n h = elim (Bool-cases (ltb n 10)) [
  | inl small ↦ rw small (ground arith)
  | inr large ↦ rw large (
      All-append _ (decimal_digits f (n / 10)) _ (decimal_digits-All f (n / 10) (ground arith))
        (omega arith))
]

-- Reading a number's digits gives the number, and goes on with what follows them.
digits-decimal_digits :
    (f n : ℕ) (rest : Text)
    → n < f
    → digits (decimal_digits f n ++ rest) none ≡ digits rest (some n)
unfolding decimal_digits digits
digits-decimal_digits zero n rest h = absurd (omega arith)
digits-decimal_digits (suc f) n rest h = elim (Bool-cases (ltb n 10)) [
  | inl small ↦ rw small (ground arith)
  | inr large ↦
      rw
        (
          large,
          append_assoc,
          digits-decimal_digits f (n / 10) ((48 + n % 10) ∷ rest) (ground arith),
        )
        (ground arith)
]

abbrev DigitFirst : Text → Type 0
DigitFirst [] = ⊥
DigitFirst (c ∷ s) = (48 ≤ c) × (c ≤ 57)

DigitFirst-append : (s t : Text) → DigitFirst s → DigitFirst (s ++ t)
DigitFirst-append [] t h = absurd h
DigitFirst-append (c ∷ s) t h = h

decimal_digits-DigitFirst : (f n : ℕ) → n < f → DigitFirst (decimal_digits f n)
unfolding decimal_digits
decimal_digits-DigitFirst zero n h = absurd (omega arith)
decimal_digits-DigitFirst (suc f) n h = elim (Bool-cases (ltb n 10)) [
  | inl small ↦ rw small (ground arith)
  | inr large ↦ rw large (
      DigitFirst-append (decimal_digits f (n / 10)) _
        (decimal_digits-DigitFirst f (n / 10) (ground arith)))
]

pub digit_no_space : (c : ℕ) → (48 ≤ c) × (c ≤ 57) → is_space c ≡ false
unfolding is_space
digit_no_space c h = ground arith

pub digit_no_sign : (c k : ℕ) → (48 ≤ c) × (c ≤ 57) → k < 48 → (c == k) ≡ false
digit_no_sign c k h l = ground arith

signed-digits : (s : Text) → DigitFirst s → signed (skip_space s) ≡ as_pos (digits s none)
unfolding skip_space
signed-digits [] h = absurd h
signed-digits (c ∷ s) h =
    rw
      (
        digit_no_space c h,
        digit_no_sign c b'-' h (omega arith),
        digit_no_sign c b'+' h (omega arith),
      )
      refl

-- parseInt undoes String on the naturals, whatever follows that is no digit.
pub parse_int-decimal : (n : ℕ) → parse_int (decimal n) ≡ some (pos n)
unfolding parse_int decimal
parse_int-decimal n =
    signed-digits (decimal_digits (suc n) n) (decimal_digits-DigitFirst (suc n) n (omega arith))
    ∙ ap as_pos (rw append-nil at (digits-decimal_digits (suc n) n [] (omega arith)))

pub decimal-All : (n : ℕ) → All (λ c. (48 ≤ c) × (c ≤ 57)) (decimal n)
unfolding decimal
decimal-All n = decimal_digits-All (suc n) n (omega arith)

as_neg-suc : (n : ℕ) → as_neg (some (suc n)) ≡ some (negsuc n)
as_neg-suc n = ground arith

-- parseInt undoes String on every whole number.
pub parse_int-decimal_ℤ : (z : ℤ) → parse_int (decimal_ℤ z) ≡ some z
unfolding decimal_ℤ
parse_int-decimal_ℤ (pos n) = parse_int-decimal n
parse_int-decimal_ℤ (negsuc n) =
    unfold parse_int decimal in
    ap as_neg (rw append-nil at (digits-decimal_digits (suc (suc n)) (suc n) [] (omega arith)))
    ∙ as_neg-suc n

truthy_digits : (s : Text) → DigitFirst s → is_truthy s ≡ true
truthy_digits [] h = absurd h
truthy_digits (c ∷ s) h = refl

pub decimal_truthy : (n : ℕ) → is_truthy (decimal n) ≡ true
unfolding decimal
decimal_truthy n =
    truthy_digits (decimal_digits (suc n) n) (decimal_digits-DigitFirst (suc n) n (omega arith))

-- s.trim()
unfoldable pub trim : Text → Text
trim s = reverse (skip_space (reverse (skip_space s)))

-- `${n}` of what parseInt gave
unfoldable pub number_text : Option ℤ → Text
number_text none = codes "NaN"
number_text (some n) = decimal_ℤ n

ends_number : (n : ℕ) → digits (13 ∷ 10 ∷ []) (some n) ≡ some n
ends_number n = unfold digits in refl

-- What follows the number on its line does not change it.
pub parse_int-decimal_ℤ_line : (z : ℤ) → parse_int (decimal_ℤ z ++ 13 ∷ 10 ∷ []) ≡ some z
unfolding parse_int decimal_ℤ decimal
parse_int-decimal_ℤ_line (pos n) =
    signed-digits (decimal_digits (suc n) n ++ 13 ∷ 10 ∷ []) (
      DigitFirst-append (decimal_digits (suc n) n) _
        (decimal_digits-DigitFirst (suc n) n (omega arith)))
    ∙ ap as_pos (digits-decimal_digits (suc n) n (13 ∷ 10 ∷ []) (omega arith) ∙ ends_number n)
parse_int-decimal_ℤ_line (negsuc n) =
    ap as_neg (
      digits-decimal_digits (suc (suc n)) (suc n) (13 ∷ 10 ∷ []) (omega arith)
      ∙ ends_number (suc n))
    ∙ as_neg-suc n
