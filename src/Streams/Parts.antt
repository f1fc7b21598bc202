-- ===== src/Streams/Parts.antt =====
-- The parts of an id.
use diy_redis.Base.{ℕ, ◌≡◌, refl, ap, true, false, some, [], ◌∷◌, arith, All, ◌≤◌}
use diy_redis.Js.Text.{Text, codes, str_eq, is_truthy}
use diy_redis.Js.Number.{decimal, decimal-All, decimal_truthy}
use diy_redis.Streams.Ids.{all_digits, first_part, behind_dash, second_part, joined, expand_star}

-- A row of digits, not empty.
pub record IsNumeral (t : Text) : Type 0 where
  pub only : all_digits t ≡ true
  pub some_digit : is_truthy t ≡ true

pub first_part-digits : (t : Text) → all_digits t ≡ true → first_part t ≡ t
unfolding all_digits first_part
first_part-digits [] h = refl
first_part-digits (c ∷ t) h = ground (arith, first_part-digits t (ground arith))

pub first_part-joined : (s t : Text) → all_digits s ≡ true → first_part (joined s t) ≡ s
unfolding all_digits first_part
first_part-joined [] t h = refl
first_part-joined (c ∷ s) t h = ground (arith, first_part-joined s t (ground arith))

pub behind_dash-joined : (s t : Text) → all_digits s ≡ true → behind_dash (joined s t) ≡ some t
unfolding all_digits behind_dash
behind_dash-joined [] t h = refl
behind_dash-joined (c ∷ s) t h = ground (arith, behind_dash-joined s t (ground arith))

pub second_part-joined :
    (s t : Text) → all_digits s ≡ true → all_digits t ≡ true → second_part (joined s t) ≡ some t
unfolding second_part
second_part-joined s t hs ht =
    rw (behind_dash-joined s t hs) (ap (λ x. some x) (first_part-digits t ht))

pub second_part-star :
    (s : Text) → all_digits s ≡ true → second_part (joined s (codes "*")) ≡ some (codes "*")
unfolding second_part first_part
second_part-star s hs = rw (behind_dash-joined s (codes "*") hs) refl

-- A row of digits is no star.
pub str_eq-star : (t : Text) → IsNumeral t → str_eq t (codes "*") ≡ false
unfolding all_digits str_eq
str_eq-star [] h = absurd (cc)
str_eq-star (c ∷ t) h = let only = h.only in ground arith

pub expand-joined : (now : ℕ) (s t : Text) → IsNumeral s → expand_star now (joined s t) ≡ joined s t
unfolding str_eq all_digits
expand-joined now [] t h = absurd (cc)
expand-joined now (c ∷ s) t h = let only = h.only in ground arith

digits_of_All : (t : Text) → All (λ c. (48 ≤ c) × (c ≤ 57)) t → all_digits t ≡ true
unfolding all_digits
digits_of_All [] h = refl
digits_of_All (c ∷ t) h = ground (arith, digits_of_All t h.1)

pub decimal-IsNumeral : (n : ℕ) → IsNumeral (decimal n)
decimal-IsNumeral n = record {
  only = digits_of_All (decimal n) (decimal-All n);
  some_digit = decimal_truthy n;
}
