-- ===== src/Streams/Numerals.antt =====
-- The order of ids as strings and as numbers.
use diy_redis.Base.{
  ℕ, ◌+◌, ◌-◌, ◌*◌, ◌<◌, ◌≡◌, sym, lt→ltb, ==_iff, true, false, [], ◌∷◌, arith, ◌==◌, ltb, length,
  Bool-cases, inl, inr,
}
use diy_redis.Js.Text.{Text, str_eq}
use diy_redis.Streams.Ids.{all_digits, text_lt}

-- The number that digits spell, behind what was read before.
unfoldable pub numeral : ℕ → Text → ℕ
numeral a [] = a
numeral a (c ∷ s) = numeral (a * 10 + (c - 48)) s

numeral_bound :
    (a b : ℕ) (s t : Text)
    → all_digits s ≡ true
    → all_digits t ≡ true
    → length s ≡ length t
    → a < b
    → numeral a s < numeral b t
unfolding numeral all_digits
numeral_bound a b [] [] hs ht same h = h
numeral_bound a b [] (d ∷ t) hs ht same h = absurd (omega arith)
numeral_bound a b (c ∷ s) [] hs ht same h = absurd (omega arith)
numeral_bound a b (c ∷ s) (d ∷ t) hs ht same h =
    numeral_bound (a * 10 + (c - 48)) (b * 10 + (d - 48)) s t (ground arith) (ground arith)
      (omega arith) (ground arith)

unequal : (a b : ℕ) → a < b → false ≡ (a == b)
unequal a b h = ground arith

unequal_above : (a b : ℕ) → b < a → false ≡ (a == b)
unequal_above a b h = ground arith

not_less : (a b : ℕ) → b < a → false ≡ ltb a b
not_less a b h = ground arith

-- Rows of digits of the same length stand in the order of what they spell.
pub text_lt-numeral :
    (a : ℕ) (s t : Text)
    → all_digits s ≡ true
    → all_digits t ≡ true
    → length s ≡ length t
    → text_lt s t ≡ ltb (numeral a s) (numeral a t)
unfolding text_lt numeral all_digits
text_lt-numeral a [] [] hs ht same = ground arith
text_lt-numeral a [] (d ∷ t) hs ht same = absurd (omega arith)
text_lt-numeral a (c ∷ s) [] hs ht same = absurd (omega arith)
text_lt-numeral a (c ∷ s) (d ∷ t) hs ht same =
    let hs' : all_digits s ≡ true = ground arith in
    let ht' : all_digits t ≡ true = ground arith in
    let same' : length s ≡ length t = omega arith in
    elim (Bool-cases (ltb c d)) [
      | inl less ↦ rw less (
          sym (
            lt→ltb _ _ (
              numeral_bound (a * 10 + (c - 48)) (a * 10 + (d - 48)) s t hs' ht' same'
                (ground arith))))
      | inr no_less ↦ elim (Bool-cases (c == d)) [
        | inl equal ↦
            rw (no_less, equal, (==_iff c d).0 equal)
              (text_lt-numeral (a * 10 + (d - 48)) s t hs' ht' same')
        | inr differ ↦
            rw (no_less, differ)
              (not_less _ _ (
                numeral_bound (a * 10 + (d - 48)) (a * 10 + (c - 48)) t s ht' hs' (omega arith)
                  (ground arith)))
      ]
    ]

pub str_eq-numeral :
    (a : ℕ) (s t : Text)
    → all_digits s ≡ true
    → all_digits t ≡ true
    → length s ≡ length t
    → str_eq s t ≡ (numeral a s == numeral a t)
unfolding str_eq numeral all_digits
str_eq-numeral a [] [] hs ht same = ground arith
str_eq-numeral a [] (d ∷ t) hs ht same = absurd (omega arith)
str_eq-numeral a (c ∷ s) [] hs ht same = absurd (omega arith)
str_eq-numeral a (c ∷ s) (d ∷ t) hs ht same =
    let hs' : all_digits s ≡ true = ground arith in
    let ht' : all_digits t ≡ true = ground arith in
    let same' : length s ≡ length t = omega arith in
    elim (Bool-cases (c == d)) [
      | inl equal ↦
          rw (equal, (==_iff c d).0 equal) (str_eq-numeral (a * 10 + (d - 48)) s t hs' ht' same')
      | inr differ ↦ rw differ (elim (Bool-cases (ltb c d)) [
        | inl less ↦
            unequal _ _ (
              numeral_bound (a * 10 + (c - 48)) (a * 10 + (d - 48)) s t hs' ht' same'
                (ground arith))
        | inr more ↦ unequal_above _ _ (
            numeral_bound (a * 10 + (d - 48)) (a * 10 + (c - 48)) t s ht' hs' (omega arith)
              (ground arith))
      ])
    ]
