-- ===== src/Streams/Order.antt =====
-- `generateEntryId` against the order of ids as pairs of numbers.
use diy_redis.Base.{
  ℕ, suc, sym, ◌+◌, ◌*◌, ◌-◌, ◌≤◌, ◌≡◌, refl, Bool, true, ◌&&◌, ◌||◌, some, none, [], ◌∷◌, arith,
  ◌==◌, ltb, length, if◌then◌else◌,
}
use diy_redis.Js.Text.{Text, codes, str_eq, is_truthy}
use diy_redis.Js.Number.{digits, decimal}
use diy_redis.Streams.Ids.{
  fresh, refused, whole, number_of, max_safe, all_digits, joined, generate_entry_id, following_id,
}
use diy_redis.Streams.Numerals.{numeral, text_lt-numeral, str_eq-numeral}
use diy_redis.Streams.Parts.{
  IsNumeral, first_part-joined, second_part-joined, second_part-star, str_eq-star, expand-joined,
}

truthy-joined : (s t : Text) → IsNumeral s → is_truthy (joined s t) ≡ true
truthy-joined [] t h = refl
truthy-joined (c ∷ s) t h = refl

digits-numeral : (a : ℕ) (s : Text) → all_digits s ≡ true → digits s (some a) ≡ some (numeral a s)
unfolding digits numeral all_digits
digits-numeral a [] h = refl
digits-numeral a (c ∷ s) h = ground (arith, digits-numeral (a * 10 + (c - 48)) s (ground arith))

digits-first : (s : Text) → IsNumeral s → digits s none ≡ some (numeral 0 s)
unfolding digits numeral all_digits
digits-first [] h = absurd (cc)
digits-first (c ∷ s) h =
    let only = h.only in ground (arith, digits-numeral (c - 48) s (ground arith))

pub number_of-numeral :
    (s : Text) → IsNumeral s → numeral 0 s ≤ max_safe → number_of s ≡ whole (numeral 0 s)
unfolding number_of
number_of-numeral s h fits = rw (h.only, digits-first s h) (ground arith)

-- The order of (ms, sequence).
abbrev pub comes_before : ℕ → ℕ → ℕ → ℕ → Bool
comes_before ms sequence ms' sequence' = ltb ms ms' || (ms == ms' && ltb sequence sequence')

module _ (now : ℕ) (ms sequence ms' sequence' : Text) (old_ms : IsNumeral ms)
    (old_sequence : IsNumeral sequence) (new_ms : IsNumeral ms')
    (new_sequence : IsNumeral sequence') (same_ms : length ms ≡ length ms')
    (same_sequence : length sequence ≡ length sequence') where
  explicit_id : generate_entry_id now (joined ms' sequence') (some (joined ms sequence)) ≡ (
      if comes_before (numeral 0 ms) (numeral 0 sequence) (numeral 0 ms') (numeral 0 sequence')
      then fresh (joined ms' sequence')
      else refused)
  unfolding generate_entry_id following_id
  explicit_id =
      rw
        (
          truthy-joined ms sequence old_ms,
          expand-joined now ms' sequence' new_ms,
          first_part-joined ms' sequence' new_ms.only,
          first_part-joined ms sequence old_ms.only,
          second_part-joined ms' sequence' new_ms.only new_sequence.only,
          second_part-joined ms sequence old_ms.only old_sequence.only,
          str_eq-star sequence' new_sequence,
          text_lt-numeral 0 sequence sequence' old_sequence.only new_sequence.only same_sequence,
          text_lt-numeral 0 ms' ms new_ms.only old_ms.only (sym same_ms),
          str_eq-numeral 0 ms ms' old_ms.only new_ms.only same_ms,
        )
        (ground arith)

  automatic_id :
      numeral 0 sequence ≤ max_safe
      → generate_entry_id now (joined ms' (codes "*")) (some (joined ms sequence)) ≡ (
          if ltb (numeral 0 ms') (numeral 0 ms)
          then refused
          else fresh (
              joined ms' (
                if numeral 0 ms == numeral 0 ms'
                then decimal (suc (numeral 0 sequence))
                else codes "0")))
  unfolding generate_entry_id following_id
  automatic_id fits =
      rw
        (
          truthy-joined ms sequence old_ms,
          expand-joined now ms' (codes "*") new_ms,
          first_part-joined ms' (codes "*") new_ms.only,
          first_part-joined ms sequence old_ms.only,
          second_part-star ms' new_ms.only,
          second_part-joined ms sequence old_ms.only old_sequence.only,
          number_of-numeral sequence old_sequence fits,
          text_lt-numeral 0 ms' ms new_ms.only old_ms.only (sym same_ms),
          str_eq-numeral 0 ms ms' old_ms.only new_ms.only same_ms,
        )
        (unfold str_eq in ground arith)

  -- The new id of XADD, where the milliseconds of the old and the new id have as many digits, and their sequence
  -- numbers too: an id that is written out is taken exactly if it comes behind the old one as a pair of
  -- numbers; where the sequence number is `*` and the old one is at most 2 ^ 53 - 1, an earlier millisecond is refused,
  -- the same one gets the next sequence number, and a later one begins at 0.
  pub generate_entry_id_lem :
      numeral 0 sequence ≤ max_safe
      → (generate_entry_id now (joined ms' sequence') (some (joined ms sequence)) ≡ (
          if comes_before (numeral 0 ms) (numeral 0 sequence) (numeral 0 ms') (numeral 0 sequence')
          then fresh (joined ms' sequence')
          else refused))
        × (generate_entry_id now (joined ms' (codes "*")) (some (joined ms sequence)) ≡ (
            if ltb (numeral 0 ms') (numeral 0 ms)
            then refused
            else fresh (
                joined ms' (
                  if numeral 0 ms == numeral 0 ms'
                  then decimal (suc (numeral 0 sequence))
                  else codes "0"))))
  generate_entry_id_lem fits = (explicit_id, automatic_id fits)
