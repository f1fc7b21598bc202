-- ===== src/Lists/Ranges.antt =====
-- LRangeCommand.ts against the documented meaning of its indices.
use diy_redis.Base.{
  ap, ℕ, zero, suc, ◌+◌, ◌-◌, ◌≤◌, ◌<◌, ◌≡◌, refl, Option, none, List, [], ◌∷◌, arith, length, take,
  drop, get_elem?, min, ltb, if◌then◌else◌,
}
use diy_redis.Base.Int.{ℤ, pos, negsuc, ◌+ℤ◌, neg_part}
use diy_redis.Js.Text.{Text}
use diy_redis.Js.Number.{decimal_ℤ, parse_int-decimal_ℤ}
use diy_redis.Js.Date.{Date}
use diy_redis.Store.{Store}
use diy_redis.Resp.Encode.{to_resp_array}
use diy_redis.Lists.Defs.{found, find_list, relative, slice, effective_end, lrange_command}

get_elem?-take :
    (n : ℕ) (ts : List Text) (i : ℕ)
    → get_elem? (take n ts) i ≡ (if ltb i n then get_elem? ts i else none)
get_elem?-take zero ts i = ground arith
get_elem?-take (suc n) [] i = ground arith
get_elem?-take (suc n) (t ∷ ts) zero = ground arith
get_elem?-take (suc n) (t ∷ ts) (suc i) = ground (arith, get_elem?-take n ts i)

get_elem?-drop : (n : ℕ) (ts : List Text) (i : ℕ) → get_elem? (drop n ts) i ≡ get_elem? ts (n + i)
get_elem?-drop zero ts i = ap (get_elem? ts) (omega arith)
get_elem?-drop (suc n) [] i = ground arith
get_elem?-drop (suc n) (t ∷ ts) i = ground (arith, get_elem?-drop n ts i)

-- The place that an index names: from the front, or from the back if it is below 0; before the front
-- it is the front.
abbrev pub first_place : ℕ → ℤ → ℕ
first_place size (pos n) = n
first_place size (negsuc n) = size - suc n

-- The number of places up to and with the one that an end index names.
abbrev pub places_to : ℕ → ℤ → ℕ
places_to size (pos n) = suc n
places_to size (negsuc n) = size - n

get_elem?-none : (ts : List Text) (i : ℕ) → length ts ≤ i → get_elem? ts i ≡ none
get_elem?-none [] i h = refl
get_elem?-none (t ∷ ts) zero h = absurd (omega arith)
get_elem?-none (t ∷ ts) (suc i) h = get_elem?-none ts i (omega arith)

relative-start : (size : ℕ) (start : ℤ) → relative size start ≡ min (first_place size start) size
unfolding relative
relative-start size (pos n) = refl
relative-start size (negsuc n) = omega arith

relative-end :
    (size : ℕ) (end : ℤ)
    → neg_part end ≤ suc size
    → relative size (effective_end size end) ≡ min (places_to size end) size
unfolding relative effective_end
relative-end size (pos n) h = ap (λ m. min m size) (omega arith)
relative-end size (negsuc n) h = ground arith

clipped :
    (f p size i : ℕ) (ts : List Text)
    → size ≡ length ts
    → (if ltb i (min p size - min f size) then get_elem? ts (min f size + i) else none)
      ≡ (if ltb (f + i) p then get_elem? ts (f + i) else none)
clipped f p size i ts h =
    ground (arith, get_elem?-none ts (min f size + i), get_elem?-none ts (f + i))

get_elem?-slice :
    (start end : ℤ) (ts : List Text) (i : ℕ)
    → neg_part end ≤ suc (length ts)
    → get_elem? (slice start (effective_end (length ts) end) ts) i ≡ (
        if ltb (first_place (length ts) start + i) (places_to (length ts) end)
        then get_elem? ts (first_place (length ts) start + i)
        else none)
unfolding slice
get_elem?-slice start end ts i h =
    let size = length ts in
    rw
      (
        relative-end size end h,
        relative-start size start,
        get_elem?-take (min (places_to size end) size - min (first_place size start) size)
            (drop (min (first_place size start) size) ts) i,
        get_elem?-drop (min (first_place size start) size) ts i,
      )
      (clipped (first_place size start) (places_to size end) size i ts refl)

-- LRANGE on a list, for an end that is not more than one place before the front: the reply lists
-- the elements from the place that the start names, up to and with the one that the end names.
pub lrange_command-places :
    (k : Text) (start end : ℤ) (ts : List Text) (e : Option Date) (s : Store)
    → find_list k s ≡ found ts e
    → neg_part end ≤ suc (length ts)
    → (range : List Text) × (lrange_command (k ∷ decimal_ℤ start ∷ decimal_ℤ end ∷ []) s
        ≡ (to_resp_array range, s))
      × ((i : ℕ)
          → get_elem? range i ≡ (
              if ltb (first_place (length ts) start + i) (places_to (length ts) end)
              then get_elem? ts (first_place (length ts) start + i)
              else none))
lrange_command-places k start end ts e s h fits = (
  slice start (effective_end (length ts) end) ts,
  unfold lrange_command in rw (parse_int-decimal_ℤ start, parse_int-decimal_ℤ end, h) refl,
  λ i. get_elem?-slice start end ts i fits,
)

relative-zero : (size : ℕ) → relative size (pos 0) ≡ 0
unfolding relative
relative-zero size = omega arith

far_count :
    (size n : ℕ)
    → size < n
    → n < size + size
    → relative size (pos size +ℤ negsuc n +ℤ pos 1) - relative size (pos 0)
      ≡ suc (size - (n - size) - 1)
unfolding relative
far_count size n far near = ground arith

far_slice :
    (n : ℕ) (t : Text) (ts : List Text)
    → suc (length ts) < n
    → n ≤ length ts + suc (length ts)
    → slice (pos 0) (pos (suc (length ts)) +ℤ negsuc n +ℤ pos 1) (t ∷ ts)
      ≡ t ∷ take (suc (length ts) - (n - suc (length ts)) - 1) ts
far_slice n t ts far near =
    unfold slice in
    rw (far_count (suc (length ts)) n far (omega arith), relative-zero (suc (length ts))) refl

-- LRANGE on a list that is not empty, from 0 to an end that is more than one place before the front, by at
-- most the length of the list: the reply begins with the first element of the list, for `slice` takes
-- the end as counted from the back once more.
pub lrange_command-far_end :
    (k : Text) (n : ℕ) (t : Text) (ts : List Text) (e : Option Date) (s : Store)
    → find_list k s ≡ found (t ∷ ts) e
    → suc (length ts) < n
    → n ≤ length ts + suc (length ts)
    → (rest : List Text) × ((lrange_command (k ∷ decimal_ℤ (pos 0) ∷ decimal_ℤ (negsuc n) ∷ []) s).0
        ≡ to_resp_array (t ∷ rest))
lrange_command-far_end k n t ts e s h far near = (
  take (suc (length ts) - (n - suc (length ts)) - 1) ts,
  unfold lrange_command in
      rw (parse_int-decimal_ℤ (pos 0), parse_int-decimal_ℤ (negsuc n), h)
        (ap to_resp_array (far_slice n t ts far near)),
)
