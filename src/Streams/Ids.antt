-- ===== src/Streams/Ids.antt =====
-- Ids of entries: `generateEntryId`, `regxStreamId` and `parseStreamEntries` of utilities.ts.
use diy_redis.Base.{
  ℕ, suc, Bool, true, false, ◌&&◌, ◌||◌, Option, none, some, List, [], ◌∷◌, ◌++◌, ◌==◌, ltb, leb,
  if◌then◌else◌,
}
use diy_redis.Js.Text.{Text, codes, str_eq, is_truthy}
use diy_redis.Js.Number.{is_digit, digits, decimal}
use diy_redis.Store.{Entry}

-- The parts of `id.split("-")`: the first, and the second if there is one.
unfoldable pub first_part : Text → Text
first_part [] = []
first_part (c ∷ s) = let rest = first_part s in if c == b'-' then [] else c ∷ rest

unfoldable pub behind_dash : Text → Option Text
behind_dash [] = none
behind_dash (c ∷ s) = let rest = behind_dash s in if c == b'-' then some s else rest

abbrev pub first_of : Option Text → Option Text
first_of none = none
first_of (some t) = some (first_part t)

unfoldable pub second_part : Text → Option Text
unfolding first_part behind_dash
second_part id = first_of (behind_dash id)

-- s < t on strings: by code units.
unfoldable pub text_lt : Text → Text → Bool
text_lt s [] = false
text_lt [] (y ∷ ys) = true
text_lt (x ∷ xs) (y ∷ ys) = let rest = text_lt xs ys in if ltb x y then true else (x == y) && rest

-- What Number gives: a whole number that is held exactly, `nan` for undefined, and `other` for every text that is no
-- row of digits or spells more than 2 ^ 53 - 1.
pub data Number : Type 0 where
  whole : ℕ → Number
  nan : Number
  other : Number

abbrev pub max_safe : ℕ
max_safe = 9_007_199_254_740_991

unfoldable pub all_digits : Text → Bool
all_digits [] = true
all_digits (c ∷ s) = is_digit c && all_digits s

abbrev pub held : Option ℕ → Number
held none = whole 0
held (some n) = if leb n max_safe then whole n else other

unfoldable pub number_of : Text → Number
unfolding all_digits
number_of t = if all_digits t then held (digits t none) else other

abbrev pub number_if : Option Text → Number
number_if none = nan
number_if (some t) = number_of t

-- `regxStreamId.test(id)`
abbrev sequence_or_star : Option Text → Bool
sequence_or_star none = false
sequence_or_star (some t) = str_eq t (codes "*") || (is_truthy t && all_digits t)

unfoldable pub is_stream_id : Text → Bool
unfolding first_part behind_dash all_digits
is_stream_id id =
    str_eq id (codes "*")
    || (is_truthy (first_part id)
        && (all_digits (first_part id) && sequence_or_star (behind_dash id)))

-- `parseStreamEntries`; the dispatcher hands XADD no empty list.
unfoldable pub parse_stream_entries : List Text → Option Entry
unfolding is_stream_id
parse_stream_entries [] = none
parse_stream_entries (id ∷ rest) =
    if str_eq id (codes "0-0")
    then none
    else if is_stream_id id
    then some (record { id = id; fields = rest })
    else none

-- The result of `generateEntryId`: an id, null, or, when Number gives `other` for the old sequence number, not told.
pub data NewId : Type 0 where
  fresh : Text → NewId
  refused : NewId
  untold : NewId

abbrev pub is_star : Option Text → Bool
is_star none = false
is_star (some t) = str_eq t (codes "*")

abbrev pub joined : Text → Text → Text
joined ms sequence = ms ++ b'-' ∷ sequence

-- `[ms, +old + 1].join("-")`
abbrev pub next_id : Text → Number → NewId
next_id ms (whole n) = fresh (joined ms (decimal (suc n)))
next_id ms nan = fresh (joined ms (codes "NaN"))
next_id ms other = untold

-- `old < new`; a comparison with undefined does not hold.
abbrev pub sequence_lt : Option Text → Option Text → Bool
sequence_lt none t = false
sequence_lt (some s) none = false
sequence_lt (some s) (some t) = text_lt s t

-- An id that is not `*`, without and with an id before it.
unfoldable pub first_id : Text → NewId
unfolding second_part
first_id new =
    let ms = first_part new in
    if is_star (second_part new)
    then fresh (joined ms (if str_eq ms (codes "0") then codes "1" else codes "0"))
    else fresh new

unfoldable pub following_id : Text → Text → NewId
unfolding second_part text_lt number_of
following_id new old =
    let ms = first_part new in
    if str_eq (first_part old) ms
    then if is_star (second_part new)
      then next_id ms (number_if (second_part old))
      else if sequence_lt (second_part old) (second_part new)
      then fresh new
      else refused
    else if text_lt ms (first_part old)
    then refused
    else if is_star (second_part new)
    then fresh (joined ms (codes "0"))
    else fresh new

abbrev pub expand_star : ℕ → Text → Text
expand_star now new = if str_eq new (codes "*") then decimal now ++ codes "-*" else new

-- `generateEntryId`
unfoldable pub generate_entry_id : ℕ → Text → Option Text → NewId
unfolding first_id following_id
generate_entry_id now new none = first_id (expand_star now new)
generate_entry_id now new (some old) =
    if is_truthy old then following_id (expand_star now new) old else first_id (expand_star now new)
