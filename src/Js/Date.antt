-- ===== src/Js/Date.antt =====
-- JavaScript's `Date`: milliseconds since 1970, or an invalid date. `none` in place of a number is
-- NaN.
use diy_redis.Base.{ℕ, Bool, false, ◌||◌, Option, none, some, ltb, if◌then◌else◌}
use diy_redis.Base.Int.{ℤ, pos, ltb_ℤ, pos_part, neg_part}

pub data Date : Type 0 where
  at : ℤ → Date
  invalid : Date

-- The greatest time value that a date can hold, on either side of 1970.
abbrev pub max_time : ℕ
max_time = 8_640_000_000_000_000

-- new Date(t)
unfoldable pub new_date : Option ℤ → Date
new_date none = invalid
new_date (some t) = if ltb max_time (pos_part t) || ltb max_time (neg_part t) then invalid else at t

-- `now > d`; no comparison with NaN holds.
unfoldable pub is_after : ℕ → Date → Bool
is_after now (at t) = ltb_ℤ t (pos now)
is_after now invalid = false
