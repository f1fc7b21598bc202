-- ===== src/Strings/Options.antt =====
-- SetCommand.ts: the options behind the key and the value.
use diy_redis.Base.{ℕ, Bool, true, false, Option, none, some, List, [], ◌∷◌, ◌==◌, if◌then◌else◌}
use diy_redis.Base.Int.{ℤ, pos, negsuc, ◌+ℤ◌, ◌*ℤ◌}
use diy_redis.Js.Text.{Text, codes, str_eq, to_upper, is_truthy}
use diy_redis.Js.Number.{parse_int}
use diy_redis.Js.Date.{Date, at, new_date}

-- `createExpirationDate` of utilities.ts: 0 and NaN give the current date.
unfoldable pub create_expiration_date : ℕ → Option ℤ → Date
create_expiration_date now none = at (pos now)
create_expiration_date now (some (pos n)) =
    if n == 0 then at (pos now) else new_date (some (pos now +ℤ pos n))
create_expiration_date now (some (negsuc n)) = new_date (some (pos now +ℤ negsuc n))

abbrev pub times_1000 : Option ℤ → Option ℤ
times_1000 none = none
times_1000 (some z) = some (z *ℤ pos 1000)

pub data Mode : Type 0 where
  nx xx : Mode

pub record SetOptions : Type 0 where
  pub expiration : Option Date
  pub mode : Option Mode
  pub keep_ttl : Bool

abbrev pub no_options : SetOptions
no_options = record { expiration = none; mode = none; keep_ttl = false }

-- What one option does: it takes the next argument too, it stands alone, or it is refused.
pub data OptionStep : Type 0 where
  timed : SetOptions → OptionStep
  flag : SetOptions → OptionStep
  refused : OptionStep

abbrev with_time : Option Text → SetOptions → (Option ℤ → Date) → OptionStep
with_time none o f = refused
with_time (some t) o f =
    if is_truthy t then timed (record o { expiration = some (f (parse_int t)) }) else refused

-- The `switch` on an option in upper case.
unfoldable pub option_step : ℕ → Text → Option Text → SetOptions → OptionStep
option_step now name time o =
    if str_eq name (codes "EX")
    then with_time time o (λ t. create_expiration_date now (times_1000 t))
    else if str_eq name (codes "PX")
    then with_time time o (create_expiration_date now)
    else if str_eq name (codes "EXAT")
    then with_time time o (λ t. new_date (times_1000 t))
    else if str_eq name (codes "PXAT")
    then with_time time o new_date
    else if str_eq name (codes "NX")
    then flag (record o { mode = some nx })
    else if str_eq name (codes "XX")
    then flag (record o { mode = some xx })
    else if str_eq name (codes "KEEPTTL")
    then flag (record o { keep_ttl = true })
    else refused

-- The loop over the arguments that are left; `none` is the reply "syntax error".
unfoldable pub set_options : ℕ → List Text → SetOptions → Option SetOptions
set_options now [] o = some o
set_options now (name ∷ []) o = elim (option_step now (to_upper name) none o) [
  | timed o' ↦ some o'
  | flag o' ↦ some o'
  | refused ↦ none
]
set_options now (name ∷ time ∷ rest) o = elim (option_step now (to_upper name) (some time) o) [
  | timed o' ↦ set_options now rest o'
  | flag o' ↦ set_options now (time ∷ rest) o'
  | refused ↦ none
]
