-- ===== src/Strings/Expiry.antt =====
-- SET, GET and EXPIRE over time: GetCommand.ts, SetCommand.ts, ExpireCommand.ts.
use diy_redis.Base.{
  ℕ, ◌+◌, ◌*◌, ◌≤◌, ◌≡◌, refl, Option, none, some, [], ◌∷◌, ◌++◌, arith, ltb, if◌then◌else◌,
  Bool-cases, inl, inr,
}
use diy_redis.Base.Int.{pos}
use diy_redis.Js.Text.{Text, codes, crlf, str_eq, str_eq_refl, to_upper}
use diy_redis.Js.Number.{decimal, parse_int-decimal, decimal_truthy}
use diy_redis.Js.Date.{Date, at, max_time, new_date, is_after}
use diy_redis.Store.{
  Kind, Value, StoreValue, Store, text, value_text, string, set_value, get_value, is_expired,
  get_value-set_value,
}
use diy_redis.Resp.Encode.{bulk_string_response}
use diy_redis.Strings.Options.{
  no_options, set_options, timed, option_step, create_expiration_date, times_1000,
}
use diy_redis.Strings.Defs.{get_command, set_command, expire_command}

abbrev pub get_reply : ℕ → Text → Store → Text
get_reply now key store = (get_command now (key ∷ []) store).0

-- What GET answers for a value in the store.
abbrev pub answer : ℕ → Option StoreValue → Text
answer now none = bulk_string_response none
answer now (some v) =
    if is_expired now v.expiration
    then bulk_string_response none
    else bulk_string_response (some (value_text v.value))

pub get_command-answer :
    (now : ℕ) (k : Text) (s : Store) → get_reply now k s ≡ answer now (get_value k s)
unfolding get_command
get_command-answer now k s = ground arith

-- GET behind a plain SET answers the value that was set, and for any other key what it answered
-- before.
pub get_command-set_command :
    (now later : ℕ) (k j v : Text) (s : Store)
    → get_reply later j (set_command now (k ∷ v ∷ []) s).1
      ≡ (if str_eq k j then bulk_string_response (some v) else get_reply later j s)
unfolding set_command set_options is_expired value_text
get_command-set_command now later k j v s =
    rw (get_command-answer, get_command-answer, get_value-set_value) (ground arith)

date_in :
    (now n : ℕ)
    → now + n ≤ max_time
    → create_expiration_date now (some (pos n)) ≡ at (pos (now + n))
unfolding create_expiration_date new_date
date_in now n h = ground arith

-- A key that expires at `d` is answered up to and with that millisecond.
answer_until :
    (later d : ℕ) (t : Value) (kind : Kind)
    → answer later (some (record { value = t; kind = kind; expiration = some (at (pos d)) })) ≡ (
        if ltb d later
        then bulk_string_response none
        else bulk_string_response (some (value_text t)))
unfolding is_expired is_after
answer_until later d t kind = ground arith

abbrev expiring_at : ℕ → Option Date
expiring_at d = some (at (pos d))

seconds : (n : ℕ) → times_1000 (some (pos n)) ≡ some (pos (n * 1000))
seconds n = ground arith

step_px :
    (now n : ℕ)
    → now + n ≤ max_time
    → option_step now (to_upper (codes "PX")) (some (decimal n)) no_options
      ≡ timed (record no_options { expiration = expiring_at (now + n) })
unfolding option_step to_upper str_eq
step_px now n h = rw (decimal_truthy, parse_int-decimal, date_in now n h) refl

set_options_px :
    (now n : ℕ)
    → now + n ≤ max_time
    → set_options now (codes "PX" ∷ decimal n ∷ []) no_options
      ≡ some (record no_options { expiration = expiring_at (now + n) })
set_options_px now n h = unfold set_options in rw (step_px now n h, set_options) refl

step_ex :
    (now n : ℕ)
    → now + n * 1000 ≤ max_time
    → option_step now (to_upper (codes "EX")) (some (decimal n)) no_options
      ≡ timed (record no_options { expiration = expiring_at (now + n * 1000) })
unfolding option_step to_upper str_eq
step_ex now n h = rw (decimal_truthy, parse_int-decimal, seconds n, date_in now (n * 1000) h) refl

set_options_ex :
    (now n : ℕ)
    → now + n * 1000 ≤ max_time
    → set_options now (codes "EX" ∷ decimal n ∷ []) no_options
      ≡ some (record no_options { expiration = expiring_at (now + n * 1000) })
set_options_ex now n h = unfold set_options in rw (step_ex now n h, set_options) refl

-- SET with EX or PX, for a number of seconds whose end a Date can hold: GET answers the value up to and
-- with the millisecond that is named, and null from then on.
pub set_expiry_exact :
    (now later n : ℕ) (k v : Text) (s : Store)
    → now + n * 1000 ≤ max_time
    → (get_reply later k (set_command now (k ∷ v ∷ codes "EX" ∷ decimal n ∷ []) s).1 ≡ (
        if ltb (now + n * 1000) later
        then bulk_string_response none
        else bulk_string_response (some v)))
      × (get_reply later k (set_command now (k ∷ v ∷ codes "PX" ∷ decimal n ∷ []) s).1 ≡ (
          if ltb (now + n) later then bulk_string_response none else bulk_string_response (some v)))
unfolding set_command value_text
set_expiry_exact now later n k v s h = (
  rw (get_command-answer, set_options_ex now n h, get_value-set_value, str_eq_refl k)
      (answer_until later (now + n * 1000) (text v) string),
  rw (get_command-answer, set_options_px now n (omega arith), get_value-set_value, str_eq_refl k)
      (answer_until later (now + n) (text v) string),
)

expire_stores :
    (now n : ℕ) (k : Text) (s : Store) (v : StoreValue)
    → get_value k s ≡ some v
    → now + n * 1000 ≤ max_time
    → (expire_command now (k ∷ decimal n ∷ []) s).1
      ≡ set_value k v.value v.kind (expiring_at (now + n * 1000)) s
unfolding expire_command
expire_stores now n k s v held h =
    rw (held, parse_int-decimal, seconds n, date_in now (n * 1000) h) refl

expired_or_other :
    (later d : ℕ) (k j : Text) (v : StoreValue) (s : Store)
    → answer later (
        if str_eq k j
        then some (record { value = v.value; kind = v.kind; expiration = expiring_at d })
        else get_value j s)
      ≡ (if str_eq k j
          then (if ltb d later
              then bulk_string_response none
              else bulk_string_response (some (value_text v.value)))
          else answer later (get_value j s))
expired_or_other later d k j v s = elim (Bool-cases (str_eq k j)) [
  | inl same ↦ rw same (answer_until later d v.value v.kind)
  | inr other ↦ rw other refl
]

-- EXPIRE on a key that is held, for a number of seconds whose end a Date can hold: it answers 1; GET
-- then answers the key's value up to the end of the seconds and null behind it, and every other key as
-- before.
pub expire_exact :
    (now later n : ℕ) (k j : Text) (s : Store) (v : StoreValue)
    → get_value k s ≡ some v
    → now + n * 1000 ≤ max_time
    → ((expire_command now (k ∷ decimal n ∷ []) s).0 ≡ codes ":1" ++ crlf)
      × (get_reply later j (expire_command now (k ∷ decimal n ∷ []) s).1 ≡ (
          if str_eq k j
          then (if ltb (now + n * 1000) later
              then bulk_string_response none
              else bulk_string_response (some (value_text v.value)))
          else get_reply later j s))
expire_exact now later n k j s v held h = (
  unfold expire_command in rw (held, parse_int-decimal) refl,
  rw (expire_stores now n k s v held h, get_command-answer, get_command-answer, get_value-set_value)
      (expired_or_other later (now + n * 1000) k j v s),
)
