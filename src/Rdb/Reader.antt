-- ===== src/Rdb/Reader.antt =====
-- persistence/RDBParser.ts. The cursor is the list of the bytes from it on; `none` is an exception.
use diy_redis.Base.{
  ℕ, zero, suc, ◌+◌, ◌*◌, ◌/◌, ◌%◌, Bool, true, false, ◌||◌, Option, none, some, [], ◌∷◌, map,
  length, take, drop, ltb, ◌==◌, ◌>>=◌, if◌then◌else◌,
}
use diy_redis.Base.Int.{pos, ltb_ℤ}
use diy_redis.Js.Text.{Text, codes, starts_with}
use diy_redis.Js.Number.{decimal_ℤ}
use diy_redis.Js.Utf8.{Bytes, utf8_decode}
use diy_redis.Js.Date.{Date, at, invalid, new_date}
use diy_redis.Store.{Store, text, set_value}
use diy_redis.Store.{string}
use diy_redis.Rdb.Words.{le_value, be_value, as_signed}

-- `n` bytes and what follows them, if there are so many.
abbrev pub split_at : ℕ → Bytes → Option (Bytes × Bytes)
split_at n s = if ltb (length s) n then none else some (take n s, drop n s)

-- `parseLengthEncoded`: a length, or -1 with the cursor where it was.
pub data Length : Type 0 where
  plain : ℕ → Length
  special : Length

length_14 : ℕ → Bytes → Option (Length × Bytes)
length_14 b [] = none
length_14 b (c ∷ s) = some (plain (b % 64 * 256 + c), s)

length_32 : Bytes → Option (Length × Bytes)
length_32 s = do (word, rest) ← split_at 4 s; some (plain (be_value 0 word), rest)

unfoldable pub read_length : Bytes → Option (Length × Bytes)
unfolding length_14 length_32
read_length [] = none
read_length (b ∷ s) =
    if b / 64 == 0
    then some (plain (b % 64), s)
    else if b / 64 == 1
    then length_14 b s
    else if b / 64 == 2
    then length_32 s
    else if b / 64 == 3
    then some (special, b ∷ s)
    else none

-- A number of `k` bytes as its decimal text.
read_signed : ℕ → Bytes → Option (Text × Bytes)
read_signed k s = do
  (word, rest) ← split_at k s
  some (decimal_ℤ (as_signed k (le_value word)), rest)

special_string : ℕ → Bytes → Option (Text × Bytes)
unfolding read_signed
special_string format s =
    if format == 0
    then read_signed 1 s
    else if format == 1
    then read_signed 2 s
    else if format == 2
    then read_signed 4 s
    else none

unfoldable pub string_body : Length → Bytes → Option (Text × Bytes)
unfolding special_string
string_body special [] = none
string_body special (b ∷ s) = special_string (b % 64) s
string_body (plain n) s = do (bytes, rest) ← split_at n s; some (utf8_decode bytes, rest)

-- `parseStringEncoded`
unfoldable pub read_string : Bytes → Option (Text × Bytes)
unfolding string_body
read_string s = do (size, rest) ← read_length s; string_body size rest

-- `parseKeyValuePair`: the expiry in front of a pair.
expiry_of : ℕ → ℕ → Bytes → Option (Option Date × Bytes)
expiry_of k unit s = do
  (word, rest) ← split_at k s
  some (some (new_date (some (pos (le_value word * unit)))), rest)

unfoldable pub read_expiry : Bytes → Option (Option Date × Bytes)
unfolding expiry_of
read_expiry [] = some (none, [])
read_expiry (b ∷ s) =
    if b == 0xfd
    then expiry_of 4 1000 s
    else if b == 0xfc
    then expiry_of 8 1 s
    else some (none, b ∷ s)

-- The value type; no byte at all makes the message of the exception throw.
unfoldable pub string_type : Bytes → Option Bytes
string_type [] = none
string_type (b ∷ s) = if b == 0 then some s else none

pub record Pair : Type 0 where
  pub expiry : Option Date
  pub key : Text
  pub value : Text

unfoldable pub read_pair : Bytes → Option (Pair × Bytes)
unfolding string_type
read_pair s = do
  (expiry, s₁) ← read_expiry s
  s₂ ← string_type s₁
  (key, s₃) ← read_string s₂
  (value, s₄) ← read_string s₃
  some (record { expiry = expiry; key = key; value = value }, s₄)

-- `!expiry || expiry.getTime() > Date.now()`
unfoldable pub is_live : ℕ → Option Date → Bool
is_live now none = true
is_live now (some (at t)) = ltb_ℤ (pos now) t
is_live now (some invalid) = false

unfoldable pub store_pair : ℕ → Pair → Store → Store
unfolding is_live
store_pair now p store =
    if is_live now p.expiry then set_value p.key (text p.value) string p.expiry store else store

-- What a loop leaves: the bytes that follow and the store, or the store when an exception is thrown, or
-- rounds that were not enough.
pub data Section : Type 0 where
  section : Bytes → Store → Section
  broken : Store → Section
  exhausted : Section

abbrev pub ends_section : ℕ → Bool
ends_section b = (b == 0xfe) || (b == 0xff) || (b == 0xfa)

-- The loop of `parseDatabaseSelector`.
unfoldable pub load_pairs : ℕ → ℕ → Bytes → Store → Section
load_pairs zero now s store = exhausted
load_pairs (suc f) now [] store = section [] store
load_pairs (suc f) now (b ∷ s) store = elim (ends_section b) [
  | true ↦ section (b ∷ s) store
  | false ↦ elim (read_pair (b ∷ s)) [
    | none ↦ broken store
    | some (p, rest) ↦ load_pairs f now rest (store_pair now p store)
  ]
]

-- The resize hints.
unfoldable pub skip_hints : Bytes → Option Bytes
skip_hints [] = some []
skip_hints (b ∷ s) =
    if b == 0xfb
    then (do (keys, s₁) ← read_length s; (expiring, s₂) ← read_length s₁; some s₂)
    else some (b ∷ s)

unfoldable pub skip_selector : Bytes → Option Bytes
unfolding skip_hints
skip_selector s = do (number, rest) ← read_length s; skip_hints rest

unfoldable pub skip_metadata : Bytes → Option Bytes
skip_metadata s = do (key, s₁) ← read_string s; (value, s₂) ← read_string s₁; some s₂

-- How `parse` ends.
pub data Loaded : Type 0 where
  loaded : Store → Loaded
  failed : Store → Loaded
  out_of_rounds : Loaded

-- The loop of `parse`; a database section has as many rounds for its own loop.
unfoldable pub load_sections : ℕ → ℕ → Bytes → Store → Loaded
load_sections zero now s store = out_of_rounds
load_sections (suc f) now [] store = loaded store
load_sections (suc f) now (b ∷ s) store = elim (b == 0xfa) [
  | true ↦ elim (skip_metadata s) [
    | none ↦ failed store
    | some rest ↦ load_sections f now rest store
  ]
  | false ↦ elim (b == 0xfe) [
    | true ↦ elim (skip_selector s) [
      | none ↦ failed store
      | some rest ↦ elim (load_pairs (suc f) now rest store) [
        | section rest' store' ↦ load_sections f now rest' store'
        | broken store' ↦ failed store'
        | exhausted ↦ out_of_rounds
      ]
    ]
    | false ↦ if b == 0xff then loaded store else failed store
  ]
]

-- `parse`; toString("ascii") drops the highest bit of a byte.
unfoldable pub parse_rdb : ℕ → Bytes → Store → Loaded
parse_rdb now buffer store =
    if starts_with (map (λ b. b % 128) (take 9 buffer)) (codes "REDIS")
    then load_sections (suc (length buffer)) now (drop 9 buffer) store
    else failed store
