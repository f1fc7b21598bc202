-- ===== src/Rdb/Strings.antt =====
-- Texts and expiries that the writer wrote are read back.
use diy_redis.Base.{
  arith, ℕ, ◌*◌, ◌<◌, ◌≤◌, ◌≡◌, refl, true, false, Option, none, some, [], ◌∷◌, ◌++◌, length,
  length-append, take-append, drop-append, if◌then◌else◌,
}
use diy_redis.Base.Int.{pos, negsuc, pos_part}
use diy_redis.Js.Text.{Text}
use diy_redis.Js.Utf8.{Bytes, utf8_encode}
use diy_redis.Js.Utf8.WellFormed.{well_formed, utf8_decode-utf8_encode}
use diy_redis.Js.Date.{Date, at, invalid, new_date, max_time}
use diy_redis.Rdb.Words.{le_bytes, bytes_bound, le_value-le_bytes, length-le_bytes}
use diy_redis.Rdb.Writer.{encode_length, write_string, expiry_bytes, is_past}
use diy_redis.Rdb.Reader.{read_length, plain, split_at, read_string, read_expiry, is_live}

-- A text that the writer can write and the reader gives back.
pub record IsSmall (t : Text) : Type 0 where
  pub paired : well_formed t ≡ true
  pub short : length (utf8_encode t) < 64

pub split_at-append : (xs ys : Bytes) → split_at (length xs) (xs ++ ys) ≡ some (xs, ys)
split_at-append xs ys =
    rw (take-append xs ys, drop-append xs ys) (ground (arith, length-append {0} xs ys))

pub read_length-short : (n : ℕ) (s : Bytes) → n < 64 → read_length (n ∷ s) ≡ some (plain n, s)
unfolding read_length
read_length-short n s h = ground arith

-- The bytes of a short text.
abbrev pub string_bytes : Text → Bytes
string_bytes t = length (utf8_encode t) ∷ utf8_encode t

pub write_string-IsSmall : (t : Text) → IsSmall t → write_string t ≡ some (string_bytes t)
unfolding write_string encode_length
write_string-IsSmall t h = ground arith

-- A text in UTF-8 behind its length, as the writer has it, is read back whole, and exactly its own bytes are taken. Its
-- surrogates stand in pairs, and it has fewer than 64 bytes.
pub read_string-string_bytes :
    (t : Text) (rest : Bytes) → IsSmall t → read_string (string_bytes t ++ rest) ≡ some (t, rest)
unfolding read_string
read_string-string_bytes t rest h =
    rw
      (
        read_length-short (length (utf8_encode t)) (utf8_encode t ++ rest) h.short,
        split_at-append (utf8_encode t) rest,
        utf8_decode-utf8_encode t h.paired,
      )
      refl

-- An expiry that a date can hold.
abbrev pub IsDated : Option Date → Type 0
IsDated none = Unit {0}
IsDated (some (at t)) = pos_part t ≤ max_time
IsDated (some invalid) = ⊥

-- The bytes of such an expiry that has not passed.
abbrev pub dated_bytes : Option Date → Bytes
dated_bytes none = []
dated_bytes (some (at (pos t))) = 0xfc ∷ le_bytes 8 t
dated_bytes (some (at (negsuc t))) = []
dated_bytes (some invalid) = []

below_bound : (t : ℕ) → t ≤ max_time → t < bytes_bound 8
unfolding bytes_bound
below_bound t h = omega arith

pub expiry_bytes-IsDated :
    (now : ℕ) (e : Option Date)
    → IsDated e
    → is_past now e ≡ false
    → expiry_bytes e ≡ some (dated_bytes e)
unfolding expiry_bytes is_past
expiry_bytes-IsDated now none d h = refl
expiry_bytes-IsDated now (some (at (pos t))) d h = ground (arith, below_bound t)
expiry_bytes-IsDated now (some (at (negsuc t))) d h = ground arith
expiry_bytes-IsDated now (some invalid) d h = absurd d

new_date-pos : (t : ℕ) → t ≤ max_time → new_date (some (pos (t * 1))) ≡ at (pos t)
unfolding new_date
new_date-pos t h = ground arith

split_word : (t : ℕ) (rest : Bytes) → split_at 8 (le_bytes 8 t ++ rest) ≡ some (le_bytes 8 t, rest)
split_word t rest = rw (length-le_bytes 8 t) at (split_at-append (le_bytes 8 t) rest)

pub read_expiry-dated_bytes :
    (now : ℕ) (e : Option Date) (rest : Bytes)
    → IsDated e
    → is_past now e ≡ false
    → read_expiry (dated_bytes e ++ 0 ∷ rest) ≡ some (e, 0 ∷ rest)
unfolding read_expiry is_past
read_expiry-dated_bytes now none rest d h = refl
read_expiry-dated_bytes now (some (at (pos t))) rest d h =
    rw (split_word t (0 ∷ rest), le_value-le_bytes 8 t (below_bound t d), new_date-pos t d) refl
read_expiry-dated_bytes now (some (at (negsuc t))) rest d h = ground arith
read_expiry-dated_bytes now (some invalid) rest d h = absurd d

pub is_live-is_past :
    (now : ℕ) (e : Option Date)
    → IsDated e
    → is_live now e ≡ (if is_past now e then false else true)
unfolding is_live is_past
is_live-is_past now none d = refl
is_live-is_past now (some (at (pos t))) d = ground arith
is_live-is_past now (some (at (negsuc t))) d = ground arith
is_live-is_past now (some invalid) d = absurd d

pub is_past-later :
    (now later : ℕ) (e : Option Date) → now ≤ later → is_past now e ≡ true → is_past later e ≡ true
unfolding is_past
is_past-later now later none h p = p
is_past-later now later (some (at (pos t))) h p = ground arith
is_past-later now later (some (at (negsuc t))) h p = ground arith
is_past-later now later (some invalid) h p = p
