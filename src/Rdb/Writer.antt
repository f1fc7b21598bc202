-- ===== src/Rdb/Writer.antt =====
-- persistence/RDBWriter.ts; `none` is an exception.
use diy_redis.Base.{
  ℕ, Bool, true, false, Option, none, some, List, [], ◌∷◌, ◌++◌, length, ltb, ◌>>=◌, if◌then◌else◌,
}
use diy_redis.Base.Int.{pos, negsuc, leb_ℤ}
use diy_redis.Js.Text.{Text, codes}
use diy_redis.Js.Utf8.{Bytes, utf8_encode}
use diy_redis.Js.Date.{Date, at, invalid}
use diy_redis.Store.{Kind, StoreValue, Store, value_text, get_value, get_keys}
use diy_redis.Store.{string, hash, list, set, untyped, stream, zset}
use diy_redis.Rdb.Words.{le_bytes, bytes_bound}

abbrev pub is_string : Kind → Bool
is_string string = true
is_string hash = false
is_string list = false
is_string set = false
is_string untyped = false
is_string stream = false
is_string zset = false

unfoldable pub encode_length : ℕ → Option Bytes
encode_length n = if ltb n 64 then some (n ∷ []) else none

unfoldable pub write_string : Text → Option Bytes
write_string t = do size ← encode_length (length (utf8_encode t)); some (size ++ utf8_encode t)

-- `expiration && expiration.getTime() <= Date.now()`; no comparison with NaN holds.
unfoldable pub is_past : ℕ → Option Date → Bool
is_past now none = false
is_past now (some (at t)) = leb_ℤ t (pos now)
is_past now (some invalid) = false

-- The expiry; BigInt refuses NaN, and writeBigUInt64LE what is no number of eight bytes.
unfoldable pub expiry_bytes : Option Date → Option Bytes
expiry_bytes none = some []
expiry_bytes (some (at (pos t))) =
    if ltb t (bytes_bound 8) then some (0xfc ∷ le_bytes 8 t) else none
expiry_bytes (some (at (negsuc t))) = none
expiry_bytes (some invalid) = none

unfoldable pub write_pair : Text → StoreValue → Option Bytes
write_pair key v = do
  expiry ← expiry_bytes v.expiration
  name ← write_string key
  value ← write_string (value_text v.value)
  some (expiry ++ 0 ∷ (name ++ value))

-- One round of the loop.
unfoldable pub write_entry : ℕ → Text → Option StoreValue → Option Bytes
unfolding is_past
write_entry now key none = some []
write_entry now key (some v) =
    if is_string v.kind
    then (if is_past now v.expiration then some [] else write_pair key v)
    else some []

unfoldable pub write_entries : ℕ → List Text → Store → Option Bytes
write_entries now [] store = some []
write_entries now (key ∷ keys) store = do
  first ← write_entry now key (get_value key store)
  rest ← write_entries now keys store
  some (first ++ rest)

abbrev pub end_bytes : Bytes
end_bytes = 0xff ∷ 0 ∷ 0 ∷ 0 ∷ 0 ∷ 0 ∷ 0 ∷ 0 ∷ 0 ∷ []

-- `buildRDB`
unfoldable pub build_rdb : ℕ → Store → Option Bytes
build_rdb now store = do
  count ← encode_length (length (get_keys store))
  body ← write_entries now (get_keys store) store
  some (codes "REDIS0011" ++ 0xfe ∷ 0 ∷ 0xfb ∷ (count ++ 0 ∷ (body ++ end_bytes)))
