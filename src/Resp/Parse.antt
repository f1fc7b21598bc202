-- ===== src/Resp/Parse.antt =====
-- DataParser.ts. `none` is the source's null: wait for more bytes.
use diy_redis.Base.{
  ℕ, zero, suc, ◌+◌, ◌-◌, Bool, true, false, not, ◌||◌, Option, none, some, List, [], ◌∷◌, ◌==◌,
  if◌then◌else◌, length, take, drop, ◌>>=◌, ◌>>◌, guard,
}
use diy_redis.Base.Int.{ℤ, pos, negsuc, ◌+ℤ◌, ltb_ℤ, pos_part}
use diy_redis.Js.Text.{Text, split_crlf, find_crlf}
use diy_redis.Js.Number.{parse_int}
use diy_redis.Js.Utf8.{Bytes, utf8_decode}

abbrev pub is_some {ℓ} : {A : Type ℓ} → Option A → Bool
is_some none = false
is_some (some a) = true

-- `isRespMetadata`: a line that looks like `*<int>` or `$<int>`.
unfoldable pub is_resp_metadata : Text → Bool
is_resp_metadata [] = false
is_resp_metadata (c ∷ []) = false
is_resp_metadata (c ∷ d ∷ s) =
    if (c == b'*') || (c == b'$') then is_some (parse_int (d ∷ s)) else false

-- `item && !isRespMetadata(item)`
unfoldable pub is_payload : Text → Bool
is_payload [] = false
is_payload (c ∷ s) = not (is_resp_metadata (c ∷ s))

unfoldable pub payload_of : List Text → List Text
payload_of [] = []
payload_of (t ∷ ts) = if is_payload t then t ∷ payload_of ts else payload_of ts

-- `new DataParser(bytes).getPayload()`
unfoldable pub get_payload : Bytes → List Text
unfolding payload_of
get_payload bytes = payload_of (split_crlf (utf8_decode bytes))

-- `buffer[i] === b`, past the end too
abbrev pub begins_with : ℕ → Bytes → Bool
begins_with b [] = false
begins_with b (c ∷ s) = c == b

-- `if (buffer.length < endOfBulkString) return null`
unfoldable pub within : Bytes → ℤ → Option ℤ
within buffer end = if ltb_ℤ (pos (length buffer)) end then none else some end

-- One round of the loop: from the index of a bulk string to the index behind it. The byte at
-- `currentIndex` is the first of `drop currentIndex`, and a negative index holds none.
unfoldable pub bulk_end : Bytes → ℤ → Option ℤ
unfolding within
bulk_end buffer (negsuc k) = none
bulk_end buffer (pos i) = do
  guard (begins_with b'$' (drop i buffer))
  header ← find_crlf (drop i buffer)
  size ← parse_int (utf8_decode (take (header - 1) (drop (suc i) buffer)))
  within buffer (pos (i + header + 4) +ℤ size)

-- The loop, for the rounds that are left.
unfoldable pub bulks_end : ℕ → Bytes → ℤ → Option ℤ
unfolding bulk_end
bulks_end zero buffer i = some i
bulks_end (suc n) buffer i = bulk_end buffer i >>= λ j. bulks_end n buffer j

-- `buffer.slice(0, n)` and `buffer.slice(n)`: a negative index counts from the end.
unfoldable pub slice_to : ℤ → Bytes → Bytes
slice_to (pos n) buffer = take n buffer
slice_to (negsuc k) buffer = take (length buffer - suc k) buffer

unfoldable pub slice_from : ℤ → Bytes → Bytes
slice_from (pos n) buffer = drop n buffer
slice_from (negsuc k) buffer = drop (length buffer - suc k) buffer

pub record Parsed : Type 0 where
  pub payload : List Text
  pub bytes_consumed : ℤ

abbrev pub parsed : List Text → ℤ → Parsed
parsed payload n = record { payload = payload; bytes_consumed = n }

-- The index behind the command at the front. An array length below 0 is no round at all.
unfoldable pub command_end : Bytes → Option ℤ
unfolding bulks_end
command_end buffer = do
  guard (begins_with b'*' buffer)
  header ← find_crlf buffer
  count ← parse_int (utf8_decode (take (header - 1) (drop 1 buffer)))
  bulks_end (pos_part count) buffer (pos (header + 2))

unfoldable pub parse_next_command : Bytes → Option Parsed
unfolding command_end slice_to get_payload
parse_next_command buffer = do
  end ← command_end buffer
  some (parsed (get_payload (slice_to end buffer)) end)
