-- ===== src/Replica/Defs.antt =====
-- MasterConnectionHandler.ts and handshake.ts.
use diy_redis.Base.{
  ℕ, zero, suc, ◌+◌, Bool, true, false, ◌&&◌, Option, none, some, List, [], ◌∷◌, ◌++◌, ◌==◌, ltb,
  length, take, drop, if◌then◌else◌,
}
use diy_redis.Base.Int.{ℤ, pos, negsuc, ◌+ℤ◌, ltb_ℤ}
use diy_redis.Js.Text.{Text, codes, str_eq, to_lower, starts_with, find_crlf}
use diy_redis.Js.Number.{parse_int, decimal, decimal_ℤ}
use diy_redis.Js.Utf8.{Bytes, utf8_encode, utf8_decode}
use diy_redis.Resp.Encode.{to_resp_array}
use diy_redis.Resp.Parse.{command_end, get_payload, slice_to, slice_from}

-- The fields of the handler, what it wrote to the master, and the "command" events that it emitted.
pub record Replica : Type 0 where
  pub handshake_step : ℕ
  pub rdb_file_expected : Bool
  pub buffer : Bytes
  pub processing_offset : ℤ
  pub replica_port : ℕ
  pub written : List Bytes
  pub emitted : List (List Text)

-- `masterConnection.write(toRESPArray(words))`
unfoldable pub send : List Text → Replica → Replica
send words r = record r { written = r.written ++ utf8_encode (to_resp_array words) ∷ [] }

abbrev pub ping_words : List Text
ping_words = codes "PING" ∷ []

abbrev pub port_words : ℕ → List Text
port_words port = codes "REPLCONF" ∷ codes "listening-port" ∷ decimal port ∷ []

abbrev pub capa_words : List Text
capa_words = codes "REPLCONF" ∷ codes "capa" ∷ codes "psync2" ∷ []

abbrev pub psync_words : List Text
psync_words = codes "PSYNC" ∷ codes "?" ∷ codes "-1" ∷ []

-- `onConnect`
unfoldable pub on_connect : Replica → Replica
unfolding send
on_connect r = send ping_words (record r { handshake_step = 0 })

-- The answer to a line of the handshake; a line that is not expected is passed over.
unfoldable pub handshake_line : Text → Replica → Replica
unfolding send
handshake_line response r =
    if str_eq response (codes "+PONG") && r.handshake_step == 0
    then send (port_words r.replica_port) (record r { handshake_step = 1 })
    else if str_eq response (codes "+OK") && r.handshake_step == 1
    then send capa_words (record r { handshake_step = 2 })
    else if str_eq response (codes "+OK") && r.handshake_step == 2
    then send psync_words (record r { handshake_step = 3 })
    else if starts_with response (codes "+FULLRESYNC") && r.handshake_step == 3
    then record r { handshake_step = 4; rdb_file_expected = true }
    else r

-- The number of bytes that a message has taken: 0 for an incomplete one, `none` for NaN.
abbrev pub Consumed : Type 0
Consumed = Option ℤ

abbrev line_message : Option ℕ → Replica → Consumed × Replica
line_message none r = (some (pos 0), r)
line_message (some end) r =
    (some (pos (end + 2)), handshake_line (utf8_decode (take end r.buffer)) r)

unfoldable pub process_handshake_message : Replica → Consumed × Replica
unfolding handshake_line
process_handshake_message r = line_message (find_crlf r.buffer) r

-- The RDB file, behind a header that begins with `$`. No comparison with NaN holds.
abbrev rdb_message : Option ℤ → Replica → Consumed × Replica
rdb_message none r = (none, record r { rdb_file_expected = false })
rdb_message (some total) r =
    if ltb_ℤ (pos (length r.buffer)) total
    then (some (pos 0), r)
    else (some total, record r { rdb_file_expected = false })

abbrev total_length : ℕ → Option ℤ → Option ℤ
total_length end none = none
total_length end (some size) = some (pos (end + 2) +ℤ size)

abbrev rdb_header : Option ℕ → Replica → Consumed × Replica
rdb_header none r = (some (pos 0), r)
rdb_header (some end) r =
    let header = utf8_decode (take end r.buffer) in
    if starts_with header (codes "$")
    then rdb_message (total_length end (parse_int (drop 1 header))) r
    else (some (pos (length r.buffer)), r)

unfoldable pub process_rdb_file : Replica → Consumed × Replica
process_rdb_file r = rdb_header (find_crlf r.buffer) r

-- `payload[0]` and `payload[1]` in lower case are "replconf" and "getack".
unfoldable pub is_getack : List Text → Bool
is_getack [] = false
is_getack (a ∷ []) = false
is_getack (a ∷ b ∷ rest) =
    str_eq (to_lower a) (codes "replconf") && str_eq (to_lower b) (codes "getack")

abbrev pub ack_words : ℤ → List Text
ack_words offset = codes "REPLCONF" ∷ codes "ACK" ∷ decimal_ℤ offset ∷ []

-- GETACK is answered, any other command is emitted.
unfoldable pub receive : List Text → Replica → Replica
unfolding send is_getack
receive payload r =
    if is_getack payload
    then send (ack_words r.processing_offset) r
    else record r { emitted = r.emitted ++ payload ∷ [] }

abbrev command_message : Option ℤ → Replica → Consumed × Replica
command_message none r = (some (pos 0), r)
command_message (some end) r =
    let r' = receive (get_payload (slice_to end r.buffer)) r in
    (some end, record r' { processing_offset = r'.processing_offset +ℤ end })

unfoldable pub process_propagated_command : Replica → Consumed × Replica
unfolding receive
process_propagated_command r = command_message (command_end r.buffer) r

unfoldable pub process_message : Replica → Consumed × Replica
unfolding process_handshake_message process_rdb_file process_propagated_command
process_message r =
    if ltb r.handshake_step 4
    then process_handshake_message r
    else if r.rdb_file_expected
    then process_rdb_file r
    else process_propagated_command r

-- `slice(NaN)` keeps all.
abbrev pub slice_consumed : Consumed → Bytes → Bytes
slice_consumed none buffer = buffer
slice_consumed (some n) buffer = slice_from n buffer

abbrev pub is_zero : Consumed → Bool
is_zero none = false
is_zero (some (pos n)) = n == 0
is_zero (some (negsuc n)) = false

pub data Synced : Type 0 where
  waits : Replica → Synced
  out_of_rounds : Replica → Synced

-- The loop of `onData`, for a number of rounds.
unfoldable pub process_all : ℕ → Replica → Synced
process_all zero r = out_of_rounds r
process_all (suc rounds) r =
    let (consumed, r') = process_message r in
    elim (is_zero consumed) [
      | true ↦ waits r'
      | false ↦ process_all rounds (record r' { buffer = slice_consumed consumed r'.buffer })
    ]

-- `onData`
unfoldable pub on_data : ℕ → Bytes → Replica → Synced
on_data rounds bytes r = process_all rounds (record r { buffer = r.buffer ++ bytes })
