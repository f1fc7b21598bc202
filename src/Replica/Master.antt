-- ===== src/Replica/Master.antt =====
-- The master's side: PsyncCommand.ts, ReplconfCommand.ts, and `requestAcks` of ReplicationManager.ts.
use diy_redis.Base.{ℕ, ◌+◌, ◌-◌, ◌*◌, none, some, List, [], ◌∷◌, ◌++◌, leb, length, if◌then◌else◌}
use diy_redis.Js.Text.{Text, codes, crlf}
use diy_redis.Js.Number.{decimal}
use diy_redis.Js.Utf8.{Bytes, utf8_encode}
use diy_redis.Resp.Encode.{to_resp_array, simple_string_response}
use diy_redis.World.{Socket, World}
use diy_redis.Dispatch.{Stateful, replied, thrown}

-- `serverInfo.master_replid` of config.ts
abbrev pub master_replid : Text
master_replid = codes "8371b4fb1155b71f4a04d3e1bc3e18c4a990aeeb"

abbrev pub hex_value : ℕ → ℕ
hex_value c = if leb b'a' c then c - 87 else c - 48

-- Buffer.from(s, "hex"), on pairs of digits and small letters.
unfoldable pub from_hex : Text → Bytes
from_hex [] = []
from_hex (a ∷ []) = []
from_hex (a ∷ b ∷ s) = (hex_value a * 16 + hex_value b) ∷ from_hex s

abbrev pub empty_rdb : Bytes
empty_rdb = from_hex (
    codes
      "524544495330303131fa0972656469732d76657205372e322e30fa0a72656469732d62697473c040fa056374696d65c26d08bc65fa08757365642d6d656dc2b0c41000fa08616f662d62617365c000fffe00f09f42777b")

abbrev pub full_resync : Text
full_resync = codes "+FULLRESYNC " ++ (master_replid ++ (codes " 0" ++ crlf))

abbrev pub rdb_frame : Bytes
rdb_frame = b'$' ∷ (decimal (length empty_rdb) ++ (crlf ++ empty_rdb))

-- PsyncCommand.ts; without a connection, `connection.write` throws a TypeError.
unfoldable pub psync_command : Stateful
psync_command args none state w = (thrown (codes "TypeError"), state, w)
psync_command args (some connection) state w = (
  replied none,
  state,
  record w {
    sent = w.sent ++ (connection, utf8_encode full_resync) ∷ (connection, rdb_frame) ∷ [];
    replicas = w.replicas ++ connection ∷ [];
  },
)

-- ReplconfCommand.ts
unfoldable pub replconf_command : List Text → World → Text × World
replconf_command args w = (simple_string_response (codes "OK"), w)

abbrev pub getack_words : List Text
getack_words = codes "REPLCONF" ∷ codes "GETACK" ∷ codes "*" ∷ []

unfoldable pub write_all : List Socket → Bytes → List (Socket × Bytes)
write_all [] bytes = []
write_all (r ∷ rs) bytes = (r, bytes) ∷ write_all rs bytes

-- `requestAcks`
unfoldable pub request_acks : World → World
unfolding write_all
request_acks w = record w {
  sent = w.sent ++ write_all w.replicas (utf8_encode (to_resp_array getack_words));
}
