-- ===== src/Replica/Handshake.antt =====
-- The handshake of MasterConnectionHandler.ts, with the answers of PingCommand.ts, ReplconfCommand.ts and
-- PsyncCommand.ts.
use diy_redis.Base.{ℕ, ap, ◌∙◌, append_assoc, ◌≡◌, refl, false, List, [], ◌∷◌, ◌++◌, drop}
use diy_redis.Js.Text.{Text, codes, find_crlf, str_eq, starts_with}
use diy_redis.Js.Number.{decimal, parse_int}
use diy_redis.Js.Utf8.{Bytes, utf8_encode, utf8_decode}
use diy_redis.World.{World}
use diy_redis.Resp.Encode.{to_resp_array, simple_string_response}
use diy_redis.Replica.Defs.{
  Replica, Synced, waits, out_of_rounds, on_connect, send, on_data, process_all, process_message,
  process_handshake_message, process_rdb_file, process_propagated_command, handshake_line,
  port_words, ping_words, capa_words, psync_words,
}
use diy_redis.Resp.Parse.{command_end, slice_from}
use diy_redis.Replica.Master.{full_resync, rdb_frame, replconf_command, from_hex}

-- Data that arrives in pieces.
unfoldable pub on_data_all : ℕ → List Bytes → Replica → Synced
on_data_all rounds [] r = waits r
on_data_all rounds (bytes ∷ pieces) r = elim (on_data rounds bytes r) [
  | waits r' ↦ on_data_all rounds pieces r'
  | out_of_rounds r' ↦ out_of_rounds r'
]

-- The answers of the master to the four requests: of PING, of REPLCONF twice, and of PSYNC.
abbrev pub master_answers : ℕ → World → List Bytes
master_answers port w =
    utf8_encode (simple_string_response (codes "PONG"))
    ∷ utf8_encode (replconf_command (drop 1 (port_words port)) w).0
    ∷ utf8_encode (replconf_command (drop 1 capa_words) w).0
    ∷ (utf8_encode full_resync ++ rdb_frame)
    ∷ []

-- The four requests of the replica.
abbrev pub requests_of : ℕ → List Bytes
requests_of port =
    utf8_encode (to_resp_array ping_words)
    ∷ utf8_encode (to_resp_array (port_words port))
    ∷ utf8_encode (to_resp_array capa_words)
    ∷ utf8_encode (to_resp_array psync_words)
    ∷ []

append_four :
    (ws : List Bytes) (a b c d : Bytes)
    → ((ws ++ a ∷ []) ++ b ∷ []) ++ c ∷ [] ++ d ∷ [] ≡ ws ++ a ∷ b ∷ c ∷ d ∷ []
append_four ws a b c d = simp append_assoc

piece_first :
    (rounds : ℕ) (bytes : Bytes) (pieces : List Bytes) (r r' : Replica)
    → on_data rounds bytes r ≡ waits r'
    → on_data_all rounds (bytes ∷ pieces) r ≡ on_data_all rounds pieces r'
unfolding on_data_all
piece_first rounds bytes pieces r r' h = rw (on_data_all, h) refl

module _ (r : Replica) where
  step_one :
      on_data 3
        (utf8_encode (simple_string_response (codes "PONG")))
        (record r { handshake_step = 0; buffer = [] })
      ≡ waits (record r {
        handshake_step = 1;
        buffer = [];
        written = r.written ++ utf8_encode (to_resp_array (port_words r.replica_port)) ∷ [];
      })
  unfolding on_data process_all process_message process_handshake_message handshake_line utf8_encode
      simple_string_response find_crlf str_eq starts_with utf8_decode send slice_from
  step_one = refl

  step_two :
      (args : List Text) (w : World)
      → on_data 3
          (utf8_encode (replconf_command args w).0)
          (record r { handshake_step = 1; buffer = [] })
        ≡ waits (record r {
          handshake_step = 2;
          buffer = [];
          written = r.written ++ utf8_encode (to_resp_array capa_words) ∷ [];
        })
  unfolding on_data process_all process_message process_handshake_message handshake_line
      replconf_command utf8_encode simple_string_response find_crlf str_eq starts_with utf8_decode
      send slice_from
  step_two args w = refl

  step_three :
      (args : List Text) (w : World)
      → on_data 3
          (utf8_encode (replconf_command args w).0)
          (record r { handshake_step = 2; buffer = [] })
        ≡ waits (record r {
          handshake_step = 3;
          buffer = [];
          written = r.written ++ utf8_encode (to_resp_array psync_words) ∷ [];
        })
  unfolding on_data process_all process_message process_handshake_message handshake_line
      replconf_command utf8_encode simple_string_response find_crlf str_eq starts_with utf8_decode
      send slice_from
  step_three args w = refl

  step_four :
      on_data 3
        (utf8_encode full_resync ++ rdb_frame)
        (record r { handshake_step = 3; buffer = [] })
      ≡ waits (record r { handshake_step = 4; rdb_file_expected = false; buffer = [] })
  unfolding on_data process_all process_message process_handshake_message handshake_line
      replconf_command process_rdb_file process_propagated_command utf8_encode
      simple_string_response find_crlf str_eq starts_with utf8_decode send slice_from decimal
      parse_int from_hex command_end
  step_four = refl

-- A replica that connects and gets the master's answers, each as one piece of data, has the handshake behind it: it
-- wrote PING, REPLCONF with its port, REPLCONF capa and PSYNC, it has skipped the master's file, it waits for commands
-- with nothing left in its buffer, and it emitted nothing and counted no byte, whatever offset the master stands at.
pub handshake_lem :
    (r : Replica) (w : World)
    → on_data_all 3 (master_answers r.replica_port w) (on_connect (record r { buffer = [] }))
      ≡ waits (record r {
        handshake_step = 4;
        rdb_file_expected = false;
        buffer = [];
        written = r.written ++ requests_of r.replica_port;
      })
unfolding on_data_all on_connect send
handshake_lem r w =
    let pieces = master_answers r.replica_port w in
    let wrote = λ (ws : List Bytes). record r { written = ws } in
    let one = r.written ++ utf8_encode (to_resp_array ping_words) ∷ [] in
    let two = one ++ utf8_encode (to_resp_array (port_words r.replica_port)) ∷ [] in
    let three = two ++ utf8_encode (to_resp_array capa_words) ∷ [] in
    let four = three ++ utf8_encode (to_resp_array psync_words) ∷ [] in
    piece_first 3 _ (drop 1 pieces) _ _ (step_one (wrote one))
    ∙ piece_first 3 _ (drop 2 pieces) _ _
        (step_two (wrote two) (drop 1 (port_words r.replica_port)) w)
    ∙ piece_first 3 _ (drop 3 pieces) _ _ (step_three (wrote three) (drop 1 capa_words) w)
    ∙ piece_first 3 _ (drop 4 pieces) _ _ (step_four (wrote four))
    ∙ ap
        (λ ws.
          waits
            (record r { handshake_step = 4; rdb_file_expected = false; buffer = []; written = ws }))
        (append_four r.written _ _ _ _)
