-- ===== src/Tests/Replicas.antt =====
-- The replica's side at concrete inputs.
use diy_redis.Base.{suc, ◌≡◌, refl, false, [], ◌∷◌, ◌++◌, List, All, length, arith, some, none}
use diy_redis.Base.Int.{pos}
use diy_redis.Js.Text.{Text, codes, str_eq, to_lower}
use diy_redis.Js.Utf8.{utf8_encode}
use diy_redis.Resp.Encode.{to_resp_array}
use diy_redis.Resp.RoundTrip.{IsPlain}
use diy_redis.Server.Pipeline.{requests}
use diy_redis.Replica.{
  Replica, on_data, waits, on_connect, is_getack, ack_words, getack_words, request_acks,
}
use diy_redis.Replica.Following.{IsFollowing}
use diy_redis.Replica.Received.{received, count}
use diy_redis.Replica.Agreement.{NoGetack}
use diy_redis.Replica.Acks.{on_data-request_acks}
use diy_redis.Replica.Handshake.{on_data_all, master_answers, requests_of, handshake_lem}
use diy_redis.Js.Text.{find_crlf, starts_with}
use diy_redis.Js.Number.{parse_int}
use diy_redis.Js.Map.{lookup, includes}
use diy_redis.Resp.Parse.{is_payload, is_resp_metadata}
use diy_redis.Resp.Encode.{simple_string_response}
use diy_redis.Store.{text, set_value}
use diy_redis.Store.{string}
use diy_redis.Strings.{set_command, set_options}
use diy_redis.World.{World}
use diy_redis.Dispatch.{Answer, replied, simple, Commands, fresh_state}
use diy_redis.Transaction.Isolation.{dispatch_all}
use diy_redis.Replica.Converging.{Write, IsWrite, IsOpen, all_words, dispatch_all-converges}
use diy_redis.Tests.Data.{key, quiet_world, key-IsPlain}

abbrev idle_replica : Replica
idle_replica = record {
  handshake_step = 4;
  rdb_file_expected = false;
  buffer = [];
  processing_offset = pos 0;
  replica_port = 6380;
  written = [];
  emitted = [];
}

abbrev pushes : List (List Text)
pushes = (codes "RPUSH" ∷ key ∷ []) ∷ (codes "RPUSH" ∷ key ∷ key ∷ []) ∷ []

idle_replica-IsFollowing : IsFollowing idle_replica
idle_replica-IsFollowing = record { shaken = refl; loaded = refl }

once : count 9 quiet_world.replicas ≡ 1
unfolding count
once = refl

on_data-request_acks_example :
    (received 9 (request_acks quiet_world).sent
      ≡ received 9 quiet_world.sent ++ requests (getack_words ∷ []))
    × (on_data 2 (requests (getack_words ∷ [])) (record idle_replica { processing_offset = pos 5 })
        ≡ waits (record idle_replica {
          written = utf8_encode (to_resp_array (ack_words (pos 5))) ∷ [];
          processing_offset = pos 42;
        }))
    × ((request_acks quiet_world).offset ≡ 0)
on_data-request_acks_example =
    on_data-request_acks 9 quiet_world idle_replica 5 once idle_replica-IsFollowing

handshake_lem_example :
    on_data_all 3 (master_answers 6380 quiet_world) (on_connect idle_replica)
    ≡ waits (record idle_replica { written = requests_of 6380 })
handshake_lem_example = handshake_lem idle_replica quiet_world

-- SET in the map of commands.
set_simple : List Text → World → Answer × World
set_simple args w =
    let (reply, store) = set_command w.clock args w.store in
    (replied (some reply), record w { store = store })

abbrev set_commands : Commands
set_commands = (codes "set", simple set_simple) ∷ []

abbrev set_write : Write
set_write = record {
  name = codes "SET";
  arguments = key ∷ codes "v" ∷ [];
  effect = λ store. set_value key (text (codes "v")) string none store;
}

set_write-IsWrite : IsWrite set_commands set_write
unfolding set_simple set_command set_options lookup str_eq to_lower includes starts_with
    simple_string_response
set_write-IsWrite = record {
  run = set_simple;
  reply = λ w. simple_string_response (codes "OK");
  known = refl;
  written = refl;
  no_replconf = refl;
  no_upper = refl;
  runs = λ w. refl;
  some_reply = λ w. refl;
  no_error = λ w. refl;
}

set-IsPlain : IsPlain (codes "SET")
unfolding find_crlf is_payload parse_int is_resp_metadata
set-IsPlain = record { ascii = ground arith; one_line = refl; kept = refl }

value-IsPlain : IsPlain (codes "v")
unfolding find_crlf is_payload parse_int is_resp_metadata
value-IsPlain = record { ascii = ground arith; one_line = refl; kept = refl }

set_words-NoGetack : NoGetack (all_words (set_write ∷ []))
unfolding NoGetack is_getack str_eq to_lower all_words
set_words-NoGetack = (refl, tt)

set_words-IsPlain : All (All IsPlain) (all_words (set_write ∷ []))
unfolding all_words
set_words-IsPlain = ((set-IsPlain, (key-IsPlain, (value-IsPlain, tt))), tt)

fresh_state-IsOpen : IsOpen fresh_state
fresh_state-IsOpen = record { outside = refl; unsubscribed = refl }

abbrev replica_world : World
replica_world = record quiet_world { clock = 3000; replicas = [] }

dispatch_all-converges_example :
    let w' =
      (dispatch_all set_commands (some 7) (all_words (set_write ∷ [])) fresh_state quiet_world).1 in
    let v' =
      (dispatch_all set_commands none (all_words (set_write ∷ [])) fresh_state replica_world).1 in
    (received 9 w'.sent ≡ received 9 quiet_world.sent ++ requests (all_words (set_write ∷ [])))
    × (on_data
          (suc (length (all_words (set_write ∷ []))))
          (requests (all_words (set_write ∷ [])))
          idle_replica
        ≡ waits (record idle_replica {
          processing_offset = pos w'.offset;
          emitted = all_words (set_write ∷ []);
        }))
    × (v'.store ≡ w'.store)
dispatch_all-converges_example =
    dispatch_all-converges set_commands (set_write ∷ []) 7 9 fresh_state fresh_state quiet_world
      replica_world idle_replica (set_write-IsWrite, tt) set_words-IsPlain set_words-NoGetack
      fresh_state-IsOpen fresh_state-IsOpen once refl idle_replica-IsFollowing refl
