-- ===== src/Tests/Servers.antt =====
-- The registry and the running server at concrete inputs.
use diy_redis.Base.{ℕ, ◌≡◌, refl, true, false, some, List, [], ◌∷◌, ◌++◌, All}
use diy_redis.Base.Int.{pos}
use diy_redis.Js.Text.{Text, codes, str_eq, to_lower, starts_with, find_crlf, split_crlf}
use diy_redis.Js.Utf8.{Bytes, utf8_encode, utf8_decode}
use diy_redis.Store.{get_value}
use diy_redis.Resp.Encode.{to_resp_array}
use diy_redis.Resp.Parse.{is_payload, is_resp_metadata, parsed, parse_next_command}
use diy_redis.World.{World, Waiter}
use diy_redis.Dispatch.{Commands, ConnectionState, fresh_state, suspended, dispatch}
use diy_redis.Registry.{command_map, create_command_registry}
use diy_redis.Blpop.{blpop_command}
use diy_redis.Blocking.{
  block_on_lists, pop_first, pop_and_propagate, try_lpop, enqueue, set_queue, get_queue,
}
use diy_redis.Js.Map.{lookup, insert}
use diy_redis.Js.Number.{decimal, parse_int}
use diy_redis.Invariants.{EngineKeeps}
use diy_redis.Kinds.{fits_value, Kinded}
use diy_redis.Kinds.Reached.{run-fits}
use diy_redis.Kinds.Replies.{Agrees, run-Agrees}
use diy_redis.Server.{
  Event, connected, received, waiter_timer, ticked, run, started, Host, receive_data, get_session,
}
use diy_redis.Server.Twice.{receive_data-again}
use diy_redis.Transaction.{string, null}
use diy_redis.Registry.Pausing.{paused_world}
use diy_redis.Transaction.Formats.{IsNoError}
use diy_redis.Tests.Data.{key, quiet_world, plain_engine, settings, first_waiter}

engine_keeps : EngineKeeps Kinded plain_engine
engine_keeps name args w h = h

abbrev some_events : List Event
some_events =
    connected 7
    ∷ received 3 7 (utf8_encode (to_resp_array (codes "RPUSH" ∷ key ∷ codes "a" ∷ [])))
    ∷ ticked 9
    ∷ waiter_timer first_waiter
    ∷ []

run-fits_example :
    fits_value (
      get_value key
        (run (command_map 1 plain_engine settings) some_events (started quiet_world)).world.store)
    ≡ true
run-fits_example = run-fits plain_engine engine_keeps settings some_events quiet_world refl key

run-Agrees_example :
    Agrees 5 key
      (run (command_map 1 plain_engine settings) some_events (started quiet_world)).world.store
run-Agrees_example =
    run-Agrees plain_engine engine_keeps settings some_events quiet_world refl 5 key

no_error : All IsNoError (string (codes "OK") ∷ null ∷ [])
unfolding starts_with
no_error = (refl, (tt, tt))

-- BLPOP on a key that is not there.
abbrev blpop_words : List Text
blpop_words = codes "BLPOP" ∷ key ∷ codes "0" ∷ []

abbrev connected_host : Host
connected_host = record {
  sessions = (7, record { data_buffer = []; state = fresh_state }) ∷ [];
  handlers = [];
  world = quiet_world;
}

-- A world in which the waiters of the connection have been queued.
abbrev queued_waiters : List Waiter → ℕ → World
queued_waiters waiters next = record quiet_world {
  queues = (key, waiters) ∷ [];
  next_waiter = next;
}

abbrev waiter : ℕ → Waiter
waiter n = record { id = n; keys = key ∷ []; connection = some 7 }

blpop_read :
    parse_next_command (utf8_encode (to_resp_array blpop_words))
    ≡ some (parsed blpop_words (pos 29))
unfolding parse_next_command to_resp_array utf8_encode decimal find_crlf parse_int utf8_decode
    split_crlf is_payload is_resp_metadata
blpop_read = refl

blpop_first :
    dispatch
      (command_map 1 plain_engine settings)
      (some 7)
      blpop_words
      fresh_state
      false
      quiet_world
    ≡ (suspended 2, fresh_state, queued_waiters (waiter 2 ∷ []) 3)
unfolding dispatch str_eq to_lower lookup command_map insert create_command_registry blpop_command
    parse_int block_on_lists pop_first pop_and_propagate try_lpop get_value enqueue set_queue
    get_queue
blpop_first = refl

blpop_second :
    dispatch
      (command_map 1 plain_engine settings)
      (some 7)
      blpop_words
      fresh_state
      false
      (queued_waiters (waiter 2 ∷ []) 3)
    ≡ (suspended 3, fresh_state, queued_waiters (waiter 2 ∷ waiter 3 ∷ []) 4)
unfolding dispatch str_eq to_lower lookup command_map insert create_command_registry blpop_command
    parse_int block_on_lists pop_first pop_and_propagate try_lpop get_value enqueue set_queue
    get_queue
blpop_second = refl

abbrev blpop_bytes : Bytes
blpop_bytes = utf8_encode (to_resp_array blpop_words)

no_session_else :
    get_session 7 connected_host.sessions ≡ some (record { data_buffer = []; state = fresh_state })
unfolding get_session
no_session_else = refl

receive_data-again_example :
    let commands = command_map 1 plain_engine settings in
    let host =
      receive_data 2 commands 7 [] (receive_data 1 commands 7 blpop_bytes connected_host) in
    (host.world ≡ queued_waiters (waiter 2 ∷ waiter 3 ∷ []) 4)
    × (host.handlers
        ≡ []
          ++ (record { promise = 2; connection = 7; bytes_consumed = pos 29 })
            ∷ (record { promise = 3; connection = 7; bytes_consumed = pos 29 })
            ∷ [])
    × (get_session 7 host.sessions
        ≡ some (record { data_buffer = ([] ++ blpop_bytes) ++ []; state = fresh_state }))
receive_data-again_example =
    receive_data-again 0 1 (command_map 1 plain_engine settings) 7 blpop_bytes []
      (record { data_buffer = []; state = fresh_state }) connected_host blpop_words 29 2 3
      fresh_state fresh_state (queued_waiters (waiter 2 ∷ []) 3)
      (queued_waiters (waiter 2 ∷ waiter 3 ∷ []) 4) no_session_else blpop_read blpop_first
      blpop_second

-- ECHO, BLPOP and SET in one transaction.
abbrev server_map : Commands
server_map = command_map 1 plain_engine settings

abbrev set_words : List Text
set_words = codes "SET" ∷ codes "j" ∷ codes "b" ∷ []

abbrev echo_queue : List (List Text)
echo_queue = (codes "ECHO" ∷ codes "a" ∷ []) ∷ []

abbrev exec_state : ConnectionState
exec_state = record fresh_state {
  in_transaction = true;
  command_queue = echo_queue ++ blpop_words ∷ set_words ∷ [];
}

abbrev resolved_world : World
resolved_world =
    paused_world server_map (some 7) echo_queue (set_words ∷ []) (codes "BLPOP")
      (key ∷ codes "0" ∷ []) (string (codes "a") ∷ []) 2 (codes "*-1") exec_state quiet_world
      quiet_world (queued_waiters (waiter 2 ∷ []) 3) quiet_world
