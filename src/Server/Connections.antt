-- ===== src/Server/Connections.antt =====
-- The connections of a server: `connectionStates`, handleConnection, and the handlers that wait for a promise.
use diy_redis.Base.{ℕ, Option, none, some, List, [], ◌∷◌, ◌++◌, ◌==◌, if◌then◌else◌}
use diy_redis.Base.Int.{ℤ, pos}
use diy_redis.Js.Text.{Text}
use diy_redis.Js.Utf8.{Bytes}
use diy_redis.Resp.Parse.{Parsed, parse_next_command, slice_from}
use diy_redis.World.{Socket, World}
use diy_redis.Dispatch.{ConnectionState, fresh_state, Answer, replied, suspended, thrown, Commands}
use diy_redis.Transaction.{continue_exec}
use diy_redis.Server.Defs.{Served, incomplete, awaiting, out_of_rounds, respond, serve, on_data}

-- What the map holds for a connection: `dataBuffer`, and the rest of the state.
pub record Session : Type 0 where
  pub data_buffer : Bytes
  pub state : ConnectionState

-- A handler of "data" that waits: the promise, its connection, and `bytesConsumed`.
pub record Handler : Type 0 where
  pub promise : ℕ
  pub connection : Socket
  pub bytes_consumed : ℤ

pub record Host : Type 0 where
  pub sessions : List (Socket × Session)
  pub handlers : List Handler
  pub world : World

unfoldable pub set_session : Socket → Session → List (Socket × Session) → List (Socket × Session)
set_session c s [] = (c, s) ∷ []
set_session c s ((d, t) ∷ sessions) =
    let rest = set_session c s sessions in if d == c then (d, s) ∷ sessions else (d, t) ∷ rest

unfoldable pub get_session : Socket → List (Socket × Session) → Option Session
get_session c [] = none
get_session c ((d, t) ∷ sessions) = if d == c then some t else get_session c sessions

-- `handleConnection`
unfoldable pub handle_connection : Socket → Host → Host
unfolding set_session
handle_connection c host = record host {
  sessions = set_session c (record { data_buffer = []; state = fresh_state }) host.sessions;
}

abbrev consumed : Option Parsed → ℤ
consumed none = pos 0
consumed (some command) = command.bytes_consumed

-- What the loop leaves of the server. A handler that waits remembers what to take off the buffer later.
unfoldable pub after_loop : Socket → Served → Host → Host
unfolding set_session
after_loop c (incomplete buffer state w) host = record host {
  sessions = set_session c (record { data_buffer = buffer; state = state }) host.sessions;
  world = w;
}
after_loop c (awaiting n buffer state w) host = record host {
  sessions = set_session c (record { data_buffer = buffer; state = state }) host.sessions;
  handlers =
      host.handlers
      ++ (record {
        promise = n;
        connection = c;
        bytes_consumed = consumed (parse_next_command buffer);
      })
        ∷ [];
  world = w;
}
after_loop c (out_of_rounds buffer state w) host = record host {
  sessions = set_session c (record { data_buffer = buffer; state = state }) host.sessions;
  world = w;
}

unfoldable pub receive_in : ℕ → Commands → Socket → Bytes → Option Session → Host → Host
unfolding after_loop
receive_in rounds commands c chunk none host = host
receive_in rounds commands c chunk (some s) host =
    after_loop c (on_data rounds commands c s.data_buffer chunk s.state host.world) host

-- A "data" event of a connection.
unfoldable pub receive_data : ℕ → Commands → Socket → Bytes → Host → Host
unfolding receive_in get_session
receive_data rounds commands c chunk host =
    receive_in rounds commands c chunk (get_session c host.sessions) host

unfoldable pub find_handler : ℕ → List Handler → Option Handler
find_handler n [] = none
find_handler n (h ∷ handlers) = if h.promise == n then some h else find_handler n handlers

unfoldable pub remove_handler : ℕ → List Handler → List Handler
remove_handler n [] = []
remove_handler n (h ∷ handlers) =
    let rest = remove_handler n handlers in if h.promise == n then rest else h ∷ rest

-- The handler goes on behind its `await`, or waits for the next promise of its EXEC.
unfoldable pub resume_with :
    ℕ → Commands → Handler → Session → Answer × ConnectionState × World → Host → Host
unfolding after_loop remove_handler
resume_with rounds commands h s (suspended n, state, w) host = record host {
  sessions =
      set_session h.connection (record { data_buffer = s.data_buffer; state = state })
        host.sessions;
  handlers = remove_handler h.promise host.handlers ++ (record h { promise = n }) ∷ [];
  world = w;
}
resume_with rounds commands h s (replied reply, state, w) host =
    after_loop h.connection
      (serve rounds commands h.connection (slice_from h.bytes_consumed s.data_buffer) state
        (respond h.connection (replied reply) w))
      (record host { handlers = remove_handler h.promise host.handlers })
resume_with rounds commands h s (thrown e, state, w) host =
    after_loop h.connection
      (serve rounds commands h.connection (slice_from h.bytes_consumed s.data_buffer) state
        (respond h.connection (thrown e) w))
      (record host { handlers = remove_handler h.promise host.handlers })

unfoldable pub resume_in : ℕ → Commands → Handler → Text → Option Session → Host → Host
unfolding resume_with
resume_in rounds commands h reply none host = host
resume_in rounds commands h reply (some s) host =
    resume_with rounds commands h s
      (continue_exec commands (some h.connection) h.promise reply s.state host.world) host

unfoldable pub resume_found : ℕ → Commands → Text → Option Handler → Host → Host
unfolding resume_in get_session
resume_found rounds commands reply none host = host
resume_found rounds commands reply (some h) host =
    resume_in rounds commands h reply (get_session h.connection host.sessions) host

-- A promise of BLPOP, XREAD or WAIT is resolved, with its reply. An EXEC that waits for it goes on with its queue. The
-- reply of the command is written, the command is taken off what the buffer holds by now, and the loop goes on.
unfoldable pub resume : ℕ → Commands → ℕ → Text → Host → Host
unfolding resume_found find_handler
resume rounds commands n reply host =
    resume_found rounds commands reply (find_handler n host.handlers) host
