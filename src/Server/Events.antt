-- ===== src/Server/Events.antt =====
-- What can happen to a running server, one event at a time.
use diy_redis.Base.{ℕ, false, none, List, [], ◌∷◌}
use diy_redis.Js.Text.{Text}
use diy_redis.Js.Utf8.{Bytes}
use diy_redis.World.{Socket, Waiter, World}
use diy_redis.Dispatch.{ConnectionState, Commands, dispatch}
use diy_redis.Blocking.{time_out}
use diy_redis.Streams.{read_timeout}
use diy_redis.Wait.{on_timeout}
use diy_redis.Rdb.{load_rdb}
use diy_redis.Server.Connections.{Host, handle_connection, receive_data, resume}

-- A connection, bytes on one, a promise that is resolved, a command from the master, one of the three kinds of timers,
-- and the clock. The loops take the number of their rounds.
pub data Event : Type 0 where
  connected : Socket → Event
  received : ℕ → Socket → Bytes → Event
  resumed : ℕ → ℕ → Text → Event
  commanded : List Text → ConnectionState → Event
  waiter_timer : Waiter → Event
  reader_timer : ℕ → Event
  wait_timer : ℕ → Event
  ticked : ℕ → Event

unfoldable pub on_event : Commands → Event → Host → Host
on_event commands (connected c) host = handle_connection c host
on_event commands (received rounds c chunk) host = receive_data rounds commands c chunk host
on_event commands (resumed rounds n reply) host = resume rounds commands n reply host
on_event commands (commanded payload state) host = record host {
  world = (dispatch commands none payload state false host.world).2;
}
on_event commands (waiter_timer waiter) host = record host { world = time_out waiter host.world }
on_event commands (reader_timer n) host = record host { world = read_timeout n host.world }
on_event commands (wait_timer n) host = record host { world = on_timeout n host.world }
on_event commands (ticked now) host = record host { world = record host.world { clock = now } }

unfoldable pub run : Commands → List Event → Host → Host
unfolding on_event
run commands [] host = host
run commands (e ∷ events) host = run commands events (on_event commands e host)

-- The server when `start` has loaded the file.
unfoldable pub started : World → Host
unfolding load_rdb
started w = record { sessions = []; handlers = []; world = load_rdb w }
