-- ===== src/Server/Others.antt =====
-- What happens on one connection leaves the state of the others alone.
use diy_redis.Base.{ℕ, ◌≡◌, refl, false, Option, none, some, List, ◌==◌}
use diy_redis.Js.Utf8.{Bytes}
use diy_redis.World.{Socket}
use diy_redis.Dispatch.{Commands}
use diy_redis.Server.Defs.{Served, incomplete, awaiting, out_of_rounds}
use diy_redis.Server.Connections.{
  Session, Host, set_session, get_session, after_loop, receive_in, receive_data, handle_connection,
}
use diy_redis.Server.Twice.{get_session-set_session}

module _ (c d : Socket) (other : (c == d) ≡ false) where
  set_session-other :
      (s : Session) (sessions : List (Socket × Session))
      → get_session d (set_session c s sessions) ≡ get_session d sessions
  set_session-other s sessions = rw (get_session-set_session c d s sessions, other) refl

  after_loop-other :
      (served : Served) (host : Host)
      → get_session d (after_loop c served host).sessions ≡ get_session d host.sessions
  unfolding after_loop
  after_loop-other (incomplete buffer state w) host = set_session-other _ host.sessions
  after_loop-other (awaiting n buffer state w) host = set_session-other _ host.sessions
  after_loop-other (out_of_rounds buffer state w) host = set_session-other _ host.sessions

  receive_in-other :
      (rounds : ℕ) (commands : Commands) (chunk : Bytes) (s : Option Session) (host : Host)
      → get_session d (receive_in rounds commands c chunk s host).sessions
        ≡ get_session d host.sessions
  unfolding receive_in
  receive_in-other rounds commands chunk none host = refl
  receive_in-other rounds commands chunk (some s) host = after_loop-other _ host

  -- A new connection and bytes on it, whatever the commands in them do, leave the buffer and the state of every other
  -- connection as they are: its transaction, its queue and its channels.
  pub receive_data-other :
      (rounds : ℕ) (commands : Commands) (chunk : Bytes) (host : Host)
      → (get_session d (handle_connection c host).sessions ≡ get_session d host.sessions)
        × (get_session d (receive_data rounds commands c chunk host).sessions
            ≡ get_session d host.sessions)
  unfolding handle_connection receive_data
  receive_data-other rounds commands chunk host = (
    set_session-other _ host.sessions,
    receive_in-other rounds commands chunk (get_session c host.sessions) host,
  )
