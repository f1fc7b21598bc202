-- ===== src/Server/Twice.antt =====
-- Bytes that arrive while a handler waits.
use diy_redis.Base.{
  ℕ, suc, ◌≡◌, refl, ap, ◌∙◌, true, false, some, List, [], ◌∷◌, ◌++◌, append_assoc, ◌==◌, arith,
  if◌then◌else◌,
}
use diy_redis.Base.Int.{pos}
use diy_redis.Js.Text.{Text}
use diy_redis.Js.Utf8.{Bytes}
use diy_redis.Resp.Parse.{parsed, parse_next_command}
use diy_redis.Resp.Framing.{parse_next_command-append}
use diy_redis.World.{Socket, World}
use diy_redis.Dispatch.{ConnectionState, suspended, Commands, dispatch}
use diy_redis.Server.Defs.{serve, on_data}
use diy_redis.Server.Connections.{
  Session, Host, set_session, get_session, after_loop, receive_in, receive_data,
}

pub get_session-set_session :
    (c d : Socket) (s : Session) (sessions : List (Socket × Session))
    → get_session d (set_session c s sessions) ≡ (if c == d then some s else get_session d sessions)
unfolding get_session set_session
get_session-set_session c d s [] = refl
get_session-set_session c d s ((e, t) ∷ sessions) =
    ground (arith, get_session-set_session c d s sessions)

-- One "data" event whose first command makes the handler wait.
receive_suspended :
    (rounds : ℕ) (commands : Commands) (c : Socket) (chunk : Bytes) (s : Session) (host : Host)
    (payload : List Text) (n i : ℕ) (state' : ConnectionState) (w' : World)
    → get_session c host.sessions ≡ some s
    → parse_next_command (s.data_buffer ++ chunk) ≡ some (parsed payload (pos n))
    → dispatch commands (some c) payload s.state false host.world ≡ (suspended i, state', w')
    → receive_data (suc rounds) commands c chunk host ≡ record {
      sessions =
          set_session c
            (record { data_buffer = s.data_buffer ++ chunk; state = state' })
            host.sessions;
      handlers =
          host.handlers ++ (record { promise = i; connection = c; bytes_consumed = pos n }) ∷ [];
      world = w';
    }
unfolding receive_data receive_in on_data serve after_loop
receive_suspended rounds commands c chunk s host payload n i state' w' there p e =
    rw (there, receive_in, on_data, serve, p, e, e, after_loop, p) refl

same_socket : (c : Socket) → (c == c) ≡ true
same_socket c = ground arith

-- A handler waits in the middle of a command: the first command of the buffer is complete, and the dispatcher gives a
-- promise for it. The bytes stay in the buffer, so any bytes that arrive meanwhile make the dispatcher run the same
-- command once more. If that gives a promise too, then two handlers wait, and each of them will take the
-- bytes of the one command off the buffer.
pub receive_data-again :
    (rounds rounds' : ℕ) (commands : Commands) (c : Socket) (chunk more : Bytes) (s : Session)
    (host : Host) (payload : List Text) (n i j : ℕ) (state' state'' : ConnectionState)
    (w' w'' : World)
    → get_session c host.sessions ≡ some s
    → parse_next_command (s.data_buffer ++ chunk) ≡ some (parsed payload (pos n))
    → dispatch commands (some c) payload s.state false host.world ≡ (suspended i, state', w')
    → dispatch commands (some c) payload state' false w' ≡ (suspended j, state'', w'')
    → let host' =
        receive_data
          (suc rounds')
          commands
          c
          more
          (receive_data (suc rounds) commands c chunk host) in
      (host'.world ≡ w'')
      × (host'.handlers
          ≡ host.handlers
            ++ (record { promise = i; connection = c; bytes_consumed = pos n })
              ∷ (record { promise = j; connection = c; bytes_consumed = pos n })
              ∷ [])
      × (get_session c host'.sessions
          ≡ some (record { data_buffer = (s.data_buffer ++ chunk) ++ more; state = state'' }))
receive_data-again rounds rounds' commands c chunk more s host payload n i j state' state'' w' w''
      there p e e' =
    let kept : Session = record { data_buffer = s.data_buffer ++ chunk; state = state' } in
    let last : Session = record {
      data_buffer = (s.data_buffer ++ chunk) ++ more;
      state = state'';
    } in
    let sessions' = set_session c kept host.sessions in
    let host' : Host = record {
      sessions = sessions';
      handlers =
          host.handlers ++ (record { promise = i; connection = c; bytes_consumed = pos n }) ∷ [];
      world = w';
    } in
    let still =
      get_session-set_session c c kept host.sessions
      ∙ ap (λ b. if b then some kept else get_session c host.sessions) (same_socket c) in
    rw
      (
        receive_suspended rounds commands c chunk s host payload n i state' w' there p e,
        receive_suspended rounds' commands c more kept host' payload n j state'' w'' still
            (parse_next_command-append (s.data_buffer ++ chunk) more payload n p) e',
      )
      (
        refl,
        append_assoc host.handlers _ _,
        get_session-set_session c c last sessions'
            ∙ ap (λ b. if b then some last else get_session c sessions') (same_socket c),
      )
