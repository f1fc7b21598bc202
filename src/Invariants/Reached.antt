-- ===== src/Invariants/Reached.antt =====
-- The server's loop and the timers keep the predicate.
use diy_redis.Base.{
  ℕ, zero, suc, false, Option, none, some, List, [], ◌∷◌, ◌++◌, Option-cases, inl, inr,
}
use diy_redis.Js.Text.{Text}
use diy_redis.Js.Utf8.{Bytes}
use diy_redis.Resp.Parse.{parse_next_command, slice_from}
use diy_redis.World.{World, Socket}
use diy_redis.Dispatch.{ConnectionState, Answer, replied, suspended, thrown, Commands, dispatch}
use diy_redis.Server.{
  Served, incomplete, awaiting, out_of_rounds, respond, serve, on_data, Host, Session, Handler,
  after_loop, receive_in, resume_with, resume_in, resume_found, receive_data, resume,
  handle_connection, get_session, find_handler, Event, connected, received, resumed, commanded,
  waiter_timer, reader_timer, wait_timer, ticked, on_event, run,
}
use diy_redis.Invariants.Defs.{Predicate, AllKeep, Laws}
use diy_redis.Invariants.Exec.{continue_exec-Keeps}
use diy_redis.Invariants.Dispatched.{dispatch-Keeps, respond-Keeps}

module _ (P : Predicate) (laws : Laws P) where
  abbrev ServedKeeps : Served → Type 0
  ServedKeeps (incomplete buffer state w) = P w
  ServedKeeps (awaiting n buffer state w) = P w
  ServedKeeps (out_of_rounds buffer state w) = P w

  module _ (commands : Commands) (all : AllKeep P commands) where
    after_dispatch-Keeps :
        (rounds : ℕ) (connection : Socket) (buffer rest : Bytes) (answer : Answer)
        (state : ConnectionState) (w : World)
        → ((rest : Bytes) (state : ConnectionState) (w : World)
            → P w
            → ServedKeeps (serve rounds commands connection rest state w))
        → P w
        → ServedKeeps (elim answer [
          | suspended n ↦ awaiting n buffer state w
          | replied response ↦
              serve rounds commands connection rest state (respond connection (replied response) w)
          | thrown e ↦ serve rounds commands connection rest state (respond connection (thrown e) w)
        ])
    after_dispatch-Keeps rounds connection buffer rest (replied response) state w loop h =
        loop rest state _ (respond-Keeps P laws connection (replied response) w h)
    after_dispatch-Keeps rounds connection buffer rest (suspended n) state w loop h = h
    after_dispatch-Keeps rounds connection buffer rest (thrown e) state w loop h =
        loop rest state _ (respond-Keeps P laws connection (thrown e) w h)

    serve-Keeps :
        (rounds : ℕ) (connection : Socket) (buffer : Bytes) (state : ConnectionState) (w : World)
        → P w
        → ServedKeeps (serve rounds commands connection buffer state w)
    unfolding serve
    serve-Keeps zero connection buffer state w h = h
    serve-Keeps (suc rounds) connection buffer state w h =
        elim (Option-cases (parse_next_command buffer)) [
          | inl part ↦ rw (serve, part) h
          | inr (command, whole) ↦
              let d = dispatch commands (some connection) command.payload state false w in
              rw (serve, whole)
                (after_dispatch-Keeps rounds connection buffer
                  (slice_from command.bytes_consumed buffer) d.0 d.1 d.2
                  (λ rest state' w' h'. serve-Keeps rounds connection rest state' w' h')
                  (dispatch-Keeps P laws commands all (some connection) command.payload state false
                    w h))
        ]

    after_loop-Keeps :
        (c : Socket) (served : Served) (host : Host)
        → ServedKeeps served
        → P (after_loop c served host).world
    unfolding after_loop
    after_loop-Keeps c (incomplete buffer state w) host h = h
    after_loop-Keeps c (awaiting n buffer state w) host h = h
    after_loop-Keeps c (out_of_rounds buffer state w) host h = h

    receive_in-Keeps :
        (rounds : ℕ) (c : Socket) (chunk : Bytes) (s : Option Session) (host : Host)
        → P host.world
        → P (receive_in rounds commands c chunk s host).world
    unfolding receive_in on_data
    receive_in-Keeps rounds c chunk none host h = h
    receive_in-Keeps rounds c chunk (some s) host h =
        after_loop-Keeps c _ host
          (serve-Keeps rounds c (s.data_buffer ++ chunk) s.state host.world h)

    resume_with-Keeps :
        (rounds : ℕ) (handler : Handler) (s : Session) (answer : Answer) (state : ConnectionState)
        (w : World) (host : Host)
        → P w
        → P (resume_with rounds commands handler s (answer, state, w) host).world
    unfolding resume_with
    resume_with-Keeps rounds handler s (suspended n) state w host h = h
    resume_with-Keeps rounds handler s (replied reply) state w host h =
        after_loop-Keeps handler.connection _ _ (
          serve-Keeps rounds handler.connection _ state _
            (respond-Keeps P laws handler.connection (replied reply) w h))
    resume_with-Keeps rounds handler s (thrown e) state w host h =
        after_loop-Keeps handler.connection _ _ (
          serve-Keeps rounds handler.connection _ state _
            (respond-Keeps P laws handler.connection (thrown e) w h))

    resume_in-Keeps :
        (rounds : ℕ) (handler : Handler) (reply : Text) (s : Option Session) (host : Host)
        → P host.world
        → P (resume_in rounds commands handler reply s host).world
    unfolding resume_in
    resume_in-Keeps rounds handler reply none host h = h
    resume_in-Keeps rounds handler reply (some s) host h =
        resume_with-Keeps rounds handler s _ _ _ host (
          continue_exec-Keeps P laws commands (some handler.connection) handler.promise reply
            s.state host.world all h)

    resume_found-Keeps :
        (rounds : ℕ) (reply : Text) (o : Option Handler) (host : Host)
        → P host.world
        → P (resume_found rounds commands reply o host).world
    unfolding resume_found
    resume_found-Keeps rounds reply none host h = h
    resume_found-Keeps rounds reply (some handler) host h =
        resume_in-Keeps rounds handler reply (get_session handler.connection host.sessions) host h

    on_event-Keeps : (e : Event) (host : Host) → P host.world → P (on_event commands e host).world
    unfolding on_event handle_connection receive_data resume
    on_event-Keeps (connected c) host h = h
    on_event-Keeps (received rounds c chunk) host h =
        receive_in-Keeps rounds c chunk (get_session c host.sessions) host h
    on_event-Keeps (resumed rounds n reply) host h =
        resume_found-Keeps rounds reply (find_handler n host.handlers) host h
    on_event-Keeps (commanded payload state) host h =
        dispatch-Keeps P laws commands all none payload state false host.world h
    on_event-Keeps (waiter_timer waiter) host h = laws.waiter_ended waiter host.world h
    on_event-Keeps (reader_timer n) host h = laws.reader_ended n host.world h
    on_event-Keeps (wait_timer n) host h = laws.wait_ended n host.world h
    on_event-Keeps (ticked now) host h = laws.clock_went now host.world h

    -- A predicate that every command of the map and every event between commands keeps holds whatever happens.
    pub run-Keeps :
        (events : List Event) (host : Host) → P host.world → P (run commands events host).world
    unfolding run
    run-Keeps [] host h = h
    run-Keeps (e ∷ events) host h = run-Keeps events _ (on_event-Keeps e host h)
