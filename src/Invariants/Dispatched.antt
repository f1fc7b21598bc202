-- ===== src/Invariants/Dispatched.antt =====
-- The dispatcher keeps the predicate, and so does a reply.
use diy_redis.Base.{if_both, Bool, not, ◌&&◌, Option, none, some, List, [], ◌∷◌}
use diy_redis.Base.Int.{ℤ}
use diy_redis.Js.Text.{Text, to_lower, is_truthy}
use diy_redis.Js.Map.{lookup, includes}
use diy_redis.World.{World, Socket, propagate}
use diy_redis.Dispatch.{
  ConnectionState, Answer, replied, suspended, thrown, Command, simple, stateful, replication,
  orchestration, Commands, finish, propagates, run_command, dispatch, dispatch_open, is_ack,
  is_upper_ack, immediate_tx_commands, receive_number, ack_offset, upper_ack_offset, is_empty,
  allowed_subscribed_commands,
}
use diy_redis.Server.{internal_error, respond}
use diy_redis.Invariants.Defs.{Predicate, OptionKeeps, AllKeep, Laws}

module _ (P : Predicate) (laws : Laws P) where
  abbrev Third : Answer × ConnectionState × World → Type 0
  Third p = P p.2

  finish-Keeps :
      (is_exec : Bool) (lower : Text) (payload : List Text) (answer : Answer)
      (state : ConnectionState) (w : World)
      → P w
      → P (finish is_exec lower payload answer state w).2
  unfolding finish
  finish-Keeps is_exec lower payload (replied none) state w h = h
  finish-Keeps is_exec lower payload (replied (some response)) state w h =
      if_both P (propagates state is_exec lower response) (propagate payload w) w
        (laws.propagated payload w h) h
  finish-Keeps is_exec lower payload (suspended n) state w h = h
  finish-Keeps is_exec lower payload (thrown e) state w h = h

  run_command-Keeps :
      (c : Option Command) (is_exec : Bool) (connection : Option Socket) (name : Text)
      (args : List Text) (state : ConnectionState) (w : World)
      → OptionKeeps P c
      → P w
      → P (run_command c is_exec connection name args state w).2
  unfolding run_command
  run_command-Keeps none is_exec connection name args state w hc h = h
  run_command-Keeps (some (simple f)) is_exec connection name args state w hc h =
      finish-Keeps is_exec (to_lower name) (name ∷ args) (f args w).0 state (f args w).1
        (hc args w h)
  run_command-Keeps (some (stateful f)) is_exec connection name args state w hc h =
      let p = f args connection state w in
      finish-Keeps is_exec (to_lower name) (name ∷ args) p.0 p.1 p.2 (hc args connection state w h)
  run_command-Keeps (some (replication f)) is_exec connection name args state w hc h =
      hc args connection state w h
  run_command-Keeps (some (orchestration f)) is_exec connection name args state w hc h =
      finish-Keeps is_exec (to_lower name) (name ∷ args) (f args w).0 state (f args w).1
        (hc args w h)

  receive_number-Keeps : (offset : Option ℤ) (w : World) → P w → P (receive_number offset w)
  unfolding receive_number
  receive_number-Keeps none w h = h
  receive_number-Keeps (some offset) w h = laws.acknowledged (some offset) w h

  module _ (commands : Commands) (all : AllKeep P commands) where
    dispatch_open-Keeps :
        (is_exec : Bool) (connection : Option Socket) (name : Text) (args : List Text)
        (state : ConnectionState) (w : World)
        → P w
        → P (dispatch_open commands is_exec connection name args state w).2
    unfolding dispatch_open
    dispatch_open-Keeps is_exec connection name args state w h =
        if_both Third
          (not (is_empty state.subscribed_channels)
            && not (includes (to_lower name) allowed_subscribed_commands))
          _ _ h
          (if_both Third
            (state.in_transaction && not (includes (to_lower name) immediate_tx_commands)) _ _ h
            (if_both Third (is_upper_ack (to_lower name) args) _ _
              (receive_number-Keeps (upper_ack_offset args) w h)
              (run_command-Keeps (lookup (to_lower name) commands) is_exec connection name args
                state w (all.at (to_lower name)) h)))

    pub dispatch-Keeps :
        (connection : Option Socket) (payload : List Text) (state : ConnectionState)
        (is_exec : Bool) (w : World)
        → P w
        → P (dispatch commands connection payload state is_exec w).2
    unfolding dispatch
    dispatch-Keeps connection [] state is_exec w h = h
    dispatch-Keeps connection (name ∷ args) state is_exec w h =
        if_both Third (is_ack (to_lower name) args) _ _ (laws.acknowledged (ack_offset args) w h) (
          if_both Third
            (state.in_transaction && not (includes (to_lower name) immediate_tx_commands)) _ _ h
            (dispatch_open-Keeps is_exec connection name args state w h))

  pub respond-Keeps :
      (connection : Socket) (answer : Answer) (w : World) → P w → P (respond connection answer w)
  unfolding respond
  respond-Keeps connection (replied none) w h = h
  respond-Keeps connection (replied (some response)) w h =
      if_both P (is_truthy response) _ _ (laws.written connection response w h) h
  respond-Keeps connection (suspended n) w h = h
  respond-Keeps connection (thrown e) w h = laws.written connection internal_error w h
