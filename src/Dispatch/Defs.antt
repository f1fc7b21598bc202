-- ===== src/Dispatch/Defs.antt =====
-- The dispatcher, over a map of commands as the source has it. A command is what ICommand.ts says of
-- its type: a function that changes the world, and for three of the four types the connection's state.
use diy_redis.Base.{
  ℕ, Bool, true, false, not, ◌&&◌, ◌||◌, Option, none, some, List, [], ◌∷◌, ◌++◌, ◌==◌, ltb, length,
  if◌then◌else◌,
}
use diy_redis.Base.Int.{ℤ}
use diy_redis.Js.Text.{Text, codes, str_eq, to_lower, to_upper, starts_with, is_truthy}
use diy_redis.Js.Number.{parse_int}
use diy_redis.Js.Radix.{parse_int_any}
use diy_redis.Js.Map.{Map, lookup, includes, has_value}
use diy_redis.Resp.Encode.{simple_error_response, simple_string_response}
use diy_redis.World.{Socket, World, propagate, receive_ack}

-- `ConnectionState` of types.ts; `dataBuffer` belongs to the server's loop.
pub record ConnectionState : Type 0 where
  pub in_transaction : Bool
  pub transaction_failed : Bool
  pub command_queue : List (List Text)
  pub subscribed_channels : List Text

abbrev pub fresh_state : ConnectionState
fresh_state = record {
  in_transaction = false;
  transaction_failed = false;
  command_queue = [];
  subscribed_channels = [];
}

-- What the `await` of a command gives: a reply or undefined, a promise that waits under a number, or
-- an exception with its message.
pub data Answer : Type 0 where
  replied : Option Text → Answer
  suspended : ℕ → Answer
  thrown : Text → Answer

abbrev pub Stateful : Type 0
Stateful = List Text → Option Socket → ConnectionState → World → Answer × ConnectionState × World

pub data Command : Type 0 where
  simple : (List Text → World → Answer × World) → Command
  stateful : Stateful → Command
  replication : Stateful → Command
  orchestration : (List Text → World → Answer × World) → Command

abbrev pub Commands : Type 0
Commands = Map Command

-- COMMANDS_THAT_PROPAGATE, IMMEDIATE_TX_COMMANDS, ALLOWED_SUBSCRIBED_COMMANDS
abbrev pub commands_that_propagate : List Text
commands_that_propagate =
    codes "set"
    ∷ codes "del"
    ∷ codes "incr"
    ∷ codes "expire"
    ∷ codes "xadd"
    ∷ codes "rpush"
    ∷ codes "lpush"
    ∷ codes "lpop"
    ∷ codes "publish"
    ∷ []

abbrev pub immediate_tx_commands : List Text
immediate_tx_commands = codes "exec" ∷ codes "discard" ∷ codes "multi" ∷ codes "watch" ∷ []

abbrev pub allowed_subscribed_commands : List Text
allowed_subscribed_commands =
    codes "subscribe"
    ∷ codes "unsubscribe"
    ∷ codes "psubscribe"
    ∷ codes "punsubscribe"
    ∷ codes "ping"
    ∷ codes "quit"
    ∷ []

abbrev pub queued : Text
queued = simple_string_response (codes "QUEUED")

-- `args[0]?.toLowerCase() === "ack"`, and `parseInt(args[1])`, which has no radix here
unfoldable pub is_ack : Text → List Text → Bool
is_ack lower [] = false
is_ack lower (a ∷ args) = str_eq lower (codes "replconf") && str_eq (to_lower a) (codes "ack")

abbrev pub ack_offset : List Text → Option ℤ
ack_offset [] = none
ack_offset (a ∷ []) = none
ack_offset (a ∷ offset ∷ args) = parse_int_any offset

-- `parseInt(args[1], 10)` of the second form
abbrev pub upper_ack_offset : List Text → Option ℤ
upper_ack_offset [] = none
upper_ack_offset (a ∷ []) = none
upper_ack_offset (a ∷ offset ∷ args) = parse_int offset

-- The checks before a command is queued. Its name is in lower case here, and the three names that
-- the source compares it with are in upper case.
unfoldable pub fails_check : Commands → Text → List Text → Bool
fails_check commands lower args =
    if has_value (lookup lower commands)
    then (str_eq lower (codes "SET") && ltb (length args) 2)
      || (str_eq lower (codes "GET") && not (length args == 1))
      || (str_eq lower (codes "INCR") && not (length args == 1))
    else true

unfoldable pub enqueue_command :
    Commands → Text → List Text → List Text → ConnectionState → ConnectionState
unfolding fails_check
enqueue_command commands lower args payload state = record state {
  transaction_failed = state.transaction_failed || fails_check commands lower args;
  command_queue = state.command_queue ++ payload ∷ [];
}

-- The message of subscribe mode.
refused_subscribed : Text → Text
refused_subscribed name = simple_error_response (
    codes "Can't execute '"
    ++ (name
        ++ codes
            "': only (P|S)SUBSCRIBE / (P|S)UNSUBSCRIBE / PING / QUIT / RESET are allowed in this context"))

-- The end of `dispatch`: a write command that was answered and not by an error goes to the replicas.
unfoldable pub propagates : ConnectionState → Bool → Text → Text → Bool
propagates state is_exec lower response =
    is_truthy response
    && (not state.in_transaction
        && (not is_exec
            && (includes lower commands_that_propagate && not (starts_with response (codes "-")))))

unfoldable pub finish :
    Bool → Text → List Text → Answer → ConnectionState → World → Answer × ConnectionState × World
unfolding propagates
finish is_exec lower payload (replied (some response)) state w = (
  replied (some response),
  state,
  if propagates state is_exec lower response then propagate payload w else w,
)
finish is_exec lower payload (replied none) state w = (replied none, state, w)
finish is_exec lower payload (suspended n) state w = (suspended n, state, w)
finish is_exec lower payload (thrown e) state w = (thrown e, state, w)

unknown_command : Text → Text
unknown_command name = simple_error_response (codes "unknown command '" ++ (name ++ codes "'"))

-- A replication command writes its replies itself: `return undefined`.
abbrev pub without_reply : Answer → Answer
without_reply (replied reply) = replied none
without_reply (suspended n) = suspended n
without_reply (thrown e) = thrown e

-- The `switch` on the command's type.
unfoldable pub run_command :
    Option Command
    → Bool
    → Option Socket
    → Text
    → List Text
    → ConnectionState
    → World
    → Answer × ConnectionState × World
unfolding finish unknown_command
run_command none is_exec connection name args state w =
    (replied (some (unknown_command name)), state, w)
run_command (some (simple f)) is_exec connection name args state w =
    let (answer, w') = f args w in finish is_exec (to_lower name) (name ∷ args) answer state w'
run_command (some (stateful f)) is_exec connection name args state w =
    let (answer, state', w') = f args connection state w in
    finish is_exec (to_lower name) (name ∷ args) answer state' w'
run_command (some (replication f)) is_exec connection name args state w =
    let (answer, state', w') = f args connection state w in (without_reply answer, state', w')
run_command (some (orchestration f)) is_exec connection name args state w =
    let (answer, w') = f args w in finish is_exec (to_lower name) (name ∷ args) answer state w'

abbrev pub is_empty : List Text → Bool
is_empty [] = true
is_empty (t ∷ ts) = false

-- `commandLower === "REPLCONF" && args[0]?.toUpperCase() === "ACK"`
unfoldable pub is_upper_ack : Text → List Text → Bool
is_upper_ack lower [] = false
is_upper_ack lower (a ∷ args) = str_eq lower (codes "REPLCONF") && str_eq (to_upper a) (codes "ACK")

-- `if (!isNaN(offset)) receiveAck(offset)`
unfoldable pub receive_number : Option ℤ → World → World
receive_number none w = w
receive_number (some offset) w = receive_ack (some offset) w

-- What follows the first queueing test: subscribe mode, the second test, and the second form of ACK.
unfoldable pub dispatch_open :
    Commands
    → Bool
    → Option Socket
    → Text
    → List Text
    → ConnectionState
    → World
    → Answer × ConnectionState × World
unfolding run_command refused_subscribed is_upper_ack receive_number
dispatch_open commands is_exec connection name args state w =
    let lower = to_lower name in
    if not (is_empty state.subscribed_channels) && not (includes lower allowed_subscribed_commands)
    then (replied (some (refused_subscribed name)), state, w)
    else if state.in_transaction && not (includes lower immediate_tx_commands)
    then (
      replied (some queued),
      record state { command_queue = state.command_queue ++ (name ∷ args) ∷ [] },
      w,
    )
    else if is_upper_ack lower args
    then (replied none, state, receive_number (upper_ack_offset args) w)
    else run_command (lookup lower commands) is_exec connection name args state w

unfoldable pub dispatch :
    Commands
    → Option Socket
    → List Text
    → ConnectionState
    → Bool
    → World
    → Answer × ConnectionState × World
unfolding enqueue_command dispatch_open is_ack
dispatch commands connection [] state is_exec w = (thrown (codes "TypeError"), state, w)
dispatch commands connection (name ∷ args) state is_exec w =
    let lower = to_lower name in
    if is_ack lower args
    then (replied none, state, receive_ack (ack_offset args) w)
    else if state.in_transaction && not (includes lower immediate_tx_commands)
    then (replied (some queued), enqueue_command commands lower args (name ∷ args) state, w)
    else dispatch_open commands is_exec connection name args state w
