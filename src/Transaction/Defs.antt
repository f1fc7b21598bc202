-- ===== src/Transaction/Defs.antt =====
-- The commands of a transaction; `exec_command` runs what the dispatcher has queued.
use diy_redis.Base.{
  ℕ, true, false, not, Option, none, some, List, [], ◌∷◌, ◌++◌, length, drop, get_elem?,
  if◌then◌else◌, ◌==◌,
}
use diy_redis.Js.Text.{Text, codes, crlf, to_lower, starts_with, is_truthy, split_crlf}
use diy_redis.Js.Number.{parse_int, decimal, trim, number_text}
use diy_redis.Js.Map.{lookup, includes}
use diy_redis.Resp.Encode.{simple_error_response, simple_string_response, bulk_string_response}
use diy_redis.Strings.{wrong_arguments}
pub use diy_redis.World.Executions.{Response, string, number, null}
use diy_redis.World.Executions.{Paused}
use diy_redis.World.{Socket, World, propagate}
use diy_redis.Dispatch.{
  ConnectionState, fresh_state, Answer, replied, suspended, thrown, Command, simple, stateful,
  replication, orchestration, Commands, Stateful,
}

abbrev pub ok_reply : Text
ok_reply = simple_string_response (codes "OK")

-- MultiCommand.ts
unfoldable pub multi_command : Stateful
multi_command [] connection state w = (
  replied (some ok_reply),
  record state { in_transaction = true; command_queue = []; transaction_failed = false },
  w,
)
multi_command (a ∷ args) connection state w =
    (replied (some (wrong_arguments (codes "multi"))), state, w)

-- DiscardCommand.ts
unfoldable pub discard_command : Stateful
discard_command [] connection state w =
    if state.in_transaction
    then (replied (some ok_reply), record state { in_transaction = false; command_queue = [] }, w)
    else (replied (some (simple_error_response (codes "DISCARD without MULTI"))), state, w)
discard_command (a ∷ args) connection state w =
    (replied (some (wrong_arguments (codes "discard"))), state, w)

-- WRITE_COMMANDS of ExecCommand.ts
abbrev pub write_commands : List Text
write_commands =
    codes "set"
    ∷ codes "del"
    ∷ codes "incr"
    ∷ codes "expire"
    ∷ codes "xadd"
    ∷ codes "rpush"
    ∷ codes "lpush"
    ∷ []

abbrev second_line : Option Text → Response
second_line none = null
second_line (some line) = string line

-- What a reply adds to `responses`; a reply of another form adds nothing.
unfoldable pub response_of : Option Text → List Response
response_of none = null ∷ []
response_of (some raw) =
    if not (is_truthy raw)
    then null ∷ []
    else if starts_with raw (codes "-")
    then string (trim raw) ∷ []
    else if starts_with raw (codes ":")
    then number (parse_int (drop 1 raw)) ∷ []
    else if starts_with raw (codes "+")
    then string (trim (drop 1 raw)) ∷ []
    else if starts_with raw (codes "$-1")
    then null ∷ []
    else if starts_with raw (codes "$")
    then second_line (get_elem? (split_crlf (trim raw)) 1) ∷ []
    else []

-- `formatArrayOfResponsesWithErrors` of utilities.ts
unfoldable pub format_response : Response → Text
format_response (string s) =
    if starts_with s (codes "-") then s ++ crlf else bulk_string_response (some s)
format_response (number n) = codes ":" ++ (number_text n ++ crlf)
format_response null = codes "$-1" ++ crlf

unfoldable pub format_responses : List Response → Text
format_responses [] = []
format_responses (r ∷ rs) = format_response r ++ format_responses rs

unfoldable pub format_array_of_responses_with_errors : List Response → Text
format_array_of_responses_with_errors rs =
    codes "*" ++ (decimal (length rs) ++ (crlf ++ format_responses rs))

-- What one command of the queue gives: a reply, a promise that waits, or an exception that the loop
-- catches.
unfoldable pub run_queued :
    Option Command → Option Socket → Text → List Text → World → Answer × World
run_queued none connection name args w =
    (thrown (codes "unknown command '" ++ (name ++ codes "' during EXEC")), w)
run_queued (some (simple f)) connection name args w = f args w
run_queued (some (stateful f)) connection name args w =
    let (answer, state, w') = f args connection fresh_state w in (answer, w')
run_queued (some (replication f)) connection name args w =
    (thrown (codes "Command type 'replication' not supported inside EXEC."), w)
run_queued (some (orchestration f)) connection name args w =
    (thrown (codes "Command type 'orchestration' not supported inside EXEC."), w)

-- The loop has run through the queue, or it waits for a promise with the rest still to run, or an
-- empty payload made it throw.
pub data Execution : Type 0 where
  finished : List Response → World → Execution
  waiting : Paused → World → Execution
  failed : World → Execution

abbrev pub caught : Text → List Response
caught e =
    string (codes "-ERR " ++ (if is_truthy e then e else codes "internal error during transaction"))
    ∷ []

-- A write command that did not throw goes to the replicas.
unfoldable pub propagate_write : Text → List Text → World → World
propagate_write lower payload w = if includes lower write_commands then propagate payload w else w

unfoldable pub exec_loop :
    Commands → Option Socket → List (List Text) → List Response → World → Execution
exec_loop commands connection [] responses w = finished responses w
exec_loop commands connection ([] ∷ rest) responses w = failed w
exec_loop commands connection ((name ∷ args) ∷ rest) responses w =
    let (answer, w') = run_queued (lookup (to_lower name) commands) connection name args w in
    elim answer [
      | replied reply ↦
          exec_loop commands connection rest (responses ++ response_of reply)
            (propagate_write (to_lower name) (name ∷ args) w')
      | suspended n ↦
          waiting
            (record { promise = n; responses = responses; name = name; args = args; rest = rest })
            w'
      | thrown e ↦ exec_loop commands connection rest (responses ++ caught e) w'
    ]

abbrev pub exec_answer : Execution → ConnectionState → Answer × ConnectionState × World
exec_answer (finished responses w) state =
    (replied (some (format_array_of_responses_with_errors responses)), state, w)
exec_answer (waiting p w) state =
    (suspended p.promise, state, record w { executions = w.executions ++ p ∷ [] })
exec_answer (failed w) state = (thrown (codes "TypeError"), state, w)

abbrev pub exec_abort : Text
exec_abort =
    simple_error_response (codes "EXECABORT Transaction discarded because of previous errors.")

abbrev pub after_exec : ConnectionState → ConnectionState
after_exec state = record state {
  in_transaction = false;
  command_queue = [];
  transaction_failed = false;
}

-- ExecCommand.ts
unfoldable pub exec_command : Commands → Stateful
exec_command commands (a ∷ args) connection state w =
    (replied (some (wrong_arguments (codes "exec"))), state, w)
exec_command commands [] connection state w =
    if not state.in_transaction
    then (replied (some (simple_error_response (codes "EXEC without MULTI"))), state, w)
    else if state.transaction_failed
    then (replied (some exec_abort), after_exec state, w)
    else exec_answer (exec_loop commands connection state.command_queue [] w) (after_exec state)

unfoldable pub find_paused : ℕ → List Paused → Option Paused
find_paused n [] = none
find_paused n (p ∷ ps) = if p.promise == n then some p else find_paused n ps

unfoldable pub remove_paused : ℕ → List Paused → List Paused
remove_paused n [] = []
remove_paused n (p ∷ ps) =
    let rest = remove_paused n ps in if p.promise == n then rest else p ∷ rest

unfoldable pub continue_paused :
    Commands
    → Option Socket
    → Text
    → Option Paused
    → ConnectionState
    → World
    → Answer × ConnectionState × World
unfolding remove_paused
continue_paused commands connection reply none state w = (replied (some reply), state, w)
continue_paused commands connection reply (some p) state w =
    exec_answer
      (exec_loop commands connection p.rest (p.responses ++ response_of (some reply)) (
        propagate_write (to_lower p.name) (p.name ∷ p.args)
          (record w { executions = remove_paused p.promise w.executions })))
      state

-- A promise is resolved. If an EXEC waits for it, the loop goes on behind its `await`; a command that waits outside of
-- EXEC has the reply.
unfoldable pub continue_exec :
    Commands → Option Socket → ℕ → Text → ConnectionState → World → Answer × ConnectionState × World
unfolding continue_paused find_paused
continue_exec commands connection n reply state w =
    continue_paused commands connection reply (find_paused n w.executions) state w
