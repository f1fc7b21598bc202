-- ===== src/Transaction/Isolation.antt =====
-- A transaction through the dispatcher: MULTI, commands that are queued, EXEC.
use diy_redis.Base.{
  ℕ, ◌≤◌, ◌≡◌, refl, ◌∙◌, Bool, true, false, not, ◌&&◌, ◌||◌, Option, none, some, List, [], ◌∷◌,
  ◌++◌, append-nil, append_assoc, arith, ◌==◌, if◌then◌else◌, All,
}
use diy_redis.Js.Text.{Text, codes, str_eq, to_lower, lower_unit}
use diy_redis.Js.Map.{lookup, includes, has_value}
use diy_redis.Resp.Encode.{simple_string_response}
use diy_redis.World.{Socket, World}
use diy_redis.Dispatch.{
  ConnectionState, Answer, replied, suspended, thrown, Commands, stateful, queued, is_ack,
  immediate_tx_commands, fails_check, enqueue_command, dispatch, run_command, finish,
}
use diy_redis.Transaction.Defs.{
  ok_reply, multi_command, exec_command, exec_loop, exec_answer, exec_abort, after_exec,
}

lower_unit_other : (c u : ℕ) → b'A' ≤ u → u ≤ b'Z' → (lower_unit c == u) ≡ false
unfolding lower_unit
lower_unit_other c u lo hi = ground arith

-- A name in lower case is no word that begins with a capital.
no_capital :
    (name : Text) (u : ℕ) (rest : Text)
    → b'A' ≤ u
    → u ≤ b'Z'
    → str_eq (to_lower name) (u ∷ rest) ≡ false
unfolding str_eq to_lower
no_capital [] u rest lo hi = refl
no_capital (c ∷ name) u rest lo hi = rw (lower_unit_other c u lo hi) refl

if_not : (b : Bool) → (if b then false else true) ≡ not b
if_not true = refl
if_not false = refl

or-false : (b : Bool) → (b || false) ≡ b
or-false true = refl
or-false false = refl

if_not_else {ℓ} :
    {A : Type ℓ} (b : Bool) (x y : A) → (if not b then x else y) ≡ (if b then y else x)
if_not_else true x y = refl
if_not_else false x y = refl

-- The check before a command is queued fails for unknown commands and no other: no argument count is
-- refused.
pub fails_check_lem :
    (commands : Commands) (name : Text) (args : List Text)
    → fails_check commands (to_lower name) args ≡ not (has_value (lookup (to_lower name) commands))
unfolding fails_check
fails_check_lem commands name args =
    rw
      (
        no_capital name b'S' (codes "ET") (omega arith) (omega arith),
        no_capital name b'G' (codes "ET") (omega arith) (omega arith),
        no_capital name b'I' (codes "NCR") (omega arith) (omega arith),
      )
      (if_not (has_value (lookup (to_lower name) commands)))

-- The commands that a connection in a transaction queues: all but EXEC, DISCARD, MULTI, WATCH and
-- a replica's REPLCONF ACK.
abbrev pub IsQueued : List Text → Type 0
IsQueued [] = ⊥
IsQueued (name ∷ args) =
    (is_ack (to_lower name) args ≡ false) × (includes (to_lower name) immediate_tx_commands ≡ false)

abbrev pub is_known : Commands → List Text → Bool
is_known commands [] = false
is_known commands (name ∷ args) = has_value (lookup (to_lower name) commands)

abbrev pub all_known : Commands → List (List Text) → Bool
all_known commands [] = true
all_known commands (p ∷ ps) = is_known commands p && all_known commands ps

-- A connection in a transaction, with the given flag and queue.
abbrev queueing : Bool → List (List Text) → ConnectionState → ConnectionState
queueing bad queue state = record state {
  in_transaction = true;
  transaction_failed = bad;
  command_queue = queue;
}

dispatch-queued :
    (commands : Commands) (connection : Option Socket) (p : List Text) (bad : Bool)
    (queue : List (List Text)) (state : ConnectionState) (w : World)
    → IsQueued p
    → dispatch commands connection p (queueing bad queue state) false w ≡ (
      replied (some queued),
      queueing (bad || not (is_known commands p)) (queue ++ p ∷ []) state,
      w,
    )
dispatch-queued commands connection [] bad queue state w h = absurd h
dispatch-queued commands connection (name ∷ args) bad queue state w (no_ack, waits) =
    unfold dispatch enqueue_command in rw (no_ack, waits, fails_check_lem commands name args) refl

-- The dispatcher's calls for one payload after another; the replies are dropped.
unfoldable pub dispatch_all :
    Commands → Option Socket → List (List Text) → ConnectionState → World → ConnectionState × World
dispatch_all commands connection [] state w = (state, w)
dispatch_all commands connection (p ∷ ps) state w =
    let (answer, state', w') = dispatch commands connection p state false w in
    dispatch_all commands connection ps state' w'

or_not : (a b c : Bool) → ((a || not b) || not c) ≡ (a || not (b && c))
or_not a b c = ground arith

dispatch_all-queued :
    (commands : Commands) (connection : Option Socket) (ps : List (List Text)) (bad : Bool)
    (queue : List (List Text)) (state : ConnectionState) (w : World)
    → All IsQueued ps
    → dispatch_all commands connection ps (queueing bad queue state) w
      ≡ (queueing (bad || not (all_known commands ps)) (queue ++ ps) state, w)
unfolding dispatch_all
dispatch_all-queued commands connection [] bad queue state w h =
    rw (append-nil queue, or-false bad) refl
dispatch_all-queued commands connection (p ∷ ps) bad queue state w (h, hs) =
    rw
      (
        dispatch-queued commands connection p bad queue state w h,
        dispatch_all-queued commands connection ps (bad || not (is_known commands p))
            (queue ++ p ∷ []) state w hs,
        or_not bad (is_known commands p) (all_known commands ps),
        append_assoc queue (p ∷ []) ps,
      )
      refl

and-false : (b : Bool) → (b && false) ≡ false
and-false true = refl
and-false false = refl

-- EXEC itself is no command that propagates.
finish_silent :
    (answer : Answer) (state : ConnectionState) (w : World)
    → finish false (codes "exec") (codes "EXEC" ∷ []) answer state w ≡ (answer, state, w)
unfolding finish includes str_eq
finish_silent (replied none) state w = refl
finish_silent (replied (some [])) state w = refl
finish_silent (replied (some (c ∷ r))) state w = ground arith
finish_silent (suspended n) state w = refl
finish_silent (thrown e) state w = refl

-- The map holds MULTI and EXEC; `inner` is the map as EXEC sees it.
pub record HasTransactions (commands inner : Commands) : Type 0 where
  pub multi : lookup (codes "multi") commands ≡ some (stateful multi_command)
  pub exec : lookup (codes "exec") commands ≡ some (stateful (exec_command inner))

module _ (commands inner : Commands) (entries : HasTransactions commands inner)
    (connection : Option Socket) (state : ConnectionState)
    (unsubscribed : state.subscribed_channels ≡ []) (w : World) where
  dispatch_multi :
      dispatch commands connection (codes "MULTI" ∷ []) state false w
      ≡ (replied (some ok_reply), queueing false [] state, w)
  unfolding dispatch multi_command to_lower is_ack includes str_eq run_command finish
      simple_string_response
  dispatch_multi = rw (and-false state.in_transaction, unsubscribed, entries.multi) refl

  dispatch_exec :
      (bad : Bool) (queue : List (List Text))
      → dispatch commands connection (codes "EXEC" ∷ []) (queueing bad queue state) false w ≡ (
          if bad
          then (replied (some exec_abort), after_exec state, w)
          else exec_answer (exec_loop inner connection queue [] w) (after_exec state))
  unfolding dispatch exec_command to_lower is_ack includes str_eq run_command
  dispatch_exec true queue = rw (unsubscribed, entries.exec) (finish_silent _ _ _)
  dispatch_exec false queue = rw (unsubscribed, entries.exec) (finish_silent _ _ _)

  -- MULTI, payloads (none of them EXEC, DISCARD, MULTI, WATCH or REPLCONF ACK), and EXEC, on a connection
  -- that is not subscribed, with MULTI and EXEC in the map of commands: until EXEC the
  -- world does not change; EXEC runs exactly the queued payloads in their order, or, if a name among
  -- them is unknown, runs none and answers EXECABORT. The transaction is over behind it.
  pub transaction_lem :
      (ps : List (List Text))
      → All IsQueued ps
      → (middle : ConnectionState) × (dispatch_all commands connection
            ((codes "MULTI" ∷ []) ∷ ps)
            state
            w
          ≡ (middle, w))
        × (dispatch commands connection (codes "EXEC" ∷ []) middle false w ≡ (
            if all_known commands ps
            then exec_answer (exec_loop inner connection ps [] w) (after_exec state)
            else (replied (some exec_abort), after_exec state, w)))
  transaction_lem ps h = (
    queueing (not (all_known commands ps)) ps state,
    unfold dispatch_all in
        rw dispatch_multi (dispatch_all-queued commands connection ps false [] state w h),
    dispatch_exec (not (all_known commands ps)) ps ∙ if_not_else (all_known commands ps) _ _,
  )
