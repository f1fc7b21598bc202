-- ===== src/Registry/Depth.antt =====
-- The map of commands holds EXEC, which holds the map: how far the reference is followed does not matter.
use diy_redis.Base.{
  ℕ, zero, suc, ◌≡◌, refl, Bool, true, false, Option, some, List, [], ◌∷◌, ◌++◌, if◌then◌else◌,
  Bool-cases, inl, inr,
}
use diy_redis.Js.Text.{Text, codes, str_eq, to_lower}
use diy_redis.Js.Map.{lookup, insert, has_value, lookup-insert}
use diy_redis.World.{Socket, World}
use diy_redis.Dispatch.{
  ConnectionState, fresh_state, Answer, replied, suspended, thrown, stateful, Commands, run_command,
  dispatch, dispatch_open, fails_check, enqueue_command,
}
use diy_redis.Transaction.{
  Response, Execution, waiting, exec_command, exec_loop, run_queued, response_of, propagate_write,
  caught,
}
use diy_redis.Settings.{Settings}
use diy_redis.Registry.Defs.{Engine, create_command_registry, command_map}

-- Outside a transaction EXEC does not look at its map.
exec_command-fresh :
    (m n : Commands) (args : List Text) (connection : Option Socket) (w : World)
    → exec_command m args connection fresh_state w ≡ exec_command n args connection fresh_state w
unfolding exec_command
exec_command-fresh m n [] connection w = refl
exec_command-fresh m n (a ∷ args) connection w = refl

abbrev with_exec : Commands → Commands → Commands
with_exec inner commands = insert (codes "exec") (stateful (exec_command inner)) commands

lookup-with_exec :
    (key : Text) (inner commands : Commands)
    → lookup key (with_exec inner commands) ≡ (
        if str_eq (codes "exec") key
        then some (stateful (exec_command inner))
        else lookup key commands)
lookup-with_exec key inner commands = lookup-insert (codes "exec") key _ commands

run_queued-exec :
    (m n commands : Commands) (key name : Text) (args : List Text) (connection : Option Socket)
    (w : World)
    → run_queued (lookup key (with_exec m commands)) connection name args w
      ≡ run_queued (lookup key (with_exec n commands)) connection name args w
unfolding run_queued
run_queued-exec m n commands key name args connection w =
    elim (Bool-cases (str_eq (codes "exec") key)) [
      | inl same ↦
          rw
            (
              lookup-with_exec key m commands,
              lookup-with_exec key n commands,
              same,
              exec_command-fresh m n args connection w,
            )
            refl
      | inr other ↦
          rw (lookup-with_exec key m commands, lookup-with_exec key n commands, other) refl
    ]

-- The rest of the loop behind one command.
module _ (connection : Option Socket) (name : Text) (args : List Text) (rest : List (List Text))
    (responses : List Response) where
  unfoldable pub continue : Commands → Answer × World → Execution
  continue inner p = elim p.0 [
    | replied reply ↦
        exec_loop inner connection rest (responses ++ response_of reply)
          (propagate_write (to_lower name) (name ∷ args) p.1)
    | suspended k ↦
        waiting
          (record { promise = k; responses = responses; name = name; args = args; rest = rest }) p.1
    | thrown e ↦ exec_loop inner connection rest (responses ++ caught e) p.1
  ]

  pub exec_loop-step :
      (inner : Commands) (w : World)
      → exec_loop inner connection ((name ∷ args) ∷ rest) responses w
        ≡ continue inner (run_queued (lookup (to_lower name) inner) connection name args w)
  unfolding exec_loop continue
  exec_loop-step inner w = refl

  continue-same :
      (m n : Commands)
      → ((responses : List Response) (w : World)
          → exec_loop m connection rest responses w ≡ exec_loop n connection rest responses w)
      → (answer : Answer) (w : World) → continue m (answer, w) ≡ continue n (answer, w)
  unfolding continue
  continue-same m n same (replied reply) w = same _ _
  continue-same m n same (suspended k) w = refl
  continue-same m n same (thrown e) w = same _ _

exec_loop-exec :
    (m n commands : Commands) (connection : Option Socket) (queue : List (List Text))
    (responses : List Response) (w : World)
    → exec_loop (with_exec m commands) connection queue responses w
      ≡ exec_loop (with_exec n commands) connection queue responses w
exec_loop-exec m n commands connection [] responses w = unfold exec_loop in refl
exec_loop-exec m n commands connection ([] ∷ rest) responses w = unfold exec_loop in refl
exec_loop-exec m n commands connection ((name ∷ args) ∷ rest) responses w =
    rw
      (
        exec_loop-step connection name args rest responses (with_exec m commands) w,
        exec_loop-step connection name args rest responses (with_exec n commands) w,
        run_queued-exec m n commands (to_lower name) name args connection w,
      )
      (continue-same connection name args rest responses (with_exec m commands)
        (with_exec n commands) (exec_loop-exec m n commands connection rest) _ _)

-- What `dispatch` takes from two maps is the same.
exec_command-same :
    (m n commands : Commands) (args : List Text) (connection : Option Socket)
    (state : ConnectionState) (w : World)
    → exec_command (with_exec m commands) args connection state w
      ≡ exec_command (with_exec n commands) args connection state w
unfolding exec_command
exec_command-same m n commands [] connection state w =
    rw (exec_loop-exec m n commands connection state.command_queue [] w) refl
exec_command-same m n commands (a ∷ args) connection state w = refl

module _ (m n commands : Commands) (is_exec : Bool) (connection : Option Socket) (name : Text)
    (args : List Text) (state : ConnectionState) (w : World) where
  abbrev outer : Commands → Commands
  outer inner = with_exec (with_exec inner commands) commands

  run_command-same :
      (key : Text)
      → run_command (lookup key (outer m)) is_exec connection name args state w
        ≡ run_command (lookup key (outer n)) is_exec connection name args state w
  unfolding run_command
  run_command-same key = elim (Bool-cases (str_eq (codes "exec") key)) [
    | inl same ↦
        rw
          (
            lookup-with_exec key (with_exec m commands) commands,
            lookup-with_exec key (with_exec n commands) commands,
            same,
            exec_command-same m n commands args connection state w,
          )
          refl
    | inr other ↦
        rw
          (
            lookup-with_exec key (with_exec m commands) commands,
            lookup-with_exec key (with_exec n commands) commands,
            other,
          )
          refl
  ]

  known-same : (key : Text) → has_value (lookup key (outer m)) ≡ has_value (lookup key (outer n))
  known-same key =
      rw
        (
          lookup-with_exec key (with_exec m commands) commands,
          lookup-with_exec key (with_exec n commands) commands,
        )
        (Bool-if (str_eq (codes "exec") key))
    where
      Bool-if :
          (b : Bool)
          → has_value (
              if b
              then some (stateful (exec_command (with_exec m commands)))
              else lookup key commands)
            ≡ has_value (
                if b
                then some (stateful (exec_command (with_exec n commands)))
                else lookup key commands)
      Bool-if true = refl
      Bool-if false = refl

  dispatch-same :
      dispatch (outer m) connection (name ∷ args) state is_exec w
      ≡ dispatch (outer n) connection (name ∷ args) state is_exec w
  unfolding dispatch enqueue_command dispatch_open fails_check
  dispatch-same = rw (known-same (to_lower name), run_command-same (to_lower name)) refl

command_map-outer :
    (engine : Engine) (settings : Settings) (depth : ℕ)
    → (inner : Commands) × (command_map (suc depth) engine settings
        ≡ with_exec
            (with_exec inner (create_command_registry engine settings))
            (create_command_registry engine settings))
unfolding command_map
command_map-outer engine settings zero = (create_command_registry engine settings, refl)
command_map-outer engine settings (suc depth) = (command_map depth engine settings, refl)

-- The server's map refers to itself through EXEC. Followed once or more, at whatever depth it is cut off, it
-- answers every payload in every state and world alike.
pub dispatch-command_map :
    (engine : Engine) (settings : Settings) (depth : ℕ) (connection : Option Socket)
    (payload : List Text) (state : ConnectionState) (is_exec : Bool) (w : World)
    → dispatch (command_map (suc depth) engine settings) connection payload state is_exec w
      ≡ dispatch (command_map 1 engine settings) connection payload state is_exec w
dispatch-command_map engine settings depth connection [] state is_exec w = unfold dispatch in refl
dispatch-command_map engine settings depth connection (name ∷ args) state is_exec w =
    let (inner, deep) = command_map-outer engine settings depth in
    let (inner', once) = command_map-outer engine settings 0 in
    rw (deep, once)
      (dispatch-same inner inner' (create_command_registry engine settings) is_exec connection name
        args state w)
