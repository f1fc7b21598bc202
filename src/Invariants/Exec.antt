-- ===== src/Invariants/Exec.antt =====
-- EXEC, and the map that holds it.
use diy_redis.Base.{if_both, ℕ, zero, suc, not, Option, none, some, List, [], ◌∷◌, ◌++◌}
use diy_redis.Js.Text.{Text, codes, str_eq, to_lower}
use diy_redis.Js.Map.{lookup, insert, includes, lookup-insert}
use diy_redis.World.Executions.{Paused}
use diy_redis.World.{World, Socket, propagate}
use diy_redis.Dispatch.{
  ConnectionState, fresh_state, Answer, replied, suspended, thrown, Command, simple, stateful,
  replication, orchestration, Commands,
}
use diy_redis.Transaction.{
  Response, Execution, finished, waiting, failed, exec_command, exec_loop, exec_answer, run_queued,
  propagate_write, write_commands, continue_exec, continue_paused, find_paused, remove_paused,
}
use diy_redis.Settings.{Settings}
use diy_redis.Registry.{Engine, create_command_registry, command_map}
use diy_redis.Registry.Depth.{exec_loop-step, continue}
use diy_redis.Invariants.Defs.{Predicate, Keeps, OptionKeeps, AllKeep, Laws}

module _ (P : Predicate) (laws : Laws P) where
  -- One command of the queue of EXEC, and the loop.
  run_queued-Keeps :
      (c : Option Command) (connection : Option Socket) (name : Text) (args : List Text) (w : World)
      → OptionKeeps P c
      → P w
      → P (run_queued c connection name args w).1
  unfolding run_queued
  run_queued-Keeps none connection name args w hc h = h
  run_queued-Keeps (some (simple f)) connection name args w hc h = hc args w h
  run_queued-Keeps (some (stateful f)) connection name args w hc h =
      hc args connection fresh_state w h
  run_queued-Keeps (some (replication f)) connection name args w hc h = h
  run_queued-Keeps (some (orchestration f)) connection name args w hc h = h

  abbrev ExecutionKeeps : Execution → Type 0
  ExecutionKeeps (finished responses w) = P w
  ExecutionKeeps (waiting p w) = P w
  ExecutionKeeps (failed w) = P w

  propagate_write-Keeps :
      (lower : Text) (payload : List Text) (w : World) → P w → P (propagate_write lower payload w)
  unfolding propagate_write
  propagate_write-Keeps lower payload w h =
      if_both (λ w'. P w') (includes lower write_commands) (propagate payload w) w
        (laws.propagated payload w h) h

  continue-Keeps :
      (connection : Option Socket) (name : Text) (args : List Text) (rest : List (List Text))
      (responses : List Response) (commands : Commands) (answer : Answer) (w : World)
      → ((responses : List Response) (w : World)
          → P w
          → ExecutionKeeps (exec_loop commands connection rest responses w))
      → P w
      → ExecutionKeeps (continue connection name args rest responses commands (answer, w))
  unfolding continue
  continue-Keeps connection name args rest responses commands (replied reply) w loop h =
      loop _ _ (propagate_write-Keeps (to_lower name) (name ∷ args) w h)
  continue-Keeps connection name args rest responses commands (suspended n) w loop h = h
  continue-Keeps connection name args rest responses commands (thrown e) w loop h = loop _ _ h

  exec_loop-Keeps :
      (commands : Commands) (connection : Option Socket) (queue : List (List Text))
      (responses : List Response) (w : World)
      → AllKeep P commands
      → P w
      → ExecutionKeeps (exec_loop commands connection queue responses w)
  exec_loop-Keeps commands connection [] responses w all h = unfold exec_loop in h
  exec_loop-Keeps commands connection ([] ∷ rest) responses w all h = unfold exec_loop in h
  exec_loop-Keeps commands connection ((name ∷ args) ∷ rest) responses w all h =
      rw (exec_loop-step connection name args rest responses commands w) (
        continue-Keeps connection name args rest responses commands _ _
          (λ responses' w' h'. exec_loop-Keeps commands connection rest responses' w' all h')
          (run_queued-Keeps (lookup (to_lower name) commands) connection name args w
            (all.at (to_lower name)) h))

  exec_answer-Keeps :
      (e : Execution) (state : ConnectionState) → ExecutionKeeps e → P (exec_answer e state).2
  exec_answer-Keeps (finished responses w) state h = h
  exec_answer-Keeps (waiting p w) state h = laws.paused (w.executions ++ p ∷ []) w h
  exec_answer-Keeps (failed w) state h = h

  abbrev Third : Answer × ConnectionState × World → Type 0
  Third p = P p.2

  pub exec_command-Keeps :
      (commands : Commands) → AllKeep P commands → Keeps P (stateful (exec_command commands))
  unfolding exec_command
  exec_command-Keeps commands all [] connection state w h =
      if_both Third (not state.in_transaction) _ _ h (
        if_both Third state.transaction_failed _ _ h (
          exec_answer-Keeps _ _
            (exec_loop-Keeps commands connection state.command_queue [] w all h)))
  exec_command-Keeps commands all (a ∷ args) connection state w h = h

  continue_paused-Keeps :
      (commands : Commands) (connection : Option Socket) (reply : Text) (o : Option Paused)
      (state : ConnectionState) (w : World)
      → AllKeep P commands
      → P w
      → P (continue_paused commands connection reply o state w).2
  unfolding continue_paused
  continue_paused-Keeps commands connection reply none state w all h = h
  continue_paused-Keeps commands connection reply (some p) state w all h =
      exec_answer-Keeps _ state (
        exec_loop-Keeps commands connection p.rest _ _ all (
          propagate_write-Keeps (to_lower p.name) (p.name ∷ p.args) _
            (laws.paused (remove_paused p.promise w.executions) w h)))

  -- An EXEC that goes on behind its promise.
  pub continue_exec-Keeps :
      (commands : Commands) (connection : Option Socket) (n : ℕ) (reply : Text)
      (state : ConnectionState) (w : World)
      → AllKeep P commands
      → P w
      → P (continue_exec commands connection n reply state w).2
  unfolding continue_exec
  continue_exec-Keeps commands connection n reply state w all h =
      continue_paused-Keeps commands connection reply (find_paused n w.executions) state w all h

  with_exec-AllKeep :
      (inner commands : Commands)
      → AllKeep P inner
      → AllKeep P commands
      → AllKeep P (insert (codes "exec") (stateful (exec_command inner)) commands)
  with_exec-AllKeep inner commands all_inner all = record {
    at = λ name. rw (lookup-insert (codes "exec") name (stateful (exec_command inner)) commands) (
        if_both (OptionKeeps P) (str_eq (codes "exec") name) _ _
          (exec_command-Keeps inner all_inner) (all.at name));
  }

-- All commands of the server's map.
pub command_map-AllKeep :
    (P : Predicate) (laws : Laws P) (depth : ℕ) (engine : Engine) (settings : Settings)
    → AllKeep P (create_command_registry engine settings)
    → AllKeep P (command_map depth engine settings)
unfolding command_map
command_map-AllKeep P laws zero engine settings all = with_exec-AllKeep P laws _ _ all all
command_map-AllKeep P laws (suc depth) engine settings all =
    with_exec-AllKeep P laws _ _ (command_map-AllKeep P laws depth engine settings all) all
