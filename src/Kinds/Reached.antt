-- ===== src/Kinds/Reached.antt =====
-- The running server keeps the invariant.
use diy_redis.Base.{ℕ, ◌≡◌, refl, true, Option, none, some, List, []}
use diy_redis.Js.Text.{Text}
use diy_redis.Js.Map.{lookup}
use diy_redis.Store.{get_value}
use diy_redis.World.{receive_ack, write, Pending, World}
use diy_redis.Blocking.{time_out}
use diy_redis.Streams.{read_timeout, forget_reader}
use diy_redis.Wait.{on_timeout, find_wait, timed_out}
use diy_redis.Server.{Host, Event, run, started}
use diy_redis.Settings.{Settings}
use diy_redis.Registry.{Engine, command_map}
use diy_redis.Kinds.Defs.{Kinded, HasKinds, fits_value}
use diy_redis.Kinds.Files.{load_rdb-HasKinds}
use diy_redis.Base.Int.{ℤ}
use diy_redis.Kinds.Elements.{propagate-HasKinds}
use diy_redis.Invariants.{EngineKeeps, Laws}
use diy_redis.Invariants.Exec.{command_map-AllKeep}
use diy_redis.Invariants.Reached.{run-Keeps}
use diy_redis.Kinds.Sessions.{registry-AllKeep}

receive_ack-HasKinds :
    (offset : Option ℤ) (w : World) → HasKinds w.store → HasKinds (receive_ack offset w).store
unfolding receive_ack
receive_ack-HasKinds none w h = h
receive_ack-HasKinds (some offset) w h = h

timed_out-HasKinds :
    (n : ℕ) (o : Option Pending) (w : World) → HasKinds w.store → HasKinds (timed_out n o w).store
unfolding timed_out
timed_out-HasKinds n none w h = h
timed_out-HasKinds n (some p) w h = h

laws : Laws Kinded
unfolding write time_out read_timeout forget_reader on_timeout
laws = record {
  propagated = propagate-HasKinds;
  written = λ c response w h. h;
  acknowledged = receive_ack-HasKinds;
  waiter_ended = λ waiter w h. h;
  reader_ended = λ n w h. h;
  wait_ended = λ n w h. timed_out-HasKinds n (find_wait n w.waits) w h;
  paused = λ ps w h. h;
  clock_went = λ now w h. h;
}

-- No key is there: nothing to fit.
empty-HasKinds : HasKinds []
unfolding get_value lookup
empty-HasKinds = record { fit = λ k. refl }

module _ (engine : Engine) (law : EngineKeeps Kinded engine) (settings : Settings)
    (events : List Event) (w : World) (nothing : w.store ≡ []) where
  reached : Host
  reached = run (command_map 1 engine settings) events (started w)

  reached-HasKinds : HasKinds reached.world.store
  unfolding reached started
  reached-HasKinds =
      run-Keeps Kinded laws (command_map 1 engine settings)
        (command_map-AllKeep Kinded laws 1 engine settings (registry-AllKeep engine settings law))
        events _ (load_rdb-HasKinds w (rw nothing empty-HasKinds))

  -- A server that starts with an empty store loads whatever the file holds; then connections come, bytes arrive, promises
  -- are resolved, the master's commands are run, timers end and time passes, in any order and with any data. Every value
  -- of the store then has the form that its type says, if what the language does outside of the model keeps to that: a list
  -- of at least one element under "list", a stream of at least one entry under "stream", a text under "string", and no value has another type.
  pub run-fits :
      (k : Text)
      → fits_value
          (get_value k (run (command_map 1 engine settings) events (started w)).world.store)
        ≡ true
  unfolding reached
  run-fits k = reached-HasKinds.fit k
