-- ===== src/Waiters/Reached.antt =====
-- The running server.
use diy_redis.Base.{ℕ, ◌≡◌, Option, none, some, List, [], ◌∷◌, All}
use diy_redis.Base.Int.{ℤ}
use diy_redis.Js.Text.{Text}
use diy_redis.Js.Map.{lookup}
use diy_redis.Js.Utf8.{Bytes}
use diy_redis.Store.{Store}
use diy_redis.World.{World, Pending, receive_ack, write}
use diy_redis.Blocking.{get_queue, time_out}
use diy_redis.Blocking.Queued.{Queued, QueuedFor, remove_waiter-Queued}
use diy_redis.Blocking.Keeping.{Sound, propagate-Sound}
use diy_redis.Channels.{ping_command}
use diy_redis.Lists.{front, back, rpush_command, lpush_command}
use diy_redis.Rdb.{load_rdb, load_file}
use diy_redis.Replica.{replconf_command}
use diy_redis.Streams.{xadd_command, xread_command, read_timeout, forget_reader}
use diy_redis.Wait.{on_timeout, timed_out, find_wait}
use diy_redis.Settings.{Settings}
use diy_redis.Server.{Event, run, started}
use diy_redis.Registry.{Engine, create_command_registry, command_map}
use diy_redis.Invariants.{
  ◌&◌, EntryKeeps, commands-AllKeep, EngineKeeps, AllKeep, Laws, of_outcome-Keeps, StoreKeeps,
  of_number-Keeps,
}
use diy_redis.Invariants.Exec.{command_map-AllKeep}
use diy_redis.Invariants.Reached.{run-Keeps}
use diy_redis.Waiters.Entries.{xadd_command-Sound, xread_command-Sound}
use diy_redis.Waiters.Commands.{
  push_command-Sound, save_command-Sound, publish_command-Sound, blpop_command-Keeps,
  multi_command-Keeps, discard_command-Keeps, psync_command-Keeps, subscribe_command-Keeps,
  unsubscribe_command-Keeps, wait_command-Keeps,
}

keep : (args : List Text) (w : World) → Sound w → Sound w
keep args w h = h

any_store-Sound : (w : World) (o : Option (Text × Store)) → Sound w → StoreKeeps Sound w o
any_store-Sound w none h = tt
any_store-Sound w (some p) h = h

entries-Keep :
    (engine : Engine) (settings : Settings)
    → EngineKeeps Sound engine
    → All (EntryKeeps Sound) (create_command_registry engine settings)
unfolding create_command_registry rpush_command lpush_command replconf_command ping_command
entries-Keep engine settings law =
    keep
    & keep
    & keep
    & keep
    & keep
    & keep
    & push_command-Sound back
    & keep
    & push_command-Sound front
    & keep
    & keep
    & keep
    & keep
    & keep
    & keep
    & (λ args w h. of_number-Keeps Sound engine _ args w _ law h (any_store-Sound w _ h))
    & keep
    & save_command-Sound
    & (λ args w h. of_outcome-Keeps Sound engine _ args w _ law h h)
    & (λ args w h. of_outcome-Keeps Sound engine _ args w _ law h h)
    & (λ args w h.
        of_outcome-Keeps Sound engine _ args w (xadd_command args w) law h
          (xadd_command-Sound args w h))
    & (λ args w h.
        of_outcome-Keeps Sound engine _ args w (xread_command args w) law h
          (xread_command-Sound args w h))
    & multi_command-Keeps
    & discard_command-Keeps
    & publish_command-Sound
    & blpop_command-Keeps
    & (λ args connection state w h. h)
    & psync_command-Keeps
    & subscribe_command-Keeps
    & unsubscribe_command-Keeps
    & wait_command-Keeps
    & tt

pub registry-AllKeep :
    (engine : Engine) (settings : Settings)
    → EngineKeeps Sound engine
    → AllKeep Sound (create_command_registry engine settings)
registry-AllKeep engine settings law =
    commands-AllKeep Sound (create_command_registry engine settings)
      (entries-Keep engine settings law)

receive_ack-Sound : (offset : Option ℤ) (w : World) → Sound w → Sound (receive_ack offset w)
unfolding receive_ack
receive_ack-Sound none w h = h
receive_ack-Sound (some offset) w h = h

timed_out-Sound : (n : ℕ) (o : Option Pending) (w : World) → Sound w → Sound (timed_out n o w)
unfolding timed_out
timed_out-Sound n none w h = h
timed_out-Sound n (some p) w h = h

laws : Laws Sound
unfolding write time_out read_timeout forget_reader on_timeout
laws = record {
  propagated = propagate-Sound;
  written = λ c response w h. h;
  acknowledged = receive_ack-Sound;
  waiter_ended =
      λ waiter w h. remove_waiter-Queued w.next_waiter waiter.keys waiter.connection w.queues h;
  reader_ended = λ n w h. h;
  wait_ended = λ n w h. timed_out-Sound n (find_wait n w.waits) w h;
  paused = λ ps w h. h;
  clock_went = λ now w h. h;
}

load_file-Sound : (file : Option Bytes) (w : World) → Sound w → Sound (load_file file w)
unfolding load_file
load_file-Sound none w h = h
load_file-Sound (some []) w h = h
load_file-Sound (some (b ∷ bytes)) w h = h

empty-Queued : (next : ℕ) → Queued next []
unfolding get_queue lookup
empty-Queued next = record { under = λ k. tt }

-- A server that starts with no waiter in a queue: whatever connections, bytes, answers, commands of the master, timers
-- and times come, in any order, every waiter that is queued under a key asks for that key and has a number that
-- has been given out, if what the language does outside of the model keeps to that.
pub run-QueuedFor :
    (engine : Engine) (law : EngineKeeps Sound engine) (settings : Settings) (events : List Event)
    (w : World)
    → w.queues ≡ []
    → (k : Text)
    → let w' = (run (command_map 1 engine settings) events (started w)).world in
      All (QueuedFor w'.next_waiter k) (get_queue k w'.queues)
unfolding started load_rdb
run-QueuedFor engine law settings events w nobody k =
    (run-Keeps Sound laws (command_map 1 engine settings)
        (command_map-AllKeep Sound laws 1 engine settings (registry-AllKeep engine settings law))
        events (started w)
        (load_file-Sound w.rdb_file w (rw nobody (empty-Queued w.next_waiter)))).under
      k
