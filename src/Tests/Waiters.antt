-- ===== src/Tests/Waiters.antt =====
-- Clients that wait for lists, at concrete inputs.
use diy_redis.Base.{All, ◌≡◌, refl, none, some, List, [], ◌∷◌, ◌++◌, inr}
use diy_redis.Js.Text.{codes, str_eq}
use diy_redis.Js.Map.{lookup}
use diy_redis.World.{World, Waiter}
use diy_redis.Blocking.{get_queue}
use diy_redis.Blocking.Queued.{QueuedFor}
use diy_redis.Blocking.Keeping.{Sound}
use diy_redis.Js.Utf8.{utf8_encode}
use diy_redis.Resp.Encode.{to_resp_array}
use diy_redis.Registry.{command_map}
use diy_redis.Server.{Event, connected, received, run, started}
use diy_redis.Invariants.{EngineKeeps}
use diy_redis.Waiters.Reached.{run-QueuedFor}
use diy_redis.Lists.{back, pushed, push_command}
use diy_redis.Lists.Forgotten.{push_command-forgets}
use diy_redis.Tests.Data.{plain_engine, settings, key, quiet_world, first_waiter}
use diy_redis.Tests.Elements.{nothing_held}

engine_keeps : EngineKeeps Sound plain_engine
engine_keeps name args w h = h

-- A client that waits for two lists, and a push to one of them.
abbrev some_events : List Event
some_events =
    connected 7
    ∷ connected 8
    ∷ received 3 7 (utf8_encode (to_resp_array (codes "BLPOP" ∷ key ∷ codes "j" ∷ codes "0" ∷ [])))
    ∷ received 3 8 (utf8_encode (to_resp_array (codes "RPUSH" ∷ key ∷ codes "a" ∷ [])))
    ∷ []

run-QueuedFor_example :
    let w = (run (command_map 1 plain_engine settings) some_events (started quiet_world)).world in
    All (QueuedFor w.next_waiter (codes "j")) (get_queue (codes "j") w.queues)
run-QueuedFor_example =
    run-QueuedFor plain_engine engine_keeps settings some_events quiet_world refl (codes "j")

abbrev second_waiter : Waiter
second_waiter = record { id = 2; keys = key ∷ []; connection = some 7 }

abbrev crowded_world : World
crowded_world = record quiet_world { queues = (key, first_waiter ∷ second_waiter ∷ []) ∷ [] }

two_waiters : get_queue key crowded_world.queues ≡ first_waiter ∷ second_waiter ∷ []
unfolding get_queue lookup str_eq
two_waiters = refl

push_command-forgets_example :
    ((push_command back (key ∷ codes "a" ∷ []) crowded_world).1.resolved
      ≡ [] ++ (1, some (key, codes "a")) ∷ [])
    × (get_queue key (push_command back (key ∷ codes "a" ∷ []) crowded_world).1.queues ≡ [])
push_command-forgets_example =
    push_command-forgets back key (codes "a") [] [] none crowded_world (codes "a") [] first_waiter
      second_waiter [] (inr (nothing_held, refl, refl)) two_waiters (unfold pushed in refl) refl
      refl refl
