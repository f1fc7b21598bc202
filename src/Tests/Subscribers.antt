-- ===== src/Tests/Subscribers.antt =====
-- BLPOP and the channels at concrete inputs.
use diy_redis.Base.{ℕ, ◌≡◌, refl, ◌&&◌, none, some, List, [], ◌∷◌, ◌++◌, length, if◌then◌else◌}
use diy_redis.Base.Int.{pos}
use diy_redis.Js.Text.{Text, codes, str_eq}
use diy_redis.Js.Number.{decimal}
use diy_redis.Js.Utf8.{Bytes, utf8_encode}
use diy_redis.Js.Map.{includes, lookup}
use diy_redis.Store.{get_value}
use diy_redis.Resp.Encode.{simple_int, to_resp_array}
use diy_redis.World.{Socket, World}
use diy_redis.Lists.{back, push_command}
use diy_redis.Dispatch.{fresh_state, suspended}
use diy_redis.Channels.{subscribe_command, unsubscribe_command, publish_command, has_socket}
use diy_redis.Channels.Sets.{Unique}
use diy_redis.Channels.Sessions.{
  Sessions, Reachable, start, next, subscribes, unsubscribes, run, Consistent, Reachable-Consistent,
}
use diy_redis.Channels.Messages.{to_socket, publish_command-reaches}
use diy_redis.Blpop.{blpop_command}
use diy_redis.Blpop.Waking.{blpop_command-wakes}
use diy_redis.Tests.Data.{key, quiet_world}
use diy_redis.Tests.Elements.{no_waiter}

nothing_there : get_value key quiet_world.store ≡ none
unfolding get_value lookup
nothing_there = refl

blpop_command-wakes_example :
    (id : ℕ) × (behind : World) × (blpop_command
        (key ∷ decimal 3 ∷ [])
        (some 7)
        fresh_state
        quiet_world
      ≡ (suspended id, fresh_state, behind))
    × ((push_command back (key ∷ codes "a" ∷ []) behind).1.resolved
        ≡ quiet_world.resolved ++ (id, some (key, codes "a")) ∷ [])
    × ((j : Text)
        → get_value j (push_command back (key ∷ codes "a" ∷ []) behind).1.store
          ≡ (if str_eq key j then none else get_value j quiet_world.store))
blpop_command-wakes_example =
    blpop_command-wakes back key (codes "a") 3 (some 7) fresh_state quiet_world nothing_there
      no_waiter refl

abbrev news : Text
news = codes "news"

abbrev first_sessions : Sessions
first_sessions = record { states = λ c. fresh_state; world = quiet_world }

abbrev joined_sessions : Sessions
joined_sessions = run subscribe_command 7 (news ∷ codes "sport" ∷ []) first_sessions

abbrev left_sessions : Sessions
left_sessions = run unsubscribe_command 7 (codes "sport" ∷ []) joined_sessions

left_sessions-Reachable : Reachable left_sessions
left_sessions-Reachable =
    next joined_sessions left_sessions
      (next first_sessions joined_sessions (start quiet_world refl)
        (subscribes 7 (news ∷ codes "sport" ∷ []) first_sessions))
      (unsubscribes 7 (codes "sport" ∷ []) joined_sessions)

Reachable-Consistent_example : Consistent left_sessions
Reachable-Consistent_example = Reachable-Consistent left_sessions left_sessions-Reachable

publish_command-reaches_example :
    (new : List (Socket × Bytes)) × (members : List Socket) × ((publish_command
        (news ∷ codes "hi" ∷ [])
        left_sessions.world).1.sent
      ≡ left_sessions.world.sent ++ new)
    × ((d : Socket)
        → to_socket d new ≡ (
            if includes news (left_sessions.states d).subscribed_channels
              && left_sessions.world.writable d
            then utf8_encode (to_resp_array (codes "message" ∷ news ∷ codes "hi" ∷ [])) ∷ []
            else []))
    × ((publish_command (news ∷ codes "hi" ∷ []) left_sessions.world).0
        ≡ simple_int (pos (length members)))
    × Unique members
    × ((d : Socket)
        → has_socket d members ≡ includes news (left_sessions.states d).subscribed_channels)
publish_command-reaches_example =
    publish_command-reaches left_sessions news (codes "hi") left_sessions-Reachable
