-- ===== src/Channels/Sessions.antt =====
-- Connections that subscribe, unsubscribe and publish in any order, and what a message reaches.
use diy_redis.Base.{
  ◌≡◌, refl, ◌∙◌, sym, some, List, [], ◌∷◌, ◌==◌, ==_iff, if◌then◌else◌, Bool-cases, inl, inr,
}
use diy_redis.Js.Text.{Text}
use diy_redis.Js.Map.{includes, lookup}
use diy_redis.World.{Socket, World}
use diy_redis.Dispatch.{ConnectionState, fresh_state}
use diy_redis.Channels.Defs.{
  subscribe_command, unsubscribe_command, get_subscribers, publish_command, Replication, has_socket,
}
use diy_redis.Channels.Agreement.{Agrees}
use diy_redis.Channels.Delivery.{
  AllUnique, Keeps, subscribe_command-Keeps, unsubscribe_command-Keeps,
}

-- `connectionStates` of Server.ts, and the world.
pub record Sessions : Type 0 where
  pub states : Socket → ConnectionState
  pub world : World

abbrev set_state : Socket → ConnectionState → (Socket → ConnectionState) → Socket → ConnectionState
set_state c state states d = if d == c then state else states d

-- One command of the connection `c`.
pub run : Replication → Socket → List Text → Sessions → Sessions
run f c args s =
    let (state', w') = f args (some c) (s.states c) s.world in
    record { states = set_state c state' s.states; world = w' }

pub data Step : Sessions → Sessions → Type 0 where
  subscribes :
      (c : Socket) (args : List Text) (s : Sessions) → Step s (run subscribe_command c args s)
  unsubscribes :
      (c : Socket) (args : List Text) (s : Sessions) → Step s (run unsubscribe_command c args s)
  publishes :
      (args : List Text) (s : Sessions)
      → Step s (record s { world = (publish_command args s.world).1 })

pub data Reachable : Sessions → Type 0 where
  start :
      (w : World) → w.channels ≡ [] → Reachable (record { states = λ c. fresh_state; world = w })
  next : (s t : Sessions) → Reachable s → Step s t → Reachable t

-- Every connection's own set agrees with the channel map, in which no socket stands twice.
abbrev pub Consistent : Sessions → Type 0
Consistent s = ((c : Socket) → Agrees c (s.states c) s.world) × AllUnique s.world

run-Consistent :
    (f : Replication) (c : Socket) (args : List Text) (s : Sessions)
    → Keeps f
    → Consistent s
    → Consistent (run f c args s)
unfolding run
run-Consistent f c args s keeps (h, u) =
    let (own, others, unique) = keeps c args (s.states c) s.world (h c) u in
    (
      λ d. elim (Bool-cases (d == c)) [
        | inl same ↦ rw same (rw ((==_iff d c).0 same) own)
        | inr other ↦ rw other (λ j. h d j ∙ sym (others d other j))
      ],
      unique,
    )

channels-publish : (args : List Text) (w : World) → (publish_command args w).1.channels ≡ w.channels
unfolding publish_command
channels-publish [] w = refl
channels-publish (a ∷ []) w = refl
channels-publish (a ∷ b ∷ []) w = refl
channels-publish (a ∷ b ∷ c ∷ args) w = refl

Step-Consistent : (s t : Sessions) → Step s t → Consistent s → Consistent t
Step-Consistent s t (subscribes c args _) h =
    run-Consistent subscribe_command c args s subscribe_command-Keeps h
Step-Consistent s t (unsubscribes c args _) h =
    run-Consistent unsubscribe_command c args s unsubscribe_command-Keeps h
Step-Consistent s t (publishes args _) (h, u) = rw (channels-publish args s.world) (h, u)

-- From a state without subscriptions, whatever connections subscribe, unsubscribe and publish, in any
-- order: each connection's own set of
-- channels agrees with the channel map, and no channel has a socket twice.
pub Reachable-Consistent : (s : Sessions) → Reachable s → Consistent s
unfolding get_subscribers lookup includes has_socket
Reachable-Consistent s (start w empty) = (λ c j. rw empty refl, λ j. rw empty tt)
Reachable-Consistent s (next r _ before step) =
    Step-Consistent r s step (Reachable-Consistent r before)
