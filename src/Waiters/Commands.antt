-- ===== src/Waiters/Commands.antt =====
-- The other commands.
use diy_redis.Base.{
  ◌||◌, Option, none, some, List, [], ◌∷◌, ◌==◌, length, Option-cases, Bool-cases, inl, inr,
}
use diy_redis.Base.Int.{ℤ, pos, negsuc}
use diy_redis.Js.Text.{Text}
use diy_redis.Js.Number.{parse_int}
use diy_redis.Js.Map.{includes}
use diy_redis.World.{World, Socket, write}
use diy_redis.Blocking.{Promise, settled, waiting, block_on_lists}
use diy_redis.Blocking.Keeping.{Sound, older-Queued, block_on_lists-Sound, notify_list_push-Sound}
use diy_redis.Blpop.{blpop_command, pop_last, blpop_parsed, await_promise}
use diy_redis.Channels.{
  subscribe_all, unsubscribe_all, subscribe_command, unsubscribe_command, publish_command,
  leave_channel, unsubscribe_one, subscribe_one,
}
use diy_redis.Dispatch.{ConnectionState, stateful, replication, orchestration}
use diy_redis.Lists.{
  Found, absent, other_type, broken, found, Side, find_list, push_command, push_found, push_onto,
}
use diy_redis.Replica.{psync_command, request_acks}
use diy_redis.Rdb.{save_command, build_rdb}
use diy_redis.Transaction.{multi_command, discard_command}
use diy_redis.Wait.{wait_command, start_wait}
use diy_redis.Registry.{writing}
use diy_redis.Invariants.{Keeps}

push_found-Sound :
    (side : Side) (k t : Text) (ts : List Text) (f : Found) (w : World)
    → Sound w
    → Sound (push_found side k (t ∷ ts) f w).1
unfolding push_found push_onto
push_found-Sound side k t ts absent w h = notify_list_push-Sound k _ h
push_found-Sound side k t ts other_type w h = h
push_found-Sound side k t ts broken w h = h
push_found-Sound side k t ts (found l e) w h = notify_list_push-Sound k _ h

pub push_command-Sound :
    (side : Side) (args : List Text) (w : World) → Sound w → Sound (push_command side args w).1
unfolding push_command
push_command-Sound side [] w h = h
push_command-Sound side (k ∷ []) w h = h
push_command-Sound side (k ∷ t ∷ ts) w h = push_found-Sound side k t ts (find_list k w.store) w h

await_promise-Sound :
    (p : Promise × World) (state : ConnectionState) → Sound p.1 → Sound (await_promise p state).2
unfolding await_promise
await_promise-Sound (settled result, w) state h = h
await_promise-Sound (waiting n, w) state h = h

blpop_parsed-Sound :
    (keys : List Text) (timeout : Option ℤ) (connection : Option Socket) (state : ConnectionState)
    (w : World)
    → Sound w
    → Sound (blpop_parsed keys timeout connection state w).2
unfolding blpop_parsed
blpop_parsed-Sound keys none connection state w h = h
blpop_parsed-Sound keys (some (negsuc n)) connection state w h = h
blpop_parsed-Sound keys (some (pos n)) connection state w h =
    await_promise-Sound (block_on_lists keys n connection w) state
      (block_on_lists-Sound keys n connection w h)

pub blpop_command-Keeps : Keeps Sound (stateful blpop_command)
unfolding blpop_command
blpop_command-Keeps [] connection state w h = h
blpop_command-Keeps (a ∷ []) connection state w h = h
blpop_command-Keeps (a ∷ b ∷ args) connection state w h =
    blpop_parsed-Sound (pop_last a (b ∷ args)).0 (parse_int (pop_last a (b ∷ args)).1) connection
      state w h

pub multi_command-Keeps : Keeps Sound (stateful multi_command)
unfolding multi_command
multi_command-Keeps [] connection state w h = h
multi_command-Keeps (a ∷ args) connection state w h = h

pub discard_command-Keeps : Keeps Sound (stateful discard_command)
unfolding discard_command
discard_command-Keeps [] connection state w h = elim (Bool-cases state.in_transaction) [
  | inl inside ↦ rw inside h
  | inr before ↦ rw before h
]
discard_command-Keeps (a ∷ args) connection state w h = h

pub psync_command-Keeps : Keeps Sound (replication psync_command)
unfolding psync_command
psync_command-Keeps args none state w h = h
psync_command-Keeps args (some connection) state w h = h

subscribe_all-Sound :
    (connection : Socket) (channels : List Text) (state : ConnectionState) (w : World)
    → Sound w
    → Sound (subscribe_all connection channels state w).1
unfolding subscribe_all subscribe_one write
subscribe_all-Sound connection [] state w h = h
subscribe_all-Sound connection (channel ∷ rest) state w h =
    subscribe_all-Sound connection rest _ _ h

pub subscribe_command-Keeps : Keeps Sound (writing subscribe_command)
unfolding subscribe_command
subscribe_command-Keeps [] none state w h = h
subscribe_command-Keeps [] (some connection) state w h = unfold write in h
subscribe_command-Keeps (channel ∷ rest) none state w h = h
subscribe_command-Keeps (channel ∷ rest) (some connection) state w h =
    subscribe_all-Sound connection (channel ∷ rest) state w h

leave_channel-Sound :
    (connection : Socket) (channel : Text) (state : ConnectionState) (w : World)
    → Sound w
    → Sound (leave_channel connection channel state w).1
unfolding leave_channel
leave_channel-Sound connection channel state w h =
    elim (Bool-cases (includes channel state.subscribed_channels)) [
      | inl joined ↦ rw joined h
      | inr other ↦ rw other h
    ]

unsubscribe_all-Sound :
    (connection : Socket) (channels : List Text) (state : ConnectionState) (w : World)
    → Sound w
    → Sound (unsubscribe_all connection channels state w).1
unfolding unsubscribe_all unsubscribe_one write
unsubscribe_all-Sound connection [] state w h = h
unsubscribe_all-Sound connection (channel ∷ rest) state w h =
    unsubscribe_all-Sound connection rest _ _ (leave_channel-Sound connection channel state w h)

pub unsubscribe_command-Keeps : Keeps Sound (writing unsubscribe_command)
unfolding unsubscribe_command
unsubscribe_command-Keeps [] none state w h = h
unsubscribe_command-Keeps [] (some connection) state w h = unfold write in h
unsubscribe_command-Keeps (channel ∷ rest) none state w h = h
unsubscribe_command-Keeps (channel ∷ rest) (some connection) state w h =
    unsubscribe_all-Sound connection (channel ∷ rest) state w h

-- WAIT gives out a number when it waits.
pub wait_command-Keeps : Keeps Sound (orchestration wait_command)
unfolding wait_command start_wait request_acks
wait_command-Keeps [] w h = h
wait_command-Keeps (a ∷ []) w h = h
wait_command-Keeps (a ∷ b ∷ []) w h =
    elim (Bool-cases ((length w.replicas == 0) || (w.offset == 0))) [
      | inl at_once ↦ rw at_once h
      | inr later ↦ rw later (older-Queued w.next_waiter w.queues h)
    ]
wait_command-Keeps (a ∷ b ∷ c ∷ args) w h = h

pub publish_command-Sound :
    (args : List Text) (w : World) → Sound w → Sound (publish_command args w).1
unfolding publish_command
publish_command-Sound [] w h = h
publish_command-Sound (channel ∷ []) w h = h
publish_command-Sound (channel ∷ message ∷ []) w h = h
publish_command-Sound (channel ∷ message ∷ a ∷ args) w h = h

pub save_command-Sound : (args : List Text) (w : World) → Sound w → Sound (save_command args w).1
unfolding save_command
save_command-Sound args w h = elim (Option-cases (build_rdb w.clock w.store)) [
  | inl bad ↦ rw bad h
  | inr (bytes, good) ↦ elim (Bool-cases w.disk_works) [
    | inl works ↦ rw (good, works) h
    | inr fails ↦ rw (good, fails) h
  ]
]
