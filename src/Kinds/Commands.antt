-- ===== src/Kinds/Commands.antt =====
-- Every command of the registry keeps the invariant.
use diy_redis.Base.{
  ◌≡◌, refl, ◌∙◌, Option, none, some, List, [], ◌∷◌, arith, Option-cases, Bool-cases, inl, inr,
}
use diy_redis.Base.Int.{ℤ, pos, negsuc}
use diy_redis.Js.Text.{Text}
use diy_redis.Js.Number.{parse_int}
use diy_redis.World.{World, Socket, write}
use diy_redis.Blocking.{Promise, settled, waiting, block_on_lists}
use diy_redis.Blpop.{blpop_command, pop_last, blpop_parsed, await_promise}
use diy_redis.Channels.{
  subscribe_all, unsubscribe_all, subscribe_command, unsubscribe_command, publish_command,
  leave_channel, unsubscribe_one, subscribe_one,
}
use diy_redis.Dispatch.{ConnectionState, stateful, replication, orchestration}
use diy_redis.Replica.{psync_command, request_acks}
use diy_redis.Rdb.{save_command, build_rdb}
use diy_redis.Transaction.{multi_command, discard_command}
use diy_redis.Wait.{wait_command, start_wait}
use diy_redis.Registry.{writing}
use diy_redis.Invariants.{Keeps}
use diy_redis.Kinds.Defs.{Kinded, HasKinds}
use diy_redis.Kinds.Elements.{block_on_lists-HasKinds}

await_promise-HasKinds :
    (p : Promise × World) (state : ConnectionState)
    → HasKinds p.1.store
    → HasKinds (await_promise p state).2.store
unfolding await_promise
await_promise-HasKinds (settled result, w) state h = h
await_promise-HasKinds (waiting n, w) state h = h

blpop_parsed-HasKinds :
    (keys : List Text) (timeout : Option ℤ) (connection : Option Socket) (state : ConnectionState)
    (w : World)
    → HasKinds w.store
    → HasKinds (blpop_parsed keys timeout connection state w).2.store
unfolding blpop_parsed
blpop_parsed-HasKinds keys none connection state w h = h
blpop_parsed-HasKinds keys (some (negsuc n)) connection state w h = h
blpop_parsed-HasKinds keys (some (pos n)) connection state w h =
    await_promise-HasKinds (block_on_lists keys n connection w) state
      (block_on_lists-HasKinds keys n connection w h)

pub blpop_command-Keeps : Keeps Kinded (stateful blpop_command)
unfolding blpop_command
blpop_command-Keeps [] connection state w h = h
blpop_command-Keeps (a ∷ []) connection state w h = h
blpop_command-Keeps (a ∷ b ∷ args) connection state w h =
    blpop_parsed-HasKinds (pop_last a (b ∷ args)).0 (parse_int (pop_last a (b ∷ args)).1) connection
      state w h

pub multi_command-Keeps : Keeps Kinded (stateful multi_command)
unfolding multi_command
multi_command-Keeps [] connection state w h = h
multi_command-Keeps (a ∷ args) connection state w h = h

pub discard_command-Keeps : Keeps Kinded (stateful discard_command)
unfolding discard_command
discard_command-Keeps [] connection state w h = elim (Bool-cases state.in_transaction) [
  | inl inside ↦ rw inside h
  | inr before ↦ rw before h
]
discard_command-Keeps (a ∷ args) connection state w h = h

pub psync_command-Keeps : Keeps Kinded (replication psync_command)
unfolding psync_command
psync_command-Keeps args none state w h = h
psync_command-Keeps args (some connection) state w h = h

store-subscribe_all :
    (connection : Socket) (channels : List Text) (state : ConnectionState) (w : World)
    → (subscribe_all connection channels state w).1.store ≡ w.store
unfolding subscribe_all subscribe_one write
store-subscribe_all connection [] state w = refl
store-subscribe_all connection (channel ∷ rest) state w = store-subscribe_all connection rest _ _

pub subscribe_command-Keeps : Keeps Kinded (writing subscribe_command)
unfolding subscribe_command
subscribe_command-Keeps [] none state w h = h
subscribe_command-Keeps [] (some connection) state w h = unfold write in h
subscribe_command-Keeps (channel ∷ rest) none state w h = h
subscribe_command-Keeps (channel ∷ rest) (some connection) state w h =
    rw (store-subscribe_all connection (channel ∷ rest) state w) h

store-leave_channel :
    (connection : Socket) (channel : Text) (state : ConnectionState) (w : World)
    → (leave_channel connection channel state w).1.store ≡ w.store
unfolding leave_channel
store-leave_channel connection channel state w = ground arith

store-unsubscribe_all :
    (connection : Socket) (channels : List Text) (state : ConnectionState) (w : World)
    → (unsubscribe_all connection channels state w).1.store ≡ w.store
unfolding unsubscribe_all unsubscribe_one write
store-unsubscribe_all connection [] state w = refl
store-unsubscribe_all connection (channel ∷ rest) state w =
    store-unsubscribe_all connection rest _ _ ∙ store-leave_channel connection channel state w

pub unsubscribe_command-Keeps : Keeps Kinded (writing unsubscribe_command)
unfolding unsubscribe_command
unsubscribe_command-Keeps [] none state w h = h
unsubscribe_command-Keeps [] (some connection) state w h = unfold write in h
unsubscribe_command-Keeps (channel ∷ rest) none state w h = h
unsubscribe_command-Keeps (channel ∷ rest) (some connection) state w h =
    rw (store-unsubscribe_all connection (channel ∷ rest) state w) h

store-wait_command : (args : List Text) (w : World) → (wait_command args w).1.store ≡ w.store
unfolding wait_command start_wait request_acks
store-wait_command [] w = refl
store-wait_command (a ∷ []) w = refl
store-wait_command (a ∷ b ∷ []) w = ground arith
store-wait_command (a ∷ b ∷ c ∷ args) w = refl

pub wait_command-Keeps : Keeps Kinded (orchestration wait_command)
wait_command-Keeps args w h = rw (store-wait_command args w) h

store-publish_command : (args : List Text) (w : World) → (publish_command args w).1.store ≡ w.store
unfolding publish_command
store-publish_command [] w = refl
store-publish_command (channel ∷ []) w = refl
store-publish_command (channel ∷ message ∷ []) w = refl
store-publish_command (channel ∷ message ∷ a ∷ args) w = refl

pub publish_command-HasKinds :
    (args : List Text) (w : World) → HasKinds w.store → HasKinds (publish_command args w).1.store
publish_command-HasKinds args w h = rw (store-publish_command args w) h

store-save_command : (args : List Text) (w : World) → (save_command args w).1.store ≡ w.store
unfolding save_command
store-save_command args w = elim (Option-cases (build_rdb w.clock w.store)) [
  | inl bad ↦ rw bad refl
  | inr (bytes, good) ↦ rw good (ground arith)
]

pub save_command-HasKinds :
    (args : List Text) (w : World) → HasKinds w.store → HasKinds (save_command args w).1.store
save_command-HasKinds args w h = rw (store-save_command args w) h
