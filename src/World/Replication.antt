-- ===== src/World/Replication.antt =====
-- replication/ReplicationManager.ts: `propagate` over the replicas of config.ts.
use diy_redis.Base.{
  arith, ℕ, ◌+◌, ◌≡◌, Bool, true, false, Option, none, some, List, [], ◌∷◌, ◌++◌, ◌==◌, length,
  if◌then◌else◌,
}
use diy_redis.Base.Int.{ℤ}
use diy_redis.Js.Text.{Text}
use diy_redis.Js.Utf8.{Bytes, utf8_encode}
use diy_redis.Js.Map.{Map}
use diy_redis.Store.{Store}
use diy_redis.Resp.Encode.{to_resp_array}
use diy_redis.World.Executions.{Paused}
use diy_redis.World.Listeners.{Waits, emit_ack}

-- A listener for "new-entry" that XreadCommand.ts has added: the promise it belongs to, `streamKeys` and
-- `resolvedStreamIds`.
pub record Reader : Type 0 where
  pub promise : ℕ
  pub stream_keys : List Text
  pub start_ids : List Text

-- A socket is known by a number.
abbrev pub Socket : Type 0
Socket = ℕ

-- `WaitingClient`. The object's identity is `id`; a command from the master has no connection.
pub record Waiter : Type 0 where
  pub id : ℕ
  pub keys : List Text
  pub connection : Option Socket

abbrev pub Resolution : Type 0
Resolution = ℕ × Option (Text × Text)

pub record World : Type 0 where
  -- `Date.now()`, in milliseconds
  pub clock : ℕ
  pub store : Store
  -- `waitingQueues`, the timers that are set, and the promises that were resolved, oldest first
  pub queues : Map (List Waiter)
  pub timers : List ℕ
  pub resolved : List Resolution
  pub next_waiter : ℕ
  -- the listeners of StreamEventManager.ts, oldest first, and the promises of XREAD that were resolved
  pub readers : List Reader
  pub read_answers : List (ℕ × Text)
  -- `serverInfo.replicas` and `serverInfo.master_repl_offset`
  pub replicas : List Socket
  pub offset : ℕ
  -- `socket.writable`, and what was written to the sockets, oldest first
  pub writable : Socket → Bool
  pub sent : List (Socket × Bytes)
  -- `channelSubscriptions` of SubscriptionManager.ts
  pub channels : Map (List Socket)
  -- the file that `serverInfo.dir` and `serverInfo.dbfilename` name, and whether it can be written
  pub rdb_file : Option Bytes
  pub disk_works : Bool
  -- the listeners of `waitAckEmitter`, oldest first, and the promises of WAIT that were resolved
  pub waits : Waits
  pub wait_answers : List (ℕ × Text)
  -- every EXEC that waits for a promise
  pub executions : List Paused

-- `getReplicaCount` and `getMasterOffset`
abbrev pub get_replica_count : World → ℕ
get_replica_count w = length w.replicas

abbrev pub get_master_offset : World → ℕ
get_master_offset w = w.offset

-- connection.write(response)
unfoldable pub write : Socket → Text → World → World
write connection response w = record w { sent = w.sent ++ (connection, utf8_encode response) ∷ [] }

unfoldable pub write_writable : (Socket → Bool) → List Socket → Bytes → List (Socket × Bytes)
write_writable writable [] bytes = []
write_writable writable (r ∷ rs) bytes =
    let rest = write_writable writable rs bytes in if writable r then (r, bytes) ∷ rest else rest

abbrev pub is_nil {ℓ} : {A : Type ℓ} → List A → Bool
is_nil [] = true
is_nil (x ∷ xs) = false

-- clearTimeout
unfoldable pub clear_timer : ℕ → List ℕ → List ℕ
clear_timer i [] = []
clear_timer i (j ∷ js) = let rest = clear_timer i js in if i == j then rest else j ∷ rest

unfoldable pub clear_timers : List (ℕ × Text) → List ℕ → List ℕ
unfolding clear_timer
clear_timers [] timers = timers
clear_timers ((n, reply) ∷ answers) timers = clear_timers answers (clear_timer n timers)

-- `receiveAck(offset)`; no comparison of a listener holds for NaN.
unfoldable pub receive_ack : Option ℤ → World → World
unfolding clear_timers
receive_ack none w = w
receive_ack (some offset) w =
    let (waits, answers) = emit_ack offset w.waits in
    record w {
      waits = waits;
      wait_answers = w.wait_answers ++ answers;
      timers = clear_timers answers w.timers;
    }

-- `propagate(payload)`
unfoldable pub propagate : List Text → World → World
unfolding write_writable
propagate payload w =
    let bytes = utf8_encode (to_resp_array payload) in
    if is_nil w.replicas then w else record w {
      sent = w.sent ++ write_writable w.writable w.replicas bytes;
      offset = w.offset + length bytes;
    }

-- What `propagate` leaves alone.
module _ (payload : List Text) (w : World) where
  pub store-propagate : (propagate payload w).store ≡ w.store
  unfolding propagate
  store-propagate = ground arith

  pub resolved-propagate : (propagate payload w).resolved ≡ w.resolved
  unfolding propagate
  resolved-propagate = ground arith

  pub queues-propagate : (propagate payload w).queues ≡ w.queues
  unfolding propagate
  queues-propagate = ground arith

  pub sent-propagate_other :
      (store : Store) (queues : Map (List Waiter))
      → (propagate payload (record w { store = store; queues = queues })).sent
        ≡ (propagate payload w).sent
  unfolding propagate
  sent-propagate_other store queues = ground arith
