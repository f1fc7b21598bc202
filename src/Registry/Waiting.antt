-- ===== src/Registry/Waiting.antt =====
-- WAIT and the offsets that answer it, through the dispatcher.
use diy_redis.Base.{ℕ, suc, false, some, List, [], ◌∷◌}
use diy_redis.Base.Int.{ℤ, pos}
use diy_redis.Js.Text.{Text, codes}
use diy_redis.Js.Number.{decimal}
use diy_redis.World.{Socket, World}
use diy_redis.Dispatch.{ConnectionState, Answer, Commands, dispatch}
use diy_redis.Replica.{ack_words}
use diy_redis.Wait.Counting.{reached}
use diy_redis.Settings.{Settings}
use diy_redis.Registry.Defs.{Engine, command_map}

-- REPLCONF ACK from a connection, whose state does not matter, and with the offset of a replica.
pub record Ack : Type 0 where
  pub connection : Socket
  pub state : ConnectionState
  pub offset : ℕ

pub dispatch_acks : Commands → List Ack → World → World
dispatch_acks commands [] w = w
dispatch_acks commands (a ∷ acks) w =
    dispatch_acks commands acks
      (dispatch commands (some a.connection) (ack_words (pos a.offset)) a.state false w).2

pub offsets_of : List Ack → List ℤ
offsets_of [] = []
offsets_of (a ∷ acks) = pos a.offset ∷ offsets_of acks

module _ (engine : Engine) (settings : Settings) (required : ℕ) (timeout : Text) (acks : List Ack)
    (connection : Socket) (state : ConnectionState) (w : World) where
  abbrev pub commands : Commands
  commands = command_map 1 engine settings

  abbrev pub wait_words : List Text
  wait_words = codes "WAIT" ∷ decimal (suc required) ∷ timeout ∷ []

  abbrev pub served : Answer × ConnectionState × World
  served = dispatch commands (some connection) wait_words state false w

  abbrev pub acknowledged : World
  acknowledged = dispatch_acks commands acks served.2

  abbrev pub in_time : ℕ
  in_time = reached w.offset (offsets_of acks)
