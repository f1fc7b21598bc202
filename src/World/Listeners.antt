-- ===== src/World/Listeners.antt =====
-- The listener for "ack" of WaitCommand.ts: what it refers to, and what it does with an offset.
use diy_redis.Base.{ℕ, suc, Bool, false, Option, none, some, List, [], ◌∷◌, if◌then◌else◌}
use diy_redis.Base.Int.{ℤ, pos, leb_ℤ}
use diy_redis.Js.Text.{Text}
use diy_redis.Resp.Encode.{simple_int}

-- `requiredReplicas`, NaN as `none`, `masterOffset`, and `ackCount`.
pub record Pending : Type 0 where
  pub required_replicas : Option ℤ
  pub master_offset : ℕ
  pub ack_count : ℕ

pub data WaitState : Type 0 where
  pending : Pending → WaitState
  answered : Text → WaitState

-- `ackCount >= requiredReplicas`, which fails for NaN.
abbrev enough : ℕ → Option ℤ → Bool
enough n none = false
enough n (some required) = leb_ℤ required (pos n)

-- `onAckReceived`
unfoldable pub on_ack : ℤ → Pending → WaitState
on_ack offset p =
    if leb_ℤ (pos p.master_offset) offset
    then if enough (suc p.ack_count) p.required_replicas
      then answered (simple_int (pos (suc p.ack_count)))
      else pending (record p { ack_count = suc p.ack_count })
    else pending p

-- The listeners that there are, each under the number of its promise.
abbrev pub Waits : Type 0
Waits = List (ℕ × Pending)

abbrev pub keep_or_answer : ℕ → WaitState → Waits × List (ℕ × Text) → Waits × List (ℕ × Text)
keep_or_answer n (pending p) (waits, answers) = ((n, p) ∷ waits, answers)
keep_or_answer n (answered reply) (waits, answers) = (waits, (n, reply) ∷ answers)

-- `emit("ack", offset)`: the listeners that stay, and the promises that are resolved, in the listeners' order.
unfoldable pub emit_ack : ℤ → Waits → Waits × List (ℕ × Text)
emit_ack offset [] = ([], [])
emit_ack offset ((n, p) ∷ waits) = keep_or_answer n (on_ack offset p) (emit_ack offset waits)
