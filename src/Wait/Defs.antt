-- ===== src/Wait/Defs.antt =====
-- WaitCommand.ts: the command and the timer. The listener for "ack" is on_ack of World.Listeners.
use diy_redis.Base.{ℕ, suc, ◌||◌, Option, none, some, List, [], ◌∷◌, ◌++◌, ◌==◌, if◌then◌else◌}
use diy_redis.Base.Int.{ℤ, pos}
use diy_redis.Js.Text.{Text, codes}
use diy_redis.Js.Number.{parse_int}
use diy_redis.Resp.Encode.{simple_error_response, simple_int}
use diy_redis.World.{World, Pending, Waits, clear_timer, get_replica_count, get_master_offset}
use diy_redis.Dispatch.{Answer, replied, suspended}
use diy_redis.Replica.{request_acks}

-- The promise, with its listener and its timer.
unfoldable pub start_wait : Option ℤ → World → Answer × World
start_wait required w = (
  suspended w.next_waiter,
  record w {
    waits =
        w.waits
        ++ (
          w.next_waiter,
          record {
            required_replicas = required;
            master_offset = get_master_offset w;
            ack_count = 0;
          },
        )
          ∷ [];
    timers = w.next_waiter ∷ w.timers;
    next_waiter = suc w.next_waiter;
  },
)

unfoldable pub wait_command : List Text → World → Answer × World
unfolding start_wait
wait_command (a ∷ b ∷ []) w =
    if (get_replica_count w == 0) || (get_master_offset w == 0)
    then (replied (some (simple_int (pos (get_replica_count w)))), w)
    else start_wait (parse_int a) (request_acks w)
wait_command args w = (
  replied (some (simple_error_response (codes "wrong number of arguments for 'wait' command"))),
  w,
)

-- The listener of a promise, and the others.
unfoldable pub find_wait : ℕ → Waits → Option Pending
find_wait n [] = none
find_wait n ((m, p) ∷ waits) = if m == n then some p else find_wait n waits

unfoldable pub remove_wait : ℕ → Waits → Waits
remove_wait n [] = []
remove_wait n ((m, p) ∷ waits) =
    let rest = remove_wait n waits in if m == n then rest else (m, p) ∷ rest

unfoldable pub timed_out : ℕ → Option Pending → World → World
timed_out n none w = w
timed_out n (some p) w = record w {
  waits = remove_wait n w.waits;
  wait_answers = w.wait_answers ++ (n, simple_int (pos p.ack_count)) ∷ [];
  timers = clear_timer n w.timers;
}

-- The timer of a promise runs out.
unfoldable pub on_timeout : ℕ → World → World
unfolding timed_out find_wait remove_wait
on_timeout n w = timed_out n (find_wait n w.waits) w
