-- ===== src/Blpop/Waking.antt =====
-- BLPOP on a key that is not held, and the push that wakes it.
use diy_redis.Base.{
  ℕ, suc, ◌≡◌, refl, true, Option, none, some, [], ◌∷◌, ◌++◌, if◌then◌else◌, inr, ltb,
}
use diy_redis.Js.Text.{Text, str_eq, str_eq_refl, is_truthy}
use diy_redis.Js.Number.{decimal, parse_int-decimal}
use diy_redis.Store.{get_value}
use diy_redis.World.{Socket, Waiter, World}
use diy_redis.Blocking.{
  waiting, block_on_lists, pop_first, pop_and_propagate, try_lpop, enqueue, get_queue, set_queue,
  get_queue-set_queue,
}
use diy_redis.Lists.{Side, front, back, find_list, pushed, push_command}
use diy_redis.Lists.Pushing.{push_command-hands_over}
use diy_redis.Dispatch.{ConnectionState, suspended}
use diy_redis.Blpop.Defs.{blpop_command, pop_last}

abbrev waiter_of : Text → Option Socket → World → Waiter
waiter_of k connection w = record { id = w.next_waiter; keys = k ∷ []; connection = connection }

-- The world behind a BLPOP that waits for the key `k`.
abbrev pub waiting_world : Text → ℕ → Option Socket → World → World
waiting_world k n connection w = record w {
  queues = set_queue k (get_queue k w.queues ++ waiter_of k connection w ∷ []) w.queues;
  timers = if ltb 0 n then w.next_waiter ∷ w.timers else w.timers;
  next_waiter = suc w.next_waiter;
}

nothing_popped :
    (k : Text) (w : World) → get_value k w.store ≡ none → pop_and_propagate k w ≡ (none, w)
unfolding pop_and_propagate try_lpop
nothing_popped k w gone = rw gone refl

nothing_first :
    (k : Text) (w : World) → get_value k w.store ≡ none → pop_first (k ∷ []) w ≡ (none, w)
unfolding pop_first
nothing_first k w gone = let popped = nothing_popped k w gone in rw (pop_first, popped, popped) refl

block_on_lists-waits :
    (k : Text) (n : ℕ) (connection : Option Socket) (w : World)
    → get_value k w.store ≡ none
    → block_on_lists (k ∷ []) n connection w
      ≡ (waiting w.next_waiter, waiting_world k n connection w)
unfolding block_on_lists enqueue
block_on_lists-waits k n connection w gone =
    let popped = nothing_first k w gone in rw (block_on_lists, popped, popped) refl

blpop_command-waits :
    (k : Text) (n : ℕ) (connection : Option Socket) (state : ConnectionState) (w : World)
    → get_value k w.store ≡ none
    → blpop_command (k ∷ decimal n ∷ []) connection state w
      ≡ (suspended w.next_waiter, state, waiting_world k n connection w)
unfolding blpop_command pop_last
blpop_command-waits k n connection state w gone =
    rw (parse_int-decimal n, block_on_lists-waits k n connection w gone) refl

-- BLPOP of one connection on a key that is not held and that nobody waits for, and then a push of one
-- element that is not empty: BLPOP waits under a number that is resolved by the
-- push, with the key and the element, and the key is not held afterwards.
pub blpop_command-wakes :
    (side : Side) (k t : Text) (n : ℕ) (connection : Option Socket) (state : ConnectionState)
    (w : World)
    → get_value k w.store ≡ none
    → get_queue k w.queues ≡ []
    → is_truthy t ≡ true
    → (id : ℕ) × (behind : World) × (blpop_command (k ∷ decimal n ∷ []) connection state w
        ≡ (suspended id, state, behind))
      × ((push_command side (k ∷ t ∷ []) behind).1.resolved ≡ w.resolved ++ (id, some (k, t)) ∷ [])
      × ((j : Text)
          → get_value j (push_command side (k ∷ t ∷ []) behind).1.store
            ≡ (if str_eq k j then none else get_value j w.store))
unfolding find_list pushed
blpop_command-wakes side k t n connection state w gone quiet some_text =
    let behind = waiting_world k n connection w in
    let handed =
      push_command-hands_over side k t [] [] none behind t [] (waiter_of k connection w) []
        (inr (rw gone refl, refl, refl)) (rw (get_queue-set_queue, str_eq_refl k, quiet) refl)
        (first side) some_text in
    (w.next_waiter, behind, blpop_command-waits k n connection state w gone, handed.1, handed.2)
  where
    first : (d : Side) → pushed d (t ∷ []) [] ≡ t ∷ []
    first front = refl
    first back = refl
