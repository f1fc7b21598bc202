-- ===== src/Lists/Forgotten.antt =====
-- Two clients that wait on one connection.
use diy_redis.Base.{◌≡◌, refl, true, Option, none, some, List, [], ◌∷◌, ◌++◌, arith}
use diy_redis.Js.Text.{Text, codes, str_eq_refl, is_truthy}
use diy_redis.Js.Map.{Map, lookup-insert}
use diy_redis.Js.Date.{Date}
use diy_redis.World.{Socket, World, Waiter, resolved-propagate, queues-propagate}
use diy_redis.Blocking.{
  get_queue, get_queue-set_queue, set_queue, resolve, remove_waiter, remove_connection,
  same_connection,
}
use diy_redis.Lists.Defs.{find_list, Side, pushed, push_command}
use diy_redis.Lists.Pushing.{Holds, notified, popped_world}

same_itself : (c : Option Socket) → same_connection c c ≡ true
same_itself none = refl
same_itself (some c) = ground arith

get_queue-own :
    (k : Text) (queue : List Waiter) (queues : Map (List Waiter))
    → get_queue k (set_queue k queue queues) ≡ queue
get_queue-own k queue queues = rw (get_queue-set_queue k k queue queues, str_eq_refl k) refl

-- `removeWaiter` of a waiter that is off the queue takes the next one of its connection.
remove_waiter-next :
    (k : Text) (c : Option Socket) (second : Waiter) (queue : List Waiter)
    (queues : Map (List Waiter))
    → second.connection ≡ c
    → get_queue k (remove_waiter (k ∷ []) c (set_queue k (second ∷ queue) queues)) ≡ queue
unfolding remove_waiter remove_connection set_queue
remove_waiter-next k c second queue queues same =
    rw (lookup-insert k k (second ∷ queue) queues, str_eq_refl k, same, same_itself c)
      (get_queue-own k queue _)

module _ (side : Side) (k t : Text) (ts l : List Text) (e : Option Date) (w : World) (x : Text)
    (rest : List Text) (waiter second : Waiter) (queue : List Waiter) where
  -- Two waiters of one connection stand first in the queue of a list, the first of them for that list alone, and a push
  -- brings an element that is not empty. The first one gets it, and the second one, whom nobody has answered,
  -- is off the queue as well.
  pub push_command-forgets :
      Holds (find_list k w.store) l e
      → get_queue k w.queues ≡ waiter ∷ second ∷ queue
      → pushed side (t ∷ ts) l ≡ x ∷ rest
      → is_truthy x ≡ true
      → waiter.keys ≡ k ∷ []
      → second.connection ≡ waiter.connection
      → ((push_command side (k ∷ t ∷ ts) w).1.resolved
          ≡ w.resolved ++ (waiter.id, some (k, x)) ∷ [])
        × (get_queue k (push_command side (k ∷ t ∷ ts) w).1.queues ≡ queue)
  push_command-forgets h waits first some_text alone same =
      let popped = popped_world k x rest e (second ∷ queue) w in
      rw (notified side k t ts l e w x rest waiter (second ∷ queue) h waits first some_text) (
        unfold resolve in
        (
          rw (resolved-propagate (codes "LPOP" ∷ k ∷ []) popped) refl,
          rw (queues-propagate (codes "LPOP" ∷ k ∷ []) popped, alone)
              (remove_waiter-next k waiter.connection second queue w.queues same),
        ))
