-- ===== src/Blocking/Keeping.antt =====
-- The methods of BlockingManager keep the queues sound.
use mathlib.Core.Path.{subst}
use diy_redis.Base.{
  ℕ, suc, ◌≡◌, refl, sym, Option, none, some, List, [], ◌∷◌, arith, All, Bool-cases, Option-cases,
  inl, inr,
}
use diy_redis.Js.Text.{Text, codes, is_truthy}
use diy_redis.Js.Map.{Map}
use diy_redis.World.{Socket, World, Waiter, is_nil, propagate, queues-propagate}
use diy_redis.Blocking.Defs.{
  get_queue, set_queue, resolve, deliver, notify_queue, notify_list_push, pop_and_propagate,
  pop_first, block_on_lists, start_waiting, time_out, try_lpop, is_popped,
}
use diy_redis.Blocking.Queued.{
  QueuedFor, Queued, set_queue-Queued, remove_waiter-Queued, enqueue-Queued, includes-All,
  older-All,
}

-- The numbers and the queues, and what leaves them alone.
abbrev pub Sound : World → Type 0
Sound w = Queued w.next_waiter w.queues

pub propagate-Sound : (payload : List Text) (w : World) → Sound w → Sound (propagate payload w)
unfolding propagate
propagate-Sound payload w h = elim (Bool-cases (is_nil w.replicas)) [
  | inl alone ↦ rw alone h
  | inr replicas ↦ rw replicas h
]

pop_and_propagate-Sound : (k : Text) (w : World) → Sound w → Sound (pop_and_propagate k w).1
unfolding pop_and_propagate
pop_and_propagate-Sound k w h = elim (Bool-cases (is_popped (try_lpop k w.store).0)) [
  | inl popped ↦ rw popped (propagate-Sound (codes "LPOP" ∷ k ∷ []) _ h)
  | inr nothing ↦ rw nothing h
]

queues-pop_and_propagate : (k : Text) (w : World) → (pop_and_propagate k w).1.queues ≡ w.queues
unfolding pop_and_propagate
queues-pop_and_propagate k w = elim (Bool-cases (is_popped (try_lpop k w.store).0)) [
  | inl popped ↦ rw popped (queues-propagate (codes "LPOP" ∷ k ∷ []) _)
  | inr nothing ↦ rw nothing refl
]

resolve-Sound :
    (waiter : Waiter) (result : Option (Text × Text)) (w : World)
    → Sound w
    → Sound (resolve waiter result w)
unfolding resolve
resolve-Sound waiter result w h =
    remove_waiter-Queued w.next_waiter waiter.keys waiter.connection w.queues h

deliver-Sound :
    (k : Text) (waiter : Waiter) (queue : List Waiter) (p : Option Text × World)
    → All (QueuedFor p.1.next_waiter k) (waiter ∷ queue)
    → Sound p.1
    → Sound (deliver k waiter queue p)
unfolding deliver
deliver-Sound k waiter queue (none, w) hq h = set_queue-Queued w.next_waiter k _ w.queues hq h
deliver-Sound k waiter queue (some t, w) hq h = elim (Bool-cases (is_truthy t)) [
  | inl some_text ↦ rw some_text (resolve-Sound waiter (some (k, t)) w h)
  | inr no_text ↦ rw no_text (set_queue-Queued w.next_waiter k _ w.queues hq h)
]

next_waiter-propagate :
    (payload : List Text) (w : World) → (propagate payload w).next_waiter ≡ w.next_waiter
unfolding propagate
next_waiter-propagate payload w = ground arith

next_waiter-pop_and_propagate :
    (k : Text) (w : World) → (pop_and_propagate k w).1.next_waiter ≡ w.next_waiter
unfolding pop_and_propagate
next_waiter-pop_and_propagate k w = elim (Bool-cases (is_popped (try_lpop k w.store).0)) [
  | inl popped ↦ rw popped (next_waiter-propagate (codes "LPOP" ∷ k ∷ []) _)
  | inr nothing ↦ rw nothing refl
]

notify_queue-Sound :
    (k : Text) (queue : List Waiter) (w : World)
    → All (QueuedFor w.next_waiter k) queue
    → Sound w
    → Sound (notify_queue k queue w)
unfolding notify_queue
notify_queue-Sound k [] w hq h = h
notify_queue-Sound k (waiter ∷ queue) w (hw, hq) h =
    let w' : World = record w { queues = set_queue k queue w.queues } in
    deliver-Sound k waiter queue (pop_and_propagate k w')
      (subst (λ n. All (QueuedFor n k) (waiter ∷ queue)) (sym (next_waiter-pop_and_propagate k w'))
        (hw, hq))
      (pop_and_propagate-Sound k w' (set_queue-Queued w.next_waiter k queue w.queues hq h))

pub notify_list_push-Sound : (k : Text) (w : World) → Sound w → Sound (notify_list_push k w)
unfolding notify_list_push
notify_list_push-Sound k w h = notify_queue-Sound k (get_queue k w.queues) w (h.under k) h

pop_first-Sound : (ks : List Text) (w : World) → Sound w → Sound (pop_first ks w).1
unfolding pop_first
pop_first-Sound [] w h = h
pop_first-Sound (k ∷ ks) w h =
    let popped = pop_and_propagate-Sound k w h in
    let rest = pop_first-Sound ks (pop_and_propagate k w).1 popped in
    elim (Option-cases (pop_and_propagate k w).0) [
      | inl nothing ↦ rw (pop_first, nothing) rest
      | inr (t, there) ↦ elim (Bool-cases (is_truthy t)) [
        | inl some_text ↦ rw (pop_first, there, some_text) popped
        | inr no_text ↦ rw (pop_first, there, no_text) rest
      ]
    ]

pub older-Queued :
    (next : ℕ) (queues : Map (List Waiter)) → Queued next queues → Queued (suc next) queues
older-Queued next queues h = record {
  under = λ k. older-All next k (get_queue k queues) (h.under k);
}

start_waiting-Sound :
    (ks : List Text) (timeout : ℕ) (c : Option Socket) (w : World)
    → Sound w
    → Sound (start_waiting ks timeout c w).1
unfolding start_waiting
start_waiting-Sound ks timeout c w h =
    enqueue-Queued (suc w.next_waiter) ks (record { id = w.next_waiter; keys = ks; connection = c })
      w.queues (includes-All ks) (omega arith) (older-Queued w.next_waiter w.queues h)

pub block_on_lists-Sound :
    (ks : List Text) (timeout : ℕ) (c : Option Socket) (w : World)
    → Sound w
    → Sound (block_on_lists ks timeout c w).1
unfolding block_on_lists
block_on_lists-Sound ks timeout c w h = elim (Option-cases (pop_first ks w).0) [
  | inl nothing ↦
      rw (block_on_lists, nothing)
        (start_waiting-Sound ks timeout c (pop_first ks w).1 (pop_first-Sound ks w h))
  | inr (pair, there) ↦ rw (block_on_lists, there) (pop_first-Sound ks w h)
]

-- If the queues of BlockingManager hold a waiter only under keys that it asks for, and only waiters whose numbers have been
-- given out, then this is still so after a client has asked for lists, after a push to a list has been announced, and
-- after a timer has ended.
pub methods-Sound :
    (w : World)
    → Sound w
    → ((ks : List Text) (timeout : ℕ) (c : Option Socket) → Sound (block_on_lists ks timeout c w).1)
      × ((k : Text) → Sound (notify_list_push k w))
      × ((waiter : Waiter) → Sound (time_out waiter w))
unfolding time_out
methods-Sound w h = (
  λ ks timeout c. block_on_lists-Sound ks timeout c w h,
  λ k. notify_list_push-Sound k w h,
  λ waiter. remove_waiter-Queued w.next_waiter waiter.keys waiter.connection w.queues h,
)
