-- ===== src/Blocking/Queued.antt =====
-- The queues hold a waiter only under keys that it waits for.
use diy_redis.Base.{
  ℕ, suc, ◌<◌, ◌≡◌, refl, sym, true, Option, List, [], ◌∷◌, ◌++◌, arith, All, All-append,
  if◌then◌else◌, Bool-cases, Option-cases, inl, inr,
}
use diy_redis.Js.Text.{Text, str_eq, str_eq_refl, str_eq→eq}
use diy_redis.Js.Map.{Map, lookup, includes}
use diy_redis.World.{Socket, Waiter}
use diy_redis.Blocking.Defs.{
  get_queue, set_queue, get_queue-set_queue, remove_connection, same_connection, remove_waiter,
  enqueue,
}

-- The waiter asks for the key, and its number has been given out.
abbrev pub QueuedFor : ℕ → Text → Waiter → Type 0
QueuedFor next k waiter = (includes k waiter.keys ≡ true) × (waiter.id < next)

pub record Queued (next : ℕ) (queues : Map (List Waiter)) : Type 0 where
  pub under : (k : Text) → All (QueuedFor next k) (get_queue k queues)

All-if :
    (next : ℕ) (k j : Text) (q r : List Waiter)
    → All (QueuedFor next k) q
    → All (QueuedFor next j) r
    → All (QueuedFor next j) (if str_eq k j then q else r)
All-if next k j q r hq hr = elim (Bool-cases (str_eq k j)) [
  | inl same ↦ rw (same, sym (str_eq→eq k j same)) hq
  | inr other ↦ rw other hr
]

pub set_queue-Queued :
    (next : ℕ) (k : Text) (q : List Waiter) (queues : Map (List Waiter))
    → All (QueuedFor next k) q
    → Queued next queues
    → Queued next (set_queue k q queues)
set_queue-Queued next k q queues hq h = record {
  under = λ j.
      rw (get_queue-set_queue k j q queues) (All-if next k j q (get_queue j queues) hq (h.under j));
}

remove_connection-All :
    (next : ℕ) (k : Text) (c : Option Socket) (ws : List Waiter)
    → All (QueuedFor next k) ws
    → All (QueuedFor next k) (remove_connection c ws)
unfolding remove_connection
remove_connection-All next k c [] h = h
remove_connection-All next k c (w ∷ ws) h = elim (Bool-cases (same_connection w.connection c)) [
  | inl same ↦ rw same h.1
  | inr other ↦ rw other (h.0, remove_connection-All next k c ws h.1)
]

pub remove_waiter-Queued :
    (next : ℕ) (ks : List Text) (c : Option Socket) (queues : Map (List Waiter))
    → Queued next queues
    → Queued next (remove_waiter ks c queues)
unfolding remove_waiter get_queue
remove_waiter-Queued next [] c queues h = h
remove_waiter-Queued next (k ∷ ks) c queues h = elim (Option-cases (lookup k queues)) [
  | inl gone ↦ rw gone (remove_waiter-Queued next ks c queues h)
  | inr (q, there) ↦ rw there (
      remove_waiter-Queued next ks c (set_queue k (remove_connection c q) queues) (
        set_queue-Queued next k _ queues
          (remove_connection-All next k c q (rw (get_queue, there) at (h.under k))) h))
]

append-All :
    (next : ℕ) (k : Text) (waiter : Waiter) (ws : List Waiter)
    → All (QueuedFor next k) ws
    → QueuedFor next k waiter
    → All (QueuedFor next k) (ws ++ waiter ∷ [])
append-All next k waiter ws h hw = All-append (QueuedFor next k) ws (waiter ∷ []) h (hw, tt)

-- Under each of some keys that it asks for.
pub enqueue-Queued :
    (next : ℕ) (ks : List Text) (waiter : Waiter) (queues : Map (List Waiter))
    → All (λ k. includes k waiter.keys ≡ true) ks
    → waiter.id < next
    → Queued next queues
    → Queued next (enqueue ks waiter queues)
unfolding enqueue
enqueue-Queued next [] waiter queues asked young h = h
enqueue-Queued next (k ∷ ks) waiter queues (asks, asked) young h =
    enqueue-Queued next ks waiter _ asked young
      (set_queue-Queued next k _ queues (append-All next k waiter _ (h.under k) (asks, young)) h)

longer-All :
    (k : Text) (ks js : List Text)
    → All (λ j. includes j ks ≡ true) js
    → All (λ j. includes j (k ∷ ks) ≡ true) js
unfolding includes
longer-All k ks [] h = tt
longer-All k ks (j ∷ js) (h, hs) = (rw h (ground arith), longer-All k ks js hs)

pub includes-All : (ks : List Text) → All (λ k. includes k ks ≡ true) ks
unfolding includes
includes-All [] = tt
includes-All (k ∷ ks) = (rw (str_eq_refl k) refl, longer-All k ks ks (includes-All ks))

pub older-All :
    (next : ℕ) (k : Text) (ws : List Waiter)
    → All (QueuedFor next k) ws
    → All (QueuedFor (suc next) k) ws
older-All next k [] h = tt
older-All next k (w ∷ ws) ((asks, young), hs) = ((asks, omega arith), older-All next k ws hs)
