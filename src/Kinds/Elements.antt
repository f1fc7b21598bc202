-- ===== src/Kinds/Elements.antt =====
-- The list commands, and what BlockingManager.ts pops.
use mathlib.Core.List.{reverse, reverse-cons}
use diy_redis.Base.{
  if_both, ℕ, ◌≡◌, refl, false, Option, none, some, List, [], ◌∷◌, ◌++◌, arith, Bool-cases,
  Option-cases, inl, inr, append_assoc,
}
use diy_redis.Js.Text.{Text, codes, is_truthy}
use diy_redis.Js.Date.{Date}
use diy_redis.Store.{Store, json_list, list, get_value}
use diy_redis.World.{World, Waiter, Socket, propagate, store-propagate, is_nil}
use diy_redis.Blocking.{
  is_list, parse_list, try_lpop, pop_and_propagate, notify_list_push, get_queue, pop_first,
  block_on_lists, is_popped, resolve, pop_parsed, deliver, notify_queue,
}
use diy_redis.Lists.{
  Found, absent, other_type, broken, found, find_list, llen_command, lrange_command, lpop_command,
  Count, no_count, bad_count, count, push_command, Side, front, back, pushed, parse_count,
  lpop_found, lpop_counted, push_onto, push_found,
}
use diy_redis.Kinds.Defs.{HasKinds, set_value-HasKinds, store_list-HasKinds}

-- LPOP.
lpop_found-HasKinds :
    (k : Text) (c : Count) (f : Found) (s : Store) → HasKinds s → HasKinds (lpop_found k c f s).1
unfolding lpop_found
lpop_found-HasKinds k c absent s h = h
lpop_found-HasKinds k c other_type s h = h
lpop_found-HasKinds k c broken s h = h
lpop_found-HasKinds k c (found [] e) s h = h
lpop_found-HasKinds k no_count (found (t ∷ ts) e) s h = store_list-HasKinds k ts e s h
lpop_found-HasKinds k bad_count (found (t ∷ ts) e) s h = h
lpop_found-HasKinds k (count n) (found (t ∷ ts) e) s h = store_list-HasKinds k _ e s h

lpop_counted-HasKinds :
    (k : Text) (c : Count) (s : Store) → HasKinds s → HasKinds (lpop_counted k c s).1
unfolding lpop_counted
lpop_counted-HasKinds k no_count s h = lpop_found-HasKinds k no_count (find_list k s) s h
lpop_counted-HasKinds k bad_count s h = h
lpop_counted-HasKinds k (count n) s h = lpop_found-HasKinds k (count n) (find_list k s) s h

pub lpop_command-HasKinds :
    (args : List Text) (s : Store) → HasKinds s → HasKinds (lpop_command args s).1
unfolding lpop_command
lpop_command-HasKinds [] s h = h
lpop_command-HasKinds (k ∷ []) s h = lpop_counted-HasKinds k no_count s h
lpop_command-HasKinds (k ∷ n ∷ []) s h = lpop_counted-HasKinds k (parse_count n) s h
lpop_command-HasKinds (k ∷ n ∷ a ∷ args) s h = h

-- `tryLPop` and `popAndPropagate`.
pop_parsed-HasKinds :
    (k : Text) (o : Option (List Text)) (e : Option Date) (s : Store)
    → HasKinds s
    → HasKinds (pop_parsed k o e s).1
unfolding pop_parsed
pop_parsed-HasKinds k none e s h = h
pop_parsed-HasKinds k (some []) e s h = h
pop_parsed-HasKinds k (some (t ∷ ts)) e s h = store_list-HasKinds k ts e s h

abbrev Left : Option Text × Store → Type 0
Left p = HasKinds p.1

try_lpop-HasKinds : (k : Text) (s : Store) → HasKinds s → HasKinds (try_lpop k s).1
unfolding try_lpop
try_lpop-HasKinds k s h = elim (Option-cases (get_value k s)) [
  | inl gone ↦ rw gone h
  | inr (v, there) ↦ rw there (
      if_both Left (is_list v.kind) _ _
        (pop_parsed-HasKinds k (parse_list v.value) v.expiration s h) h)
]

pub propagate-HasKinds :
    (payload : List Text) (w : World) → HasKinds w.store → HasKinds (propagate payload w).store
propagate-HasKinds payload w h = rw (store-propagate payload w) h

abbrev Sound : World → Type 0
Sound w = HasKinds w.store

pop_and_propagate-HasKinds :
    (k : Text) (w : World) → HasKinds w.store → HasKinds (pop_and_propagate k w).1.store
unfolding pop_and_propagate
pop_and_propagate-HasKinds k w h =
    let left = try_lpop-HasKinds k w.store h in
    if_both Sound (is_popped (try_lpop k w.store).0) _ _
      (propagate-HasKinds (codes "LPOP" ∷ k ∷ []) _ left) left

store-deliver :
    (k : Text) (waiter : Waiter) (queue : List Waiter) (p : Option Text × World)
    → (deliver k waiter queue p).store ≡ p.1.store
unfolding deliver resolve
store-deliver k waiter queue (none, w) = refl
store-deliver k waiter queue (some t, w) = ground arith

notify_queue-HasKinds :
    (k : Text) (queue : List Waiter) (w : World)
    → HasKinds w.store
    → HasKinds (notify_queue k queue w).store
unfolding notify_queue
notify_queue-HasKinds k [] w h = h
notify_queue-HasKinds k (waiter ∷ queue) w h =
    rw (store-deliver k waiter queue) (pop_and_propagate-HasKinds k _ h)

pub notify_list_push-HasKinds :
    (k : Text) (w : World) → HasKinds w.store → HasKinds (notify_list_push k w).store
unfolding notify_list_push
notify_list_push-HasKinds k w h = notify_queue-HasKinds k (get_queue k w.queues) w h

-- RPUSH and LPUSH.
some-append : (xs : List Text) (y : Text) (ys : List Text) → is_nil (xs ++ y ∷ ys) ≡ false
some-append [] y ys = refl
some-append (x ∷ xs) y ys = refl

some_pushed : (side : Side) (t : Text) (ts l : List Text) → is_nil (pushed side (t ∷ ts) l) ≡ false
unfolding pushed
some_pushed back t ts l = some-append l t ts
some_pushed front t ts l =
    rw (reverse-cons t ts, append_assoc (reverse ts) (t ∷ []) l) (some-append (reverse ts) t l)

push_onto-HasKinds :
    (k : Text) (ts : List Text) (e : Option Date) (w : World)
    → is_nil ts ≡ false
    → HasKinds w.store
    → HasKinds (push_onto k ts e w).1.store
unfolding push_onto
push_onto-HasKinds k ts e w some_element h =
    notify_list_push-HasKinds k _
      (set_value-HasKinds k (json_list ts) list e w.store (rw some_element refl) h)

push_found-HasKinds :
    (side : Side) (k t : Text) (ts : List Text) (f : Found) (w : World)
    → HasKinds w.store
    → HasKinds (push_found side k (t ∷ ts) f w).1.store
unfolding push_found
push_found-HasKinds side k t ts absent w h =
    push_onto-HasKinds k (pushed side (t ∷ ts) []) none w (some_pushed side t ts []) h
push_found-HasKinds side k t ts other_type w h = h
push_found-HasKinds side k t ts broken w h = h
push_found-HasKinds side k t ts (found l e) w h =
    push_onto-HasKinds k (pushed side (t ∷ ts) l) e w (some_pushed side t ts l) h

pub push_command-HasKinds :
    (side : Side) (args : List Text) (w : World)
    → HasKinds w.store
    → HasKinds (push_command side args w).1.store
unfolding push_command
push_command-HasKinds side [] w h = h
push_command-HasKinds side (k ∷ []) w h = h
push_command-HasKinds side (k ∷ t ∷ ts) w h =
    push_found-HasKinds side k t ts (find_list k w.store) w h

-- `blockOnLists`.
pop_first-HasKinds :
    (ks : List Text) (w : World) → HasKinds w.store → HasKinds (pop_first ks w).1.store
unfolding pop_first
pop_first-HasKinds [] w h = h
pop_first-HasKinds (k ∷ ks) w h =
    let popped = pop_and_propagate-HasKinds k w h in
    let rest = pop_first-HasKinds ks (pop_and_propagate k w).1 popped in
    elim (Option-cases (pop_and_propagate k w).0) [
      | inl nothing ↦ rw (pop_first, nothing) rest
      | inr (t, there) ↦ elim (Bool-cases (is_truthy t)) [
        | inl some_text ↦ rw (pop_first, there, some_text) popped
        | inr no_text ↦ rw (pop_first, there, no_text) rest
      ]
    ]

pub block_on_lists-HasKinds :
    (ks : List Text) (timeout : ℕ) (c : Option Socket) (w : World)
    → HasKinds w.store
    → HasKinds (block_on_lists ks timeout c w).1.store
unfolding block_on_lists
block_on_lists-HasKinds ks timeout c w h = elim (Option-cases (pop_first ks w).0) [
  | inl nothing ↦ rw (block_on_lists, nothing) (pop_first-HasKinds ks w h)
  | inr (pair, there) ↦ rw (block_on_lists, there) (pop_first-HasKinds ks w h)
]

-- LLEN and LRANGE write nothing.
pub llen_command-HasKinds :
    (args : List Text) (s : Store) → HasKinds s → HasKinds (llen_command args s).1
unfolding llen_command
llen_command-HasKinds [] s h = h
llen_command-HasKinds (k ∷ []) s h = h
llen_command-HasKinds (k ∷ a ∷ args) s h = h

pub lrange_command-HasKinds :
    (args : List Text) (s : Store) → HasKinds s → HasKinds (lrange_command args s).1
unfolding lrange_command
lrange_command-HasKinds [] s h = h
lrange_command-HasKinds (k ∷ []) s h = h
lrange_command-HasKinds (k ∷ a ∷ []) s h = h
lrange_command-HasKinds (k ∷ a ∷ b ∷ []) s h = h
lrange_command-HasKinds (k ∷ a ∷ b ∷ c ∷ args) s h = h
