-- ===== src/Lists/Pushing.antt =====
-- RPushCommand.ts and LPushCommand.ts, without and with a client that waits for the list.
use mathlib.Core.List.{reverse, reverse-cons}
use diy_redis.Base.{
  suc, ◌+◌, ◌≡◌, refl, ◌⊎◌, Bool, true, false, Option, none, some, List, [], ◌∷◌, ◌++◌, arith,
  length, length-append, if◌then◌else◌, inl, inr,
}
use diy_redis.Base.Int.{pos}
use diy_redis.Js.Text.{Text, codes, str_eq, str_eq_refl, is_truthy}
use diy_redis.Js.Date.{Date}
use diy_redis.Store.{StoreValue, Store, json_list, list, get_value, set_value, get_value-set_value}
use diy_redis.Resp.Encode.{simple_int}
use diy_redis.World.{
  World, Waiter, propagate, resolved-propagate, store-propagate, sent-propagate_other,
}
use diy_redis.Blocking.{
  get_queue, set_queue, notify_list_push, pop_and_propagate, try_lpop, store_list, resolve,
}
use diy_redis.Lists.Defs.{Found, absent, found, find_list, Side, front, back, pushed, push_command}
use diy_redis.Lists.Popping.{held_value, get_value-store_list}

length-reverse {ℓ} : {A : Type ℓ} (xs : List A) → length (reverse xs) ≡ length xs
length-reverse [] = refl
length-reverse (x ∷ xs) =
    rw (reverse-cons x xs) (omega (arith, length-append (reverse xs) (x ∷ []), length-reverse xs))

if_if {ℓ} :
    {A : Type ℓ} (b : Bool) (x y z : A)
    → (if b then x else (if b then y else z)) ≡ (if b then x else z)
if_if true x y z = refl
if_if false x y z = refl

-- A key holds the list `l`, or no key stands for the empty list.
abbrev pub Holds : Found → List Text → Option Date → Type 0
Holds f l e = (f ≡ found l e) ⊎ ((f ≡ absent) × (l ≡ []) × (e ≡ none))

-- The store behind a push and the pop of the first element, and the world with the waiter off its queue.
abbrev pub popped_store : Text → Text → List Text → Option Date → World → Store
popped_store k x rest e w = store_list k rest e (set_value k (json_list (x ∷ rest)) list e w.store)

abbrev pub popped_world : Text → Text → List Text → Option Date → List Waiter → World → World
popped_world k x rest e queue w = record w {
  store = popped_store k x rest e w;
  queues = set_queue k queue w.queues;
}

module _ (side : Side) (k t : Text) (ts l : List Text) (e : Option Date) (w : World) where
  stored : World
  stored = record w { store = set_value k (json_list (pushed side (t ∷ ts) l)) list e w.store }

  -- The list with the elements, under the old expiration.
  abbrev pub pushed_value : StoreValue
  pushed_value = record { value = json_list (pushed side (t ∷ ts) l); kind = list; expiration = e }

  push_command-stored :
      Holds (find_list k w.store) l e
      → push_command side (k ∷ t ∷ ts) w
        ≡ (simple_int (pos (length (pushed side (t ∷ ts) l))), notify_list_push k stored)
  unfolding push_command stored
  push_command-stored (inl there) = rw there refl
  push_command-stored (inr (gone, empty, never)) = rw (gone, empty, never) refl

  length-pushed : length (pushed side (t ∷ ts) l) ≡ length l + suc (length ts)
  unfolding pushed
  length-pushed = side_length side
    where
      side_length : (d : Side) → length (pushed d (t ∷ ts) l) ≡ length l + suc (length ts)
      side_length back = length-append l (t ∷ ts)
      side_length front =
          omega (arith, length-append (reverse (t ∷ ts)) l, length-reverse {0} (t ∷ ts))

  pub push_reply :
      Holds (find_list k w.store) l e
      → (push_command side (k ∷ t ∷ ts) w).0 ≡ simple_int (pos (length l + suc (length ts)))
  push_reply h = rw (push_command-stored h, length-pushed) refl

  -- The execute methods of RPUSH and LPUSH with no client waiting: the reply is the new length, the key holds the list with
  -- the elements at its back or, in reverse, at its front, under the old expiration; every other key, of whatever type,
  -- holds what it held. The method itself sends nothing to the replicas; the dispatcher's sending comes behind it.
  pub push_command-unwatched :
      Holds (find_list k w.store) l e
      → get_queue k w.queues ≡ []
      → ((push_command side (k ∷ t ∷ ts) w).0 ≡ simple_int (pos (length l + suc (length ts))))
        × ((j : Text)
            → get_value j (push_command side (k ∷ t ∷ ts) w).1.store
              ≡ (if str_eq k j then some pushed_value else get_value j w.store))
        × ((push_command side (k ∷ t ∷ ts) w).1.sent ≡ w.sent)
  unfolding notify_list_push stored
  push_command-unwatched h quiet = (
    push_reply h,
    λ j. rw (push_command-stored h, quiet) (get_value-set_value k j _ _ e w.store),
    rw (push_command-stored h, quiet) refl,
  )

  module _ (x : Text) (rest : List Text) (waiter : Waiter) (queue : List Waiter)
      (h : Holds (find_list k w.store) l e) (waits : get_queue k w.queues ≡ waiter ∷ queue)
      (first : pushed side (t ∷ ts) l ≡ x ∷ rest) where
    try_lpop-stored :
        try_lpop k (set_value k (json_list (x ∷ rest)) list e w.store)
        ≡ (some x, (popped_store k x rest e w))
    unfolding try_lpop
    try_lpop-stored = rw (get_value-set_value, str_eq_refl k) refl

    -- The push takes the first element of the list off again and hands it to the client that has waited
    -- longest; the reply still counts it. The replicas are sent the LPOP.
    pub notified :
        is_truthy x ≡ true
        → (push_command side (k ∷ t ∷ ts) w).1
          ≡ resolve waiter
              (some (k, x))
              (propagate (codes "LPOP" ∷ k ∷ []) (popped_world k x rest e queue w))
    unfolding notify_list_push stored pop_and_propagate
    notified some_text = rw (push_command-stored h, waits, first, try_lpop-stored, some_text) refl

    popped_values :
        (j : Text)
        → get_value j (popped_store k x rest e w)
          ≡ (if str_eq k j then held_value rest e else get_value j w.store)
    popped_values j =
        rw
          (
            get_value-store_list k j rest e (set_value k (json_list (x ∷ rest)) list e w.store),
            get_value-set_value k j (json_list (x ∷ rest)) list e w.store,
          )
          (if_if (str_eq k j) _ _ _)

    -- The execute methods of RPUSH and LPUSH with clients waiting and a first element that is not empty: the client that
    -- has waited longest gets that element; the key keeps the rest, or is gone if there is none; every other key, of
    -- whatever type, holds what it held; the reply counts all elements. The method itself sends the replicas one LPOP,
    -- and what the dispatcher sends of the push comes behind it.
    pub push_command-hands_over :
        is_truthy x ≡ true
        → ((push_command side (k ∷ t ∷ ts) w).0 ≡ simple_int (pos (length l + suc (length ts))))
          × ((push_command side (k ∷ t ∷ ts) w).1.resolved
              ≡ w.resolved ++ (waiter.id, some (k, x)) ∷ [])
          × ((j : Text)
              → get_value j (push_command side (k ∷ t ∷ ts) w).1.store
                ≡ (if str_eq k j then held_value rest e else get_value j w.store))
          × ((push_command side (k ∷ t ∷ ts) w).1.sent ≡ (propagate (codes "LPOP" ∷ k ∷ []) w).sent)
    push_command-hands_over some_text = (
      push_reply h,
      rw (notified some_text) (
          unfold resolve in
          rw (resolved-propagate (codes "LPOP" ∷ k ∷ []) (popped_world k x rest e queue w)) (refl)),
      λ j. rw (notified some_text) (
          unfold resolve in
          rw (store-propagate (codes "LPOP" ∷ k ∷ []) (popped_world k x rest e queue w))
            (popped_values j)),
      rw (notified some_text) (
          unfold resolve in
          sent-propagate_other (codes "LPOP" ∷ k ∷ []) w (popped_store k x rest e w)
            (set_queue k queue w.queues)),
    )
