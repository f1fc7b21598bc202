-- ===== src/Tests/Elements.antt =====
-- The list commands at concrete inputs.
use diy_redis.Base.{
  ℕ, suc, ◌+◌, ◌≡◌, refl, inr, none, some, List, [], ◌∷◌, ◌++◌, min, length, get_elem?, arith,
  if◌then◌else◌, ltb,
}
use diy_redis.Base.Int.{pos, negsuc}
use diy_redis.Js.Text.{Text, codes, str_eq}
use diy_redis.Js.Number.{decimal, decimal_ℤ}
use diy_redis.Js.Map.{lookup}
use diy_redis.Store.{get_value}
use diy_redis.Resp.Encode.{simple_int, to_resp_array}
use diy_redis.World.{propagate}
use diy_redis.Blocking.{get_queue}
use diy_redis.Lists.{
  found, absent, find_list, back, front, pushed, push_command, lpop_command, lrange_command,
}
use diy_redis.Lists.Pushing.{pushed_value, push_command-unwatched, push_command-hands_over}
use diy_redis.Lists.Popping.{held_value, lpop_command-count}
use diy_redis.Lists.Ranges.{lrange_command-places, first_place, places_to}
use diy_redis.Tests.Data.{key, list_store, quiet_world, watched_world, first_waiter}

list_held : find_list key list_store ≡ found (codes "a" ∷ codes "b" ∷ codes "c" ∷ []) none
unfolding find_list get_value lookup str_eq
list_held = refl

pub nothing_held : find_list key quiet_world.store ≡ absent
unfolding find_list get_value lookup
nothing_held = refl

pub no_waiter : get_queue key quiet_world.queues ≡ []
unfolding get_queue lookup
no_waiter = refl

pub one_waiter : get_queue key watched_world.queues ≡ first_waiter ∷ []
unfolding get_queue lookup str_eq
one_waiter = refl

lpop_command-count_example :
    (taken left : List Text) × ((lpop_command (key ∷ decimal 2 ∷ []) list_store).0
      ≡ to_resp_array taken)
    × ((j : Text)
        → get_value j (lpop_command (key ∷ decimal 2 ∷ []) list_store).1
          ≡ (if str_eq key j then held_value left none else get_value j list_store))
    × (taken ++ left ≡ codes "a" ∷ codes "b" ∷ codes "c" ∷ [])
    × (length taken ≡ min 2 3)
lpop_command-count_example =
    lpop_command-count key 2 (codes "a") (codes "b" ∷ codes "c" ∷ []) none list_store list_held

lrange_command-places_example :
    (range : List Text) × (lrange_command
        (key ∷ decimal_ℤ (pos 1) ∷ decimal_ℤ (negsuc 0) ∷ [])
        list_store
      ≡ (to_resp_array range, list_store))
    × ((i : ℕ)
        → get_elem? range i ≡ (
            if ltb (first_place 3 (pos 1) + i) (places_to 3 (negsuc 0))
            then get_elem? (codes "a" ∷ codes "b" ∷ codes "c" ∷ []) (first_place 3 (pos 1) + i)
            else none))
lrange_command-places_example =
    lrange_command-places key (pos 1) (negsuc 0) (codes "a" ∷ codes "b" ∷ codes "c" ∷ []) none
      list_store list_held (omega arith)

push_command-unwatched_example :
    ((push_command back (key ∷ codes "a" ∷ codes "b" ∷ []) quiet_world).0
      ≡ simple_int (pos (0 + suc 1)))
    × ((j : Text)
        → get_value j (push_command back (key ∷ codes "a" ∷ codes "b" ∷ []) quiet_world).1.store ≡ (
            if str_eq key j
            then some (pushed_value back key (codes "a") (codes "b" ∷ []) [] none quiet_world)
            else get_value j quiet_world.store))
    × ((push_command back (key ∷ codes "a" ∷ codes "b" ∷ []) quiet_world).1.sent ≡ quiet_world.sent)
push_command-unwatched_example =
    push_command-unwatched back key (codes "a") (codes "b" ∷ []) [] none quiet_world
      (inr (nothing_held, refl, refl)) no_waiter

pushed_first : pushed front (codes "a" ∷ codes "b" ∷ []) [] ≡ codes "b" ∷ codes "a" ∷ []
unfolding pushed
pushed_first = refl

push_command-hands_over_example :
    ((push_command front (key ∷ codes "a" ∷ codes "b" ∷ []) watched_world).0
      ≡ simple_int (pos (0 + suc 1)))
    × ((push_command front (key ∷ codes "a" ∷ codes "b" ∷ []) watched_world).1.resolved
        ≡ [] ++ (1, some (key, codes "b")) ∷ [])
    × ((j : Text)
        → get_value j (push_command front (key ∷ codes "a" ∷ codes "b" ∷ []) watched_world).1.store
          ≡ (if str_eq key j
              then held_value (codes "a" ∷ []) none
              else get_value j watched_world.store))
    × ((push_command front (key ∷ codes "a" ∷ codes "b" ∷ []) watched_world).1.sent
        ≡ (propagate (codes "LPOP" ∷ key ∷ []) watched_world).sent)
push_command-hands_over_example =
    push_command-hands_over front key (codes "a") (codes "b" ∷ []) [] none watched_world (codes "b")
      (codes "a" ∷ []) first_waiter [] (inr (nothing_held, refl, refl)) one_waiter pushed_first refl
