-- ===== src/Blocking/Defs.antt =====
-- The methods of `BlockingManager`.
use diy_redis.Base.{
  arith, ℕ, suc, ◌≡◌, Bool, true, false, Option, none, some, List, [], ◌∷◌, ◌++◌, ◌==◌, ltb,
  if◌then◌else◌,
}
use diy_redis.Js.Text.{Text, codes, is_truthy, str_eq}
use diy_redis.Js.Map.{Map, lookup, insert, lookup-insert}
use diy_redis.Js.Date.{Date}
use diy_redis.Store.{
  Kind, Value, StoreValue, Store, text, json_list, json_stream, set_value, get_value, delete_key,
}
use diy_redis.Store.{string, hash, list, set, untyped, stream, zset}
use diy_redis.World.{Socket, Waiter, World, propagate, clear_timer}

abbrev pub is_list : Kind → Bool
is_list list = true
is_list string = false
is_list hash = false
is_list set = false
is_list untyped = false
is_list stream = false
is_list zset = false

-- JSON.parse of the text of a list; `none` stands for what a `catch` sees. A value of type "list"
-- is the form of a list.
abbrev pub parse_list : Value → Option (List Text)
parse_list (text t) = none
parse_list (json_list ts) = some ts
parse_list (json_stream es) = none

-- `updateStore`: an empty list is no key.
unfoldable pub store_list : Text → List Text → Option Date → Store → Store
store_list key [] expiration store = (delete_key key store).0
store_list key (t ∷ ts) expiration store = set_value key (json_list (t ∷ ts)) list expiration store

-- `tryLPop`: the element, and the store behind it.
unfoldable pub pop_parsed : Text → Option (List Text) → Option Date → Store → Option Text × Store
pop_parsed key none expiration store = (none, store)
pop_parsed key (some []) expiration store = (none, store)
pop_parsed key (some (t ∷ ts)) expiration store = (some t, store_list key ts expiration store)

pop_found : Text → Option StoreValue → Store → Option Text × Store
unfolding pop_parsed
pop_found key none store = (none, store)
pop_found key (some v) store =
    if is_list v.kind then pop_parsed key (parse_list v.value) v.expiration store else (none, store)

unfoldable pub try_lpop : Text → Store → Option Text × Store
unfolding pop_found
try_lpop key store = pop_found key (get_value key store) store

-- `if (popped)`: the empty text counts as nothing.
abbrev pub is_popped : Option Text → Bool
is_popped none = false
is_popped (some t) = is_truthy t

-- `popAndPropagate`
unfoldable pub pop_and_propagate : Text → World → Option Text × World
pop_and_propagate key w =
    let (popped, store') = try_lpop key w.store in
    let w' = record w { store = store' } in
    (popped, if is_popped popped then propagate (codes "LPOP" ∷ key ∷ []) w' else w')

abbrev pub same_connection : Option Socket → Option Socket → Bool
same_connection none none = true
same_connection none (some b) = false
same_connection (some a) none = false
same_connection (some a) (some b) = a == b

-- `findIndex` and `splice` of the first waiter with the same connection
unfoldable pub remove_connection : Option Socket → List Waiter → List Waiter
remove_connection c [] = []
remove_connection c (w ∷ ws) =
    if same_connection w.connection c then ws else w ∷ remove_connection c ws

unfoldable pub set_queue : Text → List Waiter → Map (List Waiter) → Map (List Waiter)
set_queue key queue queues = insert key queue queues

abbrev pub or_empty : Option (List Waiter) → List Waiter
or_empty none = []
or_empty (some q) = q

unfoldable pub get_queue : Text → Map (List Waiter) → List Waiter
get_queue key queues = or_empty (lookup key queues)

abbrev pub remove_from :
    Text → Option Socket → Option (List Waiter) → Map (List Waiter) → Map (List Waiter)
remove_from key c none queues = queues
remove_from key c (some q) queues = set_queue key (remove_connection c q) queues

-- `removeWaiter`
unfoldable pub remove_waiter : List Text → Option Socket → Map (List Waiter) → Map (List Waiter)
remove_waiter [] c queues = queues
remove_waiter (key ∷ rest) c queues =
    remove_waiter rest c (remove_from key c (lookup key queues) queues)

-- `onResolve`
unfoldable pub resolve : Waiter → Option (Text × Text) → World → World
resolve waiter result w = record w {
  timers = clear_timer waiter.id w.timers;
  queues = remove_waiter waiter.keys waiter.connection w.queues;
  resolved = w.resolved ++ (waiter.id, result) ∷ [];
}

-- `notifyListPush`: the first waiter is taken off, and put back if nothing was popped.
unfoldable pub deliver : Text → Waiter → List Waiter → Option Text × World → World
deliver key waiter queue (none, w) = record w { queues = set_queue key (waiter ∷ queue) w.queues }
deliver key waiter queue (some t, w) =
    if is_truthy t
    then resolve waiter (some (key, t)) w
    else record w { queues = set_queue key (waiter ∷ queue) w.queues }

unfoldable pub notify_queue : Text → List Waiter → World → World
unfolding deliver
notify_queue key [] w = w
notify_queue key (waiter ∷ queue) w =
    deliver key waiter queue
      (pop_and_propagate key (record w { queues = set_queue key queue w.queues }))

unfoldable pub notify_list_push : Text → World → World
unfolding notify_queue
notify_list_push key w = notify_queue key (get_queue key w.queues) w

-- The first loop of `blockOnLists`: a key and its element, or the world behind the loop.
unfoldable pub pop_first : List Text → World → Option (Text × Text) × World
pop_first [] w = (none, w)
pop_first (key ∷ rest) w =
    let (popped, w') = pop_and_propagate key w in
    elim popped [
      | none ↦ pop_first rest w'
      | some t ↦ elim (is_truthy t) [ true ↦ (some (key, t), w') | false ↦ pop_first rest w' ]
    ]

-- The second loop: the waiter is queued under each key.
unfoldable pub enqueue : List Text → Waiter → Map (List Waiter) → Map (List Waiter)
enqueue [] waiter queues = queues
enqueue (key ∷ rest) waiter queues =
    enqueue rest waiter (set_queue key (get_queue key queues ++ waiter ∷ []) queues)

-- A promise that is resolved, or one that waits under the number of its waiter.
pub data Promise : Type 0 where
  settled : Option (Text × Text) → Promise
  waiting : ℕ → Promise

unfoldable pub start_waiting : List Text → ℕ → Option Socket → World → Promise × World
start_waiting keys timeout_seconds connection w =
    let waiter : Waiter = record { id = w.next_waiter; keys = keys; connection = connection } in
    (
      waiting w.next_waiter,
      record w {
        queues = enqueue keys waiter w.queues;
        timers = if ltb 0 timeout_seconds then w.next_waiter ∷ w.timers else w.timers;
        next_waiter = suc w.next_waiter;
      },
    )

-- `blockOnLists`
unfoldable pub block_on_lists : List Text → ℕ → Option Socket → World → Promise × World
unfolding start_waiting
block_on_lists keys timeout_seconds connection w =
    let (found, w') = pop_first keys w in
    elim found [
      | none ↦ start_waiting keys timeout_seconds connection w'
      | some pair ↦ (settled (some pair), w')
    ]

-- The timer of a waiter runs out: `removeWaiter`, and the promise is resolved with null.
unfoldable pub time_out : Waiter → World → World
time_out waiter w = record w {
  timers = clear_timer waiter.id w.timers;
  queues = remove_waiter waiter.keys waiter.connection w.queues;
  resolved = w.resolved ++ (waiter.id, none) ∷ [];
}

pub get_queue-set_queue :
    (k j : Text) (q : List Waiter) (queues : Map (List Waiter))
    → get_queue j (set_queue k q queues) ≡ (if str_eq k j then q else get_queue j queues)
unfolding get_queue set_queue
get_queue-set_queue k j q queues = ground (arith, lookup-insert k j q queues)
