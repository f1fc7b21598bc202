-- ===== src/Lists/Defs.antt =====
-- LLenCommand.ts, LPopCommand.ts, LRangeCommand.ts, LPushCommand.ts and RPushCommand.ts.
use mathlib.Core.List.{reverse}
use diy_redis.Base.{
  ℕ, suc, ◌+◌, ◌-◌, Option, none, some, List, [], ◌∷◌, ◌++◌, min, if◌then◌else◌, length, take, drop,
}
use diy_redis.Base.Int.{ℤ, pos, negsuc, ◌+ℤ◌}
use diy_redis.Js.Text.{Text, codes, crlf, is_truthy}
use diy_redis.Js.Number.{parse_int}
use diy_redis.Js.Date.{Date}
use diy_redis.Store.{StoreValue, Store, json_list, list, set_value, get_value}
use diy_redis.Resp.Encode.{simple_error_response, bulk_string_response, simple_int, to_resp_array}
use diy_redis.Strings.{wrong_arguments, not_an_integer}
use diy_redis.World.{World}
use diy_redis.Blocking.{is_list, parse_list, store_list, notify_list_push}

abbrev pub wrong_type : Text
wrong_type =
    simple_error_response
      (codes "WRONGTYPE Operation against a key holding the wrong kind of value")

abbrev pub invalid_list : Text
invalid_list = simple_error_response (codes "internal error - invalid list format")

-- What a list command finds: no key, another type, a text that is no list, or the list.
pub data Found : Type 0 where
  absent : Found
  other_type : Found
  broken : Found
  found : List Text → Option Date → Found

abbrev pub parsed_as : Option (List Text) → Option Date → Found
parsed_as none e = broken
parsed_as (some ts) e = found ts e

abbrev found_in : Option StoreValue → Found
found_in none = absent
found_in (some v) =
    if is_list v.kind then parsed_as (parse_list v.value) v.expiration else other_type

unfoldable pub find_list : Text → Store → Found
find_list key store = found_in (get_value key store)

-- LLenCommand.ts
llen_found : Found → Text
llen_found absent = codes ":0" ++ crlf
llen_found other_type = wrong_type
llen_found broken = invalid_list
llen_found (found ts e) = simple_int (pos (length ts))

unfoldable pub llen_command : List Text → Store → Text × Store
unfolding llen_found
llen_command (key ∷ []) store = (llen_found (find_list key store), store)
llen_command args store = (wrong_arguments (codes "llen"), store)

-- LPopCommand.ts. The count is absent, refused, or a number.
pub data Count : Type 0 where
  no_count : Count
  bad_count : Count
  count : ℕ → Count

abbrev count_in : Option ℤ → Count
count_in none = bad_count
count_in (some (pos n)) = count n
count_in (some (negsuc n)) = bad_count

-- `if (countStr)`: the empty text counts as no count.
unfoldable pub parse_count : Text → Count
parse_count t = if is_truthy t then count_in (parse_int t) else no_count

abbrev nothing_popped : Count → Text
nothing_popped no_count = bulk_string_response none
nothing_popped bad_count = not_an_integer
nothing_popped (count n) = to_resp_array []

lpop_some : Text → Count → List Text → Option Date → Store → Text × Store
lpop_some key c [] e store = (nothing_popped c, store)
lpop_some key bad_count (t ∷ ts) e store = (not_an_integer, store)
lpop_some key no_count (t ∷ ts) e store = (bulk_string_response (some t), store_list key ts e store)
lpop_some key (count n) (t ∷ ts) e store =
    (to_resp_array (take n (t ∷ ts)), store_list key (drop n (t ∷ ts)) e store)

unfoldable pub lpop_found : Text → Count → Found → Store → Text × Store
unfolding lpop_some
lpop_found key c absent store = (nothing_popped c, store)
lpop_found key c other_type store = (wrong_type, store)
lpop_found key c broken store = (invalid_list, store)
lpop_found key c (found ts e) store = lpop_some key c ts e store

-- The count is refused before the key is looked at.
unfoldable pub lpop_counted : Text → Count → Store → Text × Store
unfolding lpop_found
lpop_counted key bad_count store = (not_an_integer, store)
lpop_counted key no_count store = lpop_found key no_count (find_list key store) store
lpop_counted key (count n) store = lpop_found key (count n) (find_list key store) store

unfoldable pub lpop_command : List Text → Store → Text × Store
unfolding lpop_counted
lpop_command (key ∷ []) store = lpop_counted key no_count store
lpop_command (key ∷ n ∷ []) store = lpop_counted key (parse_count n) store
lpop_command args store = (wrong_arguments (codes "lpop"), store)

-- list.slice(start, end): an index below 0 counts from the end of the list.
unfoldable pub relative : ℕ → ℤ → ℕ
relative size (pos n) = min n size
relative size (negsuc n) = size - suc n

unfoldable pub slice : ℤ → ℤ → List Text → List Text
unfolding relative
slice start end ts =
    let from = relative (length ts) start in take (relative (length ts) end - from) (drop from ts)

-- LRangeCommand.ts
unfoldable pub effective_end : ℕ → ℤ → ℤ
effective_end size (pos n) = pos (n + 1)
effective_end size (negsuc n) = pos size +ℤ negsuc n +ℤ pos 1

lrange_found : ℤ → ℤ → Found → Text
unfolding slice effective_end
lrange_found start end absent = to_resp_array []
lrange_found start end other_type = wrong_type
lrange_found start end broken = invalid_list
lrange_found start end (found ts e) = to_resp_array (slice start (effective_end (length ts) end) ts)

lrange_parsed : Text → Option ℤ → Option ℤ → Store → Text
unfolding lrange_found
lrange_parsed key (some start) (some end) store = lrange_found start end (find_list key store)
lrange_parsed key start end store = not_an_integer

unfoldable pub lrange_command : List Text → Store → Text × Store
unfolding lrange_parsed
lrange_command (key ∷ start ∷ end ∷ []) store =
    (lrange_parsed key (parse_int start) (parse_int end) store, store)
lrange_command args store = (wrong_arguments (codes "lrange"), store)

-- RPushCommand.ts and LPushCommand.ts differ in where the elements go.
pub data Side : Type 0 where
  front back : Side

unfoldable pub pushed : Side → List Text → List Text → List Text
pushed back elements ts = ts ++ elements
pushed front elements ts = reverse elements ++ ts

unfoldable pub push_onto : Text → List Text → Option Date → World → Text × World
push_onto key ts e w = (
  simple_int (pos (length ts)),
  notify_list_push key (record w { store = set_value key (json_list ts) list e w.store }),
)

unfoldable pub push_found : Side → Text → List Text → Found → World → Text × World
unfolding push_onto pushed
push_found side key elements absent w = push_onto key (pushed side elements []) none w
push_found side key elements other_type w = (wrong_type, w)
push_found side key elements broken w = (invalid_list, w)
push_found side key elements (found ts e) w = push_onto key (pushed side elements ts) e w

push_name : Side → Text
push_name front = codes "lpush"
push_name back = codes "rpush"

unfoldable pub push_command : Side → List Text → World → Text × World
unfolding push_found push_name
push_command side (key ∷ t ∷ ts) w = push_found side key (t ∷ ts) (find_list key w.store) w
push_command side args w = (wrong_arguments (push_name side), w)

unfoldable pub rpush_command : List Text → World → Text × World
rpush_command = push_command back

unfoldable pub lpush_command : List Text → World → Text × World
lpush_command = push_command front
