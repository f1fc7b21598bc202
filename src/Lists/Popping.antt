-- ===== src/Lists/Popping.antt =====
-- LPopCommand.ts, and the list that a key holds behind each write.
use diy_redis.Base.{
  ℕ, ◌≡◌, refl, Option, none, some, List, [], ◌∷◌, ◌++◌, arith, length, take, drop,
  take-append-drop, length-take, min, if◌then◌else◌,
}
use diy_redis.Js.Text.{Text, str_eq}
use diy_redis.Js.Number.{decimal, parse_int-decimal, decimal_truthy}
use diy_redis.Js.Date.{Date}
use diy_redis.Store.{
  StoreValue, Store, json_list, list, get_value, set_value, get_value-set_value,
  get_value-delete_key,
}
use diy_redis.Resp.Encode.{bulk_string_response, to_resp_array}
use diy_redis.Blocking.{store_list}
use diy_redis.Lists.Defs.{Found, absent, found, find_list, lpop_command, count, parse_count}

-- An empty list is no key.
abbrev pub held : List Text → Option Date → Found
held [] e = absent
held (t ∷ ts) e = found (t ∷ ts) e

-- What the store has for it.
abbrev pub held_value : List Text → Option Date → Option StoreValue
held_value [] e = none
held_value (t ∷ ts) e = some (record { value = json_list (t ∷ ts); kind = list; expiration = e })

pub get_value-store_list :
    (k j : Text) (ts : List Text) (e : Option Date) (s : Store)
    → get_value j (store_list k ts e s) ≡ (if str_eq k j then held_value ts e else get_value j s)
unfolding store_list
get_value-store_list k j [] e s = get_value-delete_key k j s
get_value-store_list k j (t ∷ ts) e s = get_value-set_value k j _ _ _ s

pub find_list-held_value :
    (k t : Text) (ts : List Text) (e : Option Date) (s : Store)
    → get_value k s ≡ held_value (t ∷ ts) e
    → find_list k s ≡ found (t ∷ ts) e
unfolding find_list
find_list-held_value k t ts e s h = rw h refl

pub find_list-set_value :
    (k j : Text) (ts : List Text) (e : Option Date) (s : Store)
    → find_list j (set_value k (json_list ts) list e s)
      ≡ (if str_eq k j then found ts e else find_list j s)
unfolding find_list
find_list-set_value k j ts e s = rw get_value-set_value (ground arith)

pub find_list-store_list :
    (k j : Text) (ts : List Text) (e : Option Date) (s : Store)
    → find_list j (store_list k ts e s) ≡ (if str_eq k j then held ts e else find_list j s)
unfolding store_list
find_list-store_list k j [] e s = unfold find_list in rw get_value-delete_key (ground arith)
find_list-store_list k j (t ∷ ts) e s = find_list-set_value k j (t ∷ ts) e s

parse_count-decimal : (n : ℕ) → parse_count (decimal n) ≡ count n
unfolding parse_count
parse_count-decimal n = rw (decimal_truthy n, parse_int-decimal n) refl

-- LPOP without a count on a list: the first element is the reply, the rest stays under its
-- expiration, a list that is used up is no key any more, and every other key holds what it held.
pub lpop_command-first :
    (k : Text) (t : Text) (ts : List Text) (e : Option Date) (s : Store)
    → find_list k s ≡ found (t ∷ ts) e
    → ((lpop_command (k ∷ []) s).0 ≡ bulk_string_response (some t))
      × ((j : Text)
          → get_value j (lpop_command (k ∷ []) s).1
            ≡ (if str_eq k j then held_value ts e else get_value j s))
unfolding lpop_command
lpop_command-first k t ts e s h = (rw h refl, λ j. rw h (get_value-store_list k j ts e s))

-- LPOP with a count on a list: the reply and what is left are the list, cut in two at the count or at
-- its end; what is left stays under its expiration, the key is gone if nothing is left, and every other key, of
-- whatever type, holds what it held.
pub lpop_command-count :
    (k : Text) (n : ℕ) (t : Text) (ts : List Text) (e : Option Date) (s : Store)
    → find_list k s ≡ found (t ∷ ts) e
    → (taken left : List Text) × ((lpop_command (k ∷ decimal n ∷ []) s).0 ≡ to_resp_array taken)
      × ((j : Text)
          → get_value j (lpop_command (k ∷ decimal n ∷ []) s).1
            ≡ (if str_eq k j then held_value left e else get_value j s))
      × (taken ++ left ≡ t ∷ ts)
      × (length taken ≡ min n (length (t ∷ ts)))
unfolding lpop_command
lpop_command-count k n t ts e s h = (
  take n (t ∷ ts),
  drop n (t ∷ ts),
  rw (parse_count-decimal n, h) refl,
  λ j. rw (parse_count-decimal n, h) (get_value-store_list k j (drop n (t ∷ ts)) e s),
  take-append-drop n (t ∷ ts),
  length-take n (t ∷ ts),
)
