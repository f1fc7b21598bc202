-- ===== src/Store/Defs.antt =====
-- The store and its methods. A value that the program keeps as `JSON.stringify(x)` is represented by
-- `x`: the language's JSON.parse gives it back, and `value_text` is the text that is kept.
use diy_redis.Base.{ℕ, Bool, false, Option, none, some, List, [], ◌∷◌, map, if◌then◌else◌}
use diy_redis.Js.Text.{Text}
use diy_redis.Js.Map.{Map, lookup, insert, remove, keys, has_value}
use diy_redis.Js.Date.{Date, is_after}
use diy_redis.Js.Json.{json_string, json_array}

-- `StoreValue["type"]`; `none` is spelled `untyped`.
pub data Kind : Type 0 where
  string hash list set untyped stream zset : Kind

-- `StreamEntry`, the pair [id, fields]
pub record Entry : Type 0 where
  pub id : Text
  pub fields : List Text

pub data Value : Type 0 where
  text : Text → Value
  json_list : List Text → Value
  json_stream : List Entry → Value

pub record StoreValue : Type 0 where
  pub value : Value
  pub kind : Kind
  pub expiration : Option Date

abbrev pub Store : Type 0
Store = Map StoreValue

entry_text : Entry → Text
entry_text e = json_array (json_string e.id ∷ json_array (map json_string e.fields) ∷ [])

-- The string that the store holds.
unfoldable pub value_text : Value → Text
unfolding entry_text
value_text (text t) = t
value_text (json_list ts) = json_array (map json_string ts)
value_text (json_stream es) = json_array (map entry_text es)

-- The methods of `RedisStore`.
unfoldable pub set_value : Text → Value → Kind → Option Date → Store → Store
set_value key value kind expiration store =
    insert key (record { value = value; kind = kind; expiration = expiration }) store

unfoldable pub get_value : Text → Store → Option StoreValue
get_value key store = lookup key store

abbrev pub kind_of : Option StoreValue → Option Kind
kind_of none = none
kind_of (some v) = some v.kind

unfoldable pub get_type : Text → Store → Option Kind
unfolding get_value
get_type key store = kind_of (get_value key store)

unfoldable pub get_keys : Store → List Text
get_keys store = keys store

unfoldable pub get_entries : Store → List (Text × StoreValue)
get_entries store = store

-- The store behind `delete`, and its result: whether the key was there.
unfoldable pub delete_key : Text → Store → Store × Bool
delete_key key store = (remove key store, has_value (lookup key store))

-- `isExpired` of utilities.ts, and the private method of the class behind its test for a date.
unfoldable pub is_expired : ℕ → Option Date → Bool
is_expired now none = false
is_expired now (some d) = is_after now d

abbrev pub expiration_of : Option StoreValue → Option Date
expiration_of none = none
expiration_of (some v) = v.expiration

-- One round of `checkAndDeleteExpiredKeys`.
unfoldable pub check_key : ℕ → Text → Store → Store
unfolding get_value is_expired delete_key
check_key now key store =
    if is_expired now (expiration_of (get_value key store)) then (delete_key key store).0 else store

unfoldable pub check_keys : ℕ → List Text → Store → Store
unfolding check_key
check_keys now [] store = store
check_keys now (k ∷ ks) store = check_keys now ks (check_key now k store)

unfoldable pub clean_expired_keys : ℕ → Store → Store
unfolding check_keys get_keys
clean_expired_keys now store = check_keys now (get_keys store) store
