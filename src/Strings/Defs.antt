-- ===== src/Strings/Defs.antt =====
-- One function for each command: the current time, the arguments and the store give the reply and the
-- store behind the command.
use diy_redis.Base.{
  ℕ, ◌+◌, ltb, Bool, true, false, not, ◌&&◌, Option, none, some, List, [], ◌∷◌, ◌++◌, if◌then◌else◌,
}
use diy_redis.Base.Int.{ℤ, pos, negsuc, ◌+ℤ◌}
use diy_redis.Js.Text.{Text, codes, crlf, str_eq}
use diy_redis.Js.Number.{parse_int, decimal_ℤ}
use diy_redis.Js.Map.{has_value}
use diy_redis.Store.{
  Kind, StoreValue, Store, text, value_text, set_value, get_value, get_keys, delete_key, is_expired,
  expiration_of,
}
use diy_redis.Store.{string, hash, list, set, untyped, stream, zset}
use diy_redis.Resp.Encode.{
  simple_error_response, bulk_string_response, simple_string_response, simple_int, to_resp_array,
}
use diy_redis.Strings.Options.{
  Mode, nx, xx, SetOptions, no_options, set_options, create_expiration_date, times_1000,
}

abbrev pub Command : Type 0
Command = ℕ → List Text → Store → Text × Store

abbrev pub wrong_arguments : Text → Text
wrong_arguments name =
    simple_error_response (codes "wrong number of arguments for '" ++ (name ++ codes "' command"))

abbrev pub not_an_integer : Text
not_an_integer = simple_error_response (codes "value is not an integer or out of range")

-- GetCommand.ts
get_found : ℕ → Text → Option StoreValue → Store → Text × Store
get_found now key none store = (bulk_string_response none, store)
get_found now key (some v) store =
    if is_expired now v.expiration
    then (bulk_string_response none, (delete_key key store).0)
    else (bulk_string_response (some (value_text v.value)), store)

unfoldable pub get_command : Command
unfolding get_found
get_command now (key ∷ []) store = get_found now key (get_value key store) store
get_command now args store = (codes "-ERR Wrong number of arguments for GET" ++ crlf, store)

-- SetCommand.ts: the checks on the key and the write.
abbrev pub is_mode : Option Mode → Mode → Bool
is_mode none m = false
is_mode (some nx) nx = true
is_mode (some nx) xx = false
is_mode (some xx) nx = false
is_mode (some xx) xx = true

set_with : Text → Text → SetOptions → Option StoreValue → Store → Text × Store
set_with key value o existing store =
    if is_mode o.mode nx && has_value existing
    then (bulk_string_response none, store)
    else if is_mode o.mode xx && not (has_value existing)
    then (bulk_string_response none, store)
    else (
      simple_string_response (codes "OK"),
      set_value key (text value) string
          (if o.keep_ttl && has_value existing then expiration_of existing else o.expiration) store,
    )

set_parsed : Text → Text → Option SetOptions → Store → Text × Store
unfolding set_with
set_parsed key value none store = (simple_error_response (codes "syntax error"), store)
set_parsed key value (some o) store = set_with key value o (get_value key store) store

unfoldable pub set_command : Command
unfolding set_parsed
set_command now (key ∷ value ∷ args) store =
    set_parsed key value (set_options now args no_options) store
set_command now args store = (wrong_arguments (codes "set"), store)

-- DelCommand.ts: the loop over the keys, with the count so far.
unfoldable pub delete_all : List Text → ℕ → Store → ℕ × Store
delete_all [] count store = (count, store)
delete_all (key ∷ rest) count store =
    let (store', there) = delete_key key store in
    delete_all rest (if there then count + 1 else count) store'

unfoldable pub del_command : Command
unfolding delete_all
del_command now [] store = (codes "-ERR wrong number of arguments for 'del' command" ++ crlf, store)
del_command now (key ∷ rest) store =
    let (count, store') = delete_all (key ∷ rest) 0 store in (simple_int (pos count), store')

-- ExistsCommand.ts
unfoldable pub is_there : ℕ → Option StoreValue → Bool
is_there now none = false
is_there now (some v) = not (is_expired now v.expiration)

unfoldable pub count_existing : ℕ → List Text → ℕ → Store → ℕ
unfolding is_there
count_existing now [] count store = count
count_existing now (key ∷ rest) count store =
    count_existing now rest (if is_there now (get_value key store) then count + 1 else count) store

unfoldable pub exists_command : Command
unfolding count_existing
exists_command now [] store = (wrong_arguments (codes "exists"), store)
exists_command now (key ∷ rest) store =
    (simple_int (pos (count_existing now (key ∷ rest) 0 store)), store)

-- ExpireCommand.ts
expire_parsed : ℕ → Text → StoreValue → Option ℤ → Store → Text × Store
expire_parsed now key v none store = (not_an_integer, store)
expire_parsed now key v (some seconds) store = (
  codes ":1" ++ crlf,
  set_value key v.value v.kind (some (create_expiration_date now (times_1000 (some seconds))))
      store,
)

expire_found : ℕ → Text → Text → Option StoreValue → Store → Text × Store
unfolding expire_parsed
expire_found now key seconds none store = (codes ":0" ++ crlf, store)
expire_found now key seconds (some v) store = expire_parsed now key v (parse_int seconds) store

unfoldable pub expire_command : Command
unfolding expire_found
expire_command now (key ∷ seconds ∷ []) store =
    expire_found now key seconds (get_value key store) store
expire_command now args store = (wrong_arguments (codes "expire"), store)

-- From -(2 ^ 53) up to 2 ^ 53 - 1, a Number holds `n` and `n + 1` as they are, and prints them digit by digit.
abbrev pub is_exact : ℤ → Bool
is_exact (pos n) = ltb n 9_007_199_254_740_992
is_exact (negsuc n) = ltb n 9_007_199_254_740_992

incr_parsed : Text → StoreValue → Option ℤ → Store → Option (Text × Store)
incr_parsed key v none store = some (not_an_integer, store)
incr_parsed key v (some n) store =
    if is_exact n
    then some (
      simple_int (n +ℤ pos 1),
      set_value key (text (decimal_ℤ (n +ℤ pos 1))) string v.expiration store,
    )
    else none

incr_found : Text → Option StoreValue → Store → Option (Text × Store)
unfolding incr_parsed
incr_found key none store =
    some (codes ":1" ++ crlf, set_value key (text (codes "1")) string none store)
incr_found key (some v) store = incr_parsed key v (parse_int (value_text v.value)) store

-- IncrCommand.ts; `none` where a Number rounds.
unfoldable pub incr_command : ℕ → List Text → Store → Option (Text × Store)
unfolding incr_found
incr_command now (key ∷ []) store = incr_found key (get_value key store) store
incr_command now args store = some (wrong_arguments (codes "incr"), store)

-- TypeCommand.ts
unfoldable pub kind_name : Kind → Text
kind_name string = codes "string"
kind_name hash = codes "hash"
kind_name list = codes "list"
kind_name set = codes "set"
kind_name untyped = codes "none"
kind_name stream = codes "stream"
kind_name zset = codes "zset"

type_found : Option StoreValue → Text
unfolding kind_name
type_found none = simple_string_response (codes "none")
type_found (some v) = simple_string_response (kind_name v.kind)

unfoldable pub type_command : Command
unfolding type_found
type_command now [] store = (codes "wrong number of arguments for TYPE", store)
type_command now (key ∷ rest) store = (type_found (get_value key store), store)

-- KeysCommand.ts
unfoldable pub keys_command : Command
keys_command now [] store = (to_resp_array [], store)
keys_command now (pattern_text ∷ rest) store = (
  if str_eq pattern_text (codes "*") then to_resp_array (get_keys store) else to_resp_array [],
  store,
)
