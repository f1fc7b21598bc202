-- ===== src/Streams/Commands.antt =====
-- XaddCommand.ts, XrangeCommand.ts and XrevrangeCommand.ts.
use mathlib.Core.List.{reverse}
use diy_redis.Base.{
  ℕ, Bool, true, false, not, ◌&&◌, Option, none, some, List, [], ◌∷◌, ◌++◌, take, if◌then◌else◌,
  ◌>>=◌,
}
use diy_redis.Base.Int.{ℤ, pos, negsuc}
use diy_redis.Js.Text.{Text, codes, str_eq, to_upper, is_truthy}
use diy_redis.Js.Number.{parse_int}
use diy_redis.Js.Date.{Date}
use diy_redis.Store.{
  Entry, Kind, Value, StoreValue, Store, text, json_stream, stream, get_value, set_value,
}
use diy_redis.Resp.Encode.{simple_error_response, bulk_string_response}
use diy_redis.World.{World}
use diy_redis.Strings.{wrong_arguments, not_an_integer}
use diy_redis.Lists.{wrong_type}
use diy_redis.Streams.Ids.{NewId, fresh, refused, untold, parse_stream_entries, generate_entry_id}
use diy_redis.Streams.Entries.{get_entry_range, to_resp_entry_array}
use diy_redis.Streams.Readers.{
  Outcome, answered, raised, outside, Notified, notified, threw, beyond, entries_of,
  notify_new_entry,
}

abbrev pub must_be_greater : Text
must_be_greater = simple_error_response (codes "The ID specified in XADD must be greater than 0-0")

abbrev pub is_smaller : Text
is_smaller =
    simple_error_response
      (codes "The ID specified in XADD is equal or smaller than the target stream top item")

abbrev pub is_stream : Kind → Bool
is_stream stream = true
is_stream _ = false

unfoldable pub last_entry : List Entry → Option Entry
last_entry [] = none
last_entry (e ∷ []) = some e
last_entry (e ∷ f ∷ es) = last_entry (f ∷ es)

-- The reply behind `notifyNewEntry`.
abbrev pub after_notice : World → Text → Notified → Outcome × World
after_notice w id (notified w') = (answered (bulk_string_response (some id)), w')
after_notice w id (threw w') = (raised, w')
after_notice w id beyond = (outside, w)

-- `set`, `notifyNewEntry` and the reply.
unfoldable pub append_entry :
    Text → List Entry → Text → List Text → Option Date → World → Outcome × World
append_entry key entries id fields expiration w =
    let value = json_stream (entries ++ (record { id = id; fields = fields }) ∷ []) in
    let w' = record w { store = set_value key value stream expiration w.store } in
    after_notice w id (notify_new_entry key w')

abbrev pub add_with : Text → List Entry → NewId → List Text → Option Date → World → Outcome × World
add_with key entries (fresh id) fields e w = append_entry key entries id fields e w
add_with key entries refused fields e w = (answered is_smaller, w)
add_with key entries untold fields e w = (outside, w)

-- An empty stream has no last entry, whose id is a TypeError.
abbrev pub add_behind :
    Text → Entry → List Entry → Option Entry → Option Date → World → Outcome × World
add_behind key new entries none e w = (raised, w)
add_behind key new entries (some last) e w =
    add_with key entries (generate_entry_id w.clock new.id (some last.id)) new.fields e w

abbrev pub add_to_entries :
    Text → Entry → Option (List Entry) → Option Date → World → Outcome × World
add_to_entries key new none e w = (outside, w)
add_to_entries key new (some entries) e w = add_behind key new entries (last_entry entries) e w

abbrev pub add_to : Text → Entry → Option StoreValue → World → Outcome × World
add_to key new none w = add_with key [] (generate_entry_id w.clock new.id none) new.fields none w
add_to key new (some v) w =
    if is_stream v.kind
    then add_to_entries key new (entries_of v.value) v.expiration w
    else (answered wrong_type, w)

abbrev pub add_parsed : Text → Option Entry → World → Outcome × World
add_parsed key none w = (answered must_be_greater, w)
add_parsed key (some new) w = add_to key new (get_value key w.store) w

-- XaddCommand.ts
unfoldable pub xadd_command : List Text → World → Outcome × World
xadd_command (key ∷ id ∷ field ∷ value ∷ rest) w =
    add_parsed key (parse_stream_entries (id ∷ field ∷ value ∷ rest)) w
xadd_command args w = (answered (wrong_arguments (codes "xadd")), w)

-- The reply with an array of entries.
abbrev pub entries_reply : Option Text → Outcome
entries_reply none = raised
entries_reply (some response) = answered response

abbrev pub reply_with : Option (List Entry) → Outcome
reply_with none = outside
reply_with (some es) = entries_reply (to_resp_entry_array es)

-- `!storedStream`
abbrev pub is_empty_text : Value → Bool
is_empty_text (text t) = not (is_truthy t)
is_empty_text _ = false

abbrev range_in : Text → Text → Option StoreValue → Outcome
range_in start end none = reply_with (some [])
range_in start end (some v) =
    if is_empty_text v.value
    then reply_with (some [])
    else reply_with (entries_of v.value >>= λ es. get_entry_range es start (some end))

-- XrangeCommand.ts. There is no test of the value's type.
unfoldable pub xrange_command : List Text → Store → Outcome
xrange_command (key ∷ start ∷ end ∷ rest) store = range_in start end (get_value key store)
xrange_command args store = answered (wrong_arguments (codes "xrange"))

-- COUNT of XREVRANGE: none given, a number, or one of two errors.
pub data Limit : Type 0 where
  no_limit : Limit
  at_most : ℕ → Limit
  bad_number : Limit
  bad_syntax : Limit

abbrev limit_of : Option ℤ → Limit
limit_of none = bad_number
limit_of (some (negsuc n)) = bad_number
limit_of (some (pos n)) = at_most n

unfoldable pub parse_limit : List Text → Limit
parse_limit [] = no_limit
parse_limit (word ∷ []) = bad_syntax
parse_limit (word ∷ n ∷ rest) =
    if str_eq (to_upper word) (codes "COUNT") && is_truthy n
    then limit_of (parse_int n)
    else bad_syntax

abbrev pub limited : Limit → List Entry → List Entry
limited (at_most n) es = take n es
limited _ es = es

abbrev reversed : Limit → Option (List Entry) → Outcome
reversed limit none = outside
reversed limit (some es) = reply_with (some (limited limit (reverse es)))

abbrev reverse_in : Text → Text → Limit → Option StoreValue → Outcome
reverse_in end start limit none = reply_with (some [])
reverse_in end start limit (some v) =
    if is_stream v.kind
    then reversed limit (entries_of v.value >>= λ es. get_entry_range es start (some end))
    else reply_with (some [])

abbrev reverse_with : Text → Text → Text → Limit → Store → Outcome
reverse_with key end start bad_number store = answered not_an_integer
reverse_with key end start bad_syntax store =
    answered (simple_error_response (codes "syntax error"))
reverse_with key end start limit store = reverse_in end start limit (get_value key store)

-- XrevrangeCommand.ts
unfoldable pub xrevrange_command : List Text → Store → Outcome
unfolding parse_limit
xrevrange_command (key ∷ end ∷ start ∷ rest) store =
    reverse_with key end start (parse_limit rest) store
xrevrange_command args store = answered (wrong_arguments (codes "xrevrange"))
