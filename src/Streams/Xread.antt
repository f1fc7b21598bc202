-- ===== src/Streams/Xread.antt =====
-- XreadCommand.ts.
use diy_redis.Base.{
  ℕ, suc, ◌/◌, ◌%◌, Option, none, some, List, [], ◌∷◌, ◌++◌, ◌==◌, ltb, length, take, drop,
  if◌then◌else◌, ◌>>=◌,
}
use diy_redis.Base.Int.{ℤ, pos}
use diy_redis.Js.Text.{Text, codes, str_eq, to_lower}
use diy_redis.Js.Number.{parse_int}
use diy_redis.Js.Map.{includes}
use diy_redis.Store.{Entry, StoreValue, Store, get_value}
use diy_redis.Resp.Encode.{simple_error_response, bulk_string_response}
use diy_redis.World.{World}
use diy_redis.Strings.{wrong_arguments}
use diy_redis.Streams.Entries.{to_resp_stream_array, lowest_id}
use diy_redis.Streams.Readers.{
  Outcome, answered, blocked, outside, entries_of, process_xread, forget_reader,
}
use diy_redis.Streams.Commands.{entries_reply, last_entry}

-- What the arguments ask for: the milliseconds behind BLOCK, if it stands there, and the keys and ids.
pub data Request : Type 0 where
  wrong : Text → Request
  request : Option ℕ → List Text → Request

-- `args.findIndex((arg) => arg.toLowerCase() === word)`: the arguments from there on.
unfoldable pub from_word : Text → List Text → Option (List Text)
from_word word [] = none
from_word word (a ∷ args) =
    let rest = from_word word args in if str_eq (to_lower a) word then some (a ∷ args) else rest

abbrev pub wrong_xread : Request
wrong_xread = wrong (wrong_arguments (codes "xread"))

abbrev streams_from : Option ℕ → Option (List Text) → Request
streams_from timeout none = wrong_xread
streams_from timeout (some []) = wrong_xread
streams_from timeout (some (word ∷ [])) = wrong_xread
streams_from timeout (some (word ∷ a ∷ rest)) =
    if str_eq (to_lower word) (codes "streams") then request timeout (a ∷ rest) else wrong_xread

abbrev blocking_for : Option ℤ → List Text → Request
blocking_for (some (pos n)) words = streams_from (some n) (some words)
blocking_for _ words = wrong (simple_error_response (codes "ERR timeout is negative"))

abbrev request_in : Option (List Text) → List Text → Request
request_in none args = streams_from none (from_word (codes "streams") args)
request_in (some (block ∷ timeout ∷ word ∷ rest)) args =
    blocking_for (parse_int timeout) (word ∷ rest)
request_in (some _) args =
    wrong (simple_error_response (codes "wrong number of arguments for 'xread' command with BLOCK"))

unfoldable pub parse_request : List Text → Request
unfolding from_word
parse_request args = request_in (from_word (codes "block") args) args

-- `originalStreamIds.map(…)`: `$` is the last id of the stream now.
abbrev last_id : Option Entry → Text
last_id none = lowest_id
last_id (some e) = e.id

unfoldable pub id_now : Option StoreValue → Option Text
unfolding last_entry
id_now none = some lowest_id
id_now (some v) = do entries ← entries_of v.value; some (last_id (last_entry entries))

unfoldable pub resolve_ids : List Text → List Text → Store → Option (List Text)
unfolding id_now
resolve_ids keys [] store = some []
resolve_ids [] (id ∷ ids) store = some []
resolve_ids (key ∷ keys) (id ∷ ids) store = do
  first ← if str_eq id (codes "$") then id_now (get_value key store) else some id
  rest ← resolve_ids keys ids store
  some (first ∷ rest)

-- The promise, with its listener and its timer.
unfoldable pub wait_for_entries : ℕ → List Text → List Text → World → Outcome × World
wait_for_entries timeout keys starts w = (
  blocked w.next_waiter,
  record w {
    readers =
        w.readers
        ++ (record { promise = w.next_waiter; stream_keys = keys; start_ids = starts }) ∷ [];
    timers = if ltb 0 timeout then w.next_waiter ∷ w.timers else w.timers;
    next_waiter = suc w.next_waiter;
  },
)

abbrev pub read_now : Option (List (Text × List Entry)) → Outcome
read_now none = outside
read_now (some []) = answered (bulk_string_response none)
read_now (some (s ∷ ss)) = entries_reply (to_resp_stream_array (s ∷ ss))

abbrev pub read_or_wait :
    ℕ → List Text → List Text → Option (List (Text × List Entry)) → World → Outcome × World
read_or_wait timeout keys starts none w = (outside, w)
read_or_wait timeout keys starts (some []) w = wait_for_entries timeout keys starts w
read_or_wait timeout keys starts (some (s ∷ ss)) w =
    (entries_reply (to_resp_stream_array (s ∷ ss)), w)

abbrev pub read_blocking : ℕ → List Text → Option (List Text) → World → Outcome × World
read_blocking timeout keys none w = (outside, w)
read_blocking timeout keys (some starts) w =
    read_or_wait timeout keys starts (process_xread keys starts w.store) w

unfoldable pub read_streams : Option ℕ → List Text → List Text → World → Outcome × World
unfolding process_xread to_resp_stream_array resolve_ids wait_for_entries
read_streams none keys ids w =
    if includes (codes "$") ids
    then (
      answered (simple_error_response (codes "ERR The $ ID is only valid in the context of BLOCK")),
      w,
    )
    else (read_now (process_xread keys ids w.store), w)
read_streams (some timeout) keys ids w = read_blocking timeout keys (resolve_ids keys ids w.store) w

abbrev pub unbalanced : Text
unbalanced = simple_error_response (codes "Unbalanced list of streams and IDs in XREAD")

abbrev pub read_request : Request → World → Outcome × World
read_request (wrong response) w = (answered response, w)
read_request (request timeout words) w =
    let half = length words / 2 in
    if length words % 2 == 0
    then read_streams timeout (take half words) (drop half words) w
    else (answered unbalanced, w)

unfoldable pub xread_command : List Text → World → Outcome × World
unfolding parse_request read_streams
xread_command args w = read_request (parse_request args) w

-- The timer of a blocked reader runs out.
unfoldable pub read_timeout : ℕ → World → World
unfolding forget_reader
read_timeout n w =
    let w' = forget_reader n w in
    record w' { read_answers = w'.read_answers ++ (n, bulk_string_response none) ∷ [] }
