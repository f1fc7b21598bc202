-- ===== src/Streams/Readers.antt =====
-- What XreadCommand.ts does with the streams, and its listeners behind StreamEventManager.ts.
use diy_redis.Base.{ℕ, Option, none, some, List, [], ◌∷◌, ◌++◌, ◌==◌, if◌then◌else◌, ◌>>=◌}
use diy_redis.Js.Text.{Text}
use diy_redis.Js.Map.{includes}
use diy_redis.Store.{Entry, Value, StoreValue, Store, text, json_list, json_stream, get_value}
use diy_redis.World.{Reader, World, clear_timer}
use diy_redis.Streams.Entries.{get_entry_range, to_resp_stream_array}

-- `JSON.parse(stream.value)` of an entry of a stream; a value that is none is not looked into.
abbrev pub entries_of : Value → Option (List Entry)
entries_of (text t) = none
entries_of (json_list ts) = none
entries_of (json_stream es) = some es

-- The part of the results that one key gives.
unfoldable pub results_in : Text → Text → Option StoreValue → Option (List (Text × List Entry))
results_in key start none = some []
results_in key start (some v) = do
  stored ← entries_of v.value
  entries ← get_entry_range stored start none
  some (elim entries [ [] ↦ [] | e ∷ es ↦ (key, e ∷ es) ∷ [] ])

-- `processXRead`; `hasNewData` says that the results are not empty. `none`: a value or a number is outside.
unfoldable pub process_xread : List Text → List Text → Store → Option (List (Text × List Entry))
unfolding results_in
process_xread [] starts store = some []
process_xread (key ∷ keys) [] store = some []
process_xread (key ∷ keys) (start ∷ starts) store = do
  first ← results_in key start (get_value key store)
  rest ← process_xread keys starts store
  some (first ++ rest)

-- What a command on streams, or an event, comes to: a reply, a promise that waits under a number, a TypeError, or
-- what is outside the model.
pub data Outcome : Type 0 where
  answered : Text → Outcome
  blocked : ℕ → Outcome
  raised : Outcome
  outside : Outcome

unfoldable pub remove_reader : ℕ → List Reader → List Reader
remove_reader n [] = []
remove_reader n (r ∷ rs) =
    let rest = remove_reader n rs in if r.promise == n then rest else r ∷ rest

-- `clearTimeout` and `removeListener`
unfoldable pub forget_reader : ℕ → World → World
unfolding remove_reader
forget_reader n w = record w {
  timers = clear_timer n w.timers;
  readers = remove_reader n w.readers;
}

-- What the listeners did: all were called, one threw, or one met what is outside the model.
pub data Notified : Type 0 where
  notified : World → Notified
  threw : World → Notified
  beyond : Notified

-- `resolve(toRESPStreamArray(results))`
abbrev pub resolve_reader : ℕ → Option Text → World → Notified
resolve_reader n none w = threw w
resolve_reader n (some response) w =
    notified (record w { read_answers = w.read_answers ++ (n, response) ∷ [] })

abbrev pub wake_with : Reader → Option (List (Text × List Entry)) → World → Notified
wake_with r none w = beyond
wake_with r (some []) w = notified w
wake_with r (some (s ∷ ss)) w =
    resolve_reader r.promise (to_resp_stream_array (s ∷ ss)) (forget_reader r.promise w)

-- `onNewEntry`
unfoldable pub on_new_entry : Text → Reader → World → Notified
on_new_entry key r w =
    if includes key r.stream_keys
    then wake_with r (process_xread r.stream_keys r.start_ids w.store) w
    else notified w

unfoldable pub call_readers : Text → List Reader → World → Notified
call_readers key [] w = notified w
call_readers key (r ∷ rs) w = elim (on_new_entry key r w) [
  | notified w' ↦ call_readers key rs w'
  | threw w' ↦ threw w'
  | beyond ↦ beyond
]

-- `notifyNewEntry`: `emit` calls the listeners that there are when it begins, in their order.
unfoldable pub notify_new_entry : Text → World → Notified
notify_new_entry key w = call_readers key w.readers w
