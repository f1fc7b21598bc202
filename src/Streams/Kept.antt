-- ===== src/Streams/Kept.antt =====
-- A predicate on the world that survives what the commands on streams do to it.
use diy_redis.Base.{
  ◌++◌, ℕ, Option, none, some, List, [], ◌∷◌, Bool-cases, inl, inr, length, ◌==◌, ◌%◌,
}
use diy_redis.Js.Text.{Text, codes}
use diy_redis.Js.Date.{Date}
use diy_redis.Js.Map.{includes}
use diy_redis.Store.{set_value, Entry, StoreValue, json_stream, stream, get_value}
use diy_redis.World.{World, Reader}
use diy_redis.Streams.Ids.{NewId, fresh, refused, untold, parse_stream_entries, generate_entry_id}
use diy_redis.Streams.Entries.{to_resp_stream_array}
use diy_redis.Streams.Readers.{
  Notified, notified, threw, beyond, entries_of, notify_new_entry, on_new_entry, call_readers,
  wake_with, resolve_reader, forget_reader, process_xread,
}
use diy_redis.Streams.Commands.{
  xadd_command, append_entry, is_stream, last_entry, add_to_entries, add_behind, add_with, add_to,
  add_parsed, after_notice,
}
use diy_redis.Streams.Xread.{
  xread_command, read_or_wait, read_blocking, read_streams, read_request, wait_for_entries, Request,
  wrong, request, parse_request,
}

-- What the listeners leave.
abbrev pub NotifiedKeeps : (World → Type 0) → Notified → Type 0
NotifiedKeeps P (notified w) = P w
NotifiedKeeps P (threw w) = P w
NotifiedKeeps P beyond = Unit {0}

module _ (P : World → Type 0) (forgotten : (n : ℕ) (w : World) → P w → P (forget_reader n w))
    (told : (n : ℕ) (response : Text) (w : World)
      → P w
      → P (record w { read_answers = w.read_answers ++ (n, response) ∷ [] })) where
  resolve_reader-Keeps :
      (n : ℕ) (o : Option Text) (w : World) → P w → NotifiedKeeps P (resolve_reader n o w)
  resolve_reader-Keeps n none w h = h
  resolve_reader-Keeps n (some t) w h = told n t w h

  wake_with-Keeps :
      (r : Reader) (o : Option (List (Text × List Entry))) (w : World)
      → P w
      → NotifiedKeeps P (wake_with r o w)
  wake_with-Keeps r none w h = tt
  wake_with-Keeps r (some []) w h = h
  wake_with-Keeps r (some (s ∷ ss)) w h =
      resolve_reader-Keeps r.promise (to_resp_stream_array (s ∷ ss)) (forget_reader r.promise w)
        (forgotten r.promise w h)

  on_new_entry-Keeps :
      (key : Text) (r : Reader) (w : World) → P w → NotifiedKeeps P (on_new_entry key r w)
  unfolding on_new_entry
  on_new_entry-Keeps key r w h = elim (Bool-cases (includes key r.stream_keys)) [
    | inl listens ↦
        rw listens (wake_with-Keeps r (process_xread r.stream_keys r.start_ids w.store) w h)
    | inr other ↦ rw other h
  ]

  call_next-Keeps :
      (key : Text) (rs : List Reader) (n : Notified)
      → NotifiedKeeps P n
      → ((w : World) → P w → NotifiedKeeps P (call_readers key rs w))
      → NotifiedKeeps P
          (elim n [ notified w' ↦ call_readers key rs w' | threw w' ↦ threw w' | beyond ↦ beyond ])
  call_next-Keeps key rs (notified w) h next = next w h
  call_next-Keeps key rs (threw w) h next = h
  call_next-Keeps key rs beyond h next = tt

  pub call_readers-Keeps :
      (key : Text) (rs : List Reader) (w : World) → P w → NotifiedKeeps P (call_readers key rs w)
  unfolding call_readers
  call_readers-Keeps key [] w h = h
  call_readers-Keeps key (r ∷ rs) w h =
      call_next-Keeps key rs (on_new_entry key r w) (on_new_entry-Keeps key r w h)
        (λ w' h'. call_readers-Keeps key rs w' h')

  after_notice-Keeps :
      (w : World) (id : Text) (n : Notified) → P w → NotifiedKeeps P n → P (after_notice w id n).1
  after_notice-Keeps w id (notified w') h hn = hn
  after_notice-Keeps w id (threw w') h hn = hn
  after_notice-Keeps w id beyond h hn = h

  module _
      (stored : (k : Text) (es : List Entry) (new : Entry) (e : Option Date) (w : World)
        → P w
        → P (record w {
          store = set_value k (json_stream (es ++ new ∷ [])) stream e w.store;
        })) where
    add_with-Keeps :
        (k : Text) (es : List Entry) (id : NewId) (fields : List Text) (e : Option Date) (w : World)
        → P w
        → P (add_with k es id fields e w).1
    unfolding append_entry notify_new_entry
    add_with-Keeps k es (fresh id) fields e w h =
        after_notice-Keeps w id _ h (
          call_readers-Keeps k w.readers _
            (stored k es (record { id = id; fields = fields }) e w h))
    add_with-Keeps k es refused fields e w h = h
    add_with-Keeps k es untold fields e w h = h

    add_behind-Keeps :
        (k : Text) (new : Entry) (es : List Entry) (last : Option Entry) (e : Option Date)
        (w : World)
        → P w
        → P (add_behind k new es last e w).1
    add_behind-Keeps k new es none e w h = h
    add_behind-Keeps k new es (some last) e w h =
        add_with-Keeps k es (generate_entry_id w.clock new.id (some last.id)) new.fields e w h

    add_to_entries-Keeps :
        (k : Text) (new : Entry) (o : Option (List Entry)) (e : Option Date) (w : World)
        → P w
        → P (add_to_entries k new o e w).1
    add_to_entries-Keeps k new none e w h = h
    add_to_entries-Keeps k new (some es) e w h = add_behind-Keeps k new es (last_entry es) e w h

    add_to-Keeps :
        (k : Text) (new : Entry) (o : Option StoreValue) (w : World) → P w → P (add_to k new o w).1
    add_to-Keeps k new none w h =
        add_with-Keeps k [] (generate_entry_id w.clock new.id none) new.fields none w h
    add_to-Keeps k new (some v) w h = elim (Bool-cases (is_stream v.kind)) [
      | inl same ↦ rw same (add_to_entries-Keeps k new (entries_of v.value) v.expiration w h)
      | inr other ↦ rw other h
    ]

    add_parsed-Keeps : (k : Text) (o : Option Entry) (w : World) → P w → P (add_parsed k o w).1
    add_parsed-Keeps k none w h = h
    add_parsed-Keeps k (some new) w h = add_to-Keeps k new (get_value k w.store) w h

    pub xadd_command-Keeps : (args : List Text) (w : World) → P w → P (xadd_command args w).1
    unfolding xadd_command
    xadd_command-Keeps [] w h = h
    xadd_command-Keeps (k ∷ []) w h = h
    xadd_command-Keeps (k ∷ id ∷ []) w h = h
    xadd_command-Keeps (k ∷ id ∷ field ∷ []) w h = h
    xadd_command-Keeps (k ∷ id ∷ field ∷ value ∷ rest) w h =
        add_parsed-Keeps k (parse_stream_entries (id ∷ field ∷ value ∷ rest)) w h

module _ (P : World → Type 0)
    (waits : (timeout : ℕ) (keys starts : List Text) (w : World)
      → P w
      → P (wait_for_entries timeout keys starts w).1) where
  -- XREAD.
  read_or_wait-Keeps :
      (timeout : ℕ) (keys starts : List Text) (o : Option (List (Text × List Entry))) (w : World)
      → P w
      → P (read_or_wait timeout keys starts o w).1
  read_or_wait-Keeps timeout keys starts none w h = h
  read_or_wait-Keeps timeout keys starts (some []) w h = waits timeout keys starts w h
  read_or_wait-Keeps timeout keys starts (some (s ∷ ss)) w h = h

  read_blocking-Keeps :
      (timeout : ℕ) (keys : List Text) (o : Option (List Text)) (w : World)
      → P w
      → P (read_blocking timeout keys o w).1
  read_blocking-Keeps timeout keys none w h = h
  read_blocking-Keeps timeout keys (some starts) w h = read_or_wait-Keeps timeout keys starts _ w h

  read_streams-Keeps :
      (timeout : Option ℕ) (keys ids : List Text) (w : World)
      → P w
      → P (read_streams timeout keys ids w).1
  unfolding read_streams
  read_streams-Keeps none keys ids w h = elim (Bool-cases (includes (codes "$") ids)) [
    | inl last ↦ rw last h
    | inr told ↦ rw told h
  ]
  read_streams-Keeps (some timeout) keys ids w h = read_blocking-Keeps timeout keys _ w h

  read_request-Keeps : (r : Request) (w : World) → P w → P (read_request r w).1
  read_request-Keeps (wrong response) w h = h
  read_request-Keeps (request timeout words) w h = elim (Bool-cases (length words % 2 == 0)) [
    | inl even ↦ rw even (read_streams-Keeps timeout _ _ w h)
    | inr odd ↦ rw odd h
  ]

  pub xread_command-Keeps : (args : List Text) (w : World) → P w → P (xread_command args w).1
  unfolding xread_command
  xread_command-Keeps args w h = read_request-Keeps (parse_request args) w h
