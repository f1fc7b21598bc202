-- ===== src/Streams/Waking.antt =====
-- XREAD that waits for the entry that XADD brings.
use diy_redis.Base.{
  ℕ, ◌≡◌, refl, Bool, true, false, Option, some, List, [], ◌∷◌, ◌++◌, ◌==◌, arith, All,
}
use diy_redis.Js.Text.{Text, codes, str_eq, str_eq_refl, to_lower}
use diy_redis.Js.Number.{decimal, parse_int-decimal}
use diy_redis.Js.Map.{includes}
use diy_redis.Js.Date.{Date}
use diy_redis.Store.{Entry, Store, json_stream, stream, get_value, set_value, get_value-set_value}
use diy_redis.Resp.Encode.{bulk_string_response}
use diy_redis.World.{Reader, World}
use diy_redis.Streams.Ids.{fresh, parse_stream_entries, generate_entry_id}
use diy_redis.Streams.Entries.{behind, filter_entries, get_entry_range, to_resp_stream_array}
use diy_redis.Streams.Readers.{
  answered, blocked, notified, process_xread, results_in, on_new_entry, call_readers,
  notify_new_entry, forget_reader, remove_reader,
}
use diy_redis.Streams.Commands.{last_entry, xadd_command, append_entry}
use diy_redis.Streams.Xread.{
  xread_command, parse_request, from_word, resolve_ids, id_now, wait_for_entries, read_streams,
}
use diy_redis.Streams.Added.{xadd-append_entry}

filter-none :
    (test : Text → Option Bool) (es : List Entry)
    → All (λ e. test e.id ≡ some false) es
    → filter_entries test es ≡ some []
unfolding filter_entries
filter-none test [] h = refl
filter-none test (e ∷ es) (h, hs) = rw (filter-none test es hs, h) refl

filter-last :
    (test : Text → Option Bool) (es : List Entry) (new : Entry)
    → All (λ e. test e.id ≡ some false) es
    → test new.id ≡ some true
    → filter_entries test (es ++ new ∷ []) ≡ some (new ∷ [])
unfolding filter_entries
filter-last test [] new h here = rw here refl
filter-last test (e ∷ es) new (h, hs) here = rw (filter-last test es new hs here, h) refl

-- The request for what comes behind the last entry of one stream, for at most so many milliseconds.
abbrev pub wait_words : ℕ → Text → List Text
wait_words timeout key = codes "BLOCK" ∷ decimal timeout ∷ codes "STREAMS" ∷ key ∷ codes "$" ∷ []

eq_refl : (n : ℕ) → (n == n) ≡ true
eq_refl n = ground arith

module _ (key : Text) (entries : List Entry) (last : Entry) (e : Option Date) (w : World)
    (timeout : ℕ)
    (held : get_value key w.store
      ≡ some (record { value = json_stream entries; kind = stream; expiration = e }))
    (is_last : last_entry entries ≡ some last)
    (sorted : All (λ old. behind last.id old.id ≡ some false) entries) where
  ids_lem : resolve_ids (key ∷ []) (codes "$" ∷ []) w.store ≡ some (last.id ∷ [])
  unfolding resolve_ids id_now str_eq
  ids_lem = rw (held, is_last) refl

  nothing_behind : process_xread (key ∷ []) (last.id ∷ []) w.store ≡ some []
  unfolding process_xread results_in get_entry_range
  nothing_behind = rw (held, filter-none (behind last.id) entries sorted) refl

  xread_waits :
      xread_command (wait_words timeout key) w
      ≡ wait_for_entries timeout (key ∷ []) (last.id ∷ []) w
  unfolding xread_command parse_request from_word to_lower str_eq read_streams
  xread_waits = rw (parse_int-decimal timeout, ids_lem, nothing_behind) refl

  module _ (new_id : Text) (fields : List Text) (response : Text)
      (later : behind last.id new_id ≡ some true)
      (readable : to_resp_stream_array ((key, (record { id = new_id; fields = fields }) ∷ []) ∷ [])
        ≡ some response) where
    abbrev grown_store : Store
    grown_store =
        set_value key (json_stream (entries ++ (record { id = new_id; fields = fields }) ∷ []))
          stream e w.store

    abbrev reader : ℕ → Reader
    reader n = record { promise = n; stream_keys = key ∷ []; start_ids = last.id ∷ [] }

    -- What the listener finds when the entry has been written.
    found_behind :
        process_xread (key ∷ []) (last.id ∷ []) grown_store
        ≡ some ((key, (record { id = new_id; fields = fields }) ∷ []) ∷ [])
    unfolding process_xread results_in get_entry_range
    found_behind =
        rw
          (
            get_value-set_value key key,
            str_eq_refl key,
            filter-last (behind last.id) entries (record { id = new_id; fields = fields }) sorted
                later,
          )
          refl

    woken :
        (n : ℕ) (v : World)
        → v.store ≡ grown_store
        → on_new_entry key (reader n) v
          ≡ notified
              (record (forget_reader n v) { read_answers = v.read_answers ++ (n, response) ∷ [] })
    unfolding on_new_entry includes forget_reader
    woken n v same = rw (same, str_eq_refl key, found_behind, readable) refl

    -- The listener is taken off, and its promise resolved.
    append_entry-wakes :
        (n : ℕ) (v : World)
        → v.store ≡ w.store
        → v.readers ≡ reader n ∷ []
        → append_entry key entries new_id fields e v ≡ (
          answered (bulk_string_response (some new_id)),
          record (forget_reader n (record v { store = grown_store })) {
            read_answers = v.read_answers ++ (n, response) ∷ [];
          },
        )
    unfolding append_entry notify_new_entry call_readers
    append_entry-wakes n v same one =
        rw
          (
            same,
            one,
            call_readers,
            woken n (record v { store = grown_store; readers = reader n ∷ [] }) refl,
          )
          refl

-- A client reads with BLOCK and `$` from a stream that has entries, none of them behind the last one; nobody else reads
-- so. It is not answered and waits. Then XADD adds an entry behind the last one, with a value for every field: XADD
-- replies with the entry's id, and in the same step the client is answered with just this entry, and its listener is
-- taken off.
pub xread-xadd :
    (timeout : ℕ) (key id field value : Text) (rest : List Text) (entries : List Entry)
    (last : Entry) (e : Option Date) (w : World) (new_id response : Text)
    → get_value key w.store
      ≡ some (record { value = json_stream entries; kind = stream; expiration = e })
    → last_entry entries ≡ some last
    → All (λ old. behind last.id old.id ≡ some false) entries
    → parse_stream_entries (id ∷ field ∷ value ∷ rest)
      ≡ some (record { id = id; fields = field ∷ value ∷ rest })
    → generate_entry_id w.clock id (some last.id) ≡ fresh new_id
    → behind last.id new_id ≡ some true
    → to_resp_stream_array
        ((key, (record { id = new_id; fields = field ∷ value ∷ rest }) ∷ []) ∷ [])
      ≡ some response
    → w.readers ≡ []
    → let (waiting, w') = xread_command (wait_words timeout key) w in
      let (reply, w'') = xadd_command (key ∷ id ∷ field ∷ value ∷ rest) w' in
      (waiting ≡ blocked w.next_waiter)
      × (w'.read_answers ≡ w.read_answers)
      × (reply ≡ answered (bulk_string_response (some new_id)))
      × (w''.read_answers ≡ w.read_answers ++ (w.next_waiter, response) ∷ [])
      × (w''.readers ≡ [])
unfolding wait_for_entries forget_reader remove_reader
xread-xadd timeout key id field value rest entries last e w new_id response held is_last sorted form
      new later readable alone =
    let v = (wait_for_entries timeout (key ∷ []) (last.id ∷ []) w).1 in
    let waits = xread_waits key entries last e w timeout held is_last sorted in
    let added =
      xadd-append_entry key id field value rest entries last e v new_id held is_last form new in
    let wakes =
      append_entry-wakes key entries last e w timeout held is_last sorted new_id
        (field ∷ value ∷ rest) response later readable w.next_waiter v refl (rw alone refl) in
    rw (waits, added, wakes) (refl, refl, refl, refl, rw (alone, eq_refl w.next_waiter) refl)
