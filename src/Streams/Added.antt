-- ===== src/Streams/Added.antt =====
-- What XADD leaves in the store, whatever the listeners do.
use diy_redis.Base.{◌≡◌, refl, Option, some, List, [], ◌∷◌, ◌++◌}
use diy_redis.Js.Text.{Text, str_eq_refl}
use diy_redis.Js.Date.{Date}
use diy_redis.Store.{Entry, Store, json_stream, stream, get_value, set_value, get_value-set_value}
use diy_redis.Resp.Encode.{bulk_string_response}
use diy_redis.World.{Reader, World}
use diy_redis.Streams.Ids.{fresh, parse_stream_entries, generate_entry_id}
use diy_redis.Streams.Readers.{
  answered, Notified, notified, threw, beyond, call_readers, notify_new_entry, forget_reader,
}
use diy_redis.Streams.Kept.{NotifiedKeeps, call_readers-Keeps}
use diy_redis.Streams.Commands.{last_entry, xadd_command, append_entry, after_notice}

-- The listeners leave the store alone.
abbrev HasStore : Store → World → Type 0
HasStore s w = w.store ≡ s

listeners-HasStore :
    (key : Text) (s : Store) (rs : List Reader) (w : World)
    → w.store ≡ s
    → NotifiedKeeps (HasStore s) (call_readers key rs w)
unfolding forget_reader
listeners-HasStore key s = call_readers-Keeps (HasStore s) (λ n w h. h) (λ n response w h. h) key

after_notice_lem :
    (w : World) (id reply : Text) (s : Store) (n : Notified)
    → NotifiedKeeps (HasStore s) n
    → (after_notice w id n).0 ≡ answered reply
    → (reply ≡ bulk_string_response (some id)) × ((after_notice w id n).1.store ≡ s)
after_notice_lem w id reply s (notified w') h done = (cc, h)
after_notice_lem w id reply s (threw w') h done = absurd (cc)
after_notice_lem w id reply s beyond h done = absurd (cc)

-- The entry at the end of what the key holds, when XADD has replied.
module _ (key : Text) (entries : List Entry) (id : Text) (fields : List Text) (e : Option Date)
    (w : World) (reply : Text)
    (done : (append_entry key entries id fields e w).0 ≡ answered reply) where
  pub append_entry_lem :
      (reply ≡ bulk_string_response (some id))
      × (get_value key (append_entry key entries id fields e w).1.store
          ≡ some (record {
            value = json_stream (entries ++ (record { id = id; fields = fields }) ∷ []);
            kind = stream;
            expiration = e;
          }))
  unfolding append_entry notify_new_entry
  append_entry_lem =
      let s =
        set_value key (json_stream (entries ++ (record { id = id; fields = fields }) ∷ [])) stream e
          w.store in
      let (same, kept) =
        after_notice_lem w id reply s _
          (listeners-HasStore key s w.readers (record w { store = s }) refl) done in
      (same, rw (kept, get_value-set_value key key, str_eq_refl key) refl)

module _ (key id field value : Text) (rest : List Text) (entries : List Entry) (last : Entry)
    (e : Option Date) (w : World) (new_id : Text) where
  -- XADD to a stream that has entries, down to the writing.
  pub xadd-append_entry :
      get_value key w.store
        ≡ some (record { value = json_stream entries; kind = stream; expiration = e })
      → last_entry entries ≡ some last
      → parse_stream_entries (id ∷ field ∷ value ∷ rest)
        ≡ some (record { id = id; fields = field ∷ value ∷ rest })
      → generate_entry_id w.clock id (some last.id) ≡ fresh new_id
      → xadd_command (key ∷ id ∷ field ∷ value ∷ rest) w
        ≡ append_entry key entries new_id (field ∷ value ∷ rest) e w
  unfolding xadd_command
  xadd-append_entry held is_last form new = rw (form, held, is_last, new) refl
