-- ===== src/Streams/Shown.antt =====
-- What XRANGE and XREVRANGE answer behind XADD, where every field has its value.
use mathlib.Core.List.{reverse, reverse-cons}
use diy_redis.Base.{◌≡◌, refl, ◌∙◌, true, Option, some, List, [], ◌∷◌, ◌++◌, All, All-append}
use diy_redis.Js.Text.{Text, codes}
use diy_redis.Js.Date.{Date}
use diy_redis.Store.{Entry, json_stream, stream, get_value}
use diy_redis.Resp.Encode.{bulk_string_response}
use diy_redis.World.{World}
use diy_redis.Streams.Ids.{fresh, parse_stream_entries, generate_entry_id}
use diy_redis.Streams.Entries.{fields_text, entry_text, entries_text, to_resp_entry_array}
use diy_redis.Streams.Readers.{answered}
use diy_redis.Streams.Commands.{xadd_command, xrange_command, xrevrange_command, last_entry}
use diy_redis.Streams.Ranges.{AllVisible, xadd_ranges}
use diy_redis.Streams.Odd.{is_even}

-- Every field of the entry has a value.
abbrev IsPaired : Entry → Type 0
IsPaired e = is_even e.fields ≡ true

abbrev pub AllPaired : List Entry → Type 0
AllPaired = All IsPaired

fields_text-even :
    (fields : List Text) → is_even fields ≡ true → (t : Text) × (fields_text fields ≡ some t)
unfolding is_even fields_text
fields_text-even [] h = ([], refl)
fields_text-even (a ∷ []) h = absurd (cc)
fields_text-even (a ∷ b ∷ ts) h =
    let (rest, written) = fields_text-even ts h in rw written (_, refl)

entry_text-IsPaired : (e : Entry) → IsPaired e → (t : Text) × (entry_text e ≡ some t)
unfolding entry_text
entry_text-IsPaired e h =
    let (fields, written) = fields_text-even e.fields h in rw written (_, refl)

entries_text-AllPaired : (es : List Entry) → AllPaired es → (t : Text) × (entries_text es ≡ some t)
unfolding entries_text
entries_text-AllPaired [] h = ([], refl)
entries_text-AllPaired (e ∷ es) (h, hs) =
    let (first, front) = entry_text-IsPaired e h in
    let (rest, back) = entries_text-AllPaired es hs in (first ++ rest, rw (front, back) refl)

to_resp_entry_array-AllPaired :
    (es : List Entry) → AllPaired es → (t : Text) × (to_resp_entry_array es ≡ some t)
unfolding to_resp_entry_array
to_resp_entry_array-AllPaired es h =
    let (t, written) = entries_text-AllPaired es h in rw written (_, refl)

reverse-AllPaired : (es : List Entry) → AllPaired es → AllPaired (reverse es)
reverse-AllPaired [] h = tt
reverse-AllPaired (e ∷ es) (h, hs) =
    rw (reverse-cons e es)
      (All-append IsPaired (reverse es) (e ∷ []) (reverse-AllPaired es hs) (h, tt))

-- XADD to a stream, with an id of the right form for which the source finds a new id behind the last one, where every
-- field of the entries and of the new one has a value: when it replies, the reply is the new id, and from then on XRANGE
-- from - to + answers the array of the entries that were there and the new one behind them, and XREVRANGE from +
-- to - the array of the same in reverse. The ids are pairs of numbers that Number holds exactly, with milliseconds below
-- 9999999999999, which is how far + reaches.
pub xrange-xadd :
    (key id field value : Text) (rest : List Text) (entries : List Entry) (last : Entry)
    (e : Option Date) (w : World) (new_id reply : Text)
    → get_value key w.store
      ≡ some (record { value = json_stream entries; kind = stream; expiration = e })
    → last_entry entries ≡ some last
    → parse_stream_entries (id ∷ field ∷ value ∷ rest)
      ≡ some (record { id = id; fields = field ∷ value ∷ rest })
    → generate_entry_id w.clock id (some last.id) ≡ fresh new_id
    → (xadd_command (key ∷ id ∷ field ∷ value ∷ rest) w).0 ≡ answered reply
    → AllVisible (entries ++ (record { id = new_id; fields = field ∷ value ∷ rest }) ∷ [])
    → AllPaired (entries ++ (record { id = new_id; fields = field ∷ value ∷ rest }) ∷ [])
    → let all = entries ++ (record { id = new_id; fields = field ∷ value ∷ rest }) ∷ [] in
      let w' = (xadd_command (key ∷ id ∷ field ∷ value ∷ rest) w).1 in
      (reply ≡ bulk_string_response (some new_id))
      × ((array : Text) × (to_resp_entry_array all ≡ some array)
          × (xrange_command (key ∷ codes "-" ∷ codes "+" ∷ []) w'.store ≡ answered array))
      × ((array : Text) × (to_resp_entry_array (reverse all) ≡ some array)
          × (xrevrange_command (key ∷ codes "+" ∷ codes "-" ∷ []) w'.store ≡ answered array))
xrange-xadd key id field value rest entries last e w new_id reply held is_last form new done visible
      paired =
    let all = entries ++ (record { id = new_id; fields = field ∷ value ∷ rest }) ∷ [] in
    let (answer, shown, reversed) =
      xadd_ranges key id field value rest entries last e w new_id reply held is_last form new done
        visible in
    let (there, written) = to_resp_entry_array-AllPaired all paired in
    let (back, written_back) =
      to_resp_entry_array-AllPaired (reverse all) (reverse-AllPaired all paired) in
    (
      answer,
      (there, written, shown ∙ rw written refl),
      (back, written_back, reversed ∙ rw written_back refl),
    )
