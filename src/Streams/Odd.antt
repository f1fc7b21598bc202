-- ===== src/Streams/Odd.antt =====
-- Entries with a field that has no value.
use diy_redis.Base.{
  ◌≡◌, refl, ◌∙◌, Bool, true, false, Option, none, some, List, [], ◌∷◌, ◌++◌, ◌>>=◌,
}
use diy_redis.Js.Text.{Text, codes}
use diy_redis.Js.Date.{Date}
use diy_redis.Store.{Entry, json_stream, stream, get_value}
use diy_redis.Resp.Encode.{bulk_string_response}
use diy_redis.World.{World}
use diy_redis.Streams.Ids.{fresh, parse_stream_entries, generate_entry_id}
use diy_redis.Streams.Entries.{fields_text, entry_text, entries_text, to_resp_entry_array}
use diy_redis.Streams.Readers.{answered, raised}
use diy_redis.Streams.Commands.{xadd_command, xrange_command, last_entry}
use diy_redis.Streams.Ranges.{AllVisible, xadd_ranges}

unfoldable pub is_even : List Text → Bool
is_even [] = true
is_even (a ∷ []) = false
is_even (a ∷ b ∷ ts) = is_even ts

fields_text-odd : (fields : List Text) → is_even fields ≡ false → fields_text fields ≡ none
unfolding is_even fields_text
fields_text-odd [] h = absurd (cc)
fields_text-odd (a ∷ []) h = refl
fields_text-odd (a ∷ b ∷ ts) h = rw (fields_text-odd ts h) refl

no_text :
    (o : Option Text)
    → (o >>= λ (first : Text). ◌>>=◌ {A = Text} {B = Text} none (λ rest. some (first ++ rest)))
      ≡ none
no_text none = refl
no_text (some t) = refl

entries_text-odd :
    (es : List Entry) (new : Entry)
    → is_even new.fields ≡ false
    → entries_text (es ++ new ∷ []) ≡ none
unfolding entries_text entry_text
entries_text-odd [] new h = rw (fields_text-odd new.fields h) refl
entries_text-odd (e ∷ es) new h = rw (entries_text-odd es new h) (no_text (entry_text e))

-- XADD to a stream takes an entry whose last field has no value, and replies with its id as ever; from then on XRANGE
-- from - to + throws for this key. The ids are ones that the range shows.
pub xadd_odd :
    (key id field value : Text) (rest : List Text) (entries : List Entry) (last : Entry)
    (e : Option Date) (w : World) (new_id reply : Text)
    → get_value key w.store
      ≡ some (record { value = json_stream entries; kind = stream; expiration = e })
    → last_entry entries ≡ some last
    → parse_stream_entries (id ∷ field ∷ value ∷ rest)
      ≡ some (record { id = id; fields = field ∷ value ∷ rest })
    → generate_entry_id w.clock id (some last.id) ≡ fresh new_id
    → is_even (field ∷ value ∷ rest) ≡ false
    → (xadd_command (key ∷ id ∷ field ∷ value ∷ rest) w).0 ≡ answered reply
    → AllVisible (entries ++ (record { id = new_id; fields = field ∷ value ∷ rest }) ∷ [])
    → (reply ≡ bulk_string_response (some new_id))
      × (xrange_command
            (key ∷ codes "-" ∷ codes "+" ∷ [])
            (xadd_command (key ∷ id ∷ field ∷ value ∷ rest) w).1.store
          ≡ raised)
unfolding to_resp_entry_array
xadd_odd key id field value rest entries last e w new_id reply held is_last form new odd done
      visible =
    let fields = field ∷ value ∷ rest in
    let (answer, shown, reversed) =
      xadd_ranges key id field value rest entries last e w new_id reply held is_last form new done
        visible in
    (
      answer,
      shown ∙ rw (entries_text-odd entries (record { id = new_id; fields = fields }) odd) refl,
    )
