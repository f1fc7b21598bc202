-- ===== src/Streams/Ranges.antt =====
-- What XRANGE and XREVRANGE show of a stream that XADD has added to.
use mathlib.Core.List.{reverse}
use diy_redis.Base.{ℕ, ◌<◌, ◌≡◌, refl, Bool, true, Option, some, List, [], ◌∷◌, ◌++◌, arith, All}
use diy_redis.Js.Text.{Text, codes, str_eq}
use diy_redis.Js.Number.{digits}
use diy_redis.Js.Date.{Date}
use diy_redis.Store.{Entry, Store, json_stream, stream, get_value}
use diy_redis.Resp.Encode.{bulk_string_response}
use diy_redis.World.{World}
use diy_redis.Streams.Ids.{
  fresh, whole, all_digits, first_part, behind_dash, second_part, number_of, parse_stream_entries,
  generate_entry_id,
}
use diy_redis.Streams.Entries.{
  id_numbers, between, filter_entries, get_entry_range, on_or_after, on_or_before, lowest_id,
  highest_id,
}
use diy_redis.Streams.Readers.{answered}
use diy_redis.Streams.Commands.{
  last_entry, xadd_command, xrange_command, xrevrange_command, parse_limit, reply_with,
}
use diy_redis.Streams.Added.{xadd-append_entry, append_entry_lem}

-- An id of two numbers, the first below the one that stands for `+`.
pub record IsVisible (id : Text) : Type 0 where
  pub ms : ℕ
  pub sequence : ℕ
  pub numbers : id_numbers id ≡ record { ms = whole ms; sequence = whole sequence }
  pub early : ms < 9_999_999_999_999

lowest_numbers : id_numbers lowest_id ≡ record { ms = whole 0; sequence = whole 0 }
unfolding id_numbers number_of digits second_part first_part behind_dash all_digits
lowest_numbers = refl

highest_numbers :
    id_numbers highest_id ≡ record { ms = whole 9_999_999_999_999; sequence = whole 9_999_999 }
unfolding id_numbers number_of digits second_part first_part behind_dash all_digits
highest_numbers = refl

between-IsVisible : (id : Text) → IsVisible id → between (codes "-") (codes "+") id ≡ some true
unfolding between str_eq on_or_after on_or_before
between-IsVisible id h =
    let early = h.early in rw (h.numbers, lowest_numbers, highest_numbers) (ground arith)

filter_every :
    (test : Text → Option Bool) (es : List Entry)
    → All (λ e. test e.id ≡ some true) es
    → filter_entries test es ≡ some es
unfolding filter_entries
filter_every test [] h = refl
filter_every test (e ∷ es) (h, hs) = rw (h, filter_every test es hs) refl

abbrev pub AllVisible : List Entry → Type 0
AllVisible = All (λ e. IsVisible e.id)

between_every :
    (es : List Entry)
    → AllVisible es
    → All (λ e. between (codes "-") (codes "+") e.id ≡ some true) es
between_every [] h = tt
between_every (e ∷ es) (h, hs) = (between-IsVisible e.id h, between_every es hs)

range_of_all :
    (es : List Entry) → AllVisible es → get_entry_range es (codes "-") (some (codes "+")) ≡ some es
unfolding get_entry_range
range_of_all es h = filter_every (between (codes "-") (codes "+")) es (between_every es h)

module _ (key : Text) (es : List Entry) (e : Option Date) (store : Store)
    (held : get_value key store
      ≡ some (record { value = json_stream es; kind = stream; expiration = e }))
    (visible : AllVisible es) where
  xrange_lem : xrange_command (key ∷ codes "-" ∷ codes "+" ∷ []) store ≡ reply_with (some es)
  unfolding xrange_command
  xrange_lem = rw (held, range_of_all es visible) refl

  xrevrange_lem :
      xrevrange_command (key ∷ codes "+" ∷ codes "-" ∷ []) store ≡ reply_with (some (reverse es))
  unfolding xrevrange_command parse_limit
  xrevrange_lem = rw (held, range_of_all es visible) refl

-- The entries that XRANGE and XREVRANGE write behind an XADD that replies; whether they can be written is open here.
pub xadd_ranges :
    (key id field value : Text) (rest : List Text) (entries : List Entry) (last : Entry)
    (e : Option Date) (w : World) (new_id reply : Text)
    → get_value key w.store
      ≡ some (record { value = json_stream entries; kind = stream; expiration = e })
    → last_entry entries ≡ some last
    → parse_stream_entries (id ∷ field ∷ value ∷ rest)
      ≡ some (record { id = id; fields = field ∷ value ∷ rest })
    → generate_entry_id w.clock id (some last.id) ≡ fresh new_id
    → (xadd_command (key ∷ id ∷ field ∷ value ∷ rest) w).0 ≡ answered reply
    → AllVisible (entries ++ (record { id = new_id; fields = field ∷ value ∷ rest }) ∷ [])
    → let all = entries ++ (record { id = new_id; fields = field ∷ value ∷ rest }) ∷ [] in
      let w' = (xadd_command (key ∷ id ∷ field ∷ value ∷ rest) w).1 in
      (reply ≡ bulk_string_response (some new_id))
      × (xrange_command (key ∷ codes "-" ∷ codes "+" ∷ []) w'.store ≡ reply_with (some all))
      × (xrevrange_command (key ∷ codes "+" ∷ codes "-" ∷ []) w'.store
          ≡ reply_with (some (reverse all)))
xadd_ranges key id field value rest entries last e w new_id reply held is_last form new done
      visible =
    let fields = field ∷ value ∷ rest in
    let all = entries ++ (record { id = new_id; fields = fields }) ∷ [] in
    let same =
      xadd-append_entry key id field value rest entries last e w new_id held is_last form new in
    let (answer, stored) = append_entry_lem key entries new_id fields e w reply (rw same at done) in
    (
      answer,
      rw same (xrange_lem key all e _ stored visible),
      rw same (xrevrange_lem key all e _ stored visible),
    )
