-- ===== src/Tests/StreamEntries.antt =====
-- Streams at concrete inputs.
use mathlib.Core.List.{reverse}
use diy_redis.Base.{
  ◌≡◌, refl, true, false, some, none, List, [], ◌∷◌, ◌++◌, All, arith, ltb, ◌==◌, if◌then◌else◌,
  suc,
}
use diy_redis.Js.Text.{Text, codes, crlf, str_eq}
use diy_redis.Js.Number.{digits, decimal}
use diy_redis.Js.Map.{lookup}
use diy_redis.Store.{Entry, json_stream, stream, get_value}
use diy_redis.Resp.Encode.{bulk, bulk_string_response}
use diy_redis.World.{World}
use diy_redis.Streams.{
  fresh, refused, answered, blocked, raised, all_digits, first_part, behind_dash, second_part,
  number_of, text_lt, is_stream_id, parse_stream_entries, following_id, generate_entry_id, joined,
  id_numbers, after, behind, entry_text, fields_text, entries_text, to_resp_entry_array,
  streams_text, to_resp_stream_array, last_entry, xadd_command, xrange_command, xrevrange_command,
  xread_command, append_entry, notify_new_entry, call_readers,
}
use diy_redis.Streams.Numerals.{numeral}
use diy_redis.Streams.Parts.{IsNumeral}
use diy_redis.Streams.Order.{comes_before, generate_entry_id_lem}
use diy_redis.Streams.Ranges.{IsVisible}
use diy_redis.Streams.Shown.{AllPaired, xrange-xadd}
use diy_redis.Streams.Waking.{wait_words, xread-xadd}
use diy_redis.Streams.Odd.{is_even, xadd_odd}
use diy_redis.Tests.Data.{key, quiet_world}

nine-IsNumeral : IsNumeral (codes "9")
unfolding all_digits
nine-IsNumeral = record { only = refl; some_digit = refl }

five-IsNumeral : IsNumeral (codes "5")
unfolding all_digits
five-IsNumeral = record { only = refl; some_digit = refl }

generate_entry_id_lem_example :
    (generate_entry_id 2000 (joined (codes "5") (codes "9")) (some (joined (codes "5") (codes "5")))
      ≡ (if comes_before
            (numeral 0 (codes "5"))
            (numeral 0 (codes "5"))
            (numeral 0 (codes "5"))
            (numeral 0 (codes "9"))
          then fresh (joined (codes "5") (codes "9"))
          else refused))
    × (generate_entry_id 2000
          (joined (codes "5") (codes "*"))
          (some (joined (codes "5") (codes "5")))
        ≡ (if ltb (numeral 0 (codes "5")) (numeral 0 (codes "5"))
            then refused
            else fresh (
                joined (codes "5") (
                  if numeral 0 (codes "5") == numeral 0 (codes "5")
                  then decimal (suc (numeral 0 (codes "5")))
                  else codes "0"))))
generate_entry_id_lem_example =
    generate_entry_id_lem 2000 (codes "5") (codes "5") (codes "5") (codes "9") five-IsNumeral
      five-IsNumeral five-IsNumeral nine-IsNumeral refl refl (unfold numeral in omega arith)

-- Ids are compared as strings: 10 does not come behind 9.
compared_as_strings : generate_entry_id 2000 (codes "10-1") (some (codes "9-1")) ≡ refused
unfolding generate_entry_id following_id first_part second_part behind_dash text_lt str_eq
compared_as_strings = refl

abbrev first_entry : Entry
first_entry = record { id = codes "5-1"; fields = codes "f" ∷ codes "a" ∷ [] }

abbrev new_entry : Entry
new_entry = record { id = codes "7-0"; fields = codes "f" ∷ codes "b" ∷ [] }

abbrev stream_world : World
stream_world = record quiet_world {
  store =
      (key, record { value = json_stream (first_entry ∷ []); kind = stream; expiration = none })
      ∷ [];
}

stream_held :
    get_value key stream_world.store
    ≡ some (record { value = json_stream (first_entry ∷ []); kind = stream; expiration = none })
unfolding get_value lookup str_eq
stream_held = refl

first-last : last_entry (first_entry ∷ []) ≡ some first_entry
unfolding last_entry
first-last = refl

abbrev add_words : List Text
add_words = key ∷ codes "7-*" ∷ codes "f" ∷ codes "b" ∷ []

add-parsed :
    parse_stream_entries (codes "7-*" ∷ codes "f" ∷ codes "b" ∷ [])
    ≡ some (record { id = codes "7-*"; fields = codes "f" ∷ codes "b" ∷ [] })
unfolding parse_stream_entries is_stream_id all_digits first_part behind_dash str_eq
add-parsed = refl

add-generated : generate_entry_id 2000 (codes "7-*") (some (codes "5-1")) ≡ fresh (codes "7-0")
unfolding generate_entry_id following_id first_part second_part behind_dash text_lt str_eq
add-generated = refl

first-IsVisible : IsVisible (codes "5-1")
unfolding id_numbers number_of digits second_part first_part behind_dash all_digits
first-IsVisible = record { ms = 5; sequence = 1; numbers = refl; early = omega arith }

new-IsVisible : IsVisible (codes "7-0")
unfolding id_numbers number_of digits second_part first_part behind_dash all_digits
new-IsVisible = record { ms = 7; sequence = 0; numbers = refl; early = omega arith }

no_listener :
    (xadd_command add_words stream_world).0 ≡ answered (bulk_string_response (some (codes "7-0")))
unfolding xadd_command append_entry notify_new_entry call_readers get_value lookup str_eq last_entry
    parse_stream_entries is_stream_id all_digits first_part behind_dash generate_entry_id
    following_id second_part text_lt
no_listener = refl

both_paired : AllPaired (first_entry ∷ new_entry ∷ [])
unfolding is_even
both_paired = (refl, (refl, tt))

xrange-xadd_example :
    (bulk_string_response (some (codes "7-0")) ≡ bulk_string_response (some (codes "7-0")))
    × ((array : Text) × (to_resp_entry_array (first_entry ∷ new_entry ∷ []) ≡ some array)
        × (xrange_command
              (key ∷ codes "-" ∷ codes "+" ∷ [])
              (xadd_command add_words stream_world).1.store
            ≡ answered array))
    × ((array : Text) × (to_resp_entry_array (reverse (first_entry ∷ new_entry ∷ [])) ≡ some array)
        × (xrevrange_command
              (key ∷ codes "+" ∷ codes "-" ∷ [])
              (xadd_command add_words stream_world).1.store
            ≡ answered array))
xrange-xadd_example =
    xrange-xadd key (codes "7-*") (codes "f") (codes "b") [] (first_entry ∷ []) first_entry none
      stream_world (codes "7-0") (bulk_string_response (some (codes "7-0"))) stream_held first-last
      add-parsed add-generated no_listener (first-IsVisible, (new-IsVisible, tt)) both_paired

first_behind : All (λ old. behind (codes "5-1") old.id ≡ some false) (first_entry ∷ [])
unfolding behind after id_numbers number_of digits second_part first_part behind_dash all_digits
first_behind = (refl, tt)

new_behind : behind (codes "5-1") (codes "7-0") ≡ some true
unfolding behind after id_numbers number_of digits second_part first_part behind_dash all_digits
new_behind = refl

-- "*1\r\n*2\r\n$1\r\nk\r\n*1\r\n*2\r\n$3\r\n7-0\r\n*2\r\n$1\r\nf\r\n$1\r\nb\r\n"
abbrev read_reply : Text
read_reply =
    codes "*1"
    ++ (crlf
        ++ (codes "*2"
            ++ (crlf
                ++ (bulk key
                    ++ (codes "*1"
                        ++ (crlf
                            ++ (codes "*2"
                                ++ (crlf
                                    ++ (bulk (codes "7-0")
                                        ++ (codes "*2"
                                            ++ (crlf
                                                ++ (bulk (codes "f") ++ bulk (codes "b")))))))))))))

new_readable : to_resp_stream_array ((key, new_entry ∷ []) ∷ []) ≡ some read_reply
unfolding to_resp_stream_array streams_text to_resp_entry_array entries_text entry_text fields_text
    bulk decimal
new_readable = refl

xread-xadd_example :
    let (waiting, w') = xread_command (wait_words 100 key) stream_world in
    let (reply, w'') = xadd_command add_words w' in
    (waiting ≡ blocked 2)
    × (w'.read_answers ≡ [])
    × (reply ≡ answered (bulk_string_response (some (codes "7-0"))))
    × (w''.read_answers ≡ (2, read_reply) ∷ [])
    × (w''.readers ≡ [])
xread-xadd_example =
    xread-xadd 100 key (codes "7-*") (codes "f") (codes "b") [] (first_entry ∷ []) first_entry none
      stream_world (codes "7-0") read_reply stream_held first-last first_behind add-parsed
      add-generated new_behind new_readable refl

abbrev odd_words : List Text
odd_words = key ∷ codes "7-*" ∷ codes "f" ∷ codes "b" ∷ codes "g" ∷ []

odd-parsed :
    parse_stream_entries (codes "7-*" ∷ codes "f" ∷ codes "b" ∷ codes "g" ∷ [])
    ≡ some (record { id = codes "7-*"; fields = codes "f" ∷ codes "b" ∷ codes "g" ∷ [] })
unfolding parse_stream_entries is_stream_id all_digits first_part behind_dash str_eq
odd-parsed = refl

odd_fields : is_even (codes "f" ∷ codes "b" ∷ codes "g" ∷ []) ≡ false
unfolding is_even
odd_fields = refl

odd-answered :
    (xadd_command odd_words stream_world).0 ≡ answered (bulk_string_response (some (codes "7-0")))
unfolding xadd_command append_entry notify_new_entry call_readers get_value lookup str_eq last_entry
    parse_stream_entries is_stream_id all_digits first_part behind_dash generate_entry_id
    following_id second_part text_lt
odd-answered = refl

xadd_odd_example :
    (bulk_string_response (some (codes "7-0")) ≡ bulk_string_response (some (codes "7-0")))
    × (xrange_command
          (key ∷ codes "-" ∷ codes "+" ∷ [])
          (xadd_command odd_words stream_world).1.store
        ≡ raised)
xadd_odd_example =
    xadd_odd key (codes "7-*") (codes "f") (codes "b") (codes "g" ∷ []) (first_entry ∷ [])
      first_entry none stream_world (codes "7-0") (bulk_string_response (some (codes "7-0")))
      stream_held first-last odd-parsed add-generated odd_fields odd-answered
      (first-IsVisible, (new-IsVisible, tt))
