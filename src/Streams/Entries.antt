-- ===== src/Streams/Entries.antt =====
-- `getEntryRange`, `toRESPEntryArray` and `toRESPStreamArray` of utilities.ts.
use diy_redis.Base.{
  Bool, true, false, ◌&&◌, ◌||◌, Option, none, some, List, [], ◌∷◌, ◌++◌, ◌==◌, ltb, leb, length,
  if◌then◌else◌, ◌>>=◌,
}
use diy_redis.Js.Text.{Text, codes, str_eq, is_truthy}
use diy_redis.Js.Number.{decimal}
use diy_redis.Store.{Entry}
use diy_redis.Resp.Encode.{bulk}
use diy_redis.Streams.Ids.{Number, whole, nan, other, number_of, number_if, first_part, second_part}

-- `id.split("-").map(Number)`, its first two parts
pub record IdNumbers : Type 0 where
  pub ms : Number
  pub sequence : Number

unfoldable pub id_numbers : Text → IdNumbers
unfolding number_of first_part second_part
id_numbers id = record { ms = number_of (first_part id); sequence = number_if (second_part id) }

-- The comparisons; none holds for undefined. `other` is not compared.
abbrev pub more : Number → Number → Bool
more (whole a) (whole b) = ltb b a
more a b = false

abbrev pub equal : Number → Number → Bool
equal (whole a) (whole b) = a == b
equal a b = false

abbrev pub at_least : Number → Number → Bool
at_least (whole a) (whole b) = leb b a
at_least a b = false

abbrev pub is_told : Number → Bool
is_told (whole a) = true
is_told nan = true
is_told other = false

abbrev pub are_told : IdNumbers → Bool
are_told i = is_told i.ms && is_told i.sequence

unfoldable pub on_or_after : IdNumbers → IdNumbers → Bool
on_or_after i start =
    more i.ms start.ms || (equal i.ms start.ms && at_least i.sequence start.sequence)

unfoldable pub on_or_before : IdNumbers → IdNumbers → Bool
on_or_before i end = more end.ms i.ms || (equal i.ms end.ms && at_least end.sequence i.sequence)

unfoldable pub after : IdNumbers → IdNumbers → Bool
after i start = more i.ms start.ms || (equal i.ms start.ms && more i.sequence start.sequence)

abbrev pub lowest_id : Text
lowest_id = codes "0-0"

abbrev pub highest_id : Text
highest_id = codes "9999999999999-9999999"

abbrev pub start_of : Text → Text
start_of start = if str_eq start (codes "-") then lowest_id else start

abbrev pub end_of : Text → Text
end_of end = if str_eq end (codes "+") then highest_id else end

-- The test of the filter, with `endId` and without it. `none`: one of the numbers is `other`.
unfoldable pub between : Text → Text → Text → Option Bool
unfolding on_or_after on_or_before
between start end id =
    let i = id_numbers id in
    let s = id_numbers (start_of start) in
    let e = id_numbers (end_of end) in
    if are_told i && (are_told s && are_told e)
    then some (on_or_after i s && on_or_before i e)
    else none

unfoldable pub behind : Text → Text → Option Bool
unfolding after
behind start id =
    let i = id_numbers id in
    let s = id_numbers start in if are_told i && are_told s then some (after i s) else none

abbrev kept_entry : Entry → Option Bool → List Entry → Option (List Entry)
kept_entry e none es = none
kept_entry e (some true) es = some (e ∷ es)
kept_entry e (some false) es = some es

unfoldable pub filter_entries : (Text → Option Bool) → List Entry → Option (List Entry)
filter_entries test [] = some []
filter_entries test (e ∷ es) = filter_entries test es >>= kept_entry e (test e.id)

-- `getEntryRange`; an empty `endId` is no bound.
unfoldable pub get_entry_range : List Entry → Text → Option Text → Option (List Entry)
unfolding filter_entries between behind
get_entry_range entries start none = filter_entries (behind start) entries
get_entry_range entries start (some end) =
    if is_truthy end
    then filter_entries (between start end) entries
    else filter_entries (behind start) entries

-- `toRESPEntryArray`. `none`: a field without a value, whose length is a TypeError.
unfoldable pub fields_text : List Text → Option Text
fields_text [] = some []
fields_text (key ∷ []) = none
fields_text (key ∷ value ∷ fields) = do
  rest ← fields_text fields
  some (bulk key ++ (bulk value ++ rest))

abbrev pub array_header : List Text → Text
array_header fields = b'*' ∷ (decimal (length fields) ++ 13 ∷ 10 ∷ [])

unfoldable pub entry_text : Entry → Option Text
unfolding fields_text
entry_text e = do
  fields ← fields_text e.fields
  some (codes "*2" ++ (13 ∷ 10 ∷ (bulk e.id ++ (array_header e.fields ++ fields))))

unfoldable pub entries_text : List Entry → Option Text
unfolding entry_text
entries_text [] = some []
entries_text (e ∷ es) = do first ← entry_text e; rest ← entries_text es; some (first ++ rest)

unfoldable pub to_resp_entry_array : List Entry → Option Text
unfolding entries_text
to_resp_entry_array es = do
  text ← entries_text es
  some (b'*' ∷ (decimal (length es) ++ 13 ∷ 10 ∷ text))

-- `toRESPStreamArray`
unfoldable pub streams_text : List (Text × List Entry) → Option Text
unfolding to_resp_entry_array
streams_text [] = some []
streams_text ((key, es) ∷ streams) = do
  entries ← to_resp_entry_array es
  rest ← streams_text streams
  some (codes "*2" ++ (13 ∷ 10 ∷ (bulk key ++ (entries ++ rest))))

unfoldable pub to_resp_stream_array : List (Text × List Entry) → Option Text
unfolding streams_text
to_resp_stream_array streams = do
  text ← streams_text streams
  some (b'*' ∷ (decimal (length streams) ++ 13 ∷ 10 ∷ text))
