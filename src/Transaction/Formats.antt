-- ===== src/Transaction/Formats.antt =====
-- The other two writers of arrays in utilities.ts, which EXEC does not use.
use diy_redis.Base.{◌≡◌, refl, false, some, List, [], ◌∷◌, ◌++◌, map, length, All}
use diy_redis.Js.Text.{Text, codes, crlf, starts_with}
use diy_redis.Js.Number.{decimal, number_text}
use diy_redis.Resp.Encode.{bulk_string_response}
use diy_redis.Transaction.Defs.{
  Response, string, number, null, format_response, format_responses,
  format_array_of_responses_with_errors,
}

-- One round of the loop of `formatArrayOfResponses`.
unfoldable pub format_item : Response → Text
format_item (string s) = bulk_string_response (some s)
format_item (number n) = codes ":" ++ (number_text n ++ crlf)
format_item null = codes "$-1" ++ crlf

unfoldable pub format_items : List Response → Text
unfolding format_item
format_items [] = []
format_items (r ∷ rs) = format_item r ++ format_items rs

unfoldable pub format_array_of_responses : List Response → Text
unfolding format_items
format_array_of_responses rs = codes "*" ++ (decimal (length rs) ++ (crlf ++ format_items rs))

-- The result of `toRESPArrayOfFormattedStrings`: what its first loop builds is not used.
unfoldable pub join_bulk : List Text → Text
join_bulk [] = []
join_bulk (t ∷ ts) = bulk_string_response (some t) ++ join_bulk ts

unfoldable pub to_resp_array_of_formatted_strings : List Text → Text
unfolding join_bulk
to_resp_array_of_formatted_strings ts = codes "*" ++ (decimal (length ts) ++ (crlf ++ join_bulk ts))

abbrev pub IsNoError : Response → Type 0
IsNoError (string s) = starts_with s (codes "-") ≡ false
IsNoError (number n) = Unit {0}
IsNoError null = Unit {0}

format_item-same : (r : Response) → IsNoError r → format_response r ≡ format_item r
unfolding format_response format_item
format_item-same (string s) h = rw h refl
format_item-same (number n) h = refl
format_item-same null h = refl

format_items-same : (rs : List Response) → All IsNoError rs → format_responses rs ≡ format_items rs
unfolding format_responses format_items
format_items-same [] h = refl
format_items-same (r ∷ rs) (h, hs) = rw (format_item-same r h, format_items-same rs hs) refl

join_bulk-same : (ts : List Text) → join_bulk ts ≡ format_items (map string ts)
unfolding join_bulk format_items format_item
join_bulk-same [] = refl
join_bulk-same (t ∷ ts) = rw (join_bulk-same ts) refl

length-map {ℓ κ} :
    {A : Type ℓ} {B : Type κ} (f : A → B) (xs : List A) → length (map f xs) ≡ length xs
length-map f [] = refl
length-map f (x ∷ xs) = rw (length-map f xs) refl

-- The writer of replies that EXEC uses and the one that knows no errors agree on responses of which no text begins
-- with "-", and the writer of texts gives for texts, whatever they begin with, what the one that knows no errors gives.
pub formats_agree :
    (rs : List Response) (ts : List Text)
    → All IsNoError rs
    → (format_array_of_responses_with_errors rs ≡ format_array_of_responses rs)
      × (to_resp_array_of_formatted_strings ts ≡ format_array_of_responses (map string ts))
unfolding format_array_of_responses_with_errors format_array_of_responses
    to_resp_array_of_formatted_strings
formats_agree rs ts h =
    (rw (format_items-same rs h) refl, rw (join_bulk-same ts, length-map string ts) refl)
