-- ===== src/Resp/Encode.antt =====
-- The reply writers of utilities.ts. A text is what the server hands to `connection.write`.
use diy_redis.Base.{Option, none, some, List, [], ◌∷◌, ◌++◌, length}
use diy_redis.Base.Int.{ℤ}
use diy_redis.Js.Text.{Text, codes, crlf}
use diy_redis.Js.Number.{decimal, decimal_ℤ}

unfoldable pub simple_error_response : Text → Text
simple_error_response reply = codes "-ERR " ++ (reply ++ crlf)

-- `$<length>\r\n<text>\r\n`
unfoldable pub bulk : Text → Text
bulk t = b'$' ∷ (decimal (length t) ++ 13 ∷ 10 ∷ (t ++ 13 ∷ 10 ∷ []))

unfoldable pub null_bulk : Text
null_bulk = codes "$-1" ++ crlf

-- `reply ? … : …`: no argument and the empty text both take the second branch.
unfoldable pub bulk_string_response : Option Text → Text
unfolding bulk null_bulk
bulk_string_response none = null_bulk
bulk_string_response (some []) = null_bulk
bulk_string_response (some (c ∷ s)) = bulk (c ∷ s)

unfoldable pub simple_string_response : Text → Text
simple_string_response reply = b'+' ∷ (reply ++ crlf)

unfoldable pub simple_int : ℤ → Text
simple_int n = b':' ∷ (decimal_ℤ n ++ crlf)

-- The parts of `toRESPArray`, one behind the other.
unfoldable pub bulks : List Text → Text
unfolding bulk
bulks [] = []
bulks (p ∷ ps) = bulk p ++ bulks ps

unfoldable pub to_resp_array : List Text → Text
unfolding bulks
to_resp_array parts = b'*' ∷ (decimal (length parts) ++ 13 ∷ 10 ∷ bulks parts)
