-- ===== src/Tests/Wire.antt =====
-- The wire format and the server's loop at concrete inputs.
use diy_redis.Base.{◌≡◌, refl, none, some, [], ◌∷◌, ◌++◌, length, List, All}
use diy_redis.Base.Int.{pos, ◌≤ℤ◌}
use diy_redis.Js.Text.{Text, codes, find_crlf}
use diy_redis.Js.Number.{parse_int, decimal}
use diy_redis.Js.Utf8.{Bytes, utf8_encode, utf8_decode}
use diy_redis.Resp.Encode.{to_resp_array}
use diy_redis.Resp.Parse.{parsed, parse_next_command, command_end}
use diy_redis.Resp.RoundTrip.{IsPlain, parse_next_command-to_resp_array}
use diy_redis.Resp.Framing.{parse_next_command-append, command_end_bound}
use diy_redis.Dispatch.{fresh_state}
use diy_redis.Server.{serve, out_of_rounds}
use diy_redis.Server.Pipeline.{serve-requests, requests, as_served, serve_commands}
use diy_redis.Server.Progress.{serve-stuck, stuck_bytes, errors}
use diy_redis.Tests.Data.{key, quiet_world, some_commands, rpush-IsPlain, key-IsPlain}

abbrev push_words : List Text
push_words = codes "RPUSH" ∷ key ∷ []

push_words-IsPlain : All IsPlain push_words
push_words-IsPlain = (rpush-IsPlain, (key-IsPlain, tt))

abbrev push_bytes : Bytes
push_bytes = utf8_encode (to_resp_array push_words)

parse_next_command-to_resp_array_example :
    parse_next_command (push_bytes ++ b'*' ∷ [])
    ≡ some (parsed push_words (pos (length (to_resp_array push_words))))
parse_next_command-to_resp_array_example =
    parse_next_command-to_resp_array push_words (b'*' ∷ []) push_words-IsPlain

parse_next_command-append_example :
    parse_next_command ((push_bytes ++ []) ++ b'*' ∷ [])
    ≡ some (parsed push_words (pos (length (to_resp_array push_words))))
parse_next_command-append_example =
    parse_next_command-append (push_bytes ++ []) (b'*' ∷ []) push_words
      (length (to_resp_array push_words))
      (parse_next_command-to_resp_array push_words [] push_words-IsPlain)

-- "*1\r\n$1\r\nk\r\n" and one byte more
abbrev key_bytes : Bytes
key_bytes = to_resp_array (key ∷ []) ++ b'*' ∷ []

key_end : command_end key_bytes ≡ some (pos 11)
unfolding command_end find_crlf utf8_decode parse_int to_resp_array decimal
key_end = refl

command_end_bound_example : pos 11 ≤ℤ pos (length key_bytes)
command_end_bound_example = command_end_bound key_bytes (pos 11) key_end

star-incomplete : parse_next_command (b'*' ∷ []) ≡ none
unfolding parse_next_command command_end find_crlf
star-incomplete = refl

serve-requests_example :
    serve 3 some_commands 7
      (requests (push_words ∷ push_words ∷ []) ++ b'*' ∷ [])
      fresh_state
      quiet_world
    ≡ as_served
        (b'*' ∷ [])
        (serve_commands some_commands 7 (push_words ∷ push_words ∷ []) fresh_state quiet_world)
serve-requests_example =
    serve-requests (push_words ∷ push_words ∷ []) (b'*' ∷ []) some_commands 7 fresh_state
      quiet_world (push_words-IsPlain, (push_words-IsPlain, tt)) star-incomplete

serve-stuck_example :
    serve 5 some_commands 7 (stuck_bytes []) fresh_state quiet_world
    ≡ out_of_rounds (stuck_bytes []) fresh_state (errors 5 7 quiet_world)
serve-stuck_example = serve-stuck 5 some_commands 7 [] fresh_state quiet_world
