-- ===== src/Blpop/Defs.antt =====
-- BLPopCommand.ts: the arguments, and the reply once the promise of `blockOnLists` is resolved.
use diy_redis.Base.{Option, none, some, List, [], ◌∷◌}
use diy_redis.Base.Int.{ℤ, pos, negsuc}
use diy_redis.Js.Text.{Text, codes}
use diy_redis.Js.Number.{parse_int}
use diy_redis.Resp.Encode.{simple_error_response, bulk_string_response, to_resp_array}
use diy_redis.Strings.{wrong_arguments}
use diy_redis.World.{Socket, World}
use diy_redis.Blocking.{Promise, settled, waiting, block_on_lists}
use diy_redis.Dispatch.{ConnectionState, Answer, replied, suspended, Stateful}

-- `args.pop()` of a list with the first element `t`: what is left, and the last element.
unfoldable pub pop_last : Text → List Text → List Text × Text
pop_last t [] = ([], t)
pop_last t (u ∷ us) = let (keys, last) = pop_last u us in (t ∷ keys, last)

unfoldable pub blpop_reply : Option (Text × Text) → Text
blpop_reply none = bulk_string_response none
blpop_reply (some (key, t)) = to_resp_array (key ∷ t ∷ [])

unfoldable pub await_promise : Promise × World → ConnectionState → Answer × ConnectionState × World
unfolding blpop_reply
await_promise (settled result, w) state = (replied (some (blpop_reply result)), state, w)
await_promise (waiting n, w) state = (suspended n, state, w)

abbrev bad_timeout : Text
bad_timeout = simple_error_response (codes "timeout is not an integer or out of range")

unfoldable pub blpop_parsed :
    List Text
    → Option ℤ
    → Option Socket
    → ConnectionState
    → World
    → Answer × ConnectionState × World
unfolding await_promise
blpop_parsed keys none connection state w = (replied (some bad_timeout), state, w)
blpop_parsed keys (some (negsuc n)) connection state w = (replied (some bad_timeout), state, w)
blpop_parsed keys (some (pos n)) connection state w =
    await_promise (block_on_lists keys n connection w) state

unfoldable pub blpop_command : Stateful
unfolding blpop_parsed pop_last
blpop_command [] connection state w = (replied (some (wrong_arguments (codes "blpop"))), state, w)
blpop_command (a ∷ []) connection state w =
    (replied (some (wrong_arguments (codes "blpop"))), state, w)
blpop_command (a ∷ b ∷ args) connection state w =
    let (keys, timeout) = pop_last a (b ∷ args) in
    blpop_parsed keys (parse_int timeout) connection state w
