-- ===== src/Server/Progress.antt =====
-- A command whose length is negative can end where it begins.
use diy_redis.Base.{ℕ, zero, suc, ◌≡◌, refl, some, [], ◌∷◌, arith}
use diy_redis.Base.Int.{pos}
use diy_redis.Js.Text.{find_crlf, split_crlf}
use diy_redis.Js.Number.{parse_int}
use diy_redis.Js.Utf8.{Bytes, utf8_decode}
use diy_redis.Resp.Parse.{parsed, within, command_end, parse_next_command, is_payload, slice_from}
use diy_redis.World.{Socket, World, write}
use diy_redis.Dispatch.{ConnectionState, Commands, dispatch}
use diy_redis.Server.Defs.{out_of_rounds, serve, respond, internal_error}

-- "*1\r\n$-12\r\n" and whatever follows it
abbrev pub stuck_bytes : Bytes → Bytes
stuck_bytes rest = b'*' ∷ b'1' ∷ 13 ∷ 10 ∷ b'$' ∷ b'-' ∷ b'1' ∷ b'2' ∷ 13 ∷ 10 ∷ rest

within-zero : (buffer : Bytes) → within buffer (pos 0) ≡ some (pos 0)
unfolding within
within-zero buffer = ground arith

stuck_end : (rest : Bytes) → command_end (stuck_bytes rest) ≡ some (pos 0)
unfolding command_end find_crlf utf8_decode parse_int
stuck_end rest = rw (within-zero (stuck_bytes rest)) refl

stuck_command : (rest : Bytes) → parse_next_command (stuck_bytes rest) ≡ some (parsed [] (pos 0))
unfolding parse_next_command utf8_decode split_crlf is_payload
stuck_command rest = rw (stuck_end rest) refl

-- The answers of the rounds, one after the other.
pub errors : ℕ → Socket → World → World
errors zero connection w = w
errors (suc n) connection w = errors n connection (write connection internal_error w)

-- On a buffer that begins with `*1`, a line end, `$-12` and a line end, the loop uses up every number of
-- rounds: each round reads a command without a name, writes an error, and
-- takes nothing off the buffer, whatever follows.
pub serve-stuck :
    (rounds : ℕ) (commands : Commands) (connection : Socket) (rest : Bytes)
    (state : ConnectionState) (w : World)
    → serve rounds commands connection (stuck_bytes rest) state w
      ≡ out_of_rounds (stuck_bytes rest) state (errors rounds connection w)
unfolding serve errors dispatch slice_from respond
serve-stuck zero commands connection rest state w = refl
serve-stuck (suc n) commands connection rest state w =
    rw (stuck_command rest, serve)
      (serve-stuck n commands connection rest state (write connection internal_error w))
