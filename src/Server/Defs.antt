-- ===== src/Server/Defs.antt =====
-- The handler of a connection's "data" event.
use diy_redis.Base.{ℕ, zero, suc, false, none, some, ◌++◌, if◌then◌else◌}
use diy_redis.Js.Text.{Text, codes, crlf, is_truthy}
use diy_redis.Js.Utf8.{Bytes}
use diy_redis.Resp.Parse.{slice_from, parse_next_command}
use diy_redis.World.{Socket, World, write}
use diy_redis.Dispatch.{ConnectionState, Answer, replied, suspended, thrown, Commands, dispatch}

abbrev pub internal_error : Text
internal_error = codes "-ERR internal server error" ++ crlf

-- How one run of the handler ends: the loop has left the bytes of an incomplete command, it waits for a
-- promise before it takes the command off the buffer, or the rounds that it was given are used up.
pub data Served : Type 0 where
  incomplete : Bytes → ConnectionState → World → Served
  awaiting : ℕ → Bytes → ConnectionState → World → Served
  out_of_rounds : Bytes → ConnectionState → World → Served

-- `if (response) connection.write(response)`, and the handler of an exception.
unfoldable pub respond : Socket → Answer → World → World
unfolding write
respond connection (replied none) w = w
respond connection (replied (some response)) w =
    if is_truthy response then write connection response w else w
respond connection (suspended n) w = w
respond connection (thrown e) w = write connection internal_error w

-- `while (true)`, for a number of rounds.
unfoldable pub serve : ℕ → Commands → Socket → Bytes → ConnectionState → World → Served
serve zero commands connection buffer state w = out_of_rounds buffer state w
serve (suc rounds) commands connection buffer state w = elim (parse_next_command buffer) [
  | none ↦ incomplete buffer state w
  | some command ↦
      let (answer, state', w') =
        dispatch commands (some connection) command.payload state false w in
      elim answer [
        | suspended n ↦ awaiting n buffer state' w'
        | replied response ↦
            serve rounds commands connection (slice_from command.bytes_consumed buffer) state'
              (respond connection (replied response) w')
        | thrown e ↦
            serve rounds commands connection (slice_from command.bytes_consumed buffer) state'
              (respond connection (thrown e) w')
      ]
]

-- `connection.on("data", …)`: the new bytes go behind what is left of the old ones.
unfoldable pub on_data : ℕ → Commands → Socket → Bytes → Bytes → ConnectionState → World → Served
on_data rounds commands connection buffer chunk state w =
    serve rounds commands connection (buffer ++ chunk) state w
