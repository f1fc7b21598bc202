-- ===== src/Server/Pipeline.antt =====
-- Commands that arrive together are served one after the other.
use diy_redis.Base.{
  ℕ, suc, ◌≡◌, refl, ◌∙◌, false, none, some, List, [], ◌∷◌, ◌++◌, append_assoc, length, drop-append,
  All,
}
use diy_redis.Base.Int.{pos}
use diy_redis.Js.Text.{Text}
use diy_redis.Js.Utf8.{Bytes, utf8_encode, utf8_encode-IsAscii}
use diy_redis.Resp.Encode.{to_resp_array}
use diy_redis.Resp.Parse.{parsed, parse_next_command, slice_from}
use diy_redis.Resp.RoundTrip.{IsPlain, to_resp_array-IsAscii, parse_next_command-to_resp_array}
use diy_redis.World.{Socket, World}
use diy_redis.Dispatch.{ConnectionState, Answer, replied, suspended, thrown, Commands, dispatch}
use diy_redis.Server.Defs.{Served, incomplete, awaiting, serve, respond}

-- The commands as a client sends them.
unfoldable pub requests : List (List Text) → Bytes
requests [] = []
requests (c ∷ cs) = utf8_encode (to_resp_array c) ++ requests cs

-- What the server should do with them, on the commands themselves: dispatch and answer each in turn, up
-- to the first that waits. The second part lists the commands that are then still to be served, the
-- waiting one first.
pub data Progress : Type 0 where
  all_served : ConnectionState → World → Progress
  held_up : ℕ → List (List Text) → ConnectionState → World → Progress

unfoldable pub serve_commands :
    Commands → Socket → List (List Text) → ConnectionState → World → Progress
serve_commands commands connection [] state w = all_served state w
serve_commands commands connection (c ∷ cs) state w =
    let (answer, state', w') = dispatch commands (some connection) c state false w in
    elim answer [
      | suspended n ↦ held_up n (c ∷ cs) state' w'
      | replied response ↦
          serve_commands commands connection cs state' (respond connection (replied response) w')
      | thrown e ↦ serve_commands commands connection cs state' (respond connection (thrown e) w')
    ]

-- The same as the end of the loop over the bytes, with `tail` behind the commands.
unfoldable pub as_served : Bytes → Progress → Served
unfolding requests
as_served tail (all_served state w) = incomplete tail state w
as_served tail (held_up n cs state w) = awaiting n (requests cs ++ tail) state w

pub requests-cons :
    (c : List Text) (cs : List (List Text)) (tail : Bytes)
    → requests (c ∷ cs) ++ tail ≡ utf8_encode (to_resp_array c) ++ (requests cs ++ tail)
unfolding requests
requests-cons c cs tail = append_assoc (utf8_encode (to_resp_array c)) (requests cs) tail

pub rest-of :
    (c : List Text) (rest : Bytes)
    → All IsPlain c
    → slice_from (pos (length (to_resp_array c))) (utf8_encode (to_resp_array c) ++ rest) ≡ rest
unfolding slice_from
rest-of c rest h =
    rw (utf8_encode-IsAscii (to_resp_array c) (to_resp_array-IsAscii c h))
      (drop-append (to_resp_array c) rest)

-- What a round goes on with behind the dispatcher's answer.
abbrev after_answer : ℕ → Commands → Socket → Bytes → ℕ → Answer → ConnectionState → World → Served
after_answer rounds commands connection buffer n (replied response) state w =
    serve rounds commands connection (slice_from (pos n) buffer) state
      (respond connection (replied response) w)
after_answer rounds commands connection buffer n (suspended i) state w = awaiting i buffer state w
after_answer rounds commands connection buffer n (thrown x) state w =
    serve rounds commands connection (slice_from (pos n) buffer) state
      (respond connection (thrown x) w)

serve_round :
    (rounds : ℕ) (commands : Commands) (connection : Socket) (buffer : Bytes) (c : List Text)
    (n : ℕ) (state state' : ConnectionState) (w w' : World) (answer : Answer)
    → parse_next_command buffer ≡ some (parsed c (pos n))
    → dispatch commands (some connection) c state false w ≡ (answer, state', w')
    → serve (suc rounds) commands connection buffer state w
      ≡ after_answer rounds commands connection buffer n answer state' w'
unfolding serve
serve_round rounds commands connection buffer c n state state' w w' (replied r) p e =
    rw (p, serve, e, e) refl
serve_round rounds commands connection buffer c n state state' w w' (suspended i) p e =
    rw (p, serve, e, e) refl
serve_round rounds commands connection buffer c n state state' w w' (thrown x) p e =
    rw (p, serve, e, e) refl

-- One command of a buffer, by the answer that the dispatcher gives.
module _ (c : List Text) (cs : List (List Text)) (tail : Bytes) (commands : Commands)
    (connection : Socket) (state state' : ConnectionState) (w w' : World) (plain : All IsPlain c)
    (ih : (s : ConnectionState) (v : World)
      → serve (suc (length cs)) commands connection (requests cs ++ tail) s v
        ≡ as_served tail (serve_commands commands connection cs s v)) where
  serve_first :
      (answer : Answer)
      → dispatch commands (some connection) c state false w ≡ (answer, state', w')
      → serve (suc (suc (length cs))) commands connection (requests (c ∷ cs) ++ tail) state w
        ≡ after_answer
            (suc (length cs))
            commands
            connection
            (utf8_encode (to_resp_array c) ++ (requests cs ++ tail))
            (length (to_resp_array c))
            answer
            state'
            w'
  serve_first answer e = rw (requests-cons c cs tail) (
      serve_round (suc (length cs)) commands connection _ c (length (to_resp_array c)) state state'
        w w' answer (parse_next_command-to_resp_array c (requests cs ++ tail) plain) e)

  serve-request :
      (answer : Answer)
      → dispatch commands (some connection) c state false w ≡ (answer, state', w')
      → serve (suc (suc (length cs))) commands connection (requests (c ∷ cs) ++ tail) state w
        ≡ as_served tail (serve_commands commands connection (c ∷ cs) state w)
  serve-request (replied response) e =
      serve_first (replied response) e
      ∙ rw
          (
            rest-of c (requests cs ++ tail) plain,
            ih state' (respond connection (replied response) w'),
          )
          (unfold serve_commands in rw (serve_commands, e, e) refl)
  serve-request (suspended n) e =
      serve_first (suspended n) e
      ∙ rw (← requests-cons c cs tail)
          (unfold serve_commands as_served in rw (serve_commands, e, e) refl)
  serve-request (thrown x) e =
      serve_first (thrown x) e
      ∙ rw (rest-of c (requests cs ++ tail) plain, ih state' (respond connection (thrown x) w'))
          (unfold serve_commands in rw (serve_commands, e, e) refl)

-- Plain commands in one buffer, with the bytes of an incomplete command or none behind them, and one
-- round more than there are commands: each is dispatched once, in the order of arrival, and answered before the next; the
-- incomplete command stays in the buffer. If one has to wait, the buffer still begins with it.
pub serve-requests :
    (cs : List (List Text)) (tail : Bytes) (commands : Commands) (connection : Socket)
    (state : ConnectionState) (w : World)
    → All (All IsPlain) cs
    → parse_next_command tail ≡ none
    → serve (suc (length cs)) commands connection (requests cs ++ tail) state w
      ≡ as_served tail (serve_commands commands connection cs state w)
serve-requests [] tail commands connection state w h partial =
    unfold serve requests as_served serve_commands in rw (partial, serve) refl
serve-requests (c ∷ cs) tail commands connection state w (h, hs) partial =
    let (answer, state', w') = dispatch commands (some connection) c state false w in
    serve-request c cs tail commands connection state state' w w' h
      (λ s v. serve-requests cs tail commands connection s v hs partial) answer refl
