-- ===== src/Replica/Following.antt =====
-- The propagated phase of MasterConnectionHandler.ts: commands that arrive together.
use diy_redis.Base.{
  suc, ◌≡◌, refl, ◌∙◌, false, none, some, List, [], ◌∷◌, ◌++◌, arith, length, All, ltb,
}
use diy_redis.Base.Int.{ℤ, pos, ◌+ℤ◌}
use diy_redis.Js.Text.{Text}
use diy_redis.Js.Utf8.{Bytes, utf8_encode, utf8_encode-IsAscii}
use diy_redis.Resp.Encode.{to_resp_array}
use diy_redis.Resp.Parse.{parsed, command_end, get_payload, slice_to, parse_next_command}
use diy_redis.Resp.RoundTrip.{
  IsPlain, to_resp_array-IsAscii, command_end-to_resp_array, parse_next_command-to_resp_array,
}
use diy_redis.Server.Pipeline.{requests, requests-cons, rest-of}
use diy_redis.Replica.Defs.{
  Replica, waits, receive, process_message, process_propagated_command, process_all, is_zero,
}
use diy_redis.Replica.Rounds.{round-waits, round-goes}

-- A replica that has the master's file reads commands.
pub record IsFollowing (r : Replica) : Type 0 where
  pub shaken : ltb r.handshake_step 4 ≡ false
  pub loaded : r.rdb_file_expected ≡ false

-- What one command does, on the command itself: it is answered or emitted, and its bytes are counted behind that.
unfoldable pub follow_one : List Text → Replica → Replica
follow_one c r =
    let r' = receive c r in
    record r' { processing_offset = r'.processing_offset +ℤ pos (length (to_resp_array c)) }

unfoldable pub follow : List (List Text) → Replica → Replica
unfolding follow_one
follow [] r = r
follow (c ∷ cs) r = follow cs (follow_one c r)

command_end_of :
    (c : List Text) (rest : Bytes)
    → All IsPlain c
    → command_end (utf8_encode (to_resp_array c) ++ rest) ≡ some (pos (length (to_resp_array c)))
command_end_of c rest h =
    rw (utf8_encode-IsAscii (to_resp_array c) (to_resp_array-IsAscii c h))
      (command_end-to_resp_array c rest)

payload-parts :
    (buffer : Bytes) (c : List Text) (end : ℤ)
    → command_end buffer ≡ some end
    → parse_next_command buffer ≡ some (parsed c end)
    → get_payload (slice_to end buffer) ≡ c
unfolding parse_next_command
payload-parts buffer c end e p = ground arith

receive-buffer :
    (c : List Text) (b : Bytes) (r : Replica)
    → receive c (record r { buffer = b }) ≡ record (receive c r) { buffer = b }
unfolding receive
receive-buffer c b r = ground arith

-- The command at the front of a buffer, and what the round answers.
propagated_first :
    (c : List Text) (rest : Bytes) (r : Replica)
    → All IsPlain c
    → process_propagated_command (record r { buffer = utf8_encode (to_resp_array c) ++ rest }) ≡ (
      some (pos (length (to_resp_array c))),
      record (follow_one c r) { buffer = utf8_encode (to_resp_array c) ++ rest },
    )
unfolding process_propagated_command follow_one
propagated_first c rest r h =
    let bytes = utf8_encode (to_resp_array c) ++ rest in
    let end = pos (length (to_resp_array c)) in
    let found = command_end_of c rest h in
    rw
      (
        found,
        payload-parts bytes c end found (parse_next_command-to_resp_array c rest h),
        receive-buffer c bytes r,
      )
      refl

module _ (c : List Text) (r : Replica) where
  step-receive : (receive c r).handshake_step ≡ r.handshake_step
  unfolding receive
  step-receive = ground arith

  expected-receive : (receive c r).rdb_file_expected ≡ r.rdb_file_expected
  unfolding receive
  expected-receive = ground arith

  follow_one-IsFollowing : IsFollowing r → IsFollowing (follow_one c r)
  unfolding follow_one
  follow_one-IsFollowing h = record {
    shaken = rw step-receive h.shaken;
    loaded = rw expected-receive h.loaded;
  }

is_zero-bytes : (c : List Text) → is_zero (some (pos (length (to_resp_array c)))) ≡ false
unfolding to_resp_array
is_zero-bytes c = ground arith

message-following : (r : Replica) → IsFollowing r → process_message r ≡ process_propagated_command r
unfolding process_message
message-following r h = rw (h.shaken, h.loaded) refl

incomplete_message :
    (tail : Bytes) (r : Replica)
    → IsFollowing r
    → command_end tail ≡ none
    → process_message (record r { buffer = tail }) ≡ (some (pos 0), record r { buffer = tail })
incomplete_message tail r h partial =
    message-following (record r { buffer = tail }) (record { shaken = h.shaken; loaded = h.loaded })
    ∙ unfold process_propagated_command in rw partial refl

first_message :
    (c : List Text) (cs : List (List Text)) (tail : Bytes) (r : Replica)
    → IsFollowing r
    → All IsPlain c
    → process_message (record r { buffer = requests (c ∷ cs) ++ tail }) ≡ (
      some (pos (length (to_resp_array c))),
      record (follow_one c r) { buffer = requests (c ∷ cs) ++ tail },
    )
first_message c cs tail r h plain = rw (requests-cons c cs tail) (
    message-following (record r { buffer = utf8_encode (to_resp_array c) ++ (requests cs ++ tail) })
      (record { shaken = h.shaken; loaded = h.loaded })
    ∙ propagated_first c (requests cs ++ tail) r plain)

-- Commands in one buffer, with the bytes of an incomplete command or none behind them, and one round more than
-- there are commands.
pub process_all-requests :
    (cs : List (List Text)) (tail : Bytes) (r : Replica)
    → IsFollowing r
    → All (All IsPlain) cs
    → command_end tail ≡ none
    → process_all (suc (length cs)) (record r { buffer = requests cs ++ tail })
      ≡ waits (record (follow cs r) { buffer = tail })
unfolding follow
process_all-requests [] tail r following h partial =
    unfold requests in
    round-waits 0 (record r { buffer = tail }) (record r { buffer = tail }) (some (pos 0))
      (incomplete_message tail r following partial) refl
process_all-requests (c ∷ cs) tail r following (h, hs) partial =
    let bytes = requests (c ∷ cs) ++ tail in
    round-goes (suc (length cs)) (record r { buffer = bytes })
      (record (follow_one c r) { buffer = bytes }) (some (pos (length (to_resp_array c))))
      (first_message c cs tail r following h) (is_zero-bytes c)
    ∙ rw (requests-cons c cs tail, rest-of c (requests cs ++ tail) h)
        (process_all-requests cs tail (follow_one c r) (follow_one-IsFollowing c r following) hs
          partial)
