-- ===== src/Replica/Acks.antt =====
-- GETACK, which `requestAcks` of ReplicationManager.ts sends, at a replica.
use diy_redis.Base.{
  ℕ, ◌+◌, ◌≡◌, refl, ap, ◌∙◌, true, List, [], ◌∷◌, ◌++◌, append-nil, arith, length, All,
}
use diy_redis.Base.Int.{pos}
use diy_redis.Js.Text.{find_crlf, str_eq, to_lower}
use diy_redis.Js.Number.{parse_int, decimal}
use diy_redis.Js.Utf8.{Bytes, utf8_encode}
use diy_redis.Resp.Encode.{to_resp_array}
use diy_redis.Resp.Parse.{is_payload, is_resp_metadata}
use diy_redis.Resp.RoundTrip.{IsPlain}
use diy_redis.World.{Socket, World, write_writable}
use diy_redis.Server.Pipeline.{requests}
use diy_redis.Replica.Defs.{Replica, waits, is_getack, receive, on_data, ack_words, send}
use diy_redis.Replica.Master.{request_acks, getack_words, write_all}
use diy_redis.Replica.Following.{IsFollowing, follow, follow_one}
use diy_redis.Replica.Received.{received, count, received-append, received-write_once}
use diy_redis.Replica.Agreement.{pos-add, arrive}

write_all-write_writable :
    (rs : List Socket) (bytes : Bytes)
    → write_all rs bytes ≡ write_writable (λ socket. true) rs bytes
unfolding write_all write_writable
write_all-write_writable [] bytes = refl
write_all-write_writable (t ∷ ts) bytes =
    ap (λ l. (t, bytes) ∷ l) (write_all-write_writable ts bytes)

getack-IsPlain : All IsPlain getack_words
unfolding find_crlf is_payload parse_int is_resp_metadata
getack-IsPlain = (
  record { ascii = ground arith; one_line = refl; kept = refl },
  (
    record { ascii = ground arith; one_line = refl; kept = refl },
    (record { ascii = ground arith; one_line = refl; kept = refl }, tt),
  ),
)

getack-length : length (to_resp_array getack_words) ≡ 37
unfolding to_resp_array decimal
getack-length = refl

receive-getack : (r : Replica) → receive getack_words r ≡ send (ack_words r.processing_offset) r
unfolding receive is_getack str_eq to_lower
receive-getack r = refl

follow-getack :
    (r : Replica) (n : ℕ)
    → follow (getack_words ∷ []) (record r { processing_offset = pos n }) ≡ record r {
      written = r.written ++ utf8_encode (to_resp_array (ack_words (pos n))) ∷ [];
      processing_offset = pos (n + 37);
    }
unfolding follow follow_one send
follow-getack r n =
    rw (receive-getack (record r { processing_offset = pos n }), getack-length, pos-add n 37) refl

-- When WAIT asks for the offsets, a replica that stands once in the master's list receives GETACK behind what it was
-- sent before. It answers with the bytes that it had counted, and it then counts the 37 bytes of GETACK as well;
-- the master counts none.
pub on_data-request_acks :
    (s : Socket) (w : World) (r : Replica) (n : ℕ)
    → count s w.replicas ≡ 1
    → IsFollowing r
    → (received s (request_acks w).sent ≡ received s w.sent ++ requests (getack_words ∷ []))
      × (on_data 2
            (requests (getack_words ∷ []))
            (record r { buffer = []; processing_offset = pos n })
          ≡ waits (record r {
            buffer = [];
            written = r.written ++ utf8_encode (to_resp_array (ack_words (pos n))) ∷ [];
            processing_offset = pos (n + 37);
          }))
      × ((request_acks w).offset ≡ w.offset)
unfolding on_data request_acks
on_data-request_acks s w r n once following = (
  rw
      (
        write_all-write_writable,
        received-append,
        received-write_once s (λ socket. true) w.replicas _ once refl,
      )
      (unfold requests in rw append-nil refl),
  arrive (getack_words ∷ []) (record r { processing_offset = pos n })
        (record { shaken = following.shaken; loaded = following.loaded }) (getack-IsPlain, tt)
      ∙ ap (λ q. waits (record q { buffer = [] })) (follow-getack r n),
  refl,
)
