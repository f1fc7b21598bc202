-- ===== src/Replica/Received.antt =====
-- What a socket of a replica was sent, by `propagate` of ReplicationManager.ts.
use diy_redis.Base.{
  ℕ, suc, ◌+◌, ◌≡◌, refl, Bool, true, false, List, [], ◌∷◌, ◌++◌, append_assoc, append-nil, arith,
  length, ◌==◌, if◌then◌else◌,
}
use diy_redis.Js.Text.{Text}
use diy_redis.Js.Utf8.{Bytes, utf8_encode}
use diy_redis.Resp.Encode.{to_resp_array}
use diy_redis.World.{Socket, World, propagate, write_writable, is_nil}

-- The bytes that a socket was sent.
unfoldable pub received : Socket → List (Socket × Bytes) → Bytes
received s [] = []
received s ((t, bytes) ∷ sent) =
    let rest = received s sent in if t == s then bytes ++ rest else rest

pub received-append :
    (s : Socket) (a b : List (Socket × Bytes)) → received s (a ++ b) ≡ received s a ++ received s b
unfolding received
received-append s [] b = refl
received-append s ((t, bytes) ∷ a) b =
    ground (arith, append_assoc bytes (received s a) (received s b), received-append s a b)

-- How often a socket stands in the list of replicas.
unfoldable pub count : Socket → List Socket → ℕ
count s [] = 0
count s (t ∷ ts) = let n = count s ts in if t == s then suc n else n

received-write_none :
    (s : Socket) (writable : Socket → Bool) (rs : List Socket) (bytes : Bytes)
    → count s rs ≡ 0
    → received s (write_writable writable rs bytes) ≡ []
unfolding received count write_writable
received-write_none s writable [] bytes h = refl
received-write_none s writable (t ∷ ts) bytes h =
    ground (arith, received-write_none s writable ts bytes)

pub received-write_once :
    (s : Socket) (writable : Socket → Bool) (rs : List Socket) (bytes : Bytes)
    → count s rs ≡ 1
    → writable s ≡ true
    → received s (write_writable writable rs bytes) ≡ bytes
unfolding received count write_writable
received-write_once s writable [] bytes h live = ground arith
received-write_once s writable (t ∷ ts) bytes h live = grind (
  arith,
  append-nil bytes,
  received-write_none s writable ts bytes,
  received-write_once s writable ts bytes,
)

not_nil : (s : Socket) (rs : List Socket) → count s rs ≡ 1 → is_nil rs ≡ false
unfolding count
not_nil s [] h = ground arith
not_nil s (t ∷ ts) h = refl

pub propagate_lem :
    (c : List Text) (s : Socket) (w : World)
    → count s w.replicas ≡ 1
    → propagate c w ≡ record w {
      sent = w.sent ++ write_writable w.writable w.replicas (utf8_encode (to_resp_array c));
      offset = w.offset + length (utf8_encode (to_resp_array c));
    }
unfolding propagate
propagate_lem c s w once = rw (not_nil s w.replicas once) refl

-- One more write to a socket that stands in the list once, in front of what follows it.
pub received_next :
    (s : Socket) (w : World) (bytes rest : Bytes)
    → count s w.replicas ≡ 1
    → w.writable s ≡ true
    → received s (w.sent ++ write_writable w.writable w.replicas bytes) ++ rest
      ≡ received s w.sent ++ (bytes ++ rest)
received_next s w bytes rest once live =
    rw
      (
        received-append s w.sent (write_writable w.writable w.replicas bytes),
        received-write_once s w.writable w.replicas bytes once live,
        append_assoc (received s w.sent) bytes rest,
      )
      refl
