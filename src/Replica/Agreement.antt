-- ===== src/Replica/Agreement.antt =====
-- What the master propagates, against what a replica makes of it.
use diy_redis.Base.{
  ℕ, suc, sym, ◌+◌, ◌≡◌, refl, ap, ◌∙◌, true, false, List, [], ◌∷◌, ◌++◌, append_assoc, append-nil,
  arith, length, length-append, All,
}
use diy_redis.Base.Int.{pos, ◌+ℤ◌}
use diy_redis.Js.Text.{Text}
use diy_redis.Js.Utf8.{utf8_encode, utf8_encode-IsAscii}
use diy_redis.Resp.Encode.{to_resp_array}
use diy_redis.Resp.Parse.{command_end}
use diy_redis.Resp.RoundTrip.{IsPlain, to_resp_array-IsAscii}
use diy_redis.World.{Socket, World, propagate, write_writable}
use diy_redis.Server.Pipeline.{requests}
use diy_redis.Replica.Defs.{Replica, waits, is_getack, receive, on_data, process_all}
use diy_redis.Replica.Following.{IsFollowing, follow, follow_one, process_all-requests}
use diy_redis.Replica.Received.{received, count, propagate_lem, received_next}

pub pos-add : (n k : ℕ) → pos n +ℤ pos k ≡ pos (n + k)
pos-add n k = ground arith

-- No command asks for the offset.
unfoldable pub NoGetack : List (List Text) → Type 0
NoGetack = All (λ c. is_getack c ≡ false)

follow_one-emits :
    (c : List Text) (r : Replica) (n : ℕ)
    → is_getack c ≡ false
    → follow_one c (record r { processing_offset = pos n }) ≡ record r {
      processing_offset = pos (n + length (to_resp_array c));
      emitted = r.emitted ++ c ∷ [];
    }
unfolding follow_one receive
follow_one-emits c r n h = rw (h, pos-add n (length (to_resp_array c))) refl

pub follow-emits :
    (cs : List (List Text)) (r : Replica) (n : ℕ)
    → NoGetack cs
    → All (All IsPlain) cs
    → follow cs (record r { processing_offset = pos n })
      ≡ record r { processing_offset = pos (n + length (requests cs)); emitted = r.emitted ++ cs }
unfolding follow requests NoGetack
follow-emits [] r n h plain =
    rw (append-nil r.emitted) (ap (λ m. record r { processing_offset = pos m }) (omega arith))
follow-emits (c ∷ cs) r n (h, hs) (p, ps) =
    let k = length (to_resp_array c) in
    let advance : n + (k + length (requests cs)) ≡ n + k + length (requests cs) = omega arith in
    rw
      (
        follow_one-emits c r n h,
        length-append (utf8_encode (to_resp_array c)) (requests cs),
        utf8_encode-IsAscii (to_resp_array c) (to_resp_array-IsAscii c p),
        ← append_assoc r.emitted (c ∷ []) cs,
        advance,
      )
      (follow-emits cs (record r { emitted = r.emitted ++ c ∷ [] }) (n + k) hs ps)

unfoldable pub propagate_all : List (List Text) → World → World
propagate_all [] w = w
propagate_all (c ∷ cs) w = propagate_all cs (propagate c w)

sent-propagate_all :
    (cs : List (List Text)) (s : Socket) (w : World)
    → count s w.replicas ≡ 1
    → w.writable s ≡ true
    → (received s (propagate_all cs w).sent ≡ received s w.sent ++ requests cs)
      × ((propagate_all cs w).offset ≡ w.offset + length (requests cs))
unfolding propagate_all requests
sent-propagate_all [] s w once live = (rw append-nil refl, omega arith)
sent-propagate_all (c ∷ cs) s w once live =
    let bytes = utf8_encode (to_resp_array c) in
    let w' = record w {
      sent = w.sent ++ write_writable w.writable w.replicas bytes;
      offset = w.offset + length bytes;
    } in
    let (sent, counted) = sent-propagate_all cs s w' once live in
    rw (propagate_all, requests, propagate_lem c s w once)
      (
        sent ∙ received_next s w bytes (requests cs) once live,
        counted ∙ omega (arith, length-append bytes (requests cs)),
      )

pub arrive :
    (cs : List (List Text)) (r : Replica)
    → IsFollowing r
    → All (All IsPlain) cs
    → process_all (suc (length cs)) (record r { buffer = requests cs })
      ≡ waits (record (follow cs r) { buffer = [] })
unfolding command_end
arrive cs r following plain =
    ap (λ b. process_all (suc (length cs)) (record r { buffer = b }))
      (sym (append-nil (requests cs)))
    ∙ process_all-requests cs [] r following plain refl

-- A replica that stands once in the master's list, on a connection that is open, and that has counted as many bytes
-- as the master: the commands that the master propagates are what its socket receives, in their order; when
-- these bytes arrive, it emits just these commands, and it has then counted as many bytes as the master again. The
-- commands are plain, and none of them is GETACK.
pub on_data-propagate :
    (cs : List (List Text)) (s : Socket) (w : World) (r : Replica)
    → count s w.replicas ≡ 1
    → w.writable s ≡ true
    → IsFollowing r
    → All (All IsPlain) cs
    → NoGetack cs
    → (received s (propagate_all cs w).sent ≡ received s w.sent ++ requests cs)
      × (on_data
            (suc (length cs))
            (requests cs)
            (record r { buffer = []; processing_offset = pos w.offset })
          ≡ waits (record r {
            buffer = [];
            processing_offset = pos (propagate_all cs w).offset;
            emitted = r.emitted ++ cs;
          }))
unfolding on_data
on_data-propagate cs s w r once live following plain emitted =
    let (sent, counted) = sent-propagate_all cs s w once live in
    (
      sent,
      rw (counted) (
          arrive cs (record r { processing_offset = pos w.offset })
            (record { shaken = following.shaken; loaded = following.loaded }) plain
          ∙ ap (λ q. waits (record q { buffer = [] })) (follow-emits cs r w.offset emitted plain)),
    )
