-- ===== src/Channels/Messages.antt =====
-- PublisCommand.ts: whom a message reaches.
use diy_redis.Base.{
  arith, ◌≡◌, refl, sym, Bool, false, ◌&&◌, List, [], ◌∷◌, ◌++◌, ◌==◌, ==_iff, if◌then◌else◌,
  Bool-cases, inl, inr, length,
}
use diy_redis.Base.Int.{pos}
use diy_redis.Js.Text.{Text, codes}
use diy_redis.Js.Utf8.{Bytes, utf8_encode}
use diy_redis.Js.Map.{includes}
use diy_redis.Resp.Encode.{simple_int, to_resp_array}
use diy_redis.World.{Socket, write_writable}
use diy_redis.Channels.Defs.{get_subscribers, publish_command, has_socket}
use diy_redis.Channels.Sets.{Unique}
use diy_redis.Channels.Agreement.{same_socket}
use diy_redis.Channels.Sessions.{Sessions, Reachable, Reachable-Consistent}

-- What of the writes goes to one socket.
pub to_socket : Socket → List (Socket × Bytes) → List Bytes
to_socket d [] = []
to_socket d ((c, bytes) ∷ sent) =
    let rest = to_socket d sent in if d == c then bytes ∷ rest else rest

to_socket-none :
    (d : Socket) (writable : Socket → Bool) (cs : List Socket) (bytes : Bytes)
    → has_socket d cs ≡ false
    → to_socket d (write_writable writable cs bytes) ≡ []
unfolding has_socket write_writable to_socket
to_socket-none d writable [] bytes h = refl
to_socket-none d writable (c ∷ cs) bytes h = elim (Bool-cases (d == c)) [
  | inl same ↦ ground (arith, h, same)
  | inr other ↦ elim (Bool-cases (writable c)) [
    | inl up ↦ rw (up, other) (to_socket-none d writable cs bytes (ground (arith, h, other)))
    | inr closed ↦ rw closed (to_socket-none d writable cs bytes (ground (arith, h, other)))
  ]
]

first_socket :
    (c : Socket) (writable : Socket → Bool) (cs : List Socket) (bytes : Bytes)
    → has_socket c cs ≡ false
    → to_socket c (write_writable writable (c ∷ cs) bytes) ≡ (if writable c then bytes ∷ [] else [])
unfolding write_writable to_socket
first_socket c writable cs bytes once = elim (Bool-cases (writable c)) [
  | inl up ↦ rw (up, same_socket c, to_socket-none c writable cs bytes once) refl
  | inr closed ↦ rw (closed, to_socket-none c writable cs bytes once) refl
]

to_socket-write_writable :
    (d : Socket) (writable : Socket → Bool) (cs : List Socket) (bytes : Bytes)
    → Unique cs
    → to_socket d (write_writable writable cs bytes)
      ≡ (if has_socket d cs && writable d then bytes ∷ [] else [])
unfolding has_socket write_writable to_socket
to_socket-write_writable d writable [] bytes u = refl
to_socket-write_writable d writable (c ∷ cs) bytes (once, u) = elim (Bool-cases (d == c)) [
  | inl same ↦ rw ((==_iff d c).0 same, same_socket c) (first_socket c writable cs bytes once)
  | inr other ↦ elim (Bool-cases (writable c)) [
    | inl up ↦ rw (up, other) (to_socket-write_writable d writable cs bytes u)
    | inr closed ↦ rw (closed, other) (to_socket-write_writable d writable cs bytes u)
  ]
]

-- A message that is published, whatever connections have subscribed, unsubscribed and published
-- before, from a state without subscriptions: it is written once to each connection whose own set has
-- the channel and whose socket is writable, and to no other; the reply counts the connections whose set
-- has the channel.
pub publish_command-reaches :
    (s : Sessions) (channel message : Text)
    → Reachable s
    → (new : List (Socket × Bytes)) × (members : List Socket) × ((publish_command
          (channel ∷ message ∷ [])
          s.world).1.sent
        ≡ s.world.sent ++ new)
      × ((d : Socket)
          → to_socket d new ≡ (
              if includes channel (s.states d).subscribed_channels && s.world.writable d
              then utf8_encode (to_resp_array (codes "message" ∷ channel ∷ message ∷ [])) ∷ []
              else []))
      × ((publish_command (channel ∷ message ∷ []) s.world).0 ≡ simple_int (pos (length members)))
      × Unique members
      × ((d : Socket) → has_socket d members ≡ includes channel (s.states d).subscribed_channels)
unfolding publish_command
publish_command-reaches s channel message reached =
    let (agrees, unique) = Reachable-Consistent s reached in
    let members = get_subscribers channel s.world.channels in
    let bytes = utf8_encode (to_resp_array (codes "message" ∷ channel ∷ message ∷ [])) in
    (
      write_writable s.world.writable members bytes,
      members,
      refl,
      λ d.
          rw (agrees d channel)
            (to_socket-write_writable d s.world.writable members bytes (unique channel)),
      refl,
      unique channel,
      λ d. sym (agrees d channel),
    )
