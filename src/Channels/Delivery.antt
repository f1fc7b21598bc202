-- ===== src/Channels/Delivery.antt =====
-- What SUBSCRIBE and UNSUBSCRIBE of one connection keep for all connections.
use diy_redis.Base.{
  ◌≡◌, refl, ◌∙◌, Bool, true, false, ◌&&◌, some, List, [], ◌∷◌, ◌==◌, Bool-cases, inl, inr,
}
use diy_redis.Js.Text.{Text, str_eq}
use diy_redis.Js.Map.{Map, includes, lookup-insert}
use diy_redis.World.{Socket, World, write}
use diy_redis.Dispatch.{ConnectionState}
use diy_redis.Channels.Defs.{
  subscribe, unsubscribe, subscribe_one, subscribe_all, subscribe_command, leave_channel,
  unsubscribe_one, unsubscribe_all, unsubscribe_command, get_subscribers, Replication,
}
use diy_redis.Channels.Sets.{
  Unique, member, add_socket-Unique, delete_socket-Unique, get_subscribers-unsubscribe,
}
use diy_redis.Channels.Agreement.{
  Agrees, subscribe_all-own, subscribe_all-channels, unsubscribe_all-own, unsubscribe_all-channels,
  same_socket, and-true,
}

-- No channel has a socket twice.
abbrev pub AllUnique : World → Type 0
AllUnique w = (channel : Text) → Unique (get_subscribers channel w.channels)

subscribe-Unique :
    (c : Socket) (k j : Text) (channels : Map (List Socket))
    → ((i : Text) → Unique (get_subscribers i channels))
    → Unique (get_subscribers j (subscribe k c channels))
unfolding subscribe get_subscribers
subscribe-Unique c k j channels h = elim (Bool-cases (str_eq k j)) [
  | inl same ↦ rw (lookup-insert, same) (add_socket-Unique c (get_subscribers k channels) (h k))
  | inr other ↦ rw (lookup-insert, other) (h j)
]

unsubscribe-Unique :
    (c : Socket) (k j : Text) (channels : Map (List Socket))
    → ((i : Text) → Unique (get_subscribers i channels))
    → Unique (get_subscribers j (unsubscribe k c channels))
unsubscribe-Unique c k j channels h = elim (Bool-cases (str_eq k j)) [
  | inl same ↦
      rw (get_subscribers-unsubscribe, same)
        (delete_socket-Unique c (get_subscribers k channels) (h k))
  | inr other ↦ rw (get_subscribers-unsubscribe, other) (h j)
]

subscribe_all-Unique :
    (c : Socket) (ts : List Text) (state : ConnectionState) (w : World)
    → AllUnique w
    → AllUnique (subscribe_all c ts state w).1
unfolding subscribe_all subscribe_one write
subscribe_all-Unique c [] state w h = h
subscribe_all-Unique c (t ∷ ts) state w h =
    subscribe_all-Unique c ts (subscribe_one c t state w).0 (subscribe_one c t state w).1
      (λ j. subscribe-Unique c t j w.channels h)

leave_channel-Unique :
    (c : Socket) (t : Text) (state : ConnectionState) (w : World)
    → AllUnique w
    → AllUnique (leave_channel c t state w).1
unfolding leave_channel
leave_channel-Unique c t state w h j = elim (Bool-cases (includes t state.subscribed_channels)) [
  | inl there ↦ rw there (unsubscribe-Unique c t j w.channels h)
  | inr gone ↦ rw gone (h j)
]

unsubscribe_all-Unique :
    (c : Socket) (ts : List Text) (state : ConnectionState) (w : World)
    → AllUnique w
    → AllUnique (unsubscribe_all c ts state w).1
unfolding unsubscribe_all unsubscribe_one write
unsubscribe_all-Unique c [] state w h = h
unsubscribe_all-Unique c (t ∷ ts) state w h =
    unsubscribe_all-Unique c ts (unsubscribe_one c t state w).0 (unsubscribe_one c t state w).1
      (leave_channel-Unique c t state w h)

-- What a command of one connection keeps.
abbrev pub Keeps : Replication → Type 0
Keeps f =
    (c : Socket) (args : List Text) (state : ConnectionState) (w : World)
    → Agrees c state w
    → AllUnique w
    → Agrees c (f args (some c) state w).0 (f args (some c) state w).1
      × ((d : Socket)
          → (d == c) ≡ false
          → (s : Text) → member d s (f args (some c) state w).1.channels ≡ member d s w.channels)
      × AllUnique (f args (some c) state w).1

and-false : (b : Bool) → (b && false) ≡ false
and-false true = refl
and-false false = refl

pub subscribe_command-Keeps : Keeps subscribe_command
unfolding subscribe_command write
subscribe_command-Keeps c [] state w h u = (h, λ d other s. refl, u)
subscribe_command-Keeps c (t ∷ ts) state w h u = (
  λ s.
      subscribe_all-own c (t ∷ ts) state w s
      ∙ rw
          (
            subscribe_all-channels c c (t ∷ ts) state w s,
            h s,
            same_socket c,
            and-true (includes s (t ∷ ts)),
          )
          refl,
  λ d other s. rw (subscribe_all-channels d c (t ∷ ts) state w s, other, and-false) refl,
  subscribe_all-Unique c (t ∷ ts) state w u,
)

pub unsubscribe_command-Keeps : Keeps unsubscribe_command
unfolding unsubscribe_command write
unsubscribe_command-Keeps c [] state w h u = (h, λ d other s. refl, u)
unsubscribe_command-Keeps c (t ∷ ts) state w h u = (
  λ s.
      unsubscribe_all-own c (t ∷ ts) state w s
      ∙ rw
          (
            unsubscribe_all-channels c c (t ∷ ts) state w s h,
            h s,
            same_socket c,
            and-true (includes s (t ∷ ts)),
          )
          refl,
  λ d other s. rw (unsubscribe_all-channels d c (t ∷ ts) state w s h, other, and-false) refl,
  unsubscribe_all-Unique c (t ∷ ts) state w u,
)
