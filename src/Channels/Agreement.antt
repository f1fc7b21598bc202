-- ===== src/Channels/Agreement.antt =====
-- The channel map and the connections' own sets of channels, under commands of several connections.
use diy_redis.Base.{
  arith, ◌≡◌, refl, ◌∙◌, sym, Bool, true, false, not, ◌&&◌, ◌||◌, List, [], ◌∷◌, ◌==◌, ==_iff,
  Bool-cases, inl, inr,
}
use diy_redis.Js.Text.{Text, str_eq, str_eq→eq, str_eq_refl}
use diy_redis.Js.Map.{includes}
use diy_redis.World.{Socket, World, write}
use diy_redis.Dispatch.{ConnectionState}
use diy_redis.Channels.Defs.{
  subscribe_one, subscribe_all, leave_channel, unsubscribe_one, unsubscribe_all,
}
use diy_redis.Channels.Sets.{
  member, member-subscribe, member-unsubscribe, includes-add_channel, includes-delete_channel,
}

or_swap : (a b c : Bool) → (a || (b || c)) ≡ ((b || a) || c)
or_swap true true c = refl
or_swap true false c = refl
or_swap false true c = refl
or_swap false false c = refl

or_swap_and : (a b c d : Bool) → ((a && d) || ((b && d) || c)) ≡ (((b || a) && d) || c)
or_swap_and true true c true = refl
or_swap_and true true c false = refl
or_swap_and true false c true = refl
or_swap_and true false c false = refl
or_swap_and false true c true = refl
or_swap_and false true c false = refl
or_swap_and false false c true = refl
or_swap_and false false c false = refl

-- SUBSCRIBE adds the channels that it names to the set of the connection, and the connection to theirs.
pub subscribe_all-own :
    (c : Socket) (ts : List Text) (state : ConnectionState) (w : World) (s : Text)
    → includes s (subscribe_all c ts state w).0.subscribed_channels
      ≡ (includes s ts || includes s state.subscribed_channels)
unfolding subscribe_all subscribe_one includes
subscribe_all-own c [] state w s = refl
subscribe_all-own c (t ∷ ts) state w s =
    rw
      (
        subscribe_all-own c ts (subscribe_one c t state w).0 (subscribe_one c t state w).1 s,
        includes-add_channel s t state.subscribed_channels,
      )
      (or_swap (includes s ts) (str_eq t s) (includes s state.subscribed_channels))

pub subscribe_all-channels :
    (d c : Socket) (ts : List Text) (state : ConnectionState) (w : World) (s : Text)
    → member d s (subscribe_all c ts state w).1.channels
      ≡ ((includes s ts && (d == c)) || member d s w.channels)
unfolding subscribe_all subscribe_one includes write
subscribe_all-channels d c [] state w s = refl
subscribe_all-channels d c (t ∷ ts) state w s =
    rw
      (
        subscribe_all-channels d c ts (subscribe_one c t state w).0 (subscribe_one c t state w).1 s,
        member-subscribe d c s t w.channels,
      )
      (or_swap_and (includes s ts) (str_eq t s) (member d s w.channels) (d == c))

-- A connection's own set and the sets of the channels say the same.
abbrev pub Agrees : Socket → ConnectionState → World → Type 0
Agrees c state w =
    (channel : Text) → includes channel state.subscribed_channels ≡ member c channel w.channels

pub same_socket : (c : Socket) → (c == c) ≡ true
same_socket c = ground arith

and_not : (a b c : Bool) → (not a && (not b && c)) ≡ (not (b || a) && c)
and_not true true c = refl
and_not true false c = refl
and_not false true c = refl
and_not false false c = refl

and_not_and : (a b c d : Bool) → (not (a && d) && (not (b && d) && c)) ≡ (not ((b || a) && d) && c)
and_not_and true true c true = refl
and_not_and true true c false = refl
and_not_and true false c true = refl
and_not_and true false c false = refl
and_not_and false true c true = refl
and_not_and false true c false = refl
and_not_and false false c true = refl
and_not_and false false c false = refl

pub and-true : (b : Bool) → (b && true) ≡ b
and-true true = refl
and-true false = refl

-- A channel that the connection has not joined is no member's loss.
not_joined :
    (s t : Text) (ts : List Text)
    → includes t ts ≡ false
    → includes s ts ≡ (not (str_eq t s) && includes s ts)
not_joined s t ts gone = elim (Bool-cases (str_eq t s)) [
  | inl same ↦ rw (← str_eq→eq t s same, gone, str_eq_refl t) refl
  | inr other ↦ rw other refl
]

leave_channel-own :
    (c : Socket) (t s : Text) (state : ConnectionState) (w : World)
    → includes s (leave_channel c t state w).0.subscribed_channels
      ≡ (not (str_eq t s) && includes s state.subscribed_channels)
unfolding leave_channel
leave_channel-own c t s state w = elim (Bool-cases (includes t state.subscribed_channels)) [
  | inl there ↦ rw there (includes-delete_channel s t state.subscribed_channels)
  | inr gone ↦ rw gone (not_joined s t state.subscribed_channels gone)
]

gone_false : (b : Bool) → false ≡ (b && false)
gone_false true = refl
gone_false false = refl

no_member :
    (d c : Socket) (s t : Text) (w : World)
    → member c t w.channels ≡ false
    → member d s w.channels ≡ (not (str_eq t s && (d == c)) && member d s w.channels)
no_member d c s t w gone = elim (Bool-cases (str_eq t s)) [
  | inl same ↦ elim (Bool-cases (d == c)) [
    | inl it ↦
        rw ((==_iff d c).0 it, ← str_eq→eq t s same, gone)
          (gone_false (not (str_eq t t && (c == c))))
    | inr other ↦ rw (other, same) refl
  ]
  | inr other ↦ rw other refl
]

leave_channel-channels :
    (d c : Socket) (t s : Text) (state : ConnectionState) (w : World)
    → Agrees c state w
    → member d s (leave_channel c t state w).1.channels
      ≡ (not (str_eq t s && (d == c)) && member d s w.channels)
unfolding leave_channel
leave_channel-channels d c t s state w h =
    elim (Bool-cases (includes t state.subscribed_channels)) [
      | inl there ↦ rw there (member-unsubscribe d c s t w.channels)
      | inr gone ↦ rw gone (no_member d c s t w (sym (h t) ∙ gone))
    ]

leave_channel-Agrees :
    (c : Socket) (t : Text) (state : ConnectionState) (w : World)
    → Agrees c state w
    → Agrees c (leave_channel c t state w).0 (leave_channel c t state w).1
leave_channel-Agrees c t state w h s =
    leave_channel-own c t s state w
    ∙ rw (h s, leave_channel-channels c c t s state w h, same_socket c, and-true (str_eq t s)) refl

-- UNSUBSCRIBE takes the channels that it names out of the set of the connection, and the connection out
-- of theirs.
pub unsubscribe_all-own :
    (c : Socket) (ts : List Text) (state : ConnectionState) (w : World) (s : Text)
    → includes s (unsubscribe_all c ts state w).0.subscribed_channels
      ≡ (not (includes s ts) && includes s state.subscribed_channels)
unfolding unsubscribe_all unsubscribe_one includes
unsubscribe_all-own c [] state w s = refl
unsubscribe_all-own c (t ∷ ts) state w s =
    rw
      (
        unsubscribe_all-own c ts (unsubscribe_one c t state w).0 (unsubscribe_one c t state w).1 s,
        leave_channel-own c t s state w,
      )
      (and_not (includes s ts) (str_eq t s) (includes s state.subscribed_channels))

pub unsubscribe_all-channels :
    (d c : Socket) (ts : List Text) (state : ConnectionState) (w : World) (s : Text)
    → Agrees c state w
    → member d s (unsubscribe_all c ts state w).1.channels
      ≡ (not (includes s ts && (d == c)) && member d s w.channels)
unfolding unsubscribe_all unsubscribe_one includes write
unsubscribe_all-channels d c [] state w s h = refl
unsubscribe_all-channels d c (t ∷ ts) state w s h =
    rw
      (
        unsubscribe_all-channels d c ts (unsubscribe_one c t state w).0
            (unsubscribe_one c t state w).1 s (leave_channel-Agrees c t state w h),
        leave_channel-channels d c t s state w h,
      )
      (and_not_and (includes s ts) (str_eq t s) (member d s w.channels) (d == c))
