-- ===== src/Channels/Sets.antt =====
-- What the changes of the two kinds of sets do to membership.
use diy_redis.Base.{
  arith, ◌≡◌, refl, ◌⊎◌, Bool, true, false, not, ◌&&◌, ◌||◌, List, [], ◌∷◌, ◌++◌, ◌==◌,
  if◌then◌else◌, Option-cases, Bool-cases, inl, inr,
}
use diy_redis.Js.Text.{Text, str_eq, str_eq_iff, str_eq→eq, str_eq_refl}
use diy_redis.Js.Map.{Map, lookup, includes, lookup-insert, lookup-remove}
use diy_redis.World.{Socket}
use diy_redis.Channels.Defs.{
  has_socket, add_socket, delete_socket, add_channel, delete_channel, get_subscribers, subscribe,
  unsubscribe,
}

-- No socket twice.
abbrev pub Unique : List Socket → Type 0
Unique [] = Unit {0}
Unique (c ∷ cs) = (has_socket c cs ≡ false) × Unique cs

has_socket-append :
    (d c : Socket) (cs : List Socket) → has_socket d (cs ++ c ∷ []) ≡ ((d == c) || has_socket d cs)
unfolding has_socket
has_socket-append d c [] = refl
has_socket-append d c (e ∷ cs) = ground (arith, has_socket-append d c cs)

pub has_socket-add_socket :
    (d c : Socket) (cs : List Socket)
    → has_socket d (add_socket c cs) ≡ ((d == c) || has_socket d cs)
unfolding add_socket
has_socket-add_socket d c cs = elim (Bool-cases (has_socket c cs)) [
  | inl there ↦ rw there (already d c cs there)
  | inr gone ↦ rw gone (has_socket-append d c cs)
]
  where
    already :
        (d c : Socket) (cs : List Socket)
        → has_socket c cs ≡ true
        → has_socket d cs ≡ ((d == c) || has_socket d cs)
    already d c cs h = elim (Bool-cases (d == c)) [
      | inl same ↦ ground (arith, h, same)
      | inr other ↦ ground (arith, other)
    ]

pub has_socket-delete_socket :
    (d c : Socket) (cs : List Socket)
    → has_socket d (delete_socket c cs) ≡ (not (d == c) && has_socket d cs)
unfolding has_socket delete_socket
has_socket-delete_socket d c [] = ground arith
has_socket-delete_socket d c (e ∷ cs) = ground (arith, has_socket-delete_socket d c cs)

pub add_socket-Unique : (c : Socket) (cs : List Socket) → Unique cs → Unique (add_socket c cs)
unfolding add_socket has_socket
add_socket-Unique c cs h = elim (Bool-cases (has_socket c cs)) [
  | inl there ↦ rw there h
  | inr gone ↦ rw gone (append_unique c cs gone h)
]
  where
    append_unique :
        (c : Socket) (cs : List Socket)
        → has_socket c cs ≡ false
        → Unique cs
        → Unique (cs ++ c ∷ [])
    append_unique c [] gone h = (refl, tt)
    append_unique c (d ∷ cs) gone h = (
      rw (has_socket-append d c cs, h.0) (ground (arith, gone)),
      append_unique c cs (ground (arith, gone)) h.1,
    )

pub delete_socket-Unique : (c : Socket) (cs : List Socket) → Unique cs → Unique (delete_socket c cs)
unfolding delete_socket
delete_socket-Unique c [] h = tt
delete_socket-Unique c (d ∷ cs) h = elim (Bool-cases (c == d)) [
  | inl same ↦ rw same (delete_socket-Unique c cs h.1)
  | inr other ↦
      rw other
        (rw (has_socket-delete_socket d c cs, h.0) (ground arith), delete_socket-Unique c cs h.1)
]

includes-append :
    (s t : Text) (ts : List Text) → includes s (ts ++ t ∷ []) ≡ (str_eq t s || includes s ts)
unfolding includes
includes-append s t [] = refl
includes-append s t (u ∷ ts) = ground (arith, includes-append s t ts)

same_text :
    (s t : Text) (ts : List Text)
    → includes t ts ≡ true
    → includes s ts ≡ (str_eq t s || includes s ts)
same_text s t ts there = elim (Bool-cases (str_eq t s)) [
  | inl same ↦ rw (← str_eq→eq t s same, there, str_eq_refl t) refl
  | inr other ↦ rw other refl
]

pub includes-add_channel :
    (s t : Text) (ts : List Text) → includes s (add_channel t ts) ≡ (str_eq t s || includes s ts)
unfolding add_channel
includes-add_channel s t ts = elim (Bool-cases (includes t ts)) [
  | inl there ↦ rw there (same_text s t ts there)
  | inr gone ↦ rw gone (includes-append s t ts)
]

pub includes-delete_channel :
    (s t : Text) (ts : List Text)
    → includes s (delete_channel t ts) ≡ (not (str_eq t s) && includes s ts)
unfolding includes delete_channel
includes-delete_channel s t [] = ground arith
includes-delete_channel s t (u ∷ ts) =
    ground (arith, str_eq_iff t u, str_eq_iff u s, str_eq_iff t s, includes-delete_channel s t ts)

abbrev pub member : Socket → Text → Map (List Socket) → Bool
member c channel channels = has_socket c (get_subscribers channel channels)

member-subscribe_same :
    (d c : Socket) (k : Text) (channels : Map (List Socket))
    → member d k (subscribe k c channels) ≡ ((d == c) || member d k channels)
unfolding subscribe get_subscribers
member-subscribe_same d c k channels =
    rw (lookup-insert, str_eq_refl k) (has_socket-add_socket d c (get_subscribers k channels))

pub member-subscribe :
    (d c : Socket) (j k : Text) (channels : Map (List Socket))
    → member d j (subscribe k c channels) ≡ ((str_eq k j && (d == c)) || member d j channels)
unfolding subscribe get_subscribers
member-subscribe d c j k channels = elim (Bool-cases (str_eq k j)) [
  | inl same ↦ rw (← str_eq→eq k j same, str_eq_refl k) (member-subscribe_same d c k channels)
  | inr other ↦ rw (lookup-insert, other) refl
]

List-cases : (cs : List Socket) → (cs ≡ []) ⊎ ((x : Socket) × (xs : List Socket) × (cs ≡ x ∷ xs))
List-cases [] = inl refl
List-cases (x ∷ xs) = inr (x, xs, refl)

if_same {ℓ} : {A : Type ℓ} (b : Bool) (x : A) → (if b then x else x) ≡ x
if_same true x = refl
if_same false x = refl

pub get_subscribers-unsubscribe :
    (c : Socket) (j k : Text) (channels : Map (List Socket))
    → get_subscribers j (unsubscribe k c channels) ≡ (
        if str_eq k j
        then delete_socket c (get_subscribers k channels)
        else get_subscribers j channels)
unfolding unsubscribe get_subscribers delete_socket
get_subscribers-unsubscribe c j k channels = elim (Option-cases (lookup k channels)) [
  | inl gone ↦ elim (Bool-cases (str_eq k j)) [
    | inl same ↦ rw (← str_eq→eq k j same, gone, gone, str_eq_refl k) refl
    | inr other ↦ rw (gone, other) refl
  ]
  | inr (cs, there) ↦ elim (List-cases (delete_socket c cs)) [
    | inl empty ↦ rw (there, empty, lookup-remove) (ground arith)
    | inr (x, xs, rest) ↦ rw (there, rest, lookup-insert) (ground arith)
  ]
]

pub member-unsubscribe :
    (d c : Socket) (j k : Text) (channels : Map (List Socket))
    → member d j (unsubscribe k c channels) ≡ (not (str_eq k j && (d == c)) && member d j channels)
member-unsubscribe d c j k channels = elim (Bool-cases (str_eq k j)) [
  | inl same ↦
      rw (get_subscribers-unsubscribe, ← str_eq→eq k j same, str_eq_refl k)
        (has_socket-delete_socket d c (get_subscribers k channels))
  | inr other ↦ rw (get_subscribers-unsubscribe, other) refl
]
