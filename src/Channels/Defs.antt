-- ===== src/Channels/Defs.antt =====
-- The channel map and the commands on it. A Set is the list of its elements in the order of insertion.
use diy_redis.Base.{
  ℕ, Bool, true, false, ◌||◌, Option, none, some, List, [], ◌∷◌, ◌++◌, ◌==◌, length, if◌then◌else◌,
}
use diy_redis.Base.Int.{pos}
use diy_redis.Js.Text.{Text, codes, crlf, str_eq}
use diy_redis.Js.Utf8.{utf8_encode}
use diy_redis.Js.Map.{Map, lookup, insert, remove, includes}
use diy_redis.Resp.Encode.{
  bulk, bulk_string_response, simple_string_response, simple_int, to_resp_array,
}
use diy_redis.Strings.{wrong_arguments}
use diy_redis.World.{Socket, World, write, write_writable}
use diy_redis.Dispatch.{ConnectionState, replied, Stateful}

-- The Set of sockets of a channel: `has`, `add`, `delete`.
unfoldable pub has_socket : Socket → List Socket → Bool
has_socket c [] = false
has_socket c (d ∷ ds) = (c == d) || has_socket c ds

unfoldable pub add_socket : Socket → List Socket → List Socket
add_socket c ds = if has_socket c ds then ds else ds ++ c ∷ []

unfoldable pub delete_socket : Socket → List Socket → List Socket
delete_socket c [] = []
delete_socket c (d ∷ ds) = let rest = delete_socket c ds in if c == d then rest else d ∷ rest

-- The Set of channels of a connection: `add` and `delete`.
unfoldable pub add_channel : Text → List Text → List Text
add_channel t ts = if includes t ts then ts else ts ++ t ∷ []

unfoldable pub delete_channel : Text → List Text → List Text
delete_channel t [] = []
delete_channel t (s ∷ ts) = let rest = delete_channel t ts in if str_eq t s then rest else s ∷ rest

abbrev or_no_sockets : Option (List Socket) → List Socket
or_no_sockets none = []
or_no_sockets (some cs) = cs

-- The methods of `SubscriptionManager`.
unfoldable pub get_subscribers : Text → Map (List Socket) → List Socket
get_subscribers channel channels = or_no_sockets (lookup channel channels)

unfoldable pub subscribe : Text → Socket → Map (List Socket) → Map (List Socket)
unfolding get_subscribers add_socket
subscribe channel connection channels =
    insert channel (add_socket connection (get_subscribers channel channels)) channels

-- A channel without subscribers is taken out of the map.
keep_channel : Text → List Socket → Map (List Socket) → Map (List Socket)
keep_channel channel [] channels = remove channel channels
keep_channel channel (c ∷ cs) channels = insert channel (c ∷ cs) channels

unsubscribe_from : Text → Socket → Option (List Socket) → Map (List Socket) → Map (List Socket)
unfolding keep_channel delete_socket
unsubscribe_from channel connection none channels = channels
unsubscribe_from channel connection (some cs) channels =
    keep_channel channel (delete_socket connection cs) channels

unfoldable pub unsubscribe : Text → Socket → Map (List Socket) → Map (List Socket)
unfolding unsubscribe_from
unsubscribe channel connection channels =
    unsubscribe_from channel connection (lookup channel channels) channels

-- SubscribeCommand.ts
subscribed_reply : Text → ℕ → Text
subscribed_reply channel size =
    codes "*3" ++ (crlf ++ (bulk (codes "subscribe") ++ (bulk channel ++ simple_int (pos size))))

-- One round of the loop.
unfoldable pub subscribe_one : Socket → Text → ConnectionState → World → ConnectionState × World
unfolding subscribed_reply
subscribe_one connection channel state w =
    let joined = add_channel channel state.subscribed_channels in
    (
      record state { subscribed_channels = joined },
      write connection (subscribed_reply channel (length joined))
          (record w { channels = subscribe channel connection w.channels }),
    )

unfoldable pub subscribe_all :
    Socket → List Text → ConnectionState → World → ConnectionState × World
subscribe_all connection [] state w = (state, w)
subscribe_all connection (channel ∷ rest) state w =
    let (state', w') = subscribe_one connection channel state w in
    subscribe_all connection rest state' w'

-- `connection?.write(response)`
abbrev write_to : Option Socket → Text → World → World
write_to none response w = w
write_to (some connection) response w = write connection response w

abbrev pub Replication : Type 0
Replication = List Text → Option Socket → ConnectionState → World → ConnectionState × World

unfoldable pub subscribe_command : Replication
subscribe_command [] connection state w =
    (state, write_to connection (wrong_arguments (codes "subscribe")) w)
subscribe_command (channel ∷ rest) none state w = (state, w)
subscribe_command (channel ∷ rest) (some connection) state w =
    subscribe_all connection (channel ∷ rest) state w

-- UnsubscribeCommand.ts
unsubscribed_reply : Text → ℕ → Text
unsubscribed_reply channel size =
    codes "*3"
    ++ (crlf
        ++ (bulk_string_response (some (codes "unsubscribe"))
            ++ (bulk_string_response (some channel) ++ simple_int (pos size))))

-- What a round does to the two sets, before the reply.
unfoldable pub leave_channel : Socket → Text → ConnectionState → World → ConnectionState × World
leave_channel connection channel state w =
    if includes channel state.subscribed_channels
    then (
      record state { subscribed_channels = delete_channel channel state.subscribed_channels },
      record w { channels = unsubscribe channel connection w.channels },
    )
    else (state, w)

unfoldable pub unsubscribe_one : Socket → Text → ConnectionState → World → ConnectionState × World
unfolding unsubscribed_reply
unsubscribe_one connection channel state w =
    let (state', w') = leave_channel connection channel state w in
    (state', write connection (unsubscribed_reply channel (length state'.subscribed_channels)) w')

unfoldable pub unsubscribe_all :
    Socket → List Text → ConnectionState → World → ConnectionState × World
unsubscribe_all connection [] state w = (state, w)
unsubscribe_all connection (channel ∷ rest) state w =
    let (state', w') = unsubscribe_one connection channel state w in
    unsubscribe_all connection rest state' w'

unfoldable pub unsubscribe_command : Replication
unsubscribe_command [] connection state w =
    (state, write_to connection (wrong_arguments (codes "unsubscribe")) w)
unsubscribe_command (channel ∷ rest) none state w = (state, w)
unsubscribe_command (channel ∷ rest) (some connection) state w =
    unsubscribe_all connection (channel ∷ rest) state w

-- PublisCommand.ts
unfoldable pub publish_command : List Text → World → Text × World
publish_command (channel ∷ message ∷ []) w =
    let subscribers = get_subscribers channel w.channels in
    let bytes = utf8_encode (to_resp_array (codes "message" ∷ channel ∷ message ∷ [])) in
    (
      simple_int (pos (length subscribers)),
      record w { sent = w.sent ++ write_writable w.writable subscribers bytes },
    )
publish_command args w = (wrong_arguments (codes "publish"), w)

-- PingCommand.ts
abbrev first_or_empty : List Text → Text
first_or_empty [] = []
first_or_empty (a ∷ args) = a

ping_outside : List Text → Text
ping_outside [] = simple_string_response (codes "PONG")
ping_outside (a ∷ args) = simple_string_response a

abbrev is_subscribed : List Text → Bool
is_subscribed [] = false
is_subscribed (t ∷ ts) = true

unfoldable pub ping_command : Stateful
unfolding ping_outside
ping_command args connection state w = (
  replied (
      some (
        if is_subscribed state.subscribed_channels
        then to_resp_array (codes "pong" ∷ first_or_empty args ∷ [])
        else ping_outside args)),
  state,
  w,
)
