-- ===== src/Replica/Converging.antt =====
-- A master and a replica that run the same writes. The replica's dispatcher gets what the handler emits, as
-- `connectToMaster` of Server.ts has it.
use diy_redis.Base.{
  suc, ◌+◌, ◌≡◌, refl, sym, ap, ◌∙◌, true, false, Option, some, none, List, [], ◌∷◌, ◌++◌,
  append-nil, arith, length, length-append, All,
}
use diy_redis.Base.Int.{pos}
use diy_redis.Js.Text.{Text, codes, str_eq, to_lower, starts_with, is_truthy}
use diy_redis.Js.Map.{lookup, includes}
use diy_redis.Js.Utf8.{utf8_encode}
use diy_redis.Resp.Encode.{to_resp_array}
use diy_redis.Resp.RoundTrip.{IsPlain}
use diy_redis.Store.{Store}
use diy_redis.World.{Socket, World, propagate, store-propagate, write_writable}
use diy_redis.Dispatch.{
  Answer, replied, simple, Commands, ConnectionState, commands_that_propagate, dispatch, is_ack,
  is_upper_ack, run_command, finish,
}
use diy_redis.Transaction.Isolation.{dispatch_all}
use diy_redis.Server.Pipeline.{requests}
use diy_redis.Replica.Defs.{Replica, waits, on_data}
use diy_redis.Replica.Following.{IsFollowing}
use diy_redis.Replica.Agreement.{NoGetack, arrive, follow-emits}
use diy_redis.Replica.Received.{received, count, propagate_lem, received_next}

-- A command with its arguments, and what it does to a store.
pub record Write : Type 0 where
  pub name : Text
  pub arguments : List Text
  pub effect : Store → Store

-- The map runs it so, whatever the rest of the world is, and answers without an error; its name is one of those
-- that the dispatcher propagates.
pub record IsWrite (commands : Commands) (c : Write) : Type 0 where
  pub run : List Text → World → Answer × World
  pub reply : World → Text
  pub known : lookup (to_lower c.name) commands ≡ some (simple run)
  pub written : includes (to_lower c.name) commands_that_propagate ≡ true
  pub no_replconf : str_eq (to_lower c.name) (codes "replconf") ≡ false
  pub no_upper : str_eq (to_lower c.name) (codes "REPLCONF") ≡ false
  pub runs :
      (w : World)
      → run c.arguments w ≡ (replied (some (reply w)), record w { store = c.effect w.store })
  pub some_reply : (w : World) → is_truthy (reply w) ≡ true
  pub no_error : (w : World) → starts_with (reply w) (codes "-") ≡ false

pub record IsOpen (state : ConnectionState) : Type 0 where
  pub outside : state.in_transaction ≡ false
  pub unsubscribed : state.subscribed_channels ≡ []

abbrev pub words : Write → List Text
words c = c.name ∷ c.arguments

no_ack :
    (lower : Text) (args : List Text)
    → str_eq lower (codes "replconf") ≡ false
    → is_ack lower args ≡ false
unfolding is_ack
no_ack lower [] h = refl
no_ack lower (a ∷ args) h = rw h refl

no_upper_ack :
    (lower : Text) (args : List Text)
    → str_eq lower (codes "REPLCONF") ≡ false
    → is_upper_ack lower args ≡ false
unfolding is_upper_ack
no_upper_ack lower [] h = refl
no_upper_ack lower (a ∷ args) h = rw h refl

dispatch-write :
    (commands : Commands) (connection : Option Socket) (c : Write) (state : ConnectionState)
    (w : World) (h : IsWrite commands c)
    → IsOpen state
    → dispatch commands connection (c.name ∷ c.arguments) state false w ≡ (
      replied (some (h.reply w)),
      state,
      propagate (c.name ∷ c.arguments) (record w { store = c.effect w.store }),
    )
unfolding dispatch run_command finish
dispatch-write commands connection c state w h idle =
    rw
      (
        idle.outside,
        idle.unsubscribed,
        no_ack (to_lower c.name) c.arguments h.no_replconf,
        no_upper_ack (to_lower c.name) c.arguments h.no_upper,
        h.known,
        h.runs w,
        h.written,
        h.some_reply w,
        h.no_error w,
      )
      refl

unfoldable pub all_words : List Write → List (List Text)
all_words [] = []
all_words (c ∷ cs) = (c.name ∷ c.arguments) ∷ all_words cs

-- What the writes do to a store, one after the other, and to the world of a server that propagates each.
unfoldable pub effects : List Write → Store → Store
effects [] store = store
effects (c ∷ cs) store = effects cs (c.effect store)

unfoldable pub after_writes : List Write → World → World
after_writes [] w = w
after_writes (c ∷ cs) w =
    after_writes cs (propagate (c.name ∷ c.arguments) (record w { store = c.effect w.store }))

dispatch_all-writes :
    (commands : Commands) (connection : Option Socket) (cs : List Write) (state : ConnectionState)
    (w : World)
    → All (IsWrite commands) cs
    → IsOpen state
    → dispatch_all commands connection (all_words cs) state w ≡ (state, after_writes cs w)
unfolding dispatch_all all_words after_writes
dispatch_all-writes commands connection [] state w h idle = refl
dispatch_all-writes commands connection (c ∷ cs) state w (h, hs) idle =
    rw (dispatch_all, all_words, dispatch-write commands connection c state w h idle)
      (dispatch_all-writes commands connection cs state
        (propagate (c.name ∷ c.arguments) (record w { store = c.effect w.store })) hs idle)

store-after_writes : (cs : List Write) (w : World) → (after_writes cs w).store ≡ effects cs w.store
unfolding after_writes effects
store-after_writes [] w = refl
store-after_writes (c ∷ cs) w =
    let w' = record w { store = c.effect w.store } in
    store-after_writes cs (propagate (c.name ∷ c.arguments) w')
    ∙ ap (effects cs) (store-propagate (c.name ∷ c.arguments) w')

sent-after_writes :
    (cs : List Write) (s : Socket) (w : World)
    → count s w.replicas ≡ 1
    → w.writable s ≡ true
    → (received s (after_writes cs w).sent ≡ received s w.sent ++ requests (all_words cs))
      × ((after_writes cs w).offset ≡ w.offset + length (requests (all_words cs)))
unfolding after_writes requests all_words
sent-after_writes [] s w once live = (rw append-nil refl, omega arith)
sent-after_writes (c ∷ cs) s w once live =
    let bytes = utf8_encode (to_resp_array (c.name ∷ c.arguments)) in
    let w' = record w {
      store = c.effect w.store;
      sent = w.sent ++ write_writable w.writable w.replicas bytes;
      offset = w.offset + length bytes;
    } in
    let (sent, counted) = sent-after_writes cs s w' once live in
    rw
      (
        after_writes,
        requests,
        all_words,
        propagate_lem (c.name ∷ c.arguments) s (record w { store = c.effect w.store }) once,
      )
      (
        sent ∙ received_next s w bytes (requests (all_words cs)) once live,
        counted ∙ omega (arith, length-append bytes (requests (all_words cs))),
      )

-- A master gets writes from a client, and a replica that holds the same store stands once in its list, on a connection that is open; it
-- has counted as many bytes as the master. Then what the master's dispatcher sends it makes it emit these commands in their order,
-- its dispatcher, which runs them without a connection, brings its store to the master's, and it has counted as many bytes
-- again. Neither side is in a transaction or subscribed; the two may have different clocks, clients and
-- replicas. The words of the commands are plain, and each command is one that the map runs so that its effect on the store
-- depends on the store alone, that answers without an error, and whose name is propagated.
pub dispatch_all-converges :
    (commands : Commands) (cs : List Write) (client s : Socket)
    (state replica_state : ConnectionState) (w v : World) (r : Replica)
    → All (IsWrite commands) cs
    → All (All IsPlain) (all_words cs)
    → NoGetack (all_words cs)
    → IsOpen state
    → IsOpen replica_state
    → count s w.replicas ≡ 1
    → w.writable s ≡ true
    → IsFollowing r
    → v.store ≡ w.store
    → let w' = (dispatch_all commands (some client) (all_words cs) state w).1 in
      let v' = (dispatch_all commands none (all_words cs) replica_state v).1 in
      (received s w'.sent ≡ received s w.sent ++ requests (all_words cs))
      × (on_data
            (suc (length (all_words cs)))
            (requests (all_words cs))
            (record r { buffer = []; processing_offset = pos w.offset })
          ≡ waits (record r {
            buffer = [];
            processing_offset = pos w'.offset;
            emitted = r.emitted ++ all_words cs;
          }))
      × (v'.store ≡ w'.store)
unfolding on_data
dispatch_all-converges commands cs client s state replica_state w v r writes plain quiet idle
      replica_idle once live following same =
    let (sent, counted) = sent-after_writes cs s w once live in
    rw
      (
        dispatch_all-writes commands (some client) cs state w writes idle,
        dispatch_all-writes commands none cs replica_state v writes replica_idle,
      )
      (
        sent,
        rw counted (
            arrive (all_words cs) (record r { processing_offset = pos w.offset })
              (record { shaken = following.shaken; loaded = following.loaded }) plain
            ∙ ap (λ q. waits (record q { buffer = [] }))
                (follow-emits (all_words cs) r w.offset quiet plain)),
        store-after_writes cs v ∙ ap (effects cs) same ∙ sym (store-after_writes cs w),
      )
