-- ===== src/Registry/Defs.antt =====
-- `createCommandRegistry`: the commands under their names, each as a function of the type that ICommand.ts
-- says, and the map with EXEC.
use diy_redis.Base.{ℕ, zero, suc, Option, none, some, List, [], ◌∷◌}
use diy_redis.Js.Text.{Text, codes}
use diy_redis.Js.Map.{insert}
use diy_redis.Store.{Store}
use diy_redis.World.{World}
use diy_redis.Dispatch.{
  Answer, replied, suspended, thrown, Command, simple, stateful, replication, orchestration,
  Commands,
}
use diy_redis.Strings.{
  get_command, set_command, expire_command, exists_command, del_command, type_command, incr_command,
  keys_command,
}
use diy_redis.Lists.{rpush_command, lpush_command, lrange_command, llen_command, lpop_command}
use diy_redis.Streams.{
  Outcome, answered, blocked, raised, outside, xadd_command, xread_command, xrange_command,
  xrevrange_command,
}
use diy_redis.Rdb.{save_command}
use diy_redis.Transaction.{multi_command, discard_command, exec_command}
use diy_redis.Blpop.{blpop_command}
use diy_redis.Channels.{
  Replication, publish_command, subscribe_command, unsubscribe_command, ping_command,
}
use diy_redis.Replica.{psync_command, replconf_command}
use diy_redis.Wait.{wait_command}
use diy_redis.Settings.{Settings, echo_command, info_command, config_command}

-- What the language adds. `elsewhere`: what a command comes to whose outcome is `outside`, since it met
-- what JSON.parse gives for a text that is no stream, or what Number gives for a text that is no row of digits
-- below 2 ^ 53, or since INCR met a number that a Number does not hold exactly. `type_error`: the message of the TypeError that a command throws.
pub record Engine : Type 0 where
  pub elsewhere : Text → List Text → World → Answer × World
  pub type_error : Text → List Text → Text

-- The commands as functions of the arguments and the world.
abbrev pub of_reply : Text × World → Answer × World
of_reply (reply, w) = (replied (some reply), w)

abbrev pub of_store : World → Text × Store → Answer × World
of_store w (reply, store) = (replied (some reply), record w { store = store })

abbrev pub of_outcome : Engine → Text → List Text → World → Outcome × World → Answer × World
of_outcome engine name args w (answered reply, w') = (replied (some reply), w')
of_outcome engine name args w (blocked n, w') = (suspended n, w')
of_outcome engine name args w (raised, w') = (thrown (engine.type_error name args), w')
of_outcome engine name args w (outside, w') = engine.elsewhere name args w

abbrev pub on_clock : (ℕ → List Text → Store → Text × Store) → Command
on_clock f = simple (λ args w. of_store w (f w.clock args w.store))

-- INCR, whose number may be beyond those that a Number holds.
abbrev pub of_number : Engine → Text → List Text → World → Option (Text × Store) → Answer × World
of_number engine name args w none = engine.elsewhere name args w
of_number engine name args w (some p) = of_store w p

abbrev pub on_number : Engine → Text → (ℕ → List Text → Store → Option (Text × Store)) → Command
on_number engine name f = simple (λ args w. of_number engine name args w (f w.clock args w.store))

abbrev pub writing : Replication → Command
writing f = replication (λ args connection state w.
    let (state', w') = f args connection state w in (replied none, state', w'))

abbrev pub on_store : (List Text → Store → Text × Store) → Command
on_store f = simple (λ args w. of_store w (f args w.store))

abbrev pub on_world : (List Text → World → Text × World) → Command
on_world f = simple (λ args w. of_reply (f args w))

abbrev pub on_streams : Engine → Text → (List Text → World → Outcome × World) → Command
on_streams engine name f = simple (λ args w. of_outcome engine name args w (f args w))

abbrev pub on_range : Engine → Text → (List Text → Store → Outcome) → Command
on_range engine name f = on_streams engine name (λ args w. (f args w.store, w))

-- The calls of `set`, in their order.
unfoldable pub create_command_registry : Engine → Settings → Commands
create_command_registry engine settings =
    (codes "echo", on_world (λ args w. (echo_command args, w)))
    ∷ (codes "info", on_world (λ args w. (info_command args settings w, w)))
    ∷ (codes "replconf", on_world replconf_command)
    ∷ (codes "config", on_world (λ args w. (config_command args settings, w)))
    ∷ (codes "get", on_clock get_command)
    ∷ (codes "set", on_clock set_command)
    ∷ (codes "rpush", on_world rpush_command)
    ∷ (codes "lrange", on_store lrange_command)
    ∷ (codes "lpush", on_world lpush_command)
    ∷ (codes "llen", on_store llen_command)
    ∷ (codes "lpop", on_store lpop_command)
    ∷ (codes "expire", on_clock expire_command)
    ∷ (codes "exists", on_clock exists_command)
    ∷ (codes "del", on_clock del_command)
    ∷ (codes "type", on_clock type_command)
    ∷ (codes "incr", on_number engine (codes "incr") incr_command)
    ∷ (codes "keys", on_clock keys_command)
    ∷ (codes "save", on_world save_command)
    ∷ (codes "xrange", on_range engine (codes "xrange") xrange_command)
    ∷ (codes "xrevrange", on_range engine (codes "xrevrange") xrevrange_command)
    ∷ (codes "xadd", on_streams engine (codes "xadd") xadd_command)
    ∷ (codes "xread", on_streams engine (codes "xread") xread_command)
    ∷ (codes "multi", stateful multi_command)
    ∷ (codes "discard", stateful discard_command)
    ∷ (codes "publish", on_world publish_command)
    ∷ (codes "blpop", stateful blpop_command)
    ∷ (codes "ping", stateful ping_command)
    ∷ (codes "psync", replication psync_command)
    ∷ (codes "subscribe", writing subscribe_command)
    ∷ (codes "unsubscribe", writing unsubscribe_command)
    ∷ (codes "wait", orchestration wait_command)
    ∷ []

-- The map of the server refers to itself through EXEC; here the reference is followed to a depth, and below it
-- EXEC has the registry without itself.
unfoldable pub command_map : ℕ → Engine → Settings → Commands
command_map zero engine settings =
    let commands = create_command_registry engine settings in
    insert (codes "exec") (stateful (exec_command commands)) commands
command_map (suc depth) engine settings =
    insert (codes "exec") (stateful (exec_command (command_map depth engine settings)))
      (create_command_registry engine settings)
