-- ===== src/Kinds/Sessions.antt =====
-- The registry keeps the invariant.
use diy_redis.Base.{List, All}
use diy_redis.Js.Text.{Text}
use diy_redis.World.{World}
use diy_redis.Replica.{replconf_command}
use diy_redis.Channels.{ping_command}
use diy_redis.Lists.{front, back, rpush_command, lpush_command}
use diy_redis.Streams.{xadd_command, xread_command}
use diy_redis.Settings.{Settings}
use diy_redis.Registry.{Engine, create_command_registry}
use diy_redis.Kinds.Defs.{Kinded, HasKinds}
use diy_redis.Kinds.Keys.{
  exists_command-KeepsKinds, type_command-KeepsKinds, keys_command-KeepsKinds,
  get_command-KeepsKinds, set_command-KeepsKinds, del_command-KeepsKinds, expire_command-KeepsKinds,
  incr_command-HasKinds,
}
use diy_redis.Kinds.Elements.{
  llen_command-HasKinds, lrange_command-HasKinds, lpop_command-HasKinds, push_command-HasKinds,
}
use diy_redis.Kinds.Entries.{xadd_command-HasKinds, xread_command-HasKinds}
use diy_redis.Invariants.{
  ◌&◌, EntryKeeps, commands-AllKeep, EngineKeeps, AllKeep, of_outcome-Keeps, of_number-Keeps,
}
use diy_redis.Kinds.Commands.{
  blpop_command-Keeps, multi_command-Keeps, discard_command-Keeps, psync_command-Keeps,
  subscribe_command-Keeps, unsubscribe_command-Keeps, wait_command-Keeps, publish_command-HasKinds,
  save_command-HasKinds,
}

keep : (args : List Text) (w : World) → HasKinds w.store → HasKinds w.store
keep args w h = h

-- The entries of the registry, in its order.
entries-Keep :
    (engine : Engine) (settings : Settings)
    → EngineKeeps Kinded engine
    → All (EntryKeeps Kinded) (create_command_registry engine settings)
unfolding create_command_registry rpush_command lpush_command replconf_command ping_command
entries-Keep engine settings law =
    keep
    & keep
    & keep
    & keep
    & (λ args w h. get_command-KeepsKinds w.clock args w.store h)
    & (λ args w h. set_command-KeepsKinds w.clock args w.store h)
    & (λ args w h. push_command-HasKinds back args w h)
    & (λ args w h. lrange_command-HasKinds args w.store h)
    & (λ args w h. push_command-HasKinds front args w h)
    & (λ args w h. llen_command-HasKinds args w.store h)
    & (λ args w h. lpop_command-HasKinds args w.store h)
    & (λ args w h. expire_command-KeepsKinds w.clock args w.store h)
    & (λ args w h. exists_command-KeepsKinds w.clock args w.store h)
    & (λ args w h. del_command-KeepsKinds w.clock args w.store h)
    & (λ args w h. type_command-KeepsKinds w.clock args w.store h)
    & (λ args w h. of_number-Keeps Kinded engine _ args w _ law h (incr_command-HasKinds args w h))
    & (λ args w h. keys_command-KeepsKinds w.clock args w.store h)
    & save_command-HasKinds
    & (λ args w h. of_outcome-Keeps Kinded engine _ args w _ law h h)
    & (λ args w h. of_outcome-Keeps Kinded engine _ args w _ law h h)
    & (λ args w h.
        of_outcome-Keeps Kinded engine _ args w (xadd_command args w) law h
          (xadd_command-HasKinds args w h))
    & (λ args w h.
        of_outcome-Keeps Kinded engine _ args w (xread_command args w) law h
          (xread_command-HasKinds args w h))
    & multi_command-Keeps
    & discard_command-Keeps
    & publish_command-HasKinds
    & blpop_command-Keeps
    & (λ args connection state w h. h)
    & psync_command-Keeps
    & subscribe_command-Keeps
    & unsubscribe_command-Keeps
    & wait_command-Keeps
    & tt

pub registry-AllKeep :
    (engine : Engine) (settings : Settings)
    → EngineKeeps Kinded engine
    → AllKeep Kinded (create_command_registry engine settings)
registry-AllKeep engine settings law =
    commands-AllKeep Kinded (create_command_registry engine settings)
      (entries-Keep engine settings law)
