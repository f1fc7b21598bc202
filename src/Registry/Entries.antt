-- ===== src/Registry/Entries.antt =====
-- The entries that the dispatcher's theorems ask for.
use diy_redis.Base.{ℕ, suc, ◌≡◌, refl, some}
use diy_redis.Js.Text.{codes, str_eq}
use diy_redis.Js.Map.{lookup, insert}
use diy_redis.Dispatch.{simple}
use diy_redis.Dispatch.Propagation.{rpush_simple}
use diy_redis.Transaction.Isolation.{HasTransactions}
use diy_redis.Settings.{Settings}
use diy_redis.Registry.Defs.{Engine, create_command_registry, command_map}

-- MULTI and EXEC, and RPUSH.
pub command_map-HasTransactions :
    (engine : Engine) (settings : Settings) (depth : ℕ)
    → HasTransactions (command_map (suc depth) engine settings) (command_map depth engine settings)
unfolding command_map create_command_registry lookup insert str_eq
command_map-HasTransactions engine settings depth = record { multi = refl; exec = refl }

pub command_map-rpush :
    (engine : Engine) (settings : Settings) (depth : ℕ)
    → lookup (codes "rpush") (command_map (suc depth) engine settings) ≡ some (simple rpush_simple)
unfolding command_map create_command_registry lookup insert str_eq rpush_simple
command_map-rpush engine settings depth = refl
