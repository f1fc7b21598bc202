-- ===== src/Tests/Sessions.antt =====
-- The dispatcher and the transactions at concrete inputs.
use diy_redis.Base.{◌≡◌, refl, false, none, some, List, [], ◌∷◌, if◌then◌else◌}
use diy_redis.Js.Text.{Text, codes, str_eq, to_lower}
use diy_redis.Js.Map.{lookup, includes}
use diy_redis.Resp.Encode.{to_resp_array}
use diy_redis.World.{World, propagate}
use diy_redis.Lists.{found, absent, find_list, lpop_command, rpush_command}
use diy_redis.Dispatch.{ConnectionState, Answer, replied, simple, fresh_state, dispatch, is_ack}
use diy_redis.Dispatch.Propagation.{rpush_diverges, rpush_simple}
use diy_redis.Transaction.{exec_answer, exec_abort, exec_loop, after_exec, propagate_write}
use diy_redis.Transaction.Isolation.{
  transaction_lem, HasTransactions, IsQueued, dispatch_all, all_known,
}
use diy_redis.Transaction.Replies.{exec_drops_arrays}
use diy_redis.Registry.Entries.{command_map-HasTransactions, command_map-rpush}
use diy_redis.Tests.Data.{
  plain_engine, settings, inner_commands, key, some_commands, quiet_world, watched_world,
  first_waiter,
}
use diy_redis.Tests.Elements.{nothing_held, no_waiter, one_waiter}

has_rpush : lookup (codes "rpush") some_commands ≡ some (simple rpush_simple)
has_rpush = command_map-rpush plain_engine settings 0

abbrev push_request : List Text
push_request = codes "RPUSH" ∷ key ∷ codes "a" ∷ []

rpush_diverges_example :
    (find_list key
        (dispatch some_commands (some 7) push_request fresh_state false watched_world).2.store
      ≡ absent)
    × ((dispatch some_commands (some 7) push_request fresh_state false watched_world).2.sent
        ≡ (propagate push_request (propagate (codes "LPOP" ∷ key ∷ []) watched_world)).sent)
    × (find_list key
          (rpush_command
            (key ∷ codes "a" ∷ [])
            (record quiet_world { store = (lpop_command (key ∷ []) quiet_world.store).1 })).1.store
        ≡ found (codes "a" ∷ []) none)
rpush_diverges_example =
    rpush_diverges some_commands has_rpush (some 7) key (codes "a") fresh_state refl refl
      watched_world first_waiter [] quiet_world nothing_held one_waiter refl nothing_held no_waiter

some_commands-HasTransactions : HasTransactions some_commands inner_commands
some_commands-HasTransactions = command_map-HasTransactions plain_engine settings 0

push_request-IsQueued : IsQueued push_request
unfolding is_ack includes to_lower str_eq
push_request-IsQueued = (refl, refl)

transaction_lem_example :
    (middle : ConnectionState) × (dispatch_all some_commands
        (some 7)
        ((codes "MULTI" ∷ []) ∷ push_request ∷ push_request ∷ [])
        fresh_state
        quiet_world
      ≡ (middle, quiet_world))
    × (dispatch some_commands (some 7) (codes "EXEC" ∷ []) middle false quiet_world ≡ (
        if all_known some_commands (push_request ∷ push_request ∷ [])
        then exec_answer
            (exec_loop inner_commands (some 7) (push_request ∷ push_request ∷ []) [] quiet_world)
            (after_exec fresh_state)
        else (replied (some exec_abort), after_exec fresh_state, quiet_world)))
transaction_lem_example =
    transaction_lem some_commands inner_commands some_commands-HasTransactions (some 7) fresh_state
      refl quiet_world (push_request ∷ push_request ∷ [])
      (push_request-IsQueued, (push_request-IsQueued, tt))

-- A command that answers an array.
abbrev keys_like : List Text → World → Answer × World
keys_like args w = (replied (some (to_resp_array (key ∷ []))), w)

has_keys :
    lookup (to_lower (codes "KEYS")) ((codes "keys", simple keys_like) ∷ [])
    ≡ some (simple keys_like)
unfolding lookup str_eq to_lower
has_keys = refl

exec_drops_arrays_example :
    exec_loop
      ((codes "keys", simple keys_like) ∷ [])
      (some 7)
      ((codes "KEYS" ∷ codes "*" ∷ []) ∷ [])
      []
      quiet_world
    ≡ exec_loop
        ((codes "keys", simple keys_like) ∷ [])
        (some 7)
        []
        []
        (propagate_write (to_lower (codes "KEYS")) (codes "KEYS" ∷ codes "*" ∷ []) quiet_world)
exec_drops_arrays_example =
    exec_drops_arrays ((codes "keys", simple keys_like) ∷ []) (some 7) (codes "KEYS")
      (codes "*" ∷ []) [] [] keys_like (key ∷ []) quiet_world quiet_world has_keys refl
