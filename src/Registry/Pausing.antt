-- ===== src/Registry/Pausing.antt =====
-- An EXEC with a command that waits, and what it comes to when the promise is resolved.
use diy_redis.Base.{ℕ, List, [], ◌∷◌, ◌++◌, Option}
use diy_redis.Js.Text.{Text}
use diy_redis.World.{Socket, World}
use diy_redis.World.Executions.{Paused}
use diy_redis.Dispatch.{ConnectionState, Commands}
use diy_redis.Transaction.{Response}

module _ (commands : Commands) (connection : Option Socket) (before rest : List (List Text))
    (name : Text) (args : List Text) (responses : List Response) (n : ℕ) (reply : Text)
    (state : ConnectionState) (w w₁ w₂ v : World) where
  abbrev pub paused : Paused
  paused = record { promise = n; responses = responses; name = name; args = args; rest = rest }

  abbrev pub paused_world : World
  paused_world = record w₂ { executions = w₂.executions ++ paused ∷ [] }
