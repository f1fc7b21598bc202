-- ===== src/World/Executions.antt =====
-- What an EXEC that waits for a promise goes on with: the local variables of ExecCommand.ts.
use diy_redis.Base.{ℕ, Option, List}
use diy_redis.Base.Int.{ℤ}
use diy_redis.Js.Text.{Text}

-- An element of `responses`: string, number (`none` is NaN) or null.
pub data Response : Type 0 where
  string : Text → Response
  number : Option ℤ → Response
  null : Response

-- The promise, `responses`, the payload that gave the promise, and the rest of the queue.
pub record Paused : Type 0 where
  pub promise : ℕ
  pub responses : List Response
  pub name : Text
  pub args : List Text
  pub rest : List (List Text)
