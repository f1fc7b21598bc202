-- ===== src/Transaction/Replies.antt =====
-- What EXEC makes of the replies of the commands that it runs.
use diy_redis.Base.{◌≡◌, refl, ◌∙◌, Option, some, List, [], ◌∷◌, ◌++◌, append-nil}
use diy_redis.Base.Int.{ℤ}
use diy_redis.Js.Text.{Text, starts_with, to_lower}
use diy_redis.Js.Number.{parse_int-decimal_ℤ_line}
use diy_redis.Js.Map.{lookup}
use diy_redis.Resp.Encode.{simple_int, to_resp_array}
use diy_redis.World.{Socket, World}
use diy_redis.Dispatch.{Answer, replied, Command, simple, Commands}
use diy_redis.Transaction.Defs.{
  Response, number, response_of, exec_loop, run_queued, propagate_write,
}

-- An integer reply becomes the number, an array reply becomes nothing.
response_of-simple_int : (z : ℤ) → response_of (some (simple_int z)) ≡ number (some z) ∷ []
unfolding response_of simple_int starts_with
response_of-simple_int z = rw (parse_int-decimal_ℤ_line z) refl

response_of-array : (ps : List Text) → response_of (some (to_resp_array ps)) ≡ []
unfolding response_of to_resp_array starts_with
response_of-array ps = refl

run_queued-simple :
    {found : Option Command} (connection : Option Socket) (name : Text) (args : List Text)
    (f : List Text → World → Answer × World) (w : World)
    → found ≡ some (simple f)
    → run_queued found connection name args w ≡ f args w
unfolding run_queued
run_queued-simple connection name args f w e = rw (e) refl

-- One command of the queue, simple and answered.
exec_loop-simple :
    (commands : Commands) (connection : Option Socket) (name : Text) (args : List Text)
    (rest : List (List Text)) (responses : List Response) (f : List Text → World → Answer × World)
    (reply : Option Text) (w w' : World)
    → lookup (to_lower name) commands ≡ some (simple f)
    → f args w ≡ (replied reply, w')
    → exec_loop commands connection ((name ∷ args) ∷ rest) responses w
      ≡ exec_loop commands connection rest
          (responses ++ response_of reply)
          (propagate_write (to_lower name) (name ∷ args) w')
unfolding exec_loop
exec_loop-simple commands connection name args rest responses f reply w w' entry e =
    let run = run_queued-simple connection name args f w entry ∙ e in rw (exec_loop, run, run) refl

-- A queued command of type simple that answers an array adds nothing to the responses of EXEC: the
-- loop goes on with the rest of the queue and the same responses.
pub exec_drops_arrays :
    (commands : Commands) (connection : Option Socket) (name : Text) (args : List Text)
    (rest : List (List Text)) (responses : List Response) (f : List Text → World → Answer × World)
    (items : List Text) (w w' : World)
    → lookup (to_lower name) commands ≡ some (simple f)
    → f args w ≡ (replied (some (to_resp_array items)), w')
    → exec_loop commands connection ((name ∷ args) ∷ rest) responses w
      ≡ exec_loop commands connection rest responses
          (propagate_write (to_lower name) (name ∷ args) w')
exec_drops_arrays commands connection name args rest responses f items w w' entry e =
    exec_loop-simple commands connection name args rest responses f (some (to_resp_array items)) w
      w' entry e
    ∙ rw (response_of-array items, append-nil responses) refl
