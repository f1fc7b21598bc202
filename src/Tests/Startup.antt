-- ===== src/Tests/Startup.antt =====
-- WAIT and the command line at concrete inputs.
use diy_redis.Base.{ℕ, ◌≡◌, refl, some, none, List, [], ◌∷◌, ◌++◌}
use diy_redis.Base.Int.{pos}
use diy_redis.Js.Text.{Text, codes, str_eq}
use diy_redis.Js.Number.{parse_int, trim, skip_space, is_space}
use diy_redis.World.{World, Socket}
use diy_redis.Dispatch.{fresh_state}
use diy_redis.Registry.Waiting.{Ack}
use diy_redis.Server.Start.{connect_if, start, start-replicaof}
use diy_redis.Settings.{slave, behind_flag, behind_space}
use diy_redis.Settings.Masters.{IsWord}
use diy_redis.Tests.Data.{quiet_world, settings}

abbrev written_world : World
written_world = record quiet_world { offset = 40 }

abbrev before_flag : List Text
before_flag = codes "node" ∷ codes "main.ts" ∷ codes "--port" ∷ codes "6380" ∷ []

no_flag_before : behind_flag (codes "--replicaof") before_flag ≡ none
unfolding behind_flag str_eq
no_flag_before = refl

host-IsWord : IsWord (codes "localhost")
unfolding behind_space trim skip_space is_space
host-IsWord = record { some_unit = refl; one_word = refl; trimmed = refl }

port-IsWord : IsWord (codes "6379")
unfolding behind_space trim skip_space is_space
port-IsWord = record { some_unit = refl; one_word = refl; trimmed = refl }

start-replicaof_example :
    let one =
      start
        (codes "/")
        (before_flag ++ codes "--replicaof" ∷ (codes "localhost" ++ 32 ∷ codes "6379") ∷ [])
        quiet_world in
    let two =
      start
        (codes "/")
        (before_flag ++ codes "--replicaof" ∷ codes "localhost" ∷ codes "6379" ∷ [])
        quiet_world in
    let target = connect_if (codes "localhost") (parse_int (codes "6379")) in
    (one.settings.role ≡ slave)
    × (one.connects_to ≡ target)
    × (two.settings.role ≡ slave)
    × (two.connects_to ≡ target)
start-replicaof_example =
    start-replicaof (codes "/") (codes "localhost") (codes "6379") before_flag quiet_world
      no_flag_before host-IsWord port-IsWord

connects :
    connect_if (codes "localhost") (parse_int (codes "6379")) ≡ some (codes "localhost", pos 6379)
unfolding parse_int
connects = refl

-- Two replicas answer in time, one late, and another promise of WAIT is there.
abbrev ack_of : Socket → ℕ → Ack
ack_of c n = record { connection = c; state = fresh_state; offset = n }

abbrev waiting_world : World
waiting_world = record written_world {
  waits = (1, record { required_replicas = some (pos 1); master_offset = 10; ack_count = 0 }) ∷ [];
}

abbrev three_acks : List Ack
three_acks = ack_of 9 40 ∷ ack_of 8 3 ∷ ack_of 7 41 ∷ []
