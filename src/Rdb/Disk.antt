-- ===== src/Rdb/Disk.antt =====
-- SaveCommand.ts, and `loadRDB` of Server.ts.
use diy_redis.Base.{Option, none, some, List, [], ◌∷◌, if◌then◌else◌}
use diy_redis.Js.Text.{Text, codes}
use diy_redis.Js.Utf8.{Bytes}
use diy_redis.Store.{Store}
use diy_redis.Resp.Encode.{simple_error_response, simple_string_response}
use diy_redis.World.{World}
use diy_redis.Rdb.Writer.{build_rdb}
use diy_redis.Rdb.Reader.{Loaded, loaded, failed, out_of_rounds, parse_rdb}

-- `fs.writeFileSync`, and the reply.
unfoldable pub write_file : Option Bytes → World → Text × World
write_file none w = (simple_error_response (codes "Failed to save RDB file."), w)
write_file (some bytes) w =
    if w.disk_works
    then (simple_string_response (codes "OK"), record w { rdb_file = some bytes })
    else (simple_error_response (codes "Failed to save RDB file."), w)

unfoldable pub save_command : List Text → World → Text × World
unfolding write_file
save_command args w = write_file (build_rdb w.clock w.store) w

-- The store behind `parse`, thrown or not: what was loaded before an exception stays.
abbrev pub loaded_store : Store → Loaded → Store
loaded_store before (loaded store) = store
loaded_store before (failed store) = store
loaded_store before out_of_rounds = before

unfoldable pub load_file : Option Bytes → World → World
load_file none w = w
load_file (some []) w = w
load_file (some (b ∷ bs)) w = record w {
  store = loaded_store w.store (parse_rdb w.clock (b ∷ bs) w.store);
}

unfoldable pub load_rdb : World → World
unfolding load_file
load_rdb w = load_file w.rdb_file w
