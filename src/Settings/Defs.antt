-- ===== src/Settings/Defs.antt =====
-- serverSetup.ts, and the commands that show the settings.
use diy_redis.Base.{
  Bool, not, ◌&&◌, ◌||◌, Option, none, some, List, [], ◌∷◌, ◌++◌, ◌==◌, if◌then◌else◌,
}
use diy_redis.Base.Int.{ℤ, pos}
use diy_redis.Js.Text.{Text, codes, crlf, str_eq, to_lower, is_truthy}
use diy_redis.Js.Number.{parse_int, decimal, trim}
use diy_redis.Resp.Encode.{bulk_string_response, simple_string_response, to_resp_array}
use diy_redis.World.{World}
use diy_redis.Replica.{master_replid}

pub data Role : Type 0 where
  master slave : Role

-- The result of `detectServerRole`, which `start` copies to `serverInfo`. The port of the master can be NaN.
pub record Settings : Type 0 where
  pub port : ℤ
  pub role : Role
  pub master_host : Option Text
  pub master_port : Option ℤ
  pub dir : Text
  pub dbfilename : Text

-- `args.findIndex((arg) => arg === flag)`: the arguments behind it.
unfoldable pub behind_flag : Text → List Text → Option (List Text)
behind_flag flag [] = none
behind_flag flag (a ∷ args) =
    let rest = behind_flag flag args in if str_eq a flag then some args else rest

-- `args[index + 1]`, if it is there and not empty.
abbrev pub first_truthy : Option (List Text) → Option Text
first_truthy none = none
first_truthy (some []) = none
first_truthy (some (a ∷ args)) = if is_truthy a then some a else none

unfoldable pub value_of : Text → List Text → Option Text
unfolding behind_flag
value_of flag args = first_truthy (behind_flag flag args)

abbrev parsed_port : Option ℤ → ℤ
parsed_port none = pos 6379
parsed_port (some n) = n

abbrev port_of : Option Text → ℤ
port_of none = pos 6379
port_of (some t) = parsed_port (parse_int t)

abbrev trimmed_or : Text → Option Text → Text
trimmed_or default none = default
trimmed_or default (some t) = trim t

-- `text.split(" ")`: its first part, and the second if there is one.
unfoldable pub first_word : Text → Text
first_word [] = []
first_word (c ∷ s) = let rest = first_word s in if c == 32 then [] else c ∷ rest

unfoldable pub behind_space : Text → Option Text
behind_space [] = none
behind_space (c ∷ s) = let rest = behind_space s in if c == 32 then some s else rest

abbrev pub Master : Type 0
Master = Option (Text × Option ℤ)

-- `if (host && portStr)`
abbrev pub master_at : Text → Text → Master
master_at host port =
    if is_truthy host && is_truthy port then some (trim host, parse_int (trim port)) else none

abbrev split_master : Text → Option Text → List Text → Master
split_master host (some rest) args = master_at (first_word host) (first_word rest)
split_master host none [] = none
split_master host none (port ∷ args) = master_at host port

-- The arguments behind `--replicaof`: "host port", or host and port.
unfoldable pub master_of : Option (List Text) → Master
unfolding first_word behind_space
master_of none = none
master_of (some []) = none
master_of (some (host ∷ args)) =
    if is_truthy host then split_master host (behind_space host) args else none

abbrev pub with_master : Master → Settings → Settings
with_master none s = s
with_master (some (host, port)) s = record s {
  role = slave;
  master_host = some host;
  master_port = port;
}

-- `detectServerRole`, with `process.cwd()` as the first argument.
unfoldable pub detect_server_role : Text → List Text → Settings
unfolding value_of master_of
detect_server_role cwd args =
    with_master (master_of (behind_flag (codes "--replicaof") args)) (record {
      port = port_of (value_of (codes "--port") args);
      role = master;
      master_host = none;
      master_port = none;
      dir = trimmed_or cwd (value_of (codes "--dir") args);
      dbfilename = trimmed_or (codes "dump.rdb") (value_of (codes "--dbfilename") args);
    })

-- EchoCommand.ts
unfoldable pub echo_command : List Text → Text
echo_command [] = simple_string_response []
echo_command (a ∷ args) = simple_string_response a

abbrev role_text : Role → Text
role_text master = codes "master"
role_text slave = codes "slave"

abbrev pub info_text : Settings → World → Text
info_text s w =
    codes "role:"
    ++ (role_text s.role
        ++ (crlf
            ++ (codes "master_replid:"
                ++ (master_replid ++ (crlf ++ (codes "master_repl_offset:" ++ decimal w.offset))))))

-- InfoCommand.ts
abbrev shows_info : Text → Bool
shows_info section =
    not (is_truthy section)
    || (str_eq section (codes "replication") || str_eq section (codes "server"))

unfoldable pub info_command : List Text → Settings → World → Text
info_command [] s w = bulk_string_response (some (info_text s w))
info_command (section ∷ args) s w =
    if shows_info (to_lower section)
    then bulk_string_response (some (info_text s w))
    else bulk_string_response (some [])

abbrev config_value : Text → Settings → Text
config_value parameter s =
    if str_eq parameter (codes "dir")
    then to_resp_array (parameter ∷ s.dir ∷ [])
    else if str_eq parameter (codes "dbfilename")
    then to_resp_array (parameter ∷ s.dbfilename ∷ [])
    else codes "*0" ++ crlf

abbrev pub config_error : Text
config_error = codes "-ERR Syntax error in CONFIG command" ++ crlf

-- ConfigCommand.ts
unfoldable pub config_command : List Text → Settings → Text
config_command (word ∷ parameter ∷ args) s =
    if str_eq (to_lower word) (codes "get") && is_truthy (to_lower parameter)
    then config_value (to_lower parameter) s
    else config_error
config_command args s = config_error
