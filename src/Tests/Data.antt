-- ===== src/Tests/Data.antt =====
-- Stores, worlds and commands for the concrete inputs.
use diy_redis.Base.{refl, true, none, some, [], ◌∷◌, arith}
use diy_redis.Base.Int.{pos}
use diy_redis.Js.Text.{Text, codes, find_crlf}
use diy_redis.Js.Number.{parse_int}
use diy_redis.Store.{Store, StoreValue, text, json_list}
use diy_redis.Store.{string, list}
use diy_redis.Js.Date.{at}
use diy_redis.Resp.Parse.{is_payload, is_resp_metadata}
use diy_redis.Resp.RoundTrip.{IsPlain}
use diy_redis.World.{World, Waiter}
use diy_redis.Dispatch.{Commands, thrown}
use diy_redis.Settings.{Settings, master}
use diy_redis.Registry.{Engine, command_map}

abbrev pub key : Text
key = codes "k"

abbrev pub number_value : StoreValue
number_value = record { value = text (codes "41"); kind = string; expiration = none }

abbrev pub expired_value : StoreValue
expired_value = record {
  value = text (codes "v");
  kind = string;
  expiration = some (at (pos 1000));
}

abbrev pub list_value : StoreValue
list_value = record {
  value = json_list (codes "a" ∷ codes "b" ∷ codes "c" ∷ []);
  kind = list;
  expiration = none;
}

abbrev pub number_store : Store
number_store = (key, number_value) ∷ (codes "j", expired_value) ∷ []

abbrev pub list_store : Store
list_store = (key, list_value) ∷ []

abbrev pub first_waiter : Waiter
first_waiter = record { id = 1; keys = key ∷ []; connection = some 7 }

abbrev pub quiet_world : World
quiet_world = record {
  clock = 2000;
  store = [];
  queues = [];
  timers = [];
  resolved = [];
  next_waiter = 2;
  readers = [];
  read_answers = [];
  executions = [];
  replicas = 9 ∷ [];
  offset = 0;
  writable = λ socket. true;
  sent = [];
  channels = [];
  rdb_file = none;
  disk_works = true;
  waits = [];
  wait_answers = [];
}

abbrev pub watched_world : World
watched_world = record quiet_world { queues = (key, first_waiter ∷ []) ∷ [] }

pub rpush-IsPlain : IsPlain (codes "RPUSH")
unfolding find_crlf is_payload parse_int is_resp_metadata
rpush-IsPlain = record { ascii = ground arith; one_line = refl; kept = refl }

pub key-IsPlain : IsPlain key
unfolding find_crlf is_payload parse_int is_resp_metadata
key-IsPlain = record { ascii = ground arith; one_line = refl; kept = refl }

-- An engine that throws where the model does not look, and settings of a master.
abbrev pub plain_engine : Engine
plain_engine = record {
  elsewhere = λ name args w. (thrown (codes "SyntaxError"), w);
  type_error = λ name args. codes "TypeError";
}

abbrev pub settings : Settings
settings = record {
  port = pos 6379;
  role = master;
  master_host = none;
  master_port = none;
  dir = codes "/";
  dbfilename = codes "dump.rdb";
}

-- The commands of a server, and the map as its EXEC sees it.
abbrev pub some_commands : Commands
some_commands = command_map 1 plain_engine settings

abbrev pub inner_commands : Commands
inner_commands = command_map 0 plain_engine settings
