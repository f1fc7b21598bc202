-- ===== src/Tests/Files.antt =====
-- The RDB file at concrete inputs.
use diy_redis.Base.{◌≡◌, ◌≢◌, refl, true, [], ◌∷◌, ◌++◌, arith}
use diy_redis.Js.Text.{Text, codes, str_eq}
use diy_redis.Js.Map.{lookup, keys}
use diy_redis.Js.Utf8.{utf8_encode, utf8_decode}
use diy_redis.Js.Utf8.WellFormed.{well_formed, utf8_decode-utf8_encode}
use diy_redis.Store.{get_value, get_keys, value_text}
use diy_redis.Resp.Encode.{simple_string_response}
use diy_redis.World.{World}
use diy_redis.Rdb.{save_command, load_rdb, parse_rdb, out_of_rounds}
use diy_redis.Rdb.Pairs.{saved_value}
use diy_redis.Rdb.RoundTrip.{IsSaveable, load_rdb-save_command}
use diy_redis.Rdb.Ends.{parse_rdb_ends}
use diy_redis.Tests.Data.{quiet_world, number_store}

abbrev euro : Text
euro = 0x20ac ∷ 0xd83d ∷ 0xde00 ∷ []

euro-paired : well_formed euro ≡ true
unfolding well_formed
euro-paired = refl

utf8_decode-utf8_encode_example : utf8_decode (utf8_encode euro) ≡ euro
utf8_decode-utf8_encode_example = utf8_decode-utf8_encode euro euro-paired

parse_rdb_ends_example : parse_rdb 0 (codes "REDIS0011" ++ 0xfb ∷ 0x40 ∷ []) [] ≢ out_of_rounds
parse_rdb_ends_example = parse_rdb_ends 0 (codes "REDIS0011" ++ 0xfb ∷ 0x40 ∷ []) []

abbrev saving_world : World
saving_world = record quiet_world { clock = 500; store = number_store }

number_store-IsSaveable : IsSaveable 500 number_store
unfolding well_formed utf8_encode get_keys get_value lookup keys str_eq value_text
number_store-IsSaveable = record {
  few = omega arith;
  fit = (
    λ s p. record {
      name = record { paired = refl; short = omega arith };
      small = record { paired = refl; short = omega arith };
      dated = tt;
    },
    (
      λ s p. record {
        name = record { paired = refl; short = omega arith };
        small = record { paired = refl; short = omega arith };
        dated = omega arith;
      },
      tt,
    ),
  );
}

load_rdb-save_command_example :
    ((save_command [] saving_world).0 ≡ simple_string_response (codes "OK"))
    × ((j : Text)
        → get_value j
            (load_rdb (record (save_command [] saving_world).1 { clock = 700; store = [] })).store
          ≡ saved_value 700 (get_value j number_store))
load_rdb-save_command_example =
    load_rdb-save_command saving_world 700 refl (omega arith) number_store-IsSaveable
