-- ===== src/Tests/Keys.antt =====
-- The commands on keys of any type at concrete inputs.
use diy_redis.Base.{
  ℕ, ◌≡◌, refl, none, some, [], ◌∷◌, ◌++◌, ltb, if◌then◌else◌, arith, ◌+◌, ◌*◌, length,
}
use diy_redis.Base.Int.{pos, ◌+ℤ◌}
use diy_redis.Js.Text.{Text, codes, crlf, str_eq}
use diy_redis.Js.Number.{decimal, decimal_ℤ}
use diy_redis.Js.Map.{lookup, includes, keys}
use diy_redis.Resp.Encode.{bulk_string_response, simple_int}
use diy_redis.Store.{
  get_value, get_keys, clean_expired_keys, string, IsMap, value_text, text, Store,
}
use diy_redis.Strings.{
  get_command, set_command, exists_command, del_command, incr_command, expire_command,
}
use diy_redis.Strings.Expiry.{get_reply, get_command-set_command, set_expiry_exact, expire_exact}
use diy_redis.Strings.Counting.{del_command-counts, incr_command-decimal}
use diy_redis.Strings.Cleaned.{clean_invisible}
use diy_redis.Tests.Data.{key, number_store, number_value}

get_command-set_command_example :
    get_reply 5 (codes "j") (set_command 2 (key ∷ codes "v" ∷ []) number_store).1 ≡ (
      if str_eq key (codes "j")
      then bulk_string_response (some (codes "v"))
      else get_reply 5 (codes "j") number_store)
get_command-set_command_example =
    get_command-set_command 2 5 key (codes "j") (codes "v") number_store

set_expiry_exact_example :
    (get_reply 9000 key
        (set_command 2000 (key ∷ codes "v" ∷ codes "EX" ∷ decimal 5 ∷ []) number_store).1
      ≡ (if ltb (2000 + 5 * 1000) 9000
          then bulk_string_response none
          else bulk_string_response (some (codes "v"))))
    × (get_reply 9000 key
          (set_command 2000 (key ∷ codes "v" ∷ codes "PX" ∷ decimal 5 ∷ []) number_store).1
        ≡ (if ltb (2000 + 5) 9000
            then bulk_string_response none
            else bulk_string_response (some (codes "v"))))
set_expiry_exact_example = set_expiry_exact 2000 9000 5 key (codes "v") number_store (omega arith)

number_held : get_value key number_store ≡ some number_value
unfolding get_value lookup str_eq
number_held = refl

expire_exact_example :
    ((expire_command 2000 (key ∷ decimal 5 ∷ []) number_store).0 ≡ codes ":1" ++ crlf)
    × (get_reply 9000 key (expire_command 2000 (key ∷ decimal 5 ∷ []) number_store).1 ≡ (
        if str_eq key key
        then (if ltb (2000 + 5 * 1000) 9000
            then bulk_string_response none
            else bulk_string_response (some (codes "41")))
        else get_reply 9000 key number_store))
unfolding value_text
expire_exact_example =
    expire_exact 2000 9000 5 key key number_store number_value number_held (omega arith)

number_store-IsMap : IsMap number_store
unfolding keys includes str_eq
number_store-IsMap = (refl, (refl, tt))

del_command-counts_example :
    ((j : Text)
      → get_value j (del_command 0 (key ∷ codes "x" ∷ []) number_store).1
        ≡ (if includes j (key ∷ codes "x" ∷ []) then none else get_value j number_store))
    × IsMap (del_command 0 (key ∷ codes "x" ∷ []) number_store).1
    × ((count : ℕ) × ((del_command 0 (key ∷ codes "x" ∷ []) number_store).0
          ≡ simple_int (pos count))
        × (count + length (get_keys (del_command 0 (key ∷ codes "x" ∷ []) number_store).1)
            ≡ length (get_keys number_store)))
del_command-counts_example =
    del_command-counts 0 key (codes "x" ∷ []) number_store number_store-IsMap

incr_command-decimal_example :
    (s' : Store) × (incr_command 0 (key ∷ []) number_store
      ≡ some (simple_int (pos 41 +ℤ pos 1), s'))
    × ((j : Text)
        → get_value j s' ≡ (
            if str_eq key j
            then some (record {
              value = text (decimal_ℤ (pos 41 +ℤ pos 1));
              kind = string;
              expiration = none;
            })
            else get_value j number_store))
incr_command-decimal_example =
    incr_command-decimal 0 key number_store number_value (pos 41) number_held
      (unfold value_text decimal_ℤ decimal in refl) refl

clean_invisible_example :
    ((get_command 2000 (codes "j" ∷ []) (clean_expired_keys 2000 number_store)).0
      ≡ (get_command 2000 (codes "j" ∷ []) number_store).0)
    × ((exists_command 2000 (key ∷ codes "j" ∷ []) (clean_expired_keys 2000 number_store)).0
        ≡ (exists_command 2000 (key ∷ codes "j" ∷ []) number_store).0)
clean_invisible_example = clean_invisible 2000 (codes "j") (key ∷ codes "j" ∷ []) number_store
