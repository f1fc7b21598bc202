-- ===== src/Strings/Counting.antt =====
-- IncrCommand.ts and DelCommand.ts.
use diy_redis.Base.{
  ℕ, ◌+◌, ◌≡◌, refl, Bool, true, none, some, List, [], ◌∷◌, arith, length, if◌then◌else◌,
}
use diy_redis.Base.Int.{ℤ, pos, ◌+ℤ◌}
use diy_redis.Js.Text.{Text, str_eq}
use diy_redis.Js.Number.{decimal_ℤ, parse_int-decimal_ℤ}
use diy_redis.Js.Map.{includes, length-remove}
use diy_redis.Store.{
  StoreValue, Store, IsMap, text, value_text, string, set_value, get_value, get_keys, delete_key,
  get_value-set_value, get_value-delete_key, delete_key-IsMap,
}
use diy_redis.Resp.Encode.{simple_int}
use diy_redis.Strings.Defs.{is_exact, incr_command, delete_all, del_command}

-- INCR on a value that is the decimal form of `z`, from -(2 ^ 53) to 2 ^ 53 - 1: the reply and the new value are
-- `z + 1`, the expiration is kept, and no other key changes.
pub incr_command-decimal :
    (now : ℕ) (k : Text) (s : Store) (v : StoreValue) (z : ℤ)
    → get_value k s ≡ some v
    → value_text v.value ≡ decimal_ℤ z
    → is_exact z ≡ true
    → (s' : Store) × (incr_command now (k ∷ []) s ≡ some (simple_int (z +ℤ pos 1), s'))
      × ((j : Text)
          → get_value j s' ≡ (
              if str_eq k j
              then some (record {
                value = text (decimal_ℤ (z +ℤ pos 1));
                kind = string;
                expiration = v.expiration;
              })
              else get_value j s))
unfolding incr_command
incr_command-decimal now k s v z held e exact = (
  set_value k (text (decimal_ℤ (z +ℤ pos 1))) string v.expiration s,
  rw (held, e, parse_int-decimal_ℤ, exact) refl,
  λ j. get_value-set_value k j _ _ _ s,
)

-- What one DEL of a key takes away from the number of keys is what it reports.
delete_key_count :
    (k : Text) (s : Store)
    → IsMap s
    → length (get_keys (delete_key k s).0) + (if (delete_key k s).1 then 1 else 0)
      ≡ length (get_keys s)
unfolding delete_key get_keys
delete_key_count k s h = length-remove k s h

count_step :
    (b : Bool) (count left all all' : ℕ)
    → left + (if b then 1 else 0) ≡ all
    → all' ≡ (if b then count + 1 else count) + left
    → all' ≡ count + all
count_step b count left all all' h e = ground arith

delete_all-counts :
    (ks : List Text) (count : ℕ) (s : Store)
    → IsMap s
    → IsMap (delete_all ks count s).1
      × ((delete_all ks count s).0 + length (get_keys (delete_all ks count s).1)
          ≡ count + length (get_keys s))
unfolding delete_all
delete_all-counts [] count s h = (h, refl)
delete_all-counts (k ∷ ks) count s h =
    let (map', counted) =
      delete_all-counts ks (if (delete_key k s).1 then count + 1 else count) (delete_key k s).0
        (delete_key-IsMap k s h) in
    (map', count_step (delete_key k s).1 count _ _ _ (delete_key_count k s h) counted)

get_value-delete_all :
    (ks : List Text) (count : ℕ) (j : Text) (s : Store)
    → get_value j (delete_all ks count s).1 ≡ (if includes j ks then none else get_value j s)
unfolding delete_all includes
get_value-delete_all [] count j s = refl
get_value-delete_all (k ∷ ks) count j s = ground (
  arith,
  get_value-delete_all ks (if (delete_key k s).1 then count + 1 else count) j (delete_key k s).0,
  get_value-delete_key k j s,
)

-- DEL of at least one key: the keys that are named hold nothing, the others what they held, and the
-- reply is the number by which the keys have become fewer.
pub del_command-counts :
    (now : ℕ) (k : Text) (ks : List Text) (s : Store)
    → IsMap s
    → ((j : Text)
        → get_value j (del_command now (k ∷ ks) s).1
          ≡ (if includes j (k ∷ ks) then none else get_value j s))
      × IsMap (del_command now (k ∷ ks) s).1
      × ((count : ℕ) × ((del_command now (k ∷ ks) s).0 ≡ simple_int (pos count))
          × (count + length (get_keys (del_command now (k ∷ ks) s).1) ≡ length (get_keys s)))
unfolding del_command
del_command-counts now k ks s h =
    let (map', counted) = delete_all-counts (k ∷ ks) 0 s h in
    (
      λ j. get_value-delete_all (k ∷ ks) 0 j s,
      map',
      ((delete_all (k ∷ ks) 0 s).0, refl, omega (arith, counted)),
    )
