-- ===== src/Store/Cleaning.antt =====
-- `cleanExpiredKeys` removes the expired keys and no other.
use diy_redis.Base.{ℕ, ◌≡◌, refl, Option, none, List, [], ◌∷◌, arith, if◌then◌else◌}
use diy_redis.Js.Text.{Text, str_eq, str_eq_iff}
use diy_redis.Js.Map.{includes, keys, includes-keys}
use diy_redis.Store.Defs.{
  StoreValue, Store, get_value, is_expired, expiration_of, check_key, check_keys, get_keys,
  clean_expired_keys,
}
use diy_redis.Store.Laws.{get_value-delete_key}

-- What a client that respects expiry may see of a key.
unfoldable pub live_value : ℕ → Text → Store → Option StoreValue
live_value now k s = if is_expired now (expiration_of (get_value k s)) then none else get_value k s

get_value-check_key :
    (now : ℕ) (k j : Text) (s : Store)
    → get_value j (check_key now k s) ≡ (if str_eq k j then live_value now j s else get_value j s)
unfolding check_key live_value
get_value-check_key now k j s = ground (arith, get_value-delete_key k j s, str_eq_iff k j)

live_value-none :
    (now : ℕ) (k : Text) (s : Store) → get_value k s ≡ none → live_value now k s ≡ none
unfolding live_value
live_value-none now k s h = ground (arith, h)

live_value-check_key :
    (now : ℕ) (k j : Text) (s : Store) → live_value now j (check_key now k s) ≡ live_value now j s
unfolding live_value
live_value-check_key now k j s = ground (arith, get_value-check_key now k j s)

get_value-check_keys :
    (now : ℕ) (ks : List Text) (j : Text) (s : Store)
    → get_value j (check_keys now ks s)
      ≡ (if includes j ks then live_value now j s else get_value j s)
unfolding check_keys includes
get_value-check_keys now [] j s = refl
get_value-check_keys now (k ∷ ks) j s = ground (
  arith,
  get_value-check_keys now ks j (check_key now k s),
  live_value-check_key now k j s,
  get_value-check_key now k j s,
)

-- Behind `cleanExpiredKeys` a key holds what it held before, or nothing if that had expired.
pub get_value-clean_expired_keys :
    (now : ℕ) (j : Text) (s : Store) → get_value j (clean_expired_keys now s) ≡ live_value now j s
unfolding clean_expired_keys get_keys get_value
get_value-clean_expired_keys now j s =
    ground
      (arith, get_value-check_keys now (keys s) j s, includes-keys j s, live_value-none now j s)
