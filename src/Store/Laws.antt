-- ===== src/Store/Laws.antt =====
-- What a key holds after each method.
use diy_redis.Base.{◌≡◌, Option, none, some, if◌then◌else◌}
use diy_redis.Js.Text.{Text, str_eq}
use diy_redis.Js.Map.{
  Distinct, keys, lookup-insert, lookup-remove, Distinct-insert, Distinct-remove,
}
use diy_redis.Js.Date.{Date}
use diy_redis.Store.Defs.{Kind, Value, Store, set_value, get_value, delete_key}

pub get_value-set_value :
    (k j : Text) (v : Value) (t : Kind) (e : Option Date) (s : Store)
    → get_value j (set_value k v t e s) ≡ (
        if str_eq k j then some (record { value = v; kind = t; expiration = e }) else get_value j s)
unfolding get_value set_value
get_value-set_value k j v t e s = lookup-insert k j _ s

pub get_value-delete_key :
    (k j : Text) (s : Store)
    → get_value j (delete_key k s).0 ≡ (if str_eq k j then none else get_value j s)
unfolding get_value delete_key
get_value-delete_key k j s = lookup-remove k j s

-- No key is held twice.
abbrev pub IsMap : Store → Type 0
IsMap s = Distinct (keys s)

pub set_value-IsMap :
    (k : Text) (v : Value) (t : Kind) (e : Option Date) (s : Store)
    → IsMap s
    → IsMap (set_value k v t e s)
unfolding set_value
set_value-IsMap k v t e s h = Distinct-insert k _ s h

pub delete_key-IsMap : (k : Text) (s : Store) → IsMap s → IsMap (delete_key k s).0
unfolding delete_key
delete_key-IsMap k s h = Distinct-remove k s h
