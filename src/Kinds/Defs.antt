-- ===== src/Kinds/Defs.antt =====
-- The invariant, and the methods of the store.
use diy_redis.Base.{if_both, ◌≡◌, refl, Bool, true, not, ◌&&◌, Option, none, some, List, [], ◌∷◌}
use diy_redis.Js.Text.{Text, str_eq}
use diy_redis.Js.Date.{Date}
use diy_redis.Store.{
  Kind, Value, StoreValue, Store, text, json_list, json_stream, list, get_value, set_value,
  delete_key, get_value-set_value, get_value-delete_key,
}
use diy_redis.World.{World, is_nil}
use diy_redis.Blocking.{is_list, store_list}
use diy_redis.Rdb.{is_string}
use diy_redis.Streams.{is_stream}

-- A list of at least one element under the type "list", a stream of at least one entry under "stream", and a text
-- under "string".
abbrev pub fits : Value → Kind → Bool
fits (text t) kind = is_string kind
fits (json_list ts) kind = is_list kind && not (is_nil ts)
fits (json_stream es) kind = is_stream kind && not (is_nil es)

abbrev pub fits_value : Option StoreValue → Bool
fits_value none = true
fits_value (some v) = fits v.value v.kind

pub record HasKinds (s : Store) : Type 0 where
  pub fit : (k : Text) → fits_value (get_value k s) ≡ true

-- The predicate on the world.
abbrev pub Kinded : World → Type 0
Kinded w = HasKinds w.store

abbrev Fits : Option StoreValue → Type 0
Fits v = fits_value v ≡ true

pub set_value-HasKinds :
    (k : Text) (v : Value) (t : Kind) (e : Option Date) (s : Store)
    → fits v t ≡ true
    → HasKinds s
    → HasKinds (set_value k v t e s)
set_value-HasKinds k v t e s fits_kind h = record {
  fit =
      λ j. rw (get_value-set_value k j v t e s) (if_both Fits (str_eq k j) _ _ fits_kind (h.fit j));
}

pub delete_key-HasKinds : (k : Text) (s : Store) → HasKinds s → HasKinds (delete_key k s).0
delete_key-HasKinds k s h = record {
  fit = λ j. rw (get_value-delete_key k j s) (if_both Fits (str_eq k j) _ _ refl (h.fit j));
}

pub store_list-HasKinds :
    (k : Text) (ts : List Text) (e : Option Date) (s : Store)
    → HasKinds s
    → HasKinds (store_list k ts e s)
unfolding store_list
store_list-HasKinds k [] e s h = delete_key-HasKinds k s h
store_list-HasKinds k (t ∷ ts) e s h = set_value-HasKinds k (json_list (t ∷ ts)) list e s refl h
