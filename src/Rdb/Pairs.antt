-- ===== src/Rdb/Pairs.antt =====
-- Pairs that the writer wrote are read back, and stored unless they have expired since.
use diy_redis.Base.{
  arith, ℕ, suc, ◌<◌, ◌≤◌, ◌≡◌, refl, ◌⊎◌, ◌∙◌, ap, true, false, ◌&&◌, not, Option, none, some, [],
  ◌∷◌, ◌++◌, length, length-append, if◌then◌else◌, append_assoc, Bool-cases, inl, inr,
}
use diy_redis.Base.Int.{pos, negsuc}
use diy_redis.Js.Text.{Text}
use diy_redis.Js.Utf8.{Bytes}
use diy_redis.Js.Date.{Date, at, invalid}
use diy_redis.Store.{StoreValue, Store, text, value_text, set_value}
use diy_redis.Store.{string}
use diy_redis.Rdb.Writer.{is_string, is_past, write_pair, write_entry}
use diy_redis.Rdb.Reader.{Pair, string_type, read_pair, store_pair, load_pairs}
use diy_redis.Rdb.Strings.{
  IsSmall, string_bytes, write_string-IsSmall, read_string-string_bytes, IsDated, dated_bytes,
  expiry_bytes-IsDated, read_expiry-dated_bytes, is_live-is_past, is_past-later,
}

-- What a save keeps of a value.
abbrev pub saved_value : ℕ → Option StoreValue → Option StoreValue
saved_value now none = none
saved_value now (some v) =
    if is_string v.kind && not (is_past now v.expiration)
    then some
        (record { value = text (value_text v.value); kind = string; expiration = v.expiration })
    else none

-- A pair that can be written.
pub record IsWritable (key : Text) (v : StoreValue) : Type 0 where
  pub name : IsSmall key
  pub small : IsSmall (value_text v.value)
  pub dated : IsDated v.expiration

abbrev pair_bytes : Text → StoreValue → Bytes
pair_bytes key v =
    dated_bytes v.expiration ++ 0 ∷ (string_bytes key ++ string_bytes (value_text v.value))

abbrev pair_of : Text → StoreValue → Pair
pair_of key v = record { expiry = v.expiration; key = key; value = value_text v.value }

module _ (now : ℕ) (key : Text) (v : StoreValue) (h : IsWritable key v)
    (fresh : is_past now v.expiration ≡ false) where
  write_pair-IsWritable : write_pair key v ≡ some (pair_bytes key v)
  unfolding write_pair
  write_pair-IsWritable =
      rw
        (
          expiry_bytes-IsDated now v.expiration h.dated fresh,
          write_string-IsSmall key h.name,
          write_string-IsSmall (value_text v.value) h.small,
        )
        refl

  regroup :
      (rest : Bytes)
      → pair_bytes key v ++ rest
        ≡ dated_bytes v.expiration
          ++ 0 ∷ (string_bytes key ++ (string_bytes (value_text v.value) ++ rest))
  regroup rest =
      append_assoc (dated_bytes v.expiration) _ rest
      ∙ ap (λ (s : Bytes). dated_bytes v.expiration ++ 0 ∷ s)
          (append_assoc (string_bytes key) (string_bytes (value_text v.value)) rest)

  read_pair-pair_bytes :
      (rest : Bytes) → read_pair (pair_bytes key v ++ rest) ≡ some (pair_of key v, rest)
  unfolding read_pair string_type
  read_pair-pair_bytes rest =
      rw
        (
          regroup rest,
          read_expiry-dated_bytes now v.expiration
              (string_bytes key ++ (string_bytes (value_text v.value) ++ rest)) h.dated fresh,
          read_string-string_bytes key (string_bytes (value_text v.value) ++ rest) h.name,
          read_string-string_bytes (value_text v.value) rest h.small,
        )
        refl

-- A round of the loop on a pair.
load_pairs-step :
    (f later : ℕ) (e : Option Date) (s rest : Bytes) (p : Pair) (acc : Store)
    → read_pair (dated_bytes e ++ 0 ∷ s) ≡ some (p, rest)
    → load_pairs (suc f) later (dated_bytes e ++ 0 ∷ s) acc
      ≡ load_pairs f later rest (store_pair later p acc)
unfolding load_pairs
load_pairs-step f later none s rest p acc h = rw (h, load_pairs) refl
load_pairs-step f later (some (at (pos t))) s rest p acc h = rw (h, load_pairs) refl
load_pairs-step f later (some (at (negsuc t))) s rest p acc h = rw (h, load_pairs) refl
load_pairs-step f later (some invalid) s rest p acc h = rw (h, load_pairs) refl

-- What is to be stored for a key that held `o` when it was saved.
unfoldable pub restore_key : ℕ → Text → Option StoreValue → Store → Store
restore_key later key none acc = acc
restore_key later key (some v) acc =
    if is_string v.kind && not (is_past later v.expiration)
    then set_value key (text (value_text v.value)) string v.expiration acc
    else acc

-- A pair that is saved can be written.
abbrev pub Fits : ℕ → Text → Option StoreValue → Type 0
Fits now key none = Unit {0}
Fits now key (some v) =
    is_string v.kind ≡ true → is_past now v.expiration ≡ false → IsWritable key v

store_pair-pair_of :
    (later : ℕ) (key : Text) (v : StoreValue) (acc : Store)
    → IsDated v.expiration
    → is_string v.kind ≡ true
    → store_pair later (pair_of key v) acc ≡ restore_key later key (some v) acc
unfolding store_pair restore_key
store_pair-pair_of later key v acc d s = ground (arith, is_live-is_past later v.expiration d)

-- A key is skipped, or a round of the reader's loop restores it.
abbrev pub Restores : ℕ → ℕ → Text → Option StoreValue → Type 0
Restores now later key o =
    ((write_entry now key o ≡ some []) × ((acc : Store) → restore_key later key o acc ≡ acc))
    ⊎ ((first : Bytes) × (write_entry now key o ≡ some first)
        × (0 < length first)
        × ((f : ℕ) (rest : Bytes) (acc : Store)
            → load_pairs (suc f) later (first ++ rest) acc
              ≡ load_pairs f later rest (restore_key later key o acc)))

length-pair_bytes : (e : Option Date) (s : Bytes) → 0 < length (dated_bytes e ++ 0 ∷ s)
length-pair_bytes e s = omega (arith, length-append {0} (dated_bytes e) (0 ∷ s))

written :
    (now later : ℕ) (key : Text) (v : StoreValue)
    → IsWritable key v
    → is_string v.kind ≡ true
    → is_past now v.expiration ≡ false
    → Restores now later key (some v)
unfolding write_entry
written now later key v h s fresh = inr (
  pair_bytes key v,
  rw (s, fresh) (write_pair-IsWritable now key v h fresh),
  length-pair_bytes v.expiration _,
  λ f rest acc. rw (regroup now key v h fresh rest) (
      load_pairs-step f later v.expiration _ rest (pair_of key v) acc
        (rw (regroup now key v h fresh rest) at (read_pair-pair_bytes now key v h fresh rest))
      ∙ ap (load_pairs f later rest) (store_pair-pair_of later key v acc h.dated s)),
)

pub key-Restores :
    (now later : ℕ) (key : Text) (o : Option StoreValue)
    → now ≤ later
    → Fits now key o
    → Restores now later key o
unfolding write_entry restore_key
key-Restores now later key none le fits = inl (refl, λ acc. refl)
key-Restores now later key (some v) le fits = elim (Bool-cases (is_string v.kind)) [
  | inl s ↦ elim (Bool-cases (is_past now v.expiration)) [
    | inl past ↦
        inl (rw (s, past) refl, λ acc. rw (s, is_past-later now later v.expiration le past) refl)
    | inr fresh ↦ written now later key v (fits s fresh) s fresh
  ]
  | inr other ↦ inl (rw other refl, λ acc. rw other refl)
]
