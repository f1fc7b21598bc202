-- ===== src/Rdb/RoundTrip.antt =====
-- A store that was saved is loaded again.
use diy_redis.Base.{
  arith, ℕ, zero, suc, ◌<◌, ◌≤◌, ◌≡◌, refl, ◌∙◌, Bool, true, false, ◌&&◌, ◌||◌, not, Option, none,
  some, List, [], ◌∷◌, ◌++◌, length, length-append, lt→ltb, if◌then◌else◌, append_assoc, All,
  Bool-cases, inl, inr,
}
use diy_redis.Js.Text.{Text, codes, str_eq, str_eq→eq, str_eq_refl, starts_with}
use diy_redis.Js.Utf8.{Bytes}
use diy_redis.Js.Map.{lookup, includes, includes-keys, has_value}
use diy_redis.Store.{string}
use diy_redis.Store.{StoreValue, Store, text, value_text, get_value, get_keys, get_value-set_value}
use diy_redis.Resp.Encode.{simple_string_response}
use diy_redis.World.{World}
use diy_redis.Rdb.Writer.{is_string, is_past, encode_length, write_entries, end_bytes, build_rdb}
use diy_redis.Rdb.Reader.{
  section, loaded, read_length, skip_selector, load_pairs, load_sections, parse_rdb,
}
use diy_redis.Rdb.Disk.{save_command, load_rdb}
use diy_redis.Rdb.Strings.{read_length-short}
use diy_redis.Rdb.Pairs.{saved_value, Fits, Restores, restore_key, key-Restores}

unfoldable pub restore : ℕ → List Text → Store → Store → Store
restore later [] store acc = acc
restore later (k ∷ ks) store acc =
    restore later ks store (restore_key later k (get_value k store) acc)

abbrev or_else : Option StoreValue → Option StoreValue → Option StoreValue
or_else none o = o
or_else (some v) o = some v

get_value-restore_key :
    (later : ℕ) (k j : Text) (o : Option StoreValue) (acc : Store)
    → get_value j (restore_key later k o acc)
      ≡ or_else (if str_eq k j then saved_value later o else none) (get_value j acc)
unfolding restore_key
get_value-restore_key later k j none acc = ground arith
get_value-restore_key later k j (some v) acc =
    elim (Bool-cases (is_string v.kind && not (is_past later v.expiration))) [
      | inl kept ↦
          rw (kept, get_value-set_value k j (text (value_text v.value)) string v.expiration acc)
            (ground arith)
      | inr left ↦ rw left (ground arith)
    ]

absorb :
    (b : Bool) (s o : Option StoreValue)
    → or_else (if b then s else none) (or_else s o) ≡ or_else s o
absorb true none o = refl
absorb true (some v) o = refl
absorb false s o = refl

combined :
    (later : ℕ) (k j : Text) (ks : List Text) (store acc : Store)
    → or_else (if includes j ks then saved_value later (get_value j store) else none) (
        or_else
          (if str_eq k j then saved_value later (get_value k store) else none)
          (get_value j acc))
      ≡ or_else
          (if str_eq k j || includes j ks then saved_value later (get_value j store) else none)
          (get_value j acc)
combined later k j ks store acc = elim (Bool-cases (str_eq k j)) [
  | inl same ↦
      rw (← str_eq→eq k j same, str_eq_refl k)
        (absorb (includes k ks) (saved_value later (get_value k store)) (get_value k acc))
  | inr other ↦ rw other refl
]

get_value-restore :
    (later : ℕ) (ks : List Text) (j : Text) (store acc : Store)
    → get_value j (restore later ks store acc)
      ≡ or_else
          (if includes j ks then saved_value later (get_value j store) else none)
          (get_value j acc)
unfolding restore includes
get_value-restore later [] j store acc = refl
get_value-restore later (k ∷ ks) j store acc =
    rw
      (
        get_value-restore later ks j store (restore_key later k (get_value k store) acc),
        get_value-restore_key later k j (get_value k store) acc,
      )
      (combined later k j ks store acc)

-- The entries of the writer, and the loop of the reader over them.
abbrev Reads : ℕ → ℕ → List Text → Store → Type 0
Reads now later ks store =
    (body : Bytes) × (write_entries now ks store ≡ some body)
    × ((f : ℕ) (acc : Store)
        → length body < f
        → load_pairs f later (body ++ end_bytes) acc
          ≡ section end_bytes (restore later ks store acc))

entries_cons :
    (now later : ℕ) (k : Text) (ks : List Text) (store : Store)
    → Restores now later k (get_value k store)
    → Reads now later ks store
    → Reads now later (k ∷ ks) store
unfolding write_entries restore
entries_cons now later k ks store (inl (skipped, same)) (body, wrote, reads) =
    (body, rw (skipped, wrote) refl, λ f acc short. rw (same acc) (reads f acc short))
entries_cons now later k ks store (inr (first, wrote₁, some_bytes, step)) (body, wrote, reads) =
    (first ++ body, rw (wrote₁, wrote) refl, loop)
  where
    loop :
        (f : ℕ) (acc : Store)
        → length (first ++ body) < f
        → load_pairs f later ((first ++ body) ++ end_bytes) acc
          ≡ section end_bytes (restore later ks store (restore_key later k (get_value k store) acc))
    loop zero acc short = absurd (omega arith)
    loop (suc f) acc short = rw (append_assoc first body end_bytes) (
        step f (body ++ end_bytes) acc
        ∙ reads f (restore_key later k (get_value k store) acc)
            (omega (arith, length-append {0} first body)))

entries-Reads :
    (now later : ℕ) (ks : List Text) (store : Store)
    → now ≤ later
    → All (λ k. Fits now k (get_value k store)) ks
    → Reads now later ks store
unfolding write_entries restore load_pairs
entries-Reads now later [] store le h = ([], refl, stop)
  where
    stop : (f : ℕ) (acc : Store) → 0 < f → load_pairs f later end_bytes acc ≡ section end_bytes acc
    stop zero acc short = absurd (omega arith)
    stop (suc f) acc short = refl
entries-Reads now later (k ∷ ks) store le (h, hs) =
    entries_cons now later k ks store (key-Restores now later k (get_value k store) le h)
      (entries-Reads now later ks store le hs)

-- A store that can be saved: fewer than 64 keys, and every string that has not expired, with its key, is
-- short and has a date, if any, that a date can hold.
pub record IsSaveable (now : ℕ) (store : Store) : Type 0 where
  pub few : length (get_keys store) < 64
  pub fit : All (λ k. Fits now k (get_value k store)) (get_keys store)

held_saved :
    (later : ℕ) (o : Option StoreValue)
    → or_else (if has_value o then saved_value later o else none) none ≡ saved_value later o
held_saved later none = refl
held_saved later (some v) = ground arith

get_value-restore_all :
    (later : ℕ) (j : Text) (store : Store)
    → get_value j (restore later (get_keys store) store []) ≡ saved_value later (get_value j store)
unfolding get_keys get_value lookup
get_value-restore_all later j store =
    get_value-restore later (get_keys store) j store []
    ∙ rw (includes-keys j store) (held_saved later (lookup j store))

skip_selector-hints : (n : ℕ) (s : Bytes) → n < 64 → skip_selector (0 ∷ 0xfb ∷ n ∷ 0 ∷ s) ≡ some s
unfolding skip_selector read_length
skip_selector-hints n s h = rw (read_length-short n (0 ∷ s) h) refl

-- One database section, and the end of the file.
load_sections-database :
    (f n later : ℕ) (s : Bytes) (acc r : Store)
    → n < 64
    → load_pairs (suc (suc f)) later s acc ≡ section end_bytes r
    → load_sections (suc (suc f)) later (0xfe ∷ 0 ∷ 0xfb ∷ n ∷ 0 ∷ s) acc ≡ loaded r
unfolding load_sections
load_sections-database f n later s acc r h reads =
    rw (skip_selector-hints n s h, load_sections, reads) refl

-- The bytes that are saved, and the store that is loaded from them.
build_rdb-Reads :
    (now later : ℕ) (store : Store)
    → now ≤ later
    → IsSaveable now store
    → (bytes : Bytes) × (build_rdb now store ≡ some (b'R' ∷ bytes))
      × (parse_rdb later (b'R' ∷ bytes) [] ≡ loaded (restore later (get_keys store) store []))
unfolding build_rdb parse_rdb encode_length starts_with
build_rdb-Reads now later store le h =
    let (body, wrote, reads) = entries-Reads now later (get_keys store) store le h.fit in
    (
      codes "EDIS0011" ++ 0xfe ∷ 0 ∷ 0xfb ∷ length (get_keys store) ∷ 0 ∷ (body ++ end_bytes),
      rw (lt→ltb _ _ h.few, wrote) refl,
      load_sections-database _ (length (get_keys store)) later (body ++ end_bytes) [] _ h.few
          (reads _ [] (omega (arith, length-append {0} body end_bytes))),
    )

-- SAVE of a store that can be saved, and then a start of the server with that file and no keys, at the
-- same time or later: a key that held a string which has not expired then holds its text and its
-- expiration again, and no other key is held.
pub load_rdb-save_command :
    (w : World) (later : ℕ)
    → w.disk_works ≡ true
    → w.clock ≤ later
    → IsSaveable w.clock w.store
    → ((save_command [] w).0 ≡ simple_string_response (codes "OK"))
      × ((j : Text)
          → get_value j
              (load_rdb (record (save_command [] w).1 { clock = later; store = [] })).store
            ≡ saved_value later (get_value j w.store))
unfolding save_command load_rdb
load_rdb-save_command w later works le h =
    let (bytes, wrote, reads) = build_rdb-Reads w.clock later w.store le h in
    (rw (wrote, works) refl, λ j. rw (wrote, works, reads) (get_value-restore_all later j w.store))
