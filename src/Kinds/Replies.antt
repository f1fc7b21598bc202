-- ===== src/Kinds/Replies.antt =====
-- What TYPE and the list commands say of one key.
use diy_redis.Base.{
  ℕ, suc, ◌≡◌, refl, sym, ap, ◌∙◌, ◌⊎◌, ◌||◌, true, false, none, some, List, [], ◌∷◌, ◌++◌, length,
  arith, Bool-cases, Option-cases, inl, inr,
}
use diy_redis.Base.Int.{pos}
use diy_redis.Js.Text.{Text, codes, crlf}
use diy_redis.Store.{
  Store, Kind, Value, StoreValue, text, json_list, json_stream, get_value, list, string, hash, set,
  untyped, stream, zset,
}
use diy_redis.Resp.Encode.{simple_int, simple_string_response}
use diy_redis.World.{World}
use diy_redis.Blocking.{is_list}
use diy_redis.Rdb.{is_string}
use diy_redis.Streams.{is_stream}
use diy_redis.Strings.{type_command, kind_name}
use diy_redis.Lists.{llen_command, wrong_type, find_list}
use diy_redis.Settings.{Settings}
use diy_redis.Server.{Event, run, started}
use diy_redis.Registry.{Engine, command_map}
use diy_redis.Invariants.{EngineKeeps}
use diy_redis.Kinds.Reached.{run-fits}
use diy_redis.Kinds.Defs.{Kinded, fits, fits_value}

-- TYPE and LLEN of a key.
abbrev Says : ℕ → Text → Store → Text → Text → Type 0
Says now k s type_reply length_reply =
    ((type_command now (k ∷ []) s).0 ≡ type_reply) × ((llen_command (k ∷ []) s).0 ≡ length_reply)

-- There is no such key; or its type is "list" and its length is not 0; or its type is "string" or "stream", and
-- LLEN is an error about the type.
abbrev pub Agrees : ℕ → Text → Store → Type 0
Agrees now k s =
    Says now k s (simple_string_response (codes "none")) (codes ":0" ++ crlf)
    ⊎ ((n : ℕ) × Says now k s (simple_string_response (codes "list")) (simple_int (pos (suc n))))
    ⊎ Says now k s (simple_string_response (codes "string")) wrong_type
    ⊎ Says now k s (simple_string_response (codes "stream")) wrong_type

kind_name-list : (kind : Kind) → is_list kind ≡ true → kind_name kind ≡ codes "list"
unfolding kind_name
kind_name-list list is = refl
kind_name-list string is = absurd (cc)
kind_name-list hash is = absurd (cc)
kind_name-list set is = absurd (cc)
kind_name-list untyped is = absurd (cc)
kind_name-list stream is = absurd (cc)
kind_name-list zset is = absurd (cc)

-- The types that a value can have, with their names.
other_name :
    (kind : Kind)
    → is_list kind ≡ false
    → (is_list kind || (is_string kind || is_stream kind)) ≡ true
    → (kind_name kind ≡ codes "string") ⊎ (kind_name kind ≡ codes "stream")
unfolding kind_name
other_name list other some_kind = absurd (cc)
other_name string other some_kind = inl refl
other_name hash other some_kind = absurd (cc)
other_name set other some_kind = absurd (cc)
other_name untyped other some_kind = absurd (cc)
other_name stream other some_kind = inr refl
other_name zset other some_kind = absurd (cc)

fits_kind :
    (value : Value) (kind : Kind)
    → fits value kind ≡ true
    → (is_list kind || (is_string kind || is_stream kind)) ≡ true
fits_kind (text t) kind fit = ground arith
fits_kind (json_list ts) kind fit = ground arith
fits_kind (json_stream es) kind fit = ground arith

type_found_lem :
    (now : ℕ) (k : Text) (s : Store) (v : StoreValue)
    → get_value k s ≡ some v
    → (type_command now (k ∷ []) s).0 ≡ simple_string_response (kind_name v.kind)
unfolding type_command
type_found_lem now k s v there = rw there refl

some_list :
    (value : Value) (kind : Kind)
    → is_list kind ≡ true
    → fits value kind ≡ true
    → (t : Text) × (ts : List Text) × (value ≡ json_list (t ∷ ts))
some_list (text t) kind is fit = absurd (ground (arith, is, fit))
some_list (json_list []) kind is fit = absurd (ground (arith, is, fit))
some_list (json_list (t ∷ ts)) kind is fit = (t, ts, refl)
some_list (json_stream es) kind is fit = absurd (ground (arith, is, fit))

module _ (now : ℕ) (k : Text) (s : Store) where
  llen_found_list :
      (v : StoreValue) (t : Text) (ts : List Text)
      → get_value k s ≡ some v
      → is_list v.kind ≡ true
      → v.value ≡ json_list (t ∷ ts)
      → (llen_command (k ∷ []) s).0 ≡ simple_int (pos (suc (length ts)))
  unfolding llen_command find_list
  llen_found_list v t ts there is holds = rw (there, is, holds) refl

  llen_found_other :
      (v : StoreValue)
      → get_value k s ≡ some v
      → is_list v.kind ≡ false
      → (llen_command (k ∷ []) s).0 ≡ wrong_type
  unfolding llen_command find_list
  llen_found_other v there other = rw (there, other) refl

  none-Agrees : get_value k s ≡ none → Agrees now k s
  unfolding type_command llen_command find_list
  none-Agrees gone = inl (rw gone (refl, refl))

  other-Agrees :
      (v : StoreValue)
      → get_value k s ≡ some v
      → is_list v.kind ≡ false
      → (kind_name v.kind ≡ codes "string") ⊎ (kind_name v.kind ≡ codes "stream")
      → Agrees now k s
  other-Agrees v there other (inl name) =
      let says = type_found_lem now k s v there ∙ ap simple_string_response name in
      inr (inr (inl (says, llen_found_other v there other)))
  other-Agrees v there other (inr name) =
      let says = type_found_lem now k s v there ∙ ap simple_string_response name in
      inr (inr (inr (says, llen_found_other v there other)))

  some-Agrees :
      (v : StoreValue) → get_value k s ≡ some v → fits_value (some v) ≡ true → Agrees now k s
  some-Agrees v there fit = elim (Bool-cases (is_list v.kind)) [
    | inl is ↦
        let (t, ts, holds) = some_list v.value v.kind is fit in
        inr (
          inl (
            length ts,
            (
              type_found_lem now k s v there ∙ ap simple_string_response (kind_name-list v.kind is),
              llen_found_list v t ts there is holds,
            ),
          ))
    | inr other ↦
        other-Agrees v there other (other_name v.kind other (fits_kind v.value v.kind fit))
  ]

  fits-Agrees : fits_value (get_value k s) ≡ true → Agrees now k s
  fits-Agrees fit = elim (Option-cases (get_value k s)) [
    | inl gone ↦ none-Agrees gone
    | inr (v, there) ↦ some-Agrees v there (ap fits_value (sym there) ∙ fit)
  ]

-- In whatever state a server comes to that starts with an empty store and loads a file (under the same condition on the
-- language), TYPE and LLEN of a key agree: TYPE says "none" and the length is 0, or TYPE says "list" and the
-- length is at least 1, or TYPE says "string" or "stream" and LLEN answers WRONGTYPE. LLEN never
-- meets a list that it cannot read.
pub run-Agrees :
    (engine : Engine) (law : EngineKeeps Kinded engine) (settings : Settings) (events : List Event)
    (w : World)
    → w.store ≡ []
    → (now : ℕ) (k : Text)
    → Agrees now k (run (command_map 1 engine settings) events (started w)).world.store
run-Agrees engine law settings events w nothing now k =
    fits-Agrees now k _ (run-fits engine law settings events w nothing k)
