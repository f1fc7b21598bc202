-- ===== src/Kinds/Files.antt =====
-- Loading an RDB file.
use diy_redis.Base.{
  if_both, ℕ, zero, suc, refl, length, drop, take, map, ◌%◌, Option, none, some, [], ◌∷◌,
  Bool-cases, Option-cases, inl, inr, ◌==◌,
}
use diy_redis.Js.Text.{codes, starts_with}
use diy_redis.Js.Utf8.{Bytes}
use diy_redis.Store.{Store, text, string}
use diy_redis.World.{World}
use diy_redis.Rdb.{
  Pair, Section, section, broken, exhausted, Loaded, loaded, failed, out_of_rounds, store_pair,
  is_live, load_pairs, load_sections, ends_section, read_pair, skip_metadata, skip_selector,
  parse_rdb, loaded_store, load_file, load_rdb,
}
use diy_redis.Kinds.Defs.{HasKinds, set_value-HasKinds}

store_pair-HasKinds : (now : ℕ) (p : Pair) (s : Store) → HasKinds s → HasKinds (store_pair now p s)
unfolding store_pair
store_pair-HasKinds now p s h =
    if_both HasKinds (is_live now p.expiry) _ _
      (set_value-HasKinds p.key (text p.value) string p.expiry s refl h) h

abbrev SectionHasKinds : Section → Type 0
SectionHasKinds (section rest s) = HasKinds s
SectionHasKinds (broken s) = HasKinds s
SectionHasKinds exhausted = Unit {0}

load_pairs-HasKinds :
    (f now : ℕ) (bytes : Bytes) (s : Store)
    → HasKinds s
    → SectionHasKinds (load_pairs f now bytes s)
unfolding load_pairs
load_pairs-HasKinds zero now bytes s h = tt
load_pairs-HasKinds (suc f) now [] s h = h
load_pairs-HasKinds (suc f) now (b ∷ bytes) s h = elim (Bool-cases (ends_section b)) [
  | inl ends ↦ rw (load_pairs, ends) h
  | inr goes_on ↦ elim (Option-cases (read_pair (b ∷ bytes))) [
    | inl bad ↦ rw (load_pairs, goes_on, bad) h
    | inr ((p, rest), good) ↦
        rw (load_pairs, goes_on, good)
          (load_pairs-HasKinds f now rest (store_pair now p s) (store_pair-HasKinds now p s h))
  ]
]

abbrev LoadedHasKinds : Loaded → Type 0
LoadedHasKinds (loaded s) = HasKinds s
LoadedHasKinds (failed s) = HasKinds s
LoadedHasKinds out_of_rounds = Unit {0}

load_sections-HasKinds :
    (f now : ℕ) (bytes : Bytes) (s : Store)
    → HasKinds s
    → LoadedHasKinds (load_sections f now bytes s)
unfolding load_sections
load_sections-HasKinds zero now bytes s h = tt
load_sections-HasKinds (suc f) now [] s h = h
load_sections-HasKinds (suc f) now (b ∷ bytes) s h = elim (Bool-cases (b == 0xfa)) [
  | inl metadata ↦ elim (Option-cases (skip_metadata bytes)) [
    | inl bad ↦ rw (load_sections, metadata, bad) h
    | inr (rest, good) ↦ rw (load_sections, metadata, good) (load_sections-HasKinds f now rest s h)
  ]
  | inr other ↦ elim (Bool-cases (b == 0xfe)) [
    | inl database ↦ elim (Option-cases (skip_selector bytes)) [
      | inl bad ↦ rw (load_sections, other, database, bad) h
      | inr (rest, good) ↦
          rw (load_sections, other, database, good)
            ((elim (load_pairs (suc f) now rest s)
                as (λ x.
                  SectionHasKinds x
                  → LoadedHasKinds (elim x [
                    | section rest' s' ↦ load_sections f now rest' s'
                    | broken s' ↦ failed s'
                    | exhausted ↦ out_of_rounds
                  ])) [
                    | section rest' s' ↦ load_sections-HasKinds f now rest' s'
                    | broken s' ↦ λ h'. h'
                    | exhausted ↦ λ h'. tt
                  ])
              (load_pairs-HasKinds (suc f) now rest s h))
    ]
    | inr last ↦ rw (load_sections, other, last) (if_both LoadedHasKinds (b == 0xff) _ _ h h)
  ]
]

pub parse_rdb-HasKinds :
    (now : ℕ) (bytes : Bytes) (s : Store) → HasKinds s → LoadedHasKinds (parse_rdb now bytes s)
unfolding parse_rdb
parse_rdb-HasKinds now bytes s h =
    if_both LoadedHasKinds (starts_with (map (λ b. b % 128) (take 9 bytes)) (codes "REDIS")) _
      (failed s) (load_sections-HasKinds (suc (length bytes)) now (drop 9 bytes) s h) h

loaded_store-HasKinds :
    (s : Store) (l : Loaded) → HasKinds s → LoadedHasKinds l → HasKinds (loaded_store s l)
loaded_store-HasKinds s (loaded t) h hl = hl
loaded_store-HasKinds s (failed t) h hl = hl
loaded_store-HasKinds s out_of_rounds h hl = h

load_file-HasKinds :
    (file : Option Bytes) (w : World) → HasKinds w.store → HasKinds (load_file file w).store
unfolding load_file
load_file-HasKinds none w h = h
load_file-HasKinds (some []) w h = h
load_file-HasKinds (some (b ∷ bytes)) w h =
    loaded_store-HasKinds w.store _ h (parse_rdb-HasKinds w.clock (b ∷ bytes) w.store h)

pub load_rdb-HasKinds : (w : World) → HasKinds w.store → HasKinds (load_rdb w).store
unfolding load_rdb
load_rdb-HasKinds w h = load_file-HasKinds w.rdb_file w h
