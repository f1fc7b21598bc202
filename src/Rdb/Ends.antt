-- ===== src/Rdb/Ends.antt =====
-- The loops of RDBParser.ts end, whatever the file holds.
use diy_redis.Base.{
  arith, ℕ, zero, suc, ◌<◌, ◌≤◌, ◌≡◌, ◌≢◌, refl, Bool, true, false, Option, none, some, [], ◌∷◌,
  length, length-drop, take, drop, ◌==◌, ◌>>=◌, if◌then◌else◌, Bool-cases, Option-cases, inl, inr,
  map,
}
use diy_redis.Base.{◌%◌}
use diy_redis.Js.Text.{codes, starts_with}
use diy_redis.Js.Utf8.{Bytes}
use diy_redis.Store.{Store}
use diy_redis.Rdb.Reader.{
  Length, read_length, read_string, Pair, read_pair, store_pair, Section, section, broken,
  exhausted, ends_section, load_pairs, skip_selector, skip_hints, skip_metadata, Loaded, loaded,
  failed, out_of_rounds, load_sections, parse_rdb,
}
use diy_redis.Rdb.Leaves.{
  Leaves, LeavesBytes, read_length-Leaves, read_string-Leaves, read_pair-Leaves,
}

-- A loop that ends leaves at most `n` bytes.
abbrev Ends : ℕ → Section → Type 0
Ends n (section rest store) = length rest ≤ n
Ends n (broken store) = Unit {0}
Ends n exhausted = ⊥

Ends-weaken : (n k : ℕ) (r : Section) → n ≤ k → Ends n r → Ends k r
Ends-weaken n k (section rest store) h e = omega arith
Ends-weaken n k (broken store) h e = tt
Ends-weaken n k exhausted h e = absurd e

-- The three ways of a round.
module _ (f now b : ℕ) (s : Bytes) (store : Store) where
  load_pairs-stop :
      ends_section b ≡ true → load_pairs (suc f) now (b ∷ s) store ≡ section (b ∷ s) store
  unfolding load_pairs
  load_pairs-stop h = rw (h, load_pairs) refl

  load_pairs-throw :
      ends_section b ≡ false
      → read_pair (b ∷ s) ≡ none
      → load_pairs (suc f) now (b ∷ s) store ≡ broken store
  unfolding load_pairs
  load_pairs-throw h e = rw (h, load_pairs, e) refl

  load_pairs-go :
      (p : Pair) (rest : Bytes)
      → ends_section b ≡ false
      → read_pair (b ∷ s) ≡ some (p, rest)
      → load_pairs (suc f) now (b ∷ s) store ≡ load_pairs f now rest (store_pair now p store)
  unfolding load_pairs
  load_pairs-go p rest h e = rw (h, load_pairs, e) refl

load_pairs-Ends :
    (f now : ℕ) (s : Bytes) (store : Store)
    → length s < f
    → Ends (length s) (load_pairs f now s store)
load_pairs-Ends zero now s store h = absurd (omega arith)
load_pairs-Ends (suc f) now [] store h = unfold load_pairs in omega arith
load_pairs-Ends (suc f) now (b ∷ s) store h = elim (Bool-cases (ends_section b)) [
  | inl ends ↦ rw (load_pairs-stop f now b s store ends) (omega arith)
  | inr more ↦ elim (Option-cases (read_pair (b ∷ s))) [
    | inl thrown ↦ rw (load_pairs-throw f now b s store more thrown) tt
    | inr ((p, rest), read) ↦
        let less : length rest < suc (length s) = rw read at (read_pair-Leaves (b ∷ s)) in
        rw (load_pairs-go f now b s store p rest more read) (
          Ends-weaken (length rest) (suc (length s))
            (load_pairs f now rest (store_pair now p store)) (omega arith)
            (load_pairs-Ends f now rest (store_pair now p store) (omega arith)))
  ]
]

-- A reading of bytes alone.
BytesLeave-bind {ℓ} :
    {A : Type ℓ} (n k : ℕ) (m : Option (A × Bytes)) (f : A × Bytes → Option Bytes)
    → Leaves n m
    → ((a : A) (rest : Bytes) → length rest ≤ n → LeavesBytes k (f (a, rest)))
    → LeavesBytes k (m >>= f)
BytesLeave-bind n k none f h g = tt
BytesLeave-bind n k (some (a, rest)) f h g = g a rest h

skip_metadata-Leaves : (s : Bytes) → LeavesBytes (length s) (skip_metadata s)
unfolding skip_metadata
skip_metadata-Leaves s =
    BytesLeave-bind (length s) (length s) (read_string s) _ (read_string-Leaves s) λ key s₁ h₁.
      BytesLeave-bind (length s₁) (length s) (read_string s₁) _ (read_string-Leaves s₁)
        λ value s₂ h₂. omega arith

skip_selector-Leaves : (s : Bytes) → LeavesBytes (length s) (skip_selector s)
unfolding skip_selector skip_hints
skip_selector-Leaves s =
    BytesLeave-bind (length s) (length s) (read_length s) _ (read_length-Leaves s) hints
  where
    hints :
        (l : Length) (rest : Bytes)
        → length rest ≤ length s
        → LeavesBytes (length s) (skip_hints rest)
    hints l [] h = omega arith
    hints l (b ∷ rest) h = elim (Bool-cases (b == 0xfb)) [
      | inl resize ↦ rw resize (
          BytesLeave-bind (length rest) (length s) (read_length rest) _ (read_length-Leaves rest)
            λ keys s₁ h₁.
              BytesLeave-bind (length s₁) (length s) (read_length s₁) _ (read_length-Leaves s₁)
                λ expiring s₂ h₂. omega arith)
      | inr other ↦ rw other (omega arith)
    ]

-- The loop of `parse` does not run out of rounds.
abbrev InRounds : Loaded → Type 0
InRounds (loaded store) = Unit {0}
InRounds (failed store) = Unit {0}
InRounds out_of_rounds = ⊥

-- What the loop does behind a metadata field, behind the pairs of a database, and behind its selector.
abbrev behind_field : ℕ → ℕ → Store → Option Bytes → Loaded
behind_field f now store none = failed store
behind_field f now store (some rest) = load_sections f now rest store

abbrev behind_pairs : ℕ → ℕ → Section → Loaded
behind_pairs f now (section rest store) = load_sections f now rest store
behind_pairs f now (broken store) = failed store
behind_pairs f now exhausted = out_of_rounds

abbrev behind_selector : ℕ → ℕ → Store → Option Bytes → Loaded
behind_selector f now store none = failed store
behind_selector f now store (some rest) = behind_pairs f now (load_pairs (suc f) now rest store)

abbrev round : ℕ → ℕ → Store → Bytes → Bool → Bool → Bool → Loaded
round f now store s true selector end = behind_field f now store (skip_metadata s)
round f now store s false true end = behind_selector f now store (skip_selector s)
round f now store s false false end = if end then loaded store else failed store

load_sections-round :
    (f now b : ℕ) (s : Bytes) (store : Store)
    → load_sections (suc f) now (b ∷ s) store
      ≡ round f now store s (b == 0xfa) (b == 0xfe) (b == 0xff)
unfolding load_sections
load_sections-round f now b s store = ground arith

module _ (f now : ℕ) (s : Bytes) (store : Store) (enough : length s < suc f)
    (again : (rest : Bytes) (st : Store)
      → length rest ≤ length s
      → InRounds (load_sections f now rest st)) where
  in_field : (m : Option Bytes) → LeavesBytes (length s) m → InRounds (behind_field f now store m)
  in_field none k = tt
  in_field (some rest) k = again rest store k

  in_pairs : (r : Section) → Ends (length s) r → InRounds (behind_pairs f now r)
  in_pairs (section rest st) k = again rest st k
  in_pairs (broken st) k = tt
  in_pairs exhausted k = absurd k

  in_selector :
      (m : Option Bytes) → LeavesBytes (length s) m → InRounds (behind_selector f now store m)
  in_selector none k = tt
  in_selector (some rest) k = in_pairs _ (
      Ends-weaken (length rest) (length s) (load_pairs (suc f) now rest store) k
        (load_pairs-Ends (suc f) now rest store (omega arith)))

  in_round : (x y z : Bool) → InRounds (round f now store s x y z)
  in_round true y z = in_field (skip_metadata s) (skip_metadata-Leaves s)
  in_round false true z = in_selector (skip_selector s) (skip_selector-Leaves s)
  in_round false false true = tt
  in_round false false false = tt

load_sections-InRounds :
    (f now : ℕ) (s : Bytes) (store : Store) → length s < f → InRounds (load_sections f now s store)
load_sections-InRounds zero now s store h = absurd (omega arith)
load_sections-InRounds (suc f) now [] store h = unfold load_sections in tt
load_sections-InRounds (suc f) now (b ∷ s) store h = rw (load_sections-round f now b s store) (
    in_round f now s store (omega arith)
      (λ rest st k. load_sections-InRounds f now rest st (omega arith)) (b == 0xfa) (b == 0xfe)
      (b == 0xff))

InRounds→ne : (r : Loaded) → InRounds r → r ≢ out_of_rounds
InRounds→ne (loaded store) h = λ e. cc
InRounds→ne (failed store) h = λ e. cc
InRounds→ne out_of_rounds h = absurd h

-- Reading a file ends, whatever bytes it holds: `parse` returns or throws within as many rounds of each
-- loop as there are bytes.
pub parse_rdb_ends :
    (now : ℕ) (buffer : Bytes) (store : Store) → parse_rdb now buffer store ≢ out_of_rounds
unfolding parse_rdb
parse_rdb_ends now buffer store =
    elim (Bool-cases (starts_with (map (λ b. b % 128) (take 9 buffer)) (codes "REDIS"))) [
      | inl magic ↦ rw magic (
          InRounds→ne _ (
            load_sections-InRounds (suc (length buffer)) now (drop 9 buffer) store
              (omega (arith, length-drop {0} 9 buffer))))
      | inr other ↦ rw other (InRounds→ne (failed store) tt)
    ]
