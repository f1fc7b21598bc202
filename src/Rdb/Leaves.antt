-- ===== src/Rdb/Leaves.antt =====
-- The readings of RDBParser.ts that succeed leave no more bytes than they are given.
use diy_redis.Base.{
  arith, ℕ, suc, ◌<◌, ◌≤◌, Bool, true, false, Option, none, some, [], ◌∷◌, length, length-drop, ltb,
  ◌==◌, ◌/◌, ◌>>=◌, if◌then◌else◌, Bool-cases, inl, inr,
}
use diy_redis.Base.{◌*◌, ◌%◌}
use diy_redis.Base.Int.{pos}
use diy_redis.Js.Date.{Date, new_date}
use diy_redis.Js.Number.{decimal_ℤ}
use diy_redis.Js.Text.{Text}
use diy_redis.Js.Utf8.{Bytes, utf8_decode}
use diy_redis.Rdb.Words.{le_value, be_value, as_signed}
use diy_redis.Rdb.Reader.{
  Length, plain, special, split_at, read_length, string_body, read_string, read_expiry, string_type,
  Pair, read_pair,
}

-- A reading that succeeds leaves at most `n` bytes.
abbrev pub Leaves {ℓ} : {A : Type ℓ} → ℕ → Option (A × Bytes) → Type 0
Leaves n none = Unit {0}
Leaves n (some (a, rest)) = length rest ≤ n

abbrev pub LeavesLess {ℓ} : {A : Type ℓ} → ℕ → Option (A × Bytes) → Type 0
LeavesLess n none = Unit {0}
LeavesLess n (some (a, rest)) = length rest < n

abbrev pub LeavesBytes : ℕ → Option Bytes → Type 0
LeavesBytes n none = Unit {0}
LeavesBytes n (some rest) = length rest ≤ n

module _ {ℓ κ} {A : Type ℓ} {B : Type κ} (n k : ℕ) where
  Leaves-bind :
      (m : Option (A × Bytes)) (f : A × Bytes → Option (B × Bytes))
      → Leaves n m
      → ((a : A) (rest : Bytes) → length rest ≤ n → Leaves k (f (a, rest)))
      → Leaves k (m >>= f)
  Leaves-bind none f h g = tt
  Leaves-bind (some (a, rest)) f h g = g a rest h

split_at-Leaves : (n : ℕ) (s : Bytes) → Leaves (length s) (split_at n s)
split_at-Leaves n s = elim (Bool-cases (ltb (length s) n)) [
  | inl few ↦ rw few tt
  | inr many ↦ rw many (omega (arith, length-drop n s))
]

Leaves-if {ℓ} :
    {A : Type ℓ} (n : ℕ) (b : Bool) (x y : Option (A × Bytes))
    → Leaves n x
    → Leaves n y
    → Leaves n (if b then x else y)
Leaves-if n true x y h k = h
Leaves-if n false x y h k = k

-- What is made of `k` bytes and what follows them.
split_at-bind {ℓ} :
    {B : Type ℓ} (k n : ℕ) (s : Bytes) (f : Bytes → B)
    → length s ≤ n
    → Leaves n (split_at k s >>= λ r. some (f r.0, r.1))
split_at-bind k n s f h =
    Leaves-bind (length s) n (split_at k s) _ (split_at-Leaves k s) (λ word rest l. omega arith)

pub read_length-Leaves : (s : Bytes) → Leaves (length s) (read_length s)
unfolding read_length
read_length-Leaves [] = tt
read_length-Leaves (b ∷ []) = Leaves-if 1 (b / 64 == 0) _ _ (omega arith) (
    Leaves-if 1 (b / 64 == 1) _ _ tt
      (Leaves-if 1 (b / 64 == 2) _ _ tt (Leaves-if 1 (b / 64 == 3) _ _ (omega arith) tt)))
read_length-Leaves (b ∷ c ∷ s) =
    let n : ℕ = suc (suc (length s)) in
    Leaves-if n (b / 64 == 0) _ _ (omega arith) (
      Leaves-if n (b / 64 == 1) _ _ (omega arith) (
        Leaves-if n (b / 64 == 2) _ _
          (split_at-bind 4 n (c ∷ s) (λ word. plain (be_value 0 word)) (omega arith))
          (Leaves-if n (b / 64 == 3) _ _ (omega arith) tt)))

pub read_string-Leaves : (s : Bytes) → Leaves (length s) (read_string s)
unfolding read_string string_body
read_string-Leaves s =
    Leaves-bind (length s) (length s) (read_length s) _ (read_length-Leaves s) body
  where
    body :
        (l : Length) (rest : Bytes)
        → length rest ≤ length s
        → Leaves (length s) (string_body l rest)
    body (plain n) rest h = split_at-bind n (length s) rest utf8_decode h
    body special [] h = tt
    body special (b ∷ rest) h =
        Leaves-if (length s) (b % 64 == 0) _ _
          (split_at-bind 1 (length s) rest (λ w. decimal_ℤ (as_signed 1 (le_value w)))
            (omega arith))
          (Leaves-if (length s) (b % 64 == 1) _ _
            (split_at-bind 2 (length s) rest (λ w. decimal_ℤ (as_signed 2 (le_value w)))
              (omega arith))
            (Leaves-if (length s) (b % 64 == 2) _ _
              (split_at-bind 4 (length s) rest (λ w. decimal_ℤ (as_signed 4 (le_value w)))
                (omega arith))
              tt))

read_expiry-Leaves : (s : Bytes) → Leaves (length s) (read_expiry s)
unfolding read_expiry
read_expiry-Leaves [] = omega arith
read_expiry-Leaves (b ∷ s) =
    let n : ℕ = suc (length s) in
    Leaves-if n (b == 0xfd) _ _
      (split_at-bind 4 n s (λ w. some (new_date (some (pos (le_value w * 1000))))) (omega arith))
      (Leaves-if n (b == 0xfc) _ _
        (split_at-bind 8 n s (λ w. some (new_date (some (pos (le_value w * 1))))) (omega arith))
        (omega arith))

-- A pair takes at least the byte of its type.
abbrev pair_of : Option Date → Text → Text → Pair
pair_of expiry key value = record { expiry = expiry; key = key; value = value }

LeavesLess-bind {ℓ κ} :
    {A : Type ℓ} {B : Type κ} (n k : ℕ) (m : Option (A × Bytes))
    (f : A × Bytes → Option (B × Bytes))
    → Leaves n m
    → ((a : A) (rest : Bytes) → length rest ≤ n → LeavesLess k (f (a, rest)))
    → LeavesLess k (m >>= f)
LeavesLess-bind n k none f h g = tt
LeavesLess-bind n k (some (a, rest)) f h g = g a rest h

pub read_pair-Leaves : (s : Bytes) → LeavesLess (length s) (read_pair s)
unfolding read_pair string_type
read_pair-Leaves s =
    LeavesLess-bind (length s) (length s) (read_expiry s) _ (read_expiry-Leaves s) typed
  where
    texts :
        (expiry : Option Date) (rest : Bytes)
        → length rest < length s
        → LeavesLess
            (length s)
            (read_string rest >>= λ k. read_string k.1 >>= λ v. some (pair_of expiry k.0 v.0, v.1))
    texts expiry rest h =
        LeavesLess-bind (length rest) (length s) (read_string rest) _ (read_string-Leaves rest)
          λ key rest₂ h₂.
            LeavesLess-bind (length rest₂) (length s) (read_string rest₂) _
              (read_string-Leaves rest₂) (λ value rest₃ h₃. omega arith)

    typed :
        (expiry : Option Date) (rest : Bytes)
        → length rest ≤ length s
        → LeavesLess (length s) (
            string_type rest >>= λ s₂.
            read_string s₂ >>= λ k. read_string k.1 >>= λ v. some (pair_of expiry k.0 v.0, v.1))
    typed expiry [] h = tt
    typed expiry (b ∷ rest) h = elim (Bool-cases (b == 0)) [
      | inl text_type ↦ rw text_type (texts expiry rest (omega arith))
      | inr other ↦ rw other tt
    ]
