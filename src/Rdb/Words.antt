-- ===== src/Rdb/Words.antt =====
-- Numbers of several bytes, as Buffer reads and writes them.
use diy_redis.Base.{
  arith, ℕ, zero, suc, ◌+◌, ◌*◌, ◌/◌, ◌%◌, ◌<◌, ◌≡◌, refl, [], ◌∷◌, length, ltb, if◌then◌else◌,
}
use diy_redis.Base.Int.{ℤ, pos, sub_ℕ}
use diy_redis.Js.Utf8.{Bytes}

-- The `k` bytes of a number, the lowest first.
unfoldable pub le_bytes : ℕ → ℕ → Bytes
le_bytes zero n = []
le_bytes (suc k) n = (n % 256) ∷ le_bytes k (n / 256)

unfoldable pub le_value : Bytes → ℕ
le_value [] = 0
le_value (b ∷ bs) = b + 256 * le_value bs

-- The same, the highest byte first.
unfoldable pub be_value : ℕ → Bytes → ℕ
be_value acc [] = acc
be_value acc (b ∷ bs) = be_value (acc * 256 + b) bs

-- 256 to the power `k`.
unfoldable pub bytes_bound : ℕ → ℕ
bytes_bound zero = 1
bytes_bound (suc k) = 256 * bytes_bound k

-- A number of `k` bytes as a signed one, in two's complement.
unfoldable pub as_signed : ℕ → ℕ → ℤ
as_signed k n = if ltb (2 * n) (bytes_bound k) then pos n else sub_ℕ n (bytes_bound k)

pub le_value-le_bytes : (k n : ℕ) → n < bytes_bound k → le_value (le_bytes k n) ≡ n
unfolding le_value le_bytes bytes_bound
le_value-le_bytes zero n h = omega arith
le_value-le_bytes (suc k) n h = rw (le_value-le_bytes k (n / 256) (omega arith)) (omega arith)

pub length-le_bytes : (k n : ℕ) → length (le_bytes k n) ≡ k
unfolding le_bytes
length-le_bytes zero n = refl
length-le_bytes (suc k) n = rw (length-le_bytes k (n / 256)) refl
