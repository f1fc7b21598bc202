-- ===== src/Js/Utf8.antt =====
-- UTF-8: what `Buffer.from(s)` and `buffer.toString()` do, over lists of bytes and code units.
use diy_redis.Base.{
  ℕ, ◌+◌, ◌-◌, ◌*◌, ◌/◌, ◌%◌, ◌<◌, ◌≡◌, refl, Bool, true, false, ◌&&◌, ◌||◌, List, [], ◌∷◌, ◌++◌,
  arith, ltb, leb, ◌==◌, if◌then◌else◌, All, lt→ltb,
}
use diy_redis.Js.Text.{Text}
pub mod WellFormed

abbrev pub Bytes : Type 0
Bytes = List ℕ

-- The bytes of a code point.
encode_point : ℕ → Bytes
encode_point c =
    if ltb c 0x80
    then c ∷ []
    else if ltb c 0x800
    then (0xc0 + c / 64) ∷ (0x80 + c % 64) ∷ []
    else if ltb c 0x10000
    then (0xe0 + c / 4096) ∷ (0x80 + c / 64 % 64) ∷ (0x80 + c % 64) ∷ []
    else (0xf0 + c / 262144) ∷ (0x80 + c / 4096 % 64) ∷ (0x80 + c / 64 % 64) ∷ (0x80 + c % 64) ∷ []

abbrev is_high : ℕ → Bool
is_high c = leb 0xd800 c && leb c 0xdbff

abbrev is_low : ℕ → Bool
is_low c = leb 0xdc00 c && leb c 0xdfff

encode_unit : ℕ → Bytes
unfolding encode_point
encode_unit c = encode_point (if is_high c || is_low c then 0xfffd else c)

-- Buffer.from(s, "utf8"): a surrogate that is not half of a pair becomes U+FFFD.
unfoldable pub utf8_encode : Text → Bytes
unfolding encode_point encode_unit
utf8_encode [] = []
utf8_encode (c ∷ []) = encode_unit c
utf8_encode (c ∷ d ∷ s) = elim (is_high c && is_low d) [
  | true ↦ encode_point (0x10000 + (c - 0xd800) * 1024 + (d - 0xdc00)) ++ utf8_encode s
  | false ↦ encode_point (if is_high c || is_low c then 0xfffd else c) ++ utf8_encode (d ∷ s)
]

-- The decoder's state inside a sequence: the bytes still wanted, the range of the next one, and the
-- bits read so far.
pub data Decoder : Type 0 where
  idle : Decoder
  inside : ℕ → ℕ → ℕ → ℕ → Decoder

-- The code units of a code point.
abbrev units : ℕ → Text
units p =
    if ltb p 0x10000
    then p ∷ []
    else (0xd800 + (p - 0x10000) / 1024) ∷ (0xdc00 + (p - 0x10000) % 1024) ∷ []

-- A byte where a sequence may begin: what it puts out, and the state behind it.
first_byte : ℕ → Text × Decoder
first_byte b =
    if ltb b 0x80
    then (b ∷ [], idle)
    else if leb 0xc2 b && leb b 0xdf
    then ([], inside 1 0x80 0xbf (b - 0xc0))
    else if b == 0xe0
    then ([], inside 2 0xa0 0xbf 0)
    else if b == 0xed
    then ([], inside 2 0x80 0x9f 13)
    else if leb 0xe1 b && leb b 0xef
    then ([], inside 2 0x80 0xbf (b - 0xe0))
    else if b == 0xf0
    then ([], inside 3 0x90 0xbf 0)
    else if leb 0xf1 b && leb b 0xf3
    then ([], inside 3 0x80 0xbf (b - 0xf0))
    else if b == 0xf4
    then ([], inside 3 0x80 0x8f 4)
    else (0xfffd ∷ [], idle)

abbrev after_reject : Text × Decoder → Text × Decoder
after_reject (out, d) = (0xfffd ∷ out, d)

next_byte : Decoder → ℕ → Text × Decoder
unfolding first_byte
next_byte idle b = first_byte b
next_byte (inside wanted lower upper bits) b =
    if leb lower b && leb b upper
    then (if wanted == 1
        then (units (bits * 64 + (b - 0x80)), idle)
        else ([], inside (wanted - 1) 0x80 0xbf (bits * 64 + (b - 0x80))))
    else after_reject (first_byte b)

decode_loop : Decoder → Bytes → Text
unfolding next_byte
decode_loop idle [] = []
decode_loop (inside wanted lower upper bits) [] = 0xfffd ∷ []
decode_loop d (b ∷ bs) = (next_byte d b).0 ++ decode_loop (next_byte d b).1 bs

-- buffer.toString()
unfoldable pub utf8_decode : Bytes → Text
unfolding decode_loop
utf8_decode bs = decode_loop idle bs

abbrev pub IsAscii : List ℕ → Type 0
IsAscii = All (λ c. c < 128)

encode_unit_ascii : (c : ℕ) → c < 128 → encode_unit c ≡ c ∷ []
unfolding encode_unit
encode_unit_ascii c h = ground arith

no_pair : (c d : ℕ) → c < 128 → (is_high c && is_low d) ≡ false
no_pair c d h = ground arith

first_byte_ascii : (b : ℕ) → b < 128 → first_byte b ≡ (b ∷ [], idle)
unfolding first_byte
first_byte_ascii b h = rw (lt→ltb b 128 h) refl

encode_cons :
    (c d : ℕ) (s : Text) → c < 128 → utf8_encode (c ∷ d ∷ s) ≡ encode_unit c ++ utf8_encode (d ∷ s)
unfolding utf8_encode
encode_cons c d s h = rw (no_pair c d h, utf8_encode) refl

-- On ASCII both directions are the identity.
pub utf8_encode-IsAscii : (s : Text) → IsAscii s → utf8_encode s ≡ s
utf8_encode-IsAscii [] h = unfold utf8_encode in refl
utf8_encode-IsAscii (c ∷ []) h = unfold utf8_encode in encode_unit_ascii c h.0
utf8_encode-IsAscii (c ∷ d ∷ s) h =
    rw (encode_cons c d s h.0, encode_unit_ascii c h.0, utf8_encode-IsAscii (d ∷ s) h.1) refl

decode_loop-IsAscii : (s : Bytes) → IsAscii s → decode_loop idle s ≡ s
unfolding decode_loop
decode_loop-IsAscii [] h = refl
decode_loop-IsAscii (c ∷ s) h = rw (first_byte_ascii c h.0, decode_loop-IsAscii s h.1) refl

pub utf8_decode-IsAscii : (s : Bytes) → IsAscii s → utf8_decode s ≡ s
unfolding utf8_decode
utf8_decode-IsAscii s h = decode_loop-IsAscii s h
