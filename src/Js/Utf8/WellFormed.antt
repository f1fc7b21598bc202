-- ===== src/Js/Utf8/WellFormed.antt =====
-- Decoding undoes encoding on every text without half a surrogate pair.
use diy_redis.Base.{
  ℕ, suc, ◌+◌, ◌-◌, ◌*◌, ◌/◌, ◌%◌, ◌<◌, ◌≤◌, ◌≡◌, refl, ap, ◌∙◌, sym, Bool, true, false, ◌&&◌, ◌||◌,
  [], ◌∷◌, ◌++◌, arith, ltb, ◌==◌, if◌then◌else◌, Bool-cases, inl, inr, append-nil,
}
use diy_redis.Js.Text.{Text}
use diy_redis.Js.Utf8.{
  Bytes, Decoder, idle, inside, units, next_byte, decode_loop, encode_point, encode_unit,
  utf8_encode, utf8_decode, is_high, is_low,
}

-- One byte of the decoder.
decode_step :
    (d d' : Decoder) (b : ℕ) (bs : Bytes) (out : Text)
    → next_byte d b ≡ (out, d')
    → decode_loop d (b ∷ bs) ≡ out ++ decode_loop d' bs
unfolding decode_loop
decode_step idle d' b bs out e = rw e refl
decode_step (inside wanted lower upper bits) d' b bs out e = rw e refl

first_of_2 : (b : ℕ) → 0xc2 ≤ b → b ≤ 0xdf → next_byte idle b ≡ ([], inside 1 0x80 0xbf (b - 0xc0))
unfolding next_byte
first_of_2 b h k = ground arith

first_of_3 :
    (b : ℕ)
    → 0xe0 ≤ b
    → b ≤ 0xef
    → next_byte idle b ≡ (
      [],
      inside 2 (if b == 0xe0 then 0xa0 else 0x80) (if b == 0xed then 0x9f else 0xbf) (b - 0xe0),
    )
unfolding next_byte
first_of_3 b h k = ground arith

first_of_4 :
    (b : ℕ)
    → 0xf0 ≤ b
    → b ≤ 0xf4
    → next_byte idle b ≡ (
      [],
      inside 3 (if b == 0xf0 then 0x90 else 0x80) (if b == 0xf4 then 0x8f else 0xbf) (b - 0xf0),
    )
unfolding next_byte
first_of_4 b h k = ground arith

inside_more :
    (n lower upper bits b : ℕ)
    → lower ≤ b
    → b ≤ upper
    → next_byte (inside (suc (suc n)) lower upper bits) b
      ≡ ([], inside (suc n) 0x80 0xbf (bits * 64 + (b - 0x80)))
unfolding next_byte
inside_more n lower upper bits b h k = ground arith

inside_last :
    (lower upper bits b : ℕ)
    → lower ≤ b
    → b ≤ upper
    → next_byte (inside 1 lower upper bits) b ≡ (units (bits * 64 + (b - 0x80)), idle)
unfolding next_byte
inside_last lower upper bits b h k = ground arith

-- A code point that is no surrogate.
abbrev pub IsScalar : ℕ → Type 0
IsScalar c = ((is_high c || is_low c) ≡ false) × (c < 0x110000)

decode_2 :
    (c : ℕ) (rest : Bytes)
    → 0x80 ≤ c
    → c < 0x800
    → decode_loop idle ((0xc0 + c / 64) ∷ (0x80 + c % 64) ∷ rest) ≡ units c ++ decode_loop idle rest
decode_2 c rest h k =
    decode_step idle _ _ _ _ (first_of_2 (0xc0 + c / 64) (omega arith) (omega arith))
    ∙ decode_step _ _ _ _ _ (inside_last 0x80 0xbf _ (0x80 + c % 64) (omega arith) (omega arith))
    ∙ ap (λ (p : ℕ). units p ++ decode_loop idle rest) (omega arith)

decode_3 :
    (c : ℕ) (rest : Bytes)
    → (is_high c || is_low c) ≡ false
    → 0x800 ≤ c
    → c < 0x10000
    → decode_loop idle ((0xe0 + c / 4096) ∷ (0x80 + c / 64 % 64) ∷ (0x80 + c % 64) ∷ rest)
      ≡ units c ++ decode_loop idle rest
decode_3 c rest s h k =
    decode_step idle _ _ _ _ (first_of_3 (0xe0 + c / 4096) (omega arith) (omega arith))
    ∙ decode_step _ _ _ _ _ (inside_more 0 _ _ _ (0x80 + c / 64 % 64) (ground arith) (ground arith))
    ∙ decode_step _ _ _ _ _ (inside_last 0x80 0xbf _ (0x80 + c % 64) (omega arith) (omega arith))
    ∙ ap (λ (p : ℕ). units p ++ decode_loop idle rest) (omega arith)

decode_4 :
    (c : ℕ) (rest : Bytes)
    → 0x10000 ≤ c
    → c < 0x110000
    → decode_loop idle (
        (0xf0 + c / 262144)
        ∷ (0x80 + c / 4096 % 64)
        ∷ (0x80 + c / 64 % 64)
        ∷ (0x80 + c % 64)
        ∷ rest)
      ≡ units c ++ decode_loop idle rest
decode_4 c rest h k =
    decode_step idle _ _ _ _ (first_of_4 (0xf0 + c / 262144) (omega arith) (omega arith))
    ∙ decode_step _ _ _ _ _
        (inside_more 1 _ _ _ (0x80 + c / 4096 % 64) (ground arith) (ground arith))
    ∙ decode_step _ _ _ _ _
        (inside_more 0 0x80 0xbf _ (0x80 + c / 64 % 64) (omega arith) (omega arith))
    ∙ decode_step _ _ _ _ _ (inside_last 0x80 0xbf _ (0x80 + c % 64) (omega arith) (omega arith))
    ∙ ap (λ (p : ℕ). units p ++ decode_loop idle rest) (omega arith)

first_of_1 : (b : ℕ) → b < 0x80 → next_byte idle b ≡ (b ∷ [], idle)
unfolding next_byte
first_of_1 b h = ground arith

units_small : (c : ℕ) → c < 0x10000 → units c ≡ c ∷ []
units_small c h = ground arith

decode_1 :
    (c : ℕ) (rest : Bytes)
    → c < 0x80
    → decode_loop idle (c ∷ rest) ≡ units c ++ decode_loop idle rest
decode_1 c rest h =
    decode_step idle _ _ _ _ (first_of_1 c h) ∙ rw (units_small c (omega arith)) refl

-- The bytes of a code point decode to its code units, whatever follows.
decode_point :
    (c : ℕ) (rest : Bytes)
    → IsScalar c
    → decode_loop idle (encode_point c ++ rest) ≡ units c ++ decode_loop idle rest
unfolding encode_point
decode_point c rest (s, top) = elim (Bool-cases (ltb c 0x80)) [
  | inl one ↦ rw one (decode_1 c rest (ground arith))
  | inr more ↦ elim (Bool-cases (ltb c 0x800)) [
    | inl two ↦ rw (more, two) (decode_2 c rest (ground arith) (ground arith))
    | inr more₂ ↦ elim (Bool-cases (ltb c 0x10000)) [
      | inl three ↦
          rw (more, more₂, three) (decode_3 c rest s (ground arith) (ground arith) ∙ rw three refl)
      | inr more₃ ↦ rw (more, more₂, more₃) (decode_4 c rest (ground arith) top ∙ rw more₃ refl)
    ]
  ]
]

-- A text in which every high surrogate is followed by a low one, and every low one follows such.
unfoldable pub well_formed : Text → Bool
well_formed [] = true
well_formed (c ∷ []) = ltb c 0x10000 && (if is_high c || is_low c then false else true)
well_formed (c ∷ d ∷ s) = elim (is_high c && is_low d) [
  | true ↦ well_formed s
  | false ↦
      ltb c 0x10000 && ((if is_high c || is_low c then false else true) && well_formed (d ∷ s))
]

alone :
    (c : ℕ) → (ltb c 0x10000 && (if is_high c || is_low c then false else true)) ≡ true → IsScalar c
alone c h = ground arith

small :
    (c : ℕ)
    → (ltb c 0x10000 && (if is_high c || is_low c then false else true)) ≡ true
    → c < 0x10000
small c h = ground arith

unit_scalar : (c : ℕ) → IsScalar c → encode_unit c ≡ encode_point c
unfolding encode_unit
unit_scalar c h = rw h.0 refl

pair-IsScalar :
    (c d : ℕ)
    → (is_high c && is_low d) ≡ true
    → IsScalar (0x10000 + (c - 0xd800) * 1024 + (d - 0xdc00))
pair-IsScalar c d h = (ground arith, ground arith)

pair_units :
    (c d : ℕ)
    → (is_high c && is_low d) ≡ true
    → units (0x10000 + (c - 0xd800) * 1024 + (d - 0xdc00)) ≡ c ∷ d ∷ []
pair_units c d h = ground arith

decode_unit :
    (c : ℕ) (rest : Bytes)
    → IsScalar c
    → c < 0x10000
    → decode_loop idle (encode_unit c ++ rest) ≡ c ∷ decode_loop idle rest
decode_unit c rest h k =
    rw (unit_scalar c h)
      (decode_point c rest h ∙ ap (λ (u : Text). u ++ decode_loop idle rest) (units_small c k))

decode_pair :
    (c d : ℕ) (rest : Bytes)
    → (is_high c && is_low d) ≡ true
    → decode_loop idle (encode_point (0x10000 + (c - 0xd800) * 1024 + (d - 0xdc00)) ++ rest)
      ≡ c ∷ d ∷ decode_loop idle rest
decode_pair c d rest h =
    decode_point _ rest (pair-IsScalar c d h)
    ∙ ap (λ (u : Text). u ++ decode_loop idle rest) (pair_units c d h)

encode_pair :
    (c d : ℕ) (s : Text)
    → (is_high c && is_low d) ≡ true
    → utf8_encode (c ∷ d ∷ s)
      ≡ encode_point (0x10000 + (c - 0xd800) * 1024 + (d - 0xdc00)) ++ utf8_encode s
unfolding utf8_encode
encode_pair c d s h = rw (h, utf8_encode) refl

encode_alone :
    (c d : ℕ) (s : Text)
    → (is_high c && is_low d) ≡ false
    → utf8_encode (c ∷ d ∷ s) ≡ encode_unit c ++ utf8_encode (d ∷ s)
unfolding utf8_encode
encode_alone c d s h = rw (h, utf8_encode) refl

module _ (c d : ℕ) (s : Text) where
  well_formed-pair : (is_high c && is_low d) ≡ true → well_formed (c ∷ d ∷ s) ≡ well_formed s
  unfolding well_formed
  well_formed-pair h = rw (h, well_formed) refl

  well_formed-alone :
      (is_high c && is_low d) ≡ false
      → well_formed (c ∷ d ∷ s) ≡ (
          ltb c 0x10000 && ((if is_high c || is_low c then false else true) && well_formed (d ∷ s)))
  unfolding well_formed
  well_formed-alone h = rw (h, well_formed) refl

split_and : (a b e : Bool) → (a && (b && e)) ≡ true → ((a && b) ≡ true) × (e ≡ true)
split_and a b e h = (ground arith, ground arith)

decode_loop-utf8_encode : (s : Text) → well_formed s ≡ true → decode_loop idle (utf8_encode s) ≡ s
decode_loop-utf8_encode [] h = unfold utf8_encode decode_loop in refl
decode_loop-utf8_encode (c ∷ []) h =
    let scalar = alone c (unfold well_formed in h) in
    let whole = decode_unit c [] scalar (unfold well_formed in ground arith) in
    unfold utf8_encode in (rw append-nil at whole) ∙ (unfold decode_loop in refl)
decode_loop-utf8_encode (c ∷ d ∷ s) h = elim (Bool-cases (is_high c && is_low d)) [
  | inl pair ↦ rw (encode_pair c d s pair) (
      decode_pair c d (utf8_encode s) pair
      ∙ ap (λ (t : Text). c ∷ d ∷ t)
          (decode_loop-utf8_encode s (sym (well_formed-pair c d s pair) ∙ h)))
  | inr single ↦
      let (here, rest) = split_and _ _ _ (sym (well_formed-alone c d s single) ∙ h) in
      rw (encode_alone c d s single) (
        decode_unit c (utf8_encode (d ∷ s)) (alone c here) (small c here)
        ∙ ap (λ (t : Text). c ∷ t) (decode_loop-utf8_encode (d ∷ s) rest))
]

-- Decoding undoes encoding on a text whose surrogates stand in pairs.
pub utf8_decode-utf8_encode : (s : Text) → well_formed s ≡ true → utf8_decode (utf8_encode s) ≡ s
unfolding utf8_decode
utf8_decode-utf8_encode s h = decode_loop-utf8_encode s h
