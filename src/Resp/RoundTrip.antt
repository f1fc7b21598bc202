-- ===== src/Resp/RoundTrip.antt =====
-- Reading back what `toRESPArray` wrote.
use diy_redis.Base.{
  ℕ, suc, ◌+◌, ◌-◌, ◌≤◌, ◌≡◌, refl, ap, ◌∙◌, true, false, none, some, List, [], ◌∷◌, ◌++◌, ◌||◌,
  append-nil, append_assoc, arith, ◌==◌, length, length-append, take, drop, All, All-append,
  take-append, drop-append, drop-append_suc,
}
use diy_redis.Base.Int.{pos}
use diy_redis.Js.Text.{Text, find_crlf, find_crlf-append, split_crlf, split_crlf-append}
use diy_redis.Js.Number.{decimal, parse_int, decimal-All, parse_int-decimal}
use diy_redis.Js.Utf8.{
  Bytes, IsAscii, utf8_encode, utf8_decode, utf8_encode-IsAscii, utf8_decode-IsAscii,
}
use diy_redis.Resp.Encode.{bulk, bulks, to_resp_array}
use diy_redis.Resp.Parse.{
  parsed, is_resp_metadata, is_payload, payload_of, begins_with, bulk_end, bulks_end, command_end,
  parse_next_command,
}

-- An argument that the reader gives back: ASCII, not empty, without a line end inside, and not of
-- the form `*<int>` or `$<int>`.
pub record IsPlain (t : Text) : Type 0 where
  pub ascii : IsAscii t
  pub one_line : find_crlf t ≡ none
  pub kept : is_payload t ≡ true

abbrev NoReturn : List ℕ → Type 0
NoReturn = All (λ c. 14 ≤ c)

find_crlf-NoReturn : (s : List ℕ) → NoReturn s → find_crlf s ≡ none
unfolding find_crlf
find_crlf-NoReturn [] h = refl
find_crlf-NoReturn (c ∷ []) h = refl
find_crlf-NoReturn (c ∷ d ∷ s) h = ground (arith, find_crlf-NoReturn (d ∷ s) h.1)

All-map : (P Q : ℕ → Type 0) → ((c : ℕ) → P c → Q c) → (s : List ℕ) → All P s → All Q s
All-map P Q f [] h = tt
All-map P Q f (c ∷ s) h = (f c h.0, All-map P Q f s h.1)

decimal-IsAscii : (n : ℕ) → IsAscii (decimal n)
decimal-IsAscii n = All-map _ _ (λ c h. omega arith) (decimal n) (decimal-All n)

decimal-NoReturn : (n : ℕ) → NoReturn (decimal n)
decimal-NoReturn n = All-map _ _ (λ c h. omega arith) (decimal n) (decimal-All n)

-- A header, `*<n>` or `$<n>`, at the front: where its line ends, and the number in it.
header_line :
    (c n : ℕ) (rest : Bytes)
    → 14 ≤ c
    → find_crlf (c ∷ (decimal n ++ 13 ∷ 10 ∷ rest)) ≡ some (suc (length (decimal n)))
header_line c n rest h =
    find_crlf-append (c ∷ decimal n) rest
      (find_crlf-NoReturn (c ∷ decimal n) (h, decimal-NoReturn n))

header_number :
    (n : ℕ) (rest : Bytes)
    → parse_int (utf8_decode (take (length (decimal n)) (decimal n ++ rest))) ≡ some (pos n)
header_number n rest =
    rw (take-append (decimal n) rest, utf8_decode-IsAscii (decimal n) (decimal-IsAscii n))
      (parse_int-decimal n)

-- `bulk p` with what follows it, bracketed to the right.
abbrev bulk_then : Text → Text → Text
bulk_then p rest = b'$' ∷ (decimal (length p) ++ 13 ∷ 10 ∷ (p ++ 13 ∷ 10 ∷ rest))

bulk-append : (p rest : Text) → bulk p ++ rest ≡ bulk_then p rest
unfolding bulk
bulk-append p rest = simp append_assoc

length-bulk : (p : Text) → length (bulk p) ≡ length (decimal (length p)) + length p + 5
unfolding bulk
length-bulk p = omega (
  arith,
  length-append (decimal (length p)) (13 ∷ 10 ∷ (p ++ 13 ∷ 10 ∷ [])),
  length-append p (13 ∷ 10 ∷ []),
)

suc-pred_lem : (n : ℕ) → suc n - 1 ≡ n
suc-pred_lem n = omega arith

-- One round of the loop, from what it reads.
bulk_end_at :
    (buffer : Bytes) (i header : ℕ) (size : ℕ)
    → begins_with b'$' (drop i buffer) ≡ true
    → find_crlf (drop i buffer) ≡ some header
    → parse_int (utf8_decode (take (header - 1) (drop (suc i) buffer))) ≡ some (pos size)
    → i + header + 4 + size ≤ length buffer
    → bulk_end buffer (pos i) ≡ some (pos (i + header + 4 + size))
unfolding bulk_end
bulk_end_at buffer i header size dollar line number fits = rw (dollar, line, number) (ground arith)

pub bulk_end-bulk :
    (before : Bytes) (p : Text) (rest : Bytes)
    → bulk_end (before ++ (bulk p ++ rest)) (pos (length before))
      ≡ some (pos (length (before ++ bulk p)))
bulk_end-bulk before p rest =
    let size = length p in
    let tail = 13 ∷ 10 ∷ (p ++ 13 ∷ 10 ∷ rest) in
    let digits = decimal size in
    rw (bulk-append p rest) (
      bulk_end_at (before ++ bulk_then p rest) (length before) (suc (length digits)) size
        (rw (drop-append before (bulk_then p rest)) refl)
        (rw (drop-append before (bulk_then p rest)) (header_line b'$' size _ (omega arith)))
        (rw (drop-append_suc before b'$' (digits ++ tail), suc-pred_lem (length digits))
          (header_number size tail))
        (omega (
          arith,
          length-append before (bulk_then p rest),
          length-append digits tail,
          length-append p (13 ∷ 10 ∷ rest),
        ))
      ∙ ap (λ k. some (pos k)) (omega (arith, length-append before (bulk p), length-bulk p)))

-- The loop ends behind the last part.
pub bulks_end-bulks :
    (before : Bytes) (ps : List Text) (rest : Bytes)
    → bulks_end (length ps) (before ++ (bulks ps ++ rest)) (pos (length before))
      ≡ some (pos (length (before ++ bulks ps)))
unfolding bulks_end bulks
bulks_end-bulks before [] rest = rw append-nil refl
bulks_end-bulks before (p ∷ ps) rest =
    rw (append_assoc (bulk p) (bulks ps) rest, bulk_end-bulk before p (bulks ps ++ rest))
      (rw
        (
          ← append_assoc before (bulk p) (bulks ps),
          ← append_assoc before (bulk p) (bulks ps ++ rest),
        )
        (bulks_end-bulks (before ++ bulk p) ps rest))

-- A header line is no payload.
is_payload_header :
    (c : ℕ) (t : Text) (n : ℕ)
    → ((c == b'*') || (c == b'$')) ≡ true
    → parse_int t ≡ some (pos n)
    → is_payload (c ∷ t) ≡ false
unfolding is_payload is_resp_metadata
is_payload_header c [] n marks number = unfold parse_int in cc
is_payload_header c (d ∷ t) n marks number = rw (marks, number) refl

payload_of-bulks : (ps : List Text) → All IsPlain ps → payload_of (split_crlf (bulks ps)) ≡ ps
unfolding bulks payload_of
payload_of-bulks [] h = unfold split_crlf is_payload in refl
payload_of-bulks (p ∷ ps) (plain, h) =
    let digits = decimal (length p) in
    let tail = p ++ 13 ∷ 10 ∷ bulks ps in
    rw
      (
        bulk-append p (bulks ps),
        split_crlf-append (b'$' ∷ digits) tail
            (find_crlf-NoReturn (b'$' ∷ digits) (omega arith, decimal-NoReturn (length p))),
        split_crlf-append p (bulks ps) plain.one_line,
        is_payload_header b'$' digits (length p) refl (parse_int-decimal (length p)),
        plain.kept,
      )
      (ap (λ r. p ∷ r) (payload_of-bulks ps h))

payload_of-to_resp_array :
    (ps : List Text) → All IsPlain ps → payload_of (split_crlf (to_resp_array ps)) ≡ ps
unfolding to_resp_array payload_of
payload_of-to_resp_array ps h =
    let digits = decimal (length ps) in
    rw
      (
        split_crlf-append (b'*' ∷ digits) (bulks ps)
            (find_crlf-NoReturn (b'*' ∷ digits) (omega arith, decimal-NoReturn (length ps))),
        is_payload_header b'*' digits (length ps) refl (parse_int-decimal (length ps)),
      )
      (payload_of-bulks ps h)

bulk-IsAscii : (p : Text) → IsAscii p → IsAscii (bulk p)
unfolding bulk
bulk-IsAscii p h = (
  omega arith,
  All-append _ (decimal (length p)) _ (decimal-IsAscii (length p))
      (omega arith, (omega arith, All-append _ p _ h (omega arith))),
)

bulks-IsAscii : (ps : List Text) → All IsPlain ps → IsAscii (bulks ps)
unfolding bulks
bulks-IsAscii [] h = tt
bulks-IsAscii (p ∷ ps) (plain, h) =
    All-append _ (bulk p) (bulks ps) (bulk-IsAscii p plain.ascii) (bulks-IsAscii ps h)

pub to_resp_array-IsAscii : (ps : List Text) → All IsPlain ps → IsAscii (to_resp_array ps)
unfolding to_resp_array
to_resp_array-IsAscii ps h = (
  omega arith,
  All-append _ (decimal (length ps)) _ (decimal-IsAscii (length ps))
      (omega arith, (omega arith, bulks-IsAscii ps h)),
)

array_bytes :
    (digits rest : Bytes)
    → ◌≡◌ {A = Bytes} (b'*' ∷ (digits ++ 13 ∷ 10 ∷ rest)) (b'*' ∷ (digits ++ 13 ∷ 10 ∷ []) ++ rest)
array_bytes digits rest = simp append_assoc

array_index : (digits : Bytes) → suc (length digits) + 2 ≡ suc (length (digits ++ 13 ∷ 10 ∷ []))
array_index digits = omega (arith, length-append digits (13 ∷ 10 ∷ []))

array_size :
    (digits rest : Bytes)
    → suc (length (digits ++ 13 ∷ 10 ∷ rest)) ≡ suc (length ((digits ++ 13 ∷ 10 ∷ []) ++ rest))
array_size digits rest = rw append_assoc refl

-- The framing alone: a command that `toRESPArray` wrote ends where its text ends.
pub command_end-to_resp_array :
    (ps : List Text) (rest : Bytes)
    → command_end (to_resp_array ps ++ rest) ≡ some (pos (length (to_resp_array ps)))
unfolding command_end to_resp_array
command_end-to_resp_array ps rest =
    let digits = decimal (length ps) in
    let before = b'*' ∷ (digits ++ 13 ∷ 10 ∷ []) in
    rw
      (
        append_assoc digits (13 ∷ 10 ∷ bulks ps) rest,
        header_line b'*' (length ps) (bulks ps ++ rest) (omega arith),
        suc-pred_lem (length digits),
        header_number (length ps) (13 ∷ 10 ∷ (bulks ps ++ rest)),
      )
      (rw (array_bytes digits (bulks ps ++ rest), array_index digits, array_size digits (bulks ps))
        (bulks_end-bulks before ps rest))

-- A command of plain arguments (ASCII, not empty, without a line end, and unlike `*<int>` and `$<int>`) is
-- read back whole whatever follows it, and exactly its own bytes are consumed.
pub parse_next_command-to_resp_array :
    (ps : List Text) (rest : Bytes)
    → All IsPlain ps
    → parse_next_command (utf8_encode (to_resp_array ps) ++ rest)
      ≡ some (parsed ps (pos (length (to_resp_array ps))))
unfolding parse_next_command
parse_next_command-to_resp_array ps rest h =
    rw
      (
        utf8_encode-IsAscii (to_resp_array ps) (to_resp_array-IsAscii ps h),
        command_end-to_resp_array ps rest,
        take-append (to_resp_array ps) rest,
        utf8_decode-IsAscii (to_resp_array ps) (to_resp_array-IsAscii ps h),
        payload_of-to_resp_array ps h,
      )
      refl
