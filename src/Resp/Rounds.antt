-- ===== src/Resp/Rounds.antt =====
-- One round of the loop in `parseNextCommand`, and the loop: what they read, and with later bytes.
use diy_redis.Base.{
  ℕ, zero, suc, ◌+◌, ◌-◌, ◌<◌, ◌≡◌, refl, Bool, true, false, Option, none, some, [], ◌∷◌, ◌++◌,
  arith, length, length-append, length-drop, take, drop, take-append_le, drop-append_le, ◌>>=◌,
  Bool-cases, inl, inr, guard,
}
use diy_redis.Base.Int.{ℤ, pos, negsuc, ◌+ℤ◌, ◌≤ℤ◌, ltb_ℤ}
use diy_redis.Js.Text.{find_crlf, find_crlf_bound, find_crlf-append_some}
use diy_redis.Js.Number.{parse_int}
use diy_redis.Js.Utf8.{Bytes, utf8_decode}
use diy_redis.Resp.Parse.{begins_with, bulk_end, bulks_end, within}

-- What a round that succeeds has read.
record Round (buffer : Bytes) (i : ℕ) (end : ℤ) : Type 0 where
  header : ℕ
  size : ℤ
  dollar : begins_with b'$' (drop i buffer) ≡ true
  line : find_crlf (drop i buffer) ≡ some header
  number : parse_int (utf8_decode (take (header - 1) (drop (suc i) buffer))) ≡ some size
  fits : end ≤ℤ pos (length buffer)
  reached : pos (i + header + 4) +ℤ size ≡ end

-- The rest of a round behind its first test, and behind its header.
abbrev after_line : Bytes → ℕ → ℕ → Option ℤ
after_line buffer i header =
    parse_int (utf8_decode (take (header - 1) (drop (suc i) buffer))) >>= λ size.
    within buffer (pos (i + header + 4) +ℤ size)

abbrev after_dollar : Bytes → ℕ → Option ℤ
after_dollar buffer i = find_crlf (drop i buffer) >>= after_line buffer i

pub guard-some {ℓ} :
    {A : Type ℓ} (b : Bool) (m : Option A) (a : A)
    → (guard b >>= λ _. m) ≡ some a
    → (b ≡ true) × (m ≡ some a)
guard-some true m a h = (refl, h)
guard-some false m a h = cc

pub bind-some {ℓ κ} :
    {A : Type ℓ} {B : Type κ} (m : Option A) (f : A → Option B) {b : B}
    → (m >>= f) ≡ some b
    → (a : A) × (m ≡ some a) × (f a ≡ some b)
bind-some none f h = cc
bind-some (some a) f h = (a, refl, h)

within-some :
    (buffer : Bytes) (e end : ℤ)
    → within buffer e ≡ some end
    → (end ≤ℤ pos (length buffer)) × (e ≡ end)
unfolding within
within-some buffer e end h = elim (Bool-cases (ltb_ℤ (pos (length buffer)) e)) [
  | inl short ↦ ground arith
  | inr fits ↦ ground arith
]

within-fits : (buffer : Bytes) (end : ℤ) → end ≤ℤ pos (length buffer) → within buffer end ≡ some end
unfolding within
within-fits buffer end h = ground arith

Round-of :
    (buffer : Bytes) (i : ℕ) (end : ℤ) → bulk_end buffer (pos i) ≡ some end → Round buffer i end
Round-of buffer i end h =
    let (dollar, h₁) =
      guard-some (begins_with b'$' (drop i buffer)) (after_dollar buffer i) end
        (unfold bulk_end in h) in
    let (header, line, h₂) = bind-some (find_crlf (drop i buffer)) (after_line buffer i) h₁ in
    let (size, number, h₃) =
      bind-some (parse_int (utf8_decode (take (header - 1) (drop (suc i) buffer))))
        (λ n. within buffer (pos (i + header + 4) +ℤ n)) h₂ in
    let (fits, reached) = within-some buffer (pos (i + header + 4) +ℤ size) end h₃ in
    record {
      header = header;
      size = size;
      dollar = dollar;
      line = line;
      number = number;
      fits = fits;
      reached = reached;
    }

bulk_end-Round :
    (buffer : Bytes) (i : ℕ) (end : ℤ) → Round buffer i end → bulk_end buffer (pos i) ≡ some end
bulk_end-Round buffer i end r =
    unfold bulk_end in rw (r.dollar, r.line, r.number, r.reached) (within-fits buffer end r.fits)

pub begins_with-drop : (b i : ℕ) (s : Bytes) → begins_with b (drop i s) ≡ true → i < length s
begins_with-drop b zero [] h = cc
begins_with-drop b zero (c ∷ s) h = omega arith
begins_with-drop b (suc i) [] h = cc
begins_with-drop b (suc i) (c ∷ s) h = omega (arith, begins_with-drop b i s h)

pub begins_with-append :
    (b : ℕ) (s t : Bytes) → begins_with b s ≡ true → begins_with b (s ++ t) ≡ true
begins_with-append b [] t h = cc
begins_with-append b (c ∷ s) t h = h

-- Later bytes change nothing of what a round has read.
Round-append :
    (buffer more : Bytes) (i : ℕ) (end : ℤ) → Round buffer i end → Round (buffer ++ more) i end
Round-append buffer more i end r =
    let inside = begins_with-drop b'$' i buffer r.dollar in
    let room = find_crlf_bound (drop i buffer) r.header r.line in
    let e = drop-append_le i buffer more (omega arith) in
    record {
      header = r.header;
      size = r.size;
      dollar = rw e (begins_with-append b'$' (drop i buffer) more r.dollar);
      line = rw e (find_crlf-append_some (drop i buffer) more r.header r.line);
      number =
          rw
            (
              drop-append_le (suc i) buffer more inside,
              take-append_le (r.header - 1) (drop (suc i) buffer) more
                  (omega (arith, length-drop i buffer, length-drop (suc i) buffer, room)),
            )
            r.number;
      fits = omega (arith, r.fits, length-append buffer more);
      reached = r.reached;
    }

bulk_end-append :
    (buffer more : Bytes) (i end : ℤ)
    → bulk_end buffer i ≡ some end
    → bulk_end (buffer ++ more) i ≡ some end
bulk_end-append buffer more (negsuc k) end h = unfold bulk_end in cc
bulk_end-append buffer more (pos i) end h =
    bulk_end-Round (buffer ++ more) i end (Round-append buffer more i end (Round-of buffer i end h))

pub bulks_end-append :
    (n : ℕ) (buffer more : Bytes) (i end : ℤ)
    → bulks_end n buffer i ≡ some end
    → bulks_end n (buffer ++ more) i ≡ some end
unfolding bulks_end
bulks_end-append zero buffer more i end h = h
bulks_end-append (suc n) buffer more i end h =
    let (j, first, rest) = bind-some (bulk_end buffer i) (bulks_end n buffer) h in
    rw (bulk_end-append buffer more i j first) (bulks_end-append n buffer more j end rest)

bulk_end_bound :
    (buffer : Bytes) (i end : ℤ) → bulk_end buffer i ≡ some end → end ≤ℤ pos (length buffer)
bulk_end_bound buffer (negsuc k) end h = unfold bulk_end in cc
bulk_end_bound buffer (pos i) end h = Round.fits (Round-of buffer i end h)

pub bulks_end_bound :
    (n : ℕ) (buffer : Bytes) (i end : ℤ)
    → i ≤ℤ pos (length buffer)
    → bulks_end n buffer i ≡ some end
    → end ≤ℤ pos (length buffer)
unfolding bulks_end
bulks_end_bound zero buffer i end hi h = ground arith
bulks_end_bound (suc n) buffer i end hi h =
    let (j, first, rest) = bind-some (bulk_end buffer i) (bulks_end n buffer) h in
    bulks_end_bound n buffer j end (bulk_end_bound buffer i j first) rest
