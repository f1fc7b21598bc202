-- ===== src/Resp/Framing.antt =====
-- Where `parseNextCommand` ends a command: inside the buffer, and whatever bytes come later.
use diy_redis.Base.{
  ℕ, ◌+◌, ◌-◌, ◌≡◌, true, Option, some, List, ◌++◌, arith, length, length-drop, take, drop,
  take-append_le, drop-append_le, ◌>>=◌,
}
use diy_redis.Base.Int.{ℤ, pos, negsuc, ◌≤ℤ◌, pos_part}
use diy_redis.Js.Text.{Text, find_crlf, find_crlf_bound, find_crlf-append_some}
use diy_redis.Js.Number.{parse_int}
use diy_redis.Js.Utf8.{Bytes, utf8_decode}
use diy_redis.Resp.Parse.{
  Parsed, parsed, get_payload, begins_with, bulks_end, command_end, slice_to, parse_next_command,
}
use diy_redis.Resp.Rounds.{
  guard-some, bind-some, begins_with-drop, begins_with-append, bulks_end-append, bulks_end_bound,
}

-- What the parser has read of the first line.
record FirstLine (buffer : Bytes) (end : ℤ) : Type 0 where
  header : ℕ
  count : ℤ
  star : begins_with b'*' buffer ≡ true
  line : find_crlf buffer ≡ some header
  number : parse_int (utf8_decode (take (header - 1) (drop 1 buffer))) ≡ some count
  rounds : bulks_end (pos_part count) buffer (pos (header + 2)) ≡ some end

abbrev after_first_line : Bytes → ℕ → Option ℤ
after_first_line buffer header =
    parse_int (utf8_decode (take (header - 1) (drop 1 buffer))) >>= λ count.
    bulks_end (pos_part count) buffer (pos (header + 2))

FirstLine-of : (buffer : Bytes) (end : ℤ) → command_end buffer ≡ some end → FirstLine buffer end
FirstLine-of buffer end h =
    let (star, h₁) =
      guard-some (begins_with b'*' buffer) (find_crlf buffer >>= after_first_line buffer) end
        (unfold command_end in h) in
    let (header, line, h₂) = bind-some (find_crlf buffer) (after_first_line buffer) h₁ in
    let (count, number, rounds) =
      bind-some (parse_int (utf8_decode (take (header - 1) (drop 1 buffer))))
        (λ n. bulks_end (pos_part n) buffer (pos (header + 2))) h₂ in
    record {
      header = header;
      count = count;
      star = star;
      line = line;
      number = number;
      rounds = rounds;
    }

-- A command that is complete ends at the same index whatever bytes follow it in the buffer.
pub command_end-append :
    (buffer more : Bytes) (end : ℤ)
    → command_end buffer ≡ some end
    → command_end (buffer ++ more) ≡ some end
command_end-append buffer more end h =
    let f = FirstLine-of buffer end h in
    let room = find_crlf_bound buffer f.header f.line in
    let size = begins_with-drop b'*' 0 buffer f.star in
    unfold command_end in
    rw
      (
        begins_with-append b'*' buffer more f.star,
        find_crlf-append_some buffer more f.header f.line,
        drop-append_le 1 buffer more size,
        take-append_le (f.header - 1) (drop 1 buffer) more
            (omega (arith, length-drop 1 buffer, room)),
        f.number,
      )
      (bulks_end-append (pos_part f.count) buffer more (pos (f.header + 2)) end f.rounds)

-- The end of a complete command is not behind the end of the buffer.
pub command_end_bound :
    (buffer : Bytes) (end : ℤ) → command_end buffer ≡ some end → end ≤ℤ pos (length buffer)
command_end_bound buffer end h =
    let f = FirstLine-of buffer end h in
    bulks_end_bound (pos_part f.count) buffer (pos (f.header + 2)) end
      (omega (arith, find_crlf_bound buffer f.header f.line)) f.rounds

parse_at :
    (buffer more : Bytes) (payload : List Text) (n : ℕ) (end : ℤ)
    → command_end buffer ≡ some end
    → ◌≡◌ {A = Option Parsed}
        (some (parsed (get_payload (slice_to end buffer)) end))
        (some (parsed payload (pos n)))
    → parse_next_command (buffer ++ more) ≡ some (parsed payload (pos n))
parse_at buffer more payload n (negsuc k) found e = cc
parse_at buffer more payload n (pos m) found e =
    unfold parse_next_command in
    rw
      (
        command_end-append buffer more (pos m) found,
        take-append_le m buffer more (omega (arith, command_end_bound buffer (pos m) found)),
      )
      (unfold slice_to in e)

-- A command that is complete is read alike whatever bytes follow it in the buffer, if its end is
-- not before the buffer.
pub parse_next_command-append :
    (buffer more : Bytes) (payload : List Text) (n : ℕ)
    → parse_next_command buffer ≡ some (parsed payload (pos n))
    → parse_next_command (buffer ++ more) ≡ some (parsed payload (pos n))
parse_next_command-append buffer more payload n h =
    let (end, found, e) =
      bind-some (command_end buffer) (λ k. some (parsed (get_payload (slice_to k buffer)) k))
        {b = parsed payload (pos n)} (unfold parse_next_command in h) in
    parse_at buffer more payload n end found e
