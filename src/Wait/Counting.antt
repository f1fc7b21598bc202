-- ===== src/Wait/Counting.antt =====
-- What WAIT answers.
use diy_redis.Base.{
  ℕ, suc, ◌+◌, ◌<◌, ◌≡◌, refl, sym, ap, ◌∙◌, true, false, none, some, List, [], ◌∷◌, arith, ◌==◌,
  leb, min, length, if◌then◌else◌, Bool-cases, inl, inr, Option,
}
use diy_redis.Base.Int.{ℤ, pos, leb_ℤ}
use diy_redis.Js.Text.{Text}
use diy_redis.Resp.Encode.{simple_int}
use diy_redis.Js.Number.{decimal, parse_int-decimal}
use diy_redis.World.{World, WaitState, pending, answered, on_ack}
use diy_redis.Dispatch.{Answer}
use diy_redis.Replica.{request_acks}
use diy_redis.Wait.Defs.{wait_command, start_wait}
use diy_redis.Wait.Listening.{
  IsFree, IsAt, answer_of, waiting_in, then_ack, then_acks, receive_acks, receive_acks-IsAt,
  append-Listens, reply_at,
}

-- How many of the offsets reach the master's.
unfoldable pub reached : ℕ → List ℤ → ℕ
reached target [] = 0
reached target (offset ∷ offsets) =
    let n = reached target offsets in if leb_ℤ (pos target) offset then suc n else n

abbrev pub started : ℕ → ℕ → ℕ → WaitState
started required target n =
    pending
      (record { required_replicas = some (pos required); master_offset = target; ack_count = n })

then_acks-answered :
    (offsets : List ℤ) (reply : Text) → then_acks offsets (answered reply) ≡ answered reply
unfolding then_acks then_ack
then_acks-answered [] reply = refl
then_acks-answered (offset ∷ offsets) reply = then_acks-answered offsets reply

abbrev counted : ℕ → ℕ → ℕ → WaitState
counted required target n =
    if leb required n then answered (simple_int (pos required)) else started required target n

shift :
    (required target n k : ℕ)
    → counted required target (suc n + k) ≡ counted required target (n + suc k)
shift required target n k = ap (counted required target) (omega arith)

not_yet :
    (required n : ℕ) → leb required (suc n) ≡ false → leb_ℤ (pos required) (pos (suc n)) ≡ false
not_yet required n h = ground arith

then_acks-counts :
    (required target n : ℕ) (offsets : List ℤ)
    → n < required
    → then_acks offsets (started required target n)
      ≡ counted required target (n + reached target offsets)
unfolding then_acks then_ack on_ack reached
then_acks-counts required target n [] h = ground arith
then_acks-counts required target n (offset ∷ offsets) h =
    elim (Bool-cases (leb_ℤ (pos target) offset)) [
      | inl counts ↦ elim (Bool-cases (leb required (suc n))) [
        | inl last ↦ ground (arith, counts, then_acks-answered offsets (simple_int (pos (suc n))))
        | inr more ↦
            let next = then_acks-counts required target (suc n) offsets (ground arith) in
            rw (counts, not_yet required n more)
              (next ∙ shift required target n (reached target offsets))
      ]
      | inr late ↦ let next = then_acks-counts required target n offsets h in rw late next
    ]

least : (a b : ℕ) → leb a b ≡ true → a ≡ min a b
least a b h = ground arith

least_few : (a b : ℕ) → leb a b ≡ false → b ≡ min a b
least_few a b h = ground arith

pub min-counted :
    (required target n : ℕ)
    → reply_at (counted required target n) ≡ simple_int (pos (min required n))
min-counted required target n = elim (Bool-cases (leb required n)) [
  | inl enough ↦ rw enough (ap (λ k. simple_int (pos k)) (least required n enough))
  | inr few ↦ rw few (ap (λ k. simple_int (pos k)) (least_few required n few))
]

-- The answer that the promise has so far.
abbrev pub answer_at : ℕ → ℕ → Option Text
answer_at required n = if leb required n then some (simple_int (pos required)) else none

pub answer_of-IsAt :
    (n required target k : ℕ) (w : World)
    → IsAt n (counted required target k) (waiting_in w)
    → answer_of n w.wait_answers ≡ answer_at required k
answer_of-IsAt n required target k w h = elim (Bool-cases (leb required k)) [
  | inl enough ↦ let (gone, there) = rw enough at h in rw enough there
  | inr few ↦ let (there, none_yet) = rw few at h in rw few none_yet
]

from_zero : (n : ℕ) → 0 + n ≡ n
from_zero n = omega arith

module _ (required : ℕ) (timeout : Text) (offsets : List ℤ) (w : World)
    (some_replica : (length w.replicas == 0) ≡ false) (some_write : (w.offset == 0) ≡ false) where
  abbrev pub asked : Answer × World
  asked = wait_command (decimal (suc required) ∷ timeout ∷ []) w

  pub wait_command-started : asked ≡ start_wait (some (pos (suc required))) (request_acks w)
  unfolding wait_command
  wait_command-started = rw (some_replica, some_write, parse_int-decimal (suc required)) refl

  pub wait_command-IsAt :
      IsFree w.next_waiter (waiting_in w)
      → IsAt w.next_waiter
          (counted (suc required) w.offset (reached w.offset offsets))
          (waiting_in (receive_acks offsets asked.1))
  unfolding request_acks start_wait
  wait_command-IsAt (free, unanswered) =
      let counts =
        then_acks-counts (suc required) w.offset 0 offsets (omega arith)
        ∙ ap (counted (suc required) w.offset) (from_zero (reached w.offset offsets)) in
      rw (sym counts, wait_command-started)
        (receive_acks-IsAt w.next_waiter offsets (started (suc required) w.offset 0) _
          (append-Listens w.next_waiter _ w.waits free, unanswered))
