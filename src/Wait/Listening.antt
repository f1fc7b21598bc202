-- ===== src/Wait/Listening.antt =====
-- One listener for "ack" among others.
use diy_redis.Base.{
  ℕ, ◌≡◌, refl, ◌∙◌, ◌⊎◌, true, false, Option, none, some, List, [], ◌∷◌, ◌++◌, ◌==◌, arith,
  if◌then◌else◌, Bool-cases, inl, inr,
}
use diy_redis.Base.Int.{ℤ, pos}
use diy_redis.Js.Text.{Text}
use diy_redis.Resp.Encode.{simple_int}
use diy_redis.World.{
  World, Pending, WaitState, pending, answered, Waits, on_ack, keep_or_answer, emit_ack,
  receive_ack,
}
use diy_redis.Wait.Defs.{find_wait, on_timeout}

-- The answer of a promise, if there is one.
unfoldable pub answer_of : ℕ → List (ℕ × Text) → Option Text
answer_of n [] = none
answer_of n ((m, reply) ∷ answers) = if m == n then some reply else answer_of n answers

-- A promise that nobody has: no listener, no answer.
abbrev pub IsFree : ℕ → Waits × List (ℕ × Text) → Type 0
IsFree n (waits, answers) = (find_wait n waits ≡ none) × (answer_of n answers ≡ none)

-- One listener of the promise is there, and no other.
abbrev pub Listens : ℕ → Pending → Waits → Type 0
Listens n p [] = ⊥
Listens n p ((m, q) ∷ waits) =
    (((m == n) ≡ true) × (q ≡ p) × (find_wait n waits ≡ none))
    ⊎ (((m == n) ≡ false) × Listens n p waits)

-- The promise waits with its listener, or it has its answer and no listener.
abbrev pub IsAt : ℕ → WaitState → Waits × List (ℕ × Text) → Type 0
IsAt n (pending p) (waits, answers) = Listens n p waits × (answer_of n answers ≡ none)
IsAt n (answered reply) (waits, answers) =
    (find_wait n waits ≡ none) × (answer_of n answers ≡ some reply)

module _ (n m : ℕ) (other : (m == n) ≡ false) where
  keep-IsFree :
      (s : WaitState) (rest : Waits × List (ℕ × Text))
      → IsFree n rest
      → IsFree n (keep_or_answer m s rest)
  unfolding find_wait answer_of
  keep-IsFree (pending p) (waits, answers) (h, k) = (rw other h, k)
  keep-IsFree (answered reply) (waits, answers) (h, k) = (h, rw other k)

  keep-IsAt :
      (s t : WaitState) (rest : Waits × List (ℕ × Text))
      → IsAt n t rest
      → IsAt n t (keep_or_answer m s rest)
  unfolding find_wait answer_of
  keep-IsAt (pending p) (pending q) (waits, answers) (h, k) = (inr (other, h), k)
  keep-IsAt (pending p) (answered reply) (waits, answers) (h, k) = (rw other h, k)
  keep-IsAt (answered reply) (pending q) (waits, answers) (h, k) = (h, rw other k)
  keep-IsAt (answered reply) (answered reply') (waits, answers) (h, k) = (h, rw other k)

add-IsAt :
    (n m : ℕ) (s : WaitState) (rest : Waits × List (ℕ × Text))
    → (m == n) ≡ true
    → IsFree n rest
    → IsAt n s (keep_or_answer m s rest)
unfolding answer_of
add-IsAt n m (pending p) (waits, answers) same (h, k) = (inl (same, refl, h), k)
add-IsAt n m (answered reply) (waits, answers) same (h, k) = (h, rw same refl)

emit_ack-IsFree :
    (n : ℕ) (offset : ℤ) (waits : Waits)
    → find_wait n waits ≡ none
    → IsFree n (emit_ack offset waits)
unfolding emit_ack find_wait answer_of
emit_ack-IsFree n offset [] h = (refl, refl)
emit_ack-IsFree n offset ((m, p) ∷ waits) h = elim (Bool-cases (m == n)) [
  | inl same ↦ ground (arith, h, same)
  | inr other ↦
      keep-IsFree n m other (on_ack offset p) (emit_ack offset waits)
        (emit_ack-IsFree n offset waits (rw other at h))
]

emit_ack-IsAt :
    (n : ℕ) (offset : ℤ) (p : Pending) (waits : Waits)
    → Listens n p waits
    → IsAt n (on_ack offset p) (emit_ack offset waits)
unfolding emit_ack
emit_ack-IsAt n offset p [] h = absurd h
emit_ack-IsAt n offset p ((m, q) ∷ waits) (inl (same, is, none_behind)) = rw is (
    add-IsAt n m (on_ack offset p) (emit_ack offset waits) same
      (emit_ack-IsFree n offset waits none_behind))
emit_ack-IsAt n offset p ((m, q) ∷ waits) (inr (other, h)) =
    keep-IsAt n m other (on_ack offset q) (on_ack offset p) (emit_ack offset waits)
      (emit_ack-IsAt n offset p waits h)

answer_of-append_none :
    (n : ℕ) (old new : List (ℕ × Text))
    → answer_of n old ≡ none
    → answer_of n (old ++ new) ≡ answer_of n new
unfolding answer_of
answer_of-append_none n [] new h = refl
answer_of-append_none n ((m, r) ∷ old) new h = elim (Bool-cases (m == n)) [
  | inl same ↦ ground (arith, h, same)
  | inr other ↦ rw other (answer_of-append_none n old new (rw other at h))
]

answer_of-append_some :
    (n : ℕ) (reply : Text) (old new : List (ℕ × Text))
    → answer_of n old ≡ some reply
    → answer_of n (old ++ new) ≡ some reply
unfolding answer_of
answer_of-append_some n reply [] new h = absurd (cc)
answer_of-append_some n reply ((m, r) ∷ old) new h = elim (Bool-cases (m == n)) [
  | inl same ↦ ground (arith, h, same)
  | inr other ↦ rw other (answer_of-append_some n reply old new (rw other at h))
]

behind-IsAt :
    (n : ℕ) (s : WaitState) (waits : Waits) (old new : List (ℕ × Text))
    → answer_of n old ≡ none
    → IsAt n s (waits, new)
    → IsAt n s (waits, old ++ new)
behind-IsAt n (pending p) waits old new free (h, k) = (h, answer_of-append_none n old new free ∙ k)
behind-IsAt n (answered reply) waits old new free (h, k) =
    (h, answer_of-append_none n old new free ∙ k)

-- What an offset makes of the state of one promise; an answer stays.
unfoldable pub then_ack : ℤ → WaitState → WaitState
then_ack offset (pending p) = on_ack offset p
then_ack offset (answered reply) = answered reply

abbrev pub waiting_in : World → Waits × List (ℕ × Text)
waiting_in w = (w.waits, w.wait_answers)

receive_ack-IsAt :
    (n : ℕ) (offset : ℤ) (s : WaitState) (w : World)
    → IsAt n s (waiting_in w)
    → IsAt n (then_ack offset s) (waiting_in (receive_ack (some offset) w))
unfolding receive_ack then_ack
receive_ack-IsAt n offset (pending p) w (h, k) =
    behind-IsAt n (on_ack offset p) _ w.wait_answers _ k (emit_ack-IsAt n offset p w.waits h)
receive_ack-IsAt n offset (answered reply) w (h, k) =
    ((emit_ack-IsFree n offset w.waits h).0, answer_of-append_some n reply w.wait_answers _ k)

-- The offsets one after the other.
unfoldable pub receive_acks : List ℤ → World → World
receive_acks [] w = w
receive_acks (offset ∷ offsets) w = receive_acks offsets (receive_ack (some offset) w)

unfoldable pub then_acks : List ℤ → WaitState → WaitState
then_acks [] s = s
then_acks (offset ∷ offsets) s = then_acks offsets (then_ack offset s)

pub receive_acks-IsAt :
    (n : ℕ) (offsets : List ℤ) (s : WaitState) (w : World)
    → IsAt n s (waiting_in w)
    → IsAt n (then_acks offsets s) (waiting_in (receive_acks offsets w))
unfolding receive_acks then_acks
receive_acks-IsAt n [] s w h = h
receive_acks-IsAt n (offset ∷ offsets) s w h =
    receive_acks-IsAt n offsets (then_ack offset s) (receive_ack (some offset) w)
      (receive_ack-IsAt n offset s w h)

-- A new listener behind the others.
pub append-Listens :
    (n : ℕ) (p : Pending) (waits : Waits)
    → find_wait n waits ≡ none
    → Listens n p (waits ++ (n, p) ∷ [])
unfolding find_wait
append-Listens n p [] h = inl (ground arith, refl, refl)
append-Listens n p ((m, q) ∷ waits) h = elim (Bool-cases (m == n)) [
  | inl same ↦ ground (arith, h, same)
  | inr other ↦ inr (other, append-Listens n p waits (rw other at h))
]

find_wait-Listens :
    (n : ℕ) (p : Pending) (waits : Waits) → Listens n p waits → find_wait n waits ≡ some p
unfolding find_wait
find_wait-Listens n p [] h = absurd h
find_wait-Listens n p ((m, q) ∷ waits) (inl (same, is, h)) = rw (same, is) refl
find_wait-Listens n p ((m, q) ∷ waits) (inr (other, h)) = rw other (find_wait-Listens n p waits h)

abbrev pub reply_at : WaitState → Text
reply_at (pending p) = simple_int (pos p.ack_count)
reply_at (answered reply) = reply

same_number : (n : ℕ) → (n == n) ≡ true
same_number n = ground arith

-- The timer of a promise that still waits answers with what has been counted; behind an answer it does nothing.
pub on_timeout-answers :
    (n : ℕ) (s : WaitState) (w : World)
    → IsAt n s (waiting_in w)
    → answer_of n (on_timeout n w).wait_answers ≡ some (reply_at s)
unfolding on_timeout
on_timeout-answers n (pending p) w (h, k) =
    rw (find_wait-Listens n p w.waits h)
      (answer_of-append_none n w.wait_answers _ k ∙ unfold answer_of in rw (same_number n) refl)
on_timeout-answers n (answered reply) w (h, k) = rw h k
