-- ===== src/Replica/Rounds.antt =====
-- One round of the loop of `onData`.
use diy_redis.Base.{ℕ, suc, ◌≡◌, refl, true, false}
use diy_redis.Replica.Defs.{
  Replica, waits, Consumed, is_zero, slice_consumed, process_message, process_all,
}

module _ (rounds : ℕ) (r r' : Replica) (consumed : Consumed)
    (message : process_message r ≡ (consumed, r')) where
  pub round-waits : is_zero consumed ≡ true → process_all (suc rounds) r ≡ waits r'
  unfolding process_all
  round-waits zero = rw (process_all, message, zero, message) refl

  pub round-goes :
      is_zero consumed ≡ false
      → process_all (suc rounds) r
        ≡ process_all rounds (record r' { buffer = slice_consumed consumed r'.buffer })
  unfolding process_all
  round-goes more = rw (process_all, message, more, message) refl
