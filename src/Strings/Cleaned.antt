-- ===== src/Strings/Cleaned.antt =====
-- What expired keys change: GET and EXISTS answer as if they were gone.
use diy_redis.Base.{ℕ, ◌≡◌, refl, ap, true, none, some, List, [], ◌∷◌, arith}
use diy_redis.Base.Int.{pos}
use diy_redis.Js.Text.{Text}
use diy_redis.Store.{
  StoreValue, Store, get_value, is_expired, clean_expired_keys, live_value,
  get_value-clean_expired_keys,
}
use diy_redis.Resp.Encode.{bulk_string_response, simple_string_response, simple_int}
use diy_redis.Strings.Defs.{
  get_command, count_existing, is_there, exists_command, type_command, kind_name,
}
use diy_redis.Strings.Expiry.{get_command-answer, answer}

answer-live_value :
    (now : ℕ) (k : Text) (s : Store) → answer now (live_value now k s) ≡ answer now (get_value k s)
unfolding live_value
answer-live_value now k s = ground arith

is_there-live_value :
    (now : ℕ) (k : Text) (s : Store)
    → is_there now (live_value now k s) ≡ is_there now (get_value k s)
unfolding live_value is_there
is_there-live_value now k s = ground arith

count_existing-clean :
    (now : ℕ) (ks : List Text) (count : ℕ) (s : Store)
    → count_existing now ks count (clean_expired_keys now s) ≡ count_existing now ks count s
unfolding count_existing
count_existing-clean now [] count s = refl
count_existing-clean now (k ∷ ks) count s =
    rw (get_value-clean_expired_keys now k s, is_there-live_value now k s)
      (count_existing-clean now ks _ s)

exists_clean :
    (now : ℕ) (ks : List Text) (s : Store)
    → (exists_command now ks (clean_expired_keys now s)).0 ≡ (exists_command now ks s).0
unfolding exists_command
exists_clean now [] s = refl
exists_clean now (k ∷ ks) s = ap (λ n. simple_int (pos n)) (count_existing-clean now (k ∷ ks) 0 s)

-- GET and EXISTS answer on a store as on the same store without its expired keys.
pub clean_invisible :
    (now : ℕ) (k : Text) (ks : List Text) (s : Store)
    → ((get_command now (k ∷ []) (clean_expired_keys now s)).0 ≡ (get_command now (k ∷ []) s).0)
      × ((exists_command now ks (clean_expired_keys now s)).0 ≡ (exists_command now ks s).0)
clean_invisible now k ks s = (
  rw
      (
        get_command-answer now k (clean_expired_keys now s),
        get_command-answer now k s,
        get_value-clean_expired_keys now k s,
      )
      (answer-live_value now k s),
  exists_clean now ks s,
)

-- TYPE answers the type of a key that has expired, for which GET answers null and EXISTS 0.
pub type_shows_expired :
    (now : ℕ) (k : Text) (s : Store) (v : StoreValue)
    → get_value k s ≡ some v
    → is_expired now v.expiration ≡ true
    → ((type_command now (k ∷ []) s).0 ≡ simple_string_response (kind_name v.kind))
      × ((get_command now (k ∷ []) s).0 ≡ bulk_string_response none)
      × ((exists_command now (k ∷ []) s).0 ≡ simple_int (pos 0))
type_shows_expired now k s v held late = (
  unfold type_command in rw held refl,
  rw (get_command-answer now k s, held, late) refl,
  unfold exists_command is_there in rw (held, late) refl,
)
