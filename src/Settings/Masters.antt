-- ===== src/Settings/Masters.antt =====
-- The two ways of naming a master.
use diy_redis.Base.{◌≡◌, refl, true, none, some, List, [], ◌∷◌, ◌++◌, arith}
use diy_redis.Js.Text.{Text, codes, str_eq_refl, is_truthy}
use diy_redis.Js.Number.{parse_int, trim}
use diy_redis.Settings.Defs.{
  slave, behind_flag, first_word, behind_space, master_of, detect_server_role,
}

behind_flag-append :
    (flag : Text) (before after : List Text)
    → behind_flag flag before ≡ none
    → behind_flag flag (before ++ flag ∷ after) ≡ some after
unfolding behind_flag
behind_flag-append flag [] after h = rw (str_eq_refl flag) refl
behind_flag-append flag (a ∷ before) after h =
    ground (arith, behind_flag-append flag before after (ground arith))

behind_space-append : (s t : Text) → behind_space s ≡ none → behind_space (s ++ 32 ∷ t) ≡ some t
unfolding behind_space
behind_space-append [] t h = refl
behind_space-append (c ∷ s) t h = ground (arith, behind_space-append s t (ground arith))

first_word-append : (s t : Text) → behind_space s ≡ none → first_word (s ++ 32 ∷ t) ≡ s
unfolding behind_space first_word
first_word-append [] t h = refl
first_word-append (c ∷ s) t h = ground (arith, first_word-append s t (ground arith))

first_word-alone : (s : Text) → behind_space s ≡ none → first_word s ≡ s
unfolding behind_space first_word
first_word-alone [] h = refl
first_word-alone (c ∷ s) h = ground (arith, first_word-alone s (ground arith))

truthy-append : (s t : Text) → is_truthy s ≡ true → is_truthy (s ++ t) ≡ true
truthy-append [] t h = absurd (cc)
truthy-append (c ∷ s) t h = refl

-- A word of the command line: not empty, without a space, and as trim leaves it.
pub record IsWord (t : Text) : Type 0 where
  pub some_unit : is_truthy t ≡ true
  pub one_word : behind_space t ≡ none
  pub trimmed : trim t ≡ t

module _ (host port : Text) (before : List Text)
    (no_flag : behind_flag (codes "--replicaof") before ≡ none) (a_host : IsWord host)
    (a_port : IsWord port) where
  one_argument :
      master_of (
        behind_flag
          (codes "--replicaof")
          (before ++ codes "--replicaof" ∷ (host ++ 32 ∷ port) ∷ []))
      ≡ some (host, parse_int port)
  unfolding master_of
  one_argument =
      rw
        (
          behind_flag-append (codes "--replicaof") before ((host ++ 32 ∷ port) ∷ []) no_flag,
          truthy-append host (32 ∷ port) a_host.some_unit,
          behind_space-append host port a_host.one_word,
          first_word-append host port a_host.one_word,
          first_word-alone port a_port.one_word,
          a_host.some_unit,
          a_port.some_unit,
          a_host.trimmed,
          a_port.trimmed,
        )
        refl

  two_arguments :
      master_of
        (behind_flag (codes "--replicaof") (before ++ codes "--replicaof" ∷ host ∷ port ∷ []))
      ≡ some (host, parse_int port)
  unfolding master_of
  two_arguments =
      rw
        (
          behind_flag-append (codes "--replicaof") before (host ∷ port ∷ []) no_flag,
          a_host.some_unit,
          a_host.one_word,
          a_host.some_unit,
          a_port.some_unit,
          a_host.trimmed,
          a_port.trimmed,
        )
        refl

-- A server that is started with --replicaof, behind other arguments of which none is that flag, and a host and a port
-- that are words, is a replica of that host and port, whether the two stand in one argument or in two.
pub detect_server_role-replicaof :
    (cwd host port : Text) (before : List Text)
    → behind_flag (codes "--replicaof") before ≡ none
    → IsWord host
    → IsWord port
    → let one = detect_server_role cwd (before ++ codes "--replicaof" ∷ (host ++ 32 ∷ port) ∷ []) in
      let two = detect_server_role cwd (before ++ codes "--replicaof" ∷ host ∷ port ∷ []) in
      (one.role ≡ slave)
      × (one.master_host ≡ some host)
      × (one.master_port ≡ parse_int port)
      × (two.role ≡ slave)
      × (two.master_host ≡ some host)
      × (two.master_port ≡ parse_int port)
unfolding detect_server_role
detect_server_role-replicaof cwd host port before no_flag a_host a_port =
    rw
      (
        one_argument host port before no_flag a_host a_port,
        two_arguments host port before no_flag a_host a_port,
      )
      (refl, refl, refl, refl, refl, refl)
