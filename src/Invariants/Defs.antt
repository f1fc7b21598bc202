-- ===== src/Invariants/Defs.antt =====
-- A predicate on the world that the commands keep.
use diy_redis.Base.{if_both, All, [], ◌∷◌, ℕ, Option, none, some, List}
use diy_redis.Base.Int.{ℤ}
use diy_redis.Js.Text.{Text, str_eq}
use diy_redis.Js.Map.{lookup}
use diy_redis.Store.{Store}
use diy_redis.World.Executions.{Paused}
use diy_redis.World.{World, Waiter, Socket, propagate, receive_ack, write}
use diy_redis.Blocking.{time_out}
use diy_redis.Streams.{Outcome, answered, blocked, raised, outside, read_timeout}
use diy_redis.Wait.{on_timeout}
use diy_redis.Dispatch.{
  ConnectionState, Command, simple, stateful, replication, orchestration, Commands,
}
use diy_redis.Registry.{Engine, of_outcome, of_number}

abbrev pub Predicate : Type 1
Predicate = World → Type 0

-- A command of any of the four types keeps the predicate.
abbrev pub Keeps : Predicate → Command → Type 0
Keeps P (simple f) = (args : List Text) (w : World) → P w → P (f args w).1
Keeps P (stateful f) =
    (args : List Text) (connection : Option Socket) (state : ConnectionState) (w : World)
    → P w
    → P (f args connection state w).2
Keeps P (replication f) =
    (args : List Text) (connection : Option Socket) (state : ConnectionState) (w : World)
    → P w
    → P (f args connection state w).2
Keeps P (orchestration f) = (args : List Text) (w : World) → P w → P (f args w).1

-- What the engine does where the model does not look keeps the predicate.
abbrev pub EngineKeeps : Predicate → Engine → Type 0
EngineKeeps P engine =
    (name : Text) (args : List Text) (w : World) → P w → P (engine.elsewhere name args w).1

-- All commands of a map keep the predicate, and so does what a name gives.
abbrev pub OptionKeeps : Predicate → Option Command → Type 0
OptionKeeps P none = Unit {0}
OptionKeeps P (some c) = Keeps P c

pub record AllKeep (P : Predicate) (commands : Commands) : Type 0 where
  pub at : (name : Text) → OptionKeeps P (lookup name commands)

-- What happens between commands keeps the predicate.
pub record Laws (P : Predicate) : Type 0 where
  pub propagated : (payload : List Text) (w : World) → P w → P (propagate payload w)
  pub written : (c : Socket) (response : Text) (w : World) → P w → P (write c response w)
  pub acknowledged : (offset : Option ℤ) (w : World) → P w → P (receive_ack offset w)
  pub waiter_ended : (waiter : Waiter) (w : World) → P w → P (time_out waiter w)
  pub reader_ended : (n : ℕ) (w : World) → P w → P (read_timeout n w)
  pub wait_ended : (n : ℕ) (w : World) → P w → P (on_timeout n w)
  pub paused : (ps : List Paused) (w : World) → P w → P (record w { executions = ps })
  pub clock_went : (now : ℕ) (w : World) → P w → P (record w { clock = now })

pub of_outcome-Keeps :
    (P : Predicate) (engine : Engine) (name : Text) (args : List Text) (w : World)
    (p : Outcome × World)
    → EngineKeeps P engine
    → P w
    → P p.1
    → P (of_outcome engine name args w p).1
of_outcome-Keeps P engine name args w (answered reply, w') law h h' = h'
of_outcome-Keeps P engine name args w (blocked n, w') law h h' = h'
of_outcome-Keeps P engine name args w (raised, w') law h h' = h'
of_outcome-Keeps P engine name args w (outside, w') law h h' = law name args w h

-- The store that INCR gives, if any.
abbrev pub StoreKeeps : Predicate → World → Option (Text × Store) → Type 0
StoreKeeps P w none = Unit {0}
StoreKeeps P w (some p) = P (record w { store = p.1 })

pub of_number-Keeps :
    (P : Predicate) (engine : Engine) (name : Text) (args : List Text) (w : World)
    (o : Option (Text × Store))
    → EngineKeeps P engine
    → P w
    → StoreKeeps P w o
    → P (of_number engine name args w o).1
of_number-Keeps P engine name args w none law h kept = law name args w h
of_number-Keeps P engine name args w (some p) law h kept = kept

-- The proofs for the entries of a map, one behind the other.
infixr 4 ◌&◌
abbrev pub ◌&◌ : {A B : Type 0} → A → B → A × B
a & b = (a, b)

abbrev pub EntryKeeps : Predicate → Text × Command → Type 0
EntryKeeps P e = Keeps P e.1

lookup-OptionKeeps :
    (P : Predicate) (commands : Commands)
    → All (EntryKeeps P) commands
    → (name : Text) → OptionKeeps P (lookup name commands)
unfolding lookup
lookup-OptionKeeps P [] h name = tt
lookup-OptionKeeps P ((k, c) ∷ commands) h name =
    if_both (OptionKeeps P) (str_eq k name) (some c) (lookup name commands) h.0
      (lookup-OptionKeeps P commands h.1 name)

pub commands-AllKeep :
    (P : Predicate) (commands : Commands) → All (EntryKeeps P) commands → AllKeep P commands
commands-AllKeep P commands h = record { at = lookup-OptionKeeps P commands h }
