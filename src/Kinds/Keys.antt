-- ===== src/Kinds/Keys.antt =====
-- The key commands.
use diy_redis.Base.{
  if_both, ℕ, refl, sym, ap, ◌∙◌, not, ◌&&◌, none, List, [], ◌∷◌, Option-cases, inl, inr,
}
use diy_redis.Js.Text.{Text, codes}
use diy_redis.Js.Number.{parse_int}
use diy_redis.Js.Map.{has_value}
use diy_redis.Store.{value_text, Store, text, string, get_value, is_expired}
use diy_redis.Strings.{
  Command, get_command, set_command, del_command, delete_all, exists_command, expire_command,
  is_exact, incr_command, type_command, keys_command, set_options, no_options, is_mode, nx, xx,
}
use diy_redis.World.{World}
use diy_redis.Invariants.{StoreKeeps}
use diy_redis.Kinds.Defs.{Kinded, HasKinds, fits_value, set_value-HasKinds, delete_key-HasKinds}

-- A key command keeps the invariant.
abbrev pub KeepsKinds : Command → Type 0
KeepsKinds f = (now : ℕ) (args : List Text) (s : Store) → HasKinds s → HasKinds (f now args s).1

abbrev Kept : Text × Store → Type 0
Kept p = HasKinds p.1

pub get_command-KeepsKinds : KeepsKinds get_command
unfolding get_command
get_command-KeepsKinds now [] s h = h
get_command-KeepsKinds now (k ∷ []) s h = elim (Option-cases (get_value k s)) [
  | inl gone ↦ rw gone h
  | inr (v, there) ↦
      rw there (if_both Kept (is_expired now v.expiration) _ _ (delete_key-HasKinds k s h) h)
]
get_command-KeepsKinds now (k ∷ a ∷ args) s h = h

pub delete_all-HasKinds :
    (ks : List Text) (n : ℕ) (s : Store) → HasKinds s → HasKinds (delete_all ks n s).1
unfolding delete_all
delete_all-HasKinds [] n s h = h
delete_all-HasKinds (k ∷ ks) n s h = delete_all-HasKinds ks _ _ (delete_key-HasKinds k s h)

pub del_command-KeepsKinds : KeepsKinds del_command
unfolding del_command
del_command-KeepsKinds now [] s h = h
del_command-KeepsKinds now (k ∷ ks) s h = delete_all-HasKinds (k ∷ ks) 0 s h

pub set_command-KeepsKinds : KeepsKinds set_command
unfolding set_command
set_command-KeepsKinds now [] s h = h
set_command-KeepsKinds now (k ∷ []) s h = h
set_command-KeepsKinds now (k ∷ v ∷ args) s h =
    elim (Option-cases (set_options now args no_options)) [
      | inl wrong ↦ rw wrong h
      | inr (o, parsed) ↦ rw parsed (
          if_both Kept (is_mode o.mode nx && has_value (get_value k s)) _ _ h (
            if_both Kept (is_mode o.mode xx && not (has_value (get_value k s))) _ _ h
              (set_value-HasKinds k (text v) string _ s refl h)))
    ]

pub expire_command-KeepsKinds : KeepsKinds expire_command
unfolding expire_command
expire_command-KeepsKinds now [] s h = h
expire_command-KeepsKinds now (k ∷ []) s h = h
expire_command-KeepsKinds now (k ∷ t ∷ []) s h = elim (Option-cases (get_value k s)) [
  | inl gone ↦ rw gone h
  | inr (v, there) ↦ elim (Option-cases (parse_int t)) [
    | inl wrong ↦ rw (there, wrong) h
    | inr (n, parsed) ↦
        rw (there, parsed)
          (set_value-HasKinds k v.value v.kind _ s (ap fits_value (sym there) ∙ h.fit k) h)
  ]
]
expire_command-KeepsKinds now (k ∷ t ∷ a ∷ args) s h = h

pub incr_command-HasKinds :
    (args : List Text) (w : World)
    → HasKinds w.store
    → StoreKeeps Kinded w (incr_command w.clock args w.store)
unfolding incr_command
incr_command-HasKinds [] w h = h
incr_command-HasKinds (k ∷ []) w h = elim (Option-cases (get_value k w.store)) [
  | inl gone ↦ rw gone (set_value-HasKinds k (text (codes "1")) string none w.store refl h)
  | inr (v, there) ↦ elim (Option-cases (parse_int (value_text v.value))) [
    | inl wrong ↦ rw (there, wrong) h
    | inr (n, parsed) ↦
        rw (there, parsed)
          (if_both (StoreKeeps Kinded w) (is_exact n) _ none
            (set_value-HasKinds k (text _) string _ w.store refl h) tt)
  ]
]
incr_command-HasKinds (k ∷ a ∷ args) w h = h

-- The commands that write nothing.
pub exists_command-KeepsKinds : KeepsKinds exists_command
unfolding exists_command
exists_command-KeepsKinds now [] s h = h
exists_command-KeepsKinds now (k ∷ ks) s h = h

pub type_command-KeepsKinds : KeepsKinds type_command
unfolding type_command
type_command-KeepsKinds now [] s h = h
type_command-KeepsKinds now (k ∷ args) s h = h

pub keys_command-KeepsKinds : KeepsKinds keys_command
unfolding keys_command
keys_command-KeepsKinds now [] s h = h
keys_command-KeepsKinds now (pattern_text ∷ args) s h = h
