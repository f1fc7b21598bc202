-- ===== src/Js/Map.antt =====
-- JavaScript's `Map` with string keys, as its entries in the order of insertion: a key that is set
-- again keeps its place.
use diy_redis.Base.{
  ap, ◌+◌, ◌≡◌, refl, Bool, true, false, ◌||◌, Option, none, some, List, [], ◌∷◌, arith,
  if◌then◌else◌, Bool-cases, inl, inr, length,
}
use diy_redis.Js.Text.{Text, str_eq, str_eq_iff, str_eq→eq}

abbrev pub Map {ℓ} : Type ℓ → Type ℓ
Map V = List (Text × V)

abbrev pub has_value {ℓ} : {A : Type ℓ} → Option A → Bool
has_value none = false
has_value (some a) = true

-- `list.includes(t)`
unfoldable pub includes : Text → List Text → Bool
includes t [] = false
includes t (u ∷ us) = str_eq u t || includes t us

-- No key twice.
abbrev pub Distinct : List Text → Type 0
Distinct [] = Unit {0}
Distinct (t ∷ ts) = (includes t ts ≡ false) × Distinct ts

module _ {ℓ} {V : Type ℓ} where
  -- map.get(k)
  unfoldable pub lookup : Text → Map V → Option V
  lookup k [] = none
  lookup k ((j, v) ∷ m) = if str_eq j k then some v else lookup k m

  -- map.set(k, v)
  unfoldable pub insert : Text → V → Map V → Map V
  insert k v [] = (k, v) ∷ []
  insert k v ((j, w) ∷ m) = if str_eq j k then (j, v) ∷ m else (j, w) ∷ insert k v m

  -- map.delete(k), its change
  unfoldable pub remove : Text → Map V → Map V
  remove k [] = []
  remove k ((j, w) ∷ m) = let rest = remove k m in if str_eq j k then rest else (j, w) ∷ rest

  -- Array.from(map.keys())
  unfoldable pub keys : Map V → List Text
  keys [] = []
  keys ((j, w) ∷ m) = j ∷ keys m

  pub lookup-insert :
      (k j : Text) (v : V) (m : Map V)
      → lookup j (insert k v m) ≡ (if str_eq k j then some v else lookup j m)
  unfolding lookup insert
  lookup-insert k j v [] = refl
  lookup-insert k j v ((i, w) ∷ m) =
      ground (arith, str_eq_iff k j, str_eq_iff i k, str_eq_iff i j, lookup-insert k j v m)

  pub lookup-remove :
      (k j : Text) (m : Map V) → lookup j (remove k m) ≡ (if str_eq k j then none else lookup j m)
  unfolding lookup remove
  lookup-remove k j [] = ground arith
  lookup-remove k j ((i, w) ∷ m) =
      ground (arith, str_eq_iff k j, str_eq_iff i k, str_eq_iff i j, lookup-remove k j m)

  pub includes-keys : (k : Text) (m : Map V) → includes k (keys m) ≡ has_value (lookup k m)
  unfolding includes keys lookup
  includes-keys k [] = refl
  includes-keys k ((j, w) ∷ m) = ground (arith, includes-keys k m)

  pub Distinct-insert :
      (k : Text) (v : V) (m : Map V) → Distinct (keys m) → Distinct (keys (insert k v m))
  unfolding keys insert includes
  Distinct-insert k v [] h = (refl, tt)
  Distinct-insert k v ((j, w) ∷ m) h = elim (Bool-cases (str_eq j k)) [
    | inl same ↦ rw same h
    | inr other ↦ rw other (
      ground (
        arith,
        includes-keys j (insert k v m),
        includes-keys j m,
        lookup-insert k j v m,
        str_eq_iff k j,
        str_eq_iff j k,
      ),
      Distinct-insert k v m h.1,
    )
  ]

  pub Distinct-remove : (k : Text) (m : Map V) → Distinct (keys m) → Distinct (keys (remove k m))
  unfolding keys remove includes
  Distinct-remove k [] h = tt
  Distinct-remove k ((j, w) ∷ m) h = elim (Bool-cases (str_eq j k)) [
    | inl same ↦ rw same (Distinct-remove k m h.1)
    | inr other ↦ rw other (
      ground (arith, includes-keys j (remove k m), includes-keys j m, lookup-remove k j m),
      Distinct-remove k m h.1,
    )
  ]

module _ {ℓ} {V : Type ℓ} where
  remove_absent : (k : Text) (m : Map V) → lookup k m ≡ none → remove k m ≡ m
  unfolding lookup remove
  remove_absent k [] h = refl
  remove_absent k ((j, w) ∷ m) h = elim (Bool-cases (str_eq j k)) [
    | inl same ↦ ground (arith, same)
    | inr other ↦ rw other (ap (λ r. (j, w) ∷ r) (remove_absent k m (rw other at h)))
  ]

  not_included : (k : Text) (m : Map V) → includes k (keys m) ≡ false → lookup k m ≡ none
  not_included k m h = ground (arith, includes-keys k m)

  -- Deleting takes one key away, if the key is there.
  pub length-remove :
      (k : Text) (m : Map V)
      → Distinct (keys m)
      → length (keys (remove k m)) + (if has_value (lookup k m) then 1 else 0) ≡ length (keys m)
  unfolding lookup remove keys
  length-remove k [] h = refl
  length-remove k ((j, w) ∷ m) h = elim (Bool-cases (str_eq j k)) [
    | inl same ↦
        rw (same, remove_absent k m (not_included k m (rw (str_eq→eq j k same) at h.0)))
          (omega arith)
    | inr other ↦ rw other (omega (arith, length-remove k m h.1))
  ]
