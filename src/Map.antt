-- ===== src/Map.antt =====
-- `std::unordered_map` with texts as keys: an association list. The program never iterates over such
-- a map, so the order of its entries is not modelled.
use mathlib.Core.Path.{subst}
use f.Prelude.{
  All, Bool-cases, inl, inr, ◌≡◌, refl, Option, none, some, List, [], ◌∷◌, if◌then◌else◌, arith,
}
use f.Bytes.{Bytes, equal, equal_iff}

abbrev pub Map : Type 0
Map = List (Bytes × Bytes)

module _ {ℓ} {V : Type ℓ} where
  -- `m.find(key)`
  unfoldable pub lookup : Bytes → List (Bytes × V) → Option V
  lookup key [] = none
  lookup key ((k, v) ∷ m) = if equal k key then some v else lookup key m

  -- `m[key] = value`
  unfoldable pub insert : Bytes → V → List (Bytes × V) → List (Bytes × V)
  insert key value [] = (key, value) ∷ []
  insert key value ((k, v) ∷ m) =
      if equal k key then (k, value) ∷ m else (k, v) ∷ insert key value m

  pub lookup-insert :
      (key j : Bytes) (value : V) (m : List (Bytes × V))
      → lookup j (insert key value m) ≡ (if equal key j then some value else lookup j m)
  unfolding lookup insert
  lookup-insert key j value [] = refl
  lookup-insert key j value ((k, v) ∷ m) =
      ground (arith, equal_iff key j, equal_iff k key, equal_iff k j, lookup-insert key j value m)

-- What holds of all entries holds of the one that is found.
pub lookup-All {ℓ κ} :
    {V : Type ℓ} (P : Bytes → V → Type κ) (key : Bytes) (m : List (Bytes × V)) {v : V}
    → All (λ e. P e.0 e.1) m
    → lookup key m ≡ some v
    → P key v
unfolding lookup
lookup-All P key [] h e = cc
lookup-All P key ((k, w) ∷ m) {v} (p, h) e = elim (Bool-cases (equal k key)) [
  | inl same ↦
      let found : w ≡ v = ground arith in
      subst (λ x. P key x) found (subst (λ x. P x w) ((equal_iff k key).0 same) p)
  | inr other ↦ lookup-All P key m h (rw other at e)
]

-- A sequence of such assignments, the first one first.
abbrev pub insert_all : List (Bytes × Bytes) → Map → Map
insert_all [] m = m
insert_all ((k, v) ∷ kvs) m = insert_all kvs (insert k v m)

-- The value of the last assignment to `key`, or what stood there before.
abbrev pub last_value : Bytes → List (Bytes × Bytes) → Option Bytes → Option Bytes
last_value key [] old = old
last_value key ((k, v) ∷ kvs) old = last_value key kvs (if equal k key then some v else old)

pub lookup-insert_all :
    (key : Bytes) (kvs : List (Bytes × Bytes)) (m : Map)
    → lookup key (insert_all kvs m) ≡ last_value key kvs (lookup key m)
lookup-insert_all key [] m = refl
lookup-insert_all key ((k, v) ∷ kvs) m =
    rw (← lookup-insert k key v m) (lookup-insert_all key kvs (insert k v m))
