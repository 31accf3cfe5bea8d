-- ===== src/Connection/Map.antt =====
-- The `std::map` with `int` keys that connection.cpp uses, as the list of its entries in the order
-- of the keys. Every key that is stored is a non-negative int.
pub mod Laws
use icetunnel.Prelude.{
  ℕ, Bool, true, false, ◌&&◌, Option, none, some, List, [], ◌∷◌, ltb, ◌==◌, if◌then◌else◌,
}

abbrev pub Map {ℓ} : Type ℓ → Type ℓ
Map V = List (ℕ × V)

module _ {ℓ} {V : Type ℓ} where
  -- `find`, which `count` is too.
  abbrev pub find : ℕ → Map V → Option V
  find k [] = none
  find k ((j, v) ∷ m) = if k == j then some v else find k m

  abbrev pub has : ℕ → Map V → Bool
  has k [] = false
  has k ((j, v) ∷ m) = if k == j then true else has k m

  -- `m[k] = v`.
  abbrev pub insert : ℕ → V → Map V → Map V
  insert k v [] = (k, v) ∷ []
  insert k v ((j, w) ∷ m) =
      let rest = insert k v m in
      if k == j then (k, v) ∷ m else if ltb k j then (k, v) ∷ (j, w) ∷ m else (j, w) ∷ rest

  abbrev pub erase : ℕ → Map V → Map V
  erase k [] = []
  erase k ((j, v) ∷ m) = let rest = erase k m in if k == j then m else (j, v) ∷ rest

  -- The entries up to the key `k` are dropped.
  abbrev pub erase_to : ℕ → Map V → Map V
  erase_to k [] = []
  erase_to k ((j, v) ∷ m) = let rest = erase_to k m in if ltb k j then (j, v) ∷ m else rest

  -- `lower_bound(k)` to `end()`.
  abbrev pub from_key : ℕ → Map V → Map V
  from_key k [] = []
  from_key k ((j, v) ∷ m) = let rest = from_key k m in if ltb j k then rest else (j, v) ∷ m

  abbrev pub is_empty : Map V → Bool
  is_empty [] = true
  is_empty (e ∷ m) = false
