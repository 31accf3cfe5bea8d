-- ===== src/Connection/Map/Laws.antt =====
-- Lookup in a map after a change.
use icetunnel.Prelude.{ℕ, ◌≡◌, refl, some, false, [], ◌∷◌, arith, ◌==◌, if◌then◌else◌}
use icetunnel.Connection.Map.{Map, find, insert, erase}

module _ {ℓ} {V : Type ℓ} where
  pub find-insert :
      (j k : ℕ) (v : V) (m : Map V) → find j (insert k v m) ≡ (if j == k then some v else find j m)
  find-insert j k v [] = refl
  find-insert j k v ((i, w) ∷ m) = ground (arith, find-insert j k v m)

  -- Other keys are not touched.
  pub find-erase_other : (j k : ℕ) (m : Map V) → (j == k) ≡ false → find j (erase k m) ≡ find j m
  find-erase_other j k [] ne = refl
  find-erase_other j k ((i, w) ∷ m) ne = ground (arith, find-erase_other j k m ne)
