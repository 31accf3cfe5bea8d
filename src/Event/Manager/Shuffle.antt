-- ===== src/Event/Manager/Shuffle.antt =====
-- Shuffling loses no event and doubles none, whatever the random numbers are.
use mathlib.Core.List.{Perm, perm_middle, flatten}
use mathlib.Core.List.Perm
use icetunnel.Prelude.{
  ℕ, zero, suc, ◌+◌, ◌%◌, ◌<◌, ◌≡◌, refl, ap, subst, ◌∙◌, Bool, true, false, List, [], ◌∷◌, ◌++◌,
  append-nil, arith, length, length-replicate, replicate,
}
use icetunnel.Event.Manager.{add_to, place, shuffle_loop, shuffle}

add_to-perm : (front : Bool) (id : ℕ) (xs : List ℕ) → Perm (add_to front id xs) (id ∷ xs)
add_to-perm front id [] = Perm.refl _
add_to-perm true id (x ∷ xs) = Perm.refl _
add_to-perm false id (x ∷ xs) =
    subst (λ l. Perm (x ∷ xs ++ id ∷ []) (id ∷ l)) (append-nil (x ∷ xs)) (perm_middle (x ∷ xs) [])

place-perm :
    (slot : ℕ) (front : Bool) (id : ℕ) (slots : List (List ℕ))
    → slot < length slots
    → Perm (flatten (place slot front id slots)) (id ∷ flatten slots)
unfolding place flatten
place-perm slot front id [] h = absurd (omega arith)
place-perm zero front id (xs ∷ slots) h =
    Perm.append (add_to-perm front id xs) (Perm.refl (flatten slots))
place-perm (suc slot) front id (xs ∷ slots) h =
    Perm.trans (Perm.append (Perm.refl xs) (place-perm slot front id slots (omega arith)))
      (perm_middle xs (flatten slots))

length-place :
    (slot : ℕ) (front : Bool) (id : ℕ) (slots : List (List ℕ))
    → length (place slot front id slots) ≡ length slots
unfolding place
length-place slot front id [] = refl
length-place zero front id (xs ∷ slots) = refl
length-place (suc slot) front id (xs ∷ slots) = ap suc (length-place slot front id slots)

shuffle_loop-perm :
    (draws : ℕ → ℕ × Bool) (n count : ℕ) (ids : List ℕ) (slots : List (List ℕ))
    → 0 < count
    → length slots ≡ count
    → Perm (flatten (shuffle_loop draws n count ids slots)) (ids ++ flatten slots)
unfolding shuffle_loop
shuffle_loop-perm draws n count [] slots pos h = Perm.refl _
shuffle_loop-perm draws n count (id ∷ ids) slots pos h =
    let slot = (draws n).0 % count in
    let front = (draws n).1 in
    Perm.trans
      (shuffle_loop-perm draws (n + 1) count ids (place slot front id slots) pos
        (length-place slot front id slots ∙ h))
      (Perm.trans (Perm.append (Perm.refl ids) (place-perm slot front id slots (grind arith)))
        (perm_middle ids (flatten slots)))

flatten-replicate : (n : ℕ) → flatten {A = ℕ} (replicate n []) ≡ []
unfolding flatten
flatten-replicate zero = refl
flatten-replicate (suc n) = flatten-replicate n

-- The shuffled list is a permutation of the selected events.
pub shuffle-perm : (draws : ℕ → ℕ × Bool) (ids : List ℕ) → Perm (shuffle draws ids) ids
unfolding shuffle shuffle_loop flatten
shuffle-perm draws [] = Perm.refl _
shuffle-perm draws (id ∷ ids) =
    let all = id ∷ ids in
    let n = length all in
    subst (Perm (shuffle draws all)) (ap (λ l. all ++ l) (flatten-replicate n) ∙ append-nil all) (
      unfold shuffle in
      shuffle_loop-perm draws 0 n all (replicate n []) (omega arith) (length-replicate n []))
