-- ===== src/Address/Order.antt =====
-- The operators of `Address` are what a `std::map` asks of its keys.
use icetunnel.Prelude.{
  ℕ, ◌≡◌, refl, ap₂, subst, ◌↔◌, inl, inr, true, false, not, ◌||◌, List, [], ◌∷◌, arith, ltb, ◌==◌,
  ==_iff, if◌then◌else◌, length, Bool-cases,
}
use icetunnel.Address.{Address, bytes_before, bytes_equal, before, same}

bytes_equal_sound : (xs ys : List ℕ) → bytes_equal xs ys ≡ true → xs ≡ ys
unfolding bytes_equal
bytes_equal_sound [] [] e = refl
bytes_equal_sound [] (y ∷ ys) e = cc
bytes_equal_sound (x ∷ xs) [] e = cc
bytes_equal_sound (x ∷ xs) (y ∷ ys) e = elim (Bool-cases (x == y)) [
  | inl h ↦ ap₂ (◌∷◌) ((==_iff x y).0 h) (bytes_equal_sound xs ys (ground (arith, e, h)))
  | inr h ↦ absurd (ground (arith, e, h))
]

bytes_equal_refl : (xs : List ℕ) → bytes_equal xs xs ≡ true
unfolding bytes_equal
bytes_equal_refl [] = refl
bytes_equal_refl (x ∷ xs) = ground (arith, bytes_equal_refl xs)

bytes_before_refl : (xs : List ℕ) → bytes_before xs xs ≡ false
unfolding bytes_before
bytes_before_refl [] = refl
bytes_before_refl (x ∷ xs) = ground (arith, bytes_before_refl xs)

bytes_before_trans :
    (xs ys zs : List ℕ)
    → bytes_before xs ys ≡ true
    → bytes_before ys zs ≡ true
    → bytes_before xs zs ≡ true
unfolding bytes_before
bytes_before_trans [] ys zs h g = cc
bytes_before_trans (x ∷ xs) [] zs h g = cc
bytes_before_trans (x ∷ xs) (y ∷ ys) [] h g = cc
bytes_before_trans (x ∷ xs) (y ∷ ys) (z ∷ zs) h g = ground (arith, bytes_before_trans xs ys zs)

-- Bytes of one size are equal, or one comes before the other.
bytes_before_total :
    (xs ys : List ℕ)
    → length xs ≡ length ys
    → (bytes_before xs ys || bytes_before ys xs) ≡ not (bytes_equal xs ys)
unfolding bytes_before bytes_equal
bytes_before_total [] [] e = refl
bytes_before_total [] (y ∷ ys) e = absurd (omega arith)
bytes_before_total (x ∷ xs) [] e = absurd (omega arith)
bytes_before_total (x ∷ xs) (y ∷ ys) e = ground (arith, bytes_before_total xs ys (omega arith))

same_refl : (a : Address) → same a a ≡ true
unfolding same
same_refl [] = refl
same_refl (x ∷ xs) = ground (arith, bytes_equal_refl (x ∷ xs))

same_iff : (a b : Address) → (same a b ≡ true) ↔ (a ≡ b)
unfolding same
same_iff [] [] = (λ e. refl, λ e. refl)
same_iff [] (y ∷ ys) = (λ e. absurd (ground (arith, e)), λ e. absurd (cc e))
same_iff (x ∷ xs) [] = (λ e. absurd (ground (arith, e)), λ e. absurd (cc e))
same_iff (x ∷ xs) (y ∷ ys) = (
  λ e. bytes_equal_sound (x ∷ xs) (y ∷ ys) (ground (arith, e)),
  λ e. subst (λ (b : Address). same (x ∷ xs) b ≡ true) e (same_refl (x ∷ xs)),
)

-- The empty address is no special case of `operator<`.
before_steps :
    (a b : Address)
    → before a b ≡ (
        if ltb (length a) (length b)
        then true
        else if ltb (length b) (length a)
        then false
        else bytes_before a b)
unfolding before bytes_before
before_steps [] b = ground arith
before_steps (x ∷ xs) b = refl

same_steps : (a b : Address) → same a b ≡ (if length a == length b then bytes_equal a b else false)
unfolding same bytes_equal
same_steps [] [] = refl
same_steps [] (y ∷ ys) = ground arith
same_steps (x ∷ xs) b = ground arith

-- `operator<` is a strict order.
pub before_order :
    (a b c : Address)
    → (before a a ≡ false) × (before a b ≡ true → before b c ≡ true → before a c ≡ true)
before_order a b c = (
  ground (arith, before_steps a a, bytes_before_refl a),
  λ h g.
      ground
        (arith, before_steps a b, before_steps b c, before_steps a c, bytes_before_trans a b c),
)

-- `operator==` tells whether two addresses are the same bytes, and of two addresses that differ
-- `operator<` puts one before the other.
pub before_total :
    (a b : Address) → ((same a b ≡ true) ↔ (a ≡ b)) × ((before a b || before b a) ≡ not (same a b))
before_total a b = (
  same_iff a b,
  ground (arith, before_steps a b, before_steps b a, same_steps a b, bytes_before_total a b),
)
