-- ===== src/Address.antt =====
-- address.h and address.cpp: the operators of `Address`, which holds the bytes that the system uses
-- for a socket address. Parsing and printing are calls of the system (address.linux.cpp).
pub mod Order
use icetunnel.Prelude.{
  ℕ, ◌+◌, Bool, true, false, not, ◌&&◌, ◌||◌, List, [], ◌∷◌, ltb, ◌==◌, if◌then◌else◌, length,
}

abbrev pub Address : Type 0
Address = List ℕ

-- `memcmp(a, b, size) < 0` and `== 0`, over bytes of one size.
unfoldable pub bytes_before : List ℕ → List ℕ → Bool
bytes_before [] ys = false
bytes_before (x ∷ xs) [] = false
bytes_before (x ∷ xs) (y ∷ ys) =
    let rest = bytes_before xs ys in if ltb x y then true else if ltb y x then false else rest

unfoldable pub bytes_equal : List ℕ → List ℕ → Bool
bytes_equal [] [] = true
bytes_equal [] (y ∷ ys) = false
bytes_equal (x ∷ xs) [] = false
bytes_equal (x ∷ xs) (y ∷ ys) = let rest = bytes_equal xs ys in if x == y then rest else false

abbrev pub is_empty : Address → Bool
is_empty [] = true
is_empty (x ∷ xs) = false

-- `operator<`: the size decides first.
unfoldable pub before : Address → Address → Bool
unfolding bytes_before
before a b =
    if ltb (length a) (length b)
    then true
    else if ltb (length b) (length a)
    then false
    else if is_empty a
    then false
    else bytes_before a b

-- `operator==`.
unfoldable pub same : Address → Address → Bool
unfolding bytes_equal
same a b =
    if not (length a == length b) then false else if is_empty a then true else bytes_equal a b
