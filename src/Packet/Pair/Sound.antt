-- ===== src/Packet/Pair/Sound.antt =====
-- `unpackIntPair` on any bytes, well formed or not.
use icetunnel.Prelude.{
  ℕ, ◌+◌, ◌*◌, ◌%◌, ◌^◌, ◌≤◌, ◌<◌, ◌≡◌, some, List, [], ◌∷◌, ◌++◌, arith, length, is_neg, true,
  Option-cases, inl, inr,
}
use icetunnel.Packet.Pair.{unpack_loop, unpack_int_pair}

-- What a loop has read when it succeeds at round `i`: a 32-bit word, from one to 6 - i bytes.
unpack_loop_takes :
    (bytes : List ℕ) (i a v : ℕ) (rest : List ℕ)
    → i ≤ 5
    → unpack_loop i a bytes ≡ some (v, rest)
    → (v < 2 ^ 32) × (length rest < length bytes) × (length bytes + i ≤ length rest + 6)
unfolding unpack_loop
unpack_loop_takes [] i a v rest h e = cc
unpack_loop_takes (c ∷ bytes) i a v rest h e =
    ground (arith, unpack_loop_takes bytes (i + 1) (a * 128 % 2 ^ 32 + c % 128) v rest)

-- A loop does not look past the number.
unpack_loop-append :
    (bytes more : List ℕ) (i a v : ℕ) (rest : List ℕ)
    → unpack_loop i a bytes ≡ some (v, rest)
    → unpack_loop i a (bytes ++ more) ≡ some (v, rest ++ more)
unfolding unpack_loop
unpack_loop-append [] more i a v rest e = cc
unpack_loop-append (c ∷ bytes) more i a v rest e =
    ground (arith, unpack_loop-append bytes more (i + 1) (a * 128 % 2 ^ 32 + c % 128) v rest)

-- Whatever the bytes are, a success takes 2 to 12 of them and gives two 32-bit words; so a reader
-- that calls it again and again comes to an end.
pub unpack_int_pair_takes :
    (bytes : List ℕ) (a b : ℕ) (rest : List ℕ)
    → unpack_int_pair bytes ≡ some (a, b, rest)
    → (a < 2 ^ 32)
      × (b < 2 ^ 32)
      × (length rest + 2 ≤ length bytes)
      × (length bytes ≤ length rest + 12)
unfolding unpack_int_pair
unpack_int_pair_takes bytes a b rest e = elim (Option-cases (unpack_loop 0 0 bytes)) [
  | inl no_a ↦ absurd (ground arith)
  | inr ((v, rest'), got_a) ↦ elim (Option-cases (unpack_loop 0 0 rest')) [
    | inl no_b ↦ absurd (ground arith)
    | inr ((w, rest''), got_b) ↦
        let first = unpack_loop_takes bytes 0 0 v rest' (omega arith) got_a in
        let second = unpack_loop_takes rest' 0 0 w rest'' (omega arith) got_b in ground arith
  ]
]

-- Numbers that do not fit an `int` are not refused: five bytes whose first group is from 8 to 15
-- give a negative first number, when a single byte for the second follows.
pub unpack_negative :
    (top c d f e : ℕ) (b : ℕ) (rest : List ℕ)
    → 8 ≤ top
    → top < 16
    → c < 128
    → d < 128
    → f < 128
    → e < 128
    → b < 128
    → (a : ℕ) × (unpack_int_pair ((top + 128) ∷ (c + 128) ∷ (d + 128) ∷ (f + 128) ∷ e ∷ b ∷ rest)
        ≡ some (a, b, rest))
      × (is_neg a ≡ true)
unfolding unpack_int_pair unpack_loop
unpack_negative top c d f e b rest lo hi hc hd hf he hb =
    ((((top * 128 + c) * 128 + d) * 128 + f) * 128 + e, ground arith, ground arith)
