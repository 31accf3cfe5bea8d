-- ===== src/Packet/Pair.antt =====
-- packet.cpp, `packIntPair` and `unpackIntPair`: two ints in groups of seven bits, highest group
-- first, with the top bit set on every byte but the last of a number.
pub mod RoundTrip
pub mod Sound
use icetunnel.Prelude.{
  ℕ, zero, suc, ◌+◌, ◌-◌, ◌*◌, ◌/◌, ◌%◌, ◌^◌, ◌&&◌, ◌||◌, Option, none, some, List, [], ◌∷◌, ◌++◌,
  ltb, leb, ◌==◌, if◌then◌else◌, is_neg,
}

-- `while(bits > 7 && (a & (1 << (bits-1))) == 0) --bits`.
pub bits_loop : ℕ → ℕ → ℕ
bits_loop zero a = 0
bits_loop (suc k) a = if ltb 7 (suc k) && (a / 2 ^ k % 2 == 0) then bits_loop k a else suc k

-- `bytesA`, `bytesB`: sizeof(int) is 4, so the search starts at 32 bits.
pub bytes_count : ℕ → ℕ
unfolding bits_loop
bytes_count a = (bits_loop 32 a - 1) / 7 + 1

-- `for(int i = bytes - 1; i >= 0; --i) *c = (0x7f & (a >> (i*7))) | (i ? 0x80 : 0)`; the two halves
-- of the `|` have no common bit, so it is a sum.
pub groups : ℕ → ℕ → List ℕ
groups zero a = []
groups (suc i) a = (a / 2 ^ (i * 7) % 128 + (if i == 0 then 0 else 128)) ∷ groups i a

-- The bytes written and the room left of `size`; `none` is the result false. The two ints are
-- 32-bit patterns.
unfoldable pub pack_int_pair : ℕ → ℕ → ℕ → Option (List ℕ × ℕ)
pack_int_pair a b size =
    if is_neg a || is_neg b
    then none
    else if ltb size (bytes_count a + bytes_count b)
    then none
    else some (
      groups (bytes_count a) a ++ groups (bytes_count b) b,
      size - (bytes_count a + bytes_count b),
    )

-- One of the two loops of `unpackIntPair`, at round `i`, with the number read so far. `a << 7`
-- drops the bits that leave the word.
unfoldable pub unpack_loop : ℕ → ℕ → List ℕ → Option (ℕ × List ℕ)
unpack_loop i a [] = none
unpack_loop i a (c ∷ rest) =
    let a' = a * 128 % 2 ^ 32 + c % 128 in
    let more = unpack_loop (i + 1) a' rest in
    if c / 128 % 2 == 0 then some (a', rest) else if is_neg a' || leb 5 i then none else more

-- `unpackIntPair`: the two numbers and the bytes behind them; `none` is the result false, which
-- leaves `data` and `size` as they were.
unfoldable pub unpack_int_pair : List ℕ → Option (ℕ × ℕ × List ℕ)
unpack_int_pair bytes = elim (unpack_loop 0 0 bytes) [
  | none ↦ none
  | some (a, rest) ↦ elim (unpack_loop 0 0 rest) [
    | none ↦ none
    | some (b, rest') ↦ some (a, b, rest')
  ]
]
