-- ===== src/Packet/Pair/RoundTrip.antt =====
-- `unpackIntPair` reads back what `packIntPair` wrote.
use native.Mathlib.Nat.{
  pow-suc, one-le-pow, div-div-eq-div-mul, div-lt_iff_lt-mul, pow-le-pow_right, le_trans,
  div-le_self,
}
use native.Mathlib.Numerals.{towards_suc}
use icetunnel.Prelude.{
  ℕ, zero, suc, ◌+◌, ◌-◌, ◌*◌, ◌/◌, ◌%◌, ◌^◌, ◌≤◌, ◌<◌, ◌≡◌, refl, ap, ◌∙◌, inl, inr, ◌&&◌, some,
  List, ◌∷◌, ◌++◌, append_assoc, arith, ltb, ◌==◌, Bool-cases, length, length-append, All,
  All-append,
}
use icetunnel.Packet.Bytes.{IsByte}
use icetunnel.Packet.Pair.{
  bits_loop, bytes_count, groups, pack_int_pair, unpack_loop, unpack_int_pair,
}

-- Below 2 ^ (k + 1), with bit k clear.
high_bit_clear : (k a : ℕ) → a < 2 ^ suc k → a / 2 ^ k % 2 ≡ 0 → a < 2 ^ k
high_bit_clear k a fits even =
    let positive : 0 < 2 ^ k = one-le-pow k 2 (omega arith) in
    let half : a / 2 ^ k < 2 = (div-lt_iff_lt-mul positive).1 (omega (arith, pow-suc 2 k)) in
    let none_left : a / 2 ^ k < 1 = omega arith in
    omega (arith, (div-lt_iff_lt-mul {k = 2 ^ k} {x = a} {y = 1} positive).0 none_left)

-- The search for the highest bit stops between 7 and its start, above every bit of the number.
bits_loop_bounds :
    (k a : ℕ)
    → 7 ≤ k
    → a < 2 ^ k
    → (7 ≤ bits_loop k a) × (bits_loop k a ≤ k) × (a < 2 ^ bits_loop k a)
unfolding bits_loop
bits_loop_bounds zero a h fits = absurd (omega arith)
bits_loop_bounds (suc k) a h fits = elim (Bool-cases (ltb 7 (suc k) && (a / 2 ^ k % 2 == 0))) [
  | inl clear ↦
      let low = high_bit_clear k a fits (ground arith) in
      let (lo, hi, all) = bits_loop_bounds k a (ground arith) low in rw clear (lo, omega arith, all)
  | inr set ↦ rw set (h, omega arith, fits)
]

-- A number below 2 ^ bits fits (bits - 1) / 7 + 1 groups.
round_up :
    (bits a : ℕ)
    → 7 ≤ bits
    → bits ≤ 31
    → a < 2 ^ bits
    → (1 ≤ (bits - 1) / 7 + 1) × ((bits - 1) / 7 + 1 ≤ 5) × (a < 2 ^ (((bits - 1) / 7 + 1) * 7))
round_up bits a lo hi fits =
    (omega arith, omega arith, le_trans fits (pow-le-pow_right (omega arith) (omega arith)))

bits_loop_skip : (k a : ℕ) → 7 ≤ k → a < 2 ^ k → bits_loop (suc k) a ≡ bits_loop k a
unfolding bits_loop
bits_loop_skip k a h fits =
    let zero_high : a / 2 ^ k < 1 =
      (div-lt_iff_lt-mul (one-le-pow k 2 (omega arith))).1 (omega arith) in
    ground arith

bytes_count_lem : (a : ℕ) → bytes_count a ≡ (bits_loop 32 a - 1) / 7 + 1
unfolding bytes_count
bytes_count_lem a = refl

-- The groups of an int hold all of its bits, in at most five bytes.
bytes_count_bounds :
    (a : ℕ) → a < 2 ^ 31 → (1 ≤ bytes_count a) × (bytes_count a ≤ 5) × (a < 2 ^ (bytes_count a * 7))
bytes_count_bounds a h =
    let (lo, hi, fits) = bits_loop_bounds 31 a (omega arith) h in
    rw (bytes_count_lem a, bits_loop_skip 31 a (omega arith) h)
      (round_up (bits_loop 31 a) a lo hi fits)

-- One more group: the number read so far moves up by seven bits.
next_group : (a i : ℕ) → a / 2 ^ (suc i * 7) * 128 + a / 2 ^ (i * 7) % 128 ≡ a / 2 ^ (i * 7)
next_group a i =
    let seven : suc i * 7 ≡ i * 7 + 7 = omega arith in
    let power : 2 ^ (i * 7 + 7) ≡ 2 ^ (i * 7) * 128 = simp towards_suc (omega arith) in
    rw (seven, power, ← div-div-eq-div-mul a (2 ^ (i * 7)) 128) (omega arith)

more_groups :
    (n a : ℕ) (rest : List ℕ)
    → groups (suc (suc n)) a ++ rest
      ≡ (a / 2 ^ (suc n * 7) % 128 + 128) ∷ (groups (suc n) a ++ rest)
unfolding groups
more_groups n a rest = ground arith

last_byte :
    (i acc g : ℕ) (rest : List ℕ)
    → g < 128
    → acc * 128 < 2 ^ 32
    → unpack_loop i acc (g ∷ rest) ≡ some (acc * 128 + g, rest)
unfolding unpack_loop
last_byte i acc g rest small fits = ground arith

inner_byte :
    (i acc g : ℕ) (rest : List ℕ)
    → g < 128
    → acc * 128 + g < 2 ^ 31
    → i < 5
    → unpack_loop i acc ((g + 128) ∷ rest) ≡ unpack_loop (i + 1) (acc * 128 + g) rest
unfolding unpack_loop
inner_byte i acc g rest small fits early = ground arith

-- From the groups still to come, `n + 1` of them, the loop reads the number.
unpack_groups :
    (n i a acc : ℕ) (rest : List ℕ)
    → a < 2 ^ 31
    → acc ≡ a / 2 ^ (suc n * 7)
    → i + n ≤ 4
    → unpack_loop i acc (groups (suc n) a ++ rest) ≡ some (a, rest)
unpack_groups zero i a acc rest small e h =
    unfold groups in ground (arith, last_byte i acc (a % 128) rest)
unpack_groups (suc n) i a acc rest small e h =
    let g = a / 2 ^ (suc n * 7) % 128 in
    let sum = next_group a (suc n) in
    let below = div-le_self a (2 ^ (suc n * 7)) in
    ap (unpack_loop i acc) (more_groups n a rest)
    ∙ inner_byte i acc g (groups (suc n) a ++ rest) (omega arith) (omega arith) (omega arith)
    ∙ unpack_groups n (i + 1) a (acc * 128 + g) rest small (omega arith) (omega arith)

-- A number of at least one group, all of it in the groups.
unpack_number :
    (n a : ℕ) (rest : List ℕ)
    → a < 2 ^ 31
    → 1 ≤ n
    → n ≤ 5
    → a < 2 ^ (n * 7)
    → unpack_loop 0 0 (groups n a ++ rest) ≡ some (a, rest)
unpack_number zero a rest small lo hi fits = absurd (omega arith)
unpack_number (suc n) a rest small lo hi fits =
    let nothing : a / 2 ^ (suc n * 7) < 1 =
      (div-lt_iff_lt-mul (one-le-pow (suc n * 7) 2 (omega arith))).1 (omega arith) in
    unpack_groups n 0 a 0 rest small (omega arith) (omega arith)

length-groups : (n a : ℕ) → length (groups n a) ≡ n
unfolding groups
length-groups zero a = refl
length-groups (suc n) a = ap suc (length-groups n a)

groups-IsByte : (n a : ℕ) → All IsByte (groups n a)
unfolding groups
groups-IsByte zero a = tt
groups-IsByte (suc n) a = (ground arith, groups-IsByte n a)

pair_parts :
    (a b : ℕ) (rest : List ℕ)
    → a < 2 ^ 31
    → b < 2 ^ 31
    → unpack_int_pair (groups (bytes_count a) a ++ (groups (bytes_count b) b ++ rest))
      ≡ some (a, b, rest)
unfolding unpack_int_pair
pair_parts a b rest ha hb =
    let (la, ua, fa) = bytes_count_bounds a ha in
    let (lb, ub, fb) = bytes_count_bounds b hb in
    let tail = groups (bytes_count b) b ++ rest in
    ground (
      arith,
      unpack_number (bytes_count a) a tail ha la ua fa,
      unpack_number (bytes_count b) b rest hb lb ub fb,
    )

-- With room for the ten bytes that two ints take at most, a pair of ints that are not negative is
-- written, in bytes, the room left is what they leave, and reading gives the two ints and whatever
-- follows them.
pub unpack-pack :
    (a b size : ℕ) (rest : List ℕ)
    → a < 2 ^ 31
    → b < 2 ^ 31
    → 10 ≤ size
    → (written : List ℕ) × (left : ℕ) × (pack_int_pair a b size ≡ some (written, left))
      × (length written + left ≡ size)
      × (2 ≤ length written)
      × All IsByte written
      × (unpack_int_pair (written ++ rest) ≡ some (a, b, rest))
unfolding pack_int_pair
unpack-pack a b size rest ha hb room =
    let (la, ua, fa) = bytes_count_bounds a ha in
    let (lb, ub, fb) = bytes_count_bounds b hb in
    let ga = groups (bytes_count a) a in
    let gb = groups (bytes_count b) b in
    let count : length (ga ++ gb) ≡ bytes_count a + bytes_count b = omega (
      arith,
      length-append ga gb,
      length-groups (bytes_count a) a,
      length-groups (bytes_count b) b,
    ) in
    (
      ga ++ gb,
      size - (bytes_count a + bytes_count b),
      ground arith,
      omega (arith, count),
      omega (arith, count),
      All-append IsByte ga gb (groups-IsByte (bytes_count a) a) (groups-IsByte (bytes_count b) b),
      ap unpack_int_pair (append_assoc ga gb rest) ∙ pair_parts a b rest ha hb,
    )
