-- ===== src/Packet/Detect.antt =====
-- What the table-driven CRC of packet.cpp detects: the table against the generator polynomial, and
-- a change of one byte.
use icetunnel.Prelude.{
  ℕ, zero, suc, ◌+◌, ◌≤◌, false, inl, inr, Bool-cases, ◌*◌, ◌/◌, ◌%◌, ◌^◌, ◌<◌, ◌≡◌, ◌≢◌, refl, sym,
  ap, ◌∙◌, Bool, true, List, [], ◌∷◌, ◌++◌, foldl, get_or, arith, ltb, ltb→lt, ◌==◌, ==_iff,
  if◌then◌else◌, bit_xor, All, All-append, foldl-append,
}
use icetunnel.Prelude.Xor.{xor-lt, xor_cancel, xor_comm, xor_low, xor_twice}
use icetunnel.Packet.Bytes.{IsByte}
use icetunnel.Packet.Crc.{table, crc_step, crc32}

abbrev entry : ℕ → ℕ
entry i = get_or table i 0

-- One bit of a long division by the polynomial 0x04C11DB7: the reference for the table.
pub shift_bit : ℕ → ℕ
shift_bit r = if r / 2 ^ 31 == 0 then r * 2 else bit_xor (r * 2 % 2 ^ 32) 0x04c1_1db7

pub shift_bits : ℕ → ℕ → ℕ
unfolding shift_bit
shift_bits zero r = r
shift_bits (suc n) r = shift_bits n (shift_bit r)

-- A test on each number from `start` on, for as many as there are rounds.
every_from : ℕ → ℕ → (ℕ → Bool) → Bool
every_from start zero test = true
every_from start (suc rounds) test =
    let rest = every_from (start + 1) rounds test in if test start then rest else false

every_from_lem :
    (rounds start i : ℕ) (test : ℕ → Bool)
    → start ≤ i
    → i < start + rounds
    → every_from start rounds test ≡ true
    → test i ≡ true
unfolding every_from
every_from_lem zero start i test lo hi ok = absurd (omega arith)
every_from_lem (suc rounds) start i test lo hi ok = elim (Bool-cases (i == start)) [
  | inl first ↦ rw ((==_iff i start).0 first) (ground (arith, ok))
  | inr later ↦
      every_from_lem rounds (start + 1) i test (ground (arith, lo, later)) (omega (arith, hi))
        (ground (arith, ok))
]

-- The same for the values of a byte.
byte_lem : (test : ℕ → Bool) → every_from 0 256 test ≡ true → (i : ℕ) → i < 256 → test i ≡ true
byte_lem test ok i h = every_from_lem 256 0 i test (omega arith) (omega arith) ok

table_check : every_from 0 256 (λ i. entry i == shift_bits 8 (i * 2 ^ 24)) ≡ true
unfolding every_from shift_bits table
table_check = refl

-- For each byte, its entry is the remainder of the byte, shifted in over eight divisions by the
-- polynomial.
pub table_lem : (i : ℕ) → i < 256 → get_or table i 0 ≡ shift_bits 8 (i * 2 ^ 24)
table_lem i h = (==_iff _ _).0 (byte_lem _ table_check i h)

bounds_check : every_from 0 256 (λ i. ltb (entry i) (2 ^ 32)) ≡ true
unfolding every_from table
bounds_check = refl

entry-lt : (i : ℕ) → i < 256 → entry i < 2 ^ 32
entry-lt i h = ltb→lt _ _ (byte_lem _ bounds_check i h)

-- The position of a low byte in the table.
find_low : List ℕ → ℕ → ℕ
find_low [] b = 0
find_low (t ∷ ts) b = let later = suc (find_low ts b) in if t % 256 == b then 0 else later

low_check : every_from 0 256 (λ i. find_low table (entry i % 256) == i) ≡ true
unfolding every_from find_low table
low_check = refl

entry_low : (i j : ℕ) → i < 256 → j < 256 → entry i % 256 ≡ entry j % 256 → i ≡ j
entry_low i j hi hj e =
    sym ((==_iff _ _).0 (byte_lem _ low_check i hi))
    ∙ ap (find_low table) e
    ∙ (==_iff _ _).0 (byte_lem _ low_check j hj)

abbrev position : ℕ → ℕ → ℕ
position crc byte = bit_xor byte (crc / 2 ^ 24 % 256)

position-lt : (crc byte : ℕ) → IsByte byte → position crc byte < 256
position-lt crc byte h = xor-lt 8 byte (crc / 2 ^ 24 % 256) h (omega arith)

-- The low byte of a round's result is that of the table entry; the rest of the entry is added to
-- the old value, shifted.
step_low : (crc byte : ℕ) → IsByte byte → crc_step crc byte % 256 ≡ entry (position crc byte) % 256
unfolding crc_step
step_low crc byte h =
    let shifted : crc * 256 % 2 ^ 32 ≡ crc % 2 ^ 24 * 256 = omega arith in
    ap (λ t. bit_xor (entry (position crc byte)) t % 256) shifted
    ∙ xor_low (entry (position crc byte)) (crc % 2 ^ 24)

pub crc_step-lt : (crc byte : ℕ) → IsByte byte → crc_step crc byte < 2 ^ 32
unfolding crc_step
crc_step-lt crc byte h =
    xor-lt 32 (entry (position crc byte)) (crc * 256 % 2 ^ 32) (entry-lt _ (position-lt crc byte h))
      (omega arith)

-- From the result of a round: the position in the table and the low three bytes of the old value.
step_inverse :
    (c d x y : ℕ)
    → IsByte x
    → IsByte y
    → crc_step c x ≡ crc_step d y
    → (position c x ≡ position d y) × (c * 256 % 2 ^ 32 ≡ d * 256 % 2 ^ 32)
unfolding crc_step
step_inverse c d x y hx hy e = (same, rest)
  where
    same : position c x ≡ position d y
    same =
        entry_low (position c x) (position d y) (position-lt c x hx) (position-lt d y hy)
          (sym (step_low c x hx) ∙ ap (λ (t : ℕ). t % 256) e ∙ step_low d y hy)

    rest : c * 256 % 2 ^ 32 ≡ d * 256 % 2 ^ 32
    rest =
        xor_cancel 32 (entry (position c x)) (c * 256 % 2 ^ 32) (d * 256 % 2 ^ 32) (omega arith)
          (omega arith) (e ∙ ap (λ i. bit_xor (entry i) (d * 256 % 2 ^ 32)) (sym same))

-- A round on one byte loses nothing of the old value.
step_injective_crc :
    (c d x : ℕ) → c < 2 ^ 32 → d < 2 ^ 32 → IsByte x → crc_step c x ≡ crc_step d x → c ≡ d
step_injective_crc c d x hc hd hx e =
    let (same, rest) = step_inverse c d x x hx hx e in
    let high =
      xor_cancel 8 x (c / 2 ^ 24 % 256) (d / 2 ^ 24 % 256) (omega arith) (omega arith) same in
    omega arith

-- Nor of the byte.
step_injective_byte : (c x y : ℕ) → IsByte x → IsByte y → crc_step c x ≡ crc_step c y → x ≡ y
step_injective_byte c x y hx hy e =
    let (same, rest) = step_inverse c c x y hx hy e in
    let h = c / 2 ^ 24 % 256 in
    xor_cancel 8 h x y hx hy
      (xor_comm 8 h x (omega arith) hx ∙ same ∙ xor_comm 8 y h hy (omega arith))

foldl-injective :
    (bytes : List ℕ) (c d : ℕ)
    → All IsByte bytes
    → c < 2 ^ 32
    → d < 2 ^ 32
    → foldl crc_step c bytes ≡ foldl crc_step d bytes
    → c ≡ d
foldl-injective [] c d hb hc hd e = e
foldl-injective (x ∷ bytes) c d (hx, hb) hc hd e = step_injective_crc c d x hc hd hx (
    foldl-injective bytes (crc_step c x) (crc_step d x) hb (crc_step-lt c x hx) (crc_step-lt d x hx)
      e)

foldl-lt :
    (bytes : List ℕ) (c : ℕ) → All IsByte bytes → c < 2 ^ 32 → foldl crc_step c bytes < 2 ^ 32
foldl-lt [] c hb hc = hc
foldl-lt (x ∷ bytes) c (hx, hb) hc = foldl-lt bytes (crc_step c x) hb (crc_step-lt c x hx)

pub crc32-lt :
    (bytes : List ℕ) (previous : ℕ)
    → All IsByte bytes
    → previous < 2 ^ 32
    → crc32 bytes previous < 2 ^ 32
unfolding crc32
crc32-lt bytes previous hb hp =
    xor-lt 32 _ 0xffff_ffff (foldl-lt bytes _ hb (xor-lt 32 previous 0xffff_ffff hp (omega arith)))
      (omega arith)

-- The two runs part at the changed byte and never meet again.
fold_changed :
    (pre post : List ℕ) (c x y : ℕ)
    → All IsByte pre
    → All IsByte post
    → IsByte x
    → IsByte y
    → c < 2 ^ 32
    → foldl crc_step c (pre ++ (x ∷ post)) ≡ foldl crc_step c (pre ++ (y ∷ post))
    → x ≡ y
fold_changed [] post c x y hpre hpost hx hy hc e = step_injective_byte c x y hx hy (
    foldl-injective post (crc_step c x) (crc_step c y) hpost (crc_step-lt c x hx)
      (crc_step-lt c y hy) e)
fold_changed (z ∷ pre) post c x y (hz, hpre) hpost hx hy hc e =
    fold_changed pre post (crc_step c z) x y hpre hpost hx hy (crc_step-lt c z hz) e

-- Changing one byte of a message of bytes, wherever it stands, changes its CRC, from any start
-- value of 32 bits.
pub crc32_changed :
    (pre post : List ℕ) (previous x y : ℕ)
    → All IsByte pre
    → All IsByte post
    → IsByte x
    → IsByte y
    → previous < 2 ^ 32
    → x ≢ y
    → crc32 (pre ++ (x ∷ post)) previous ≢ crc32 (pre ++ (y ∷ post)) previous
unfolding crc32
crc32_changed pre post previous x y hpre hpost hx hy hp ne e =
    ne (fold_changed pre post start x y hpre hpost hx hy start-lt folded)
  where
    start : ℕ
    start = bit_xor previous 0xffff_ffff

    start-lt : start < 2 ^ 32
    start-lt = xor-lt 32 previous 0xffff_ffff hp (omega arith)

    all_bytes : (b : ℕ) → IsByte b → All IsByte (pre ++ (b ∷ post))
    all_bytes b hb = All-append IsByte pre (b ∷ post) hpre (hb, hpost)

    run : ℕ → ℕ
    run b = foldl crc_step start (pre ++ (b ∷ post))

    run-lt : (b : ℕ) → IsByte b → run b < 2 ^ 32
    run-lt b hb = foldl-lt (pre ++ (b ∷ post)) start (all_bytes b hb) start-lt

    folded : run x ≡ run y
    folded = xor_cancel 32 0xffff_ffff (run x) (run y) (run-lt x hx) (run-lt y hy) (
        xor_comm 32 0xffff_ffff (run x) (omega arith) (run-lt x hx)
        ∙ e
        ∙ xor_comm 32 (run y) 0xffff_ffff (run-lt y hy) (omega arith))

-- A message of bytes may be fed in parts: the CRC of the first is the start value of the second.
pub crc32-append :
    (first second : List ℕ) (previous : ℕ)
    → All IsByte first
    → previous < 2 ^ 32
    → crc32 (first ++ second) previous ≡ crc32 second (crc32 first previous)
unfolding crc32
crc32-append first second previous hf hp =
    let start = bit_xor previous 0xffff_ffff in
    let middle = foldl crc_step start first in
    let small = foldl-lt first start hf (xor-lt 32 previous 0xffff_ffff hp (omega arith)) in
    rw
      (
        foldl-append crc_step start first second,
        xor_twice 32 middle 0xffff_ffff small (omega arith),
      )
      refl
