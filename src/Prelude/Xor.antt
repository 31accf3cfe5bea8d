-- ===== src/Prelude/Xor.antt =====
-- Laws of the native `bit_xor`, at every width. The library gives its meaning by its binary
-- digits.
use Prim.Native.Nat.{digits, bit_xor-bitwise, differ}
use native.Mathlib.Nat.{pow-suc}
use icetunnel.Prelude.{
  ℕ, zero, suc, ◌+◌, ◌*◌, ◌/◌, ◌%◌, ◌^◌, ◌≤◌, ◌<◌, bit_xor, ◌≡◌, refl, sym, ap, ◌∙◌, inl, inr, ◌⊎◌,
  ◌-◌, arith,
}

abbrev xor_digits : ℕ → ℕ → ℕ → ℕ
xor_digits rounds a b = digits (λ y. y) differ rounds a b

-- One round more than the number does not change the sum of the digits.
round_more : (rounds a b : ℕ) → a ≤ rounds → xor_digits rounds a b ≡ xor_digits (suc rounds) a b
round_more zero (suc a) b h = absurd (omega arith)
round_more zero zero b h = refl
round_more (suc rounds) zero b h = refl
round_more (suc rounds) (suc a) b h =
    let half = round_more rounds (suc a / 2) (b / 2) (omega arith) in
    ap (λ (t : ℕ). t * 2 + differ (suc a % 2) (b % 2)) half

rounds_to : (spare rounds a b : ℕ) → rounds ≡ a + spare → xor_digits rounds a b ≡ xor_digits a a b
rounds_to zero rounds a b e = ap (λ (m : ℕ). xor_digits m a b) (omega (arith, e))
rounds_to (suc spare) zero a b e = absurd (omega (arith, e))
rounds_to (suc spare) (suc rounds) a b e =
    sym (round_more rounds a b (omega (arith, e))) ∙ rounds_to spare rounds a b (omega (arith, e))

pub zero-bit_xor : (b : ℕ) → bit_xor 0 b ≡ b
zero-bit_xor b = bit_xor-bitwise 0 b

abbrev IsBit : ℕ → Type 0
IsBit x = (x ≡ 0) ⊎ (x ≡ 1)

mod-IsBit : (a : ℕ) → IsBit (a % 2)
mod-IsBit a = grind arith

differ_sum : (x y : ℕ) → IsBit x → IsBit y → differ x y ≡ (x + y) % 2
differ_sum x y (inl p) (inl q) = rw (p, q) refl
differ_sum x y (inl p) (inr q) = rw (p, q) refl
differ_sum x y (inr p) (inl q) = rw (p, q) refl
differ_sum x y (inr p) (inr q) = rw (p, q) refl

-- The lowest digit, and the rest.
pub xor_step : (a b : ℕ) → bit_xor a b ≡ bit_xor (a / 2) (b / 2) * 2 + (a + b) % 2
xor_step zero b = omega (arith, zero-bit_xor b, zero-bit_xor (b / 2))
xor_step (suc a) b =
    let half = suc a / 2 in
    let bits = differ_sum (suc a % 2) (b % 2) (mod-IsBit (suc a)) (mod-IsBit b) in
    let rest : xor_digits a half (b / 2) ≡ bit_xor half (b / 2) =
      rounds_to (a - half) a half (b / 2) (omega arith) ∙ sym (bit_xor-bitwise half (b / 2)) in
    bit_xor-bitwise (suc a) b
    ∙ ap (λ (t : ℕ). t * 2 + differ (suc a % 2) (b % 2)) rest
    ∙ omega (arith, bits)

pub xor-lt : (w a b : ℕ) → a < 2 ^ w → b < 2 ^ w → bit_xor a b < 2 ^ w
xor-lt zero a b ha hb = ground (arith, zero-bit_xor b)
xor-lt (suc w) a b ha hb = omega (
  arith,
  xor_step a b,
  pow-suc 2 w,
  xor-lt w (a / 2) (b / 2) (omega (arith, pow-suc 2 w)) (omega (arith, pow-suc 2 w)),
)

pub xor_cancel : (w a b c : ℕ) → b < 2 ^ w → c < 2 ^ w → bit_xor a b ≡ bit_xor a c → b ≡ c
xor_cancel zero a b c hb hc e = omega arith
xor_cancel (suc w) a b c hb hc e = omega (
  arith,
  xor_step a b,
  xor_step a c,
  xor_cancel w (a / 2) (b / 2) (c / 2) (omega (arith, pow-suc 2 w)) (omega (arith, pow-suc 2 w))
      (omega (arith, xor_step a b, xor_step a c)),
)

pub xor_comm : (w a b : ℕ) → a < 2 ^ w → b < 2 ^ w → bit_xor a b ≡ bit_xor b a
xor_comm zero a b ha hb =
    let ea : a ≡ 0 = omega arith in let eb : b ≡ 0 = omega arith in rw (ea, eb)
xor_comm (suc w) a b ha hb = omega (
  arith,
  xor_step a b,
  xor_step b a,
  xor_comm w (a / 2) (b / 2) (omega (arith, pow-suc 2 w)) (omega (arith, pow-suc 2 w)),
)

field_pow_suc : (k high : ℕ) → high * 2 ^ suc k ≡ (high * 2 ^ k) * 2
field_pow_suc k high = let twice = pow-suc 2 k in rw twice (grind arith)

-- High and low fields do not mix.
pub xor_fields :
    (k p q r s : ℕ)
    → r < 2 ^ k
    → s < 2 ^ k
    → bit_xor (p * 2 ^ k + r) (q * 2 ^ k + s) ≡ bit_xor p q * 2 ^ k + bit_xor r s
xor_fields zero p q r s hr hs = ground (arith, zero-bit_xor 0)
xor_fields (suc k) p q r s hr hs = ground (
  arith,
  xor_step (p * 2 ^ suc k + r) (q * 2 ^ suc k + s),
  field_pow_suc k p,
  field_pow_suc k q,
  field_pow_suc k (bit_xor p q),
  pow-suc 2 k,
  xor_step r s,
  xor_fields k p q (r / 2) (s / 2) (omega (arith, pow-suc 2 k)) (omega (arith, pow-suc 2 k)),
)

-- A value shifted up by a byte leaves the low byte alone.
pub xor_low : (a q : ℕ) → bit_xor a (q * 256) % 256 ≡ a % 256
xor_low a q = ground (
  arith,
  xor_fields 8 (a / 256) q (a % 256) 0 (omega arith) (omega arith),
  xor_comm 8 (a % 256) 0 (omega arith) (omega arith),
  zero-bit_xor (a % 256),
)

-- Adding a word twice takes it away again.
pub xor_twice : (w a m : ℕ) → a < 2 ^ w → m < 2 ^ w → bit_xor (bit_xor a m) m ≡ a
xor_twice zero a m ha hm = ground (arith, zero-bit_xor 0)
xor_twice (suc w) a m ha hm = ground (
  arith,
  xor_step a m,
  xor_step (bit_xor a m) m,
  xor_twice w (a / 2) (m / 2) (omega (arith, pow-suc 2 w)) (omega (arith, pow-suc 2 w)),
)
