-- ===== src/Packet/Bytes.antt =====
-- Raw access to the bytes of a packet: packet.h, `get` and `set`, and the `resize`, `memcpy` and
-- reads of little-endian words that they are made of. A `std::vector<char>` is a list of numbers
-- below 256.
use icetunnel.Prelude.{
  ℕ, zero, suc, ◌+◌, ◌-◌, ◌*◌, ◌/◌, ◌%◌, ◌^◌, ◌≤◌, ◌<◌, ◌≡◌, refl, ap, List, [], ◌∷◌, ◌++◌, arith,
  leb, if◌then◌else◌, All, length, take, drop, replicate, take-append, drop-append, length-append,
  take_all, append_assoc, Bool-cases, inl, inr, leb→le, le→leb, length-take, length-replicate,
}

abbrev pub IsByte : ℕ → Type 0
IsByte b = b < 256

-- A word of `width` bytes as it lies in memory, and back.
unfoldable pub to_bytes : ℕ → ℕ → List ℕ
to_bytes zero value = []
to_bytes (suc width) value = value % 256 ∷ to_bytes width (value / 256)

unfoldable pub of_bytes : List ℕ → ℕ
of_bytes [] = 0
of_bytes (b ∷ bs) = b + 256 * of_bytes bs

-- `std::vector::resize`: new elements are 0.
unfoldable pub resize : ℕ → List ℕ → List ℕ
resize n bytes = take n bytes ++ replicate (n - length bytes) 0

-- `memcpy(&bytes[offset], source, length source)` into a vector that is long enough.
unfoldable pub overwrite : ℕ → List ℕ → List ℕ → List ℕ
overwrite offset source bytes = take offset bytes ++ (source ++ drop (offset + length source) bytes)

-- `get<T>(offset)` with sizeof(T) = width: T() outside the data.
unfoldable pub get : ℕ → ℕ → List ℕ → ℕ
get width offset bytes =
    if leb (offset + width) (length bytes) then of_bytes (take width (drop offset bytes)) else 0

-- The data grows first if it is shorter than `n`.
unfoldable pub grow : ℕ → List ℕ → List ℕ
unfolding resize
grow n bytes = if leb n (length bytes) then bytes else resize n bytes

-- `set<T>(offset, value)`.
unfoldable pub set : ℕ → ℕ → ℕ → List ℕ → List ℕ
unfolding overwrite grow to_bytes
set width offset value bytes = overwrite offset (to_bytes width value) (grow (offset + width) bytes)

pub length-to_bytes : (width value : ℕ) → length (to_bytes width value) ≡ width
unfolding to_bytes
length-to_bytes zero value = refl
length-to_bytes (suc width) value = ap suc (length-to_bytes width (value / 256))

pub to_bytes-IsByte : (width value : ℕ) → All IsByte (to_bytes width value)
unfolding to_bytes
to_bytes-IsByte zero value = tt
to_bytes-IsByte (suc width) value = (omega arith, to_bytes-IsByte width (value / 256))

pub of_bytes-to_bytes_four : (value : ℕ) → of_bytes (to_bytes 4 value) ≡ value % 2 ^ 32
unfolding of_bytes to_bytes
of_bytes-to_bytes_four value = omega arith

pub of_bytes-to_bytes_one : (value : ℕ) → of_bytes (to_bytes 1 value) ≡ value % 256
unfolding of_bytes to_bytes
of_bytes-to_bytes_one value = omega arith

pub length-resize : (n : ℕ) (bytes : List ℕ) → length (resize n bytes) ≡ n
unfolding resize
length-resize n bytes = omega (
  arith,
  length-append (take n bytes) (replicate (n - length bytes) 0),
  length-take n bytes,
  length-replicate {A = ℕ} (n - length bytes) 0,
)

-- A word that lies between two stretches of bytes is the one that `get` reads there.
pub get_middle :
    (width offset : ℕ) (front word back : List ℕ)
    → length front ≡ offset
    → length word ≡ width
    → get width offset (front ++ (word ++ back)) ≡ of_bytes word
unfolding get
get_middle width offset front word back hf hw =
    rw (drop-append offset front (word ++ back) hf, take-append width word back hw)
      (ground (arith, length-append front (word ++ back), length-append word back))

pub length-grow : (n : ℕ) (bytes : List ℕ) → n ≤ length (grow n bytes)
unfolding grow
length-grow n bytes = elim (Bool-cases (leb n (length bytes))) [
  | inl fits ↦ rw fits (leb→le _ _ fits)
  | inr short ↦ rw short (omega (arith, length-resize n bytes))
]

-- Growing keeps what is there.
pub take-grow : (n : ℕ) (pre post : List ℕ) → take (length pre) (grow n (pre ++ post)) ≡ pre
unfolding grow resize
take-grow n pre post = elim (Bool-cases (leb n (length (pre ++ post)))) [
  | inl fits ↦ rw fits (take-append _ pre post refl)
  | inr short ↦
      rw (short, take_all n (pre ++ post) (ground arith), append_assoc pre post)
        (take-append _ pre _ refl)
]

pub grow_enough : (n : ℕ) (bytes : List ℕ) → n ≤ length bytes → grow n bytes ≡ bytes
unfolding grow
grow_enough n bytes h = rw (le→leb _ _ h)

take-take :
    (n : ℕ) (pre post fill : List ℕ)
    → length pre ≤ n
    → take (length pre) (take n (pre ++ post) ++ fill) ≡ pre
take-take n [] post fill h = refl
take-take zero (x ∷ pre) post fill h = absurd (omega arith)
take-take (suc n) (x ∷ pre) post fill h = ap (◌∷◌ x) (take-take n pre post fill (omega arith))

pub take-resize :
    (n : ℕ) (pre post : List ℕ) → length pre ≤ n → take (length pre) (resize n (pre ++ post)) ≡ pre
unfolding resize
take-resize n pre post h = take-take n pre post _ h
