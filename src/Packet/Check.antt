-- ===== src/Packet/Check.antt =====
-- The checks and getters of packet.h on encoded packets, on damaged ones and on short ones.
use icetunnel.Prelude.{
  ℕ, ◌%◌, ◌^◌, ◌<◌, ◌≡◌, ◌≢◌, refl, sym, ap, ◌∙◌, inl, inr, true, false, List, [], ◌∷◌, ◌++◌, arith,
  ==_iff, Bool-cases, length, drop-append, All, All-append,
}
use icetunnel.Packet.{
  PacketType, hello, to_code, of_code, get_crc32, get_type, get_index, get_data, get_size,
  body_crc32, check_crc32, check_crc32_buffer, encode,
}
use icetunnel.Packet.Bytes.{
  IsByte, to_bytes, of_bytes, length-to_bytes, to_bytes-IsByte, of_bytes-to_bytes_four,
  of_bytes-to_bytes_one, get_middle,
}
use icetunnel.Packet.Crc.{crc32}
use icetunnel.Packet.RoundTrip.{body, encode_lem}
use icetunnel.Packet.Detect.{crc32-lt, crc32_changed}

-- One of the six types of the protocol.
abbrev pub IsKnown : PacketType → Type 0
IsKnown (PacketType.other code) = ⊥
IsKnown type = Unit {0}

of_code-to_code : (type : PacketType) → IsKnown type → of_code (to_code type % 256) ≡ type
unfolding of_code to_code
of_code-to_code PacketType.hello h = refl
of_code-to_code PacketType.bye h = refl
of_code-to_code PacketType.data_packet h = refl
of_code-to_code PacketType.confirmation h = refl
of_code-to_code PacketType.disconnect h = refl
of_code-to_code PacketType.bye_bye h = refl
of_code-to_code (PacketType.other code) h = absurd h

-- The CRC word in front of any bytes.
check_word :
    (value : ℕ) (bytes : List ℕ)
    → (get_crc32 (to_bytes 4 value ++ bytes) ≡ value % 2 ^ 32)
      × (body_crc32 (to_bytes 4 value ++ bytes) ≡ crc32 bytes 0)
unfolding get_crc32 body_crc32
check_word value bytes = (
  get_middle 4 0 [] (to_bytes 4 value) bytes refl (length-to_bytes 4 value)
      ∙ of_bytes-to_bytes_four value,
  ap (λ x. crc32 x 0) (drop-append 4 (to_bytes 4 value) bytes (length-to_bytes 4 value)),
)

check_crc32-eq : (bytes : List ℕ) → get_crc32 bytes ≡ body_crc32 bytes → check_crc32 bytes ≡ true
unfolding check_crc32
check_crc32-eq bytes e = (==_iff (get_crc32 bytes) (body_crc32 bytes)).1 e

body-IsByte :
    (type : PacketType) (index : ℕ) (payload : List ℕ)
    → All IsByte payload
    → All IsByte (body type index payload)
unfolding to_bytes
body-IsByte type index payload h =
    (omega arith, All-append IsByte (to_bytes 4 index) payload (to_bytes-IsByte 4 index) h)

encode_passes :
    (type : PacketType) (index : ℕ) (payload bytes : List ℕ)
    → All IsByte payload
    → check_crc32 (encode type index payload bytes) ≡ true
encode_passes type index payload bytes h =
    let rest = body type index payload in
    let crc = crc32 rest 0 in
    let (word, same) = check_word crc rest in
    let small : crc < 2 ^ 32 = crc32-lt rest 0 (body-IsByte type index payload h) (omega arith) in
    ap check_crc32 (encode_lem type index payload bytes)
    ∙ check_crc32-eq (to_bytes 4 crc ++ rest) (omega (arith, word, same))

-- The type is read back whatever the index, and the index if it has 32 bits.
pub get_type-encode :
    (type : PacketType) (index : ℕ) (payload bytes : List ℕ)
    → IsKnown type
    → get_type (encode type index payload bytes) ≡ type
get_type-encode type index payload bytes known =
    ap get_type (encode_lem type index payload bytes) ∙ behind (crc32 (body type index payload) 0)
  where
    behind : (crc : ℕ) → get_type (to_bytes 4 crc ++ body type index payload) ≡ type
    behind crc =
        unfold get_type in
        ap of_code (
          get_middle 1 4 (to_bytes 4 crc) (to_bytes 1 (to_code type)) (to_bytes 4 index ++ payload)
            (length-to_bytes 4 crc) (length-to_bytes 1 (to_code type))
          ∙ of_bytes-to_bytes_one (to_code type))
        ∙ of_code-to_code type known

pub get_index-encode :
    (type : PacketType) (index : ℕ) (payload bytes : List ℕ)
    → index < 2 ^ 32
    → get_index (encode type index payload bytes) ≡ index
get_index-encode type index payload bytes small =
    ap get_index (encode_lem type index payload bytes) ∙ behind (crc32 (body type index payload) 0)
  where
    behind : (crc : ℕ) → get_index (to_bytes 4 crc ++ body type index payload) ≡ index
    behind crc = unfold get_index in unfold to_bytes in unfold of_bytes in ground arith

pub get_data-encode :
    (type : PacketType) (index : ℕ) (payload bytes : List ℕ)
    → (get_data (encode type index payload bytes) ≡ payload)
      × (get_size (encode type index payload bytes) ≡ length payload)
get_data-encode type index payload bytes = (
  ap get_data (encode_lem type index payload bytes) ∙ (behind crc).0,
  ap get_size (encode_lem type index payload bytes) ∙ (behind crc).1,
)
  where
    crc : ℕ
    crc = crc32 (body type index payload) 0

    behind :
        (crc : ℕ)
        → (get_data (to_bytes 4 crc ++ body type index payload) ≡ payload)
          × (get_size (to_bytes 4 crc ++ body type index payload) ≡ length payload)
    behind crc = unfold get_data in unfold get_size in unfold to_bytes in (refl, ground arith)

-- For the six types of the protocol, an index of 32 bits and a payload of bytes: what `encode`
-- writes passes the check, and its type, index and payload are read back from it, whatever the
-- packet object held before.
pub encode_reads :
    (type : PacketType) (index : ℕ) (payload bytes : List ℕ)
    → IsKnown type
    → index < 2 ^ 32
    → All IsByte payload
    → let raw = encode type index payload bytes in
      (check_crc32 raw ≡ true)
      × (get_type raw ≡ type)
      × (get_index raw ≡ index)
      × (get_data raw ≡ payload)
      × (get_size raw ≡ length payload)
encode_reads type index payload bytes known small h =
    let (text, size) = get_data-encode type index payload bytes in
    (
      encode_passes type index payload bytes h,
      get_type-encode type index payload bytes known,
      get_index-encode type index payload bytes small,
      text,
      size,
    )

-- Bytes whose check passes no longer pass when one byte behind the CRC has been changed.
pub check_crc32_damaged :
    (crc : ℕ) (pre post : List ℕ) (x y : ℕ)
    → All IsByte pre
    → All IsByte post
    → IsByte x
    → IsByte y
    → x ≢ y
    → check_crc32 (to_bytes 4 crc ++ (pre ++ (x ∷ post))) ≡ true
    → check_crc32 (to_bytes 4 crc ++ (pre ++ (y ∷ post))) ≡ false
unfolding check_crc32
check_crc32_damaged crc pre post x y hpre hpost hx hy ne ok =
    elim (Bool-cases (check_crc32 (to_bytes 4 crc ++ (pre ++ (y ∷ post))))) [
      | inr damaged ↦ damaged
      | inl passed ↦
          let (wx, bx) = check_word crc (pre ++ (x ∷ post)) in
          let (wy, by') = check_word crc (pre ++ (y ∷ post)) in
          let ex = (==_iff _ _).0 ok in
          let ey = (==_iff _ _).0 passed in
          absurd (
            crc32_changed pre post 0 x y hpre hpost hx hy (omega arith) ne
              (sym bx ∙ sym ex ∙ wx ∙ sym wy ∙ ey ∙ by'))
    ]

-- A datagram of less than four bytes passes the member check and reads as the Hello with index 0;
-- the check on buffers of the same name refuses it.
pub check_crc32_short :
    (bytes : List ℕ)
    → length bytes < 4
    → (check_crc32 bytes ≡ true)
      × (get_type bytes ≡ hello)
      × (get_index bytes ≡ 0)
      × (check_crc32_buffer bytes ≡ false)
unfolding check_crc32 check_crc32_buffer get_type get_index
check_crc32_short [] h = (refl, refl, refl, refl)
check_crc32_short (a ∷ []) h = (refl, refl, refl, refl)
check_crc32_short (a ∷ b ∷ []) h = (refl, refl, refl, refl)
check_crc32_short (a ∷ b ∷ c ∷ []) h = (refl, refl, refl, refl)
check_crc32_short (a ∷ b ∷ c ∷ d ∷ rest) h = absurd (omega arith)
