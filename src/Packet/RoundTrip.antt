-- ===== src/Packet/RoundTrip.antt =====
-- What `Packet::encode` writes, and that the getters read it back.
use icetunnel.Prelude.{
  ℕ, ◌+◌, ◌≡◌, refl, sym, ap, ap₂, ◌∙◌, List, ◌++◌, arith, length, take, drop, append_assoc,
  append-nil, drop-append, drop_all, length-append, length-take,
}
use icetunnel.Packet.{
  PacketType, to_code, set_type, set_index, set_data, set_crc32, apply_crc32, body_crc32, encode,
}
use icetunnel.Packet.Bytes.{
  to_bytes, resize, overwrite, set, grow, length-to_bytes, length-resize, length-grow, take-grow,
  grow_enough, take-resize,
}
use icetunnel.Packet.Crc.{crc32}

-- Whatever stood in the packet, `set` leaves `offset` bytes in front of the word.
set_shape :
    (width offset value : ℕ) (bytes : List ℕ)
    → (front : List ℕ) × (back : List ℕ) × (length front ≡ offset)
      × (set width offset value bytes ≡ front ++ (to_bytes width value ++ back))
unfolding set overwrite
set_shape width offset value bytes =
    let grown = grow (offset + width) bytes in
    (
      take offset grown,
      drop (offset + length (to_bytes width value)) grown,
      omega (arith, length-take offset grown, length-grow (offset + width) bytes),
      refl,
    )

-- Bytes in front of the word are kept.
set_after :
    (width offset value : ℕ) (pre post : List ℕ)
    → length pre ≡ offset
    → (back : List ℕ) × (set width offset value (pre ++ post)
        ≡ pre ++ (to_bytes width value ++ back))
unfolding set overwrite
set_after width offset value pre post h =
    let grown = grow (offset + width) (pre ++ post) in
    let kept : take offset grown ≡ pre = rw (← h) (take-grow (length pre + width) pre post) in
    (drop (offset + length (to_bytes width value)) grown, rw kept)

-- `setData` keeps the nine bytes of the header and cuts off all that stood behind them.
set_data_after :
    (payload pre post : List ℕ) → length pre ≡ 9 → set_data payload (pre ++ post) ≡ pre ++ payload
unfolding set_data overwrite
set_data_after payload pre post h =
    ap₂ (λ x y. x ++ (payload ++ y)) front
      (drop_all n (resize n (pre ++ post)) (omega (arith, length-resize n (pre ++ post))))
    ∙ ap (λ y. pre ++ y) (append-nil payload)
  where
    n : ℕ
    n = 9 + length payload

    front : take 9 (resize n (pre ++ post)) ≡ pre
    front = rw h at (take-resize n pre post (omega arith))

apply_crc32_after :
    (front body : List ℕ)
    → length front ≡ 4
    → apply_crc32 (front ++ body) ≡ to_bytes 4 (crc32 body 0) ++ body
unfolding apply_crc32 set_crc32 body_crc32 set overwrite
apply_crc32_after front body h = rw (
  drop-append 4 front body h,
  grow_enough 4 (front ++ body) (omega (arith, length-append front body)),
  drop-append 4 front body h,
)

-- What follows the CRC in an encoded packet.
abbrev pub body : PacketType → ℕ → List ℕ → List ℕ
body type index payload = to_bytes 1 (to_code type) ++ (to_bytes 4 index ++ payload)

-- The header that `setType` and `setIndex` leave.
header_shape :
    (type : PacketType) (index : ℕ) (bytes : List ℕ)
    → (front : List ℕ) × (back : List ℕ) × (length front ≡ 4)
      × (set_index index (set_type type bytes)
          ≡ (front ++ (to_bytes 1 (to_code type) ++ to_bytes 4 index)) ++ back)
unfolding set_type set_index
header_shape type index bytes =
    let (front, back, four, typed) = set_shape 1 4 (to_code type) bytes in
    let word = to_bytes 1 (to_code type) in
    let five : length (front ++ word) ≡ 5 =
      omega (arith, length-append front word, length-to_bytes 1 (to_code type)) in
    let (back', indexed) = set_after 4 5 index (front ++ word) back five in
    (
      front,
      back',
      four,
      ap (set 4 5 index) (typed ∙ sym (append_assoc front word back))
          ∙ indexed
          ∙ sym (append_assoc (front ++ word) (to_bytes 4 index) back')
          ∙ ap (λ x. x ++ back') (append_assoc front word (to_bytes 4 index)),
    )

encode_steps :
    (type : PacketType) (index : ℕ) (payload bytes : List ℕ)
    → encode type index payload bytes
      ≡ apply_crc32 (set_data payload (set_index index (set_type type bytes)))
unfolding encode
encode_steps type index payload bytes = refl

-- `encode` writes the CRC, the type, the index and the payload, whatever the packet held before.
pub encode_lem :
    (type : PacketType) (index : ℕ) (payload bytes : List ℕ)
    → encode type index payload bytes
      ≡ to_bytes 4 (crc32 (body type index payload) 0) ++ body type index payload
encode_lem type index payload bytes =
    let (front, back, four, header) = header_shape type index bytes in
    let word = to_bytes 1 (to_code type) in
    let words = word ++ to_bytes 4 index in
    let nine : length (front ++ words) ≡ 9 = omega (
      arith,
      length-append front words,
      length-append word (to_bytes 4 index),
      length-to_bytes 1 (to_code type),
      length-to_bytes 4 index,
    ) in
    encode_steps type index payload bytes
    ∙ ap (λ x. apply_crc32 (set_data payload x)) header
    ∙ ap apply_crc32 (set_data_after payload (front ++ words) back nine)
    ∙ ap apply_crc32 (
        append_assoc front words payload
        ∙ ap (λ x. front ++ x) (append_assoc word (to_bytes 4 index) payload))
    ∙ apply_crc32_after front (body type index payload) four
