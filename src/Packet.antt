-- ===== src/Packet.antt =====
-- packet.h and packet.cpp: a packet of the UDP protocol. Its bytes are the CRC-32 (4 bytes), the
-- type (1), the index (4) and the payload, all little-endian.
pub mod Bytes
pub mod Crc
pub mod Pair
pub mod RoundTrip
pub mod Detect
pub mod Check
use icetunnel.Prelude.{
  ℕ, zero, suc, ◌+◌, ◌-◌, ◌%◌, ◌^◌, Bool, true, false, ◌&&◌, List, [], ◌∷◌, ltb, ◌==◌,
  if◌then◌else◌, length, take, drop,
}
use icetunnel.Packet.Bytes.{get, set, resize, overwrite}
use icetunnel.Packet.Crc.{crc32}

-- `Packet::Type`. The type byte of a received packet may have any other value.
pub data PacketType : Type 0 where
  hello bye data_packet confirmation disconnect bye_bye : PacketType
  other : ℕ → PacketType

unfoldable pub to_code : PacketType → ℕ
to_code hello = 0
to_code bye = 1
to_code data_packet = 2
to_code confirmation = 3
to_code disconnect = 4
to_code bye_bye = 5
to_code (other code) = code

-- `(Type)code`.
unfoldable pub of_code : ℕ → PacketType
of_code zero = hello
of_code (suc zero) = bye
of_code (suc (suc zero)) = data_packet
of_code (suc (suc (suc zero))) = confirmation
of_code (suc (suc (suc (suc zero)))) = disconnect
of_code (suc (suc (suc (suc (suc zero))))) = bye_bye
of_code code = other code

unfoldable pub type_eq : PacketType → PacketType → Bool
unfolding to_code
type_eq s t = to_code s == to_code t

pub record Packet : Type 0 where
  pub sent : Bool
  pub sent_time_us : ℕ
  pub measure_index : ℕ
  pub remain_resend_count : ℕ
  pub confirmed : Bool
  pub bytes : List ℕ

abbrev pub new_packet : Packet
new_packet = record {
  sent = false;
  sent_time_us = 0;
  measure_index = 0;
  remain_resend_count = 0;
  confirmed = false;
  bytes = [];
}

abbrev pub is_complete : Packet → Bool
is_complete p = p.sent && p.confirmed

unfoldable pub get_crc32 : List ℕ → ℕ
unfolding get
get_crc32 bytes = get 4 0 bytes

unfoldable pub set_crc32 : ℕ → List ℕ → List ℕ
unfolding set
set_crc32 value bytes = set 4 0 value bytes

unfoldable pub get_type : List ℕ → PacketType
unfolding get of_code
get_type bytes = of_code (get 1 4 bytes)

unfoldable pub set_type : PacketType → List ℕ → List ℕ
unfolding set to_code
set_type value bytes = set 1 4 (to_code value) bytes

-- An `int`, as its pattern.
unfoldable pub get_index : List ℕ → ℕ
unfolding get
get_index bytes = get 4 5 bytes

unfoldable pub set_index : ℕ → List ℕ → List ℕ
unfolding set
set_index value bytes = set 4 5 value bytes

-- `getData` with `getSize`: the payload, empty where `getData` is NULL.
unfoldable pub get_data : List ℕ → List ℕ
get_data bytes = drop 9 bytes

unfoldable pub get_size : List ℕ → ℕ
get_size bytes = if ltb 9 (length bytes) then length bytes - 9 else 0

-- The payload comes with its length, so `size` is not negative.
unfoldable pub set_data : List ℕ → List ℕ → List ℕ
unfolding overwrite resize
set_data payload bytes = overwrite 9 payload (resize (9 + length payload) bytes)

unfoldable pub set_raw_data : List ℕ → List ℕ → List ℕ
unfolding overwrite resize
set_raw_data raw bytes = overwrite 0 raw (resize (length raw) bytes)

unfoldable pub set_raw_size : ℕ → List ℕ → List ℕ
unfolding resize
set_raw_size size bytes = resize size bytes

-- `crc32(&data[4], data.size() - 4)`. With less than 4 bytes the size is negative, and the loop of
-- `crc32` makes no round.
unfoldable pub body_crc32 : List ℕ → ℕ
unfolding crc32
body_crc32 bytes = crc32 (drop 4 bytes) 0

unfoldable pub apply_crc32 : List ℕ → List ℕ
unfolding set_crc32 body_crc32
apply_crc32 bytes = set_crc32 (body_crc32 bytes) bytes

-- The member function, which looks at no size.
unfoldable pub check_crc32 : List ℕ → Bool
unfolding get_crc32 body_crc32
check_crc32 bytes = get_crc32 bytes == body_crc32 bytes

-- The static function of that name, over a buffer: only what is longer than 4 bytes passes.
unfoldable pub check_crc32_buffer : List ℕ → Bool
unfolding get_crc32 body_crc32
check_crc32_buffer bytes = ltb 4 (length bytes) && (get_crc32 bytes == body_crc32 bytes)

unfoldable pub encode : PacketType → ℕ → List ℕ → List ℕ → List ℕ
unfolding set_type set_index set_data apply_crc32
encode type index payload bytes =
    apply_crc32 (set_data payload (set_index index (set_type type bytes)))
