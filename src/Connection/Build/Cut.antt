-- ===== src/Connection/Build/Cut.antt =====
-- `buildUdpPackets` and the bytes of the TCP socket.
use icetunnel.Prelude.{
  ℕ, zero, suc, ◌+◌, ◌<◌, ◌≤◌, ◌≡◌, refl, ap, ap₂, subst, ◌∙◌, min, Bool, true, not, ◌&&◌, ◌||◌,
  Option, none, some, List, [], ◌∷◌, ◌++◌, append_assoc, arith, if_case, ltb, ◌==◌, length, take,
  drop, length-drop, take-append-drop,
}
use icetunnel.Packet.{Packet, PacketType, data_packet, encode, get_data}
use icetunnel.Packet.Bytes.{to_bytes}
use icetunnel.Packet.Crc.{crc32}
use icetunnel.Packet.RoundTrip.{body, encode_lem}
use icetunnel.Connection.Map.{Map, find, insert}
use icetunnel.Connection.Map.Laws.{find-insert}
use icetunnel.Connection.State.{Connection, Env, on_udp_sent_buffer_changed, set_event_udp_write}
use icetunnel.Connection.Build.{
  or_new_packet, put_packet, add_data_packet, build_loop, build_end, data_to_build,
  build_udp_packets,
}

data-encode :
    (type : PacketType) (index : ℕ) (payload bytes : List ℕ)
    → get_data (encode type index payload bytes) ≡ payload
data-encode type index payload bytes =
    ap get_data (encode_lem type index payload bytes) ∙ behind (crc32 (body type index payload) 0)
  where
    behind : (crc : ℕ) → get_data (to_bytes 4 crc ++ body type index payload) ≡ payload
    behind crc = unfold get_data in unfold to_bytes in refl

-- The payloads of the packets with `count` keys from `index` on.
abbrev pub data_of : Option Packet → List ℕ
data_of none = []
data_of (some p) = get_data p.bytes

abbrev pub sent_text : Map Packet → ℕ → ℕ → List ℕ
sent_text m index zero = []
sent_text m index (suc count) = data_of (find index m) ++ sent_text m (suc index) count

-- The packets below the next index stay, and the new packets hold the bytes that left `rest`.
abbrev pub IsCut : Connection → List ℕ → Connection × List ℕ → Type 0
IsCut c rest out =
    (count : ℕ) × ((out.0).udp_next_send_index ≡ c.udp_next_send_index + count)
    × (sent_text (out.0).udp_sent_packets c.udp_next_send_index count ++ out.1 ≡ rest)
    × ((k : ℕ)
        → k < c.udp_next_send_index
        → find k (out.0).udp_sent_packets ≡ find k c.udp_sent_packets)

add_data_packet_lem :
    (env : Env) (payload : List ℕ) (c : Connection)
    → let d = add_data_packet env payload c in
      (d.udp_next_send_index ≡ c.udp_next_send_index + 1)
      × (d.udp_send_packet_size ≡ c.udp_send_packet_size)
      × (data_of (find c.udp_next_send_index d.udp_sent_packets) ≡ payload)
      × ((k : ℕ)
          → k < c.udp_next_send_index
          → find k d.udp_sent_packets ≡ find k c.udp_sent_packets)
unfolding add_data_packet put_packet on_udp_sent_buffer_changed set_event_udp_write
add_data_packet_lem env payload c =
    let index = c.udp_next_send_index in
    let old = or_new_packet (find index c.udp_sent_packets) in
    let new : Packet = record old {
      remain_resend_count = c.udp_resend_count;
      bytes = encode data_packet index payload old.bytes;
    } in
    let here : find index (insert index new c.udp_sent_packets) ≡ some new =
      ground (arith, find-insert index index new c.udp_sent_packets) in
    (
      refl,
      refl,
      ap data_of here ∙ data-encode data_packet index payload old.bytes,
      λ k lt. ground (arith, find-insert k index new c.udp_sent_packets),
    )

build_loop-IsCut :
    (rounds : ℕ) (env : Env) (flush : Bool) (rest : List ℕ) (c : Connection)
    → IsCut c rest (build_loop rounds env flush rest c)
unfolding build_loop
build_loop-IsCut zero env flush rest c = (0, omega arith, refl, λ k lt. refl)
build_loop-IsCut (suc rounds) env flush rest c =
    let size = min (length rest) c.udp_send_packet_size in
    let d = add_data_packet env (take size rest) c in
    let out = build_loop rounds env flush (drop size rest) d in
    let (next, _, data_here, kept) = add_data_packet_lem env (take size rest) c in
    if_case (IsCut c rest) ((not flush && ltb size c.udp_send_packet_size) || size == 0) _ _
      (λ stop. (0, omega arith, refl, λ k lt. refl))
      (λ goes.
        let (count, next', text, kept') = build_loop-IsCut rounds env flush (drop size rest) d in
        let m = (out.0).udp_sent_packets in
        let i = c.udp_next_send_index in
        let first : data_of (find i m) ≡ take size rest =
          ap data_of (kept' i (omega (arith, next))) ∙ data_here in
        let others : sent_text m (suc i) count ++ out.1 ≡ drop size rest =
          ap (λ (j : ℕ). sent_text m j count ++ out.1) (omega (arith, next)) ∙ text in
        (
          suc count,
          omega (arith, next, next'),
          append_assoc (data_of (find i m)) (sent_text m (suc i) count) out.1
              ∙ ap₂ (λ a b. a ++ b) first others
              ∙ take-append-drop size rest,
          λ k lt. kept' k (omega (arith, next, lt)) ∙ kept k lt,
        ))

-- What is left at the end of the loop.
build_loop_rest :
    (rounds : ℕ) (env : Env) (flush : Bool) (rest : List ℕ) (c : Connection)
    → 0 < c.udp_send_packet_size
    → length rest ≤ rounds
    → let left = (build_loop rounds env flush rest c).1 in
      (length left < c.udp_send_packet_size) × (flush ≡ true → left ≡ [])
unfolding build_loop
build_loop_rest zero env flush [] c pos enough = (pos, λ f. refl)
build_loop_rest zero env flush (x ∷ rest) c pos enough = absurd (omega (arith, enough))
build_loop_rest (suc rounds) env flush rest c pos enough =
    let size = min (length rest) c.udp_send_packet_size in
    let d = add_data_packet env (take size rest) c in
    let (_, room, _, _) = add_data_packet_lem env (take size rest) c in
    if_case
      (λ (out : Connection × List ℕ).
        (length out.1 < c.udp_send_packet_size) × (flush ≡ true → out.1 ≡ []))
      ((not flush && ltb size c.udp_send_packet_size) || size == 0) _ _
      (λ stop. (ground (arith, stop, pos), λ f. no_bytes rest (ground (arith, stop, pos, f))))
      (λ goes.
        let less : length (drop size rest) ≤ rounds =
          ground (arith, length-drop size rest, goes, enough) in
        subst
          (λ n.
            (length (build_loop rounds env flush (drop size rest) d).1 < n)
            × (flush ≡ true → (build_loop rounds env flush (drop size rest) d).1 ≡ []))
          room
          (build_loop_rest rounds env flush (drop size rest) d (omega (arith, room, pos)) less))
  where
    no_bytes : (l : List ℕ) → length l ≡ 0 → l ≡ []
    no_bytes [] e = refl
    no_bytes (x ∷ l) e = absurd (omega (arith, e))

-- `buildUdpPackets`, while the UDP side is connected and packets have a positive size: the new packets
-- hold, in the order of their indices, the bytes that were taken off `tcpReceivedData`, from its
-- front; the packets with lower indices stay as they are; less than a packet is left, and nothing with
-- `flush`. After the final packet of the other side there are no bytes to take.
pub build_udp_packets_lem :
    (env : Env) (flush : Bool) (c : Connection)
    → c.udp_connected ≡ true
    → 0 < c.udp_send_packet_size
    → let d = build_udp_packets env flush c in
      IsCut c (data_to_build c) (d, d.tcp_received_data)
      × (length d.tcp_received_data < c.udp_send_packet_size)
      × (flush ≡ true → d.tcp_received_data ≡ [])
unfolding build_udp_packets build_end
build_udp_packets_lem env flush c on pos =
    let pending = data_to_build c in
    let start : Connection = record c { tcp_received_data = pending } in
    if_case
      (λ (d : Connection).
        IsCut c pending (d, d.tcp_received_data)
        × (length d.tcp_received_data < c.udp_send_packet_size)
        × (flush ≡ true → d.tcp_received_data ≡ []))
      c.udp_connected _ c
      (λ on'.
        let (left, none_left) =
          build_loop_rest (length pending) env flush pending start pos (omega arith) in
        (build_loop-IsCut (length pending) env flush pending start, left, none_left))
      (λ off. absurd (cc (on, off)))
