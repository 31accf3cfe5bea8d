-- ===== src/Connection/Build.antt =====
-- connection.cpp: `tcpRead` and `buildUdpPackets`, from the bytes of the TCP socket to packets.
pub mod Cut
use icetunnel.Prelude.{
  ℕ, zero, suc, ◌+◌, min, Bool, false, not, ◌&&◌, ◌||◌, Option, none, some, List, [], ◌++◌, ltb,
  ◌==◌, if◌then◌else◌, length, take, drop, add32,
}
use icetunnel.Packet.{Packet, PacketType, data_packet, new_packet, encode, get_size}
use icetunnel.Event.Timer
use icetunnel.Connection.Map.{find, insert}
use icetunnel.Connection.State.{
  Connection, Env, is_nil, on_udp_sent_buffer_changed, set_event_udp_write,
}

abbrev pub or_new_packet : Option Packet → Packet
or_new_packet none = new_packet
or_new_packet (some p) = p

-- `udpSentPackets[udpNextSendIndex]`, encoded, with the index moved on: what `buildUdpPackets` and
-- `tcpClose` do alike.
unfoldable pub put_packet : PacketType → List ℕ → Connection → Connection
put_packet type payload c =
    let index = c.udp_next_send_index in
    let old = or_new_packet (find index c.udp_sent_packets) in
    let new = record old {
      remain_resend_count = c.udp_resend_count;
      bytes = encode type index payload old.bytes;
    } in
    record c {
      udp_sent_packets = insert index new c.udp_sent_packets;
      udp_next_send_index = index + 1;
      udp_packets_to_send_count = add32 c.udp_packets_to_send_count 1;
    }

-- `packet.getSize()` of the packet that `put_packet` has written.
abbrev pub put_size : PacketType → List ℕ → Connection → ℕ
put_size type payload c = get_size (
    encode type c.udp_next_send_index payload
      (or_new_packet (find c.udp_next_send_index c.udp_sent_packets)).bytes)

unfoldable pub add_data_packet : Env → List ℕ → Connection → Connection
unfolding put_packet
add_data_packet env payload c =
    on_udp_sent_buffer_changed env (put_size data_packet payload c)
      (set_event_udp_write env (put_packet data_packet payload c))

-- The loop over `tcpReceivedData`: the state and the bytes that are left. Each round takes a byte at
-- least, so that there are at most as many rounds as bytes.
unfoldable pub build_loop : ℕ → Env → Bool → List ℕ → Connection → Connection × List ℕ
build_loop zero env flush rest c = (c, rest)
build_loop (suc rounds) env flush rest c =
    let size = min (length rest) c.udp_send_packet_size in
    let more =
      build_loop rounds env flush (drop size rest) (add_data_packet env (take size rest) c) in
    if (not flush && ltb size c.udp_send_packet_size) || size == 0 then (c, rest) else more

-- The end of `buildUdpPackets`: `full` tells that a packet was built.
unfoldable pub build_end : Env → Bool → List ℕ → Connection → Connection
build_end env full rest c =
    let event =
      if full || is_nil rest
      then Timer.disable c.event_build_udp_packets
      else c.event_build_udp_packets in
    record c {
      tcp_received_data = rest;
      event_build_udp_packets =
          if is_nil rest
          then event
          else Timer.set_time_relative_now env.now c.build_udp_packets_us event;
    }

-- After the final packet of the other side what the TCP socket still gives is dropped.
abbrev pub data_to_build : Connection → List ℕ
data_to_build c =
    if c.udp_received_final_index == c.udp_received_master_index then [] else c.tcp_received_data

unfoldable pub build_udp_packets : Env → Bool → Connection → Connection
unfolding build_end
build_udp_packets env flush c =
    if c.udp_connected
    then (let pending = data_to_build c in
        let out =
          build_loop (length pending) env flush pending
            (record c { tcp_received_data = pending }) in
        build_end env (ltb (length out.1) (length pending)) out.1 out.0)
    else c

unfoldable pub tcp_read : Env → Connection → Connection
unfolding build_udp_packets
tcp_read env c =
    if c.tcp_connected
    then (let received = env.tcp_recv c.udp_send_packet_size in
        let counted = record c { stat_tcp_received = c.stat_tcp_received + length received } in
        on_udp_sent_buffer_changed env 0 (
          if ltb 0 (length received)
          then (if c.udp_connected
              then build_udp_packets env false
                  (record counted { tcp_received_data = c.tcp_received_data ++ received })
              else counted)
          else c))
    else c
