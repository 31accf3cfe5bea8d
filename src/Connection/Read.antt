-- ===== src/Connection/Read.antt =====
-- connection.cpp: `udpRead`.
pub mod Advance
use icetunnel.Prelude.{
  ℕ, zero, suc, ◌+◌, ◌*◌, ◌/◌, Bool, true, not, ◌&&◌, ◌||◌, none, some, List, [], ◌∷◌, ltb, leb,
  ◌==◌, if◌then◌else◌, length, add32, sub32, neg32, slt, sle,
}
use icetunnel.Packet.{
  Packet, hello, bye, data_packet, confirmation, disconnect, bye_bye, new_packet, type_eq, get_type,
  get_index, get_data, get_size,
}
use icetunnel.Packet.Pair.{unpack_int_pair}
use icetunnel.Event.Timer
use icetunnel.Event.Timer.{is_enabled}
use icetunnel.Connection.Map.{Map, find, has, insert, erase}
use icetunnel.Connection.State.{
  Connection, Env, is_no_more_data_will_be_sent, is_udp_finished, on_udp_sent_buffer_changed,
  on_udp_delivered,
}
use icetunnel.Connection.Confirm.{remove_confirmations}
use icetunnel.Connection.Write.{tcp_write_fake, udp_close}

-- A packet that the other side has confirmed: it counts as delivered, is sent and confirmed now, so
-- complete, and leaves the map.
unfoldable pub confirm_packet : Env → ℕ → Packet → Connection → Connection
confirm_packet env k p c =
    let size = get_size p.bytes in
    let delivered = if p.confirmed then c else on_udp_delivered env true p.measure_index size c in
    let counted = if p.sent then delivered else record delivered {
      udp_packets_to_send_count = sub32 delivered.udp_packets_to_send_count 1;
    } in
    let done = record p { sent = true; confirmed = true } in
    let changed =
      on_udp_sent_buffer_changed env (neg32 size)
        (record counted { udp_sent_packets = insert k done counted.udp_sent_packets }) in
    record changed { udp_sent_packets = erase k changed.udp_sent_packets }

-- The first loop, over the entries still to visit: those below `master`.
unfoldable pub confirm_below : Env → ℕ → Map Packet → Connection → Connection
unfolding confirm_packet
confirm_below env master [] c = c
confirm_below env master ((k, p) ∷ m) c =
    let rest = confirm_below env master m (confirm_packet env k p c) in
    if slt k master then rest else c

-- `for(int i = currentIndex - b; i < currentIndex; ++i)`, with `rounds` of them left from `i` on.
unfoldable pub confirm_range : ℕ → Env → ℕ → Connection → Connection
unfolding confirm_packet
confirm_range zero env i c = c
confirm_range (suc rounds) env i c =
    confirm_range rounds env (add32 i 1)
      (elim (find i c.udp_sent_packets) [ none ↦ c | some p ↦ confirm_packet env i p c ])

-- The second loop, over the pairs of the payload. Each pair takes two bytes at least, so that there
-- are not more rounds than bytes. The range is empty where `currentIndex - b` is not less.
unfoldable pub confirm_pairs : ℕ → Env → ℕ → List ℕ → Connection → Connection
unfolding confirm_range
confirm_pairs zero env current bytes c = c
confirm_pairs (suc rounds) env current bytes c = elim (unpack_int_pair bytes) [
  | none ↦ c
  | some (a, b, rest) ↦
      let end = add32 current (add32 a b) in
      let begin = sub32 end b in
      confirm_pairs rounds env end rest (if slt begin end then confirm_range b env begin c else c)
]

unfoldable pub read_confirmation : Env → List ℕ → Connection → Connection
unfolding confirm_below confirm_pairs
read_confirmation env bytes c =
    let master = get_index bytes in
    let payload = get_data bytes in
    let before = is_no_more_data_will_be_sent c in
    let below = confirm_below env master c.udp_sent_packets c in
    let confirmed = confirm_pairs (length payload) env master payload below in
    let counted = record confirmed {
      stat_udp_received_extra = confirmed.stat_udp_received_extra + length bytes;
      event_udp_resend =
          if sle (length confirmed.udp_sent_packets) confirmed.udp_packets_to_send_count
          then Timer.disable confirmed.event_udp_resend
          else confirmed.event_udp_resend;
    } in
    if is_no_more_data_will_be_sent counted && not before
    then record counted {
      remain_bye_bye_resend_count = counted.confirmation_resend_count;
      event_build_bye_bye = Timer.set_time_relative_now env.now 0 counted.event_build_bye_bye;
    }
    else counted

-- The loop that moves `udpReceivedMasterIndex` over the packets that are there. Each round passes
-- another entry, so that there are not more rounds than entries.
unfoldable pub advance_master : ℕ → Connection → Connection
advance_master zero c = c
advance_master (suc rounds) c = elim (find c.udp_received_master_index c.udp_received_packets) [
  | none ↦ c
  | some p ↦
      let type = get_type p.bytes in
      let next = c.udp_received_master_index + 1 in
      let rest = advance_master rounds (record c {
        udp_received_master_index = next;
        udp_received_final_index =
            if type_eq type bye || type_eq type disconnect
            then next
            else c.udp_received_final_index;
      }) in
      if ltb c.udp_received_master_index c.udp_received_final_index then rest else c
]

-- The condition on a packet of the stream: its index and its type. The other side's window is twice
-- the receive buffer, counted in packets.
unfoldable pub accepts_packet : List ℕ → Connection → Bool
accepts_packet bytes c =
    let index = get_index bytes in
    let type = get_type bytes in
    sle c.udp_received_master_index index
    && slt index c.udp_received_final_index
    && sle (sub32 index c.tcp_next_send_index)
        (2 * c.udp_max_receive_buffer_size / c.udp_send_packet_size)
    && (type_eq type hello && index == 0
        || type_eq type bye
        || type_eq type disconnect
        || type_eq type data_packet)

-- A packet that has not been there.
unfoldable pub store_packet : Env → List ℕ → Connection → Connection
unfolding advance_master
store_packet env bytes c =
    let stored = record c {
      udp_received_packets =
          insert (get_index bytes) (record new_packet { bytes = bytes }) c.udp_received_packets;
      udp_receive_buffer_size = add32 c.udp_receive_buffer_size (get_size bytes);
    } in
    let moved = tcp_write_fake (advance_master (length stored.udp_received_packets) stored) in
    record moved {
      event_tcp_write =
          if ltb moved.tcp_next_send_index moved.udp_received_master_index
          then Timer.set_time_relative_now env.now 0 moved.event_tcp_write
          else moved.event_tcp_write;
      event_udp_close_wait =
          if leb moved.udp_received_final_index moved.udp_received_master_index
          then Timer.set_time_relative_now env.now
              (moved.udp_resend_us * moved.udp_resend_count + moved.udp_resend_us)
              moved.event_udp_close_wait
          else moved.event_udp_close_wait;
    }

abbrev pub count_extra : List ℕ → Connection → Connection
count_extra bytes c = record c {
  stat_udp_received_extra = c.stat_udp_received_extra + length bytes;
}

unfoldable pub read_stream_packet : Env → List ℕ → Connection → Connection
unfolding store_packet
read_stream_packet env bytes c =
    let stored =
      if has (get_index bytes) c.udp_received_packets
      then count_extra bytes c
      else store_packet env bytes c in
    record stored {
      remain_confirmation_resend_count = stored.confirmation_resend_count;
      event_build_confirmations =
          Timer.set_time_relative_now env.now stored.build_confirmations_us
            stored.event_build_confirmations;
    }

unfoldable pub read_bye_bye : Env → Connection → Connection
unfolding remove_confirmations
read_bye_bye env c =
    let removed = remove_confirmations env (record c {
      remain_confirmation_resend_count = 0;
      event_build_confirmations = Timer.disable c.event_build_confirmations;
    }) in
    if is_enabled removed.event_udp_close_wait
    then record removed {
      event_udp_close_wait =
          Timer.set_time_relative_now env.now
            (removed.udp_resend_us * removed.confirmation_resend_count / 3 + removed.udp_resend_us)
            removed.event_udp_close_wait;
    }
    else removed

-- What `udpRead` does with a packet, before its last test.
unfoldable pub read_packet : Env → List ℕ → Connection → Connection
unfolding read_confirmation accepts_packet read_stream_packet read_bye_bye
read_packet env bytes c =
    if type_eq (get_type bytes) confirmation
    then read_confirmation env bytes c
    else if accepts_packet bytes c
    then read_stream_packet env bytes c
    else if type_eq (get_type bytes) bye_bye
        && get_index bytes == c.udp_received_master_index
        && get_index bytes == c.udp_received_final_index
    then read_bye_bye env c
    else count_extra bytes c

unfoldable pub udp_read : Env → List ℕ → Connection → Connection
unfolding read_packet
udp_read env bytes c =
    let read = read_packet env bytes c in
    if not c.udp_connected then c else if is_udp_finished read then udp_close env read else read
