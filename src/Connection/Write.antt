-- ===== src/Connection/Write.antt =====
-- connection.cpp: `tcpWrite`, `tcpClose` and `udpClose`, from received packets to the TCP socket, and
-- the ends of a connection. `tcpWrite(true)` calls nothing else, `tcpClose` calls `tcpWrite(true)`,
-- and `tcpWrite(false)` and `udpClose` call `tcpClose`.
use icetunnel.Prelude.{
  ℕ, zero, suc, ◌+◌, ◌-◌, Bool, true, false, not, ◌||◌, none, some, [], ◌++◌, ltb, leb, ◌==◌,
  if◌then◌else◌, take, drop, sub32, neg32,
}
use icetunnel.Packet.{
  Packet, bye, data_packet, disconnect, is_complete, type_eq, get_type, get_size, get_data,
}
use icetunnel.Event.Timer
use icetunnel.Connection.Map.{find, insert, erase}
use icetunnel.Connection.State.{Connection, Env, on_udp_sent_buffer_changed, set_event_udp_write}
use icetunnel.Connection.Build.{put_packet, put_size, build_udp_packets}

-- A packet with nothing left to write is sent: it goes if it has been confirmed too, and stays until
-- then otherwise.
unfoldable pub finish_packet : ℕ → Packet → Connection → Connection
finish_packet index p c =
    let sent = record p { sent = true } in
    if is_complete sent
    then record c {
      udp_receive_buffer_size = sub32 c.udp_receive_buffer_size (get_size p.bytes);
      udp_received_packets = erase index c.udp_received_packets;
      tcp_next_send_index = c.tcp_next_send_index + 1;
    }
    else record c {
      udp_received_packets = insert index sent c.udp_received_packets;
      tcp_next_send_index = c.tcp_next_send_index + 1;
    }

-- The loop of `tcpWrite(true)`. Each round moves `tcpNextSendIndex` on, so there are as many as the
-- indices below `udpReceivedMasterIndex`.
unfoldable pub fake_loop : ℕ → Connection → Connection
unfolding finish_packet
fake_loop zero c = c
fake_loop (suc rounds) c = elim (find c.tcp_next_send_index c.udp_received_packets) [
  | none ↦ c
  | some p ↦ fake_loop rounds (finish_packet c.tcp_next_send_index p c)
]

unfoldable pub tcp_write_fake : Connection → Connection
unfolding fake_loop
tcp_write_fake c =
    let written = fake_loop (c.udp_received_master_index - c.tcp_next_send_index) c in
    if c.tcp_connected then c else written

unfoldable pub tcp_close : Env → Bool → Connection → Connection
unfolding tcp_write_fake put_packet
tcp_close env error c =
    let closed = record c {
      tcp_connected = false;
      event_tcp_read = Timer.disable c.event_tcp_read;
      event_tcp_write = Timer.disable c.event_tcp_write;
      tcp_closed = true;
    } in
    let built = build_udp_packets env true (tcp_write_fake closed) in
    let type = if error then disconnect else bye in
    let last =
      set_event_udp_write env
        (on_udp_sent_buffer_changed env (put_size type [] built) (put_packet type [] built)) in
    if not c.tcp_connected
    then c
    else if not c.udp_connected
    then record closed { event_close = Timer.set_time_relative_now env.now 0 closed.event_close }
    else last

-- `tcpSocket->write` took `size` bytes of the payload.
unfoldable pub write_part : ℕ → ℕ → Packet → Connection → Connection
write_part size index p c =
    let bytes = take 9 p.bytes ++ drop (9 + size) p.bytes in
    let cut = record p { bytes = bytes } in
    let c' = record c {
      stat_tcp_sent = c.stat_tcp_sent + size;
      tcp_output = c.tcp_output ++ take size (get_data p.bytes);
      udp_receive_buffer_size = sub32 c.udp_receive_buffer_size size;
      udp_received_packets = insert index cut c.udp_received_packets;
    } in
    let sent = record cut { sent = true } in
    if ltb 0 (get_size bytes) then c' else record c' {
      udp_received_packets =
          if is_complete sent
          then erase index c.udp_received_packets
          else insert index sent c.udp_received_packets;
      tcp_next_send_index = c.tcp_next_send_index + 1;
    }

-- "if (tcpNextSendIndex < udpReceivedMasterIndex) eventTcpWrite.setTimeRelativeNow()".
unfoldable pub wake_tcp_write : Env → Connection → Connection
wake_tcp_write env c =
    if ltb c.tcp_next_send_index c.udp_received_master_index
    then record c { event_tcp_write = Timer.set_time_relative_now env.now 0 c.event_tcp_write }
    else c

-- The loop of `tcpWrite(false)`.
unfoldable pub write_loop : ℕ → Env → Connection → Connection
unfolding finish_packet write_part wake_tcp_write
write_loop zero env c = c
write_loop (suc rounds) env c = elim (find c.tcp_next_send_index c.udp_received_packets) [
  | none ↦ c
  | some p ↦
      let index = c.tcp_next_send_index in
      let type = get_type p.bytes in
      let next = finish_packet index p c in
      let more = write_loop rounds env next in
      let size = env.tcp_send (get_data p.bytes) in
      if not (type_eq type data_packet) || get_size p.bytes == 0
      then (if type_eq type bye || type_eq type disconnect then tcp_close env false next else more)
      else wake_tcp_write env (if ltb 0 size then write_part size index p c else c)
]

unfoldable pub tcp_write : Env → Connection → Connection
unfolding write_loop
tcp_write env c =
    let written = write_loop (c.udp_received_master_index - c.tcp_next_send_index) env c in
    if c.tcp_connected then written else c

unfoldable pub udp_close : Env → Connection → Connection
udp_close env c =
    let cleared = record c {
      udp_connected = false;
      event_build_udp_packets = Timer.disable c.event_build_udp_packets;
      event_build_confirmations = Timer.disable c.event_build_confirmations;
      event_udp_resend = Timer.disable c.event_udp_resend;
      event_tcp_read = Timer.disable c.event_tcp_read;
      event_udp_write = Timer.disable c.event_udp_write;
      tcp_read_closed = true;
      tcp_received_data = [];
      udp_confirmation_packets = [];
      udp_sent_packets = [];
    } in
    let closed = on_udp_sent_buffer_changed env (neg32 c.udp_sent_buffer_size) cleared in
    if not c.udp_connected
    then c
    else if not c.tcp_connected
    then record closed { event_close = Timer.set_time_relative_now env.now 0 closed.event_close }
    else if leb c.udp_received_master_index c.tcp_next_send_index
    then tcp_close env false closed
    else closed
