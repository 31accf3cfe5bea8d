-- ===== src/Connection/Udp.antt =====
-- connection.cpp: `udpWrite` and `udpResend`.
use icetunnel.Prelude.{
  ℕ, ◌+◌, ◌-◌, true, false, not, ◌&&◌, ◌||◌, Option, none, some, List, [], ◌∷◌, ◌++◌, ltb, leb,
  ◌==◌, if◌then◌else◌, length, take, add32, sub32, neg32, slt,
}
use icetunnel.Packet.{Packet, is_complete, get_size}
use icetunnel.Event.Timer
use icetunnel.Connection.Map.{Map, insert, erase}
use icetunnel.Connection.State.{
  Connection, Env, is_nil, is_udp_finished, on_udp_sent_buffer_changed, on_udp_sent,
  on_udp_delivered, set_event_udp_write,
}
use icetunnel.Connection.Write.{udp_close}

-- "eventUdpWrite.setTime(udpLastSentUs + udpSendIntervalUs)".
unfoldable pub wake_udp_write : Connection → Connection
wake_udp_write c = record c {
  event_udp_write =
      Timer.set_time false c.event_udp_write (some (c.udp_last_sent_us + c.udp_send_interval_us));
}

-- The first packet of the map that is not sent.
unfoldable pub first_unsent : Map Packet → Option (ℕ × Packet)
first_unsent [] = none
first_unsent ((k, p) ∷ m) = if p.sent then first_unsent m else some (k, p)

-- The first part of `udpWrite`: the confirmation or bye-bye in front goes out. `writeto` took `size`
-- bytes.
unfoldable pub write_confirmation : Env → ℕ → Packet → List Packet → Connection → Connection
unfolding wake_udp_write
write_confirmation env planned packet rest c =
    let size = env.udp_send packet.bytes in
    let counted = record c {
      stat_udp_sent = c.stat_udp_sent + size;
      udp_output = c.udp_output ++ take size packet.bytes ∷ [];
      udp_last_sent_us = planned;
    } in
    let erased = record (on_udp_sent_buffer_changed env (neg32 (get_size packet.bytes)) counted) {
      udp_confirmation_packets = rest;
    } in
    if ltb 0 size || length packet.bytes == 0
    then (if is_udp_finished erased
        then udp_close env erased
        else if not (is_nil rest) || slt 0 erased.udp_packets_to_send_count
        then wake_udp_write erased
        else erased)
    else wake_udp_write c

-- The second part: the packet with key `k` goes out.
unfoldable pub write_packet : Env → ℕ → ℕ → Packet → Connection → Connection
unfolding wake_udp_write
write_packet env planned k packet c =
    let size = env.udp_send packet.bytes in
    let sent = record packet {
      sent = true;
      sent_time_us = env.now;
      measure_index = c.udp_send_measure_index;
    } in
    let counted =
      on_udp_sent env c.udp_send_measure_index c.udp_send_interval_us (get_size packet.bytes)
        (record c {
          stat_udp_sent = c.stat_udp_sent + size;
          udp_output = c.udp_output ++ take size packet.bytes ∷ [];
          udp_sent_packets = insert k sent c.udp_sent_packets;
          udp_last_sent_us = planned;
        }) in
    let fewer = record counted {
      udp_packets_to_send_count = sub32 counted.udp_packets_to_send_count 1;
    } in
    let changed = on_udp_sent_buffer_changed env (neg32 (get_size packet.bytes)) fewer in
    let erased = record changed { udp_sent_packets = erase k changed.udp_sent_packets } in
    let waiting = record fewer {
      event_udp_resend =
          Timer.set_time_relative_now env.now fewer.udp_resend_us fewer.event_udp_resend;
    } in
    let done =
      if ltb 0 size || length packet.bytes == 0
      then (if is_complete sent then erased else waiting)
      else c in
    if (ltb 0 size || length packet.bytes == 0) && is_complete sent && is_udp_finished erased
    then udp_close env erased
    else if slt 0 done.udp_packets_to_send_count
    then wake_udp_write done
    else done

unfoldable pub udp_write : Env → ℕ → Connection → Connection
unfolding write_confirmation write_packet first_unsent
udp_write env planned c = if not c.udp_connected then c else elim c.udp_confirmation_packets [
  | packet ∷ rest ↦ write_confirmation env planned packet rest c
  | [] ↦ elim (first_unsent c.udp_sent_packets) [
    | none ↦ c
    | some (k, packet) ↦ write_packet env planned k packet c
  ]
]

-- One packet that has waited too long goes back to those to send.
unfoldable pub resend_packet : Env → ℕ → Packet → Connection → Connection
resend_packet env k p c =
    let again = record p { sent = false; remain_resend_count = p.remain_resend_count - 1 } in
    set_event_udp_write env (
      on_udp_delivered env false p.measure_index (get_size p.bytes) (record c {
        udp_packets_to_send_count = add32 c.udp_packets_to_send_count 1;
        udp_sent_packets = insert k again c.udp_sent_packets;
      }))

-- The loop of `udpResend`, over the entries still to visit. A round changes no entry but its own.
unfoldable pub resend_loop : Env → Map Packet → Connection → Connection
unfolding resend_packet
resend_loop env [] c = c
resend_loop env ((k, p) ∷ m) c =
    let late = leb (p.sent_time_us + c.udp_resend_us) env.now in
    let stop = p.sent && late && p.remain_resend_count == 0 in
    let rest = resend_loop env m (
      if p.sent
      then (if late then resend_packet env k p c else record c {
        event_udp_resend =
            Timer.set_time false c.event_udp_resend (some (p.sent_time_us + c.udp_resend_us));
      })
      else c) in
    if stop then udp_close env c else rest

unfoldable pub udp_resend : Env → Connection → Connection
unfolding resend_loop
udp_resend env c = if c.udp_connected then resend_loop env c.udp_sent_packets c else c
