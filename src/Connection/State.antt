-- ===== src/Connection/State.antt =====
-- connection.h: the state of a connection, and what its handlers get from outside.
use icetunnel.Prelude.{
  ℕ, ◌+◌, ◌-◌, ◌/◌, min, max, Bool, true, false, not, ◌&&◌, ◌||◌, Option, none, some, List, [], ◌∷◌,
  ltb, leb, ◌==◌, if◌then◌else◌, add32, sub32, sle,
}
use icetunnel.Packet.{Packet}
use icetunnel.Event.Timer
use icetunnel.Event.Timer.{Time, is_enabled}
use icetunnel.Connection.Map.{Map, find, insert, erase_to}

-- `Measure`; -1 in `beginUs` and `endUs` is `none`.
pub record Measure : Type 0 where
  pub begin_us : Time
  pub end_us : Time
  pub count : ℕ
  pub size : ℕ
  pub success_size : ℕ
  pub fail_size : ℕ
  pub summary_interval_us : ℕ

abbrev pub new_measure : Measure
new_measure = record {
  begin_us = none;
  end_us = none;
  count = 0;
  size = 0;
  success_size = 0;
  fail_size = 0;
  summary_interval_us = 0;
}

-- The values that the constructor takes from the server.
pub record Config : Type 0 where
  pub udp_send_packet_size : ℕ
  pub udp_max_sent_buffer_size : ℕ
  pub udp_max_receive_buffer_size : ℕ
  pub udp_max_sent_measure_size : ℕ
  pub udp_resend_count : ℕ
  pub confirmation_resend_count : ℕ
  pub udp_resend_us : ℕ
  pub build_confirmations_us : ℕ
  pub build_udp_packets_us : ℕ
  pub udp_max_sent_measure_us : ℕ

-- One call of a handler: the clock (`Platform::nowUs`), the calls of the two sockets, the value that
-- is read through `udpSentPackets.end()`, and the floating-point part of `onUdpDelivered`.
-- `tcp_recv n` are the bytes that a read of `n` bytes gives; `tcp_send` and `udp_send` are the
-- numbers of bytes that the system took.
pub record Env : Type 0 where
  pub now : ℕ
  pub tcp_recv : ℕ → List ℕ
  pub tcp_send : List ℕ → ℕ
  pub udp_send : List ℕ → ℕ
  pub end_first : Map Packet → ℕ
  pub next_interval : Measure → ℕ → ℕ

-- `udpSentBufferSize`, `udpReceiveBufferSize` and `udpPacketsToSendCount` are ints as 32-bit
-- patterns. The two `remain` counts are tested for > 0 only and never raised by one, so that those
-- below 0 stand for 0. `tcp_output` and `udp_output` are what was written to the sockets so far, and
-- `fault` tells that a division by zero has trapped.
pub record Connection : Type 0 where
  pub config : Config
  pub open config use *
  pub tcp_connected : Bool
  pub udp_connected : Bool
  pub tcp_next_send_index : ℕ
  pub udp_next_send_index : ℕ
  pub udp_received_master_index : ℕ
  pub udp_confirmed_master_index : ℕ
  pub udp_received_final_index : ℕ
  pub udp_sent_buffer_size : ℕ
  pub udp_receive_buffer_size : ℕ
  pub udp_packets_to_send_count : ℕ
  pub remain_confirmation_resend_count : ℕ
  pub remain_bye_bye_resend_count : ℕ
  pub tcp_received_data : List ℕ
  pub udp_sent_packets : Map Packet
  pub udp_confirmation_packets : List Packet
  pub udp_received_packets : Map Packet
  pub udp_last_sent_us : ℕ
  pub udp_send_interval_us : ℕ
  pub udp_send_measure_index : ℕ
  pub udp_send_measures : Map Measure
  pub event_tcp_read : Time
  pub event_tcp_write : Time
  pub event_tcp_close : Time
  pub event_udp_write : Time
  pub event_udp_close : Time
  pub event_build_udp_packets : Time
  pub event_build_confirmations : Time
  pub event_build_bye_bye : Time
  pub event_udp_resend : Time
  pub event_udp_close_wait : Time
  pub event_close : Time
  pub tcp_closed : Bool
  pub tcp_read_closed : Bool
  pub tcp_output : List ℕ
  pub udp_output : List (List ℕ)
  pub stat_tcp_sent : ℕ
  pub stat_tcp_received : ℕ
  pub stat_udp_sent : ℕ
  pub stat_udp_received_extra : ℕ
  pub fault : Bool

abbrev pub is_nil {ℓ} : {A : Type ℓ} → List A → Bool
is_nil [] = true
is_nil (x ∷ xs) = false

unfoldable pub is_no_more_data_will_be_sent : Connection → Bool
is_no_more_data_will_be_sent c =
    (not c.tcp_connected || c.udp_received_final_index == c.udp_received_master_index)
    && is_nil c.tcp_received_data
    && is_nil c.udp_sent_packets

unfoldable pub is_udp_finished : Connection → Bool
unfolding is_no_more_data_will_be_sent
is_udp_finished c =
    not c.udp_connected
    || is_no_more_data_will_be_sent c
      && is_nil c.udp_confirmation_packets
      && leb c.udp_received_master_index c.udp_confirmed_master_index
      && leb c.udp_received_master_index c.tcp_next_send_index
      && c.remain_confirmation_resend_count == 0
      && c.remain_bye_bye_resend_count == 0
      && not (is_enabled c.event_udp_close_wait)

-- `udpSentPackets.end()->first - udpSentPackets.begin()->first`, or 0.
unfoldable pub sent_span : Env → Map Packet → ℕ
sent_span env [] = 0
sent_span env ((k, p) ∷ m) = sub32 (env.end_first ((k, p) ∷ m)) k

-- `onUdpSentBufferChanged`; a negative increment comes as its pattern.
unfoldable pub on_udp_sent_buffer_changed : Env → ℕ → Connection → Connection
unfolding sent_span
on_udp_sent_buffer_changed env size_increment c =
    let max_count =
      min (10_000_000 / c.udp_send_interval_us)
        (c.udp_max_sent_buffer_size / c.udp_send_packet_size) in
    record c {
      udp_sent_buffer_size = add32 c.udp_sent_buffer_size size_increment;
      event_tcp_read =
          if sle (sent_span env c.udp_sent_packets) max_count
          then Timer.set_time_relative_now env.now 0 c.event_tcp_read
          else Timer.disable c.event_tcp_read;
      fault = c.fault || c.udp_send_interval_us == 0 || c.udp_send_packet_size == 0;
    }

-- `timeUs - beginUs`.
abbrev pub elapsed : ℕ → Time → ℕ
elapsed now none = now + 1
elapsed now (some begin) = now - begin

abbrev pub or_new : Option Measure → Measure
or_new none = new_measure
or_new (some m) = m

unfoldable pub on_udp_sent : Env → ℕ → ℕ → ℕ → Connection → Connection
on_udp_sent env measure_index interval_us size c =
    if measure_index == c.udp_send_measure_index
    then elim (find c.udp_send_measure_index c.udp_send_measures) [
      | none ↦ c
      | some m ↦
          let m' = record m {
            count = m.count + 1;
            size = m.size + size;
            summary_interval_us = m.summary_interval_us + interval_us;
          } in
          let next = c.udp_send_measure_index + 1 in
          let ended =
            insert c.udp_send_measure_index (record m' { end_us = some env.now })
              c.udp_send_measures in
          if leb c.udp_max_sent_measure_size m'.size
            || leb c.udp_max_sent_measure_us (elapsed env.now m'.begin_us)
          then record c {
            udp_send_measure_index = next;
            udp_send_measures =
                insert next (record (or_new (find next ended)) { begin_us = some env.now }) ended;
          }
          else record c {
            udp_send_measures = insert c.udp_send_measure_index m' c.udp_send_measures;
          }
    ]
    else c

-- `beginUs >= 0 && endUs >= beginUs`.
abbrev pub has_ended : Measure → Bool
has_ended m = elim m.begin_us [
  | none ↦ false
  | some begin ↦ elim m.end_us [ none ↦ false | some end ↦ leb begin end ]
]

unfoldable pub on_udp_delivered : Env → Bool → ℕ → ℕ → Connection → Connection
on_udp_delivered env success measure_index size c = elim (find measure_index c.udp_send_measures) [
  | none ↦ c
  | some m ↦
      let m' =
        if success
        then record m { success_size = m.success_size + size }
        else record m { fail_size = m.fail_size + size } in
      if has_ended m' && ltb 0 m'.count && leb m'.size (m'.success_size + m'.fail_size)
      then record c {
        udp_send_interval_us = env.next_interval m' c.udp_resend_us;
        udp_send_measures = erase_to measure_index c.udp_send_measures;
      }
      else record c { udp_send_measures = insert measure_index m' c.udp_send_measures }
]

-- `Platform::nowUs() - udpSendIntervalUs` below 0 loses against `udpLastSentUs`, as 0 does.
unfoldable pub set_event_udp_write : Env → Connection → Connection
set_event_udp_write env c =
    let last =
      if is_enabled c.event_udp_write
      then c.udp_last_sent_us
      else max c.udp_last_sent_us (env.now - c.udp_send_interval_us) in
    record c {
      udp_last_sent_us = last;
      event_udp_write =
          Timer.set_time false c.event_udp_write (some (last + c.udp_send_interval_us));
    }
