-- ===== src/Connection.antt =====
-- connection.h and connection.cpp: one TCP connection, tunnelled through UDP. The handlers stand in
-- the child modules, by direction; this file has the constructor and the dispatch of events.
pub mod Map
pub mod State
pub mod Build
pub mod Write
pub mod Confirm
pub mod Udp
pub mod Read
pub mod Frame
pub mod Delivery
pub mod Side
pub mod Sender
use icetunnel.Prelude.{ℕ, ◌+◌, Bool, true, false, none, some, List, [], ◌∷◌, if◌then◌else◌, int_max}
use icetunnel.Packet.{hello}
use icetunnel.Event.Timer
use State.{Connection, Config, Env, new_measure, on_udp_sent_buffer_changed, is_udp_finished}
use Build.{put_packet, put_size, build_udp_packets, tcp_read}
use Write.{tcp_write, tcp_close, udp_close}
use Confirm.{build_confirmations, build_bye_bye}
use Udp.{udp_write, udp_resend}
use Read.{udp_read}

-- The fields as the initialisers leave them.
abbrev pub initial : Config → ℕ → ℕ → Connection
initial config now udp_initial_send_interval_us = record {
  config = config;
  tcp_connected = true;
  udp_connected = true;
  tcp_next_send_index = 0;
  udp_next_send_index = 0;
  udp_received_master_index = 0;
  udp_confirmed_master_index = 0;
  udp_received_final_index = int_max;
  udp_sent_buffer_size = 0;
  udp_receive_buffer_size = 0;
  udp_packets_to_send_count = 0;
  remain_confirmation_resend_count = 0;
  remain_bye_bye_resend_count = 0;
  tcp_received_data = [];
  udp_sent_packets = [];
  udp_confirmation_packets = [];
  udp_received_packets = [];
  udp_last_sent_us = 0;
  udp_send_interval_us = udp_initial_send_interval_us;
  udp_send_measure_index = 0;
  udp_send_measures = (0, record new_measure { begin_us = some now }) ∷ [];
  event_tcp_read = none;
  event_tcp_write = none;
  event_tcp_close = none;
  event_udp_write = none;
  event_udp_close = none;
  event_build_udp_packets = none;
  event_build_confirmations = none;
  event_build_bye_bye = none;
  event_udp_resend = none;
  event_udp_close_wait = none;
  event_close = none;
  tcp_closed = false;
  tcp_read_closed = false;
  tcp_output = [];
  udp_output = [];
  stat_tcp_sent = 0;
  stat_tcp_received = 0;
  stat_udp_sent = 0;
  stat_udp_received_extra = 0;
  fault = false;
}

-- `Connection::Connection`: it queues the Hello, which has index 0.
unfoldable pub new_connection : Env → Config → ℕ → Connection
unfolding put_packet on_udp_sent_buffer_changed
new_connection env config udp_initial_send_interval_us =
    let start = initial config env.now udp_initial_send_interval_us in
    let queued =
      on_udp_sent_buffer_changed env (put_size hello [] start) (put_packet hello [] start) in
    record queued {
      event_udp_write = Timer.set_time_relative_now env.now 0 queued.event_udp_write;
      event_tcp_close = Timer.set_time_relative_now env.now 0 queued.event_tcp_close;
      event_udp_close = Timer.set_time_relative_now env.now 0 queued.event_udp_close;
    }

-- What raises a handler: one of the eleven events, or a datagram that `UdpListener` passes on. The
-- two close events come with `wasError()` of their socket, and `udpClose` ignores it.
pub data Input : Type 0 where
  tcp_reads tcp_writes : Input
  tcp_closes : Bool → Input
  udp_writes : ℕ → Input
  udp_closes : Bool → Input
  builds_udp_packets builds_confirmations builds_bye_bye udp_resends udp_close_waits closes : Input
  udp_reads : List ℕ → Input

-- `Connection::handle`, and `udpRead`. `closes` hands the connection to
-- `Server::onConnectionClosed`, which deletes it.
unfoldable pub handle : Env → Input → Connection → Connection
handle env tcp_reads c = tcp_read env c
handle env tcp_writes c = tcp_write env c
handle env (tcp_closes error) c = tcp_close env error c
handle env (udp_writes planned) c = udp_write env planned c
handle env (udp_closes error) c = udp_close env c
handle env builds_udp_packets c = build_udp_packets env true c
handle env builds_confirmations c = build_confirmations env c
handle env builds_bye_bye c = build_bye_bye env c
handle env udp_resends c = udp_resend env c
handle env udp_close_waits c = if is_udp_finished c then udp_close env c else c
handle env closes c = c
handle env (udp_reads bytes) c = udp_read env bytes c

-- `Event::raise` disables the event before it calls the handler.
unfoldable pub disarm : Input → Connection → Connection
disarm tcp_reads c = record c { event_tcp_read = none }
disarm tcp_writes c = record c { event_tcp_write = none }
disarm (tcp_closes error) c = record c { event_tcp_close = none }
disarm (udp_writes planned) c = record c { event_udp_write = none }
disarm (udp_closes error) c = record c { event_udp_close = none }
disarm builds_udp_packets c = record c { event_build_udp_packets = none }
disarm builds_confirmations c = record c { event_build_confirmations = none }
disarm builds_bye_bye c = record c { event_build_bye_bye = none }
disarm udp_resends c = record c { event_udp_resend = none }
disarm udp_close_waits c = record c { event_udp_close_wait = none }
disarm closes c = record c { event_close = none }
disarm (udp_reads bytes) c = c

-- A connection that is given a list of inputs, in any order. It is no function of the program: what
-- `doEvents` hands to a connection is one such list.
unfoldable pub run : List (Env × Input) → Connection → Connection
unfolding handle disarm
run [] c = c
run ((env, input) ∷ inputs) c = run inputs (handle env input (disarm input c))
