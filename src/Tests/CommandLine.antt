-- ===== src/Tests/CommandLine.antt =====
-- The command line, at concrete arguments.
use Prim.Native.String.{String}
use icetunnel.Prelude.{arith, get_elem?, zero, ◌≡◌, refl, true, false, some, List, [], ◌∷◌}
use icetunnel.Main.{
  Param, daemon, test, test_tcp_remote_address, test_udp_remote_address, tcp_backlog,
  tcp_receive_address_size, udp_receive_packet_size, udp_receive_address_size, udp_send_packet_size,
  udp_max_sent_buffer_size, udp_max_receive_buffer_size, udp_max_sent_measure_size,
  udp_resend_count, confirmation_resend_count, udp_max_send_loss_percent,
  udp_initial_send_interval_us, udp_resend_us, build_confirmations_us, build_udp_packets_us,
  udp_max_sent_measure_us, udp_listener, tcp_listener, test_listener, help, Parsers, Setup, params,
  find_param, apply_all,
}
use icetunnel.Main.Missing.{apply_all_missing}
use icetunnel.Main.Order.{uses, apply_all_order}
use icetunnel.Tests.Tunnel.{server}

abbrev parsers : Parsers
parsers = record { to_int = λ text. 5; to_double = λ text. 0; to_address = λ text. some (1 ∷ []) }

abbrev setup : Setup
setup = record {
  server = server;
  logs = true;
  test = false;
  test_tcp_remote_address = [];
  test_udp_remote_address = [];
  tcp_backlog = 1024;
  tcp_receive_address_size = 1024;
  udp_receive_packet_size = 1_048_576;
  udp_receive_address_size = 1024;
  udp_max_send_loss_percent = 30;
  test_listeners = [];
  fault = false;
}

-- A listener before the parameter of its connections, and behind it.
abbrev listener_first : List String
listener_first = "--udp-listener" ∷ "1234" ∷ "1.2.3.4:1080" ∷ "--udp-resend-us" ∷ "5" ∷ []

abbrev listener_last : List String
listener_last = "--udp-resend-us" ∷ "5" ∷ "--udp-listener" ∷ "1234" ∷ "1.2.3.4:1080" ∷ []

same_uses : (param : Param) → uses param zero listener_first ≡ uses param zero listener_last
unfolding find_param
same_uses daemon = refl
same_uses test = refl
same_uses test_tcp_remote_address = refl
same_uses test_udp_remote_address = refl
same_uses tcp_backlog = refl
same_uses tcp_receive_address_size = refl
same_uses udp_receive_packet_size = refl
same_uses udp_receive_address_size = refl
same_uses udp_send_packet_size = refl
same_uses udp_max_sent_buffer_size = refl
same_uses udp_max_receive_buffer_size = refl
same_uses udp_max_sent_measure_size = refl
same_uses udp_resend_count = refl
same_uses confirmation_resend_count = refl
same_uses udp_max_send_loss_percent = refl
same_uses udp_initial_send_interval_us = refl
same_uses udp_resend_us = refl
same_uses build_confirmations_us = refl
same_uses build_udp_packets_us = refl
same_uses udp_max_sent_measure_us = refl
same_uses udp_listener = refl
same_uses tcp_listener = refl
same_uses test_listener = refl
same_uses help = refl

apply_all_order_example :
    apply_all parsers params listener_first setup ≡ apply_all parsers params listener_last setup
apply_all_order_example = apply_all_order parsers listener_first listener_last setup same_uses

-- The name of a parameter stands last.
abbrev cut_short : List String
cut_short = "--test" ∷ "--udp-listener" ∷ "1234" ∷ []

cut_use : get_elem? (uses udp_listener zero cut_short) 0 ≡ some (udp_listener, "1234" ∷ [])
unfolding find_param
cut_use = refl

apply_all_missing_example : (apply_all parsers params cut_short setup).fault ≡ true
apply_all_missing_example =
    apply_all_missing parsers cut_short setup udp_listener udp_listener 0 ("1234" ∷ []) cut_use
      (omega arith)
