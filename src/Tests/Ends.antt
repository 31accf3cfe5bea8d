-- ===== src/Tests/Ends.antt =====
-- The two ends of the tunnel, at concrete inputs.
use icetunnel.Prelude.{
  ℕ, ◌<◌, ◌≤◌, ◌≡◌, refl, List, [], ◌∷◌, ◌++◌, arith, some, get_elem?, get_or, length,
}
use icetunnel.Packet.{encode, get_size}
use icetunnel.Connection.{Input, new_connection, handle, disarm, run}
use icetunnel.Connection.State.{
  Connection, Env, on_udp_sent_buffer_changed, on_udp_sent, set_event_udp_write, sent_span,
  is_udp_finished, is_no_more_data_will_be_sent,
}
use icetunnel.Connection.Build.{
  put_packet, add_data_packet, build_loop, build_end, build_udp_packets, tcp_read,
}
use icetunnel.Connection.Udp.{wake_udp_write, first_unsent, write_packet, udp_write}
use icetunnel.Connection.Sender.Run.{tcp_input}
use icetunnel.Connection.Sender.Tunnel.{lived, tunnel_delivers}
use icetunnel.Tests.Tunnel.{config, env}

-- Three bytes are read, cut to a packet and sent, behind the Hello.
abbrev sender_inputs : List (Env × Input)
sender_inputs =
    (env, Input.udp_writes 5)
    ∷ (env, Input.tcp_reads)
    ∷ (env, Input.builds_udp_packets)
    ∷ (env, Input.udp_writes 5)
    ∷ []

abbrev sender : Connection
sender = lived env config 1000 sender_inputs

abbrev datagram : ℕ → List ℕ
datagram i = get_or sender.udp_output i []

sender_output :
    (get_elem? sender.udp_output 0 ≡ some (datagram 0))
    × (get_elem? sender.udp_output 1 ≡ some (datagram 1))
    × (sender.udp_next_send_index ≡ 2)
unfolding run handle disarm new_connection put_packet add_data_packet build_loop build_end
    build_udp_packets tcp_read wake_udp_write first_unsent write_packet udp_write
    on_udp_sent_buffer_changed on_udp_sent set_event_udp_write sent_span is_udp_finished
    is_no_more_data_will_be_sent encode get_size
sender_output = (refl, refl, refl)

-- The data comes before the Hello, and twice.
abbrev receiver_inputs : List (Env × Input)
receiver_inputs =
    (env, Input.udp_reads (datagram 1))
    ∷ (env, Input.udp_reads (datagram 0))
    ∷ (env, Input.udp_reads (datagram 1))
    ∷ (env, Input.tcp_writes)
    ∷ []

env-IsWhole : (bytes : List ℕ) → 0 < env.udp_send bytes → length bytes ≤ env.udp_send bytes
env-IsWhole bytes some_bytes = omega arith

tunnel_delivers_example :
    (rest : List ℕ) × ((lived env config 1000 receiver_inputs).tcp_output ++ rest
      ≡ tcp_input sender_inputs (new_connection env config 1000))
tunnel_delivers_example =
    let (first, second, count) = sender_output in
    tunnel_delivers env env config config 1000 1000 sender_inputs receiver_inputs
      (env-IsWhole, (env-IsWhole, (env-IsWhole, (env-IsWhole, tt)))) (omega (arith, count))
      ((λ e. (1, second)), ((λ e. (0, first)), ((λ e. (1, second)), (tt, tt))))
