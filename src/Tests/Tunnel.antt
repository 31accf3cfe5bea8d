-- ===== src/Tests/Tunnel.antt =====
-- The theorems of the server and the connections, at concrete inputs.
use icetunnel.Connection.Map.{find}
use icetunnel.Connection.Read.{advance_master}
use icetunnel.Connection.Read.Advance.{closes, IsFinal, advance_master_lem}
use icetunnel.Prelude.{
  ◌⊎◌, inl, inr, Bool-cases, ◌==◌, ◌*◌, none, ◌<◌, ℕ, ◌+◌, ◌/◌, ◌≤◌, ◌≡◌, refl, true, false, none,
  some, List, [], ◌∷◌, arith, length, max, take,
}
use icetunnel.Packet.{Packet, new_packet, get_type, check_crc32}
use icetunnel.Connection.{initial, new_connection}
use icetunnel.Connection.Build.{build_udp_packets, data_to_build}
use icetunnel.Connection.Build.Cut.{IsCut, build_udp_packets_lem}
use icetunnel.Connection.State.{Connection, Config, Env}
use icetunnel.Server.{
  Server, Link, create_udp_listener, udp_listener_read, UdpListener, TcpListener,
  get_udp_initial_interval_us, poll_duration, create_connection, connection_by_address,
  tcp_listener_read, is_client_side, is_data_packet_type, new_udp_listener,
}
use icetunnel.Server.Destroy.{destroy_server, destroy_server-empty}
use icetunnel.Server.Entries.{HasLink, new_link}
use icetunnel.Server.Served.{IsServed}
use icetunnel.Server.Accept.{create_connection_once, tcp_listener_read_opens}
use icetunnel.Server.Deliver.{handed, IsSource, udp_listener_read_delivers}
use icetunnel.Socket.Open.{poll_wait_ms}
use icetunnel.Server.Interval.{
  get_udp_initial_interval_us_bounds, new_connection_starts, poll_wait_bounds,
}

-- The values of the constructor of `Server`.
abbrev pub config : Config
config = record {
  udp_send_packet_size = 1024;
  udp_max_sent_buffer_size = 8_388_608;
  udp_max_receive_buffer_size = 8_388_608;
  udp_max_sent_measure_size = 65_536;
  udp_resend_count = 20;
  confirmation_resend_count = 5;
  udp_resend_us = 1_000_000;
  build_confirmations_us = 100_000;
  build_udp_packets_us = 100_000;
  udp_max_sent_measure_us = 1_000_000;
}

abbrev pub env : Env
env = record {
  now = 5;
  tcp_recv = λ n. take n (1 ∷ 2 ∷ 3 ∷ []);
  tcp_send = λ bytes. length bytes;
  udp_send = λ bytes. length bytes;
  end_first = λ m. 0;
  next_interval = λ m resend. 1000;
}

abbrev rate : ℕ → List ℕ → ℕ
rate initial intervals = initial

abbrev front : TcpListener
front = record { tcp_address = 1 ∷ []; udp_address = 2 ∷ [] }

abbrev back : UdpListener
back = new_udp_listener (3 ∷ []) (4 ∷ [])

abbrev pub server : Server
server = record {
  config = config;
  udp_initial_send_interval_us = 1000;
  last_object_index = 2;
  tcp_listeners = (1, front) ∷ [];
  udp_listeners = (2, back) ∷ [];
  connections = [];
  stat_udp_received = 0;
}

get_udp_initial_interval_us_bounds_example :
    (server.udp_initial_send_interval_us / 2 ≤ get_udp_initial_interval_us rate server)
    × (get_udp_initial_interval_us rate server
        ≤ max server.udp_initial_send_interval_us (server.config.udp_resend_us / 3))
get_udp_initial_interval_us_bounds_example = get_udp_initial_interval_us_bounds rate server

new_connection_starts_example :
    (new_connection env server.config (get_udp_initial_interval_us rate server)).fault ≡ false
new_connection_starts_example = new_connection_starts rate env server (omega arith) (omega arith)

poll_wait_bounds_example :
    let duration_us = poll_duration 2000 10 30 (some 1500) in
    let wait_us = 1000 * poll_wait_ms duration_us 700 in
    (wait_us < 2000 + 1000)
    × ((t : ℕ) → some 1500 ≡ some t → 30 + wait_us < max 30 t + 1000)
    × (duration_us < wait_us + 1000)
poll_wait_bounds_example = poll_wait_bounds 2000 10 30 700 (some 1500) (omega arith)

server-IsServed : IsServed server
unfolding connection_by_address
server-IsServed listener a id e = elim (Bool-cases (listener == 2)) [
  | inl same ↦ absurd (ground (arith, same, e))
  | inr other ↦ absurd (ground (arith, other, e))
]

create_connection_once_example :
    let out = create_connection rate env 2 (9 ∷ []) server in
    IsServed out.0
    × ((id : ℕ) × (c : Link) × HasLink 2 (9 ∷ []) out.0 id c
        × (((connection_by_address 2 (9 ∷ []) server ≡ some id)
              × (find id server.connections ≡ some c)
              × (out.1 ≡ none))
            ⊎ ((connection_by_address 2 (9 ∷ []) server ≡ none)
                × (c ≡ new_link rate env 2 (9 ∷ []) server)
                × (out.1 ≡ some id))))
    × ((create_connection rate env 2 (9 ∷ []) out.0).1 ≡ none)
create_connection_once_example =
    create_connection_once rate env 2 (9 ∷ []) server back refl server-IsServed

tcp_listener_read_opens_example :
    let out = tcp_listener_read rate env 1 true server in
    let own = server.last_object_index + 1 in
    (out.1 ≡ false)
    × HasLink own front.udp_address out.0
        (own + 1)
        (new_link rate env own front.udp_address (create_udp_listener [] [] server))
    × (is_client_side own out.0 ≡ true)
    × ((k : ℕ) → (k == (own + 1)) ≡ false → find k out.0.connections ≡ find k server.connections)
tcp_listener_read_opens_example = tcp_listener_read_opens rate env 1 server front refl

hello_type : is_data_packet_type (get_type []) ≡ true
unfolding is_data_packet_type get_type
hello_type = refl

udp_listener_read_delivers_example :
    let out = udp_listener_read rate env 2 (some (9 ∷ [], [])) server in
    ((check_crc32 [] ≡ false)
      × (out ≡ record server { stat_udp_received = server.stat_udp_received + length {A = ℕ} [] }))
    ⊎ ((check_crc32 [] ≡ true)
        × ((id : ℕ) × (c : Link) × HasLink 2 (9 ∷ []) out id (handed env [] c)
            × IsSource rate env 2 (9 ∷ []) server id c
            × ((k : ℕ) → (k == id) ≡ false → find k out.connections ≡ find k server.connections)))
udp_listener_read_delivers_example =
    udp_listener_read_delivers rate env 2 (9 ∷ []) [] server back refl refl refl hello_type
      server-IsServed

-- A connection with three bytes from its TCP socket.
abbrev with_data : Connection
with_data = record (initial config 5 1000) { tcp_received_data = 1 ∷ 2 ∷ 3 ∷ [] }

build_udp_packets_lem_example :
    let d = build_udp_packets env true with_data in
    IsCut with_data (data_to_build with_data) (d, d.tcp_received_data)
    × (length d.tcp_received_data < with_data.udp_send_packet_size)
    × (true ≡ true → d.tcp_received_data ≡ [])
build_udp_packets_lem_example = build_udp_packets_lem env true with_data refl (omega arith)

-- A connection with the packets 0, 1 and 3.
abbrev with_packets : Connection
with_packets = record (initial config 5 1000) {
  udp_received_packets = (0, new_packet) ∷ (1, new_packet) ∷ (3, new_packet) ∷ [];
}

advance_master_lem_example :
    let d = advance_master (length with_packets.udp_received_packets) with_packets in
    ((find d.udp_received_master_index with_packets.udp_received_packets ≡ none)
      ⊎ (d.udp_received_final_index ≤ d.udp_received_master_index))
    × (with_packets.udp_received_master_index ≤ d.udp_received_master_index)
    × ((k : ℕ)
        → with_packets.udp_received_master_index ≤ k
        → k < d.udp_received_master_index
        → (p : Packet) × (find k with_packets.udp_received_packets ≡ some p)
          × (k < with_packets.udp_received_final_index)
          × (closes p ≡ true → k + 1 ≡ d.udp_received_master_index))
    × IsFinal with_packets d
advance_master_lem_example = advance_master_lem with_packets

-- The server after a datagram has opened a connection.
abbrev connected : Server
connected = (create_connection rate env 2 (9 ∷ []) server).0

destroy_server-empty_example :
    ((destroy_server connected).connections ≡ [])
    × ((destroy_server connected).tcp_listeners ≡ [])
    × ((destroy_server connected).udp_listeners ≡ [])
destroy_server-empty_example = destroy_server-empty connected
