-- ===== src/Tests/Delivered.antt =====
-- The delivered text of a connection, at a concrete stream.
use icetunnel.Prelude.{refl, length, ℕ, sym, ap, List, [], ◌∷◌, arith, ◌==◌, if◌then◌else◌}
use icetunnel.Packet.{new_packet, hello, data_packet, encode}
use icetunnel.Packet.Check.{encode_reads}
use icetunnel.Connection.Write.{tcp_write}
use icetunnel.Connection.Delivery.Progress.{HasProgress, tcp_write_progress}
use icetunnel.Connection.{initial, Input, new_connection, run}
use icetunnel.Connection.State.{Connection, Env}
use icetunnel.Connection.Delivery.{IsPrefix}
use icetunnel.Connection.Delivery.Receive.{IsGenuine}
use icetunnel.Connection.Delivery.Run.{run_delivers}
use icetunnel.Tests.Tunnel.{config, env}

abbrev hello_bytes : List ℕ
hello_bytes = encode hello 0 [] []

abbrev data_bytes : List ℕ
data_bytes = encode data_packet 1 (104 ∷ 105 ∷ []) []

-- A Hello, then the same data in every packet.
abbrev stream : ℕ → List ℕ
stream n = if n == 0 then hello_bytes else data_bytes

-- The data comes before the Hello, and twice.
abbrev inputs : List (Env × Input)
inputs =
    (env, Input.udp_reads data_bytes)
    ∷ (env, Input.udp_reads hello_bytes)
    ∷ (env, Input.udp_reads data_bytes)
    ∷ (env, Input.tcp_writes)
    ∷ (env, Input.builds_confirmations)
    ∷ []

hello-IsGenuine : IsGenuine stream hello_bytes
hello-IsGenuine e =
    let (_, _, index, _, _) = encode_reads hello 0 [] [] tt (omega arith) tt in
    ap stream (sym index)

data-IsGenuine : IsGenuine stream data_bytes
data-IsGenuine e =
    let (_, _, index, _, _) =
      encode_reads data_packet 1 (104 ∷ 105 ∷ []) [] tt (omega arith)
        (omega arith, (omega arith, tt)) in
    ap stream (sym index)

run_delivers_example : IsPrefix stream (run inputs (new_connection env config 1000)).tcp_output
run_delivers_example =
    run_delivers stream env config 1000 inputs
      (data-IsGenuine, (hello-IsGenuine, (data-IsGenuine, (tt, (tt, tt)))))

-- The data is there and has not been written.
abbrev waiting : Connection
waiting = record (initial config 5 1000) {
  tcp_next_send_index = 1;
  udp_received_master_index = 2;
  udp_received_packets = (1, record new_packet { bytes = data_bytes }) ∷ [];
}

tcp_write_progress_example : HasProgress (length waiting.tcp_output) (tcp_write env waiting)
tcp_write_progress_example = tcp_write_progress env waiting (λ bytes some_bytes. some_bytes) refl
