-- ===== src/Connection/Delivery/Run.antt =====
-- A connection from its start, through any inputs, and the text.
use icetunnel.Prelude.{if_case, ℕ, refl, true, List, [], ◌∷◌, All}
use icetunnel.Connection.{Input, new_connection, handle, disarm, run}
use icetunnel.Connection.State.{
  Connection, Config, Env, is_udp_finished, on_udp_sent_buffer_changed,
}
use icetunnel.Connection.Build.{put_packet}
use icetunnel.Connection.Frame.{Frame, Frame-refl, build_udp_packets-Frame}
use icetunnel.Connection.Delivery.{IsPrefix}
use icetunnel.Connection.Delivery.Kept.{
  IsDelivered, Frame-IsDelivered, tcp_close-IsDelivered, udp_close-IsDelivered,
}
use icetunnel.Connection.Delivery.Write.{tcp_write-IsDelivered}
use icetunnel.Connection.Delivery.Receive.{IsGenuine, udp_read-IsDelivered}
use icetunnel.Connection.Delivery.Send.{
  tcp_read-Frame, udp_write-IsDelivered, resend_loop-IsDelivered, build_confirmations-IsDelivered,
  build_bye_bye-Frame,
}
use icetunnel.Connection.Udp.{udp_resend}

-- The datagrams among the inputs are genuine.
abbrev pub IsGenuineInput : (ℕ → List ℕ) → Env × Input → Type 0
IsGenuineInput stream (env, Input.udp_reads bytes) = IsGenuine stream bytes
IsGenuineInput stream (env, input) = Unit {0}

disarm-Frame : (input : Input) (c : Connection) → Frame c (disarm input c)
unfolding disarm
disarm-Frame (Input.udp_reads bytes) c = Frame-refl c
disarm-Frame Input.tcp_reads c = record {
  connected = refl;
  output = refl;
  next = refl;
  received = refl;
}
disarm-Frame Input.tcp_writes c = record {
  connected = refl;
  output = refl;
  next = refl;
  received = refl;
}
disarm-Frame (Input.tcp_closes error) c = record {
  connected = refl;
  output = refl;
  next = refl;
  received = refl;
}
disarm-Frame (Input.udp_writes planned) c = record {
  connected = refl;
  output = refl;
  next = refl;
  received = refl;
}
disarm-Frame (Input.udp_closes error) c = record {
  connected = refl;
  output = refl;
  next = refl;
  received = refl;
}
disarm-Frame Input.builds_udp_packets c = record {
  connected = refl;
  output = refl;
  next = refl;
  received = refl;
}
disarm-Frame Input.builds_confirmations c = record {
  connected = refl;
  output = refl;
  next = refl;
  received = refl;
}
disarm-Frame Input.builds_bye_bye c = record {
  connected = refl;
  output = refl;
  next = refl;
  received = refl;
}
disarm-Frame Input.udp_resends c = record {
  connected = refl;
  output = refl;
  next = refl;
  received = refl;
}
disarm-Frame Input.udp_close_waits c = record {
  connected = refl;
  output = refl;
  next = refl;
  received = refl;
}
disarm-Frame Input.closes c = record {
  connected = refl;
  output = refl;
  next = refl;
  received = refl;
}

handle-IsDelivered :
    (stream : ℕ → List ℕ) (env : Env) (input : Input) (c : Connection)
    → IsGenuineInput stream (env, input)
    → IsDelivered stream c
    → IsDelivered stream (handle env input c)
unfolding handle udp_resend
handle-IsDelivered stream env Input.tcp_reads c g h =
    Frame-IsDelivered stream c _ (tcp_read-Frame env c) h
handle-IsDelivered stream env Input.tcp_writes c g h = tcp_write-IsDelivered stream env c h
handle-IsDelivered stream env (Input.tcp_closes error) c g h =
    tcp_close-IsDelivered stream env error c h.prefix
handle-IsDelivered stream env (Input.udp_writes planned) c g h =
    udp_write-IsDelivered stream env planned c h
handle-IsDelivered stream env (Input.udp_closes error) c g h = udp_close-IsDelivered stream env c h
handle-IsDelivered stream env Input.builds_udp_packets c g h =
    Frame-IsDelivered stream c _ (build_udp_packets-Frame env true c) h
handle-IsDelivered stream env Input.builds_confirmations c g h =
    build_confirmations-IsDelivered stream env c h
handle-IsDelivered stream env Input.builds_bye_bye c g h =
    Frame-IsDelivered stream c _ (build_bye_bye-Frame env c) h
handle-IsDelivered stream env Input.udp_resends c g h =
    if_case (IsDelivered stream) c.udp_connected _ c
      (λ on. resend_loop-IsDelivered stream env c.udp_sent_packets c h) (λ off. h)
handle-IsDelivered stream env Input.udp_close_waits c g h =
    if_case (IsDelivered stream) (is_udp_finished c) _ c
      (λ done. udp_close-IsDelivered stream env c h) (λ more. h)
handle-IsDelivered stream env Input.closes c g h = h
handle-IsDelivered stream env (Input.udp_reads bytes) c g h =
    udp_read-IsDelivered stream env bytes c h g

run-IsDelivered :
    (stream : ℕ → List ℕ) (inputs : List (Env × Input)) (c : Connection)
    → All (IsGenuineInput stream) inputs
    → IsDelivered stream c
    → IsDelivered stream (run inputs c)
unfolding run
run-IsDelivered stream [] c g h = h
run-IsDelivered stream ((env, input) ∷ inputs) c (g, gs) h = run-IsDelivered stream inputs _ gs (
    handle-IsDelivered stream env input _ g (Frame-IsDelivered stream c _ (disarm-Frame input c) h))

new_connection-IsDelivered :
    (stream : ℕ → List ℕ) (env : Env) (config : Config) (us : ℕ)
    → IsDelivered stream (new_connection env config us)
unfolding new_connection put_packet on_udp_sent_buffer_changed
new_connection-IsDelivered stream env config us = record {
  prefix = (0, [], refl);
  aligned = λ on. record {
    free = λ e. refl;
    current = λ p e. absurd (cc e);
    later = λ k p lt e. absurd (cc e);
  };
}

-- From its constructor on, through any inputs in any order with any results of the system, a
-- connection has written to its TCP socket the payloads of the data packets that the other side made,
-- in the order of their indices, up to some packet or some byte within one: it leaves none out,
-- writes none twice and changes none. This holds while each datagram that reads as a packet of the
-- stream is the one that the other side made for its index.
pub run_delivers :
    (stream : ℕ → List ℕ) (start : Env) (config : Config) (us : ℕ) (inputs : List (Env × Input))
    → All (IsGenuineInput stream) inputs
    → IsPrefix stream (run inputs (new_connection start config us)).tcp_output
run_delivers stream start config us inputs genuine =
    (run-IsDelivered stream inputs _ genuine
      (new_connection-IsDelivered stream start config us)).prefix
