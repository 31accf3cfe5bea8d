-- ===== src/Connection/Delivery/Progress.antt =====
-- `tcpWrite` makes progress.
use icetunnel.Prelude.{
  ℕ, zero, suc, ◌+◌, ◌-◌, ◌<◌, ◌≤◌, ◌≡◌, sym, ap, subst, inl, inr, ◌⊎◌, true, false, not, ◌||◌,
  Option, none, some, List, ◌++◌, arith, if◌then◌else◌, if_case, ltb, ◌==◌, Option-cases, length,
  take, length-append, length-take, length-drop,
}
use icetunnel.Packet.{Packet, bye, data_packet, disconnect, type_eq, get_type, get_data, get_size}
use icetunnel.Connection.Map.{find}
use icetunnel.Connection.State.{Connection, Env}
use icetunnel.Connection.Write.{finish_packet, write_part, wake_tcp_write, write_loop, tcp_write}
use icetunnel.Connection.Delivery.Kept.{tcp_close-output, finish_packet-output}
use icetunnel.Connection.Delivery.Write.{write_round}

-- The TCP side has ended, the next packet is not there, all packets are written, or there is more
-- output than before.
abbrev pub HasProgress : ℕ → Connection → Type 0
HasProgress before d =
    (d.tcp_connected ≡ false)
    ⊎ ((find d.tcp_next_send_index d.udp_received_packets ≡ none)
        ⊎ ((d.udp_received_master_index ≤ d.tcp_next_send_index) ⊎ (before < length d.tcp_output)))

data_size : (bytes : List ℕ) → (get_size bytes == 0) ≡ false → 0 < length (get_data bytes)
unfolding get_size get_data
data_size bytes e = ground (arith, length-drop 9 bytes, e)

finish_packet-index :
    (i : ℕ) (p : Packet) (c : Connection)
    → ((finish_packet i p c).tcp_next_send_index ≡ c.tcp_next_send_index + 1)
      × ((finish_packet i p c).udp_received_master_index ≡ c.udp_received_master_index)
unfolding finish_packet
finish_packet-index i p c = ground arith

write_part-output :
    (env : Env) (size i : ℕ) (p : Packet) (c : Connection)
    → (wake_tcp_write env (write_part size i p c)).tcp_output
      ≡ c.tcp_output ++ take size (get_data p.bytes)
unfolding write_part wake_tcp_write
write_part-output env size i p c = ground arith

write_round-HasProgress :
    (rounds : ℕ) (env : Env) (c : Connection) (p : Packet)
    → ((bytes : List ℕ) → 0 < length bytes → 0 < env.tcp_send bytes)
    → HasProgress
        (length c.tcp_output)
        (write_loop rounds env (finish_packet c.tcp_next_send_index p c))
    → HasProgress (length c.tcp_output) (write_round rounds env p c)
write_round-HasProgress rounds env c p takes again =
    let type = get_type p.bytes in
    let data_bytes = get_data p.bytes in
    let size = env.tcp_send data_bytes in
    let next = finish_packet c.tcp_next_send_index p c in
    let before = length c.tcp_output in
    if_case (HasProgress before) (not (type_eq type data_packet) || get_size p.bytes == 0) _ _
      (λ skip.
        if_case (HasProgress before) (type_eq type bye || type_eq type disconnect) _ _
          (λ ends. inl (tcp_close-output env false next).1) (λ goes. again))
      (λ data_left.
        let some_data : 0 < length data_bytes = data_size p.bytes (ground (arith, data_left)) in
        let taken = takes data_bytes some_data in
        let some_taken : ltb 0 size ≡ true = ground (arith, taken) in
        let written = write_part-output env size c.tcp_next_send_index p c in
        let more : before
            < length (wake_tcp_write env (write_part size c.tcp_next_send_index p c)).tcp_output =
          omega (
            arith,
            ap length written,
            length-append c.tcp_output (take size data_bytes),
            length-take size data_bytes,
            taken,
            some_data,
          ) in
        subst
          (λ b.
            HasProgress before
              (wake_tcp_write env (if b then write_part size c.tcp_next_send_index p c else c)))
          (sym some_taken) (inr (inr (inr more))))

write_loop-HasProgress :
    (rounds : ℕ) (env : Env) (c : Connection)
    → ((bytes : List ℕ) → 0 < length bytes → 0 < env.tcp_send bytes)
    → c.udp_received_master_index ≤ c.tcp_next_send_index + rounds
    → HasProgress (length c.tcp_output) (write_loop rounds env c)
unfolding write_loop
write_loop-HasProgress zero env c takes enough = inr (inr (inl (omega (arith, enough))))
write_loop-HasProgress (suc rounds) env c takes enough =
    let step : (o : Option Packet)
        → find c.tcp_next_send_index c.udp_received_packets ≡ o
        → write_loop (suc rounds) env c
          ≡ elim o [ none ↦ c | some q ↦ write_round rounds env q c ] =
      λ o e.
        ap {B = Connection} (λ o'. elim o' [ none ↦ c | some q ↦ write_round rounds env q c ]) e in
    elim (Option-cases (find c.tcp_next_send_index c.udp_received_packets)) [
      | inl e ↦ subst (HasProgress (length c.tcp_output)) (sym (step none e)) (inr (inl e))
      | inr (p, e) ↦
          let next = finish_packet c.tcp_next_send_index p c in
          let (moved, master) = finish_packet-index c.tcp_next_send_index p c in
          let (output, _) = finish_packet-output c.tcp_next_send_index p c in
          let rest =
            write_loop-HasProgress rounds env next takes (omega (arith, moved, master, enough)) in
          subst (HasProgress (length c.tcp_output)) (sym (step (some p) e)) (
            write_round-HasProgress rounds env c p takes
              (subst (λ b. HasProgress (length b) (write_loop rounds env next)) output rest))
    ]

-- When the TCP socket takes a part of whatever it is given, a call of `tcpWrite` on a connected
-- socket writes something, or closes it, or finds the next packet missing, or has all packets up to
-- `udpReceivedMasterIndex` behind it.
pub tcp_write_progress :
    (env : Env) (c : Connection)
    → ((bytes : List ℕ) → 0 < length bytes → 0 < env.tcp_send bytes)
    → c.tcp_connected ≡ true
    → HasProgress (length c.tcp_output) (tcp_write env c)
unfolding tcp_write
tcp_write_progress env c takes on =
    if_case (HasProgress (length c.tcp_output)) c.tcp_connected _ c
      (λ on'.
        write_loop-HasProgress (c.udp_received_master_index - c.tcp_next_send_index) env c takes
          (omega arith))
      (λ off. inl off)
