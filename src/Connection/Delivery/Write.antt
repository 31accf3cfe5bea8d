-- ===== src/Connection/Delivery/Write.antt =====
-- `tcpWrite` and the text.
use icetunnel.Prelude.{
  if_case, ℕ, zero, suc, ◌≡◌, sym, ap, ◌∙◌, inl, inr, subst, true, false, not, ◌||◌, Option, none,
  some, List, [], arith, if◌then◌else◌, ltb, ◌==◌, Bool-cases, Option-cases, drop_all,
}
use icetunnel.Packet.{Packet, bye, data_packet, disconnect, type_eq, get_type, get_data, get_size}
use icetunnel.Connection.Map.{find}
use icetunnel.Connection.State.{Connection, Env}
use icetunnel.Connection.Write.{
  finish_packet, write_part, wake_tcp_write, write_loop, tcp_write, tcp_close,
}
use icetunnel.Connection.Frame.{Frame}
use icetunnel.Connection.Delivery.{IsAligned, aligned-IsPrefix, payload, finish_packet-IsAligned}
use icetunnel.Connection.Delivery.Part.{write_part-IsAligned}
use icetunnel.Connection.Delivery.Kept.{IsDelivered, Frame-IsDelivered, tcp_close-IsDelivered}

empty_data : (bytes : List ℕ) → get_size bytes ≡ 0 → get_data bytes ≡ []
unfolding get_size get_data
empty_data bytes z = drop_all 9 bytes (ground (arith, z))

-- A packet that is not written has nothing to write.
skipped_payload :
    (bytes : List ℕ)
    → (not (type_eq (get_type bytes) data_packet) || get_size bytes == 0) ≡ true
    → payload bytes ≡ []
skipped_payload bytes skip = elim (Bool-cases (type_eq (get_type bytes) data_packet)) [
  | inr other ↦ ap {B = List ℕ} (λ b. if b then get_data bytes else []) other
  | inl is_data ↦
      ap {B = List ℕ} (λ b. if b then get_data bytes else []) is_data
      ∙ empty_data bytes (ground (arith, skip, is_data))
]

aligned-IsDelivered :
    (stream : ℕ → List ℕ) (c : Connection) → IsAligned stream c → IsDelivered stream c
aligned-IsDelivered stream c h = record { prefix = aligned-IsPrefix stream c h; aligned = λ on. h }

wake_tcp_write-Frame : (env : Env) (c : Connection) → Frame c (wake_tcp_write env c)
unfolding wake_tcp_write
wake_tcp_write-Frame env c = ground arith

-- A round of the loop that has found a packet.
abbrev pub write_round : ℕ → Env → Packet → Connection → Connection
write_round rounds env p c =
    let index = c.tcp_next_send_index in
    let type = get_type p.bytes in
    let next = finish_packet index p c in
    let more = write_loop rounds env next in
    let size = env.tcp_send (get_data p.bytes) in
    if not (type_eq type data_packet) || get_size p.bytes == 0
    then (if type_eq type bye || type_eq type disconnect then tcp_close env false next else more)
    else wake_tcp_write env (if ltb 0 size then write_part size index p c else c)

write_round-IsDelivered :
    (stream : ℕ → List ℕ) (rounds : ℕ) (env : Env) (c : Connection) (p : Packet)
    → ((d : Connection) → IsAligned stream d → IsDelivered stream (write_loop rounds env d))
    → IsAligned stream c
    → find c.tcp_next_send_index c.udp_received_packets ≡ some p
    → IsDelivered stream (write_round rounds env p c)
write_round-IsDelivered stream rounds env c p again h e =
    let type = get_type p.bytes in
    let size = env.tcp_send (get_data p.bytes) in
    let next = finish_packet c.tcp_next_send_index p c in
    if_case (IsDelivered stream) (not (type_eq type data_packet) || get_size p.bytes == 0) _ _
      (λ skip.
        let h' = finish_packet-IsAligned stream c p h e (skipped_payload p.bytes skip) in
        if_case (IsDelivered stream) (type_eq type bye || type_eq type disconnect) _ _
          (λ ends. tcp_close-IsDelivered stream env false next (aligned-IsPrefix stream next h'))
          (λ goes. again next h'))
      (λ data_left.
        let kind : type_eq type data_packet ≡ true = ground (arith, data_left) in
        let full : (get_size p.bytes == 0) ≡ false = ground (arith, data_left) in
        Frame-IsDelivered stream _ _ (wake_tcp_write-Frame env _) (
          if_case (IsDelivered stream) (ltb 0 size) _ _
            (λ taken.
              aligned-IsDelivered stream _ (write_part-IsAligned stream size c p h e kind full))
            (λ refused. aligned-IsDelivered stream c h)))

write_loop-IsDelivered :
    (stream : ℕ → List ℕ) (rounds : ℕ) (env : Env) (c : Connection)
    → IsAligned stream c
    → IsDelivered stream (write_loop rounds env c)
unfolding write_loop
write_loop-IsDelivered stream zero env c h = aligned-IsDelivered stream c h
write_loop-IsDelivered stream (suc rounds) env c h =
    let step : (o : Option Packet)
        → find c.tcp_next_send_index c.udp_received_packets ≡ o
        → write_loop (suc rounds) env c
          ≡ elim o [ none ↦ c | some q ↦ write_round rounds env q c ] =
      λ o e.
        ap {B = Connection} (λ o'. elim o' [ none ↦ c | some q ↦ write_round rounds env q c ]) e in
    elim (Option-cases (find c.tcp_next_send_index c.udp_received_packets)) [
      | inl e ↦ subst (IsDelivered stream) (sym (step none e)) (aligned-IsDelivered stream c h)
      | inr (p, e) ↦ subst (IsDelivered stream) (sym (step (some p) e)) (
          write_round-IsDelivered stream rounds env c p
            (λ d h'. write_loop-IsDelivered stream rounds env d h') h e)
    ]

-- `tcpWrite` keeps the bytes on the TCP socket a beginning of the text of the other side: whatever
-- part of a payload the socket takes, and where the connection ends in the loop too.
pub tcp_write-IsDelivered :
    (stream : ℕ → List ℕ) (env : Env) (c : Connection)
    → IsDelivered stream c
    → IsDelivered stream (tcp_write env c)
unfolding tcp_write
tcp_write-IsDelivered stream env c h =
    if_case (IsDelivered stream) c.tcp_connected _ c
      (λ on. write_loop-IsDelivered stream _ env c (h.aligned on)) (λ off. h)
