-- ===== src/Connection/Delivery/Receive.antt =====
-- `udpRead` and the text.
use icetunnel.Prelude.{
  if_case, ℕ, zero, suc, ◌+◌, ◌≡◌, refl, sym, ap, ap₂, ◌∙◌, inl, inr, Bool, true, false, not, ◌&&◌,
  ◌||◌, Option, none, some, List, [], ◌∷◌, ◌++◌, arith, if◌then◌else◌, ltb, ◌==◌, ==_iff,
  Bool-cases, length, add32,
}
use icetunnel.Packet.{
  Packet, PacketType, hello, bye, data_packet, disconnect, confirmation, bye_bye, new_packet,
  type_eq, get_type, get_index, get_size,
}
use icetunnel.Connection.Map.{Map, find, has, insert}
use icetunnel.Connection.Map.Laws.{find-insert}
use icetunnel.Connection.State.{Connection, Env, is_udp_finished}
use icetunnel.Connection.Write.{tcp_write_fake}
use icetunnel.Connection.Read.{
  advance_master, accepts_packet, store_packet, count_extra, read_stream_packet, read_packet,
  udp_read,
}
use icetunnel.Connection.Frame.{Frame, Frame-refl, Frame-trans, Frame-if}
use icetunnel.Connection.Frame.Control.{read_confirmation-Frame, read_bye_bye-Frame}
use icetunnel.Connection.Delivery.{IsAligned, text, payload}
use icetunnel.Connection.Delivery.Kept.{
  IsDelivered, Frame-IsDelivered, tcp_write_fake-IsDelivered, udp_close-IsDelivered,
}

-- Hello, Bye, Disconnect or Data.
abbrev pub is_stream_type : PacketType → Bool
is_stream_type type =
    type_eq type hello || type_eq type bye || type_eq type disconnect || type_eq type data_packet

-- A packet of the stream that comes in is the one that the other side has made for its index; the
-- CRC stands for that.
abbrev pub IsGenuine : (ℕ → List ℕ) → List ℕ → Type 0
IsGenuine stream bytes = is_stream_type (get_type bytes) ≡ true → bytes ≡ stream (get_index bytes)

accepts_packet-is_stream_type :
    (bytes : List ℕ) (c : Connection)
    → accepts_packet bytes c ≡ true
    → is_stream_type (get_type bytes) ≡ true
unfolding accepts_packet
accepts_packet-is_stream_type bytes c e = ground (arith, e)

has-find : (k : ℕ) (m : Map Packet) → has k m ≡ false → find k m ≡ none
has-find k [] e = refl
has-find k ((j, p) ∷ m) e = ground (arith, has-find k m, e)

advance_master-Frame : (rounds : ℕ) (c : Connection) → Frame c (advance_master rounds c)
unfolding advance_master
advance_master-Frame zero c = Frame-refl c
advance_master-Frame (suc rounds) c =
    found-Frame (λ d. advance_master-Frame rounds d)
      (find c.udp_received_master_index c.udp_received_packets)
  where
    found-Frame :
        ((d : Connection) → Frame d (advance_master rounds d))
        → (o : Option Packet)
        → Frame c (elim o [
          | none ↦ c
          | some p ↦
              let type = get_type p.bytes in
              let next = c.udp_received_master_index + 1 in
              let rest = advance_master rounds (record c {
                udp_received_master_index = next;
                udp_received_final_index =
                    if type_eq type bye || type_eq type disconnect
                    then next
                    else c.udp_received_final_index;
              }) in
              if ltb c.udp_received_master_index c.udp_received_final_index then rest else c
        ])
    found-Frame again none = Frame-refl c
    found-Frame again (some p) =
        let type = get_type p.bytes in
        let next = c.udp_received_master_index + 1 in
        let moved : Connection = record c {
          udp_received_master_index = next;
          udp_received_final_index =
              if type_eq type bye || type_eq type disconnect
              then next
              else c.udp_received_final_index;
        } in
        Frame-if (ltb c.udp_received_master_index c.udp_received_final_index)
          (Frame-trans {d = moved}
            (record { connected = refl; output = refl; next = refl; received = refl })
            (again moved))
          (Frame-refl c)

-- A packet that was not there is put with the others.
insert-IsAligned :
    (stream : ℕ → List ℕ) (c d : Connection) (i : ℕ) (p : Packet)
    → IsAligned stream c
    → find i c.udp_received_packets ≡ none
    → p.bytes ≡ stream i
    → d.tcp_output ≡ c.tcp_output
    → d.tcp_next_send_index ≡ c.tcp_next_send_index
    → d.udp_received_packets ≡ insert i p c.udp_received_packets
    → IsAligned stream d
insert-IsAligned stream c d i p h free genuine output next received =
    let n = c.tcp_next_send_index in
    let found : (k : ℕ)
        → find k d.udp_received_packets
          ≡ (if k == i then some p else find k c.udp_received_packets) =
      λ k. ap (find k) received ∙ find-insert k i p c.udp_received_packets in
    let here = ap (λ j. find j d.udp_received_packets) next ∙ found n in
    record {
      free = λ e. elim (Bool-cases (n == i)) [
        | inl same ↦
            let there =
              here
              ∙ ap {B = Option Packet} (λ b. if b then some p else find n c.udp_received_packets)
                  same in
            absurd (cc (there, e))
        | inr other ↦
            let there =
              here
              ∙ ap {B = Option Packet} (λ b. if b then some p else find n c.udp_received_packets)
                  other in
            output ∙ h.free (sym there ∙ e) ∙ ap (text stream) (sym next)
      ];
      current = λ q e. elim (Bool-cases (n == i)) [
        | inl same ↦
            let there =
              here
              ∙ ap {B = Option Packet} (λ b. if b then some p else find n c.udp_received_packets)
                  same in
            let q_p : p ≡ q = cc (there, e) in
            let n_i : n ≡ i = (==_iff n i).0 same in
            let before : d.tcp_output ≡ text stream n =
              output ∙ h.free (ap (λ j. find j c.udp_received_packets) n_i ∙ free) in
            let bytes : q.bytes ≡ stream n =
              ap (λ r. r.bytes) (sym q_p) ∙ genuine ∙ ap stream (sym n_i) in
            ap₂ (λ o b. o ++ payload b) before bytes ∙ ap (λ j. text stream (suc j)) (sym next)
        | inr other ↦
            let there =
              here
              ∙ ap {B = Option Packet} (λ b. if b then some p else find n c.udp_received_packets)
                  other in
            ap (λ o. o ++ payload q.bytes) output
            ∙ h.current q (sym there ∙ e)
            ∙ ap (λ j. text stream (suc j)) (sym next)
      ];
      later = λ k q lt e. elim (Bool-cases (k == i)) [
        | inl same ↦
            let there =
              found k
              ∙ ap {B = Option Packet} (λ b. if b then some p else find k c.udp_received_packets)
                  same in
            let q_p : p ≡ q = cc (there, e) in
            ap (λ r. r.bytes) (sym q_p) ∙ genuine ∙ ap stream (sym ((==_iff k i).0 same))
        | inr other ↦
            let there =
              found k
              ∙ ap {B = Option Packet} (λ b. if b then some p else find k c.udp_received_packets)
                  other in
            h.later k q (omega (arith, next, lt)) (sym there ∙ e)
      ];
    }

store_packet-IsDelivered :
    (stream : ℕ → List ℕ) (env : Env) (bytes : List ℕ) (c : Connection)
    → IsDelivered stream c
    → bytes ≡ stream (get_index bytes)
    → has (get_index bytes) c.udp_received_packets ≡ false
    → IsDelivered stream (store_packet env bytes c)
unfolding store_packet
store_packet-IsDelivered stream env bytes c h genuine new =
    let i = get_index bytes in
    let packet : Packet = record new_packet { bytes = bytes } in
    let stored : Connection = record c {
      udp_received_packets = insert i packet c.udp_received_packets;
      udp_receive_buffer_size = add32 c.udp_receive_buffer_size (get_size bytes);
    } in
    let start : IsDelivered stream stored = record {
      prefix = h.prefix;
      aligned = λ on.
          insert-IsAligned stream c stored i packet (h.aligned on)
            (has-find i c.udp_received_packets new) genuine refl refl refl;
    } in
    let rounds = length stored.udp_received_packets in
    let advanced = advance_master rounds stored in
    let moved =
      tcp_write_fake-IsDelivered stream advanced
        (Frame-IsDelivered stream stored advanced (advance_master-Frame rounds stored) start) in
    Frame-IsDelivered stream (tcp_write_fake advanced) _
      (record { connected = refl; output = refl; next = refl; received = refl }) moved

read_stream_packet-IsDelivered :
    (stream : ℕ → List ℕ) (env : Env) (bytes : List ℕ) (c : Connection)
    → IsDelivered stream c
    → bytes ≡ stream (get_index bytes)
    → IsDelivered stream (read_stream_packet env bytes c)
unfolding read_stream_packet
read_stream_packet-IsDelivered stream env bytes c h genuine =
    let there = has (get_index bytes) c.udp_received_packets in
    let stored = if there then count_extra bytes c else store_packet env bytes c in
    let kept : IsDelivered stream stored =
      if_case (IsDelivered stream) there _ _
        (λ old.
          Frame-IsDelivered stream c _
            (record { connected = refl; output = refl; next = refl; received = refl }) h)
        (λ new. store_packet-IsDelivered stream env bytes c h genuine new) in
    Frame-IsDelivered stream stored _
      (record { connected = refl; output = refl; next = refl; received = refl }) kept

read_packet-IsDelivered :
    (stream : ℕ → List ℕ) (env : Env) (bytes : List ℕ) (c : Connection)
    → IsDelivered stream c
    → IsGenuine stream bytes
    → IsDelivered stream (read_packet env bytes c)
unfolding read_packet
read_packet-IsDelivered stream env bytes c h genuine =
    let index = get_index bytes in
    if_case (IsDelivered stream) (type_eq (get_type bytes) confirmation) _ _
      (λ e. Frame-IsDelivered stream c _ (read_confirmation-Frame env bytes c) h)
      (λ e.
        if_case (IsDelivered stream) (accepts_packet bytes c) _ _
          (λ e'.
            read_stream_packet-IsDelivered stream env bytes c h
              (genuine (accepts_packet-is_stream_type bytes c e')))
          (λ e'.
            if_case (IsDelivered stream)
              (type_eq (get_type bytes) bye_bye
                && index == c.udp_received_master_index
                && index == c.udp_received_final_index)
              _ _ (λ e''. Frame-IsDelivered stream c _ (read_bye_bye-Frame env c) h)
              (λ e''.
                Frame-IsDelivered stream c _
                  (record { connected = refl; output = refl; next = refl; received = refl }) h)))

-- `udpRead` keeps the bytes on the TCP socket a beginning of the text of the other side, in whatever
-- order its packets come in, when they are genuine.
pub udp_read-IsDelivered :
    (stream : ℕ → List ℕ) (env : Env) (bytes : List ℕ) (c : Connection)
    → IsDelivered stream c
    → IsGenuine stream bytes
    → IsDelivered stream (udp_read env bytes c)
unfolding udp_read
udp_read-IsDelivered stream env bytes c h genuine =
    let read = read_packet env bytes c in
    let kept = read_packet-IsDelivered stream env bytes c h genuine in
    if_case (IsDelivered stream) (not c.udp_connected) c _ (λ off. h)
      (λ on.
        if_case (IsDelivered stream) (is_udp_finished read) _ _
          (λ done. udp_close-IsDelivered stream env read kept) (λ more. kept))
