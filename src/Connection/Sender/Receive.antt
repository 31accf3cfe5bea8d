-- ===== src/Connection/Sender/Receive.antt =====
-- `udpRead`, and the packets that the connection makes.
use icetunnel.Prelude.{
  ℕ, zero, suc, ◌+◌, refl, inl, inr, not, ◌&&◌, ◌||◌, Option, none, some, List, ◌==◌, arith,
  if_case, if◌then◌else◌, ltb, length, add32,
}
use icetunnel.Packet.{
  Packet, bye, disconnect, confirmation, bye_bye, new_packet, type_eq, get_type, get_index,
  get_size,
}
use icetunnel.Connection.Map.{find, has, insert}
use icetunnel.Connection.State.{Connection, Env, is_udp_finished}
use icetunnel.Connection.Read.{
  advance_master, accepts_packet, store_packet, count_extra, read_stream_packet, read_packet,
  udp_read,
}
use icetunnel.Connection.Side.{Side-trans, tcp_write_fake-Side}
use icetunnel.Connection.Sender.{IsSender, Sends, Side-IsSender}
use icetunnel.Connection.Sender.Close.{udp_close-Sends}
use icetunnel.Connection.Sender.Control.{read_bye_bye-IsSender}
use icetunnel.Connection.Sender.Confirmed.{read_confirmation-IsSender}

advance_master-IsSender :
    (rounds : ℕ) (made : List (List ℕ)) (input : List ℕ) (c : Connection)
    → IsSender made input c
    → IsSender made input (advance_master rounds c)
unfolding advance_master
advance_master-IsSender zero made input c h = h
advance_master-IsSender (suc rounds) made input c h =
    found (λ d hd. advance_master-IsSender rounds made input d hd)
      (find c.udp_received_master_index c.udp_received_packets)
  where
    found :
        ((d : Connection) → IsSender made input d → IsSender made input (advance_master rounds d))
        → (o : Option Packet)
        → IsSender made input (elim o [
          | none ↦ c
          | some p ↦
              let type = get_type p.bytes in
              let next = c.udp_received_master_index + 1 in
              let rest = advance_master rounds (record c {
                udp_received_master_index = next;
                udp_received_final_index =
                    if type_eq type bye || type_eq type disconnect
                    then next
                    else c.udp_received_final_index;
              }) in
              if ltb c.udp_received_master_index c.udp_received_final_index then rest else c
        ])
    found again none = h
    found again (some p) =
        let type = get_type p.bytes in
        let next = c.udp_received_master_index + 1 in
        let moved : Connection = record c {
          udp_received_master_index = next;
          udp_received_final_index =
              if type_eq type bye || type_eq type disconnect
              then next
              else c.udp_received_final_index;
        } in
        if_case (IsSender made input) (ltb c.udp_received_master_index c.udp_received_final_index) _
          c
          (λ less. again moved (record {
            queued = record {
              count = h.queued.count;
              indexed = h.queued.indexed;
              packets = h.queued.packets;
              control = h.queued.control;
              output = h.queued.output;
            };
            rest = h.rest;
            text = h.text;
            left = elim h.left [
              | inl (inl e) ↦ inl (inl e)
              | inl (inr e) ↦ absurd (ground (arith, e, less))
              | inr e ↦ inr e
            ];
          }))
          (λ stop. h)

store_packet-IsSender :
    (env : Env) (bytes : List ℕ) (made : List (List ℕ)) (input : List ℕ) (c : Connection)
    → IsSender made input c
    → IsSender made input (store_packet env bytes c)
unfolding store_packet
store_packet-IsSender env bytes made input c h =
    let stored : Connection = record c {
      udp_received_packets =
          insert (get_index bytes) (record new_packet { bytes = bytes }) c.udp_received_packets;
      udp_receive_buffer_size = add32 c.udp_receive_buffer_size (get_size bytes);
    } in
    let put : IsSender made input stored =
      Side-IsSender {c = c}
        (record {
          next = refl;
          packets = refl;
          control = refl;
          output = refl;
          received = refl;
          connected = refl;
          master = refl;
          final = refl;
        })
        h in
    let rounds = length stored.udp_received_packets in
    let advanced = advance_master-IsSender rounds made input stored put in
    Side-IsSender
      (Side-trans (tcp_write_fake-Side (advance_master rounds stored)) (record {
        next = refl;
        packets = refl;
        control = refl;
        output = refl;
        received = refl;
        connected = refl;
        master = refl;
        final = refl;
      }))
      advanced

read_stream_packet-IsSender :
    (env : Env) (bytes : List ℕ) (made : List (List ℕ)) (input : List ℕ) (c : Connection)
    → IsSender made input c
    → IsSender made input (read_stream_packet env bytes c)
unfolding read_stream_packet
read_stream_packet-IsSender env bytes made input c h =
    let there = has (get_index bytes) c.udp_received_packets in
    let stored = if there then count_extra bytes c else store_packet env bytes c in
    let kept : IsSender made input stored =
      if_case (IsSender made input) there (count_extra bytes c) _
        (λ old.
          Side-IsSender {c = c}
            (record {
              next = refl;
              packets = refl;
              control = refl;
              output = refl;
              received = refl;
              connected = refl;
              master = refl;
              final = refl;
            })
            h)
        (λ new. store_packet-IsSender env bytes made input c h) in
    Side-IsSender {c = stored}
      (record {
        next = refl;
        packets = refl;
        control = refl;
        output = refl;
        received = refl;
        connected = refl;
        master = refl;
        final = refl;
      })
      kept

read_packet-IsSender :
    (env : Env) (bytes : List ℕ) (made : List (List ℕ)) (input : List ℕ) (c : Connection)
    → IsSender made input c
    → IsSender made input (read_packet env bytes c)
unfolding read_packet
read_packet-IsSender env bytes made input c h =
    let index = get_index bytes in
    if_case (IsSender made input) (type_eq (get_type bytes) confirmation) _ _
      (λ e. read_confirmation-IsSender env bytes made input c h)
      (λ e.
        if_case (IsSender made input) (accepts_packet bytes c) _ _
          (λ e'. read_stream_packet-IsSender env bytes made input c h)
          (λ e'.
            if_case (IsSender made input)
              (type_eq (get_type bytes) bye_bye
                && index == c.udp_received_master_index
                && index == c.udp_received_final_index)
              _ _ (λ e''. read_bye_bye-IsSender env made input c h)
              (λ e''.
                Side-IsSender {c = c}
                  (record {
                    next = refl;
                    packets = refl;
                    control = refl;
                    output = refl;
                    received = refl;
                    connected = refl;
                    master = refl;
                    final = refl;
                  })
                  h)))

pub udp_read-Sends :
    (env : Env) (bytes input : List ℕ) (c : Connection)
    → Sends input c
    → Sends input (udp_read env bytes c)
unfolding udp_read
udp_read-Sends env bytes input c (made, h) =
    let read = read_packet env bytes c in
    let kept : Sends input read = (made, read_packet-IsSender env bytes made input c h) in
    if_case (Sends input) (not c.udp_connected) c _ (λ off. (made, h))
      (λ on.
        if_case (Sends input) (is_udp_finished read) _ _
          (λ done. udp_close-Sends env input read kept) (λ more. kept))
