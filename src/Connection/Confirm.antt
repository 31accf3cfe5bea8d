-- ===== src/Connection/Confirm.antt =====
-- connection.cpp: `buildConfirmations` and `buildByeBye`.
use icetunnel.Prelude.{
  ℕ, ◌+◌, ◌-◌, none, some, List, [], ◌∷◌, ◌++◌, map, ltb, ◌==◌, if◌then◌else◌, sub32, neg32,
}
use icetunnel.Packet.{
  Packet, PacketType, confirmation, bye_bye, new_packet, encode, is_complete, type_eq, get_type,
  get_size,
}
use icetunnel.Packet.Pair.{pack_int_pair}
use icetunnel.Event.Timer
use icetunnel.Connection.Map.{Map, from_key}
use icetunnel.Connection.State.{Connection, Env, on_udp_sent_buffer_changed, set_event_udp_write}

-- The loop, there and in `udpRead`, that takes the confirmations out of `udpConfirmationPackets`;
-- each takes its size from the buffer.
unfoldable pub drop_confirmations : Env → List Packet → Connection → Connection × List Packet
drop_confirmations env [] c = (c, [])
drop_confirmations env (p ∷ ps) c =
    let is_confirmation = type_eq (get_type p.bytes) confirmation in
    let out = drop_confirmations env ps (
      if is_confirmation then on_udp_sent_buffer_changed env (neg32 (get_size p.bytes)) c else c) in
    (out.0, if is_confirmation then out.1 else p ∷ out.1)

unfoldable pub remove_confirmations : Env → Connection → Connection
unfolding drop_confirmations
remove_confirmations env c =
    let out = drop_confirmations env c.udp_confirmation_packets c in
    record out.0 { udp_confirmation_packets = out.1 }

-- The runs `begin`, `end` of consecutive indices, as the inner `while` finds them.
unfoldable pub runs_from : ℕ → ℕ → List ℕ → List (ℕ × ℕ)
runs_from begin end [] = (begin, end) ∷ []
runs_from begin end (k ∷ ks) =
    let longer = runs_from begin (end + 1) ks in
    let next = runs_from k (k + 1) ks in if k == end then longer else (begin, end) ∷ next

unfoldable pub runs : List ℕ → List (ℕ × ℕ)
unfolding runs_from
runs [] = []
runs (k ∷ ks) = runs_from k (k + 1) ks

-- The payloads of the confirmation packets, in order: `written` is what stands in
-- `confirmationData`, `size` the room left there and `room` its whole size. The second `none` is the
-- error "cannot encode confirmation". The keys ascend, so that no difference is negative.
unfoldable pub pack_runs : ℕ → ℕ → List (ℕ × ℕ) → ℕ → List ℕ → ℕ → List (List ℕ)
pack_runs room master [] prev written size = written ∷ []
pack_runs room master ((begin, end) ∷ rest) prev written size =
    elim (pack_int_pair (begin - prev) (end - begin) size) [
      | some (bytes, left) ↦ pack_runs room master rest end (written ++ bytes) left
      | none ↦ elim (pack_int_pair (begin - master) (end - begin) room) [
        | some (bytes, left) ↦ written ∷ pack_runs room master rest end bytes left
        | none ↦ written ∷ [] ∷ []
      ]
    ]

-- The indices to confirm, from `lower_bound(udpReceivedMasterIndex)` on.
unfoldable pub keys_from : ℕ → Map Packet → List ℕ
keys_from master m = map (λ e. e.0) (from_key master m)

unfoldable pub confirmation_payloads : Connection → List (List ℕ)
unfolding pack_runs runs keys_from
confirmation_payloads c =
    let master = c.udp_received_master_index in
    pack_runs c.udp_send_packet_size master (runs (keys_from master c.udp_received_packets)) master
      [] c.udp_send_packet_size

-- `udpConfirmationPackets.push_back`, with `encode` and the change of the buffer.
unfoldable pub push_control : Env → PacketType → ℕ → List ℕ → Connection → Connection
push_control env type index payload c =
    let packet = record new_packet { bytes = encode type index payload [] } in
    on_udp_sent_buffer_changed env (get_size packet.bytes)
      (record c { udp_confirmation_packets = c.udp_confirmation_packets ++ packet ∷ [] })

unfoldable pub push_all : Env → List (List ℕ) → Connection → Connection
unfolding push_control
push_all env [] c = c
push_all env (payload ∷ payloads) c =
    push_all env payloads (push_control env confirmation c.udp_received_master_index payload c)

-- The last loop: an entry below `next` is confirmed if it is below `master`, and goes if it has been
-- sent too. The second result is the sum of the sizes that go.
unfoldable pub sweep : ℕ → ℕ → Map Packet → Map Packet × ℕ
sweep next master [] = ([], 0)
sweep next master ((k, p) ∷ m) =
    let confirmed = record p { confirmed = ltb k master } in
    let rest = sweep next master m in
    if ltb k next
    then (if is_complete confirmed
        then (rest.0, get_size p.bytes + rest.1)
        else ((k, confirmed) ∷ rest.0, rest.1))
    else ((k, p) ∷ m, 0)

unfoldable pub sweep_received : Connection → Connection
unfolding sweep
sweep_received c =
    let out = sweep c.tcp_next_send_index c.udp_received_master_index c.udp_received_packets in
    record c {
      udp_received_packets = out.0;
      udp_receive_buffer_size = sub32 c.udp_receive_buffer_size out.1;
    }

unfoldable pub build_confirmations : Env → Connection → Connection
unfolding remove_confirmations push_all sweep_received
build_confirmations env c =
    let removed = remove_confirmations env c in
    let pushed = push_all env (confirmation_payloads removed) removed in
    let woken =
      set_event_udp_write env
        (record pushed { udp_confirmed_master_index = pushed.udp_received_master_index }) in
    let swept = sweep_received woken in
    let remain = swept.remain_confirmation_resend_count - 1 in
    if c.udp_connected
    then record swept {
      remain_confirmation_resend_count = remain;
      event_build_confirmations =
          if ltb 0 remain
          then Timer.set_time_relative_now env.now swept.build_confirmations_us
              swept.event_build_confirmations
          else swept.event_build_confirmations;
    }
    else c

unfoldable pub build_bye_bye : Env → Connection → Connection
unfolding push_control
build_bye_bye env c =
    let woken = set_event_udp_write env (push_control env bye_bye c.udp_next_send_index [] c) in
    let remain = woken.remain_bye_bye_resend_count - 1 in
    if c.udp_connected
    then record woken {
      remain_bye_bye_resend_count = remain;
      event_build_bye_bye =
          if ltb 0 remain
          then Timer.set_time_relative_now env.now woken.build_confirmations_us
              woken.event_build_bye_bye
          else woken.event_build_bye_bye;
    }
    else c
