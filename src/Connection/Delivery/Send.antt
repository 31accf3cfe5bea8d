-- ===== src/Connection/Delivery/Send.antt =====
-- The handlers that read from the TCP socket and write to the UDP socket, and the text.
use icetunnel.Prelude.{
  if_case, ℕ, ◌+◌, ◌-◌, ◌≤◌, ◌≡◌, refl, sym, ◌∙◌, true, false, not, ◌&&◌, ◌||◌, Option, none, some,
  List, [], ◌∷◌, ◌++◌, arith, if◌then◌else◌, ltb, leb, ◌==◌, length, add32, sub32, neg32, slt, take,
}
use icetunnel.Event.Timer
use icetunnel.Packet.{Packet, bye_bye, get_size, is_complete}
use icetunnel.Connection.Map.{Map, find, insert, erase}
use icetunnel.Connection.State.{
  Connection, Env, is_nil, is_udp_finished, on_udp_sent_buffer_changed, on_udp_sent,
  set_event_udp_write,
}
use icetunnel.Connection.Build.{tcp_read, build_udp_packets}
use icetunnel.Connection.Confirm.{
  remove_confirmations, confirmation_payloads, push_control, push_all, sweep, sweep_received,
  build_confirmations, build_bye_bye,
}
use icetunnel.Connection.Udp.{
  wake_udp_write, first_unsent, write_confirmation, write_packet, udp_write, resend_packet,
  resend_loop,
}
use icetunnel.Connection.Frame.{
  Frame, Frame-refl, Frame-trans, Frame-if, changed-Frame, woken-Frame, sent-Frame, delivered-Frame,
  build_udp_packets-Frame,
}
use icetunnel.Connection.Frame.Control.{
  remove_confirmations-Frame, push_control-Frame, push_all-Frame,
}
use icetunnel.Connection.Delivery.Kept.{IsDelivered, Frame-IsDelivered, udp_close-IsDelivered}

pub tcp_read-Frame : (env : Env) (c : Connection) → Frame c (tcp_read env c)
unfolding tcp_read
tcp_read-Frame env c =
    let received = env.tcp_recv c.udp_send_packet_size in
    let counted : Connection = record c {
      stat_tcp_received = c.stat_tcp_received + length received;
    } in
    let longer : Connection = record counted {
      tcp_received_data = c.tcp_received_data ++ received;
    } in
    let built : Frame c (build_udp_packets env false longer) =
      Frame-trans {d = longer}
        (record { connected = refl; output = refl; next = refl; received = refl })
        (build_udp_packets-Frame env false longer) in
    Frame-if c.tcp_connected
      (Frame-trans
        (Frame-if (ltb 0 (length received))
          (Frame-if c.udp_connected built
            (record { connected = refl; output = refl; next = refl; received = refl }))
          (Frame-refl c))
        (changed-Frame env 0 _))
      (Frame-refl c)

wake_udp_write-Frame : (c : Connection) → Frame c (wake_udp_write c)
unfolding wake_udp_write
wake_udp_write-Frame c = record { connected = refl; output = refl; next = refl; received = refl }

write_confirmation-IsDelivered :
    (stream : ℕ → List ℕ) (env : Env) (planned : ℕ) (packet : Packet) (rest : List Packet)
    (c : Connection)
    → IsDelivered stream c
    → IsDelivered stream (write_confirmation env planned packet rest c)
unfolding write_confirmation
write_confirmation-IsDelivered stream env planned packet rest c h =
    let size = env.udp_send packet.bytes in
    let counted : Connection = record c {
      stat_udp_sent = c.stat_udp_sent + size;
      udp_output = c.udp_output ++ take size packet.bytes ∷ [];
      udp_last_sent_us = planned;
    } in
    let changed = on_udp_sent_buffer_changed env (neg32 (get_size packet.bytes)) counted in
    let erased : Connection = record changed { udp_confirmation_packets = rest } in
    let f : Frame c erased =
      Frame-trans {d = counted}
        (record { connected = refl; output = refl; next = refl; received = refl })
        (Frame-trans (changed-Frame env _ counted)
          (record { connected = refl; output = refl; next = refl; received = refl })) in
    let kept = Frame-IsDelivered stream c erased f h in
    if_case (IsDelivered stream) (ltb 0 size || length packet.bytes == 0) _ _
      (λ went.
        if_case (IsDelivered stream) (is_udp_finished erased) _ _
          (λ done. udp_close-IsDelivered stream env erased kept)
          (λ more.
            Frame-IsDelivered stream erased _
              (Frame-if (not (is_nil rest) || slt 0 erased.udp_packets_to_send_count)
                (wake_udp_write-Frame erased) (Frame-refl erased))
              kept))
      (λ stays. Frame-IsDelivered stream c _ (wake_udp_write-Frame c) h)

write_packet-IsDelivered :
    (stream : ℕ → List ℕ) (env : Env) (planned k : ℕ) (packet : Packet) (c : Connection)
    → IsDelivered stream c
    → IsDelivered stream (write_packet env planned k packet c)
unfolding write_packet
write_packet-IsDelivered stream env planned k packet c h =
    let size = env.udp_send packet.bytes in
    let sent : Packet = record packet {
      sent = true;
      sent_time_us = env.now;
      measure_index = c.udp_send_measure_index;
    } in
    let out : Connection = record c {
      stat_udp_sent = c.stat_udp_sent + size;
      udp_output = c.udp_output ++ take size packet.bytes ∷ [];
      udp_sent_packets = insert k sent c.udp_sent_packets;
      udp_last_sent_us = planned;
    } in
    let counted =
      on_udp_sent env c.udp_send_measure_index c.udp_send_interval_us (get_size packet.bytes) out in
    let fewer : Connection = record counted {
      udp_packets_to_send_count = sub32 counted.udp_packets_to_send_count 1;
    } in
    let changed = on_udp_sent_buffer_changed env (neg32 (get_size packet.bytes)) fewer in
    let erased : Connection = record changed {
      udp_sent_packets = erase k changed.udp_sent_packets;
    } in
    let waiting : Connection = record fewer {
      event_udp_resend =
          Timer.set_time_relative_now env.now fewer.udp_resend_us fewer.event_udp_resend;
    } in
    let went = ltb 0 size || length packet.bytes == 0 in
    let done = if went then (if is_complete sent then erased else waiting) else c in
    let to_fewer : Frame c fewer =
      Frame-trans {d = out}
        (record { connected = refl; output = refl; next = refl; received = refl })
        (Frame-trans (sent-Frame env _ _ _ out)
          (record { connected = refl; output = refl; next = refl; received = refl })) in
    let to_erased : Frame c erased = Frame-trans to_fewer (
      Frame-trans (changed-Frame env _ fewer)
        (record { connected = refl; output = refl; next = refl; received = refl })) in
    let to_done : Frame c done =
      Frame-if went
        (Frame-if (is_complete sent) to_erased (
          Frame-trans to_fewer
            (record { connected = refl; output = refl; next = refl; received = refl })))
        (Frame-refl c) in
    if_case (IsDelivered stream) (went && is_complete sent && is_udp_finished erased) _ _
      (λ ends.
        udp_close-IsDelivered stream env erased (Frame-IsDelivered stream c erased to_erased h))
      (λ goes.
        Frame-IsDelivered stream c _
          (Frame-trans to_done (
            Frame-if (slt 0 done.udp_packets_to_send_count) (wake_udp_write-Frame done)
              (Frame-refl done)))
          h)

pub udp_write-IsDelivered :
    (stream : ℕ → List ℕ) (env : Env) (planned : ℕ) (c : Connection)
    → IsDelivered stream c
    → IsDelivered stream (udp_write env planned c)
unfolding udp_write
udp_write-IsDelivered stream env planned c h =
    if_case (IsDelivered stream) (not c.udp_connected) c _ (λ off. h)
      (λ on. from_queue c.udp_confirmation_packets)
  where
    from_map :
        (o : Option (ℕ × Packet))
        → IsDelivered stream
            (elim o [ none ↦ c | some (k, packet) ↦ write_packet env planned k packet c ])
    from_map none = h
    from_map (some (k, packet)) = write_packet-IsDelivered stream env planned k packet c h

    from_queue :
        (ps : List Packet)
        → IsDelivered stream (elim ps [
          | packet ∷ rest ↦ write_confirmation env planned packet rest c
          | [] ↦ elim (first_unsent c.udp_sent_packets) [
            | none ↦ c
            | some (k, packet) ↦ write_packet env planned k packet c
          ]
        ])
    from_queue [] = from_map (first_unsent c.udp_sent_packets)
    from_queue (packet ∷ rest) = write_confirmation-IsDelivered stream env planned packet rest c h

resend_packet-Frame :
    (env : Env) (k : ℕ) (p : Packet) (c : Connection) → Frame c (resend_packet env k p c)
unfolding resend_packet
resend_packet-Frame env k p c =
    let again : Packet = record p {
      sent = false;
      remain_resend_count = p.remain_resend_count - 1;
    } in
    let back : Connection = record c {
      udp_packets_to_send_count = add32 c.udp_packets_to_send_count 1;
      udp_sent_packets = insert k again c.udp_sent_packets;
    } in
    Frame-trans {d = back}
      (record { connected = refl; output = refl; next = refl; received = refl })
      (Frame-trans (delivered-Frame env false p.measure_index (get_size p.bytes) back)
        (woken-Frame env _))

pub resend_loop-IsDelivered :
    (stream : ℕ → List ℕ) (env : Env) (m : Map Packet) (c : Connection)
    → IsDelivered stream c
    → IsDelivered stream (resend_loop env m c)
unfolding resend_loop
resend_loop-IsDelivered stream env [] c h = h
resend_loop-IsDelivered stream env ((k, p) ∷ m) c h =
    let late = leb (p.sent_time_us + c.udp_resend_us) env.now in
    if_case (IsDelivered stream) (p.sent && late && p.remain_resend_count == 0) _ _
      (λ stop. udp_close-IsDelivered stream env c h)
      (λ goes. resend_loop-IsDelivered stream env m _ (
        Frame-IsDelivered stream c _
          (Frame-if p.sent
            (Frame-if late (resend_packet-Frame env k p c)
              (record { connected = refl; output = refl; next = refl; received = refl }))
            (Frame-refl c))
          h))

find-sweep :
    (next master k : ℕ) (m : Map Packet) → next ≤ k → find k (sweep next master m).0 ≡ find k m
unfolding sweep
find-sweep next master k [] le = refl
find-sweep next master k ((j, p) ∷ m) le = ground (arith, find-sweep next master k m le)

sweep_received-IsDelivered :
    (stream : ℕ → List ℕ) (c : Connection)
    → IsDelivered stream c
    → IsDelivered stream (sweep_received c)
unfolding sweep_received
sweep_received-IsDelivered stream c h =
    let next = c.tcp_next_send_index in
    let same : (k : ℕ)
        → next ≤ k
        → find k (sweep next c.udp_received_master_index c.udp_received_packets).0
          ≡ find k c.udp_received_packets =
      λ k le. find-sweep next c.udp_received_master_index k c.udp_received_packets le in
    record {
      prefix = h.prefix;
      aligned = λ on.
          let a = h.aligned on in
          record {
            free = λ e. a.free (sym (same next (omega arith)) ∙ e);
            current = λ p e. a.current p (sym (same next (omega arith)) ∙ e);
            later = λ k p lt e. a.later k p lt (sym (same k (omega (arith, lt))) ∙ e);
          };
    }

pub build_confirmations-IsDelivered :
    (stream : ℕ → List ℕ) (env : Env) (c : Connection)
    → IsDelivered stream c
    → IsDelivered stream (build_confirmations env c)
unfolding build_confirmations
build_confirmations-IsDelivered stream env c h =
    let removed = remove_confirmations env c in
    let pushed = push_all env (confirmation_payloads removed) removed in
    let marked : Connection = record pushed {
      udp_confirmed_master_index = pushed.udp_received_master_index;
    } in
    let woken = set_event_udp_write env marked in
    let f : Frame c woken = Frame-trans (remove_confirmations-Frame env c) (
      Frame-trans (push_all-Frame env (confirmation_payloads removed) removed) (
        Frame-trans {d = marked}
          (record { connected = refl; output = refl; next = refl; received = refl })
          (woken-Frame env marked))) in
    let swept = sweep_received-IsDelivered stream woken (Frame-IsDelivered stream c woken f h) in
    if_case (IsDelivered stream) c.udp_connected _ c
      (λ on.
        Frame-IsDelivered stream (sweep_received woken) _
          (record { connected = refl; output = refl; next = refl; received = refl }) swept)
      (λ off. h)

pub build_bye_bye-Frame : (env : Env) (c : Connection) → Frame c (build_bye_bye env c)
unfolding build_bye_bye
build_bye_bye-Frame env c =
    let woken : Frame c
        (set_event_udp_write env (push_control env bye_bye c.udp_next_send_index [] c)) =
      Frame-trans (push_control-Frame env bye_bye c.udp_next_send_index [] c) (woken-Frame env _) in
    Frame-if c.udp_connected
      (Frame-trans woken (record { connected = refl; output = refl; next = refl; received = refl }))
      (Frame-refl c)
