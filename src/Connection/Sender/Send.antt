-- ===== src/Connection/Sender/Send.antt =====
-- `udpWrite` and `udpResend`, and the packets that the connection makes.
use icetunnel.Prelude.{
  ℕ, ◌+◌, ◌-◌, ◌≡◌, refl, sym, ap, subst, ◌∙◌, inl, inr, true, false, not, ◌&&◌, ◌||◌, Option, none,
  some, List, [], ◌∷◌, ◌++◌, arith, if_case, if◌then◌else◌, ltb, leb, ◌==◌, Bool-cases, length,
  take, take_all, add32, sub32, neg32, slt, All, All-append,
}
use icetunnel.Packet.{Packet, is_complete, get_type, get_size}
use icetunnel.Event.Timer
use icetunnel.Connection.Map.{Map, insert, erase}
use icetunnel.Connection.State.{
  Connection, Env, is_nil, is_udp_finished, on_udp_sent_buffer_changed, on_udp_sent,
}
use icetunnel.Connection.Write.{udp_close}
use icetunnel.Connection.Udp.{
  wake_udp_write, first_unsent, write_confirmation, write_packet, udp_write, resend_packet,
  resend_loop,
}
use icetunnel.Connection.Delivery.Receive.{is_stream_type}
use icetunnel.Connection.Side.{
  Side, Side-refl, Side-trans, Side-if, changed-Side, woken-Side, sent-Side, delivered-Side,
  wake_udp_write-Side,
}
use icetunnel.Connection.Sender.{
  IsMade, IsControl, IsMadeDatagram, IsSender, Sends, IsWhole, Side-IsSender, Side-Sends,
  Rest-IsSender, All-insert, All-erase,
}
use icetunnel.Connection.Sender.Close.{udp_close-Sends}

-- A datagram that the system took, or an empty one.
take_whole :
    (env : Env) (bytes : List ℕ)
    → IsWhole env
    → (ltb 0 (env.udp_send bytes) || length bytes == 0) ≡ true
    → take (env.udp_send bytes) bytes ≡ bytes
take_whole env bytes whole went =
    take_all (env.udp_send bytes) bytes (ground (arith, whole bytes, went))

control-IsMadeDatagram :
    (made : List (List ℕ)) (p : Packet) (o : List ℕ)
    → IsControl p
    → o ≡ p.bytes
    → IsMadeDatagram made o
control-IsMadeDatagram made p o control e stream =
    let same : is_stream_type (get_type o) ≡ is_stream_type (get_type p.bytes) =
      ap (λ b. is_stream_type (get_type b)) e in
    absurd (cc (same, control, stream))

write_confirmation-Sends :
    (env : Env) (planned : ℕ) (packet : Packet) (rest : List Packet) (made : List (List ℕ))
    (input : List ℕ) (c : Connection)
    → IsWhole env
    → IsControl packet
    → All IsControl rest
    → IsSender made input c
    → Sends input (write_confirmation env planned packet rest c)
unfolding write_confirmation
write_confirmation-Sends env planned packet rest made input c whole control others h =
    let size = env.udp_send packet.bytes in
    let counted : Connection = record c {
      stat_udp_sent = c.stat_udp_sent + size;
      udp_output = c.udp_output ++ take size packet.bytes ∷ [];
      udp_last_sent_us = planned;
    } in
    let changed = on_udp_sent_buffer_changed env (neg32 (get_size packet.bytes)) counted in
    let erased : Connection = record changed { udp_confirmation_packets = rest } in
    let changed_to : Side counted changed = changed-Side env _ counted in
    if_case (Sends input) (ltb 0 size || length packet.bytes == 0) _ _
      (λ went.
        let one : IsMadeDatagram made (take size packet.bytes) =
          control-IsMadeDatagram made packet _ control (take_whole env packet.bytes whole went) in
        let output =
          All-append (IsMadeDatagram made) c.udp_output (take size packet.bytes ∷ [])
            h.queued.output (one, tt) in
        let sent : IsSender made input erased =
          Rest-IsSender erased h
            (record {
              next = changed_to.next;
              received = changed_to.received;
              connected = changed_to.connected;
              master = changed_to.master;
              final = changed_to.final;
            })
            (subst (All (IsMade made)) (sym changed_to.packets) h.queued.packets) others
            (subst (All (IsMadeDatagram made)) (sym changed_to.output) output) in
        if_case (Sends input) (is_udp_finished erased) _ _
          (λ done. udp_close-Sends env input erased (made, sent))
          (λ more.
            Side-Sends
              (Side-if (not (is_nil rest) || slt 0 erased.udp_packets_to_send_count)
                (wake_udp_write-Side erased) (Side-refl erased))
              (made, sent)))
      (λ stays. Side-Sends (wake_udp_write-Side c) (made, h))

write_packet-Sends :
    (env : Env) (planned k : ℕ) (packet : Packet) (made : List (List ℕ)) (input : List ℕ)
    (c : Connection)
    → IsWhole env
    → IsMade made (k, packet)
    → IsSender made input c
    → Sends input (write_packet env planned k packet c)
unfolding write_packet
write_packet-Sends env planned k packet made input c whole here h =
    let size = env.udp_send packet.bytes in
    let sent : Packet = record packet {
      sent = true;
      sent_time_us = env.now;
      measure_index = c.udp_send_measure_index;
    } in
    let out : Connection = record c {
      stat_udp_sent = c.stat_udp_sent + size;
      udp_output = c.udp_output ++ take size packet.bytes ∷ [];
      udp_sent_packets = insert k sent c.udp_sent_packets;
      udp_last_sent_us = planned;
    } in
    let counted =
      on_udp_sent env c.udp_send_measure_index c.udp_send_interval_us (get_size packet.bytes) out in
    let fewer : Connection = record counted {
      udp_packets_to_send_count = sub32 counted.udp_packets_to_send_count 1;
    } in
    let changed = on_udp_sent_buffer_changed env (neg32 (get_size packet.bytes)) fewer in
    let erased : Connection = record changed {
      udp_sent_packets = erase k changed.udp_sent_packets;
    } in
    let waiting : Connection = record fewer {
      event_udp_resend =
          Timer.set_time_relative_now env.now fewer.udp_resend_us fewer.event_udp_resend;
    } in
    let went = ltb 0 size || length packet.bytes == 0 in
    let done = if went then (if is_complete sent then erased else waiting) else c in
    let counted_to : Side out counted = sent-Side env _ _ _ out in
    let fewer_to : Side out fewer = Side-trans {d = counted} counted_to (record {
      next = refl;
      packets = refl;
      control = refl;
      output = refl;
      received = refl;
      connected = refl;
      master = refl;
      final = refl;
    }) in
    let whole_out : went ≡ true → IsSender made input out = λ yes.
      Rest-IsSender out h
        (record { next = refl; received = refl; connected = refl; master = refl; final = refl })
        (All-insert (IsMade made) k sent c.udp_sent_packets here h.queued.packets) h.queued.control
        (All-append (IsMadeDatagram made) c.udp_output (take size packet.bytes ∷ []) h.queued.output
          (λ stream. (k, here ∙ ap some (sym (take_whole env packet.bytes whole yes))), tt)) in
    let to_fewer : went ≡ true → IsSender made input fewer =
      λ yes. Side-IsSender fewer_to (whole_out yes) in
    let to_erased : went ≡ true → IsSender made input erased = λ yes.
      let before : IsSender made input changed =
        Side-IsSender (changed-Side env _ fewer) (to_fewer yes) in
      Rest-IsSender erased before
        (record { next = refl; received = refl; connected = refl; master = refl; final = refl })
        (All-erase (IsMade made) k changed.udp_sent_packets before.queued.packets)
        before.queued.control before.queued.output in
    let to_done : IsSender made input done =
      if_case (IsSender made input) went _ c
        (λ yes.
          if_case (IsSender made input) (is_complete sent) erased waiting (λ all. to_erased yes)
            (λ some'.
              Side-IsSender {c = fewer}
                (record {
                  next = refl;
                  packets = refl;
                  control = refl;
                  output = refl;
                  received = refl;
                  connected = refl;
                  master = refl;
                  final = refl;
                })
                (to_fewer yes)))
        (λ no. h) in
    if_case (Sends input) (went && is_complete sent && is_udp_finished erased)
      (udp_close env erased)
      (if slt 0 done.udp_packets_to_send_count then wake_udp_write done else done)
      (λ ends. udp_close-Sends env input erased (made, to_erased (ground (arith, ends))))
      (λ goes.
        Side-Sends
          (Side-if (slt 0 done.udp_packets_to_send_count) (wake_udp_write-Side done)
            (Side-refl done))
          (made, to_done))

first_unsent-IsMade :
    (made : List (List ℕ)) (m : Map Packet) (e : ℕ × Packet)
    → All (IsMade made) m
    → first_unsent m ≡ some e
    → IsMade made e
unfolding first_unsent
first_unsent-IsMade made [] e h found = cc
first_unsent-IsMade made ((k, p) ∷ m) e (here, h) found = elim (Bool-cases p.sent) [
  | inl sent ↦
      let next : first_unsent ((k, p) ∷ m) ≡ first_unsent m = rw sent refl in
      first_unsent-IsMade made m e h (sym next ∙ found)
  | inr waits ↦
      let first : first_unsent ((k, p) ∷ m) ≡ some (k, p) = rw waits refl in
      let both : some (k, p) ≡ some e = sym first ∙ found in
      let same : (k, p) ≡ e = cc both in subst (IsMade made) same here
]

pub udp_write-Sends :
    (env : Env) (planned : ℕ) (input : List ℕ) (c : Connection)
    → IsWhole env
    → Sends input c
    → Sends input (udp_write env planned c)
unfolding udp_write
udp_write-Sends env planned input c whole (made, h) =
    if_case (Sends input) (not c.udp_connected) c _ (λ off. (made, h))
      (λ on. from_queue c.udp_confirmation_packets h.queued.control)
  where
    from_map :
        (o : Option (ℕ × Packet))
        → ((e : ℕ × Packet) → o ≡ some e → IsMade made e)
        → Sends input (elim o [ none ↦ c | some (k, packet) ↦ write_packet env planned k packet c ])
    from_map none there = (made, h)
    from_map (some (k, packet)) there =
        write_packet-Sends env planned k packet made input c whole (there (k, packet) refl) h

    from_queue :
        (ps : List Packet)
        → All IsControl ps
        → Sends input (elim ps [
          | packet ∷ rest ↦ write_confirmation env planned packet rest c
          | [] ↦ elim (first_unsent c.udp_sent_packets) [
            | none ↦ c
            | some (k, packet) ↦ write_packet env planned k packet c
          ]
        ])
    from_queue [] control =
        from_map (first_unsent c.udp_sent_packets)
          (λ e found. first_unsent-IsMade made c.udp_sent_packets e h.queued.packets found)
    from_queue (packet ∷ rest) (control, others) =
        write_confirmation-Sends env planned packet rest made input c whole control others h

resend_packet-IsSender :
    (env : Env) (k : ℕ) (p : Packet) (made : List (List ℕ)) (input : List ℕ) (c : Connection)
    → IsMade made (k, p)
    → IsSender made input c
    → IsSender made input (resend_packet env k p c)
unfolding resend_packet
resend_packet-IsSender env k p made input c here h =
    let again : Packet = record p {
      sent = false;
      remain_resend_count = p.remain_resend_count - 1;
    } in
    let back : Connection = record c {
      udp_packets_to_send_count = add32 c.udp_packets_to_send_count 1;
      udp_sent_packets = insert k again c.udp_sent_packets;
    } in
    let put : IsSender made input back =
      Rest-IsSender back h
        (record { next = refl; received = refl; connected = refl; master = refl; final = refl })
        (All-insert (IsMade made) k again c.udp_sent_packets here h.queued.packets) h.queued.control
        h.queued.output in
    Side-IsSender
      (Side-trans (delivered-Side env false p.measure_index (get_size p.bytes) back)
        (woken-Side env _))
      put

pub resend_loop-Sends :
    (env : Env) (m : Map Packet) (made : List (List ℕ)) (input : List ℕ) (c : Connection)
    → All (IsMade made) m
    → IsSender made input c
    → Sends input (resend_loop env m c)
unfolding resend_loop
resend_loop-Sends env [] made input c all h = (made, h)
resend_loop-Sends env ((k, p) ∷ m) made input c (here, all) h =
    let late = leb (p.sent_time_us + c.udp_resend_us) env.now in
    if_case (Sends input) (p.sent && late && p.remain_resend_count == 0) _ _
      (λ stop. udp_close-Sends env input c (made, h))
      (λ goes. resend_loop-Sends env m made input _ all (
        if_case (IsSender made input) p.sent _ c
          (λ sent.
            if_case (IsSender made input) late _ _
              (λ yes. resend_packet-IsSender env k p made input c here h)
              (λ no.
                Side-IsSender {c = c}
                  (record {
                    next = refl;
                    packets = refl;
                    control = refl;
                    output = refl;
                    received = refl;
                    connected = refl;
                    master = refl;
                    final = refl;
                  })
                  h))
          (λ waits. h)))
