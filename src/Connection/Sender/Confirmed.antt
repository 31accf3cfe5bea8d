-- ===== src/Connection/Sender/Confirmed.antt =====
-- The handling of confirmations, and the packets that the connection makes.
use icetunnel.Prelude.{
  ℕ, zero, suc, ◌+◌, ◌≡◌, refl, true, not, ◌&&◌, Option, none, some, List, [], ◌∷◌, if_case,
  if◌then◌else◌, length, slt, sle, add32, sub32, neg32, All,
}
use icetunnel.Packet.{Packet, get_index, get_data, get_size}
use icetunnel.Packet.Pair.{unpack_int_pair}
use icetunnel.Event.Timer
use icetunnel.Event.Timer.{is_enabled}
use icetunnel.Connection.Map.{Map, find, insert, erase}
use icetunnel.Connection.State.{
  Connection, Env, is_no_more_data_will_be_sent, on_udp_sent_buffer_changed, on_udp_delivered,
}
use icetunnel.Connection.Read.{
  confirm_packet, confirm_below, confirm_range, confirm_pairs, read_confirmation,
}
use icetunnel.Connection.Side.{Side, Side-refl, Side-trans, Side-if, changed-Side, delivered-Side}
use icetunnel.Connection.Sender.{
  IsMade, IsSender, Side-IsSender, Rest-IsSender, All-insert, All-erase, find-All,
}

confirm_packet-IsSender :
    (env : Env) (k : ℕ) (p : Packet) (made : List (List ℕ)) (input : List ℕ) (c : Connection)
    → IsMade made (k, p)
    → IsSender made input c
    → IsSender made input (confirm_packet env k p c)
unfolding confirm_packet
confirm_packet-IsSender env k p made input c here h =
    let size = get_size p.bytes in
    let delivered = if p.confirmed then c else on_udp_delivered env true p.measure_index size c in
    let fewer : Connection = record delivered {
      udp_packets_to_send_count = sub32 delivered.udp_packets_to_send_count 1;
    } in
    let counted = if p.sent then delivered else fewer in
    let done : Packet = record p { sent = true; confirmed = true } in
    let stored : Connection = record counted {
      udp_sent_packets = insert k done counted.udp_sent_packets;
    } in
    let changed = on_udp_sent_buffer_changed env (neg32 size) stored in
    let to_counted : Side c counted =
      Side-trans {d = delivered}
        (Side-if p.confirmed (Side-refl c) (delivered-Side env true p.measure_index size c))
        (Side-if p.sent (Side-refl delivered) (record {
          next = refl;
          packets = refl;
          control = refl;
          output = refl;
          received = refl;
          connected = refl;
          master = refl;
          final = refl;
        })) in
    let before : IsSender made input counted = Side-IsSender to_counted h in
    let put : IsSender made input stored =
      Rest-IsSender stored before
        (record { next = refl; received = refl; connected = refl; master = refl; final = refl })
        (All-insert (IsMade made) k done counted.udp_sent_packets here before.queued.packets)
        before.queued.control before.queued.output in
    let moved : IsSender made input changed =
      Side-IsSender (changed-Side env (neg32 size) stored) put in
    Rest-IsSender (record changed { udp_sent_packets = erase k changed.udp_sent_packets }) moved
      (record { next = refl; received = refl; connected = refl; master = refl; final = refl })
      (All-erase (IsMade made) k changed.udp_sent_packets moved.queued.packets) moved.queued.control
      moved.queued.output

confirm_below-IsSender :
    (env : Env) (master : ℕ) (m : Map Packet) (made : List (List ℕ)) (input : List ℕ)
    (c : Connection)
    → All (IsMade made) m
    → IsSender made input c
    → IsSender made input (confirm_below env master m c)
unfolding confirm_below
confirm_below-IsSender env master [] made input c all h = h
confirm_below-IsSender env master ((k, p) ∷ m) made input c (here, all) h =
    if_case (IsSender made input) (slt k master) _ c
      (λ less.
        confirm_below-IsSender env master m made input _ all
          (confirm_packet-IsSender env k p made input c here h))
      (λ stop. h)

confirm_range-IsSender :
    (rounds : ℕ) (env : Env) (i : ℕ) (made : List (List ℕ)) (input : List ℕ) (c : Connection)
    → IsSender made input c
    → IsSender made input (confirm_range rounds env i c)
unfolding confirm_range
confirm_range-IsSender zero env i made input c h = h
confirm_range-IsSender (suc rounds) env i made input c h =
    confirm_range-IsSender rounds env (add32 i 1) made input _ (
      one (find i c.udp_sent_packets)
        (λ p e. find-All (IsMade made) i p c.udp_sent_packets h.queued.packets e))
  where
    one :
        (o : Option Packet)
        → ((p : Packet) → o ≡ some p → IsMade made (i, p))
        → IsSender made input (elim o [ none ↦ c | some p ↦ confirm_packet env i p c ])
    one none there = h
    one (some p) there = confirm_packet-IsSender env i p made input c (there p refl) h

confirm_pairs-IsSender :
    (rounds : ℕ) (env : Env) (current : ℕ) (bytes : List ℕ) (made : List (List ℕ)) (input : List ℕ)
    (c : Connection)
    → IsSender made input c
    → IsSender made input (confirm_pairs rounds env current bytes c)
unfolding confirm_pairs
confirm_pairs-IsSender zero env current bytes made input c h = h
confirm_pairs-IsSender (suc rounds) env current bytes made input c h =
    pair (λ current' rest c' h'. confirm_pairs-IsSender rounds env current' rest made input c' h')
      (unpack_int_pair bytes)
  where
    pair :
        ((current' : ℕ) (rest : List ℕ) (c' : Connection)
          → IsSender made input c'
          → IsSender made input (confirm_pairs rounds env current' rest c'))
        → (o : Option (ℕ × ℕ × List ℕ))
        → IsSender made input (elim o [
          | none ↦ c
          | some (a, b, rest) ↦
              let end = add32 current (add32 a b) in
              let begin = sub32 end b in
              confirm_pairs rounds env end rest
                (if slt begin end then confirm_range b env begin c else c)
        ])
    pair again none = h
    pair again (some (a, b, rest)) =
        let end = add32 current (add32 a b) in
        let begin = sub32 end b in
        again end rest _ (
          if_case (IsSender made input) (slt begin end) _ c
            (λ less. confirm_range-IsSender b env begin made input c h) (λ empty. h))

pub read_confirmation-IsSender :
    (env : Env) (bytes : List ℕ) (made : List (List ℕ)) (input : List ℕ) (c : Connection)
    → IsSender made input c
    → IsSender made input (read_confirmation env bytes c)
unfolding read_confirmation
read_confirmation-IsSender env bytes made input c h =
    let master = get_index bytes in
    let payload = get_data bytes in
    let below = confirm_below env master c.udp_sent_packets c in
    let confirmed = confirm_pairs (length payload) env master payload below in
    let counted : Connection = record confirmed {
      stat_udp_received_extra = confirmed.stat_udp_received_extra + length bytes;
      event_udp_resend =
          if sle (length confirmed.udp_sent_packets) confirmed.udp_packets_to_send_count
          then Timer.disable confirmed.event_udp_resend
          else confirmed.event_udp_resend;
    } in
    let confirms : IsSender made input confirmed =
      confirm_pairs-IsSender (length payload) env master payload made input below
        (confirm_below-IsSender env master c.udp_sent_packets made input c h.queued.packets h) in
    let kept : IsSender made input counted =
      Side-IsSender {c = confirmed}
        (record {
          next = refl;
          packets = refl;
          control = refl;
          output = refl;
          received = refl;
          connected = refl;
          master = refl;
          final = refl;
        })
        confirms in
    if_case (IsSender made input)
      (is_no_more_data_will_be_sent counted && not (is_no_more_data_will_be_sent c)) _ counted
      (λ last.
        Side-IsSender {c = counted}
          (record {
            next = refl;
            packets = refl;
            control = refl;
            output = refl;
            received = refl;
            connected = refl;
            master = refl;
            final = refl;
          })
          kept)
      (λ more. kept)
