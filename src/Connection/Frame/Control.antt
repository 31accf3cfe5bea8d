-- ===== src/Connection/Frame/Control.antt =====
-- What the handling of confirmations leaves alone.
use icetunnel.Prelude.{
  ℕ, zero, suc, ◌+◌, refl, true, not, ◌&&◌, Option, none, some, List, [], ◌∷◌, if◌then◌else◌,
  length, slt, sle, add32, sub32,
}
use icetunnel.Event.Timer
use icetunnel.Event.Timer.{is_enabled}
use icetunnel.Packet.{Packet, PacketType, get_size, get_index, get_data}
use icetunnel.Packet.Pair.{unpack_int_pair}
use icetunnel.Connection.Map.{Map, find}
use icetunnel.Connection.State.{Connection, Env, is_no_more_data_will_be_sent, on_udp_delivered}
use icetunnel.Connection.Confirm.{drop_confirmations, remove_confirmations, push_control, push_all}
use icetunnel.Connection.Read.{
  confirm_packet, confirm_below, confirm_range, confirm_pairs, read_confirmation, read_bye_bye,
}
use icetunnel.Connection.Frame.{
  Frame, Frame-refl, Frame-trans, Frame-if, changed-Frame, delivered-Frame,
}

drop_confirmations-Frame :
    (env : Env) (ps : List Packet) (c : Connection) → Frame c (drop_confirmations env ps c).0
unfolding drop_confirmations
drop_confirmations-Frame env [] c = Frame-refl c
drop_confirmations-Frame env (p ∷ ps) c =
    Frame-trans (Frame-if _ (changed-Frame env _ c) (Frame-refl c))
      (drop_confirmations-Frame env ps _)

pub remove_confirmations-Frame : (env : Env) (c : Connection) → Frame c (remove_confirmations env c)
unfolding remove_confirmations
remove_confirmations-Frame env c =
    Frame-trans (drop_confirmations-Frame env c.udp_confirmation_packets c)
      (record { connected = refl; output = refl; next = refl; received = refl })

pub push_control-Frame :
    (env : Env) (type : PacketType) (i : ℕ) (payload : List ℕ) (c : Connection)
    → Frame c (push_control env type i payload c)
unfolding push_control
push_control-Frame env type i payload c =
    Frame-trans {d = record c { udp_confirmation_packets = _ }}
      (record { connected = refl; output = refl; next = refl; received = refl })
      (changed-Frame env _ _)

pub push_all-Frame :
    (env : Env) (payloads : List (List ℕ)) (c : Connection) → Frame c (push_all env payloads c)
unfolding push_all
push_all-Frame env [] c = Frame-refl c
push_all-Frame env (payload ∷ payloads) c =
    Frame-trans (push_control-Frame env _ _ payload c) (push_all-Frame env payloads _)

confirm_packet-Frame :
    (env : Env) (k : ℕ) (p : Packet) (c : Connection) → Frame c (confirm_packet env k p c)
unfolding confirm_packet
confirm_packet-Frame env k p c =
    let size = get_size p.bytes in
    let delivered = if p.confirmed then c else on_udp_delivered env true p.measure_index size c in
    let one : Frame c delivered =
      Frame-if p.confirmed (Frame-refl c) (delivered-Frame env true p.measure_index size c) in
    let fewer : Connection = record delivered {
      udp_packets_to_send_count = sub32 delivered.udp_packets_to_send_count 1;
    } in
    let two : Frame delivered (if p.sent then delivered else fewer) =
      Frame-if p.sent (Frame-refl delivered)
        (record { connected = refl; output = refl; next = refl; received = refl }) in
    Frame-trans one (
      Frame-trans two (
        Frame-trans (record { connected = refl; output = refl; next = refl; received = refl })
          (Frame-trans (changed-Frame env _ _)
            (record { connected = refl; output = refl; next = refl; received = refl }))))

confirm_below-Frame :
    (env : Env) (master : ℕ) (m : Map Packet) (c : Connection)
    → Frame c (confirm_below env master m c)
unfolding confirm_below
confirm_below-Frame env master [] c = Frame-refl c
confirm_below-Frame env master ((k, p) ∷ m) c =
    Frame-if (slt k master)
      (Frame-trans (confirm_packet-Frame env k p c) (confirm_below-Frame env master m _))
      (Frame-refl c)

confirm_range-Frame :
    (rounds : ℕ) (env : Env) (i : ℕ) (c : Connection) → Frame c (confirm_range rounds env i c)
unfolding confirm_range
confirm_range-Frame zero env i c = Frame-refl c
confirm_range-Frame (suc rounds) env i c =
    Frame-trans (found-Frame (find i c.udp_sent_packets))
      (confirm_range-Frame rounds env (add32 i 1) _)
  where
    found-Frame :
        (o : Option Packet) → Frame c (elim o [ none ↦ c | some p ↦ confirm_packet env i p c ])
    found-Frame none = Frame-refl c
    found-Frame (some p) = confirm_packet-Frame env i p c

confirm_pairs-Frame :
    (rounds : ℕ) (env : Env) (current : ℕ) (bytes : List ℕ) (c : Connection)
    → Frame c (confirm_pairs rounds env current bytes c)
unfolding confirm_pairs
confirm_pairs-Frame zero env current bytes c = Frame-refl c
confirm_pairs-Frame (suc rounds) env current bytes c =
    pair-Frame (λ current' rest c'. confirm_pairs-Frame rounds env current' rest c')
      (unpack_int_pair bytes)
  where
    pair-Frame :
        ((current' : ℕ) (rest : List ℕ) (c' : Connection)
          → Frame c' (confirm_pairs rounds env current' rest c'))
        → (o : Option (ℕ × ℕ × List ℕ))
        → Frame c (elim o [
          | none ↦ c
          | some (a, b, rest) ↦
              let end = add32 current (add32 a b) in
              let begin = sub32 end b in
              confirm_pairs rounds env end rest
                (if slt begin end then confirm_range b env begin c else c)
        ])
    pair-Frame again none = Frame-refl c
    pair-Frame again (some (a, b, rest)) =
        let end = add32 current (add32 a b) in
        let begin = sub32 end b in
        Frame-trans (Frame-if (slt begin end) (confirm_range-Frame b env begin c) (Frame-refl c))
          (again end rest _)

pub read_confirmation-Frame :
    (env : Env) (bytes : List ℕ) (c : Connection) → Frame c (read_confirmation env bytes c)
unfolding read_confirmation
read_confirmation-Frame env bytes c =
    let master = get_index bytes in
    let payload = get_data bytes in
    let below = confirm_below env master c.udp_sent_packets c in
    let confirmed = confirm_pairs (length payload) env master payload below in
    let counted : Connection = record confirmed {
      stat_udp_received_extra = confirmed.stat_udp_received_extra + length bytes;
      event_udp_resend =
          if sle (length confirmed.udp_sent_packets) confirmed.udp_packets_to_send_count
          then Timer.disable confirmed.event_udp_resend
          else confirmed.event_udp_resend;
    } in
    let kept : Frame c counted = Frame-trans (confirm_below-Frame env master c.udp_sent_packets c) (
      Frame-trans (confirm_pairs-Frame (length payload) env master payload below)
        (record { connected = refl; output = refl; next = refl; received = refl })) in
    Frame-if (is_no_more_data_will_be_sent counted && not (is_no_more_data_will_be_sent c))
      (Frame-trans kept (record { connected = refl; output = refl; next = refl; received = refl }))
      kept

pub read_bye_bye-Frame : (env : Env) (c : Connection) → Frame c (read_bye_bye env c)
unfolding read_bye_bye
read_bye_bye-Frame env c =
    let start : Connection = record c {
      remain_confirmation_resend_count = 0;
      event_build_confirmations = Timer.disable c.event_build_confirmations;
    } in
    let removed : Frame c (remove_confirmations env start) =
      Frame-trans {d = start}
        (record { connected = refl; output = refl; next = refl; received = refl })
        (remove_confirmations-Frame env start) in
    Frame-if (is_enabled (remove_confirmations env start).event_udp_close_wait)
      (Frame-trans removed
        (record { connected = refl; output = refl; next = refl; received = refl }))
      removed
