-- ===== src/Connection/Sender/Control.antt =====
-- The making of confirmations, and the packets that the connection makes.
use icetunnel.Prelude.{ℕ, ◌≡◌, refl, ap, ◌∙◌, false, List, [], ◌∷◌, ◌++◌, if_case, All, All-append}
use icetunnel.Packet.{
  Packet, PacketType, confirmation, bye_bye, new_packet, encode, to_code, type_eq, get_type,
  get_size,
}
use icetunnel.Packet.Check.{IsKnown, get_type-encode}
use icetunnel.Event.Timer
use icetunnel.Event.Timer.{is_enabled}
use icetunnel.Connection.State.{Connection, Env, set_event_udp_write}
use icetunnel.Connection.Confirm.{
  drop_confirmations, remove_confirmations, confirmation_payloads, push_control, push_all,
  sweep_received, build_confirmations, build_bye_bye,
}
use icetunnel.Connection.Read.{read_bye_bye}
use icetunnel.Connection.Delivery.Receive.{is_stream_type}
use icetunnel.Connection.Side.{
  Side, Side-refl, Side-trans, Side-if, changed-Side, woken-Side, sweep_received-Side,
}
use icetunnel.Connection.Sender.{IsControl, IsSender, Side-IsSender, Rest-IsSender}

drop_confirmations-Side :
    (env : Env) (ps : List Packet) (c : Connection) → Side c (drop_confirmations env ps c).0
unfolding drop_confirmations
drop_confirmations-Side env [] c = Side-refl c
drop_confirmations-Side env (p ∷ ps) c =
    Side-trans
      (Side-if (type_eq (get_type p.bytes) confirmation) (changed-Side env _ c) (Side-refl c))
      (drop_confirmations-Side env ps _)

drop_confirmations-IsControl :
    (env : Env) (ps : List Packet) (c : Connection)
    → All IsControl ps
    → All IsControl (drop_confirmations env ps c).1
unfolding drop_confirmations
drop_confirmations-IsControl env [] c h = h
drop_confirmations-IsControl env (p ∷ ps) c (control, h) =
    let is_confirmation = type_eq (get_type p.bytes) confirmation in
    let rest = drop_confirmations-IsControl env ps _ h in
    if_case (All IsControl) is_confirmation _ _ (λ yes. rest) (λ no. (control, rest))

pub remove_confirmations-IsSender :
    (env : Env) (made : List (List ℕ)) (input : List ℕ) (c : Connection)
    → IsSender made input c
    → IsSender made input (remove_confirmations env c)
unfolding remove_confirmations
remove_confirmations-IsSender env made input c h =
    let out = drop_confirmations env c.udp_confirmation_packets c in
    let dropped : IsSender made input out.0 =
      Side-IsSender (drop_confirmations-Side env c.udp_confirmation_packets c) h in
    Rest-IsSender (record out.0 { udp_confirmation_packets = out.1 }) dropped
      (record { next = refl; received = refl; connected = refl; master = refl; final = refl })
      dropped.queued.packets
      (drop_confirmations-IsControl env c.udp_confirmation_packets c h.queued.control)
      dropped.queued.output

pub push_control-IsSender :
    (env : Env) (type : PacketType) (index : ℕ) (payload : List ℕ) (made : List (List ℕ))
    (input : List ℕ) (c : Connection)
    → IsKnown type
    → is_stream_type type ≡ false
    → IsSender made input c
    → IsSender made input (push_control env type index payload c)
unfolding push_control
push_control-IsSender env type index payload made input c known control h =
    let packet : Packet = record new_packet { bytes = encode type index payload [] } in
    let pushed : Connection = record c {
      udp_confirmation_packets = c.udp_confirmation_packets ++ packet ∷ [];
    } in
    let one : IsControl packet =
      ap is_stream_type (get_type-encode type index payload [] known) ∙ control in
    let put : IsSender made input pushed =
      Rest-IsSender pushed h
        (record { next = refl; received = refl; connected = refl; master = refl; final = refl })
        h.queued.packets
        (All-append IsControl c.udp_confirmation_packets (packet ∷ []) h.queued.control (one, tt))
        h.queued.output in
    Side-IsSender (changed-Side env (get_size packet.bytes) pushed) put

control_types : (is_stream_type confirmation ≡ false) × (is_stream_type bye_bye ≡ false)
unfolding type_eq to_code
control_types = (refl, refl)

push_all-IsSender :
    (env : Env) (payloads : List (List ℕ)) (made : List (List ℕ)) (input : List ℕ) (c : Connection)
    → IsSender made input c
    → IsSender made input (push_all env payloads c)
unfolding push_all
push_all-IsSender env [] made input c h = h
push_all-IsSender env (payload ∷ payloads) made input c h =
    push_all-IsSender env payloads made input _ (
      push_control-IsSender env confirmation c.udp_received_master_index payload made input c tt
        control_types.0 h)

pub build_confirmations-IsSender :
    (env : Env) (made : List (List ℕ)) (input : List ℕ) (c : Connection)
    → IsSender made input c
    → IsSender made input (build_confirmations env c)
unfolding build_confirmations
build_confirmations-IsSender env made input c h =
    let removed = remove_confirmations env c in
    let pushed = push_all env (confirmation_payloads removed) removed in
    let marked : Connection = record pushed {
      udp_confirmed_master_index = pushed.udp_received_master_index;
    } in
    let pushes : IsSender made input pushed =
      push_all-IsSender env (confirmation_payloads removed) made input removed
        (remove_confirmations-IsSender env made input c h) in
    let to_swept : Side pushed (sweep_received (set_event_udp_write env marked)) =
      Side-trans {d = marked}
        (record {
          next = refl;
          packets = refl;
          control = refl;
          output = refl;
          received = refl;
          connected = refl;
          master = refl;
          final = refl;
        })
        (Side-trans (woken-Side env marked)
          (sweep_received-Side (set_event_udp_write env marked))) in
    if_case (IsSender made input) c.udp_connected _ c
      (λ on.
        Side-IsSender
          (Side-trans to_swept (record {
            next = refl;
            packets = refl;
            control = refl;
            output = refl;
            received = refl;
            connected = refl;
            master = refl;
            final = refl;
          }))
          pushes)
      (λ off. h)

pub build_bye_bye-IsSender :
    (env : Env) (made : List (List ℕ)) (input : List ℕ) (c : Connection)
    → IsSender made input c
    → IsSender made input (build_bye_bye env c)
unfolding build_bye_bye
build_bye_bye-IsSender env made input c h =
    let pushed =
      push_control-IsSender env bye_bye c.udp_next_send_index [] made input c tt control_types.1
        h in
    if_case (IsSender made input) c.udp_connected _ c
      (λ on.
        Side-IsSender
          (Side-trans (woken-Side env _) (record {
            next = refl;
            packets = refl;
            control = refl;
            output = refl;
            received = refl;
            connected = refl;
            master = refl;
            final = refl;
          }))
          pushed)
      (λ off. h)

pub read_bye_bye-IsSender :
    (env : Env) (made : List (List ℕ)) (input : List ℕ) (c : Connection)
    → IsSender made input c
    → IsSender made input (read_bye_bye env c)
unfolding read_bye_bye
read_bye_bye-IsSender env made input c h =
    let start : Connection = record c {
      remain_confirmation_resend_count = 0;
      event_build_confirmations = Timer.disable c.event_build_confirmations;
    } in
    let begun : IsSender made input start =
      Side-IsSender {c = c}
        (record {
          next = refl;
          packets = refl;
          control = refl;
          output = refl;
          received = refl;
          connected = refl;
          master = refl;
          final = refl;
        })
        h in
    let removed = remove_confirmations env start in
    let kept = remove_confirmations-IsSender env made input start begun in
    if_case (IsSender made input) (is_enabled removed.event_udp_close_wait) _ removed
      (λ waits.
        Side-IsSender {c = removed}
          (record {
            next = refl;
            packets = refl;
            control = refl;
            output = refl;
            received = refl;
            connected = refl;
            master = refl;
            final = refl;
          })
          kept)
      (λ no. kept)
