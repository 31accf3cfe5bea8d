-- ===== src/Connection/Frame.antt =====
-- What the parts of the handlers leave alone: the side of the connection that writes to the TCP
-- socket.
pub mod Control
use icetunnel.Prelude.{
  ℕ, zero, suc, ◌+◌, ◌≡◌, refl, sym, ap, ◌∙◌, inl, inr, Bool, true, false, not, ◌&&◌, ◌||◌, Option,
  none, some, List, [], ◌∷◌, arith, if◌then◌else◌, ltb, Bool-cases, Option-cases, min, take, drop,
  ◌==◌, length, slt, sle, add32, sub32,
}
use icetunnel.Event.Timer
use icetunnel.Event.Timer.{is_enabled}
use icetunnel.Packet.{
  Packet, PacketType, type_eq, get_type, get_size, get_index, get_data, confirmation,
}
use icetunnel.Packet.Pair.{unpack_int_pair}
use icetunnel.Connection.Map.{Map, find}
use icetunnel.Connection.State.{
  Connection, Env, is_no_more_data_will_be_sent, on_udp_sent_buffer_changed, on_udp_sent,
  on_udp_delivered, set_event_udp_write,
}
use icetunnel.Connection.Build.{
  put_packet, put_size, add_data_packet, build_loop, build_end, data_to_build, build_udp_packets,
  tcp_read,
}
use icetunnel.Connection.Confirm.{drop_confirmations, remove_confirmations, push_control, push_all}
use icetunnel.Connection.Udp.{wake_udp_write, resend_packet}
use icetunnel.Connection.Read.{
  confirm_packet, confirm_below, confirm_range, confirm_pairs, read_confirmation, read_bye_bye,
}

pub record Frame (c d : Connection) : Type 0 where
  pub connected : d.tcp_connected ≡ c.tcp_connected
  pub output : d.tcp_output ≡ c.tcp_output
  pub next : d.tcp_next_send_index ≡ c.tcp_next_send_index
  pub received : d.udp_received_packets ≡ c.udp_received_packets

pub Frame-refl : (c : Connection) → Frame c c
Frame-refl c = record { connected = refl; output = refl; next = refl; received = refl }

pub Frame-trans : {c d e : Connection} → Frame c d → Frame d e → Frame c e
Frame-trans f g = record {
  connected = g.connected ∙ f.connected;
  output = g.output ∙ f.output;
  next = g.next ∙ f.next;
  received = g.received ∙ f.received;
}

-- A branch.
pub Frame-if :
    {c d e : Connection} (b : Bool) → Frame c d → Frame c e → Frame c (if b then d else e)
Frame-if true f g = f
Frame-if false f g = g

pub changed-Frame :
    (env : Env) (n : ℕ) (c : Connection) → Frame c (on_udp_sent_buffer_changed env n c)
unfolding on_udp_sent_buffer_changed
changed-Frame env n c = record { connected = refl; output = refl; next = refl; received = refl }

pub woken-Frame : (env : Env) (c : Connection) → Frame c (set_event_udp_write env c)
unfolding set_event_udp_write
woken-Frame env c = record { connected = refl; output = refl; next = refl; received = refl }

pub sent-Frame : (env : Env) (i n s : ℕ) (c : Connection) → Frame c (on_udp_sent env i n s c)
unfolding on_udp_sent
sent-Frame env i n s c = ground arith

pub delivered-Frame :
    (env : Env) (ok : Bool) (i s : ℕ) (c : Connection) → Frame c (on_udp_delivered env ok i s c)
unfolding on_udp_delivered
delivered-Frame env ok i s c = ground arith

pub put_packet-Frame :
    (type : PacketType) (payload : List ℕ) (c : Connection) → Frame c (put_packet type payload c)
unfolding put_packet
put_packet-Frame type payload c = record {
  connected = refl;
  output = refl;
  next = refl;
  received = refl;
}

add_data_packet-Frame :
    (env : Env) (payload : List ℕ) (c : Connection) → Frame c (add_data_packet env payload c)
unfolding add_data_packet
add_data_packet-Frame env payload c =
    Frame-trans (put_packet-Frame _ payload c)
      (Frame-trans (woken-Frame env _) (changed-Frame env _ _))

-- The connection of a pair, in a branch.
Frame-if_first :
    {c : Connection} (x y : Connection × List ℕ) (b : Bool)
    → Frame c x.0
    → Frame c y.0
    → Frame c (if b then x else y).0
Frame-if_first x y true f g = f
Frame-if_first x y false f g = g

build_loop-Frame :
    (rounds : ℕ) (env : Env) (flush : Bool) (rest : List ℕ) (c : Connection)
    → Frame c (build_loop rounds env flush rest c).0
unfolding build_loop
build_loop-Frame zero env flush rest c = Frame-refl c
build_loop-Frame (suc rounds) env flush rest c =
    Frame-if_first _ _ _ (Frame-refl c)
      (Frame-trans (add_data_packet-Frame env _ c) (build_loop-Frame rounds env flush _ _))

build_end-Frame :
    (env : Env) (full : Bool) (rest : List ℕ) (c : Connection) → Frame c (build_end env full rest c)
unfolding build_end
build_end-Frame env full rest c = record {
  connected = refl;
  output = refl;
  next = refl;
  received = refl;
}

pub build_udp_packets-Frame :
    (env : Env) (flush : Bool) (c : Connection) → Frame c (build_udp_packets env flush c)
unfolding build_udp_packets
build_udp_packets-Frame env flush c =
    let pending = data_to_build c in
    let start = record c { tcp_received_data = pending } in
    let out = build_loop (length pending) env flush pending start in
    let begun : Frame c start = record {
      connected = refl;
      output = refl;
      next = refl;
      received = refl;
    } in
    Frame-if c.udp_connected
      (Frame-trans begun (
        Frame-trans (build_loop-Frame (length pending) env flush pending start)
          (build_end-Frame env _ out.1 out.0)))
      (Frame-refl c)
