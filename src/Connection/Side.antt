-- ===== src/Connection/Side.antt =====
-- What the parts of the handlers leave alone: the side of the connection that sends packets.
use icetunnel.Prelude.{
  ℕ, zero, suc, ◌-◌, ◌≡◌, refl, ◌∙◌, Bool, true, false, Option, none, some, arith, if◌then◌else◌,
  ltb,
}
use icetunnel.Packet.{Packet}
use icetunnel.Connection.{Input, disarm}
use icetunnel.Connection.Map.{find}
use icetunnel.Connection.State.{
  Connection, Env, on_udp_sent_buffer_changed, on_udp_sent, on_udp_delivered, set_event_udp_write,
}
use icetunnel.Connection.Write.{
  finish_packet, write_part, wake_tcp_write, fake_loop, tcp_write_fake,
}
use icetunnel.Connection.Confirm.{sweep_received}
use icetunnel.Connection.Udp.{wake_udp_write}

pub record Side (c d : Connection) : Type 0 where
  pub next : d.udp_next_send_index ≡ c.udp_next_send_index
  pub packets : d.udp_sent_packets ≡ c.udp_sent_packets
  pub control : d.udp_confirmation_packets ≡ c.udp_confirmation_packets
  pub output : d.udp_output ≡ c.udp_output
  pub received : d.tcp_received_data ≡ c.tcp_received_data
  pub connected : d.udp_connected ≡ c.udp_connected
  pub master : d.udp_received_master_index ≡ c.udp_received_master_index
  pub final : d.udp_received_final_index ≡ c.udp_received_final_index

pub Side-refl : (c : Connection) → Side c c
Side-refl c = record {
  next = refl;
  packets = refl;
  control = refl;
  output = refl;
  received = refl;
  connected = refl;
  master = refl;
  final = refl;
}

pub Side-trans : {c d e : Connection} → Side c d → Side d e → Side c e
Side-trans f g = record {
  next = g.next ∙ f.next;
  packets = g.packets ∙ f.packets;
  control = g.control ∙ f.control;
  output = g.output ∙ f.output;
  received = g.received ∙ f.received;
  connected = g.connected ∙ f.connected;
  master = g.master ∙ f.master;
  final = g.final ∙ f.final;
}

pub Side-if : {c d e : Connection} (b : Bool) → Side c d → Side c e → Side c (if b then d else e)
Side-if true f g = f
Side-if false f g = g

pub changed-Side :
    (env : Env) (n : ℕ) (c : Connection) → Side c (on_udp_sent_buffer_changed env n c)
unfolding on_udp_sent_buffer_changed
changed-Side env n c = record {
  next = refl;
  packets = refl;
  control = refl;
  output = refl;
  received = refl;
  connected = refl;
  master = refl;
  final = refl;
}

pub woken-Side : (env : Env) (c : Connection) → Side c (set_event_udp_write env c)
unfolding set_event_udp_write
woken-Side env c = record {
  next = refl;
  packets = refl;
  control = refl;
  output = refl;
  received = refl;
  connected = refl;
  master = refl;
  final = refl;
}

pub sent-Side : (env : Env) (i n s : ℕ) (c : Connection) → Side c (on_udp_sent env i n s c)
unfolding on_udp_sent
sent-Side env i n s c = ground arith

pub delivered-Side :
    (env : Env) (ok : Bool) (i s : ℕ) (c : Connection) → Side c (on_udp_delivered env ok i s c)
unfolding on_udp_delivered
delivered-Side env ok i s c = ground arith

pub wake_udp_write-Side : (c : Connection) → Side c (wake_udp_write c)
unfolding wake_udp_write
wake_udp_write-Side c = record {
  next = refl;
  packets = refl;
  control = refl;
  output = refl;
  received = refl;
  connected = refl;
  master = refl;
  final = refl;
}

pub sweep_received-Side : (c : Connection) → Side c (sweep_received c)
unfolding sweep_received
sweep_received-Side c = record {
  next = refl;
  packets = refl;
  control = refl;
  output = refl;
  received = refl;
  connected = refl;
  master = refl;
  final = refl;
}

pub finish_packet-Side : (i : ℕ) (p : Packet) (c : Connection) → Side c (finish_packet i p c)
unfolding finish_packet
finish_packet-Side i p c = ground arith

pub write_part-Side :
    (env : Env) (size i : ℕ) (p : Packet) (c : Connection)
    → Side c (wake_tcp_write env (if ltb 0 size then write_part size i p c else c))
unfolding write_part wake_tcp_write
write_part-Side env size i p c = ground arith

fake_loop-Side : (rounds : ℕ) (c : Connection) → Side c (fake_loop rounds c)
unfolding fake_loop
fake_loop-Side zero c = Side-refl c
fake_loop-Side (suc rounds) c =
    found-Side (λ d. fake_loop-Side rounds d) (find c.tcp_next_send_index c.udp_received_packets)
  where
    found-Side :
        ((d : Connection) → Side d (fake_loop rounds d))
        → (o : Option Packet)
        → Side c (elim o [
          | none ↦ c
          | some p ↦ fake_loop rounds (finish_packet c.tcp_next_send_index p c)
        ])
    found-Side again none = Side-refl c
    found-Side again (some p) = Side-trans (finish_packet-Side c.tcp_next_send_index p c) (again _)

pub tcp_write_fake-Side : (c : Connection) → Side c (tcp_write_fake c)
unfolding tcp_write_fake
tcp_write_fake-Side c =
    Side-if c.tcp_connected (Side-refl c)
      (fake_loop-Side (c.udp_received_master_index - c.tcp_next_send_index) c)

pub disarm-Side : (input : Input) (c : Connection) → Side c (disarm input c)
unfolding disarm
disarm-Side (Input.udp_reads bytes) c = Side-refl c
disarm-Side Input.tcp_reads c = ground arith
disarm-Side Input.tcp_writes c = ground arith
disarm-Side (Input.tcp_closes error) c = ground arith
disarm-Side (Input.udp_writes planned) c = ground arith
disarm-Side (Input.udp_closes error) c = ground arith
disarm-Side Input.builds_udp_packets c = ground arith
disarm-Side Input.builds_confirmations c = ground arith
disarm-Side Input.builds_bye_bye c = ground arith
disarm-Side Input.udp_resends c = ground arith
disarm-Side Input.udp_close_waits c = ground arith
disarm-Side Input.closes c = ground arith
