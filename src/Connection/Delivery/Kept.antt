-- ===== src/Connection/Delivery/Kept.antt =====
-- What keeps the delivered text as it is: changes on the other side of a connection, and its ends.
use icetunnel.Prelude.{
  if_case, ℕ, zero, suc, ◌-◌, ◌≡◌, refl, sym, ap, ap₂, ◌∙◌, inl, inr, Bool, true, false, not, none,
  some, List, [], ◌++◌, arith, if◌then◌else◌, leb, Option-cases, neg32,
}
use icetunnel.Packet.{Packet, bye, disconnect}
use icetunnel.Event.Timer
use icetunnel.Connection.Map.{find}
use icetunnel.Connection.State.{Connection, Env, on_udp_sent_buffer_changed}
use icetunnel.Connection.Build.{put_size, build_udp_packets}
use icetunnel.Connection.Write.{finish_packet, fake_loop, tcp_write_fake, tcp_close, udp_close}
use icetunnel.Connection.Frame.{
  Frame, Frame-trans, changed-Frame, woken-Frame, put_packet-Frame, build_udp_packets-Frame,
}
use icetunnel.Connection.Delivery.{IsAligned, IsPrefix, text, payload}

-- What is written is a beginning of the text; and while the TCP socket is open the rest is at hand.
pub record IsDelivered (stream : ℕ → List ℕ) (c : Connection) : Type 0 where
  pub prefix : IsPrefix stream c.tcp_output
  pub aligned : c.tcp_connected ≡ true → IsAligned stream c

Frame-IsAligned :
    (stream : ℕ → List ℕ) (c d : Connection) → Frame c d → IsAligned stream c → IsAligned stream d
Frame-IsAligned stream c d f h =
    let found : (k : ℕ) → find k d.udp_received_packets ≡ find k c.udp_received_packets =
      λ k. ap (find k) f.received in
    let here = ap₂ (λ i m. find i m) f.next f.received in
    record {
      free = λ e. f.output ∙ h.free (sym here ∙ e) ∙ ap (λ i. text stream i) (sym f.next);
      current = λ p e.
          ap (λ o. o ++ payload p.bytes) f.output
          ∙ h.current p (sym here ∙ e)
          ∙ ap (λ i. text stream (suc i)) (sym f.next);
      later = λ k p lt e. h.later k p (omega (arith, f.next, lt)) (sym (found k) ∙ e);
    }

pub Frame-IsDelivered :
    (stream : ℕ → List ℕ) (c d : Connection)
    → Frame c d
    → IsDelivered stream c
    → IsDelivered stream d
Frame-IsDelivered stream c d f h =
    let (n, rest, e) = h.prefix in
    record {
      prefix = (n, rest, ap (λ o. o ++ rest) f.output ∙ e);
      aligned = λ on. Frame-IsAligned stream c d f (h.aligned (sym f.connected ∙ on));
    }

-- A connection whose TCP socket is closed and whose output is as it was.
pub closed-IsDelivered :
    (stream : ℕ → List ℕ) (c d : Connection)
    → IsPrefix stream c.tcp_output
    → d.tcp_output ≡ c.tcp_output
    → d.tcp_connected ≡ false
    → IsDelivered stream d
closed-IsDelivered stream c d (n, rest, e) output off = record {
  prefix = (n, rest, ap (λ o. o ++ rest) output ∙ e);
  aligned = λ on. absurd (cc (on, off));
}

pub finish_packet-output :
    (i : ℕ) (p : Packet) (c : Connection)
    → ((finish_packet i p c).tcp_output ≡ c.tcp_output)
      × ((finish_packet i p c).tcp_connected ≡ c.tcp_connected)
unfolding finish_packet
finish_packet-output i p c = ground arith

fake_loop-output :
    (rounds : ℕ) (c : Connection)
    → ((fake_loop rounds c).tcp_output ≡ c.tcp_output)
      × ((fake_loop rounds c).tcp_connected ≡ c.tcp_connected)
unfolding fake_loop
fake_loop-output zero c = (refl, refl)
fake_loop-output (suc rounds) c =
    elim (Option-cases (find c.tcp_next_send_index c.udp_received_packets)) [
      | inl e ↦
          let stops : fake_loop (suc rounds) c ≡ c =
            ap {B = Connection}
              (λ o. elim o [
                | none ↦ c
                | some p ↦ fake_loop rounds (finish_packet c.tcp_next_send_index p c)
              ])
              e in
          (ap (λ d. d.tcp_output) stops, ap (λ d. d.tcp_connected) stops)
      | inr (p, e) ↦
          let next = finish_packet c.tcp_next_send_index p c in
          let goes : fake_loop (suc rounds) c ≡ fake_loop rounds next =
            ap {B = Connection}
              (λ o. elim o [
                | none ↦ c
                | some q ↦ fake_loop rounds (finish_packet c.tcp_next_send_index q c)
              ])
              e in
          let (output, connected) = fake_loop-output rounds next in
          let (output', connected') = finish_packet-output c.tcp_next_send_index p c in
          (
            ap (λ d. d.tcp_output) goes ∙ output ∙ output',
            ap (λ d. d.tcp_connected) goes ∙ connected ∙ connected',
          )
    ]

pub tcp_write_fake-IsDelivered :
    (stream : ℕ → List ℕ) (c : Connection)
    → IsDelivered stream c
    → IsDelivered stream (tcp_write_fake c)
unfolding tcp_write_fake
tcp_write_fake-IsDelivered stream c h =
    let written = fake_loop-output (c.udp_received_master_index - c.tcp_next_send_index) c in
    if_case (IsDelivered stream) c.tcp_connected c _ (λ on. h)
      (λ off. closed-IsDelivered stream c _ h.prefix written.0 (written.1 ∙ off))

tcp_write_fake-output :
    (c : Connection)
    → c.tcp_connected ≡ false
    → ((tcp_write_fake c).tcp_output ≡ c.tcp_output) × ((tcp_write_fake c).tcp_connected ≡ false)
unfolding tcp_write_fake
tcp_write_fake-output c off =
    let written = fake_loop-output (c.udp_received_master_index - c.tcp_next_send_index) c in
    if_case (λ d. (d.tcp_output ≡ c.tcp_output) × (d.tcp_connected ≡ false)) c.tcp_connected c _
      (λ on. absurd (cc (on, off))) (λ off'. (written.0, written.1 ∙ off'))

-- `tcpClose` writes nothing.
pub tcp_close-output :
    (env : Env) (error : Bool) (c : Connection)
    → ((tcp_close env error c).tcp_output ≡ c.tcp_output)
      × ((tcp_close env error c).tcp_connected ≡ false)
unfolding tcp_close
tcp_close-output env error c =
    let closed = record c {
      tcp_connected = false;
      event_tcp_read = Timer.disable c.event_tcp_read;
      event_tcp_write = Timer.disable c.event_tcp_write;
      tcp_closed = true;
    } in
    let (output, connected) = tcp_write_fake-output closed refl in
    let built = build_udp_packets env true (tcp_write_fake closed) in
    let type = if error then disconnect else bye in
    let last : Frame (tcp_write_fake closed) _ =
      Frame-trans (build_udp_packets-Frame env true (tcp_write_fake closed)) (
        Frame-trans (put_packet-Frame type [] built)
          (Frame-trans (changed-Frame env (put_size type [] built) _) (woken-Frame env _))) in
    let P : Connection → Type 0 = λ d. (d.tcp_output ≡ c.tcp_output) × (d.tcp_connected ≡ false) in
    if_case P (not c.tcp_connected) c _ (λ off. (refl, ground (arith, off)))
      (λ on.
        if_case P (not c.udp_connected) _ _ (λ off. (refl, refl))
          (λ on'. (last.output ∙ output, last.connected ∙ connected)))

pub tcp_close-IsDelivered :
    (stream : ℕ → List ℕ) (env : Env) (error : Bool) (c : Connection)
    → IsPrefix stream c.tcp_output
    → IsDelivered stream (tcp_close env error c)
tcp_close-IsDelivered stream env error c h =
    let (output, connected) = tcp_close-output env error c in
    closed-IsDelivered stream c _ h output connected

pub udp_close-IsDelivered :
    (stream : ℕ → List ℕ) (env : Env) (c : Connection)
    → IsDelivered stream c
    → IsDelivered stream (udp_close env c)
unfolding udp_close
udp_close-IsDelivered stream env c h =
    let cleared : Connection = record c {
      udp_connected = false;
      event_build_udp_packets = Timer.disable c.event_build_udp_packets;
      event_build_confirmations = Timer.disable c.event_build_confirmations;
      event_udp_resend = Timer.disable c.event_udp_resend;
      event_tcp_read = Timer.disable c.event_tcp_read;
      event_udp_write = Timer.disable c.event_udp_write;
      tcp_read_closed = true;
      tcp_received_data = [];
      udp_confirmation_packets = [];
      udp_sent_packets = [];
    } in
    let closed = on_udp_sent_buffer_changed env (neg32 c.udp_sent_buffer_size) cleared in
    let begun : Frame c cleared = record {
      connected = refl;
      output = refl;
      next = refl;
      received = refl;
    } in
    let kept =
      Frame-IsDelivered stream c closed (Frame-trans begun (changed-Frame env _ cleared)) h in
    if_case (IsDelivered stream) (not c.udp_connected) c _ (λ off. h)
      (λ on.
        if_case (IsDelivered stream) (not c.tcp_connected) _ _
          (λ off.
            Frame-IsDelivered stream closed _
              (record { connected = refl; output = refl; next = refl; received = refl }) kept)
          (λ on'.
            if_case (IsDelivered stream) (leb c.udp_received_master_index c.tcp_next_send_index) _ _
              (λ all. tcp_close-IsDelivered stream env false closed kept.prefix) (λ left. kept)))
