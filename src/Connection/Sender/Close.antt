-- ===== src/Connection/Sender/Close.antt =====
-- The ends of a connection, `tcpWrite` and `tcpRead`, and the packets that the connection makes.
use icetunnel.Prelude.{
  ℕ, zero, suc, ◌+◌, ◌-◌, ◌≡◌, refl, sym, ap, subst, ◌∙◌, inl, inr, Bool, true, false, not, ◌||◌,
  Option, none, some, List, [], ◌∷◌, ◌++◌, append_assoc, append-nil, arith, if_case, if◌then◌else◌,
  ltb, leb, ◌==◌, length, neg32,
}
use icetunnel.Packet.{
  Packet, bye, disconnect, data_packet, to_code, type_eq, get_type, get_size, get_data,
}
use icetunnel.Packet.Check.{IsKnown}
use icetunnel.Event.Timer
use icetunnel.Connection.Map.{find}
use icetunnel.Connection.State.{Connection, Env, on_udp_sent_buffer_changed}
use icetunnel.Connection.Build.{build_udp_packets, tcp_read}
use icetunnel.Connection.Write.{
  finish_packet, write_part, wake_tcp_write, tcp_close, write_loop, tcp_write, udp_close,
}
use icetunnel.Connection.Side.{
  Side, Side-trans, changed-Side, woken-Side, finish_packet-Side, write_part-Side,
  tcp_write_fake-Side,
}
use icetunnel.Connection.Sender.{IsSender, Sends, all_text, Side-IsSender, Side-Sends}
use icetunnel.Connection.Sender.Make.{put_packet-Sends, build_udp_packets-Sends}

end_type :
    (error : Bool)
    → IsKnown (if error then disconnect else bye)
      × (type_eq (if error then disconnect else bye) data_packet ≡ false)
unfolding type_eq to_code
end_type true = (tt, refl)
end_type false = (tt, refl)

pub tcp_close-Sends :
    (env : Env) (error : Bool) (input : List ℕ) (c : Connection)
    → Sends input c
    → Sends input (tcp_close env error c)
unfolding tcp_close
tcp_close-Sends env error input c h =
    let closed : Connection = record c {
      tcp_connected = false;
      event_tcp_read = Timer.disable c.event_tcp_read;
      event_tcp_write = Timer.disable c.event_tcp_write;
      tcp_closed = true;
    } in
    let same : Side c closed = record {
      next = refl;
      packets = refl;
      control = refl;
      output = refl;
      received = refl;
      connected = refl;
      master = refl;
      final = refl;
    } in
    let built =
      build_udp_packets-Sends env true input _
        (Side-Sends (Side-trans same (tcp_write_fake-Side closed)) h) in
    let last =
      put_packet-Sends (if error then disconnect else bye) input _ (end_type error).0
        (end_type error).1 built in
    if_case (Sends input) (not c.tcp_connected) c _ (λ off. h)
      (λ on.
        if_case (Sends input) (not c.udp_connected) _ _
          (λ off.
            Side-Sends {c = c}
              (record {
                next = refl;
                packets = refl;
                control = refl;
                output = refl;
                received = refl;
                connected = refl;
                master = refl;
                final = refl;
              })
              h)
          (λ on'. Side-Sends (Side-trans (changed-Side env _ _) (woken-Side env _)) last))

pub udp_close-Sends :
    (env : Env) (input : List ℕ) (c : Connection) → Sends input c → Sends input (udp_close env c)
unfolding udp_close
udp_close-Sends env input c (made, h) =
    let cleared : Connection = record c {
      udp_connected = false;
      event_build_udp_packets = Timer.disable c.event_build_udp_packets;
      event_build_confirmations = Timer.disable c.event_build_confirmations;
      event_udp_resend = Timer.disable c.event_udp_resend;
      event_tcp_read = Timer.disable c.event_tcp_read;
      event_udp_write = Timer.disable c.event_udp_write;
      tcp_read_closed = true;
      tcp_received_data = [];
      udp_confirmation_packets = [];
      udp_sent_packets = [];
    } in
    let kept : IsSender made input cleared = record {
      queued = record {
        count = h.queued.count;
        indexed = h.queued.indexed;
        packets = tt;
        control = tt;
        output = h.queued.output;
      };
      rest = h.rest;
      text = h.text;
      left = inl (inl refl);
    } in
    let closed = on_udp_sent_buffer_changed env (neg32 c.udp_sent_buffer_size) cleared in
    let ended : Sends input closed = (made, Side-IsSender (changed-Side env _ cleared) kept) in
    if_case (Sends input) (not c.udp_connected) c _ (λ off. (made, h))
      (λ on.
        if_case (Sends input) (not c.tcp_connected) _ _
          (λ off.
            Side-Sends {c = closed}
              (record {
                next = refl;
                packets = refl;
                control = refl;
                output = refl;
                received = refl;
                connected = refl;
                master = refl;
                final = refl;
              })
              ended)
          (λ on'.
            if_case (Sends input) (leb c.udp_received_master_index c.tcp_next_send_index) _ _
              (λ all. tcp_close-Sends env false input closed ended) (λ left. ended)))

write_loop-Sends :
    (rounds : ℕ) (env : Env) (input : List ℕ) (c : Connection)
    → Sends input c
    → Sends input (write_loop rounds env c)
unfolding write_loop
write_loop-Sends zero env input c h = h
write_loop-Sends (suc rounds) env input c h =
    found-Sends (λ d hd. write_loop-Sends rounds env input d hd)
      (find c.tcp_next_send_index c.udp_received_packets)
  where
    found-Sends :
        ((d : Connection) → Sends input d → Sends input (write_loop rounds env d))
        → (o : Option Packet)
        → Sends input (elim o [
          | none ↦ c
          | some p ↦
              let index = c.tcp_next_send_index in
              let type = get_type p.bytes in
              let next = finish_packet index p c in
              let more = write_loop rounds env next in
              let size = env.tcp_send (get_data p.bytes) in
              if not (type_eq type data_packet) || get_size p.bytes == 0
              then (if type_eq type bye || type_eq type disconnect
                  then tcp_close env false next
                  else more)
              else wake_tcp_write env (if ltb 0 size then write_part size index p c else c)
        ])
    found-Sends again none = h
    found-Sends again (some p) =
        let type = get_type p.bytes in
        let index = c.tcp_next_send_index in
        let finished = Side-Sends (finish_packet-Side index p c) h in
        if_case (Sends input) (not (type_eq type data_packet) || get_size p.bytes == 0) _ _
          (λ no_data.
            if_case (Sends input) (type_eq type bye || type_eq type disconnect) _ _
              (λ ends. tcp_close-Sends env false input _ finished) (λ goes. again _ finished))
          (λ bytes. Side-Sends (write_part-Side env (env.tcp_send (get_data p.bytes)) index p c) h)

pub tcp_write-Sends :
    (env : Env) (input : List ℕ) (c : Connection) → Sends input c → Sends input (tcp_write env c)
unfolding tcp_write
tcp_write-Sends env input c h =
    if_case (Sends input) c.tcp_connected _ c
      (λ on. write_loop-Sends (c.udp_received_master_index - c.tcp_next_send_index) env input c h)
      (λ off. h)

-- The bytes that `tcpRead` gets from the socket.
abbrev pub bytes_received : Env → Connection → List ℕ
bytes_received env c = if c.tcp_connected then env.tcp_recv c.udp_send_packet_size else []

no_bytes : (l : List ℕ) → ltb 0 (length l) ≡ false → l ≡ []
no_bytes [] e = refl
no_bytes (x ∷ l) e = absurd (ground (arith, e))

-- More bytes at the end of what is read.
longer-text :
    (made : List (List ℕ)) (rest input more : List ℕ)
    → all_text made ++ rest ≡ input
    → all_text made ++ (rest ++ more) ≡ input ++ more
longer-text made rest input more e =
    sym (append_assoc (all_text made) rest more) ∙ ap (λ t. t ++ more) e

pub tcp_read-Sends :
    (env : Env) (input : List ℕ) (c : Connection)
    → Sends input c
    → Sends (input ++ bytes_received env c) (tcp_read env c)
unfolding tcp_read
tcp_read-Sends env input c (made, h) = by_socket c.tcp_connected
  where
    received : List ℕ
    received = env.tcp_recv c.udp_send_packet_size

    counted : Connection
    counted = record c { stat_tcp_received = c.stat_tcp_received + length received }

    longer : Connection
    longer = record counted { tcp_received_data = c.tcp_received_data ++ received }

    added : Sends (input ++ received) longer
    added = (
      made,
      record {
        queued = record {
          count = h.queued.count;
          indexed = h.queued.indexed;
          packets = h.queued.packets;
          control = h.queued.control;
          output = h.queued.output;
        };
        rest = h.rest ++ received;
        text = longer-text made h.rest input received h.text;
        left = elim h.left [
          | inl (inl e) ↦ inl (inl e)
          | inl (inr e) ↦ inl (inr e)
          | inr e ↦ inr (ap (λ t. t ++ received) e)
        ];
      },
    )

    dropped : c.udp_connected ≡ false → Sends (input ++ received) counted
    dropped off = (
      made,
      record {
        queued = record {
          count = h.queued.count;
          indexed = h.queued.indexed;
          packets = h.queued.packets;
          control = h.queued.control;
          output = h.queued.output;
        };
        rest = h.rest ++ received;
        text = longer-text made h.rest input received h.text;
        left = inl (inl off);
      },
    )

    when_open : Sends (input ++ received) (
        if ltb 0 (length received)
        then (if c.udp_connected then build_udp_packets env false longer else counted)
        else c)
    when_open =
        if_case (Sends (input ++ received)) (ltb 0 (length received)) _ c
          (λ some_bytes.
            if_case (Sends (input ++ received)) c.udp_connected _ counted
              (λ on. build_udp_packets-Sends env false (input ++ received) longer added)
              (λ off. dropped off))
          (λ none_read.
            subst (λ t. Sends t c)
              (sym (append-nil input) ∙ ap (λ t. input ++ t) (sym (no_bytes received none_read)))
              (made, h))

    by_socket :
        (b : Bool)
        → Sends (input ++ (if b then received else [])) (
            if b
            then on_udp_sent_buffer_changed env 0 (
                if ltb 0 (length received)
                then (if c.udp_connected then build_udp_packets env false longer else counted)
                else c)
            else c)
    by_socket true = Side-Sends (changed-Side env 0 _) when_open
    by_socket false = subst (λ t. Sends t c) (sym (append-nil input)) (made, h)
