-- ===== src/Connection/Sender/Make.antt =====
-- `buildUdpPackets`, and the packets that the connection makes.
use icetunnel.Prelude.{
  ℕ, zero, suc, ◌≡◌, refl, sym, ap, subst, ◌∙◌, ◌⊎◌, inl, inr, Bool, true, false, not, ◌&&◌, ◌||◌,
  some, List, [], ◌∷◌, ◌++◌, append-nil, append_assoc, arith, if_case, ltb, ◌==◌, ==_iff, length,
  length-append, take, drop, take-append-drop, min, All-mono, get_elem?, get_elem?-append,
  get_elem?-append_length, get_elem?-append_one,
}
use icetunnel.Packet.{Packet, PacketType, data_packet, to_code, type_eq, encode, get_index}
use icetunnel.Packet.Check.{IsKnown, get_type-encode, get_index-encode, get_data-encode}
use icetunnel.Connection.Map.{find}
use icetunnel.Connection.State.{Connection, Env}
use icetunnel.Connection.Build.{
  or_new_packet, put_packet, add_data_packet, build_loop, build_end, data_to_build,
  build_udp_packets,
}
use icetunnel.Connection.Delivery.{payload}
use icetunnel.Connection.Side.{Side-trans, changed-Side, woken-Side}
use icetunnel.Connection.Sender.{
  IsMade, IsMadeDatagram, IsQueued, IsEnded, Sends, all_text, Side-IsQueued, Side-IsEnded,
  All-insert,
}

-- A packet more.
IsMade-append :
    (made : List (List ℕ)) (b : List ℕ) (e : ℕ × Packet) → IsMade made e → IsMade (made ++ b ∷ []) e
IsMade-append made b (k, p) e = get_elem?-append made (b ∷ []) k p.bytes e

IsMadeDatagram-append :
    (made : List (List ℕ)) (b o : List ℕ)
    → IsMadeDatagram made o
    → IsMadeDatagram (made ++ b ∷ []) o
IsMadeDatagram-append made b o f stream =
    let (k, e) = f stream in (k, get_elem?-append made (b ∷ []) k o e)

all_text-append :
    (made : List (List ℕ)) (b : List ℕ) → all_text (made ++ b ∷ []) ≡ all_text made ++ payload b
all_text-append [] b = append-nil (payload b)
all_text-append (x ∷ made) b =
    ap (λ t. payload x ++ t) (all_text-append made b)
    ∙ sym (append_assoc (payload x) (all_text made) (payload b))

-- The bytes that `put_packet` makes.
abbrev pub put_bytes : PacketType → List ℕ → Connection → List ℕ
put_bytes type bytes c =
    encode type c.udp_next_send_index bytes
      (or_new_packet (find c.udp_next_send_index c.udp_sent_packets)).bytes

pub put_packet-IsQueued :
    (type : PacketType) (bytes : List ℕ) (made : List (List ℕ)) (c : Connection)
    → IsQueued made c
    → IsQueued (made ++ put_bytes type bytes c ∷ []) (put_packet type bytes c)
unfolding put_packet
put_packet-IsQueued type bytes made c h =
    let index = c.udp_next_send_index in
    let old = or_new_packet (find index c.udp_sent_packets) in
    let b = put_bytes type bytes c in
    let new : Packet = record old { remain_resend_count = c.udp_resend_count; bytes = b } in
    let last : get_elem? (made ++ b ∷ []) index ≡ some b =
      subst (λ i. get_elem? (made ++ b ∷ []) i ≡ some b) h.count (get_elem?-append_length made b) in
    record {
      count = omega (arith, length-append made (b ∷ []), h.count);
      indexed = λ k a e small. elim (get_elem?-append_one made b k a e) [
        | inl there ↦ h.indexed k a there small
        | inr (here, value) ↦
            ap get_index value
            ∙ get_index-encode type index bytes old.bytes (omega (arith, here, h.count, small))
            ∙ omega (arith, here, h.count)
      ];
      packets =
          All-insert (IsMade (made ++ b ∷ [])) index new c.udp_sent_packets last
            (All-mono (IsMade-append made b) c.udp_sent_packets h.packets);
      control = h.control;
      output = All-mono (IsMadeDatagram-append made b) c.udp_output h.output;
    }

put_data-payload :
    (bytes : List ℕ) (c : Connection) → payload (put_bytes data_packet bytes c) ≡ bytes
unfolding type_eq to_code
put_data-payload bytes c =
    let old = (or_new_packet (find c.udp_next_send_index c.udp_sent_packets)).bytes in
    rw (get_type-encode data_packet c.udp_next_send_index bytes old tt)
      ((get_data-encode data_packet c.udp_next_send_index bytes old).0)

-- A packet that is no data.
pub put_packet-Sends :
    (type : PacketType) (input : List ℕ) (c : Connection)
    → IsKnown type
    → type_eq type data_packet ≡ false
    → Sends input c
    → Sends input (put_packet type [] c)
unfolding put_packet
put_packet-Sends type input c known other (made, h) =
    let old = (or_new_packet (find c.udp_next_send_index c.udp_sent_packets)).bytes in
    let b = put_bytes type [] c in
    let empty : payload b ≡ [] =
      rw (get_type-encode type c.udp_next_send_index [] old known) (rw other refl) in
    (
      made ++ b ∷ [],
      record {
        queued = put_packet-IsQueued type [] made c h.queued;
        rest = h.rest;
        text =
            ap (λ t. t ++ h.rest)
              (all_text-append made b
                ∙ ap (λ t. all_text made ++ t) empty
                ∙ append-nil (all_text made))
            ∙ h.text;
        left = h.left;
      },
    )

-- The loop of `buildUdpPackets`: its end, and the bytes that are left.
IsBuilt : List ℕ → Connection → Connection × List ℕ → Type 0
IsBuilt input c out =
    ((made : List (List ℕ)) × (IsQueued made out.0) × (all_text made ++ out.1 ≡ input))
    × (IsEnded c → IsEnded out.0)

add_data_packet-IsQueued :
    (env : Env) (bytes : List ℕ) (made : List (List ℕ)) (c : Connection)
    → IsQueued made c
    → IsQueued (made ++ put_bytes data_packet bytes c ∷ []) (add_data_packet env bytes c)
unfolding add_data_packet
add_data_packet-IsQueued env bytes made c h =
    Side-IsQueued (Side-trans (woken-Side env _) (changed-Side env _ _))
      (put_packet-IsQueued data_packet bytes made c h)

add_data_packet-IsEnded :
    (env : Env) (bytes : List ℕ) (c : Connection)
    → IsEnded c
    → IsEnded (add_data_packet env bytes c)
unfolding add_data_packet put_packet
add_data_packet-IsEnded env bytes c h =
    let put = put_packet data_packet bytes c in
    Side-IsEnded {c = put} (Side-trans (woken-Side env _) (changed-Side env _ _))
      (elim h [ inl e ↦ inl e | inr e ↦ inr e ])

build_loop-IsBuilt :
    (rounds : ℕ) (env : Env) (flush : Bool) (rest input : List ℕ) (made : List (List ℕ))
    (c : Connection)
    → IsQueued made c
    → all_text made ++ rest ≡ input
    → IsBuilt input c (build_loop rounds env flush rest c)
unfolding build_loop IsBuilt
build_loop-IsBuilt zero env flush rest input made c h e = ((made, h, e), λ ended. ended)
build_loop-IsBuilt (suc rounds) env flush rest input made c h e =
    let size = min (length rest) c.udp_send_packet_size in
    let b = put_bytes data_packet (take size rest) c in
    if_case (IsBuilt input c) ((not flush && ltb size c.udp_send_packet_size) || size == 0) _ _
      (λ stop. ((made, h, e), λ ended. ended))
      (λ goes.
        let text : all_text (made ++ b ∷ []) ++ drop size rest ≡ input =
          ap (λ t. t ++ drop size rest)
            (all_text-append made b
              ∙ ap (λ t. all_text made ++ t) (put_data-payload (take size rest) c))
          ∙ append_assoc (all_text made) (take size rest) (drop size rest)
          ∙ ap (λ t. all_text made ++ t) (take-append-drop size rest)
          ∙ e in
        let (built, ended) =
          build_loop-IsBuilt rounds env flush (drop size rest) input (made ++ b ∷ [])
            (add_data_packet env (take size rest) c)
            (add_data_packet-IsQueued env (take size rest) made c h) text in
        (built, λ before. ended (add_data_packet-IsEnded env (take size rest) c before)))

-- `buildUdpPackets`.
build_end-Sends :
    (env : Env) (full : Bool) (input : List ℕ) (c d : Connection) (rest : List ℕ)
    → IsBuilt input c (d, rest)
    → Sends input (build_end env full rest d)
unfolding build_end IsBuilt
build_end-Sends env full input c d rest ((made, h, e), ended) = (
  made,
  record {
    queued = record {
      count = h.count;
      indexed = h.indexed;
      packets = h.packets;
      control = h.control;
      output = h.output;
    };
    rest = rest;
    text = e;
    left = inr refl;
  },
)

pub build_udp_packets-Sends :
    (env : Env) (flush : Bool) (input : List ℕ) (c : Connection)
    → Sends input c
    → Sends input (build_udp_packets env flush c)
unfolding build_udp_packets build_end build_loop IsBuilt
build_udp_packets-Sends env flush input c (made, h) =
    if_case (Sends input) c.udp_connected _ c (λ on. by_end on h.left) (λ off. (made, h))
  where
    after : List ℕ → Connection
    after pending =
        let out =
          build_loop (length pending) env flush pending
            (record c { tcp_received_data = pending }) in
        build_end env (ltb (length out.1) (length pending)) out.1 out.0

    -- From any bytes that are what is left.
    from : (pending : List ℕ) → h.rest ≡ pending → Sends input (after pending)
    from pending e =
        let start : Connection = record c { tcp_received_data = pending } in
        build_end-Sends env _ input start _ _ (
          build_loop-IsBuilt (length pending) env flush pending input made start
            (record {
              count = h.queued.count;
              indexed = h.queued.indexed;
              packets = h.queued.packets;
              control = h.queued.control;
              output = h.queued.output;
            })
            (ap (λ t. all_text made ++ t) (sym e) ∙ h.text))

    -- After the final packet.
    ended : c.udp_received_final_index ≡ c.udp_received_master_index → Sends input (after [])
    ended e = (
      made,
      record {
        queued = record {
          count = h.queued.count;
          indexed = h.queued.indexed;
          packets = h.queued.packets;
          control = h.queued.control;
          output = h.queued.output;
        };
        rest = h.rest;
        text = h.text;
        left = inl (inr e);
      },
    )

    by_end :
        c.udp_connected ≡ true
        → IsEnded c ⊎ (h.rest ≡ c.tcp_received_data)
        → Sends input (after (data_to_build c))
    by_end on left =
        if_case (λ (pending : List ℕ). Sends input (after pending))
          (c.udp_received_final_index == c.udp_received_master_index) [] c.tcp_received_data
          (λ final. ended ((==_iff _ _).0 final))
          (λ more. elim left [
            | inl (inl off) ↦ absurd (cc (on, off))
            | inl (inr final) ↦ absurd (cc (more, (==_iff _ _).1 final))
            | inr e ↦ from c.tcp_received_data e
          ])
