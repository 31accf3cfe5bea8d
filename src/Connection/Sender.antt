-- ===== src/Connection/Sender.antt =====
-- The packets that a connection makes, against the bytes that it reads from its TCP socket.
pub mod Make
pub mod Close
pub mod Send
pub mod Control
pub mod Confirmed
pub mod Receive
pub mod Run
pub mod Tunnel
use icetunnel.Prelude.{
  ℕ, zero, suc, ◌+◌, ◌^◌, ◌<◌, ◌≤◌, ◌≡◌, refl, sym, ap, subst, ◌∙◌, ◌⊎◌, inl, inr, Bool, true,
  false, not, ◌&&◌, ◌||◌, Option, none, some, List, [], ◌∷◌, ◌++◌, append-nil, append_assoc, arith,
  if_case, if◌then◌else◌, ltb, ◌==◌, ==_iff, Bool-cases, length, length-append, take, drop,
  take-append-drop, min, All, All-append, All-mono, get_elem?, get_elem?-append,
  get_elem?-append_length, get_elem?-append_one,
}
use icetunnel.Packet.{
  Packet, PacketType, data_packet, to_code, type_eq, encode, get_type, get_index, get_data,
}
use icetunnel.Packet.Check.{IsKnown, get_type-encode, get_index-encode, get_data-encode}
use icetunnel.Connection.Map.{Map, find, insert, erase}
use icetunnel.Connection.State.{Connection, Env, on_udp_sent_buffer_changed, set_event_udp_write}
use icetunnel.Connection.Build.{
  or_new_packet, put_packet, put_size, add_data_packet, build_loop, build_end, data_to_build,
  build_udp_packets,
}
use icetunnel.Connection.Delivery.{payload}
use icetunnel.Connection.Delivery.Receive.{is_stream_type}
use icetunnel.Connection.Side.{Side, Side-trans, changed-Side, woken-Side}

-- The packets made so far, in the order of their indices, and the bytes that they carry.
abbrev pub all_text : List (List ℕ) → List ℕ
all_text [] = []
all_text (bytes ∷ made) = payload bytes ++ all_text made

abbrev pub IsMade : List (List ℕ) → ℕ × Packet → Type 0
IsMade made (k, p) = get_elem? made k ≡ some p.bytes

abbrev pub IsControl : Packet → Type 0
IsControl p = is_stream_type (get_type p.bytes) ≡ false

-- A datagram of the stream is one of those packets.
abbrev pub IsMadeDatagram : List (List ℕ) → List ℕ → Type 0
IsMadeDatagram made bytes =
    is_stream_type (get_type bytes) ≡ true → (k : ℕ) × (get_elem? made k ≡ some bytes)

pub record IsQueued (made : List (List ℕ)) (c : Connection) : Type 0 where
  pub count : length made ≡ c.udp_next_send_index
  pub indexed :
      (k : ℕ) (bytes : List ℕ) → get_elem? made k ≡ some bytes → k < 2 ^ 32 → get_index bytes ≡ k
  pub packets : All (IsMade made) c.udp_sent_packets
  pub control : All IsControl c.udp_confirmation_packets
  pub output : All (IsMadeDatagram made) c.udp_output

-- No more bytes are taken from the TCP socket.
abbrev pub IsEnded : Connection → Type 0
IsEnded c = (c.udp_connected ≡ false) ⊎ (c.udp_received_final_index ≡ c.udp_received_master_index)

-- The packets carry the beginning of `input`, and until the end `tcpReceivedData` has the rest.
pub record IsSender (made : List (List ℕ)) (input : List ℕ) (c : Connection) : Type 0 where
  pub queued : IsQueued made c
  pub rest : List ℕ
  pub text : all_text made ++ rest ≡ input
  pub left : IsEnded c ⊎ (rest ≡ c.tcp_received_data)

abbrev pub Sends : List ℕ → Connection → Type 0
Sends input c = (made : List (List ℕ)) × IsSender made input c

pub Side-IsQueued :
    {made : List (List ℕ)} {c d : Connection} → Side c d → IsQueued made c → IsQueued made d
Side-IsQueued {made} f h = record {
  count = h.count ∙ sym f.next;
  indexed = h.indexed;
  packets = subst (All (IsMade made)) (sym f.packets) h.packets;
  control = subst (All IsControl) (sym f.control) h.control;
  output = subst (All (IsMadeDatagram made)) (sym f.output) h.output;
}

pub Side-IsEnded : {c d : Connection} → Side c d → IsEnded c → IsEnded d
Side-IsEnded f (inl e) = inl (f.connected ∙ e)
Side-IsEnded f (inr e) = inr (f.final ∙ e ∙ sym f.master)

pub Side-IsSender :
    {made : List (List ℕ)} {input : List ℕ} {c d : Connection}
    → Side c d
    → IsSender made input c
    → IsSender made input d
Side-IsSender f h = record {
  queued = Side-IsQueued f h.queued;
  rest = h.rest;
  text = h.text;
  left = elim h.left [ inl e ↦ inl (Side-IsEnded f e) | inr e ↦ inr (e ∙ sym f.received) ];
}

pub Side-Sends : {input : List ℕ} {c d : Connection} → Side c d → Sends input c → Sends input d
Side-Sends f (made, h) = (made, Side-IsSender f h)

-- The entries of a map after a change.
pub All-insert {ℓ κ} :
    {V : Type ℓ} (P : ℕ × V → Type κ) (k : ℕ) (v : V) (m : Map V)
    → P (k, v)
    → All P m
    → All P (insert k v m)
All-insert P k v [] p h = (p, h)
All-insert P k v ((j, w) ∷ m) p (q, h) =
    let rest = All-insert P k v m p h in
    if_case (All P) (k == j) _ _ (λ same. (p, h))
      (λ other. if_case (All P) (ltb k j) _ _ (λ less. (p, (q, h))) (λ more. (q, rest)))

pub All-erase {ℓ κ} :
    {V : Type ℓ} (P : ℕ × V → Type κ) (k : ℕ) (m : Map V) → All P m → All P (erase k m)
All-erase P k [] h = h
All-erase P k ((j, w) ∷ m) (q, h) =
    let rest = All-erase P k m h in if_case (All P) (k == j) _ _ (λ same. h) (λ other. (q, rest))

pub find-All {ℓ κ} :
    {V : Type ℓ} (P : ℕ × V → Type κ) (k : ℕ) (v : V) (m : Map V)
    → All P m
    → find k m ≡ some v
    → P (k, v)
find-All P k v [] h e = cc
find-All P k v ((j, w) ∷ m) (q, h) e = elim (Bool-cases (k == j)) [
  | inl same ↦
      let first : find k ((j, w) ∷ m) ≡ some w = rw same refl in
      let value : some w ≡ some v = sym first ∙ e in
      subst (λ i. P (i, v)) (sym ((==_iff k j).0 same)) (subst (λ x. P (j, x)) (cc value) q)
  | inr other ↦
      let next : find k ((j, w) ∷ m) ≡ find k m = rw other refl in find-All P k v m h (sym next ∙ e)
]

-- A change of the three queues only.
pub record Rest (c d : Connection) : Type 0 where
  pub next : d.udp_next_send_index ≡ c.udp_next_send_index
  pub received : d.tcp_received_data ≡ c.tcp_received_data
  pub connected : d.udp_connected ≡ c.udp_connected
  pub master : d.udp_received_master_index ≡ c.udp_received_master_index
  pub final : d.udp_received_final_index ≡ c.udp_received_final_index

pub Rest-IsSender :
    {made : List (List ℕ)} {input : List ℕ} {c : Connection} (d : Connection)
    → IsSender made input c
    → Rest c d
    → All (IsMade made) d.udp_sent_packets
    → All IsControl d.udp_confirmation_packets
    → All (IsMadeDatagram made) d.udp_output
    → IsSender made input d
Rest-IsSender d h f packets control output = record {
  queued = record {
    count = h.queued.count ∙ sym f.next;
    indexed = h.queued.indexed;
    packets = packets;
    control = control;
    output = output;
  };
  rest = h.rest;
  text = h.text;
  left = elim h.left [
    | inl (inl e) ↦ inl (inl (f.connected ∙ e))
    | inl (inr e) ↦ inl (inr (f.final ∙ e ∙ sym f.master))
    | inr e ↦ inr (e ∙ sym f.received)
  ];
}

-- The system takes a datagram whole or not at all.
abbrev pub IsWhole : Env → Type 0
IsWhole env = (bytes : List ℕ) → 0 < env.udp_send bytes → length bytes ≤ env.udp_send bytes
