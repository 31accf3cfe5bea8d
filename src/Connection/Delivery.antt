-- ===== src/Connection/Delivery.antt =====
-- The bytes that a connection writes to its TCP socket, against the stream of the other side.
pub mod Part
pub mod Kept
pub mod Write
pub mod Receive
pub mod Send
pub mod Run
pub mod Progress
use icetunnel.Prelude.{
  ℕ, zero, suc, ◌+◌, ◌<◌, ◌≤◌, ◌≡◌, refl, sym, ap, ◌∙◌, inl, inr, Bool, true, false, not, ◌&&◌,
  ◌||◌, Option, none, some, List, [], ◌∷◌, ◌++◌, append-nil, append_assoc, arith, if◌then◌else◌,
  ltb, ◌==◌, ==_iff, Bool-cases, Option-cases, take, drop, length, take-append-drop,
}
use icetunnel.Packet.{
  Packet, PacketType, data_packet, new_packet, is_complete, type_eq, get_type, get_data, get_size,
}
use icetunnel.Connection.Map.{Map, find, insert, erase}
use icetunnel.Connection.Map.Laws.{find-insert, find-erase_other}
use icetunnel.Connection.State.{Connection, Env}
use icetunnel.Connection.Write.{finish_packet, write_part}

-- The bytes for the TCP socket in a packet.
abbrev pub payload : List ℕ → List ℕ
payload bytes = if type_eq (get_type bytes) data_packet then get_data bytes else []

-- The packets of the other side, by index, and their text up to one of them.
abbrev pub text : (ℕ → List ℕ) → ℕ → List ℕ
text stream zero = []
text stream (suc n) = text stream n ++ payload (stream n)

-- What is written and what the packet at `tcpNextSendIndex` has left is the text so far, and the
-- packets behind it are those of the stream.
pub record IsAligned (stream : ℕ → List ℕ) (c : Connection) : Type 0 where
  pub free :
      find c.tcp_next_send_index c.udp_received_packets ≡ none
      → c.tcp_output ≡ text stream c.tcp_next_send_index
  pub current :
      (p : Packet)
      → find c.tcp_next_send_index c.udp_received_packets ≡ some p
      → c.tcp_output ++ payload p.bytes ≡ text stream (suc c.tcp_next_send_index)
  pub later :
      (k : ℕ) (p : Packet)
      → c.tcp_next_send_index < k
      → find k c.udp_received_packets ≡ some p
      → p.bytes ≡ stream k

-- What is written is the beginning of the text up to some packet.
abbrev pub IsPrefix : (ℕ → List ℕ) → List ℕ → Type 0
IsPrefix stream output = (n : ℕ) × (rest : List ℕ) × (output ++ rest ≡ text stream n)

pub aligned-IsPrefix :
    (stream : ℕ → List ℕ) (c : Connection) → IsAligned stream c → IsPrefix stream c.tcp_output
aligned-IsPrefix stream c h =
    elim (Option-cases (find c.tcp_next_send_index c.udp_received_packets)) [
      | inl e ↦ (c.tcp_next_send_index, [], append-nil c.tcp_output ∙ h.free e)
      | inr (p, e) ↦ (suc c.tcp_next_send_index, payload p.bytes, h.current p e)
    ]

-- The next packet begins where the text of the packets before it ends.
pub next-IsAligned :
    (stream : ℕ → List ℕ) (c d : Connection)
    → IsAligned stream c
    → d.tcp_output ≡ text stream (suc c.tcp_next_send_index)
    → d.tcp_next_send_index ≡ suc c.tcp_next_send_index
    → ((k : ℕ)
        → c.tcp_next_send_index < k
        → find k d.udp_received_packets ≡ find k c.udp_received_packets)
    → IsAligned stream d
next-IsAligned stream c d h output next others = record {
  free = λ e. output ∙ ap (text stream) (sym next);
  current = λ p e.
      let there = sym (others d.tcp_next_send_index (omega (arith, next))) ∙ e in
      let same = h.later d.tcp_next_send_index p (omega (arith, next)) there in
      ap (λ o. o ++ payload p.bytes) (output ∙ ap (text stream) (sym next))
      ∙ ap (λ b. text stream d.tcp_next_send_index ++ payload b) same;
  later = λ k p lt e.
      h.later k p (omega (arith, next, lt)) (sym (others k (omega (arith, next, lt))) ∙ e);
}

-- A map that differs at one key.
pub insert_other :
    (j k : ℕ) (p : Packet) (m : Map Packet) → j < k → find k (insert j p m) ≡ find k m
insert_other j k p m lt = ground (arith, find-insert k j p m)

pub erase_other : (j k : ℕ) (m : Map Packet) → j < k → find k (erase j m) ≡ find k m
erase_other j k m lt = ground (arith, find-erase_other k j m)

-- A packet with nothing to write.
pub finish_packet-IsAligned :
    (stream : ℕ → List ℕ) (c : Connection) (p : Packet)
    → IsAligned stream c
    → find c.tcp_next_send_index c.udp_received_packets ≡ some p
    → payload p.bytes ≡ []
    → IsAligned stream (finish_packet c.tcp_next_send_index p c)
unfolding finish_packet
finish_packet-IsAligned stream c p h e empty =
    let output =
      sym (append-nil c.tcp_output) ∙ ap (λ b. c.tcp_output ++ b) (sym empty) ∙ h.current p e in
    elim (Bool-cases p.confirmed) [
      | inl done ↦
          rw done (next-IsAligned stream c _ h output (omega arith) (λ k lt. erase_other _ k _ lt))
      | inr waits ↦
          rw waits
            (next-IsAligned stream c _ h output (omega arith) (λ k lt. insert_other _ k _ _ lt))
    ]
