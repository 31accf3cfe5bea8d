-- ===== src/Connection/Delivery/Part.antt =====
-- A part of a payload that the TCP socket has taken.
use icetunnel.Prelude.{
  ℕ, zero, suc, ◌+◌, ◌≡◌, refl, sym, ap, ap₂, ◌∙◌, inl, inr, true, false, some, List, [], ◌∷◌, ◌++◌,
  append-nil, append_assoc, arith, if◌then◌else◌, ltb, ◌==◌, Bool-cases, take, drop,
  take-append-drop, drop_all,
}
use icetunnel.Packet.{Packet, data_packet, type_eq, get_type, get_data, get_size}
use icetunnel.Packet.Bytes.{get, of_bytes}
use icetunnel.Connection.Map.{find, insert}
use icetunnel.Connection.Map.Laws.{find-insert}
use icetunnel.Connection.State.{Connection}
use icetunnel.Connection.Write.{write_part}
use icetunnel.Connection.Delivery.{
  IsAligned, payload, text, next-IsAligned, insert_other, erase_other,
}

drop_nil : (n : ℕ) → drop {A = ℕ} n [] ≡ []
drop_nil zero = refl
drop_nil (suc n) = refl

drop_add : (m n k : ℕ) (xs : List ℕ) → k ≡ m + n → drop k xs ≡ drop n (drop m xs)
drop_add zero n k xs e = ap (λ (j : ℕ). drop j xs) (omega (arith, e))
drop_add (suc m) n zero xs e = absurd (omega (arith, e))
drop_add (suc m) n (suc k) [] e = sym (drop_nil n)
drop_add (suc m) n (suc k) (x ∷ xs) e = drop_add m n k xs (omega (arith, e))

-- The packet without `size` bytes of its payload.
abbrev cut_bytes : ℕ → List ℕ → List ℕ
cut_bytes size bytes = take 9 bytes ++ drop (9 + size) bytes

-- A payload that is not empty begins at the tenth byte.
split_header :
    (bytes : List ℕ)
    → (get_size bytes == 0) ≡ false
    → (a b c d e f g h i : ℕ) × (rest : List ℕ) × (bytes ≡ a ∷ b ∷ c ∷ d ∷ e ∷ f ∷ g ∷ h ∷ i ∷ rest)
unfolding get_size
split_header (a ∷ b ∷ c ∷ d ∷ e ∷ f ∷ g ∷ h ∷ i ∷ rest) z = (a, b, c, d, e, f, g, h, i, rest, refl)
split_header [] z = absurd (ground (arith, z))
split_header (a ∷ []) z = absurd (ground (arith, z))
split_header (a ∷ b ∷ []) z = absurd (ground (arith, z))
split_header (a ∷ b ∷ c ∷ []) z = absurd (ground (arith, z))
split_header (a ∷ b ∷ c ∷ d ∷ []) z = absurd (ground (arith, z))
split_header (a ∷ b ∷ c ∷ d ∷ e ∷ []) z = absurd (ground (arith, z))
split_header (a ∷ b ∷ c ∷ d ∷ e ∷ f ∷ []) z = absurd (ground (arith, z))
split_header (a ∷ b ∷ c ∷ d ∷ e ∷ f ∷ g ∷ []) z = absurd (ground (arith, z))
split_header (a ∷ b ∷ c ∷ d ∷ e ∷ f ∷ g ∷ h ∷ []) z = absurd (ground (arith, z))

cut_header :
    (a b c d e f g h i size : ℕ) (rest : List ℕ)
    → let bytes = a ∷ b ∷ c ∷ d ∷ e ∷ f ∷ g ∷ h ∷ i ∷ rest in
      (get_type (cut_bytes size bytes) ≡ get_type bytes)
      × (get_data (cut_bytes size bytes) ≡ drop size (get_data bytes))
unfolding get_type get_data get of_bytes
cut_header a b c d e f g h i size rest =
    (ground arith, drop_add 9 size (9 + size) (a ∷ b ∷ c ∷ d ∷ e ∷ f ∷ g ∷ h ∷ i ∷ rest) refl)

cut_lem :
    (size : ℕ) (bytes : List ℕ)
    → (get_size bytes == 0) ≡ false
    → (get_type (cut_bytes size bytes) ≡ get_type bytes)
      × (get_data (cut_bytes size bytes) ≡ drop size (get_data bytes))
cut_lem size bytes z =
    let (a, b, c, d, e, f, g, h, i, rest, same) = split_header bytes z in
    rw same (cut_header a b c d e f g h i size rest)

no_data : (bytes : List ℕ) → ltb 0 (get_size bytes) ≡ false → get_data bytes ≡ []
unfolding get_size get_data
no_data bytes z = drop_all 9 bytes (ground (arith, z))

-- The cut packet, still with bytes to write.
cut-IsAligned :
    (stream : ℕ → List ℕ) (size : ℕ) (c d : Connection) (p q : Packet)
    → IsAligned stream c
    → find c.tcp_next_send_index c.udp_received_packets ≡ some p
    → type_eq (get_type p.bytes) data_packet ≡ true
    → (get_size p.bytes == 0) ≡ false
    → q.bytes ≡ cut_bytes size p.bytes
    → d.tcp_output ≡ c.tcp_output ++ take size (get_data p.bytes)
    → d.tcp_next_send_index ≡ c.tcp_next_send_index
    → d.udp_received_packets ≡ insert c.tcp_next_send_index q c.udp_received_packets
    → IsAligned stream d
cut-IsAligned stream size c d p q h e type z bytes output next received =
    let index = c.tcp_next_send_index in
    let (kind, left) = cut_lem size p.bytes z in
    let all = get_data p.bytes in
    let here : find d.tcp_next_send_index d.udp_received_packets ≡ some q =
      ap₂ (λ i m. find i m) next received
      ∙ ground (arith, find-insert index index q c.udp_received_packets) in
    let whole : payload p.bytes ≡ all = ap {B = List ℕ} (λ b. if b then all else []) type in
    let tail : payload (cut_bytes size p.bytes) ≡ drop size all =
      ap {B = List ℕ} (λ t. if type_eq t data_packet then get_data (cut_bytes size p.bytes) else [])
        kind
      ∙ ap {B = List ℕ} (λ b. if b then get_data (cut_bytes size p.bytes) else []) type
      ∙ left in
    let joined : (c.tcp_output ++ take size all) ++ payload q.bytes
        ≡ c.tcp_output ++ payload p.bytes =
      ap (λ b. (c.tcp_output ++ take size all) ++ b) (ap payload bytes ∙ tail)
      ∙ append_assoc c.tcp_output (take size all) (drop size all)
      ∙ ap (λ b. c.tcp_output ++ b) (take-append-drop size all ∙ sym whole) in
    record {
      free = λ e'. cc (e', here);
      current = λ r e'.
          let same : q ≡ r = cc (e', here) in
          ap₂ (λ o b. o ++ payload b) output (ap (λ r'. r'.bytes) (sym same))
          ∙ joined
          ∙ h.current p e
          ∙ ap (λ i. text stream (suc i)) (sym next);
      later = λ k r lt e'. h.later k r (omega (arith, next, lt)) (
          sym (insert_other index k q c.udp_received_packets (omega (arith, next, lt)))
          ∙ ap (find k) (sym received)
          ∙ e');
    }

-- A part of the payload at the front is written.
pub write_part-IsAligned :
    (stream : ℕ → List ℕ) (size : ℕ) (c : Connection) (p : Packet)
    → IsAligned stream c
    → find c.tcp_next_send_index c.udp_received_packets ≡ some p
    → type_eq (get_type p.bytes) data_packet ≡ true
    → (get_size p.bytes == 0) ≡ false
    → IsAligned stream (write_part size c.tcp_next_send_index p c)
unfolding write_part
write_part-IsAligned stream size c p h e type z =
    let index = c.tcp_next_send_index in
    let all = get_data p.bytes in
    let (kind, left) = cut_lem size p.bytes z in
    elim (Bool-cases (ltb 0 (get_size (cut_bytes size p.bytes)))) [
      | inl more ↦ rw more (
          cut-IsAligned stream size c _ p (record p { bytes = cut_bytes size p.bytes }) h e type z
            refl refl refl refl)
      | inr done ↦
          let whole : payload p.bytes ≡ all = ap {B = List ℕ} (λ b. if b then all else []) type in
          let empty : drop size all ≡ [] = sym left ∙ no_data (cut_bytes size p.bytes) done in
          let taken : take size all ≡ all =
            sym (append-nil (take size all))
            ∙ ap (λ b. take size all ++ b) (sym empty)
            ∙ take-append-drop size all in
          let output : c.tcp_output ++ take size all ≡ text stream (suc index) =
            ap (λ b. c.tcp_output ++ b) (taken ∙ sym whole) ∙ h.current p e in
          elim (Bool-cases p.confirmed) [
            | inl over ↦
                rw (done, over)
                  (next-IsAligned stream c _ h output (omega arith)
                    (λ k lt. erase_other index k _ lt))
            | inr waits ↦
                rw (done, waits)
                  (next-IsAligned stream c _ h output (omega arith)
                    (λ k lt. insert_other index k _ _ lt))
          ]
    ]
