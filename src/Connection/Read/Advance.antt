-- ===== src/Connection/Read/Advance.antt =====
-- The loop of `udpRead` that moves `udpReceivedMasterIndex`.
use icetunnel.Prelude.{
  ℕ, zero, suc, ◌+◌, ◌<◌, ◌≤◌, ◌≡◌, refl, sym, ap, ◌∙◌, Bool, ltb→lt, false, ==_iff, subst, inl,
  inr, ◌⊎◌, true, false, ◌||◌, Option, none, some, [], ◌∷◌, arith, if◌then◌else◌, if_case, ltb, leb,
  ◌==◌, Bool-cases, Option-cases, length,
}
use icetunnel.Packet.{Packet, bye, disconnect, type_eq, get_type}
use icetunnel.Connection.Map.{Map, find}
use icetunnel.Connection.State.{Connection}
use icetunnel.Connection.Read.{advance_master}

-- The entries from a key on.
count_from : ℕ → Map Packet → ℕ
count_from k [] = 0
count_from k ((j, p) ∷ m) = let rest = count_from k m in if leb k j then suc rest else rest

count_from-le : (k : ℕ) (m : Map Packet) → count_from k m ≤ length m
unfolding count_from
count_from-le k [] = omega arith
count_from-le k ((j, p) ∷ m) = ground (arith, count_from-le k m)

count_from-suc : (k : ℕ) (m : Map Packet) → count_from (k + 1) m ≤ count_from k m
unfolding count_from
count_from-suc k [] = omega arith
count_from-suc k ((j, p) ∷ m) = ground (arith, count_from-suc k m)

-- An entry that is passed is one less.
count_from_passed :
    (k : ℕ) (m : Map Packet) (p : Packet)
    → find k m ≡ some p
    → count_from (k + 1) m < count_from k m
unfolding count_from
count_from_passed k [] p e = cc e
count_from_passed k ((j, q) ∷ m) p e =
    ground (arith, count_from-suc k m, count_from_passed k m p, e)

-- Bye or Disconnect.
abbrev pub closes : Packet → Bool
closes p = type_eq (get_type p.bytes) bye || type_eq (get_type p.bytes) disconnect

-- The loop has passed no Bye and no Disconnect, or its last step was over one.
abbrev pub IsFinal : Connection → Connection → Type 0
IsFinal c d =
    ((d.udp_received_final_index ≡ c.udp_received_final_index)
      × ((k : ℕ) (p : Packet)
          → c.udp_received_master_index ≤ k
          → k < d.udp_received_master_index
          → find k c.udp_received_packets ≡ some p
          → closes p ≡ false))
    ⊎ ((k : ℕ) × (p : Packet) × (find k c.udp_received_packets ≡ some p)
        × (closes p ≡ true)
        × (c.udp_received_master_index ≤ k)
        × (d.udp_received_master_index ≡ k + 1)
        × (d.udp_received_final_index ≡ k + 1))

-- Where the loop stands after its rounds.
record IsAdvanced (c d : Connection) : Type 0 where
  pub stops :
      (find d.udp_received_master_index c.udp_received_packets ≡ none)
      ⊎ (d.udp_received_final_index ≤ d.udp_received_master_index)
  pub grows : c.udp_received_master_index ≤ d.udp_received_master_index
  pub passed :
      (k : ℕ)
      → c.udp_received_master_index ≤ k
      → k < d.udp_received_master_index
      → (p : Packet) × (find k c.udp_received_packets ≡ some p)
        × (k < c.udp_received_final_index)
        × (closes p ≡ true → k + 1 ≡ d.udp_received_master_index)
  pub final : IsFinal c d

-- No step.
stays-IsAdvanced :
    (c : Connection)
    → (find c.udp_received_master_index c.udp_received_packets ≡ none)
      ⊎ (c.udp_received_final_index ≤ c.udp_received_master_index)
    → IsAdvanced c c
stays-IsAdvanced c stops = record {
  stops = stops;
  grows = omega arith;
  passed = λ k lo hi. absurd (omega (arith, lo, hi));
  final = inl (refl, λ k p lo hi e. absurd (omega (arith, lo, hi)));
}

abbrev advance_one : Packet → Connection → Connection
advance_one p c =
    let type = get_type p.bytes in
    let next = c.udp_received_master_index + 1 in
    record c {
      udp_received_master_index = next;
      udp_received_final_index =
          if type_eq type bye || type_eq type disconnect then next else c.udp_received_final_index;
    }

-- A step, and then the others.
step-IsAdvanced :
    (c d : Connection) (p : Packet)
    → find c.udp_received_master_index c.udp_received_packets ≡ some p
    → c.udp_received_master_index < c.udp_received_final_index
    → (closes p ≡ true → d ≡ advance_one p c)
    → IsAdvanced (advance_one p c) d
    → IsAdvanced c d
step-IsAdvanced c d p e below ends i =
    let m = c.udp_received_master_index in
    let final' = (advance_one p c).udp_received_final_index in
    elim (Bool-cases (closes p)) [
      | inl last ↦
          let at : d.udp_received_master_index ≡ m + 1 =
            ap (λ x. x.udp_received_master_index) (ends last) in
          let final_at : d.udp_received_final_index ≡ m + 1 =
            ap (λ x. x.udp_received_final_index) (ends last)
            ∙ ap {B = ℕ} (λ b. if b then m + 1 else c.udp_received_final_index) last in
          record {
            stops = i.stops;
            grows = omega (arith, at);
            passed = λ k lo hi.
                let here : k ≡ m = omega (arith, lo, hi, at) in
                (
                  p,
                  ap (λ j. find j c.udp_received_packets) here ∙ e,
                  omega (arith, here, below),
                  λ _. omega (arith, here, at),
                );
            final = inr (m, p, e, last, omega arith, at, final_at);
          }
      | inr goes ↦
          let same : final' ≡ c.udp_received_final_index =
            ap {B = ℕ} (λ b. if b then m + 1 else c.udp_received_final_index) goes in
          record {
            stops = i.stops;
            grows = omega (arith, i.grows);
            passed = λ k lo hi. elim (Bool-cases (k == m)) [
              | inl here ↦ (
                p,
                ap (λ j. find j c.udp_received_packets) ((==_iff k m).0 here) ∙ e,
                ground (arith, here, below),
                λ closing. absurd (cc (closing, goes)),
              )
              | inr other ↦
                  let (q, there, less, last) = i.passed k (ground (arith, other, lo)) hi in
                  (q, there, omega (arith, less, same), last)
            ];
            final = elim i.final [
              | inl (kept, none_passed) ↦ inl (
                kept ∙ same,
                λ k q lo hi there. elim (Bool-cases (k == m)) [
                  | inl here ↦
                      let found : find m c.udp_received_packets ≡ some q =
                        ap (λ j. find j c.udp_received_packets) (sym ((==_iff k m).0 here))
                        ∙ there in
                      let both : some p ≡ some q = sym e ∙ found in
                      let value : p ≡ q = cc both in ap closes (sym value) ∙ goes
                  | inr other ↦ none_passed k q (ground (arith, other, lo)) hi there
                ],
              )
              | inr (k, q, there, closing, lo, at, final_at) ↦
                  inr (k, q, there, closing, omega (arith, lo), at, final_at)
            ];
          }
    ]

-- Behind a Bye or Disconnect the loop stops.
advance_master_ended :
    (rounds : ℕ) (c : Connection)
    → c.udp_received_final_index ≤ c.udp_received_master_index
    → advance_master rounds c ≡ c
unfolding advance_master
advance_master_ended zero c done = refl
advance_master_ended (suc rounds) c done =
    found (find c.udp_received_master_index c.udp_received_packets)
  where
    found :
        (o : Option Packet)
        → elim o as (λ x. Connection) [
          | none ↦ c
          | some p ↦
              if ltb c.udp_received_master_index c.udp_received_final_index
              then advance_master rounds (advance_one p c)
              else c
        ]
          ≡ c
    found none = refl
    found (some p) =
        if_case (λ (x : Connection). x ≡ c)
          (ltb c.udp_received_master_index c.udp_received_final_index) _ c
          (λ less. absurd (ground (arith, less, done))) (λ stop. refl)

advance_master-IsAdvanced :
    (rounds : ℕ) (c : Connection)
    → count_from c.udp_received_master_index c.udp_received_packets ≤ rounds
    → IsAdvanced c (advance_master rounds c)
unfolding advance_master
advance_master-IsAdvanced zero c enough =
    elim (Option-cases (find c.udp_received_master_index c.udp_received_packets)) [
      | inl e ↦ stays-IsAdvanced c (inl e)
      | inr (p, e) ↦ absurd (
          omega (
            arith,
            enough,
            count_from_passed c.udp_received_master_index c.udp_received_packets p e,
          ))
    ]
advance_master-IsAdvanced (suc rounds) c enough =
    let step : (o : Option Packet)
        → find c.udp_received_master_index c.udp_received_packets ≡ o
        → advance_master (suc rounds) c ≡ elim o [
          | none ↦ c
          | some p ↦
              if ltb c.udp_received_master_index c.udp_received_final_index
              then advance_master rounds (advance_one p c)
              else c
        ] =
      λ o e.
        ap {B = Connection}
          (λ o'. elim o' [
            | none ↦ c
            | some p ↦
                if ltb c.udp_received_master_index c.udp_received_final_index
                then advance_master rounds (advance_one p c)
                else c
          ])
          e in
    elim (Option-cases (find c.udp_received_master_index c.udp_received_packets)) [
      | inl e ↦ subst (IsAdvanced c) (sym (step none e)) (stays-IsAdvanced c (inl e))
      | inr (p, e) ↦ subst (IsAdvanced c) (sym (step (some p) e)) (
          if_case (IsAdvanced c) (ltb c.udp_received_master_index c.udp_received_final_index) _ c
            (λ below.
              step-IsAdvanced c (advance_master rounds (advance_one p c)) p e (ltb→lt _ _ below)
                (λ closing. advance_master_ended rounds (advance_one p c) (ground (arith, closing)))
                (advance_master-IsAdvanced rounds (advance_one p c) (
                  omega (
                    arith,
                    enough,
                    count_from_passed c.udp_received_master_index c.udp_received_packets p e,
                  ))))
            (λ ends. stays-IsAdvanced c (inr (ground (arith, ends)))))
    ]

-- With as many rounds as there are entries, the loop ends by its own condition: at the first index
-- that is missing, or at or behind the final index. Every index that it passes is there and below the
-- final index that it began with, and a Bye or Disconnect is the last that it passes. The final index
-- is the one behind that packet then, and stays as it was when no such packet is passed.
pub advance_master_lem :
    (c : Connection)
    → let d = advance_master (length c.udp_received_packets) c in
      ((find d.udp_received_master_index c.udp_received_packets ≡ none)
        ⊎ (d.udp_received_final_index ≤ d.udp_received_master_index))
      × (c.udp_received_master_index ≤ d.udp_received_master_index)
      × ((k : ℕ)
          → c.udp_received_master_index ≤ k
          → k < d.udp_received_master_index
          → (p : Packet) × (find k c.udp_received_packets ≡ some p)
            × (k < c.udp_received_final_index)
            × (closes p ≡ true → k + 1 ≡ d.udp_received_master_index))
      × IsFinal c d
advance_master_lem c =
    let i =
      advance_master-IsAdvanced (length c.udp_received_packets) c
        (count_from-le c.udp_received_master_index c.udp_received_packets) in
    (i.stops, i.grows, i.passed, i.final)
