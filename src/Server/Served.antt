-- ===== src/Server/Served.antt =====
-- The invariant of the entries of the UDP listeners, through `createConnection`.
use icetunnel.Prelude.{
  ℕ, ◌+◌, ◌≡◌, refl, ap, ◌∙◌, inl, inr, true, false, some, List, [], ◌∷◌, ◌≤◌, ◌==◌, ==_iff, sym,
  Bool-cases, arith,
}
use icetunnel.Address.{Address, same}
use icetunnel.Address.Order.{before_total}
use icetunnel.Connection.Map.{find}
use icetunnel.Connection.State.{Env}
use icetunnel.Server.{
  Server, Link, erase_address, UdpListener, connection_by_address, find_address, insert_address,
}
use icetunnel.Server.Entries.{
  entries_of, by_found, added, counted, added_lem, new_link, updated_other,
}

-- Each entry of a listener is a connection of the server that points back to it, and has a number
-- that `lastObjectIndex` has given.
abbrev pub IsServed : Server → Type 0
IsServed s =
    (listener : ℕ) (a : Address) (id : ℕ)
    → connection_by_address listener a s ≡ some id
    → (id ≤ s.last_object_index)
      × ((c : Link) × (find id s.connections ≡ some c) × (c.listener ≡ listener) × (c.address ≡ a))

same_eq : (a b : Address) → same a b ≡ true → a ≡ b
same_eq a b = (before_total a b).0.0

find_address-erase_other :
    (a b : Address) (m : List (Address × ℕ))
    → same b a ≡ false
    → find_address b (erase_address a m) ≡ find_address b m
find_address-erase_other a b [] other = refl
find_address-erase_other a b ((x, id) ∷ m) other = elim (Bool-cases (same a x)) [
  | inl here ↦
      let not_b : same b x ≡ false = ap (same b) (sym (same_eq a x here)) ∙ other in
      ground (arith, here, not_b, find_address-erase_other a b m other)
  | inr there ↦ ground (arith, there, find_address-erase_other a b m other)
]

pub counted-IsServed : (s : Server) → IsServed s → IsServed (counted s)
counted-IsServed s h listener a id e =
    let (small, (c, found, back, address)) =
      h listener a id (sym (by_found s (counted s) listener a refl) ∙ e) in
    (omega (arith, small), (c, found, back, address))

pub added-IsServed :
    (rate : ℕ → List ℕ → ℕ) (env : Env) (listener : ℕ) (a : Address) (s : Server) (l : UdpListener)
    → find listener s.udp_listeners ≡ some l
    → IsServed s
    → IsServed (added rate env listener a s)
added-IsServed rate env listener a s l e h k b id' there =
    let t = added rate env listener a s in
    let id = s.last_object_index + 1 in
    let (found, last, connections) = added_lem rate env listener a s l e in
    let new : UdpListener = record l { connections = insert_address a id l.connections } in
    let older : connection_by_address k b s ≡ some id'
        → (id' ≤ t.last_object_index)
          × ((c : Link) × (find id' t.connections ≡ some c) × (c.listener ≡ k) × (c.address ≡ b)) =
      λ before.
        let (small, (c, at, back, address)) = h k b id' before in
        (
          omega (arith, small, last),
          (c, connections id' ∙ ground (arith, at, small), back, address),
        ) in
    elim (Bool-cases (k == listener)) [
      | inl here ↦
          let k_listener = (==_iff k listener).0 here in
          let entries : find_address b (insert_address a id l.connections) ≡ some id' =
            sym
              (ap (λ n. connection_by_address n b t) k_listener ∙ entries_of listener b new t found)
            ∙ there in
          elim (Bool-cases (same b a)) [
            | inl own ↦
                let value : some id ≡ some id' = sym (ground (arith, own)) ∙ entries in
                let number : id' ≡ id = sym (cc value) in
                (
                  omega (arith, number, last),
                  (
                    new_link rate env listener a s,
                    connections id' ∙ ground (arith, number),
                    sym k_listener,
                    sym (same_eq b a own),
                  ),
                )
            | inr other ↦ older (
                ap (λ n. connection_by_address n b s) k_listener
                ∙ entries_of listener b l s e
                ∙ sym (find_address-erase_other a b l.connections other)
                ∙ ground (arith, other, entries))
          ]
      | inr other ↦ older (sym (by_found s t k b (updated_other listener k _ _ other)) ∙ there)
    ]
