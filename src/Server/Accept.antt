-- ===== src/Server/Accept.antt =====
-- How server.cpp opens connections, for TCP clients and for datagrams from new addresses.
use icetunnel.Prelude.{
  ℕ, ◌+◌, ◌≡◌, refl, ap, ◌∙◌, inl, inr, Bool, true, false, Option, none, some, List, [], ◌==◌, sym,
  arith, subst, ◌⊎◌, Option-cases,
}
use icetunnel.Address.{Address, is_empty}
use icetunnel.Connection.Map.{find}
use icetunnel.Connection.Map.Laws.{find-insert}
use icetunnel.Connection.State.{Env}
use icetunnel.Server.{
  Server, Link, UdpListener, TcpListener, connection_by_address, new_udp_listener,
  create_udp_listener, create_connection, tcp_listener_read, is_client_side,
}
use icetunnel.Server.Entries.{
  HasLink, new_link, counted, added, added_lem, added-HasLink, create_new, create_old, entries_of,
  by_found,
}
use icetunnel.Server.Served.{IsServed, counted-IsServed, added-IsServed}

-- The listener that `createUdpListener` makes.
listening_found :
    (s : Server)
    → find (s.last_object_index + 1) (create_udp_listener [] [] s).udp_listeners
      ≡ some (new_udp_listener [] [])
unfolding create_udp_listener
listening_found s = ground (
  arith,
  find-insert (s.last_object_index + 1) (s.last_object_index + 1) (new_udp_listener [] [])
      s.udp_listeners,
)

-- When a listener is there, and the entries of all listeners are connections that point back to them,
-- `createConnection` leaves the entries like that, and an entry and a connection for the address: the
-- ones that were there, or, if the address had none, a connection that the constructor has made, whose
-- number it returns. A second call for the address opens none.
pub create_connection_once :
    (rate : ℕ → List ℕ → ℕ) (env : Env) (listener : ℕ) (a : Address) (s : Server) (l : UdpListener)
    → find listener s.udp_listeners ≡ some l
    → IsServed s
    → let out = create_connection rate env listener a s in
      IsServed out.0
      × ((id : ℕ) × (c : Link) × HasLink listener a out.0 id c
          × (((connection_by_address listener a s ≡ some id)
                × (find id s.connections ≡ some c)
                × (out.1 ≡ none))
              ⊎ ((connection_by_address listener a s ≡ none)
                  × (c ≡ new_link rate env listener a s)
                  × (out.1 ≡ some id))))
      × ((create_connection rate env listener a out.0).1 ≡ none)
create_connection_once rate env listener a s l e h =
    let here = by_found s (counted s) listener a refl in
    elim (Option-cases (connection_by_address listener a s)) [
      | inl free ↦
          let t = added rate env listener a s in
          let id = s.last_object_index + 1 in
          let has = added-HasLink rate env listener a s l e in
          let again =
            create_old rate env listener a t id (by_found t (counted t) listener a refl ∙ has.0) in
          subst Once (sym (create_new rate env listener a s (here ∙ free))) (
            added-IsServed rate env listener a s l e h,
            (id, new_link rate env listener a s, has, inr (free, refl, refl)),
            ap (λ o. o.1) again,
          )
      | inr (id, taken) ↦
          let t = counted s in
          let (_, (c, found, back, address)) = h listener a id taken in
          let again =
            create_old rate env listener a t id
              (by_found t (counted t) listener a refl ∙ here ∙ taken) in
          subst Once (sym (create_old rate env listener a s id (here ∙ taken))) (
            counted-IsServed s h,
            (id, c, (here ∙ taken, found, back, address), inl (taken, found, refl)),
            ap (λ o. o.1) again,
          )
    ]
  where
    Once : Server × Option ℕ → Type 0
    Once out =
        IsServed out.0
        × ((id : ℕ) × (c : Link) × HasLink listener a out.0 id c
            × (((connection_by_address listener a s ≡ some id)
                  × (find id s.connections ≡ some c)
                  × (out.1 ≡ none))
                ⊎ ((connection_by_address listener a s ≡ none)
                    × (c ≡ new_link rate env listener a s)
                    × (out.1 ≡ some id))))
        × ((create_connection rate env listener a out.0).1 ≡ none)

-- A TCP client that a listener accepts always gets a connection, which the constructor has made, of
-- its own UDP listener on the client side and to the address of the TCP listener: the branch that
-- cancels the client is never taken. The other connections stay.
pub tcp_listener_read_opens :
    (rate : ℕ → List ℕ → ℕ) (env : Env) (id : ℕ) (s : Server) (l : TcpListener)
    → find id s.tcp_listeners ≡ some l
    → let out = tcp_listener_read rate env id true s in
      let own = s.last_object_index + 1 in
      (out.1 ≡ false)
      × HasLink own l.udp_address out.0
          (own + 1)
          (new_link rate env own l.udp_address (create_udp_listener [] [] s))
      × (is_client_side own out.0 ≡ true)
      × ((k : ℕ) → (k == (own + 1)) ≡ false → find k out.0.connections ≡ find k s.connections)
unfolding tcp_listener_read create_udp_listener
tcp_listener_read_opens rate env id s l e =
    let listening = create_udp_listener [] [] s in
    let own = s.last_object_index + 1 in
    let a = l.udp_address in
    let there = listening_found s in
    let free : connection_by_address own a (counted listening) ≡ none =
      entries_of own a (new_udp_listener [] []) (counted listening) there in
    let made = create_new rate env own a listening free in
    let (found, _, connections) =
      added_lem rate env own a listening (new_udp_listener [] []) there in
    rw (e, tcp_listener_read, made)
      (
        refl,
        added-HasLink rate env own a listening (new_udp_listener [] []) there,
        ap {B = Bool} (λ o. elim o [ none ↦ false | some k ↦ is_empty k.tcp_address ]) found,
        λ k other. connections k ∙ ground (arith, other),
      )
