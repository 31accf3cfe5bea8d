-- ===== src/Server/Destroy.antt =====
-- server.cpp: `~Server`, which closes all connections, then all listeners.
use icetunnel.Prelude.{
  ℕ, zero, suc, ◌≡◌, refl, ap, ◌∙◌, false, Option, none, some, [], ◌∷◌, if◌then◌else◌, if_case,
  arith, length,
}
use icetunnel.Connection.Map.{Map, find, erase}
use icetunnel.Server.{
  Server, Link, TcpListener, UdpListener, update_listener, connection_by_address, is_entry,
  is_client_side, erase_address, on_tcp_listener_closed, on_udp_listener_closed,
  on_connection_closed,
}

-- The three loops, each with as many rounds as its set has entries. The first entry is `begin()`.
unfoldable pub close_connections : ℕ → Server → Server
close_connections zero s = s
close_connections (suc rounds) s = elim s.connections [
  | [] ↦ s
  | (id, c) ∷ m ↦ close_connections rounds (on_connection_closed id s)
]

unfoldable pub close_tcp_listeners : ℕ → Server → Server
close_tcp_listeners zero s = s
close_tcp_listeners (suc rounds) s = elim s.tcp_listeners [
  | [] ↦ s
  | (id, l) ∷ m ↦ close_tcp_listeners rounds (on_tcp_listener_closed id false s)
]

unfoldable pub close_udp_listeners : ℕ → Server → Server
close_udp_listeners zero s = s
close_udp_listeners (suc rounds) s = elim s.udp_listeners [
  | [] ↦ s
  | (id, l) ∷ m ↦ close_udp_listeners rounds (on_udp_listener_closed id false s)
]

unfoldable pub destroy_server : Server → Server
unfolding close_connections close_tcp_listeners close_udp_listeners
destroy_server s =
    let unconnected = close_connections (length s.connections) s in
    let untcp = close_tcp_listeners (length unconnected.tcp_listeners) unconnected in
    close_udp_listeners (length untcp.udp_listeners) untcp

update_listener-connections :
    (id : ℕ) (f : UdpListener → UdpListener) (s : Server)
    → (update_listener id f s).connections ≡ s.connections
unfolding update_listener
update_listener-connections id f s = ground arith

on_udp_listener_closed-rest :
    (id : ℕ) (s : Server)
    → let t = on_udp_listener_closed id false s in
      (t.connections ≡ s.connections)
      × (t.tcp_listeners ≡ s.tcp_listeners)
      × (t.udp_listeners ≡ (elim (find id s.udp_listeners) [
        | none ↦ s.udp_listeners
        | some l ↦ erase id s.udp_listeners
      ]))
unfolding on_udp_listener_closed
on_udp_listener_closed-rest id s = ground arith

on_tcp_listener_closed-rest :
    (id : ℕ) (s : Server)
    → let t = on_tcp_listener_closed id false s in
      (t.connections ≡ s.connections)
      × (t.tcp_listeners ≡ (elim (find id s.tcp_listeners) [
        | none ↦ s.tcp_listeners
        | some l ↦ erase id s.tcp_listeners
      ]))
unfolding on_tcp_listener_closed
on_tcp_listener_closed-rest id s = ground arith

-- A connection that is closed is no longer among the connections.
on_connection_closed-connections :
    (id : ℕ) (s : Server)
    → (on_connection_closed id s).connections
      ≡ (elim (find id s.connections) [ none ↦ s.connections | some c ↦ erase id s.connections ])
unfolding on_connection_closed
on_connection_closed-connections id s = found (find id s.connections)
  where
    found :
        (o : Option Link)
        → (elim o as (λ x. Server) [
          | none ↦ s
          | some c ↦
              let unlinked =
                if is_entry (connection_by_address c.listener c.address s) id
                then update_listener c.listener
                    (λ l. record l { connections = erase_address c.address l.connections })
                    s
                else s in
              let erased = record unlinked { connections = erase id unlinked.connections } in
              if is_client_side c.listener erased
              then on_udp_listener_closed c.listener false erased
              else erased
        ]).connections
          ≡ (elim o [ none ↦ s.connections | some c ↦ erase id s.connections ])
    found none = refl
    found (some c) =
        let f =
          λ (l : UdpListener). record l { connections = erase_address c.address l.connections } in
        let entry = is_entry (connection_by_address c.listener c.address s) id in
        let unlinked : Server = if entry then update_listener c.listener f s else s in
        let erased : Server = record unlinked { connections = erase id unlinked.connections } in
        let kept : unlinked.connections ≡ s.connections =
          if_case (λ (t : Server). t.connections ≡ s.connections) entry _ s
            (λ yes. update_listener-connections c.listener f s) (λ no. refl) in
        let same : erased.connections ≡ erase id s.connections = ap (erase id) kept in
        if_case (λ (t : Server). t.connections ≡ erase id s.connections)
          (is_client_side c.listener erased) _ erased
          (λ yes. (on_udp_listener_closed-rest c.listener erased).0 ∙ same) (λ no. same)

-- The first entry of a map is found, and goes.
first_erased :
    {V : Type 0} (id : ℕ) (v : V) (m : Map V)
    → (elim (find id ((id, v) ∷ m)) [ none ↦ (id, v) ∷ m | some w ↦ erase id ((id, v) ∷ m) ]) ≡ m
first_erased id v m = ground arith

close_connections-empty :
    (l : Map Link) (s : Server)
    → s.connections ≡ l
    → (close_connections (length l) s).connections ≡ []
unfolding close_connections
close_connections-empty [] s e = e
close_connections-empty ((id, c) ∷ l) s e =
    let step : close_connections (suc (length l)) s
        ≡ close_connections (length l) (on_connection_closed id s) =
      ap {B = Server}
        (λ x. elim x [
          | [] ↦ s
          | (k, d) ∷ m ↦ close_connections (length l) (on_connection_closed k s)
        ])
        e in
    let next : (on_connection_closed id s).connections ≡ l =
      on_connection_closed-connections id s
      ∙ ap {B = Map Link} (λ x. elim (find id x) [ none ↦ x | some d ↦ erase id x ]) e
      ∙ first_erased id c l in
    ap (λ t. t.connections) step ∙ close_connections-empty l (on_connection_closed id s) next

close_tcp_listeners-empty :
    (l : Map TcpListener) (s : Server)
    → s.tcp_listeners ≡ l
    → let t = close_tcp_listeners (length l) s in
      (t.tcp_listeners ≡ []) × (t.connections ≡ s.connections)
unfolding close_tcp_listeners
close_tcp_listeners-empty [] s e = (e, refl)
close_tcp_listeners-empty ((id, c) ∷ l) s e =
    let step : close_tcp_listeners (suc (length l)) s
        ≡ close_tcp_listeners (length l) (on_tcp_listener_closed id false s) =
      ap {B = Server}
        (λ x. elim x [
          | [] ↦ s
          | (k, d) ∷ m ↦ close_tcp_listeners (length l) (on_tcp_listener_closed k false s)
        ])
        e in
    let (connections, tcp) = on_tcp_listener_closed-rest id s in
    let next : (on_tcp_listener_closed id false s).tcp_listeners ≡ l =
      tcp
      ∙ ap {B = Map TcpListener} (λ x. elim (find id x) [ none ↦ x | some d ↦ erase id x ]) e
      ∙ first_erased id c l in
    let (empty, kept) = close_tcp_listeners-empty l (on_tcp_listener_closed id false s) next in
    (ap (λ t. t.tcp_listeners) step ∙ empty, ap (λ t. t.connections) step ∙ kept ∙ connections)

close_udp_listeners-empty :
    (l : Map UdpListener) (s : Server)
    → s.udp_listeners ≡ l
    → let t = close_udp_listeners (length l) s in
      (t.udp_listeners ≡ []) × (t.connections ≡ s.connections) × (t.tcp_listeners ≡ s.tcp_listeners)
unfolding close_udp_listeners
close_udp_listeners-empty [] s e = (e, refl, refl)
close_udp_listeners-empty ((id, c) ∷ l) s e =
    let step : close_udp_listeners (suc (length l)) s
        ≡ close_udp_listeners (length l) (on_udp_listener_closed id false s) =
      ap {B = Server}
        (λ x. elim x [
          | [] ↦ s
          | (k, d) ∷ m ↦ close_udp_listeners (length l) (on_udp_listener_closed k false s)
        ])
        e in
    let (connections, tcp, udp) = on_udp_listener_closed-rest id s in
    let next : (on_udp_listener_closed id false s).udp_listeners ≡ l =
      udp
      ∙ ap {B = Map UdpListener} (λ x. elim (find id x) [ none ↦ x | some d ↦ erase id x ]) e
      ∙ first_erased id c l in
    let (empty, kept, kept') =
      close_udp_listeners-empty l (on_udp_listener_closed id false s) next in
    (
      ap (λ t. t.udp_listeners) step ∙ empty,
      ap (λ t. t.connections) step ∙ kept ∙ connections,
      ap (λ t. t.tcp_listeners) step ∙ kept' ∙ tcp,
    )

-- `~Server` ends, and leaves no connection and no listener: no listener that it closes is opened
-- again.
pub destroy_server-empty :
    (s : Server)
    → let t = destroy_server s in
      (t.connections ≡ []) × (t.tcp_listeners ≡ []) × (t.udp_listeners ≡ [])
unfolding destroy_server
destroy_server-empty s =
    let a = close_connections (length s.connections) s in
    let b = close_tcp_listeners (length a.tcp_listeners) a in
    let none_connected = close_connections-empty s.connections s refl in
    let (no_tcp, kept) = close_tcp_listeners-empty a.tcp_listeners a refl in
    let (no_udp, kept', kept_tcp) = close_udp_listeners-empty b.udp_listeners b refl in
    (kept' ∙ kept ∙ none_connected, kept_tcp ∙ no_tcp, no_udp)
