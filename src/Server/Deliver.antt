-- ===== src/Server/Deliver.antt =====
-- How a UDP listener hands a datagram to a connection.
use icetunnel.Prelude.{
  ℕ, ◌+◌, ◌≡◌, refl, sym, ap, subst, ◌∙◌, inl, inr, ◌⊎◌, Bool, true, false, not, ◌&&◌, Option, none,
  some, List, arith, if◌then◌else◌, if_case, ◌==◌, length, Bool-cases, Option-cases,
}
use icetunnel.Address.{Address, is_empty}
use icetunnel.Packet.{get_type, check_crc32}
use icetunnel.Connection.{Input, handle}
use icetunnel.Connection.Map.{find, insert}
use icetunnel.Connection.Map.Laws.{find-insert}
use icetunnel.Connection.State.{Env}
use icetunnel.Server.{
  Server, Link, UdpListener, connection_by_address, update_listener, create_connection,
  connection_for, deliver, is_client_side, is_data_packet_type, udp_listener_read,
}
use icetunnel.Server.Served.{IsServed}
use icetunnel.Server.Entries.{
  HasLink, new_link, counted, added, added_lem, added-HasLink, create_new, entries_of, updated,
  update_listener-rest, by_found,
}

-- The connection `c` after the datagram.
abbrev pub handed : Env → List ℕ → Link → Link
handed env bytes c = record c { connection = handle env (Input.udp_reads bytes) c.connection }

deliver_found :
    (env : Env) (id : ℕ) (bytes : List ℕ) (t : Server) (c : Link)
    → find id t.connections ≡ some c
    → deliver env (some id) bytes t
      ≡ record t { connections = insert id (handed env bytes c) t.connections }
unfolding deliver
deliver_found env id bytes t c e =
    ap {B = Server}
      (λ o. elim o [
        | none ↦ t
        | some d ↦ record t { connections = insert id (handed env bytes d) t.connections }
      ])
      e

-- The link is as it was, but for the datagram, and the other connections stay.
deliver-HasLink :
    (env : Env) (listener : ℕ) (a : Address) (id : ℕ) (bytes : List ℕ) (t : Server) (c : Link)
    → HasLink listener a t id c
    → let out = deliver env (some id) bytes t in
      HasLink listener a out id (handed env bytes c)
      × ((k : ℕ) → (k == id) ≡ false → find k out.connections ≡ find k t.connections)
deliver-HasLink env listener a id bytes t c (entry, found, back, address) =
    let d = handed env bytes c in
    let after : Server = record t { connections = insert id d t.connections } in
    subst
      (λ (out : Server).
        HasLink listener a out id d
        × ((k : ℕ) → (k == id) ≡ false → find k out.connections ≡ find k t.connections))
      (sym (deliver_found env id bytes t c found))
      (
        (
          by_found t after listener a refl ∙ entry,
          find-insert id id d t.connections ∙ ground arith,
          back,
          address,
        ),
        λ k other. find-insert k id d t.connections ∙ ground (arith, other),
      )

-- Where the connection comes from: it was there, or the constructor has made it.
abbrev pub IsSource : (ℕ → List ℕ → ℕ) → Env → ℕ → Address → Server → ℕ → Link → Type 0
IsSource rate env listener a s id c =
    ((connection_by_address listener a s ≡ some id) × (find id s.connections ≡ some c))
    ⊎ ((connection_by_address listener a s ≡ none)
        × ((t : Server) × (c ≡ new_link rate env listener a t)
            × (t.config ≡ s.config)
            × (t.udp_initial_send_interval_us ≡ s.udp_initial_send_interval_us)
            × (t.connections ≡ s.connections)))

update_listener-interval :
    (listener : ℕ) (f : UdpListener → UdpListener) (s : Server)
    → (update_listener listener f s).udp_initial_send_interval_us ≡ s.udp_initial_send_interval_us
unfolding update_listener
update_listener-interval listener f s = ground arith

connection_for_link :
    (rate : ℕ → List ℕ → ℕ) (env : Env) (listener : ℕ) (a : Address) (bytes : List ℕ) (s : Server)
    (l : UdpListener)
    → find listener s.udp_listeners ≡ some l
    → is_empty l.tcp_address ≡ false
    → is_data_packet_type (get_type bytes) ≡ true
    → IsServed s
    → let out = connection_for rate env listener a bytes s in
      (id : ℕ) × (c : Link) × (out.1 ≡ some id)
      × HasLink listener a out.0 id c
      × IsSource rate env listener a s id c
      × ((k : ℕ) → (k == id) ≡ false → find k out.0.connections ≡ find k s.connections)
unfolding connection_for
connection_for_link rate env listener a bytes s l e server type h =
    let f : UdpListener → UdpListener =
      λ k. record k { last_tcp_socket_index = k.last_tcp_socket_index + 1 } in
    let t = update_listener listener f s in
    elim (Option-cases (connection_by_address listener a s)) [
      | inl free ↦
          let there : find listener t.udp_listeners ≡ some (f l) = updated listener f l s e in
          let (same_connections, _, same_config) = update_listener-rest listener f s in
          let none_yet : connection_by_address listener a (counted t) ≡ none =
            by_found t (counted t) listener a refl
            ∙ entries_of listener a (f l) t there
            ∙ sym (entries_of listener a l s e)
            ∙ free in
          let made = create_new rate env listener a t none_yet in
          let (_, _, connections) = added_lem rate env listener a t (f l) there in
          let side : is_client_side listener s ≡ false =
            ap {B = Bool} (λ o. elim o [ none ↦ false | some k ↦ is_empty k.tcp_address ]) e
            ∙ server in
          let step : connection_for rate env listener a bytes s
              ≡ (added rate env listener a t, some (t.last_object_index + 1)) =
            ap {B = Server × Option ℕ}
              (λ o. elim o [
                | some id ↦ (s, some id)
                | none ↦
                    if not (is_client_side listener s) && is_data_packet_type (get_type bytes)
                    then create_connection rate env listener a t
                    else (s, none)
              ])
              free
            ∙ if_case
                (λ (out : Server × Option ℕ).
                  out ≡ (added rate env listener a t, some (t.last_object_index + 1)))
                (not (is_client_side listener s) && is_data_packet_type (get_type bytes)) _ _
                (λ _. made) (λ no. absurd (ground (arith, no, side, type))) in
          subst Linked (sym step) (
            t.last_object_index + 1,
            new_link rate env listener a t,
            refl,
            added-HasLink rate env listener a t (f l) there,
            inr (
              free,
              (t, refl, same_config, update_listener-interval listener f s, same_connections),
            ),
            λ k other. connections k ∙ ground (arith, other) ∙ ap (find k) same_connections,
          )
      | inr (id, taken) ↦
          let (_, (c, found, back, address)) = h listener a id taken in
          let step : connection_for rate env listener a bytes s ≡ (s, some id) =
            ap {B = Server × Option ℕ}
              (λ o. elim o [
                | some old ↦ (s, some old)
                | none ↦
                    if not (is_client_side listener s) && is_data_packet_type (get_type bytes)
                    then create_connection rate env listener a t
                    else (s, none)
              ])
              taken in
          subst Linked (sym step)
            (id, c, refl, (taken, found, back, address), inl (taken, found), λ k other. refl)
    ]
  where
    Linked : Server × Option ℕ → Type 0
    Linked out =
        (id : ℕ) × (c : Link) × (out.1 ≡ some id)
        × HasLink listener a out.0 id c
        × IsSource rate env listener a s id c
        × ((k : ℕ) → (k == id) ≡ false → find k out.0.connections ≡ find k s.connections)

-- A datagram that reaches a listener of the server side which is there, from an address, and reads as
-- a packet of the stream, while the entries of the listeners are connections that point back to them.
-- If its CRC fails, its size is counted and nothing else changes. If not, it is handed to the
-- connection that the address has, or to one that the constructor has made, if it had none; the
-- address has this connection from then on, and the other connections stay as they are.
pub udp_listener_read_delivers :
    (rate : ℕ → List ℕ → ℕ) (env : Env) (listener : ℕ) (a : Address) (bytes : List ℕ) (s : Server)
    (l : UdpListener)
    → find listener s.udp_listeners ≡ some l
    → is_empty l.tcp_address ≡ false
    → is_empty a ≡ false
    → is_data_packet_type (get_type bytes) ≡ true
    → IsServed s
    → let out = udp_listener_read rate env listener (some (a, bytes)) s in
      ((check_crc32 bytes ≡ false)
        × (out ≡ record s { stat_udp_received = s.stat_udp_received + length bytes }))
      ⊎ ((check_crc32 bytes ≡ true)
          × ((id : ℕ) × (c : Link) × HasLink listener a out id (handed env bytes c)
              × IsSource rate env listener a s id c
              × ((k : ℕ) → (k == id) ≡ false → find k out.connections ≡ find k s.connections)))
unfolding udp_listener_read
udp_listener_read_delivers rate env listener a bytes s l e server known type h =
    let s' : Server = record s { stat_udp_received = s.stat_udp_received + length bytes } in
    let here : (k : ℕ) (b : Address) → connection_by_address k b s' ≡ connection_by_address k b s =
      λ k b. by_found s s' k b refl in
    let served : IsServed s' = λ k b id there. h k b id (sym (here k b) ∙ there) in
    let found = connection_for rate env listener a bytes s' in
    let (id, c, got, link, source, others) =
      connection_for_link rate env listener a bytes s' l e server type served in
    let (link', others') = deliver-HasLink env listener a id bytes found.0 c link in
    elim (Bool-cases (check_crc32 bytes)) [
      | inr bad ↦ inl (
        bad,
        if_case (λ (out : Server). out ≡ s') (is_empty a) s _ (λ yes. absurd (cc (yes, known)))
            (λ no.
              if_case (λ (out : Server). out ≡ s') (check_crc32 bytes) _ s'
                (λ good. absurd (cc (good, bad))) (λ _. refl)),
      )
      | inl good ↦
          let step : udp_listener_read rate env listener (some (a, bytes)) s
              ≡ deliver env (some id) bytes found.0 =
            if_case (λ (out : Server). out ≡ deliver env (some id) bytes found.0) (is_empty a) s _
              (λ yes. absurd (cc (yes, known)))
              (λ no.
                if_case (λ (out : Server). out ≡ deliver env (some id) bytes found.0)
                  (check_crc32 bytes) _ s'
                  (λ _. ap {B = Server} (λ o. deliver env o bytes found.0) got)
                  (λ bad. absurd (cc (good, bad)))) in
          inr (
            good,
            subst
                (λ (out : Server).
                  (id : ℕ) × (c : Link) × HasLink listener a out id (handed env bytes c)
                  × IsSource rate env listener a s id c
                  × ((k : ℕ) → (k == id) ≡ false → find k out.connections ≡ find k s.connections))
                (sym step)
                (
                  id,
                  c,
                  link',
                  elim source [
                    | inl (taken, there) ↦ inl (sym (here listener a) ∙ taken, there)
                    | inr (free, new) ↦ inr (sym (here listener a) ∙ free, new)
                  ],
                  λ k other. others' k other ∙ others k other,
                ),
          )
    ]
