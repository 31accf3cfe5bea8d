-- ===== src/Server/Entries.antt =====
-- The entries of the UDP listeners of server.cpp, and what `createConnection` adds.
use icetunnel.Prelude.{
  ℕ, ◌+◌, ◌≡◌, refl, ap, ◌∙◌, false, Option, none, some, List, ◌==◌, if◌then◌else◌, arith,
}
use icetunnel.Address.{Address}
use icetunnel.Connection.{new_connection}
use icetunnel.Address.Order.{before_total}
use icetunnel.Connection.Map.{find, insert}
use icetunnel.Connection.Map.Laws.{find-insert}
use icetunnel.Connection.State.{Env}
use icetunnel.Server.{
  Server, Link, get_udp_initial_interval_us, UdpListener, connection_by_address, find_address,
  update_listener, insert_address, create_connection,
}

pub find_address-insert_address :
    (a : Address) (id : ℕ) (m : List (Address × ℕ))
    → find_address a (insert_address a id m) ≡ some id
find_address-insert_address a id m = ground (arith, (before_total a a).0.1 refl)

-- A listener that is there.
pub entries_of :
    (listener : ℕ) (a : Address) (l : UdpListener) (s : Server)
    → find listener s.udp_listeners ≡ some l
    → connection_by_address listener a s ≡ find_address a l.connections
unfolding connection_by_address
entries_of listener a l s e =
    ap {B = Option ℕ} (λ o. elim o [ none ↦ none | some k ↦ find_address a k.connections ]) e

pub updated :
    (listener : ℕ) (f : UdpListener → UdpListener) (l : UdpListener) (s : Server)
    → find listener s.udp_listeners ≡ some l
    → find listener (update_listener listener f s).udp_listeners ≡ some (f l)
unfolding update_listener
updated listener f l s e =
    let opened : update_listener listener f s
        ≡ record s { udp_listeners = insert listener (f l) s.udp_listeners } =
      ap {B = Server}
        (λ o. elim o [
          | none ↦ s
          | some k ↦ record s { udp_listeners = insert listener (f k) s.udp_listeners }
        ])
        e in
    ap (λ t. find listener t.udp_listeners) opened
    ∙ ground (arith, find-insert listener listener (f l) s.udp_listeners)

-- The numbers and the connections do not change with a listener.
pub update_listener-rest :
    (listener : ℕ) (f : UdpListener → UdpListener) (s : Server)
    → let t = update_listener listener f s in
      (t.connections ≡ s.connections)
      × (t.last_object_index ≡ s.last_object_index)
      × (t.config ≡ s.config)
unfolding update_listener
update_listener-rest listener f s = ground arith

pub updated_other :
    (listener k : ℕ) (f : UdpListener → UdpListener) (s : Server)
    → (k == listener) ≡ false
    → find k (update_listener listener f s).udp_listeners ≡ find k s.udp_listeners
unfolding update_listener
updated_other listener k f s other = by_listener (find listener s.udp_listeners)
  where
    by_listener :
        (o : Option UdpListener)
        → find k
            (elim o as (λ x. Server) [
              | none ↦ s
              | some l ↦ record s { udp_listeners = insert listener (f l) s.udp_listeners }
            ]).udp_listeners
          ≡ find k s.udp_listeners
    by_listener none = refl
    by_listener (some l) = ground (arith, find-insert k listener (f l) s.udp_listeners, other)

-- The connection that `createConnection` makes.
abbrev pub new_link : (ℕ → List ℕ → ℕ) → Env → ℕ → Address → Server → Link
new_link rate env listener a s = record {
  connection =
      new_connection env s.config (
        get_udp_initial_interval_us rate
          (record s { last_object_index = s.last_object_index + 1 }));
  listener = listener;
  address = a;
}

-- The two outcomes of `createConnection`.
abbrev pub counted : Server → Server
counted s = record s { last_object_index = s.last_object_index + 1 }

abbrev pub added : (ℕ → List ℕ → ℕ) → Env → ℕ → Address → Server → Server
added rate env listener a s =
    let id = s.last_object_index + 1 in
    update_listener listener (λ l. record l { connections = insert_address a id l.connections })
      (record (counted s) {
        connections = insert id (new_link rate env listener a s) s.connections;
      })

pub create_new :
    (rate : ℕ → List ℕ → ℕ) (env : Env) (listener : ℕ) (a : Address) (s : Server)
    → connection_by_address listener a (counted s) ≡ none
    → create_connection rate env listener a s
      ≡ (added rate env listener a s, some (s.last_object_index + 1))
unfolding create_connection
create_new rate env listener a s free =
    ap {B = Server × Option ℕ}
      (λ o. elim o [
        | some other ↦ (counted s, none)
        | none ↦ (added rate env listener a s, some (s.last_object_index + 1))
      ])
      free

pub create_old :
    (rate : ℕ → List ℕ → ℕ) (env : Env) (listener : ℕ) (a : Address) (s : Server) (id : ℕ)
    → connection_by_address listener a (counted s) ≡ some id
    → create_connection rate env listener a s ≡ (counted s, none)
unfolding create_connection
create_old rate env listener a s id taken =
    ap {B = Server × Option ℕ}
      (λ o. elim o [
        | some other ↦ (counted s, none)
        | none ↦ (added rate env listener a s, some (s.last_object_index + 1))
      ])
      taken

-- What a new connection leaves behind: itself, its entry, and the other connections.
pub added_lem :
    (rate : ℕ → List ℕ → ℕ) (env : Env) (listener : ℕ) (a : Address) (s : Server) (l : UdpListener)
    → find listener s.udp_listeners ≡ some l
    → let t = added rate env listener a s in
      let id = s.last_object_index + 1 in
      (find listener t.udp_listeners
        ≡ some (record l { connections = insert_address a id l.connections }))
      × (t.last_object_index ≡ id)
      × ((k : ℕ)
          → find k t.connections
            ≡ (if k == id then some (new_link rate env listener a s) else find k s.connections))
added_lem rate env listener a s l e =
    let id = s.last_object_index + 1 in
    let f : UdpListener → UdpListener =
      λ l'. record l' { connections = insert_address a id l'.connections } in
    let before : Server = record (counted s) {
      connections = insert id (new_link rate env listener a s) s.connections;
    } in
    let (connections, last, _) = update_listener-rest listener f before in
    (
      updated listener f l before e,
      last,
      λ k.
          ap (find k) connections ∙ find-insert k id (new_link rate env listener a s) s.connections,
    )

-- By the listener with a number.
pub by_found :
    (s t : Server) (k : ℕ) (a : Address)
    → find k t.udp_listeners ≡ find k s.udp_listeners
    → connection_by_address k a t ≡ connection_by_address k a s
unfolding connection_by_address
by_found s t k a e =
    ap {B = Option ℕ} (λ o. elim o [ none ↦ none | some l ↦ find_address a l.connections ]) e

-- The entry and the connection of an address at a listener.
abbrev pub HasLink : ℕ → Address → Server → ℕ → Link → Type 0
HasLink listener a s id c =
    (connection_by_address listener a s ≡ some id)
    × (find id s.connections ≡ some c)
    × (c.listener ≡ listener)
    × (c.address ≡ a)

pub added-HasLink :
    (rate : ℕ → List ℕ → ℕ) (env : Env) (listener : ℕ) (a : Address) (s : Server) (l : UdpListener)
    → find listener s.udp_listeners ≡ some l
    → HasLink listener a
        (added rate env listener a s)
        (s.last_object_index + 1)
        (new_link rate env listener a s)
added-HasLink rate env listener a s l e =
    let id = s.last_object_index + 1 in
    let (found, _, connections) = added_lem rate env listener a s l e in
    let new : UdpListener = record l { connections = insert_address a id l.connections } in
    (
      entries_of listener a new (added rate env listener a s) found
          ∙ find_address-insert_address a id l.connections,
      connections id ∙ ground arith,
      refl,
      refl,
    )
