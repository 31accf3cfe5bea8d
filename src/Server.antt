-- ===== src/Server.antt =====
-- server.h and server.cpp: the listeners, and the connections that they open and close. An object has
-- the number that `lastObjectIndex` gave it for its address; a set of objects is a map from numbers.
pub mod Entries
pub mod Served
pub mod Accept
pub mod Deliver
pub mod Interval
pub mod Destroy
use icetunnel.Prelude.{
  ℕ, ◌+◌, ◌-◌, ◌/◌, ◌<◌, max, Bool, true, false, not, ◌&&◌, ◌||◌, Option, none, some, List, [], ◌∷◌,
  ltb, leb, ◌==◌, if◌then◌else◌, length, take,
}
use icetunnel.Address.{Address, is_empty, same}
use icetunnel.Packet.{
  PacketType, hello, bye, data_packet, confirmation, disconnect, bye_bye, get_type, check_crc32,
}
use icetunnel.Connection.Map.{Map, find, insert, erase}
use icetunnel.Connection.State.{Connection, Config, Env, is_no_more_data_will_be_sent}
use icetunnel.Connection.{new_connection, handle, Input}

pub record TcpListener : Type 0 where
  pub tcp_address : Address
  pub udp_address : Address

-- `connections` is a `std::map<Address, Connection*>`; the order of its entries is not used.
pub record UdpListener : Type 0 where
  pub udp_address : Address
  pub tcp_address : Address
  pub last_tcp_socket_index : ℕ
  pub connections : List (Address × ℕ)

-- A connection with its `udpListener` and its `udpAddress`.
pub record Link : Type 0 where
  pub connection : Connection
  pub listener : ℕ
  pub address : Address

pub record Server : Type 0 where
  pub config : Config
  pub udp_initial_send_interval_us : ℕ
  pub last_object_index : ℕ
  pub tcp_listeners : Map TcpListener
  pub udp_listeners : Map UdpListener
  pub connections : Map Link
  pub stat_udp_received : ℕ

-- `std::map<Address, Connection*>::find`, `erase`, and `[] =`.
abbrev pub find_address : Address → List (Address × ℕ) → Option ℕ
find_address a [] = none
find_address a ((b, id) ∷ m) = if same a b then some id else find_address a m

abbrev pub erase_address : Address → List (Address × ℕ) → List (Address × ℕ)
erase_address a [] = []
erase_address a ((b, id) ∷ m) =
    let rest = erase_address a m in if same a b then rest else (b, id) ∷ rest

abbrev pub insert_address : Address → ℕ → List (Address × ℕ) → List (Address × ℕ)
insert_address a id m = (a, id) ∷ erase_address a m

-- `connectionByAddress`; a listener that has been deleted has none.
unfoldable pub connection_by_address : ℕ → Address → Server → Option ℕ
connection_by_address listener address s = elim (find listener s.udp_listeners) [
  | none ↦ none
  | some l ↦ find_address address l.connections
]

-- A change of the listener with that number.
unfoldable pub update_listener : ℕ → (UdpListener → UdpListener) → Server → Server
update_listener listener f s = elim (find listener s.udp_listeners) [
  | none ↦ s
  | some l ↦ record s { udp_listeners = insert listener (f l) s.udp_listeners }
]

unfoldable pub create_tcp_listener : Address → Address → Server → Server
create_tcp_listener tcp udp s =
    let id = s.last_object_index + 1 in
    record s {
      last_object_index = id;
      tcp_listeners = insert id (record { tcp_address = tcp; udp_address = udp }) s.tcp_listeners;
    }

-- `TcpListener` and `UdpListener` objects bind their sockets in the constructor; binding is the
-- system's.
abbrev pub new_udp_listener : Address → Address → UdpListener
new_udp_listener udp tcp = record {
  udp_address = udp;
  tcp_address = tcp;
  last_tcp_socket_index = 0;
  connections = [];
}

-- The new listener has the number `lastObjectIndex`.
unfoldable pub create_udp_listener : Address → Address → Server → Server
create_udp_listener udp tcp s =
    let id = s.last_object_index + 1 in
    record s {
      last_object_index = id;
      udp_listeners = insert id (new_udp_listener udp tcp) s.udp_listeners;
    }

unfoldable pub on_tcp_listener_closed : ℕ → Bool → Server → Server
unfolding create_tcp_listener
on_tcp_listener_closed id error s = elim (find id s.tcp_listeners) [
  | none ↦ s
  | some l ↦
      let erased = record s { tcp_listeners = erase id s.tcp_listeners } in
      if error && not (is_empty l.udp_address)
      then create_tcp_listener l.tcp_address l.udp_address erased
      else erased
]

unfoldable pub on_udp_listener_closed : ℕ → Bool → Server → Server
unfolding create_udp_listener
on_udp_listener_closed id error s = elim (find id s.udp_listeners) [
  | none ↦ s
  | some l ↦
      let erased = record s { udp_listeners = erase id s.udp_listeners } in
      if error && not (is_empty l.tcp_address)
      then create_udp_listener l.udp_address l.tcp_address erased
      else erased
]

-- `getTcpAddress().data.empty()`: a listener of the client side, which has one connection.
abbrev pub is_client_side : ℕ → Server → Bool
is_client_side listener s = elim (find listener s.udp_listeners) [
  | none ↦ false
  | some l ↦ is_empty l.tcp_address
]

-- "i->second == &connection".
abbrev pub is_entry : Option ℕ → ℕ → Bool
is_entry none id = false
is_entry (some j) id = j == id

unfoldable pub on_connection_closed : ℕ → Server → Server
unfolding connection_by_address update_listener on_udp_listener_closed
on_connection_closed id s = elim (find id s.connections) [
  | none ↦ s
  | some c ↦
      let unlinked =
        if is_entry (connection_by_address c.listener c.address s) id
        then update_listener c.listener
            (λ l. record l { connections = erase_address c.address l.connections }) s
        else s in
      let erased = record unlinked { connections = erase id unlinked.connections } in
      if is_client_side c.listener erased
      then on_udp_listener_closed c.listener false erased
      else erased
]

-- The intervals of the connections that still send, each 10 at least.
unfoldable pub sending_intervals : Map Link → List ℕ
sending_intervals [] = []
sending_intervals ((k, c) ∷ m) =
    let rest = sending_intervals m in
    if is_no_more_data_will_be_sent c.connection
    then rest
    else max 10 c.connection.udp_send_interval_us ∷ rest

-- `getUdpInitialIntervalUs`. The floating-point part is a parameter: from the initial interval and
-- the intervals, `ceil((count + 1) / max(sum of 1 / interval, 0.25 / initial))`.
unfoldable pub get_udp_initial_interval_us : (ℕ → List ℕ → ℕ) → Server → ℕ
unfolding sending_intervals
get_udp_initial_interval_us rate s =
    let initial = s.udp_initial_send_interval_us in
    let intervals = sending_intervals s.connections in
    let us = rate initial intervals in
    let third = s.config.udp_resend_us / 3 in
    let capped = if ltb third us then third else us in
    if ltb 0 (length intervals)
    then (if ltb capped (initial / 2) then initial / 2 else capped)
    else initial

-- `createConnection`: the state, and the number of the connection, or `none` where the address has
-- one. The number is used up in both cases.
unfoldable pub create_connection : (ℕ → List ℕ → ℕ) → Env → ℕ → Address → Server → Server × Option ℕ
unfolding connection_by_address get_udp_initial_interval_us update_listener
create_connection rate env listener address s =
    let id = s.last_object_index + 1 in
    let counted = record s { last_object_index = id } in
    let link : Link = record {
      connection = new_connection env s.config (get_udp_initial_interval_us rate counted);
      listener = listener;
      address = address;
    } in
    let added = record counted { connections = insert id link counted.connections } in
    elim (connection_by_address listener address counted) [
      | some other ↦ (counted, none)
      | none ↦ (
        update_listener listener
            (λ l. record l { connections = insert_address address id l.connections }) added,
        some id,
      )
    ]

-- `TcpListener::handle` on `eventRead`: `accepted` tells that `accept` gave a socket. The second
-- result tells that the client was cancelled.
unfoldable pub tcp_listener_read : (ℕ → List ℕ → ℕ) → Env → ℕ → Bool → Server → Server × Bool
unfolding create_udp_listener create_connection
tcp_listener_read rate env id accepted s = elim (find id s.tcp_listeners) [
  | none ↦ (s, false)
  | some l ↦
      let listening = create_udp_listener [] [] s in
      let (created, connection) =
        create_connection rate env listening.last_object_index l.udp_address listening in
      if accepted then (created, elim connection [ none ↦ true | some c ↦ false ]) else (s, false)
]

-- `isDataPacketType`.
unfoldable pub is_data_packet_type : PacketType → Bool
is_data_packet_type hello = true
is_data_packet_type bye = true
is_data_packet_type data_packet = true
is_data_packet_type disconnect = true
is_data_packet_type type = false

-- `connection->udpRead(receivePacket)`.
unfoldable pub deliver : Env → Option ℕ → List ℕ → Server → Server
deliver env none bytes s = s
deliver env (some id) bytes s = elim (find id s.connections) [
  | none ↦ s
  | some c ↦ record s {
    connections =
        insert id (record c { connection = handle env (Input.udp_reads bytes) c.connection })
          s.connections;
  }
]

-- "if (!tcpAddress.data.empty() && !connection)": a packet of the stream from an unknown address
-- opens a connection, with a new TCP socket.
unfoldable pub connection_for :
    (ℕ → List ℕ → ℕ) → Env → ℕ → Address → List ℕ → Server → Server × Option ℕ
unfolding connection_by_address is_data_packet_type create_connection
connection_for rate env listener address bytes s =
    let opened = create_connection rate env listener address (
      update_listener listener
        (λ l. record l { last_tcp_socket_index = l.last_tcp_socket_index + 1 }) s) in
    elim (connection_by_address listener address s) [
      | some id ↦ (s, some id)
      | none ↦
          if not (is_client_side listener s) && is_data_packet_type (get_type bytes)
          then opened
          else (s, none)
    ]

-- `UdpListener::handle` on `eventRead`: `readfrom` gave these bytes from this address. `none` is an
-- error of `readfrom`.
unfoldable pub udp_listener_read :
    (ℕ → List ℕ → ℕ) → Env → ℕ → Option (Address × List ℕ) → Server → Server
unfolding connection_for deliver
udp_listener_read rate env listener none s = s
udp_listener_read rate env listener (some (address, bytes)) s =
    let counted = record s { stat_udp_received = s.stat_udp_received + length bytes } in
    let (found, connection) = connection_for rate env listener address bytes counted in
    if is_empty address
    then s
    else if check_crc32 bytes
    then deliver env connection bytes found
    else counted

-- `UdpListener::handle` on `eventClose`.
unfoldable pub udp_listener_close : ℕ → Bool → Server → Server
unfolding on_udp_listener_closed
udp_listener_close id error s = elim (find id s.udp_listeners) [
  | none ↦ s
  | some l ↦ elim l.connections [ [] ↦ on_udp_listener_closed id error s | entry ∷ entries ↦ s ]
]

-- `step`: how long to wait for the sockets after `doEvents` gave the time of the next event. `begin`
-- and `poll_begin` are the two readings of the clock.
unfoldable pub poll_duration : ℕ → ℕ → ℕ → Option ℕ → ℕ
poll_duration step_us begin poll_begin none = begin + step_us - poll_begin
poll_duration step_us begin poll_begin (some next) =
    if ltb (begin + step_us) next then begin + step_us - poll_begin else next - poll_begin
