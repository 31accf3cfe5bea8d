-- ===== src/Socket/Open.antt =====
-- socket.linux.cpp: the opening of sockets, their end, and `poll`.
use icetunnel.Prelude.{
  ℕ, ◌+◌, ◌-◌, ◌/◌, ◌%◌, Bool, true, false, not, ◌&&◌, Option, none, some, List, [], ◌∷◌,
  if◌then◌else◌,
}
use icetunnel.Address.{Address}
use icetunnel.Event.{World, Source, put, destroy_source}
use icetunnel.Socket.{
  SocketType, udp, tcp, other_type, Kind, read_source, write_source, close_read_source,
  close_write_source, close_source, Group, Outcome, done, again, interrupted, failed, source_of,
  get_ready, set_source, update_socket, close, close_read, close_write,
}

-- What the system does in the constructor: `::socket`, `epoll_ctl` and `ioctl`.
pub record Opening : Type 0 where
  pub created : Option ℕ
  pub registered : Bool
  pub non_blocking : Bool

abbrev pub has_type : SocketType → Bool
has_type udp = true
has_type tcp = true
has_type other_type = false

abbrev pub is_open : Option ℕ → Bool
is_open none = false
is_open (some fd) = true

-- `Event::Source::Source()`, five times.
unfoldable pub construct : ℕ → World → World
construct id w =
    let new = λ (kind : Kind) (f : ℕ → Source).
      put f (source_of id kind) (record { ready = false; list = [] }) in
    record w {
      source = new close_source (
          new close_write_source
            (new close_read_source (new write_source (new read_source w.source))));
    }

-- `Socket::Socket`; `given` is the descriptor behind `internalId`. A type that it does not know
-- leaves the socket with no descriptor and not closed.
unfoldable pub new_socket : Opening → SocketType → ℕ → Option ℕ → ℕ → Group → Group
unfolding close construct
new_socket opening type receive_address_size given id g =
    let fd = if is_open given then given else if has_type type then opening.created else none in
    let start =
      record (update_socket id
        (record {
          type = type;
          fd = fd;
          address_local = [];
          address_remote = [];
          last_client_index = 0;
          connected = is_open given;
          error = false;
          receive_address_size = receive_address_size;
        })
        g) { count = g.count + 1; world = construct id g.world } in
    let unregistered = update_socket id (record (start.socket id) { fd = none }) start in
    if not (is_open given) && not (has_type type)
    then start
    else if not (is_open fd)
    then close true id start
    else if not opening.registered
    then close true id unregistered
    else if not opening.non_blocking
    then close true id start
    else start

-- `~Socket`, with its five sources, the last one first.
unfoldable pub destroy : ℕ → Group → Group
unfolding close
destroy id g =
    let shut = close false id g in
    let end = λ (kind : Kind) (w : World). destroy_source w (source_of id kind) in
    record shut {
      count = shut.count - 1;
      world = end read_source (
          end write_source
            (end close_read_source (end close_write_source (end close_source shut.world))));
    }

-- `accept`: `client` is the number of the new socket, `opening` what its constructor meets.
unfoldable pub accept : Outcome (ℕ × Address) → Opening → ℕ → ℕ → Group → Group × Option ℕ
unfolding new_socket destroy get_ready set_source
accept outcome opening client id g = elim outcome [
  | again ↦ (set_source id read_source false g, none)
  | interrupted ↦ (g, none)
  | failed ↦ (g, none)
  | done (fd, address) ↦
      let s = g.socket id in
      let counted = update_socket id (record s { last_client_index = s.last_client_index + 1 }) g in
      let opened = new_socket opening s.type s.receive_address_size (some fd) client counted in
      let named =
        update_socket client
          (record (opened.socket client) {
            address_local = s.address_local;
            address_remote = address;
          })
          opened in
      if get_ready opened client close_source
      then (destroy client opened, none)
      else (named, some client)
]

-- What `epoll_wait` tells of a socket: EPOLLRDHUP or EPOLLHUP, EPOLLERR, EPOLLIN and EPOLLOUT.
pub record Signals : Type 0 where
  pub hung_up : Bool
  pub has_error : Bool
  pub can_read : Bool
  pub can_write : Bool

unfoldable pub poll_socket : Signals → ℕ → Group → Group
unfolding close_read close_write get_ready set_source
poll_socket signals id g =
    let hung = if (g.socket id).connected && signals.hung_up then close_write false id g else g in
    let failed' = if signals.has_error then close_write true id hung else hung in
    let ended =
      if not signals.can_read && get_ready failed' id close_write_source
      then close_read false id failed'
      else failed' in
    let readable =
      set_source id read_source (not (get_ready ended id close_read_source) && signals.can_read)
        ended in
    set_source id write_source (not (get_ready readable id close_write_source) && signals.can_write)
      readable

-- The loop of `Group::poll` over the events of `epoll_wait`.
unfoldable pub poll_loop : List (ℕ × Signals) → Group → Group
unfolding poll_socket
poll_loop [] g = g
poll_loop ((id, signals) ∷ events) g = poll_loop events (poll_socket signals id g)

-- The milliseconds that `Group::poll` lets `epoll_wait` wait; `draw` is what `rand` gives.
unfoldable pub poll_wait_ms : ℕ → ℕ → ℕ
poll_wait_ms duration_us draw = (duration_us + draw % 1000) / 1000

-- `Group::poll`: `wait` is `epoll_wait`, which gets the milliseconds; `none` is its failure.
unfoldable pub poll : (ℕ → Option (List (ℕ × Signals))) → ℕ → ℕ → Group → Group
unfolding poll_loop
poll wait duration_us draw g = elim (wait (poll_wait_ms duration_us draw)) [
  | none ↦ g
  | some events ↦ poll_loop events g
]
