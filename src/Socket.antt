-- ===== src/Socket.antt =====
-- socket.h and socket.linux.cpp: non-blocking sockets, with five sources of events each. A socket has
-- a number for its address, and its sources are five sources of the events' world.
pub mod Open
pub mod Flags
pub mod Sound
pub mod Calls
use icetunnel.Prelude.{
  ℕ, ◌+◌, ◌*◌, Bool, true, false, not, ◌&&◌, Option, none, some, List, [], ◌∷◌, if◌then◌else◌,
}
use icetunnel.Address.{Address}
use icetunnel.Event.{World, put, source_set_ready, destroy_source}

-- `Socket::Type`; the constructor has a branch for other values.
pub data SocketType : Type 0 where
  udp tcp other_type : SocketType

-- The five sources.
pub data Kind : Type 0 where
  read_source write_source close_read_source close_write_source close_source : Kind

abbrev pub to_offset : Kind → ℕ
to_offset read_source = 0
to_offset write_source = 1
to_offset close_read_source = 2
to_offset close_write_source = 3
to_offset close_source = 4

abbrev pub source_of : ℕ → Kind → ℕ
source_of id kind = 5 * id + to_offset kind

-- `fd` is `none` for -1.
pub record Socket : Type 0 where
  pub type : SocketType
  pub fd : Option ℕ
  pub address_local : Address
  pub address_remote : Address
  pub last_client_index : ℕ
  pub connected : Bool
  pub error : Bool
  pub receive_address_size : ℕ

-- The sockets of a group, `count` of its internals, and the world of the events.
pub record Group : Type 0 where
  pub world : World
  pub socket : ℕ → Socket
  pub count : ℕ

-- What a call of the system gives: a value, EAGAIN, EINTR, or another error.
pub data Outcome (A : Type 0) : Type 0 where
  done : A → Outcome A
  again interrupted failed : Outcome A

unfoldable pub get_ready : Group → ℕ → Kind → Bool
get_ready g id kind = (g.world.source (source_of id kind)).ready

unfoldable pub set_source : ℕ → Kind → Bool → Group → Group
set_source id kind value g = record g { world = source_set_ready g.world (source_of id kind) value }

abbrev pub update_socket : ℕ → Socket → Group → Group
update_socket id s g = record g { socket = put g.socket id s }

-- "if (error) this->error = true".
unfoldable pub set_error : Bool → ℕ → Group → Group
set_error error id g =
    if error then update_socket id (record (g.socket id) { error = true }) g else g

unfoldable pub close : Bool → ℕ → Group → Group
unfolding set_error set_source
close error id g =
    let marked = set_error error id g in
    let shut = update_socket id (record (marked.socket id) { fd = none }) marked in
    set_source id close_source true (
      set_source id close_write_source true (
        set_source id close_read_source true
          (set_source id write_source false (set_source id read_source false shut))))

unfoldable pub close_read : Bool → ℕ → Group → Group
unfolding close get_ready
close_read error id g =
    let marked = set_error error id g in
    let half = set_source id close_read_source true (set_source id read_source false marked) in
    if get_ready marked id close_read_source
    then marked
    else if get_ready half id close_write_source
    then close false id half
    else half

unfoldable pub close_write : Bool → ℕ → Group → Group
unfolding close get_ready
close_write error id g =
    let marked = set_error error id g in
    let half = set_source id close_write_source true (set_source id write_source false marked) in
    if get_ready marked id close_write_source
    then marked
    else if get_ready half id close_read_source
    then close false id half
    else half

abbrev pub is_nil {ℓ} : {A : Type ℓ} → List A → Bool
is_nil [] = true
is_nil (x ∷ xs) = false

-- `read`: the bytes that it gives. An empty result of the system is the end of the stream.
unfoldable pub read : Outcome (List ℕ) → ℕ → Group → List ℕ × Group
unfolding get_ready close_read set_source
read outcome id g =
    let result : List ℕ × Group = elim outcome [
      | done bytes ↦ (bytes, if is_nil bytes then close_read false id g else g)
      | again ↦ ([], set_source id read_source false g)
      | interrupted ↦ ([], g)
      | failed ↦ ([], g)
    ] in
    if get_ready g id close_read_source then ([], g) else result

-- `write`: the number of bytes that the system took.
unfoldable pub write : Outcome ℕ → ℕ → Group → ℕ × Group
unfolding get_ready set_source
write outcome id g =
    let result : ℕ × Group = elim outcome [
      | done size ↦ (size, g)
      | again ↦ (0, set_source id write_source false g)
      | interrupted ↦ (0, g)
      | failed ↦ (0, g)
    ] in
    if get_ready g id close_write_source then (0, g) else result

unfoldable pub writeto : Outcome ℕ → ℕ → Group → ℕ × Group
unfolding write
writeto outcome id g = write outcome id g

-- `readfrom`: the size of the datagram, which `MSG_TRUNC` gives whole, its bytes and the sender.
-- Where nothing came the address is empty; on a socket closed for reading it is not touched (`none`).
unfoldable pub readfrom :
    Outcome (ℕ × List ℕ × Address) → ℕ → Group → (ℕ × List ℕ × Option Address) × Group
unfolding get_ready set_source
readfrom outcome id g =
    let result : (ℕ × List ℕ × Option Address) × Group = elim outcome [
      | done (size, bytes, address) ↦ ((size, bytes, some address), g)
      | again ↦ ((0, [], some []), set_source id read_source false g)
      | interrupted ↦ ((0, [], some []), g)
      | failed ↦ ((0, [], some []), g)
    ] in
    if get_ready g id close_read_source then ((0, [], none), g) else result

-- `bind` and `connect`; their errors are logged only.
unfoldable pub bind : Address → ℕ → Group → Group
bind address id g = update_socket id (record (g.socket id) { address_local = address }) g

unfoldable pub connect : Address → ℕ → Group → Group
connect address id g =
    update_socket id (record (g.socket id) { connected = true; address_remote = address }) g
