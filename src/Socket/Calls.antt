-- ===== src/Socket/Calls.antt =====
-- The operations of sockets together, as a list of calls.
pub mod Kept
pub mod Closed
use icetunnel.Prelude.{ℕ, Bool, false, Option, none, List, [], ◌∷◌}
use icetunnel.Address.{Address}
use icetunnel.Event.Changes.{new_world}
use icetunnel.Socket.{
  SocketType, udp, Socket, Group, Outcome, close, close_read, close_write, read, write, writeto,
  readfrom, bind, connect,
}
use icetunnel.Socket.Open.{Opening, Signals, new_socket, destroy, accept, poll}

-- One call on a socket, with what the system answers.
pub data Call : Type 0 where
  opens : Opening → SocketType → ℕ → Option ℕ → Call
  destroys : Call
  binds connects : Address → Call
  closes closes_read closes_write : Bool → Call
  reads : Outcome (List ℕ) → Call
  writes writes_to : Outcome ℕ → Call
  reads_from : Outcome (ℕ × List ℕ × Address) → Call
  accepts : Outcome (ℕ × Address) → Opening → ℕ → Call
  polls : (ℕ → Option (List (ℕ × Signals))) → ℕ → ℕ → Call

unfoldable pub apply_call : ℕ → Call → Group → Group
apply_call id (Call.opens opening type size given) g = new_socket opening type size given id g
apply_call id Call.destroys g = destroy id g
apply_call id (Call.binds address) g = bind address id g
apply_call id (Call.connects address) g = connect address id g
apply_call id (Call.closes error) g = close error id g
apply_call id (Call.closes_read error) g = close_read error id g
apply_call id (Call.closes_write error) g = close_write error id g
apply_call id (Call.reads outcome) g = (read outcome id g).1
apply_call id (Call.writes outcome) g = (write outcome id g).1
apply_call id (Call.writes_to outcome) g = (writeto outcome id g).1
apply_call id (Call.reads_from outcome) g = (readfrom outcome id g).1
apply_call id (Call.accepts outcome opening client) g = (accept outcome opening client id g).0
apply_call id (Call.polls wait duration_us draw) g = poll wait duration_us draw g

unfoldable pub run_calls : List (ℕ × Call) → Group → Group
unfolding apply_call
run_calls [] g = g
run_calls ((id, call) ∷ calls) g = run_calls calls (apply_call id call g)

abbrev pub no_socket : Socket
no_socket = record {
  type = udp;
  fd = none;
  address_local = [];
  address_remote = [];
  last_client_index = 0;
  connected = false;
  error = false;
  receive_address_size = 0;
}

-- `Group::Group`.
abbrev pub new_group : Group
new_group = record { world = new_world; socket = λ id. no_socket; count = 0 }
