-- ===== src/Main.antt =====
-- main.cpp: the parameters of the command line, and `init`. What it prints is left out, but for the
-- question whether it shows the help.
pub mod Order
pub mod Missing
use Prim.Native.String.{String, ◌++◌ as ◌<>◌}
use text.Mathlib.Text.{◌==◌ as ◌=?=◌}
use icetunnel.Prelude.{
  ℕ, zero, suc, ◌+◌, Bool, true, false, not, ◌&&◌, ◌||◌, Option, none, some, List, [], ◌∷◌, ◌++◌,
  if◌then◌else◌, ltb, leb, ◌==◌, length,
}
use icetunnel.Address.{Address}
use icetunnel.Connection.State.{Config, is_nil}
use icetunnel.Server.{Server, create_udp_listener, create_tcp_listener}

-- `params::params`, in the order of the table.
pub data Param : Type 0 where
  daemon test test_tcp_remote_address test_udp_remote_address tcp_backlog : Param
  tcp_receive_address_size udp_receive_packet_size udp_receive_address_size : Param
  udp_send_packet_size udp_max_sent_buffer_size udp_max_receive_buffer_size : Param
  udp_max_sent_measure_size udp_resend_count confirmation_resend_count : Param
  udp_max_send_loss_percent udp_initial_send_interval_us udp_resend_us : Param
  build_confirmations_us build_udp_packets_us udp_max_sent_measure_us : Param
  udp_listener tcp_listener test_listener help : Param

abbrev pub params : List Param
params =
    daemon ∷ test ∷ test_tcp_remote_address ∷ test_udp_remote_address ∷ tcp_backlog
    ∷ tcp_receive_address_size ∷ udp_receive_packet_size ∷ udp_receive_address_size
    ∷ udp_send_packet_size ∷ udp_max_sent_buffer_size ∷ udp_max_receive_buffer_size
    ∷ udp_max_sent_measure_size ∷ udp_resend_count ∷ confirmation_resend_count
    ∷ udp_max_send_loss_percent ∷ udp_initial_send_interval_us ∷ udp_resend_us
    ∷ build_confirmations_us ∷ build_udp_packets_us ∷ udp_max_sent_measure_us ∷ udp_listener
    ∷ tcp_listener ∷ test_listener ∷ help ∷ []

-- "--" and the name, whose underscores the constructor of `Param` has made dashes.
abbrev pub option_name : Param → String
option_name daemon = "--daemon"
option_name test = "--test"
option_name test_tcp_remote_address = "--test-tcp-remote-address"
option_name test_udp_remote_address = "--test-udp-remote-address"
option_name tcp_backlog = "--tcp-backlog"
option_name tcp_receive_address_size = "--tcp-receive-address-size"
option_name udp_receive_packet_size = "--udp-receive-packet-size"
option_name udp_receive_address_size = "--udp-receive-address-size"
option_name udp_send_packet_size = "--udp-send-packet-size"
option_name udp_max_sent_buffer_size = "--udp-max-sent-buffer-size"
option_name udp_max_receive_buffer_size = "--udp-max-receive-buffer-size"
option_name udp_max_sent_measure_size = "--udp-max-sent-measure-size"
option_name udp_resend_count = "--udp-resend-count"
option_name confirmation_resend_count = "--confirmation-resend-count"
option_name udp_max_send_loss_percent = "--udp-max-send-loss-percent"
option_name udp_initial_send_interval_us = "--udp-initial-send-interval-us"
option_name udp_resend_us = "--udp-resend-us"
option_name build_confirmations_us = "--build-confirmations-us"
option_name build_udp_packets_us = "--build-udp-packets-us"
option_name udp_max_sent_measure_us = "--udp-max-sent-measure-us"
option_name udp_listener = "--udp-listener"
option_name tcp_listener = "--tcp-listener"
option_name test_listener = "--test-listener"
option_name help = "--help"

abbrev pub args_count : Param → ℕ
args_count daemon = 0
args_count test = 0
args_count help = 0
args_count udp_listener = 2
args_count tcp_listener = 2
args_count param = 1

-- The first entry of the table with that name.
unfoldable pub find_param : String → List Param → Option Param
find_param arg [] = none
find_param arg (param ∷ params) =
    let rest = find_param arg params in if option_name param =?= arg then some param else rest

-- What the program takes from the library: `atoi` and `atoll`, for the texts that give no negative
-- number, `atof`, and `Address::fromString`.
pub record Parsers : Type 0 where
  pub to_int : String → ℕ
  pub to_double : String → ℕ
  pub to_address : String → Option Address

-- The server with the parameters that its model does not have, `streams` of the log, and the
-- addresses of the test listeners. `fault` tells that an argument behind the last one was read.
pub record Setup : Type 0 where
  pub server : Server
  pub logs : Bool
  pub test : Bool
  pub test_tcp_remote_address : Address
  pub test_udp_remote_address : Address
  pub tcp_backlog : ℕ
  pub tcp_receive_address_size : ℕ
  pub udp_receive_packet_size : ℕ
  pub udp_receive_address_size : ℕ
  pub udp_max_send_loss_percent : ℕ
  pub test_listeners : List Address
  pub fault : Bool

abbrev pub or_old : Option Address → Address → Address
or_old none old = old
or_old (some address) old = address

-- The function of a parameter, with the arguments behind its name; with fewer than it reads, what
-- follows in `argv` is not there.
unfoldable pub apply_param : Parsers → Param → List String → Setup → Setup
apply_param parsers daemon args s = record s { logs = false }
apply_param parsers test args s = record s { test = true }
apply_param parsers help args s = s
apply_param parsers udp_listener (udp ∷ tcp ∷ args) s = elim (parsers.to_address udp) [
  | none ↦ s
  | some udp_address ↦ elim (parsers.to_address tcp) [
    | none ↦ s
    | some tcp_address ↦ record s { server = create_udp_listener udp_address tcp_address s.server }
  ]
]
apply_param parsers tcp_listener (tcp ∷ udp ∷ args) s = elim (parsers.to_address tcp) [
  | none ↦ s
  | some tcp_address ↦ elim (parsers.to_address udp) [
    | none ↦ s
    | some udp_address ↦ record s { server = create_tcp_listener tcp_address udp_address s.server }
  ]
]
apply_param parsers test_listener (tcp ∷ args) s = elim (parsers.to_address tcp) [
  | none ↦ s
  | some address ↦ record s {
    server = record s.server { last_object_index = s.server.last_object_index + 1 };
    test_listeners = s.test_listeners ++ address ∷ [];
  }
]
apply_param parsers test_tcp_remote_address (value ∷ args) s = record s {
  test_tcp_remote_address = or_old (parsers.to_address value) s.test_tcp_remote_address;
}
apply_param parsers test_udp_remote_address (value ∷ args) s = record s {
  test_udp_remote_address = or_old (parsers.to_address value) s.test_udp_remote_address;
}
apply_param parsers tcp_backlog (value ∷ args) s = record s { tcp_backlog = parsers.to_int value }
apply_param parsers tcp_receive_address_size (value ∷ args) s = record s {
  tcp_receive_address_size = parsers.to_int value;
}
apply_param parsers udp_receive_packet_size (value ∷ args) s = record s {
  udp_receive_packet_size = parsers.to_int value;
}
apply_param parsers udp_receive_address_size (value ∷ args) s = record s {
  udp_receive_address_size = parsers.to_int value;
}
apply_param parsers udp_max_send_loss_percent (value ∷ args) s = record s {
  udp_max_send_loss_percent = parsers.to_double value;
}
apply_param parsers udp_initial_send_interval_us (value ∷ args) s = record s {
  server = record s.server { udp_initial_send_interval_us = parsers.to_int value };
}
apply_param parsers param (value ∷ args) s =
    let n = parsers.to_int value in
    let c = s.server.config in
    let config = λ (new : Config). record s { server = record s.server { config = new } } in
    elim param [
      | udp_send_packet_size ↦ config (record c { udp_send_packet_size = n })
      | udp_max_sent_buffer_size ↦ config (record c { udp_max_sent_buffer_size = n })
      | udp_max_receive_buffer_size ↦ config (record c { udp_max_receive_buffer_size = n })
      | udp_max_sent_measure_size ↦ config (record c { udp_max_sent_measure_size = n })
      | udp_resend_count ↦ config (record c { udp_resend_count = n })
      | confirmation_resend_count ↦ config (record c { confirmation_resend_count = n })
      | udp_resend_us ↦ config (record c { udp_resend_us = n })
      | build_confirmations_us ↦ config (record c { build_confirmations_us = n })
      | build_udp_packets_us ↦ config (record c { build_udp_packets_us = n })
      | udp_max_sent_measure_us ↦ config (record c { udp_max_sent_measure_us = n })
      | other ↦ record s { fault = true }
    ]
apply_param parsers param args s = record s { fault = true }

-- The two inner loops for one entry of the table: `skip` arguments are still to be passed over. Each
-- argument is looked up, and the parameter takes effect where it is that entry.
unfoldable pub scan : Parsers → Param → ℕ → List String → Setup → Setup
unfolding find_param apply_param
scan parsers param skip [] s = s
scan parsers param (suc skip) (arg ∷ args) s = scan parsers param skip args s
scan parsers param zero (arg ∷ args) s = elim (find_param arg params) [
  | none ↦ scan parsers param zero args s
  | some found ↦
      scan parsers param (args_count found) args
        (if option_name found =?= option_name param then apply_param parsers found args s else s)
]

-- The outer loop.
unfoldable pub apply_all : Parsers → List Param → List String → Setup → Setup
unfolding scan
apply_all parsers [] args s = s
apply_all parsers (param ∷ rest) args s =
    apply_all parsers rest args (scan parsers param zero args s)

-- `processed`: the arguments that belong to a parameter, or `help` was asked for.
unfoldable pub needs_help : ℕ → List String → Bool
unfolding find_param
needs_help skip [] = false
needs_help (suc skip) (arg ∷ args) = needs_help skip args
needs_help zero (arg ∷ args) = elim (find_param arg params) [
  | none ↦ true
  | some found ↦
      let rest = needs_help (args_count found) args in
      option_name found =?= option_name help || rest
]

-- `init`: the server as it is set up, whether the help is shown, and whether the program goes on.
-- `args` is `argv` without the name of the program.
unfoldable pub init : Parsers → List String → Setup → Setup × Bool × Bool
unfolding apply_all needs_help
init parsers args s =
    let done = apply_all parsers params args s in
    (
      done,
      is_nil args || needs_help zero args,
      done.test
          || not (is_nil done.server.tcp_listeners)
          || not (is_nil done.server.udp_listeners)
          || not (is_nil done.test_listeners),
    )
