-- ===== src/Main/Order.antt =====
-- The order of the parameters on the command line.
use Prim.Native.String.{String}
use text.Mathlib.Text.{◌==◌ as ◌=?=◌}
use icetunnel.Prelude.{
  ℕ, zero, suc, ◌≡◌, refl, sym, ap, ◌∙◌, Bool, true, false, Option, none, some, List, [], ◌∷◌,
  foldl, if◌then◌else◌, take,
}
use icetunnel.Main.{
  Param, daemon, test, help, test_tcp_remote_address, test_udp_remote_address, tcp_backlog,
  tcp_receive_address_size, udp_receive_packet_size, udp_receive_address_size, udp_send_packet_size,
  udp_max_sent_buffer_size, udp_max_receive_buffer_size, udp_max_sent_measure_size,
  udp_resend_count, confirmation_resend_count, udp_max_send_loss_percent,
  udp_initial_send_interval_us, udp_resend_us, build_confirmations_us, build_udp_packets_us,
  udp_max_sent_measure_us, test_listener, udp_listener, tcp_listener, Parsers, Setup, params,
  option_name, args_count, find_param, apply_param, scan, apply_all,
}

-- A parameter reads no more arguments than its entry of the table says.
apply_param-take :
    (parsers : Parsers) (param : Param) (args : List String) (s : Setup)
    → apply_param parsers param args s ≡ apply_param parsers param (take (args_count param) args) s
unfolding apply_param
apply_param-take parsers daemon args s = refl
apply_param-take parsers test args s = refl
apply_param-take parsers help args s = refl
apply_param-take parsers test_tcp_remote_address [] s = refl
apply_param-take parsers test_tcp_remote_address (value ∷ args) s = refl
apply_param-take parsers test_udp_remote_address [] s = refl
apply_param-take parsers test_udp_remote_address (value ∷ args) s = refl
apply_param-take parsers tcp_backlog [] s = refl
apply_param-take parsers tcp_backlog (value ∷ args) s = refl
apply_param-take parsers tcp_receive_address_size [] s = refl
apply_param-take parsers tcp_receive_address_size (value ∷ args) s = refl
apply_param-take parsers udp_receive_packet_size [] s = refl
apply_param-take parsers udp_receive_packet_size (value ∷ args) s = refl
apply_param-take parsers udp_receive_address_size [] s = refl
apply_param-take parsers udp_receive_address_size (value ∷ args) s = refl
apply_param-take parsers udp_send_packet_size [] s = refl
apply_param-take parsers udp_send_packet_size (value ∷ args) s = refl
apply_param-take parsers udp_max_sent_buffer_size [] s = refl
apply_param-take parsers udp_max_sent_buffer_size (value ∷ args) s = refl
apply_param-take parsers udp_max_receive_buffer_size [] s = refl
apply_param-take parsers udp_max_receive_buffer_size (value ∷ args) s = refl
apply_param-take parsers udp_max_sent_measure_size [] s = refl
apply_param-take parsers udp_max_sent_measure_size (value ∷ args) s = refl
apply_param-take parsers udp_resend_count [] s = refl
apply_param-take parsers udp_resend_count (value ∷ args) s = refl
apply_param-take parsers confirmation_resend_count [] s = refl
apply_param-take parsers confirmation_resend_count (value ∷ args) s = refl
apply_param-take parsers udp_max_send_loss_percent [] s = refl
apply_param-take parsers udp_max_send_loss_percent (value ∷ args) s = refl
apply_param-take parsers udp_initial_send_interval_us [] s = refl
apply_param-take parsers udp_initial_send_interval_us (value ∷ args) s = refl
apply_param-take parsers udp_resend_us [] s = refl
apply_param-take parsers udp_resend_us (value ∷ args) s = refl
apply_param-take parsers build_confirmations_us [] s = refl
apply_param-take parsers build_confirmations_us (value ∷ args) s = refl
apply_param-take parsers build_udp_packets_us [] s = refl
apply_param-take parsers build_udp_packets_us (value ∷ args) s = refl
apply_param-take parsers udp_max_sent_measure_us [] s = refl
apply_param-take parsers udp_max_sent_measure_us (value ∷ args) s = refl
apply_param-take parsers test_listener [] s = refl
apply_param-take parsers test_listener (value ∷ args) s = refl
apply_param-take parsers udp_listener [] s = refl
apply_param-take parsers udp_listener (value ∷ []) s = refl
apply_param-take parsers udp_listener (value ∷ value' ∷ args) s = refl
apply_param-take parsers tcp_listener [] s = refl
apply_param-take parsers tcp_listener (value ∷ []) s = refl
apply_param-take parsers tcp_listener (value ∷ value' ∷ args) s = refl

-- Where a parameter stands on the command line: its arguments each time.
abbrev pub uses : Param → ℕ → List String → List (Param × List String)
uses param skip [] = []
uses param (suc skip) (arg ∷ args) = uses param skip args
uses param zero (arg ∷ args) = elim (find_param arg params) [
  | none ↦ uses param zero args
  | some found ↦
      let rest = uses param (args_count found) args in
      if option_name found =?= option_name param
      then (found, take (args_count found) args) ∷ rest
      else rest
]

abbrev pub apply_use : Parsers → Setup → Param × List String → Setup
apply_use parsers s (param, args) = apply_param parsers param args s

pub scan-uses :
    (parsers : Parsers) (param : Param) (skip : ℕ) (args : List String) (s : Setup)
    → scan parsers param skip args s ≡ foldl (apply_use parsers) s (uses param skip args)
unfolding scan
scan-uses parsers param skip [] s = refl
scan-uses parsers param (suc skip) (arg ∷ args) s = scan-uses parsers param skip args s
scan-uses parsers param zero (arg ∷ args) s =
    found-uses (λ k s'. scan-uses parsers param k args s') (find_param arg params)
  where
    found-uses :
        ((k : ℕ) (s' : Setup)
          → scan parsers param k args s' ≡ foldl (apply_use parsers) s' (uses param k args))
        → (o : Option Param)
        → elim o as (λ x. Setup) [
          | none ↦ scan parsers param zero args s
          | some found ↦ scan parsers param (args_count found) args (
              if option_name found =?= option_name param
              then apply_param parsers found args s
              else s)
        ]
          ≡ foldl (apply_use parsers) s (elim o [
            | none ↦ uses param zero args
            | some found ↦
                let rest = uses param (args_count found) args in
                if option_name found =?= option_name param
                then (found, take (args_count found) args) ∷ rest
                else rest
          ])
    found-uses again none = again zero s
    found-uses again (some found) = chosen (option_name found =?= option_name param)
      where
        chosen :
            (b : Bool)
            → scan parsers param
                (args_count found)
                args
                (if b then apply_param parsers found args s else s)
              ≡ foldl (apply_use parsers) s (
                  if b
                  then (found, take (args_count found) args) ∷ uses param (args_count found) args
                  else uses param (args_count found) args)
        chosen true =
            ap (λ s'. scan parsers param (args_count found) args s')
              (apply_param-take parsers found args s)
            ∙ again (args_count found) _
        chosen false = again (args_count found) s

apply_all-uses :
    (parsers : Parsers) (table : List Param) (args args' : List String) (s : Setup)
    → ((param : Param) → uses param zero args ≡ uses param zero args')
    → apply_all parsers table args s ≡ apply_all parsers table args' s
unfolding apply_all
apply_all-uses parsers [] args args' s same = refl
apply_all-uses parsers (param ∷ table) args args' s same =
    ap (λ s'. apply_all parsers table args s')
      (scan-uses parsers param zero args s
        ∙ ap (λ l. foldl (apply_use parsers) s l) (same param)
        ∙ sym (scan-uses parsers param zero args' s))
    ∙ apply_all-uses parsers table args args' _ same

-- Two command lines that have, for each parameter, the same arguments in the same order set the
-- server up in the same way: the order of different parameters does not matter.
pub apply_all_order :
    (parsers : Parsers) (args args' : List String) (s : Setup)
    → ((param : Param) → uses param zero args ≡ uses param zero args')
    → apply_all parsers params args s ≡ apply_all parsers params args' s
apply_all_order parsers args args' s same = apply_all-uses parsers params args args' s same
