-- ===== src/Main/Missing.antt =====
-- A parameter whose arguments are missing at the end of the command line.
use Prim.Native.String.{String}
use icetunnel.Prelude.{
  ℕ, zero, suc, ◌<◌, ◌≡◌, refl, ap, ◌∙◌, true, some, List, [], ◌∷◌, foldl, arith, length, get_elem?,
}
use icetunnel.Main.{
  Param, daemon, test, test_tcp_remote_address, test_udp_remote_address, tcp_backlog,
  tcp_receive_address_size, udp_receive_packet_size, udp_receive_address_size, udp_send_packet_size,
  udp_max_sent_buffer_size, udp_max_receive_buffer_size, udp_max_sent_measure_size,
  udp_resend_count, confirmation_resend_count, udp_max_send_loss_percent,
  udp_initial_send_interval_us, udp_resend_us, build_confirmations_us, build_udp_packets_us,
  udp_max_sent_measure_us, udp_listener, tcp_listener, test_listener, help, Parsers, Setup, params,
  args_count, apply_param, apply_all,
}
use icetunnel.Main.Order.{uses, apply_use, scan-uses}

missing_sets :
    (parsers : Parsers) (param : Param) (args : List String) (s : Setup)
    → length args < args_count param
    → (apply_param parsers param args s).fault ≡ true
unfolding apply_param
missing_sets parsers daemon args s less = absurd (omega (arith, less))
missing_sets parsers test args s less = absurd (omega (arith, less))
missing_sets parsers help args s less = absurd (omega (arith, less))
missing_sets parsers test_tcp_remote_address [] s less = refl
missing_sets parsers test_tcp_remote_address (value ∷ args) s less = absurd (omega (arith, less))
missing_sets parsers test_udp_remote_address [] s less = refl
missing_sets parsers test_udp_remote_address (value ∷ args) s less = absurd (omega (arith, less))
missing_sets parsers tcp_backlog [] s less = refl
missing_sets parsers tcp_backlog (value ∷ args) s less = absurd (omega (arith, less))
missing_sets parsers tcp_receive_address_size [] s less = refl
missing_sets parsers tcp_receive_address_size (value ∷ args) s less = absurd (omega (arith, less))
missing_sets parsers udp_receive_packet_size [] s less = refl
missing_sets parsers udp_receive_packet_size (value ∷ args) s less = absurd (omega (arith, less))
missing_sets parsers udp_receive_address_size [] s less = refl
missing_sets parsers udp_receive_address_size (value ∷ args) s less = absurd (omega (arith, less))
missing_sets parsers udp_send_packet_size [] s less = refl
missing_sets parsers udp_send_packet_size (value ∷ args) s less = absurd (omega (arith, less))
missing_sets parsers udp_max_sent_buffer_size [] s less = refl
missing_sets parsers udp_max_sent_buffer_size (value ∷ args) s less = absurd (omega (arith, less))
missing_sets parsers udp_max_receive_buffer_size [] s less = refl
missing_sets parsers udp_max_receive_buffer_size (value ∷ args) s less =
    absurd (omega (arith, less))
missing_sets parsers udp_max_sent_measure_size [] s less = refl
missing_sets parsers udp_max_sent_measure_size (value ∷ args) s less = absurd (omega (arith, less))
missing_sets parsers udp_resend_count [] s less = refl
missing_sets parsers udp_resend_count (value ∷ args) s less = absurd (omega (arith, less))
missing_sets parsers confirmation_resend_count [] s less = refl
missing_sets parsers confirmation_resend_count (value ∷ args) s less = absurd (omega (arith, less))
missing_sets parsers udp_max_send_loss_percent [] s less = refl
missing_sets parsers udp_max_send_loss_percent (value ∷ args) s less = absurd (omega (arith, less))
missing_sets parsers udp_initial_send_interval_us [] s less = refl
missing_sets parsers udp_initial_send_interval_us (value ∷ args) s less =
    absurd (omega (arith, less))
missing_sets parsers udp_resend_us [] s less = refl
missing_sets parsers udp_resend_us (value ∷ args) s less = absurd (omega (arith, less))
missing_sets parsers build_confirmations_us [] s less = refl
missing_sets parsers build_confirmations_us (value ∷ args) s less = absurd (omega (arith, less))
missing_sets parsers build_udp_packets_us [] s less = refl
missing_sets parsers build_udp_packets_us (value ∷ args) s less = absurd (omega (arith, less))
missing_sets parsers udp_max_sent_measure_us [] s less = refl
missing_sets parsers udp_max_sent_measure_us (value ∷ args) s less = absurd (omega (arith, less))
missing_sets parsers test_listener [] s less = refl
missing_sets parsers test_listener (value ∷ args) s less = absurd (omega (arith, less))
missing_sets parsers udp_listener [] s less = refl
missing_sets parsers udp_listener (value ∷ []) s less = refl
missing_sets parsers udp_listener (value ∷ value' ∷ args) s less = absurd (omega (arith, less))
missing_sets parsers tcp_listener [] s less = refl
missing_sets parsers tcp_listener (value ∷ []) s less = refl
missing_sets parsers tcp_listener (value ∷ value' ∷ args) s less = absurd (omega (arith, less))

fault_stays :
    (parsers : Parsers) (param : Param) (args : List String) (s : Setup)
    → s.fault ≡ true
    → (apply_param parsers param args s).fault ≡ true
unfolding apply_param
fault_stays parsers daemon args s h = h
fault_stays parsers test args s h = h
fault_stays parsers help args s h = h
fault_stays parsers test_tcp_remote_address [] s h = refl
fault_stays parsers test_tcp_remote_address (value ∷ args) s h = h
fault_stays parsers test_udp_remote_address [] s h = refl
fault_stays parsers test_udp_remote_address (value ∷ args) s h = h
fault_stays parsers tcp_backlog [] s h = refl
fault_stays parsers tcp_backlog (value ∷ args) s h = h
fault_stays parsers tcp_receive_address_size [] s h = refl
fault_stays parsers tcp_receive_address_size (value ∷ args) s h = h
fault_stays parsers udp_receive_packet_size [] s h = refl
fault_stays parsers udp_receive_packet_size (value ∷ args) s h = h
fault_stays parsers udp_receive_address_size [] s h = refl
fault_stays parsers udp_receive_address_size (value ∷ args) s h = h
fault_stays parsers udp_send_packet_size [] s h = refl
fault_stays parsers udp_send_packet_size (value ∷ args) s h = h
fault_stays parsers udp_max_sent_buffer_size [] s h = refl
fault_stays parsers udp_max_sent_buffer_size (value ∷ args) s h = h
fault_stays parsers udp_max_receive_buffer_size [] s h = refl
fault_stays parsers udp_max_receive_buffer_size (value ∷ args) s h = h
fault_stays parsers udp_max_sent_measure_size [] s h = refl
fault_stays parsers udp_max_sent_measure_size (value ∷ args) s h = h
fault_stays parsers udp_resend_count [] s h = refl
fault_stays parsers udp_resend_count (value ∷ args) s h = h
fault_stays parsers confirmation_resend_count [] s h = refl
fault_stays parsers confirmation_resend_count (value ∷ args) s h = h
fault_stays parsers udp_max_send_loss_percent [] s h = refl
fault_stays parsers udp_max_send_loss_percent (value ∷ args) s h = h
fault_stays parsers udp_initial_send_interval_us [] s h = refl
fault_stays parsers udp_initial_send_interval_us (value ∷ args) s h = h
fault_stays parsers udp_resend_us [] s h = refl
fault_stays parsers udp_resend_us (value ∷ args) s h = h
fault_stays parsers build_confirmations_us [] s h = refl
fault_stays parsers build_confirmations_us (value ∷ args) s h = h
fault_stays parsers build_udp_packets_us [] s h = refl
fault_stays parsers build_udp_packets_us (value ∷ args) s h = h
fault_stays parsers udp_max_sent_measure_us [] s h = refl
fault_stays parsers udp_max_sent_measure_us (value ∷ args) s h = h
fault_stays parsers test_listener [] s h = refl
fault_stays parsers test_listener (value ∷ args) s h = ground (arith, h)
fault_stays parsers udp_listener [] s h = refl
fault_stays parsers udp_listener (value ∷ []) s h = refl
fault_stays parsers udp_listener (value ∷ value' ∷ args) s h = ground (arith, h)
fault_stays parsers tcp_listener [] s h = refl
fault_stays parsers tcp_listener (value ∷ []) s h = refl
fault_stays parsers tcp_listener (value ∷ value' ∷ args) s h = ground (arith, h)

in_params : (param : Param) → (k : ℕ) × (get_elem? params k ≡ some param)
in_params daemon = (0, refl)
in_params test = (1, refl)
in_params test_tcp_remote_address = (2, refl)
in_params test_udp_remote_address = (3, refl)
in_params tcp_backlog = (4, refl)
in_params tcp_receive_address_size = (5, refl)
in_params udp_receive_packet_size = (6, refl)
in_params udp_receive_address_size = (7, refl)
in_params udp_send_packet_size = (8, refl)
in_params udp_max_sent_buffer_size = (9, refl)
in_params udp_max_receive_buffer_size = (10, refl)
in_params udp_max_sent_measure_size = (11, refl)
in_params udp_resend_count = (12, refl)
in_params confirmation_resend_count = (13, refl)
in_params udp_max_send_loss_percent = (14, refl)
in_params udp_initial_send_interval_us = (15, refl)
in_params udp_resend_us = (16, refl)
in_params build_confirmations_us = (17, refl)
in_params build_udp_packets_us = (18, refl)
in_params udp_max_sent_measure_us = (19, refl)
in_params udp_listener = (20, refl)
in_params tcp_listener = (21, refl)
in_params test_listener = (22, refl)
in_params help = (23, refl)

uses_stay :
    (parsers : Parsers) (l : List (Param × List String)) (s : Setup)
    → s.fault ≡ true
    → (foldl (apply_use parsers) s l).fault ≡ true
uses_stay parsers [] s h = h
uses_stay parsers ((param, args) ∷ l) s h =
    uses_stay parsers l _ (fault_stays parsers param args s h)

uses_set :
    (parsers : Parsers) (l : List (Param × List String)) (i : ℕ) (param : Param)
    (args : List String) (s : Setup)
    → get_elem? l i ≡ some (param, args)
    → length args < args_count param
    → (foldl (apply_use parsers) s l).fault ≡ true
uses_set parsers [] i param args s e less = cc
uses_set parsers (u ∷ l) zero param args s e less =
    let same : u ≡ (param, args) = cc e in
    uses_stay parsers l (apply_use parsers s u)
      (ap (λ v. (apply_use parsers s v).fault) same ∙ missing_sets parsers param args s less)
uses_set parsers (u ∷ l) (suc i) param args s e less =
    uses_set parsers l i param args (apply_use parsers s u) e less

table_stays :
    (parsers : Parsers) (table : List Param) (args : List String) (s : Setup)
    → s.fault ≡ true
    → (apply_all parsers table args s).fault ≡ true
unfolding apply_all
table_stays parsers [] args s h = h
table_stays parsers (param ∷ table) args s h = table_stays parsers table args _ (
    ap (λ t. t.fault) (scan-uses parsers param zero args s)
    ∙ uses_stay parsers (uses param zero args) s h)

table_sets :
    (parsers : Parsers) (table : List Param) (args : List String) (s : Setup) (k i : ℕ)
    (param found : Param) (given : List String)
    → get_elem? table k ≡ some param
    → get_elem? (uses param zero args) i ≡ some (found, given)
    → length given < args_count found
    → (apply_all parsers table args s).fault ≡ true
unfolding apply_all
table_sets parsers [] args s k i param found given e there less = cc
table_sets parsers (first ∷ table) args s zero i param found given e there less =
    let same : first ≡ param = cc e in
    table_stays parsers table args _ (
      ap (λ t. t.fault) (scan-uses parsers first zero args s)
      ∙ uses_set parsers (uses first zero args) i found given s
          (ap (λ p. get_elem? (uses p zero args) i) same ∙ there) less)
table_sets parsers (first ∷ table) args s (suc k) i param found given e there less =
    table_sets parsers table args _ k i param found given e there less

-- A parameter that stands on the command line with fewer arguments behind it than the table says has
-- arguments read that are not there, whatever the other parameters are.
pub apply_all_missing :
    (parsers : Parsers) (args : List String) (s : Setup) (param found : Param) (i : ℕ)
    (given : List String)
    → get_elem? (uses param zero args) i ≡ some (found, given)
    → length given < args_count found
    → (apply_all parsers params args s).fault ≡ true
apply_all_missing parsers args s param found i given there less =
    let (k, e) = in_params param in
    table_sets parsers params args s k i param found given e there less
