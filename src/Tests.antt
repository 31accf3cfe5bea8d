-- ===== src/Tests.antt =====
-- The theorems of the packets, the events, the addresses and the server, at concrete inputs.
mod Tunnel
mod Delivered
mod Ends
mod Sockets
mod CommandLine
use mathlib.Core.List.{Perm}
use icetunnel.Prelude.{
  ℕ, ◌+◌, ◌*◌, ◌^◌, ◌/◌, ◌≤◌, ◌<◌, ◌≡◌, ◌≢◌, ◌↔◌, refl, Bool, true, false, not, ◌&&◌, ◌||◌, Option,
  none, some, List, [], ◌∷◌, ◌++◌, arith, ◌==◌, length, get_or, All, is_neg, foldl, max,
}
use icetunnel.Address.{Address, same, before}
use icetunnel.Address.Order.{before_order, before_total}
use icetunnel.Packet.{
  PacketType, data_packet, hello, encode, get_type, get_index, get_data, get_size, check_crc32,
  check_crc32_buffer,
}
use icetunnel.Packet.Bytes.{IsByte, to_bytes, of_bytes}
use icetunnel.Packet.Crc.{table, crc32}
use icetunnel.Packet.RoundTrip.{body, encode_lem}
use icetunnel.Packet.Check.{encode_reads, check_crc32_damaged, check_crc32_short}
use icetunnel.Packet.Detect.{table_lem, shift_bits, crc32_changed, crc32-append}
use icetunnel.Packet.Pair.{pack_int_pair, unpack_int_pair, unpack_loop}
use icetunnel.Packet.Pair.RoundTrip.{unpack-pack}
use icetunnel.Packet.Pair.Sound.{unpack_int_pair_takes, unpack_negative}
use icetunnel.Event.{World, mem, raise, set_time}
use icetunnel.Event.Timer
use icetunnel.Event.Timer.{Time, earlier}
use icetunnel.Event.Invariant.{IsLinked}
use icetunnel.Event.Changes.{Change, apply, new_world, changes-IsLinked}
use icetunnel.Event.Manager.{shuffle, select, do_events, is_due}
use icetunnel.Event.Manager.Shuffle.{shuffle-perm}
use icetunnel.Event.Manager.Select.{select_lem}
use icetunnel.Event.Manager.Contract.{do_events_lem, do_events_raises}
use icetunnel.Event.Manager.Raised.{IsDistinct, IsSteady, set_time-IsSteady}

abbrev payload : List ℕ
payload = 104 ∷ 105 ∷ []

encode_reads_example :
    let raw = encode data_packet 7 payload [] in
    (check_crc32 raw ≡ true)
    × (get_type raw ≡ data_packet)
    × (get_index raw ≡ 7)
    × (get_data raw ≡ payload)
    × (get_size raw ≡ length payload)
encode_reads_example =
    encode_reads data_packet 7 payload [] tt (omega arith) (omega arith, (omega arith, tt))

encode_lem_example :
    encode data_packet 7 payload []
    ≡ to_bytes 4 (crc32 (body data_packet 7 payload) 0) ++ body data_packet 7 payload
encode_lem_example = encode_lem data_packet 7 payload []

good_packet :
    check_crc32 (to_bytes 4 (crc32 (104 ∷ 105 ∷ []) 0) ++ ((104 ∷ []) ++ (105 ∷ []))) ≡ true
unfolding check_crc32 to_bytes of_bytes
good_packet = refl

check_crc32_damaged_example :
    check_crc32 (to_bytes 4 (crc32 (104 ∷ 105 ∷ []) 0) ++ ((104 ∷ []) ++ (106 ∷ []))) ≡ false
check_crc32_damaged_example =
    check_crc32_damaged (crc32 (104 ∷ 105 ∷ []) 0) (104 ∷ []) [] 105 106 (omega arith, tt) tt
      (omega arith) (omega arith) (omega arith) good_packet

check_crc32_short_example :
    (check_crc32 (1 ∷ 2 ∷ 3 ∷ []) ≡ true)
    × (get_type (1 ∷ 2 ∷ 3 ∷ []) ≡ hello)
    × (get_index (1 ∷ 2 ∷ 3 ∷ []) ≡ 0)
    × (check_crc32_buffer (1 ∷ 2 ∷ 3 ∷ []) ≡ false)
check_crc32_short_example = check_crc32_short (1 ∷ 2 ∷ 3 ∷ []) (omega arith)

table_lem_example : get_or table 200 0 ≡ shift_bits 8 (200 * 2 ^ 24)
table_lem_example = table_lem 200 (omega arith)

crc32_changed_example : crc32 ((1 ∷ []) ++ (2 ∷ 3 ∷ [])) 0 ≢ crc32 ((1 ∷ []) ++ (7 ∷ 3 ∷ [])) 0
crc32_changed_example =
    crc32_changed (1 ∷ []) (3 ∷ []) 0 2 7 (omega arith, tt) (omega arith, tt) (omega arith)
      (omega arith) (omega arith) (omega arith)

crc32-append_example : crc32 ((1 ∷ 2 ∷ []) ++ (3 ∷ [])) 5 ≡ crc32 (3 ∷ []) (crc32 (1 ∷ 2 ∷ []) 5)
crc32-append_example =
    crc32-append (1 ∷ 2 ∷ []) (3 ∷ []) 5 (omega arith, (omega arith, tt)) (omega arith)

unpack-pack_example :
    (written : List ℕ) × (left : ℕ) × (pack_int_pair 300 7 12 ≡ some (written, left))
    × (length written + left ≡ 12)
    × (2 ≤ length written)
    × All IsByte written
    × (unpack_int_pair (written ++ (9 ∷ [])) ≡ some (300, 7, 9 ∷ []))
unpack-pack_example = unpack-pack 300 7 12 (9 ∷ []) (omega arith) (omega arith) (omega arith)

two_bytes : unpack_int_pair (5 ∷ 6 ∷ 7 ∷ []) ≡ some (5, 6, 7 ∷ [])
unfolding unpack_int_pair unpack_loop
two_bytes = refl

unpack_int_pair_takes_example :
    (5 < 2 ^ 32)
    × (6 < 2 ^ 32)
    × (length {A = ℕ} (7 ∷ []) + 2 ≤ length {A = ℕ} (5 ∷ 6 ∷ 7 ∷ []))
    × (length {A = ℕ} (5 ∷ 6 ∷ 7 ∷ []) ≤ length {A = ℕ} (7 ∷ []) + 12)
unpack_int_pair_takes_example = unpack_int_pair_takes (5 ∷ 6 ∷ 7 ∷ []) 5 6 (7 ∷ []) two_bytes

unpack_negative_example :
    (a : ℕ) × (unpack_int_pair ((8 + 128) ∷ (0 + 128) ∷ (0 + 128) ∷ (0 + 128) ∷ 0 ∷ 1 ∷ [])
      ≡ some (a, 1, []))
    × (is_neg a ≡ true)
unpack_negative_example =
    unpack_negative 8 0 0 0 0 1 [] (omega arith) (omega arith) (omega arith) (omega arith)
      (omega arith) (omega arith) (omega arith)

-- Two events, of the priorities 0 and 1, both due at 50.
abbrev calls : List Change
calls =
    Change.inits 0 0
    ∷ Change.inits 1 1
    ∷ Change.sets_time 0 (some 40) false
    ∷ Change.sets_time 1 (some 50) false
    ∷ []

abbrev two_events : World
two_events = foldl apply new_world calls

changes-IsLinked_example : IsLinked (foldl apply new_world calls)
changes-IsLinked_example = changes-IsLinked calls

-- A handler that puts its event back to wait until 90, as a timer does.
abbrev repeats : World → ℕ → Time → World
repeats w id planned = set_time w id (some 90) false

repeats-IsSteady : IsSteady repeats
repeats-IsSteady = set_time-IsSteady (some 90) false

abbrev draws : ℕ → ℕ × Bool
draws n = (n, true)

do_events_lem_example :
    let out = do_events draws repeats two_events 60 in
    ((raised : List ℕ) × (out.0
        ≡ foldl
            (raise repeats)
            (record two_events { list_raise = shuffle draws (select two_events 60) })
            raised)
      × IsDistinct raised
      × ((j : ℕ) → mem j raised ≡ true → mem j (select two_events 60) ≡ true))
    × ((out.0).list_raise ≡ [])
    × ((j t : ℕ)
        → mem j (out.0).list_ready ≡ true
        → ((out.0).event j).time_us ≡ some t
        → (s : ℕ) × (out.1 ≡ some s) × (s ≤ t))
    × ((s : ℕ)
        → out.1 ≡ some s
        → (j : ℕ) × (mem j (out.0).list_ready ≡ true) × (((out.0).event j).time_us ≡ some s))
do_events_lem_example =
    do_events_lem draws repeats two_events 60 repeats-IsSteady.calm (changes-IsLinked calls)

do_events_raises_example :
    (raised : List ℕ) × ((do_events draws repeats two_events 60).0
      ≡ foldl
          (raise repeats)
          (record two_events { list_raise = shuffle draws (select two_events 60) })
          raised)
    × IsDistinct raised
    × ((j : ℕ) → mem j raised ≡ mem j (select two_events 60))
do_events_raises_example =
    do_events_raises draws repeats two_events 60 repeats-IsSteady (changes-IsLinked calls)

select_lem_example : (mem 1 (select two_events 60) ≡ true) ↔ (
    (mem 1 two_events.list_ready ≡ true)
    × (is_due 60 (two_events.event 1).time_us ≡ true)
    × ((k : ℕ)
        → mem k two_events.list_ready ≡ true
        → is_due 60 (two_events.event k).time_us ≡ true
        → (two_events.event k).priority ≤ (two_events.event 1).priority))
select_lem_example = select_lem two_events 60 1

shuffle-perm_example : Perm (shuffle draws (4 ∷ 2 ∷ 9 ∷ [])) (4 ∷ 2 ∷ 9 ∷ [])
shuffle-perm_example = shuffle-perm draws (4 ∷ 2 ∷ 9 ∷ [])

set_time_lem_example :
    (Timer.set_time false (some 5) (some 9) ≡ earlier (some 5) (some 9))
    × (Timer.set_time true (some 5) (some 9) ≡ some 9)
set_time_lem_example = Timer.set_time_lem (some 5) (some 9)

before_order_example :
    (before (1 ∷ []) (1 ∷ []) ≡ false)
    × (before (1 ∷ []) (2 ∷ []) ≡ true
        → before (2 ∷ []) (0 ∷ 0 ∷ []) ≡ true
        → before (1 ∷ []) (0 ∷ 0 ∷ []) ≡ true)
before_order_example = before_order (1 ∷ []) (2 ∷ []) (0 ∷ 0 ∷ [])

before_total_example :
    ((same (1 ∷ 2 ∷ []) (1 ∷ 3 ∷ []) ≡ true) ↔ (◌≡◌ {A = Address} (1 ∷ 2 ∷ []) (1 ∷ 3 ∷ [])))
    × ((before (1 ∷ 2 ∷ []) (1 ∷ 3 ∷ []) || before (1 ∷ 3 ∷ []) (1 ∷ 2 ∷ []))
        ≡ not (same (1 ∷ 2 ∷ []) (1 ∷ 3 ∷ [])))
before_total_example = before_total (1 ∷ 2 ∷ []) (1 ∷ 3 ∷ [])
