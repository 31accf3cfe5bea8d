-- ===== src/Tests/Sockets.antt =====
-- The theorems of the sockets, at concrete calls.
use icetunnel.Prelude.{◌≡◌, refl, ℕ, true, false, none, some, List, [], ◌∷◌}
use icetunnel.Socket.{tcp, done, again, Group, close, close_source, get_ready}
use icetunnel.Socket.Flags.{get_ready-close}
use icetunnel.Socket.Calls.Closed.{run_calls_closed}
use icetunnel.Socket.Open.{Opening, Signals}
use icetunnel.Socket.Sound.{IsSoundGroup}
use icetunnel.Socket.Calls.{Call, run_calls, new_group}
use icetunnel.Socket.Calls.Kept.{run_calls-IsSound}

abbrev opening : Opening
opening = record { created = some 7; registered = true; non_blocking = true }

abbrev ends : Signals
ends = record { hung_up = true; has_error = false; can_read = true; can_write = true }

-- A listener accepts a client, which reads, waits, meets the end of the stream and is hung up.
abbrev calls : List (ℕ × Call)
calls =
    (1, Call.opens opening tcp 1024 none)
    ∷ (1, Call.accepts (done (8, 9 ∷ [])) opening 2)
    ∷ (2, Call.reads (done (1 ∷ 2 ∷ [])))
    ∷ (2, Call.writes again)
    ∷ (2, Call.polls (λ ms. some ((2, ends) ∷ [])) 1500 700)
    ∷ (2, Call.reads (done []))
    ∷ (2, Call.destroys)
    ∷ []

run_calls-IsSound_example : IsSoundGroup (run_calls calls new_group)
run_calls-IsSound_example = run_calls-IsSound calls

-- A closed client, and what still reaches it.
abbrev closed_group : Group
closed_group = close true 2 (run_calls ((1, Call.opens opening tcp 1024 none) ∷ []) new_group)

abbrev late_calls : List (ℕ × Call)
late_calls =
    (2, Call.polls (λ ms. some ((2, ends) ∷ [])) 1500 700)
    ∷ (2, Call.reads (done (1 ∷ [])))
    ∷ (1, Call.accepts (done (8, 9 ∷ [])) opening 3)
    ∷ (1, Call.destroys)
    ∷ []

run_calls_closed_example : get_ready (run_calls late_calls closed_group) 2 close_source ≡ true
run_calls_closed_example =
    run_calls_closed 2 late_calls closed_group (tt, (tt, (refl, (refl, tt))))
      (get_ready-close true 2 2 close_source
        (run_calls ((1, Call.opens opening tcp 1024 none) ∷ []) new_group))
