-- ===== src/Event/Manager.antt =====
-- event.cpp, `Event::Manager::doEvents`: it picks the due events of the highest priority, shuffles
-- them, raises them, and tells when the next event is due.
pub mod Select
pub mod Shuffle
pub mod Raise
pub mod Raised
pub mod Contract
use icetunnel.Prelude.{
  ℕ, zero, suc, ◌+◌, ◌%◌, max, Bool, true, false, Option, none, some, List, [], ◌∷◌, ◌++◌, foldl,
  ◌==◌, ltb, leb, if◌then◌else◌, length, replicate,
}
use icetunnel.Event.{World, Event, raise}
use icetunnel.Event.Timer.{Time, earlier}
use mathlib.Core.List.{flatten}

-- `event->getTime() <= timeUs`, where a disabled event has the time -1.
abbrev pub is_due : ℕ → Time → Bool
is_due now none = true
is_due now (some time) = leb time now

abbrev pub is_empty : List ℕ → Bool
is_empty [] = true
is_empty (id ∷ ids) = false

-- The first loop, over what is left of `listReady`, with `events` and `priority`.
pub collect : (ℕ → Event) → ℕ → List ℕ → List ℕ → ℕ → List ℕ × ℕ
collect event now [] events priority = (events, priority)
collect event now (id ∷ ids) events priority =
    let own = (event id).priority in
    let due = is_due now (event id).time_us in
    let priority' =
      if due
      then (if is_empty events then own else if ltb priority own then own else priority)
      else priority in
    collect event now ids
      (if due then (if own == priority' then id ∷ events else events) else events) priority'

-- "skip non-priority".
pub keep_priority : (ℕ → Event) → ℕ → List ℕ → List ℕ
keep_priority event priority [] = []
keep_priority event priority (id ∷ ids) =
    let rest = keep_priority event priority ids in
    if (event id).priority == priority then id ∷ rest else rest

pub select : World → ℕ → List ℕ
unfolding collect keep_priority
select w now =
    let (events, priority) = collect w.event now w.list_ready [] 0 in
    keep_priority w.event priority events

-- One slot of `shuffle` is the list from `first` to `second`.
abbrev pub add_to : Bool → ℕ → List ℕ → List ℕ
add_to front id [] = id ∷ []
add_to true id (x ∷ xs) = id ∷ x ∷ xs
add_to false id (x ∷ xs) = x ∷ xs ++ id ∷ []

pub place : ℕ → Bool → ℕ → List (List ℕ) → List (List ℕ)
place slot front id [] = []
place zero front id (xs ∷ slots) = add_to front id xs ∷ slots
place (suc slot) front id (xs ∷ slots) = xs ∷ place slot front id slots

-- The third loop. `draws` holds, for each event, the slot number `rand() % shuffle.size()` and the
-- coin `rand() % 2`; the coin is thrown for an occupied slot only, and is ignored at a free one.
pub shuffle_loop : (ℕ → ℕ × Bool) → ℕ → ℕ → List ℕ → List (List ℕ) → List (List ℕ)
unfolding place
shuffle_loop draws n count [] slots = slots
shuffle_loop draws n count (id ∷ ids) slots =
    shuffle_loop draws (n + 1) count ids (place ((draws n).0 % count) (draws n).1 id slots)

-- The slots, joined in order, are the list to raise.
pub shuffle : (ℕ → ℕ × Bool) → List ℕ → List ℕ
unfolding shuffle_loop
shuffle draws ids = flatten (shuffle_loop draws 0 (length ids) ids (replicate (length ids) []))

-- `while(events) events->raise()`, for at most `rounds` rounds.
pub raise_loop : (World → ℕ → Time → World) → ℕ → World → World
unfolding raise
raise_loop handle zero w = w
raise_loop handle (suc rounds) w = elim w.list_raise [
  | [] ↦ w
  | id ∷ rest ↦ raise_loop handle rounds (raise handle w id)
]

-- "find time of next event"; `none` is the result -1.
pub next_time : (ℕ → Event) → List ℕ → Time
next_time event [] = none
next_time event (id ∷ ids) = earlier (event id).time_us (next_time event ids)

-- Each raised event leaves the list, so that there are as many rounds as events.
pub do_events : (ℕ → ℕ × Bool) → (World → ℕ → Time → World) → World → ℕ → World × Time
do_events draws handle w now =
    let chosen = shuffle draws (select w now) in
    let w' = raise_loop handle (length chosen) (record w { list_raise = chosen }) in
    (w', next_time w'.event w'.list_ready)
