-- ===== src/Event.antt =====
-- event.h and event.cpp: events, the sources that make them ready, and the manager that raises them.
-- Events and sources have numbers for addresses. An intrusive list (`previousNext` and `next`) is
-- the list of its events in order; an event is linked into a list where it stands in it.
pub mod Timer
pub mod Invariant
pub mod Manager
pub mod Changes
pub mod Sources
use icetunnel.Prelude.{
  ℕ, ◌+◌, Bool, true, false, not, ◌&&◌, ◌||◌, Option, none, some, List, [], ◌∷◌, ◌++◌, foldl, ◌==◌,
  ltb, leb, if◌then◌else◌, get_or, length, ◌%◌,
}
use Timer.{Time, accepts, is_enabled}

abbrev pub mem : ℕ → List ℕ → Bool
mem id [] = false
mem id (x ∷ xs) = id == x || mem id xs

abbrev pub erase : ℕ → List ℕ → List ℕ
erase id [] = []
erase id (x ∷ xs) = if id == x then erase id xs else x ∷ erase id xs

-- `manager` tells that `handler` and `manager` are set; the program has one manager.
pub record Event : Type 0 where
  pub manager : Bool
  pub source : Option ℕ
  pub priority : ℕ
  pub time_us : Time
  pub ready : Bool

pub record Source : Type 0 where
  pub ready : Bool
  pub list : List ℕ

-- All events and sources, `Manager::listReady`, and the list of the events to raise.
pub record World : Type 0 where
  pub event : ℕ → Event
  pub source : ℕ → Source
  pub list_ready : List ℕ
  pub list_raise : List ℕ

abbrev pub put {ℓ} : {A : Type ℓ} → (ℕ → A) → ℕ → A → ℕ → A
put f id value j = if j == id then value else f j

abbrev pub bool_eq : Bool → Bool → Bool
bool_eq true b = b
bool_eq false b = not b

-- `Event::Event()`.
abbrev pub new_event : Event
new_event = record { manager = false; source = none; priority = 0; time_us = none; ready = false }

abbrev pub set_event : World → ℕ → Event → World
set_event w id e = record w { event = put w.event id e }

pub update_ready : World → ℕ → World
update_ready w id =
    if (w.event id).ready && is_enabled (w.event id).time_us
    then (if not (mem id w.list_ready) && (w.event id).manager
        then record w { list_ready = id ∷ w.list_ready }
        else w)
    else record w { list_ready = erase id w.list_ready; list_raise = erase id w.list_raise }

pub set_ready : World → ℕ → Bool → World
set_ready w id value =
    if bool_eq (w.event id).ready value
    then w
    else update_ready (set_event w id (record (w.event id) { ready = value })) id

abbrev pub time_eq : Time → Time → Bool
time_eq none none = true
time_eq none (some b) = false
time_eq (some a) none = false
time_eq (some a) (some b) = a == b

pub set_time : World → ℕ → Time → Bool → World
set_time w id new force =
    if time_eq (w.event id).time_us new
    then w
    else if accepts force (w.event id).time_us new
    then update_ready (set_event w id (record (w.event id) { time_us = new })) id
    else w

pub disable : World → ℕ → World
unfolding set_time
disable w id = set_time w id none true

-- `unlink(LinkSource)`.
pub unlink_source : World → ℕ → World
unlink_source w id = elim (w.event id).source [
  | none ↦ w
  | some s ↦ record w {
    event = put w.event id (record (w.event id) { source = none });
    source = put w.source s (record (w.source s) { list = erase id (w.source s).list });
  }
]

-- `Event::unlink()`, which the destructor is too.
pub unlink : World → ℕ → World
unfolding unlink_source
unlink w id =
    let w' = unlink_source w id in
    record w' {
      event = put w'.event id (record new_event { priority = (w'.event id).priority });
      list_ready = erase id w'.list_ready;
      list_raise = erase id w'.list_raise;
    }

-- `init(handler, manager, priority)`.
pub init : World → ℕ → ℕ → World
unfolding unlink set_ready
init w id priority =
    let w' = unlink w id in
    set_ready (set_event w' id (record (w'.event id) { manager = true; priority = priority })) id
      true

-- `init(handler, manager, source, priority)`.
pub init_source : World → ℕ → ℕ → ℕ → World
unfolding unlink set_ready
init_source w id s priority =
    let w' = unlink w id in
    let e = record (w'.event id) { manager = true; priority = priority; source = some s } in
    let linked = record w' {
      event = put w'.event id e;
      source = put w'.source s (record (w'.source s) { list = id ∷ (w'.source s).list });
    } in
    set_ready linked id (linked.source s).ready

-- `Source::setReady`. `Event::setReady` leaves the lists of the sources alone, so the walk is over
-- the list as it stands.
pub source_set_ready : World → ℕ → Bool → World
unfolding set_ready
source_set_ready w s value =
    if bool_eq (w.source s).ready value
    then w
    else foldl (λ w' id. set_ready w' id value)
        (record w { source = put w.source s (record (w.source s) { ready = value }) })
        (w.source s).list

-- `~Source`.
pub destroy_source : World → ℕ → World
unfolding source_set_ready unlink_source
destroy_source w s =
    let w' = source_set_ready w s false in foldl unlink_source w' (w'.source s).list

-- `~Manager`.
pub destroy_manager : World → World
unfolding unlink
destroy_manager w = foldl unlink w w.list_ready

-- `raise`: the event is disabled, then its handler gets the time that had been planned. What the
-- handler does is the program's, and a parameter here.
pub raise : (World → ℕ → Time → World) → World → ℕ → World
unfolding disable
raise handle w id = handle (disable w id) id (w.event id).time_us
