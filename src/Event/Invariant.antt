-- ===== src/Event/Invariant.antt =====
-- The ready list holds exactly the events that can be raised: every operation of event.cpp keeps it
-- so.
use icetunnel.Prelude.{
  ℕ, ◌≡◌, refl, inl, inr, Bool, true, false, not, ◌&&◌, some, List, [], ◌∷◌, foldl, ◌==◌, arith,
  Bool-cases,
}
use icetunnel.Event.{
  World, Event, mem, erase, put, update_ready, set_ready, set_time, unlink_source, unlink, init,
  init_source, source_set_ready, set_event, bool_eq, time_eq,
}
use icetunnel.Event.Timer.{Time, accepts, is_enabled}

-- Ready, with a time, and under a manager.
abbrev pub can_raise : Event → Bool
can_raise e = e.ready && is_enabled e.time_us && e.manager

abbrev pub IsLinked : World → Type 0
IsLinked w = (j : ℕ) → mem j w.list_ready ≡ can_raise (w.event j)

-- The same of all events but one.
abbrev IsLinkedBut : ℕ → World → Type 0
IsLinkedBut id w = (j : ℕ) → (j == id) ≡ false → mem j w.list_ready ≡ can_raise (w.event j)

pub mem-erase : (j id : ℕ) (xs : List ℕ) → mem j (erase id xs) ≡ (mem j xs && not (j == id))
mem-erase j id [] = refl
mem-erase j id (x ∷ xs) = ground (arith, mem-erase j id xs)

-- `updateReady` is called when the flags of one event have changed. An event with no manager must
-- not be in the list then.
update_ready-IsLinked :
    (w : World) (id : ℕ)
    → IsLinkedBut id w
    → ((w.event id).manager ≡ false → mem id w.list_ready ≡ false)
    → IsLinked (update_ready w id)
unfolding update_ready
update_ready-IsLinked w id h bare j = ground (arith, h j, mem-erase j id w.list_ready, bare)

set_event-IsLinkedBut :
    (w : World) (id : ℕ) (e : Event) → IsLinked w → IsLinkedBut id (set_event w id e)
set_event-IsLinkedBut w id e h j ne = ground (arith, h j)

pub set_ready-IsLinked :
    (w : World) (id : ℕ) (value : Bool) → IsLinked w → IsLinked (set_ready w id value)
unfolding set_ready
set_ready-IsLinked w id value h = elim (Bool-cases (bool_eq (w.event id).ready value)) [
  | inl same ↦ rw same h
  | inr new ↦ rw new (
      update_ready-IsLinked (set_event w id (record (w.event id) { ready = value })) id
        (set_event-IsLinkedBut w id _ h) (ground (arith, h id)))
]

pub set_time-IsLinked :
    (w : World) (id : ℕ) (new : Time) (force : Bool)
    → IsLinked w
    → IsLinked (set_time w id new force)
unfolding set_time
set_time-IsLinked w id new force h = elim (Bool-cases (time_eq (w.event id).time_us new)) [
  | inl same ↦ rw same h
  | inr other ↦ elim (Bool-cases (accepts force (w.event id).time_us new)) [
    | inl taken ↦
        rw (other, taken)
          (update_ready-IsLinked (set_event w id (record (w.event id) { time_us = new })) id
            (set_event-IsLinkedBut w id _ h) (ground (arith, h id)))
    | inr refused ↦ rw (other, refused) h
  ]
]

pub unlink_source-IsLinked : (w : World) (id : ℕ) → IsLinked w → IsLinked (unlink_source w id)
unfolding unlink_source
unlink_source-IsLinked w id h j = ground (arith, h j)

-- After `unlink` the event is in no list, and nothing can raise it.
pub unlink-IsLinked :
    (w : World) (id : ℕ)
    → IsLinked w
    → IsLinked (unlink w id)
      × (mem id (unlink w id).list_ready ≡ false)
      × (mem id (unlink w id).list_raise ≡ false)
      × (can_raise ((unlink w id).event id) ≡ false)
unfolding unlink
unlink-IsLinked w id h = (
  λ j.
      ground
        (arith, unlink_source-IsLinked w id h j, mem-erase j id (unlink_source w id).list_ready),
  ground (arith, mem-erase id id (unlink_source w id).list_ready),
  ground (arith, mem-erase id id (unlink_source w id).list_raise),
  ground arith,
)

unlink_not_ready : (w : World) (id : ℕ) → ((unlink w id).event id).ready ≡ false
unfolding unlink
unlink_not_ready w id = ground arith

-- An event that is not ready and in no list may get any other fields.
set_event-IsLinked :
    (w : World) (id : ℕ) (e : Event)
    → IsLinked w
    → mem id w.list_ready ≡ false
    → e.ready ≡ false
    → IsLinked (set_event w id e)
set_event-IsLinked w id e h out off j = ground (arith, h j)

init_steps :
    (w : World) (id priority : ℕ)
    → init w id priority
      ≡ set_ready
          (set_event
            (unlink w id)
            id
            (record ((unlink w id).event id) { manager = true; priority = priority }))
          id
          true
unfolding init
init_steps w id priority = refl

init_source_steps :
    (w : World) (id s priority : ℕ)
    → let w' = unlink w id in
      let e = record (w'.event id) { manager = true; priority = priority; source = some s } in
      let linked = record w' {
        event = put w'.event id e;
        source = put w'.source s (record (w'.source s) { list = id ∷ (w'.source s).list });
      } in
      init_source w id s priority ≡ set_ready linked id (linked.source s).ready
unfolding init_source
init_source_steps w id s priority = refl

pub init-IsLinked : (w : World) (id priority : ℕ) → IsLinked w → IsLinked (init w id priority)
init-IsLinked w id priority h =
    let (linked, out, _, _) = unlink-IsLinked w id h in
    rw (init_steps w id priority) (
      set_ready-IsLinked _ id true
        (set_event-IsLinked (unlink w id) id _ linked out (unlink_not_ready w id)))

pub init_source-IsLinked :
    (w : World) (id s priority : ℕ) → IsLinked w → IsLinked (init_source w id s priority)
init_source-IsLinked w id s priority h =
    let (linked, out, _, _) = unlink-IsLinked w id h in
    rw (init_source_steps w id s priority) (
      set_ready-IsLinked _ id _
        (set_event-IsLinked (unlink w id) id _ linked out (unlink_not_ready w id)))

pub foldl-IsLinked :
    {A : Type 0} (f : World → A → World)
    → ((w : World) (a : A) → IsLinked w → IsLinked (f w a))
    → (ids : List A) (w : World) → IsLinked w
    → IsLinked (foldl f w ids)
foldl-IsLinked f keep [] w h = h
foldl-IsLinked f keep (id ∷ ids) w h = foldl-IsLinked f keep ids (f w id) (keep w id h)

pub source_set_ready-IsLinked :
    (w : World) (s : ℕ) (value : Bool) → IsLinked w → IsLinked (source_set_ready w s value)
unfolding source_set_ready
source_set_ready-IsLinked w s value h = elim (Bool-cases (bool_eq (w.source s).ready value)) [
  | inl same ↦ rw same h
  | inr other ↦
      rw other
        (foldl-IsLinked _ (λ w' id h'. set_ready-IsLinked w' id value h') (w.source s).list _ h)
]
