-- ===== src/Event/Changes.antt =====
-- The operations of event.h together: what a program does with events, as a list of calls.
use icetunnel.Prelude.{ℕ, refl, Bool, true, false, none, List, [], foldl}
use icetunnel.Event.{
  World, new_event, set_ready, set_time, disable, unlink_source, unlink, init, init_source,
  source_set_ready, destroy_source, destroy_manager, raise,
}
use icetunnel.Event.Timer.{Time}
use icetunnel.Event.Invariant.{
  IsLinked, foldl-IsLinked, unlink_source-IsLinked, set_ready-IsLinked, set_time-IsLinked,
  unlink-IsLinked, init-IsLinked, init_source-IsLinked, source_set_ready-IsLinked,
}

-- One call, with the numbers of its event and source. `raises` is the part of `raise` before the
-- handler, whose own calls follow it in the list.
pub data Change : Type 0 where
  sets_ready : ℕ → Bool → Change
  sets_time : ℕ → Time → Bool → Change
  raises unlinks destroys_source : ℕ → Change
  inits : ℕ → ℕ → Change
  inits_source : ℕ → ℕ → ℕ → Change
  source_sets_ready : ℕ → Bool → Change
  destroys_manager : Change

unfoldable pub apply : World → Change → World
unfolding raise
apply w (Change.sets_ready id value) = set_ready w id value
apply w (Change.sets_time id new force) = set_time w id new force
apply w (Change.raises id) = raise (λ w' j planned. w') w id
apply w (Change.unlinks id) = unlink w id
apply w (Change.destroys_source s) = destroy_source w s
apply w (Change.inits id priority) = init w id priority
apply w (Change.inits_source id s priority) = init_source w id s priority
apply w (Change.source_sets_ready s value) = source_set_ready w s value
apply w Change.destroys_manager = destroy_manager w

-- No event has been set up yet.
abbrev pub new_world : World
new_world = record {
  event = λ id. new_event;
  source = λ s. record { ready = false; list = [] };
  list_ready = [];
  list_raise = [];
}

apply-IsLinked : (w : World) (change : Change) → IsLinked w → IsLinked (apply w change)
unfolding apply disable destroy_source destroy_manager
apply-IsLinked w (Change.sets_ready id value) h = set_ready-IsLinked w id value h
apply-IsLinked w (Change.sets_time id new force) h = set_time-IsLinked w id new force h
apply-IsLinked w (Change.raises id) h = set_time-IsLinked w id none true h
apply-IsLinked w (Change.unlinks id) h = (unlink-IsLinked w id h).0
apply-IsLinked w (Change.destroys_source s) h =
    let w' = source_set_ready w s false in
    foldl-IsLinked unlink_source unlink_source-IsLinked (w'.source s).list w'
      (source_set_ready-IsLinked w s false h)
apply-IsLinked w (Change.inits id priority) h = init-IsLinked w id priority h
apply-IsLinked w (Change.inits_source id s priority) h = init_source-IsLinked w id s priority h
apply-IsLinked w (Change.source_sets_ready s value) h = source_set_ready-IsLinked w s value h
apply-IsLinked w Change.destroys_manager h =
    foldl-IsLinked unlink (λ w' id h'. (unlink-IsLinked w' id h').0) w.list_ready w h

-- After any calls, in any order, the ready list holds exactly the events that are ready, have a time
-- and are under a manager.
pub changes-IsLinked : (changes : List Change) → IsLinked (foldl apply new_world changes)
changes-IsLinked changes = foldl-IsLinked apply apply-IsLinked changes new_world (λ j. refl)
