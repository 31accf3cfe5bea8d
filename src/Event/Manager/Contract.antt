-- ===== src/Event/Manager/Contract.antt =====
-- What `doEvents` promises: the events that it hands to the raising loop, and that the loop ends.
use mathlib.Core.List.{Mem, mem-cons, not-mem-nil}
use mathlib.Core.List.Perm
use mathlib.Core.Logic.Or
use icetunnel.Prelude.{
  ℕ, ◌≤◌, ◌≡◌, inl, inr, Bool, true, some, List, [], ◌∷◌, ◌==◌, ==_iff, length, foldl, sym, ◌∙◌,
  arith, Bool-cases,
}
use icetunnel.Event.{World, mem, raise}
use icetunnel.Event.Timer.{Time}
use icetunnel.Event.Invariant.{IsLinked}
use icetunnel.Event.Manager.{raise_loop, select, shuffle, do_events}
use icetunnel.Event.Manager.Shuffle.{shuffle-perm}
use icetunnel.Event.Manager.Select.{select_lem}
use icetunnel.Event.Manager.Raise.{
  IsCalm, IsArmed, raise_loop_lem, next_time_lem, next_time_attained,
}
use icetunnel.Event.Manager.Raised.{IsDistinct, IsSteady, raise_loop-IsRaised, steady_all}

mem→Mem : (j : ℕ) (xs : List ℕ) → mem j xs ≡ true → Mem j xs
mem→Mem j [] e = cc
mem→Mem j (x ∷ xs) e = elim (Bool-cases (j == x)) [
  | inl same ↦ mem-cons.1 (Or.inl ((==_iff j x).0 same))
  | inr other ↦ mem-cons.1 (Or.inr (mem→Mem j xs (ground arith)))
]

Bool-set : IsSet Bool
Bool-set = hlevel

Mem→mem : (j : ℕ) (xs : List ℕ) → Mem j xs → mem j xs ≡ true
Mem→mem j [] m = absurd (not-mem-nil m)
Mem→mem j (x ∷ xs) m =
    Or.elim (Bool-set _ _) (mem-cons.0 m) (λ e. ground (arith, (==_iff j x).1 e))
      (λ m'. ground (arith, Mem→mem j xs m'))

-- The shuffled list has the members of the selected one.
mem-shuffle :
    (draws : ℕ → ℕ × Bool) (ids : List ℕ) (j : ℕ)
    → mem j (shuffle draws ids) ≡ true
    → mem j ids ≡ true
mem-shuffle draws ids j m =
    Mem→mem j ids ((Perm.mem_iff (shuffle-perm draws ids)).0 (mem→Mem j (shuffle draws ids) m))

shuffle-mem : (draws : ℕ → ℕ × Bool) (ids : List ℕ) (j : ℕ) → mem j (shuffle draws ids) ≡ mem j ids
shuffle-mem draws ids j = elim (Bool-cases (mem j ids)) [
  | inl there ↦
      Mem→mem j (shuffle draws ids)
        ((Perm.mem_iff (shuffle-perm draws ids)).1 (mem→Mem j ids there))
      ∙ sym there
  | inr out ↦ elim (Bool-cases (mem j (shuffle draws ids))) [
    | inl there ↦ absurd (cc (mem-shuffle draws ids j there, out))
    | inr out' ↦ out' ∙ sym out
  ]
]

-- The list that the loop starts from.
abbrev queued : (ℕ → ℕ × Bool) → World → ℕ → World
queued draws w now = record w { list_raise = shuffle draws (select w now) }

-- It has selected events of the ready list, each with a time.
chosen-IsArmed :
    (draws : ℕ → ℕ × Bool) (w : World) (now : ℕ) → IsLinked w → IsArmed (queued draws w now)
chosen-IsArmed draws w now linked j m =
    let (there, _, _) = (select_lem w now j).0 (mem-shuffle draws (select w now) j m) in
    ground (arith, there, linked j)

-- One call of `doEvents`, with handlers that put no event into the list to raise and disable none
-- that stays in it, on a ready list that holds the events that can be raised: the state that it
-- leaves is that after raising some events one after the other, from the state in which the shuffled
-- selection waits; each of them is a selected one, and none is raised twice; none is left to raise
-- then; and the time that it returns is that of an event that is still ready, and not later than that of any.
pub do_events_lem :
    (draws : ℕ → ℕ × Bool) (handle : World → ℕ → Time → World) (w : World) (now : ℕ)
    → IsCalm handle
    → IsLinked w
    → let out = do_events draws handle w now in
      ((raised : List ℕ) × (out.0
          ≡ foldl (raise handle) (record w { list_raise = shuffle draws (select w now) }) raised)
        × IsDistinct raised
        × ((j : ℕ) → mem j raised ≡ true → mem j (select w now) ≡ true))
      × ((out.0).list_raise ≡ [])
      × ((j t : ℕ)
          → mem j (out.0).list_ready ≡ true
          → ((out.0).event j).time_us ≡ some t
          → (s : ℕ) × (out.1 ≡ some s) × (s ≤ t))
      × ((s : ℕ)
          → out.1 ≡ some s
          → (j : ℕ) × (mem j (out.0).list_ready ≡ true) × (((out.0).event j).time_us ≡ some s))
unfolding do_events
do_events_lem draws handle w now calm linked =
    let start = queued draws w now in
    let armed = chosen-IsArmed draws w now linked in
    let last = raise_loop handle (length start.list_raise) start in
    let (raised, h) = raise_loop-IsRaised handle calm (length start.list_raise) start armed in
    (
      (raised, h.result, h.distinct, λ j m. mem-shuffle draws (select w now) j (h.waited j m)),
      raise_loop_lem handle calm (length start.list_raise) start (omega arith) armed,
      λ j t m e. next_time_lem last.event last.list_ready j t m e,
      λ s e. next_time_attained last.event last.list_ready s e,
    )

-- With handlers that, in the list to raise, put no event, disable none that stays and take out none but
-- their own, `doEvents` raises the selected events, each exactly once.
pub do_events_raises :
    (draws : ℕ → ℕ × Bool) (handle : World → ℕ → Time → World) (w : World) (now : ℕ)
    → IsSteady handle
    → IsLinked w
    → (raised : List ℕ) × ((do_events draws handle w now).0
        ≡ foldl (raise handle) (record w { list_raise = shuffle draws (select w now) }) raised)
      × IsDistinct raised
      × ((j : ℕ) → mem j raised ≡ mem j (select w now))
unfolding do_events
do_events_raises draws handle w now steady linked =
    let start = queued draws w now in
    let calm = steady.calm in
    let armed = chosen-IsArmed draws w now linked in
    let rounds = length start.list_raise in
    let (raised, h) = raise_loop-IsRaised handle calm rounds start armed in
    let empty = raise_loop_lem handle calm rounds start (omega arith) armed in
    (
      raised,
      h.result,
      h.distinct,
      λ j. steady_all handle steady start _ raised j h empty ∙ shuffle-mem draws (select w now) j,
    )
