-- ===== src/Event/Manager/Raise.antt =====
-- The loop that raises: it ends with no event left, whatever the handlers do within the interface.
use icetunnel.Prelude.{
  ℕ, zero, suc, ◌≤◌, ◌≡◌, refl, sym, ap, ◌∙◌, inl, inr, ◌⊎◌, Bool, true, false, none, some, List,
  [], ◌∷◌, if_case, ◌==◌, ==_iff, length, min, arith, Bool-cases,
}
use icetunnel.Event.{
  World, Event, mem, erase, set_event, time_eq, update_ready, set_time, disable, raise,
}
use icetunnel.Event.Timer.{Time, accepts, is_enabled, earlier}
use icetunnel.Event.Invariant.{mem-erase}
use icetunnel.Event.Manager.{raise_loop, next_time}

-- Every event that waits to be raised has a time.
abbrev pub IsArmed : World → Type 0
IsArmed w = (j : ℕ) → mem j w.list_raise ≡ true → is_enabled (w.event j).time_us ≡ true

-- What the loop relies on of a handler: it puts no event into the list and disables none that
-- stays in it. The operations on events are all like that (`set_time_calm`).
pub record IsCalm (handle : World → ℕ → Time → World) : Type 0 where
  pub shrinks :
      (w : World) (id : ℕ) (t : Time) → length (handle w id t).list_raise ≤ length w.list_raise
  pub takes :
      (w : World) (id : ℕ) (t : Time) (j : ℕ)
      → mem j (handle w id t).list_raise ≡ true
      → mem j w.list_raise ≡ true
  pub keeps : (w : World) (id : ℕ) (t : Time) → IsArmed w → IsArmed (handle w id t)

length-erase : (id : ℕ) (xs : List ℕ) → length (erase id xs) ≤ length xs
length-erase id [] = omega arith
length-erase id (x ∷ xs) = ground (arith, length-erase id xs)

update_ready_calm :
    (w : World) (id : ℕ)
    → (length (update_ready w id).list_raise ≤ length w.list_raise)
      × (((j : ℕ)
            → (j == id) ≡ false
            → mem j w.list_raise ≡ true
            → is_enabled (w.event j).time_us ≡ true)
          → IsArmed (update_ready w id))
unfolding update_ready
update_ready_calm w id = (
  ground (arith, length-erase id w.list_raise),
  λ h j. ground (arith, h j, mem-erase j id w.list_raise),
)

pub set_time_calm :
    (w : World) (id : ℕ) (new : Time) (force : Bool)
    → (length (set_time w id new force).list_raise ≤ length w.list_raise)
      × (IsArmed w → IsArmed (set_time w id new force))
unfolding set_time
set_time_calm w id new force = elim (Bool-cases (time_eq (w.event id).time_us new)) [
  | inl same ↦ rw same (omega arith, λ h. h)
  | inr other ↦ elim (Bool-cases (accepts force (w.event id).time_us new)) [
    | inr refused ↦ rw (other, refused) (omega arith, λ h. h)
    | inl taken ↦
        let w' = set_event w id (record (w.event id) { time_us = new }) in
        let (short, armed) = update_ready_calm w' id in
        rw (other, taken) (short, λ h. armed (λ j ne m. ground (arith, h j m)))
  ]
]

update_ready_takes :
    (w : World) (id j : ℕ) → mem j (update_ready w id).list_raise ≡ true → mem j w.list_raise ≡ true
unfolding update_ready
update_ready_takes w id j m = ground (arith, m, mem-erase j id w.list_raise)

set_time_takes :
    (w : World) (id : ℕ) (new : Time) (force : Bool) (j : ℕ)
    → mem j (set_time w id new force).list_raise ≡ true
    → mem j w.list_raise ≡ true
unfolding set_time
set_time_takes w id new force j =
    if_case (λ (v : World). mem j v.list_raise ≡ true → mem j w.list_raise ≡ true)
      (time_eq (w.event id).time_us new) w _ (λ _ m. m)
      (λ _.
        if_case (λ (v : World). mem j v.list_raise ≡ true → mem j w.list_raise ≡ true)
          (accepts force (w.event id).time_us new) _ w
          (λ _ m.
            update_ready_takes (set_event w id (record (w.event id) { time_us = new })) id j m)
          (λ _ m. m))

update_ready_leaves :
    (w : World) (id j : ℕ)
    → (j == id) ≡ false
    → mem j w.list_raise ≡ true
    → mem j (update_ready w id).list_raise ≡ true
unfolding update_ready
update_ready_leaves w id j other m = ground (arith, m, other, mem-erase j id w.list_raise)

-- Setting the time of one event leaves the others in the list.
pub set_time_leaves :
    (w : World) (id : ℕ) (new : Time) (force : Bool) (j : ℕ)
    → (j == id) ≡ false
    → mem j w.list_raise ≡ true
    → mem j (set_time w id new force).list_raise ≡ true
unfolding set_time
set_time_leaves w id new force j other m =
    if_case (λ (v : World). mem j v.list_raise ≡ true) (time_eq (w.event id).time_us new) w _
      (λ _. m)
      (λ _.
        if_case (λ (v : World). mem j v.list_raise ≡ true) (accepts force (w.event id).time_us new)
          _ w
          (λ _.
            update_ready_leaves (set_event w id (record (w.event id) { time_us = new })) id j other
              m)
          (λ _. m))

-- A handler that sets the time of its event.
pub set_time-IsCalm : (new : Time) (force : Bool) → IsCalm (λ w id t. set_time w id new force)
set_time-IsCalm new force = record {
  shrinks = λ w id t. (set_time_calm w id new force).0;
  takes = λ w id t. set_time_takes w id new force;
  keeps = λ w id t. (set_time_calm w id new force).1;
}

update_ready_off :
    (w : World) (id : ℕ)
    → is_enabled (w.event id).time_us ≡ false
    → (update_ready w id).list_raise ≡ erase id w.list_raise
unfolding update_ready
update_ready_off w id off = ground arith

timed : (t : Time) → is_enabled t ≡ true → (time_eq t none ≡ false) × (accepts true t none ≡ true)
unfolding accepts
timed none on = cc
timed (some t) on = (refl, refl)

-- Disabling an event that has a time takes it out of the list.
pub disable_erases :
    (w : World) (id : ℕ)
    → is_enabled (w.event id).time_us ≡ true
    → (disable w id).list_raise ≡ erase id w.list_raise
unfolding disable
disable_erases w id on =
    let (other, taken) = timed (w.event id).time_us on in
    let w' = set_event w id (record (w.event id) { time_us = none }) in
    let out : (update_ready w' id).list_raise ≡ erase id w.list_raise =
      update_ready_off w' id (ground arith) in
    rw (other, taken) out

pub disable_first :
    (w : World) (id : ℕ) (rest : List ℕ)
    → w.list_raise ≡ id ∷ rest
    → is_enabled (w.event id).time_us ≡ true
    → length (disable w id).list_raise ≤ length rest
disable_first w id rest e on =
    let first : erase id (id ∷ rest) ≡ erase id rest = ground arith in
    omega
      (arith, ap length (disable_erases w id on ∙ ap (erase id) e ∙ first), length-erase id rest)

pub List-cases : (l : List ℕ) → (l ≡ []) ⊎ ((x : ℕ) × (xs : List ℕ) × (l ≡ x ∷ xs))
List-cases [] = inl refl
List-cases (x ∷ xs) = inr (x, xs, refl)

pub raise_loop_step :
    (handle : World → ℕ → Time → World) (rounds : ℕ) (w : World) (l : List ℕ)
    → w.list_raise ≡ l
    → raise_loop handle (suc rounds) w
      ≡ elim l [ [] ↦ w | id ∷ rest ↦ raise_loop handle rounds (raise handle w id) ]
unfolding raise_loop
raise_loop_step handle rounds w l e =
    ap {B = World}
      (λ l'. elim l' [ [] ↦ w | id ∷ rest ↦ raise_loop handle rounds (raise handle w id) ]) e

pub raise_lem :
    (handle : World → ℕ → Time → World) (w : World) (id : ℕ)
    → raise handle w id ≡ handle (disable w id) id (w.event id).time_us
unfolding raise
raise_lem handle w id = refl

-- The loop ends with no event left to raise, within as many rounds as there are events.
pub raise_loop_lem :
    (handle : World → ℕ → Time → World)
    → IsCalm handle
    → (rounds : ℕ) (w : World) → length w.list_raise ≤ rounds
    → IsArmed w
    → (raise_loop handle rounds w).list_raise ≡ []
raise_loop_lem handle calm zero w h armed = elim (List-cases w.list_raise) [
  | inl none_left ↦ unfold raise_loop in none_left
  | inr (id, rest, e) ↦ absurd (omega (arith, ap length e))
]
raise_loop_lem handle calm (suc rounds) w h armed = elim (List-cases w.list_raise) [
  | inl none_left ↦
      ap (λ v. v.list_raise) (raise_loop_step handle rounds w [] none_left) ∙ none_left
  | inr (id, rest, e) ↦
      let on = armed id (ground arith) in
      let less = disable_first w id rest e on in
      let planned = (w.event id).time_us in
      let kept : IsArmed (disable w id) =
        unfold disable in (set_time_calm w id none true).1 armed in
      let short : length (handle (disable w id) id planned).list_raise ≤ rounds =
        omega (arith, calm.shrinks (disable w id) id planned, less, ap length e) in
      ap (λ v. v.list_raise) (raise_loop_step handle rounds w (id ∷ rest) e)
      ∙ ap (λ v. (raise_loop handle rounds v).list_raise) (raise_lem handle w id)
      ∙ raise_loop_lem handle calm rounds (handle (disable w id) id planned) short
          (calm.keeps (disable w id) id planned kept)
]

earlier_left : (a b : Time) (t : ℕ) → a ≡ some t → (s : ℕ) × (earlier a b ≡ some s) × (s ≤ t)
earlier_left none b t e = cc
earlier_left (some x) none t e = (x, refl, ground arith)
earlier_left (some x) (some y) t e = (min x y, refl, ground arith)

earlier_right : (a b : Time) (t : ℕ) → b ≡ some t → (s : ℕ) × (earlier a b ≡ some s) × (s ≤ t)
earlier_right none b t e = (t, e, omega arith)
earlier_right (some x) none t e = cc
earlier_right (some x) (some y) t e = (min x y, refl, ground arith)

-- The time of the next event is that of an event in the list, and no event there is earlier.
pub next_time_lem :
    (event : ℕ → Event) (ids : List ℕ) (j t : ℕ)
    → mem j ids ≡ true
    → (event j).time_us ≡ some t
    → (s : ℕ) × (next_time event ids ≡ some s) × (s ≤ t)
unfolding next_time
next_time_lem event [] j t m e = cc
next_time_lem event (id ∷ ids) j t m e = elim (Bool-cases (j == id)) [
  | inl same ↦
      let here : (event id).time_us ≡ some t =
        ap (λ k. (event k).time_us) (sym ((==_iff j id).0 same)) ∙ e in
      earlier_left (event id).time_us (next_time event ids) t here
  | inr other ↦
      let (s, next, le) = next_time_lem event ids j t (ground arith) e in
      let (s', here, le') = earlier_right (event id).time_us (next_time event ids) s next in
      (s', here, omega arith)
]

earlier_one : (a b : Time) (s : ℕ) → earlier a b ≡ some s → (a ≡ some s) ⊎ (b ≡ some s)
earlier_one none b s e = inr e
earlier_one (some x) none s e = inl e
earlier_one (some x) (some y) s e = ground (arith, e)

pub next_time_attained :
    (event : ℕ → Event) (ids : List ℕ) (s : ℕ)
    → next_time event ids ≡ some s
    → (j : ℕ) × (mem j ids ≡ true) × ((event j).time_us ≡ some s)
unfolding next_time
next_time_attained event [] s e = cc
next_time_attained event (id ∷ ids) s e =
    elim (earlier_one (event id).time_us (next_time event ids) s e) [
      | inl here ↦ (id, ground arith, here)
      | inr later ↦
          let (j, there, time) = next_time_attained event ids s later in
          (j, ground (arith, there), time)
    ]
