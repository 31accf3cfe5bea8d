-- ===== src/Event/Manager/Raised.antt =====
-- Which events the loop of `doEvents` raises.
use icetunnel.Prelude.{
  ℕ, zero, suc, ◌≡◌, refl, sym, ap, ◌∙◌, inl, inr, Bool, true, false, none, not, ◌&&◌, List, [],
  ◌∷◌, foldl, arith, ◌==◌, ==_iff, Bool-cases,
}
use icetunnel.Event.{World, set_time, mem, disable, raise}
use icetunnel.Event.Timer.{Time}
use icetunnel.Event.Invariant.{mem-erase}
use icetunnel.Event.Manager.{raise_loop}
use icetunnel.Event.Manager.Raise.{
  IsArmed, IsCalm, set_time_calm, set_time-IsCalm, set_time_leaves, disable_erases, List-cases,
  raise_loop_step, raise_lem,
}

-- No event twice.
abbrev pub IsDistinct : List ℕ → Type 0
IsDistinct [] = Unit {0}
IsDistinct (id ∷ ids) = (mem id ids ≡ false) × IsDistinct ids

-- A handler that takes no event but its own out of the list to raise.
pub record IsSteady (handle : World → ℕ → Time → World) : Type 0 where
  pub calm : IsCalm handle
  pub leaves :
      (w : World) (id : ℕ) (t : Time) (j : ℕ)
      → (j == id) ≡ false
      → mem j w.list_raise ≡ true
      → mem j (handle w id t).list_raise ≡ true

-- A handler that sets the time of its event.
pub set_time-IsSteady : (new : Time) (force : Bool) → IsSteady (λ w id t. set_time w id new force)
set_time-IsSteady new force = record {
  calm = set_time-IsCalm new force;
  leaves = λ w id t j. set_time_leaves w id new force j;
}

-- `raised` is what a loop from `w` to `v` has raised.
pub record IsRaised (handle : World → ℕ → Time → World) (w v : World) (raised : List ℕ)
    : Type 0 where
  pub result : v ≡ foldl (raise handle) w raised
  pub distinct : IsDistinct raised
  pub waited : (j : ℕ) → mem j raised ≡ true → mem j w.list_raise ≡ true

-- One event is raised: who still waits had waited, and is another one.
raised_one :
    (handle : World → ℕ → Time → World)
    → IsCalm handle
    → (w : World) (id j : ℕ) → IsArmed w
    → mem id w.list_raise ≡ true
    → mem j (raise handle w id).list_raise ≡ true
    → (mem j w.list_raise && not (j == id)) ≡ true
raised_one handle calm w id j armed here m =
    let planned = (w.event id).time_us in
    let after : mem j (handle (disable w id) id planned).list_raise ≡ true =
      ap (λ v. mem j v.list_raise) (sym (raise_lem handle w id)) ∙ m in
    sym (mem-erase j id w.list_raise)
    ∙ ap (mem j) (sym (disable_erases w id (armed id here)))
    ∙ calm.takes (disable w id) id planned j after

raise-IsArmed :
    (handle : World → ℕ → Time → World) (calm : IsCalm handle) (w : World) (id : ℕ)
    → IsArmed w
    → IsArmed (raise handle w id)
unfolding raise disable
raise-IsArmed handle calm w id armed =
    calm.keeps (disable w id) id (w.event id).time_us ((set_time_calm w id none true).1 armed)

pub raise_loop-IsRaised :
    (handle : World → ℕ → Time → World)
    → IsCalm handle
    → (rounds : ℕ) (w : World) → IsArmed w
    → (raised : List ℕ) × IsRaised handle w (raise_loop handle rounds w) raised
raise_loop-IsRaised handle calm zero w armed =
    ([], record { result = unfold raise_loop in refl; distinct = tt; waited = λ j m. cc })
raise_loop-IsRaised handle calm (suc rounds) w armed = elim (List-cases w.list_raise) [
  | inl none_left ↦ (
    [],
    record {
      result = raise_loop_step handle rounds w [] none_left;
      distinct = tt;
      waited = λ j m. cc;
    },
  )
  | inr (id, rest, e) ↦
      let here : mem id w.list_raise ≡ true = ap (mem id) e ∙ ground arith in
      let (raised, h) =
        raise_loop-IsRaised handle calm rounds (raise handle w id)
          (raise-IsArmed handle calm w id armed) in
      let others : (j : ℕ) → mem j raised ≡ true → (mem j w.list_raise && not (j == id)) ≡ true =
        λ j m. raised_one handle calm w id j armed here (h.waited j m) in
      (
        id ∷ raised,
        record {
          result = raise_loop_step handle rounds w (id ∷ rest) e ∙ h.result;
          distinct = (
            elim (Bool-cases (mem id raised)) [
              | inl again ↦ absurd (ground (arith, others id again))
              | inr once ↦ once
            ],
            h.distinct,
          );
          waited = λ j m. elim (Bool-cases (j == id)) [
            | inl same ↦ ap (λ k. mem k w.list_raise) ((==_iff j id).0 same) ∙ here
            | inr other ↦ ground (arith, others j (ground (arith, m, other)))
          ];
        },
      )
]

-- Disabling one event leaves the others in the list.
disable_other :
    (w : World) (id j : ℕ)
    → (j == id) ≡ false
    → mem j w.list_raise ≡ true
    → mem j (disable w id).list_raise ≡ true
unfolding disable
disable_other w id = set_time_leaves w id none true

-- With handlers that take out no other event, what is not raised is still there.
steady_rest :
    (handle : World → ℕ → Time → World)
    → IsSteady handle
    → (raised : List ℕ) (w : World) (j : ℕ) → mem j w.list_raise ≡ true
    → mem j raised ≡ false
    → mem j (foldl (raise handle) w raised).list_raise ≡ true
steady_rest handle steady [] w j m out = m
steady_rest handle steady (id ∷ ids) w j m out =
    let other : (j == id) ≡ false = ground (arith, out) in
    let kept : mem j (raise handle w id).list_raise ≡ true =
      ap (λ v. mem j v.list_raise) (raise_lem handle w id)
      ∙ steady.leaves (disable w id) id (w.event id).time_us j other
          (disable_other w id j other m) in
    steady_rest handle steady ids (raise handle w id) j kept (ground (arith, out, other))

pub steady_all :
    (handle : World → ℕ → Time → World)
    → IsSteady handle
    → (w v : World) (raised : List ℕ) (j : ℕ) → IsRaised handle w v raised
    → v.list_raise ≡ []
    → mem j raised ≡ mem j w.list_raise
steady_all handle steady w v raised j h empty = elim (Bool-cases (mem j raised)) [
  | inl there ↦ there ∙ sym (h.waited j there)
  | inr out ↦ elim (Bool-cases (mem j w.list_raise)) [
    | inr out' ↦ out ∙ sym out'
    | inl there ↦
        let left : mem j v.list_raise ≡ true =
          ap (λ u. mem j u.list_raise) h.result ∙ steady_rest handle steady raised w j there out in
        let gone : mem j v.list_raise ≡ false = ap (mem j) empty in absurd (cc (left, gone))
  ]
]
