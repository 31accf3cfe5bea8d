-- ===== src/Event/Manager/Select.antt =====
-- The first two loops of `doEvents` pick the due events of the highest priority, and no other.
use icetunnel.Prelude.{
  ℕ, ◌≤◌, ◌<◌, ◌≡◌, refl, sym, ap₂, subst, ◌∙◌, Bool, true, false, ◌&&◌, ◌||◌, List, [], ◌∷◌, ◌==◌,
  ltb, ltb→lt, arith, inl, inr, ◌⊎◌, ◌↔◌, ==_iff, ap, Bool-cases,
}
use icetunnel.Event.{Event, World, mem}
use icetunnel.Event.Manager.{is_due, collect, keep_priority, select}

module _ (event : ℕ → Event) (now : ℕ) where
  abbrev prio : ℕ → ℕ
  prio j = (event j).priority

  abbrev due : ℕ → Bool
  due j = is_due now (event j).time_us

  -- After the loop over `ids`, from `events` and `priority`.
  abbrev Collected : List ℕ → List ℕ → ℕ → List ℕ × ℕ → Type 0
  Collected ids events priority out =
      (priority ≤ out.1)
      × ((j : ℕ) → mem j ids ≡ true → due j ≡ true → prio j ≤ out.1)
      × ((j : ℕ)
          → (mem j out.0 && (prio j == out.1))
            ≡ ((mem j events || mem j ids && due j) && (prio j == out.1)))

  -- An event that is not due, or is below the priority, changes nothing.
  skip_case :
      (id : ℕ) (ids events : List ℕ) (priority : ℕ) (out : List ℕ × ℕ)
      → (due id ≡ true → prio id < priority)
      → Collected ids events priority out
      → Collected (id ∷ ids) events priority out
  skip_case id ids events priority out low (up, top, same) =
      (up, λ j m d. ground (arith, top j, low), λ j. ground (arith, same j, low))

  -- An event that is due and not below the priority is taken, and sets it.
  take_case :
      (id : ℕ) (ids events : List ℕ) (priority : ℕ) (out : List ℕ × ℕ)
      → due id ≡ true
      → priority ≤ prio id
      → Collected ids (id ∷ events) (prio id) out
      → Collected (id ∷ ids) events priority out
  take_case id ids events priority out d high (up, top, same) =
      (omega arith, λ j m d'. ground (arith, top j), λ j. ground (arith, same j))

  step_skip :
      (id : ℕ) (ids events : List ℕ) (priority : ℕ)
      → due id ≡ false
      → collect event now (id ∷ ids) events priority ≡ collect event now ids events priority
  unfolding collect
  step_skip id ids events priority waits = rw waits

  step_low :
      (id : ℕ) (ids : List ℕ) (e : ℕ) (events : List ℕ) (priority : ℕ)
      → due id ≡ true
      → prio id < priority
      → collect event now (id ∷ ids) (e ∷ events) priority
        ≡ collect event now ids (e ∷ events) priority
  unfolding collect
  step_low id ids e events priority d low =
      ap₂ (collect event now ids) (ground arith) (ground arith)

  step_take :
      (id : ℕ) (ids : List ℕ) (e : ℕ) (events : List ℕ) (priority : ℕ)
      → due id ≡ true
      → priority ≤ prio id
      → collect event now (id ∷ ids) (e ∷ events) priority
        ≡ collect event now ids (id ∷ e ∷ events) (prio id)
  unfolding collect
  step_take id ids e events priority d high =
      ap₂ (collect event now ids) (ground arith) (ground arith)

  step_first :
      (id : ℕ) (ids : List ℕ) (priority : ℕ)
      → due id ≡ true
      → collect event now (id ∷ ids) [] priority ≡ collect event now ids (id ∷ []) (prio id)
  unfolding collect
  step_first id ids priority d = ap₂ (collect event now ids) (ground arith) (ground arith)

  collect_some :
      (ids : List ℕ) (e : ℕ) (events : List ℕ) (priority : ℕ)
      → Collected ids (e ∷ events) priority (collect event now ids (e ∷ events) priority)
  collect_some [] e events priority = unfold collect in (omega arith, λ j m. cc, λ j. ground arith)
  collect_some (id ∷ ids) e events priority = elim (Bool-cases (due id)) [
    | inr waits ↦
        subst (Collected (id ∷ ids) (e ∷ events) priority)
          (sym (step_skip id ids (e ∷ events) priority waits))
          (skip_case id ids (e ∷ events) priority _ (λ d. cc) (collect_some ids e events priority))
    | inl d ↦ elim (Bool-cases (ltb (prio id) priority)) [
      | inl low ↦
          let low' = ltb→lt _ _ low in
          subst (Collected (id ∷ ids) (e ∷ events) priority)
            (sym (step_low id ids e events priority d low'))
            (skip_case id ids (e ∷ events) priority _ (λ _. low')
              (collect_some ids e events priority))
      | inr high ↦
          let high' : priority ≤ prio id = ground arith in
          subst (Collected (id ∷ ids) (e ∷ events) priority)
            (sym (step_take id ids e events priority d high'))
            (take_case id ids (e ∷ events) priority _ d high'
              (collect_some ids id (e ∷ events) (prio id)))
    ]
  ]

  collect_all : (ids : List ℕ) → Collected ids [] 0 (collect event now ids [] 0)
  collect_all [] = unfold collect in (omega arith, λ j m. cc, λ j. ground arith)
  collect_all (id ∷ ids) = elim (Bool-cases (due id)) [
    | inr waits ↦
        subst (Collected (id ∷ ids) [] 0) (sym (step_skip id ids [] 0 waits))
          (skip_case id ids [] 0 _ (λ d. cc) (collect_all ids))
    | inl d ↦
        subst (Collected (id ∷ ids) [] 0) (sym (step_first id ids 0 d))
          (take_case id ids [] 0 _ d (omega arith) (collect_some ids id [] (prio id)))
  ]

  mem-keep_priority :
      (priority : ℕ) (ids : List ℕ) (j : ℕ)
      → mem j (keep_priority event priority ids) ≡ (mem j ids && (prio j == priority))
  unfolding keep_priority
  mem-keep_priority priority [] j = refl
  mem-keep_priority priority (id ∷ ids) j = ground (arith, mem-keep_priority priority ids j)

-- A due event among `ids` that has the priority of the outcome.
abbrev IsTop : (ℕ → Event) → ℕ → List ℕ → ℕ → Type 0
IsTop event now ids top =
    (k : ℕ) × (mem k ids ≡ true)
    × (is_due now (event k).time_us ≡ true)
    × ((event k).priority ≡ top)

later-IsTop :
    (event : ℕ → Event) (now id : ℕ) (ids : List ℕ) (top : ℕ)
    → IsTop event now ids top
    → IsTop event now (id ∷ ids) top
later-IsTop event now id ids top (k, there, d, e) = (k, ground (arith, there), d, e)

first-IsTop :
    (event : ℕ → Event) (now id : ℕ) (ids : List ℕ) (top : ℕ)
    → is_due now (event id).time_us ≡ true
    → top ≡ (event id).priority
    → IsTop event now (id ∷ ids) top
first-IsTop event now id ids top d e = (id, ground arith, d, sym e)

-- The priority of the outcome is the old one, or that of a due event.
collect_some-IsTop :
    (event : ℕ → Event) (now : ℕ) (ids : List ℕ) (e : ℕ) (events : List ℕ) (priority : ℕ)
    → let out = collect event now ids (e ∷ events) priority in
      (out.1 ≡ priority) ⊎ IsTop event now ids out.1
collect_some-IsTop event now [] e events priority = unfold collect in inl refl
collect_some-IsTop event now (id ∷ ids) e events priority =
    elim (Bool-cases (is_due now (event id).time_us)) [
      | inr waits ↦
          subst Goal (sym (step_skip event now id ids (e ∷ events) priority waits))
            (later (collect_some-IsTop event now ids e events priority))
      | inl d ↦ elim (Bool-cases (ltb (event id).priority priority)) [
        | inl low ↦
            subst Goal (sym (step_low event now id ids e events priority d (ltb→lt _ _ low)))
              (later (collect_some-IsTop event now ids e events priority))
        | inr high ↦
            subst Goal (sym (step_take event now id ids e events priority d (ground arith)))
              (taken d (collect_some-IsTop event now ids id (e ∷ events) (event id).priority))
      ]
    ]
  where
    Goal : List ℕ × ℕ → Type 0
    Goal out = (out.1 ≡ priority) ⊎ IsTop event now (id ∷ ids) out.1

    later :
        {top : ℕ}
        → (top ≡ priority) ⊎ IsTop event now ids top
        → (top ≡ priority) ⊎ IsTop event now (id ∷ ids) top
    later (inl same) = inl same
    later {top} (inr there) = inr (later-IsTop event now id ids top there)

    taken :
        {top : ℕ}
        → is_due now (event id).time_us ≡ true
        → (top ≡ (event id).priority) ⊎ IsTop event now ids top
        → (top ≡ priority) ⊎ IsTop event now (id ∷ ids) top
    taken {top} d (inl same) = inr (first-IsTop event now id ids top d same)
    taken {top} d (inr there) = inr (later-IsTop event now id ids top there)

collect-IsTop :
    (event : ℕ → Event) (now : ℕ) (ids : List ℕ) (j : ℕ)
    → mem j ids ≡ true
    → is_due now (event j).time_us ≡ true
    → IsTop event now ids (collect event now ids [] 0).1
collect-IsTop event now [] j m d = cc
collect-IsTop event now (id ∷ ids) j m d = elim (Bool-cases (is_due now (event id).time_us)) [
  | inr waits ↦
      let there : mem j ids ≡ true = elim (Bool-cases (j == id)) [
        | inl same ↦
            let same' = ap (λ k. is_due now (event k).time_us) ((==_iff j id).0 same) in
            absurd (cc (same', d, waits))
        | inr other ↦ ground (arith, m, other)
      ] in
      subst (λ (out : List ℕ × ℕ). IsTop event now (id ∷ ids) out.1)
        (sym (step_skip event now id ids [] 0 waits))
        (later-IsTop event now id ids _ (collect-IsTop event now ids j there d))
  | inl first ↦
      subst (λ (out : List ℕ × ℕ). IsTop event now (id ∷ ids) out.1)
        (sym (step_first event now id ids 0 first))
        (elim (collect_some-IsTop event now ids id [] (event id).priority) [
          | inl same ↦ first-IsTop event now id ids _ first same
          | inr top ↦ later-IsTop event now id ids _ top
        ])
]

-- The first two loops of `doEvents` pick exactly the events of the ready list that are due and that no
-- due event of the ready list exceeds in priority.
pub select_lem :
    (w : World) (now j : ℕ)
    → (mem j (select w now) ≡ true) ↔ (
        (mem j w.list_ready ≡ true)
        × (is_due now (w.event j).time_us ≡ true)
        × ((k : ℕ)
            → mem k w.list_ready ≡ true
            → is_due now (w.event k).time_us ≡ true
            → (w.event k).priority ≤ (w.event j).priority))
unfolding select
select_lem w now j =
    let out = collect w.event now w.list_ready [] 0 in
    let (_, top, same) = collect_all w.event now w.list_ready in
    let picked = mem-keep_priority w.event now out.1 out.0 j ∙ same j in
    (
      λ m. (
        ground (arith, picked, m),
        ground (arith, picked, m),
        λ k there d. ground (arith, top k there d, picked, m),
      ),
      λ h.
          let (there, d, highest) = h in
          let (k, there', d', e) = collect-IsTop w.event now w.list_ready j there d in
          ground (arith, picked, there, d, highest k there' d', e, top j there d),
    )
