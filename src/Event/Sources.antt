-- ===== src/Event/Sources.antt =====
-- The ready flags of the sources after changes of events and sources.
use icetunnel.Prelude.{
  ℕ, ◌≡◌, refl, ◌∙◌, inl, inr, Bool, false, List, [], ◌∷◌, foldl, ◌==◌, if◌then◌else◌, arith,
  Bool-cases,
}
use icetunnel.Event.{
  World, update_ready, set_ready, unlink_source, source_set_ready, destroy_source, bool_eq,
}

set_ready-source :
    (w : World) (id : ℕ) (value : Bool) (j : ℕ)
    → ((set_ready w id value).source j).ready ≡ (w.source j).ready
unfolding set_ready update_ready
set_ready-source w id value j = ground arith

foldl-source :
    (f : World → ℕ → World) (j : ℕ)
    → ((w : World) (id : ℕ) → ((f w id).source j).ready ≡ (w.source j).ready)
    → (ids : List ℕ) (w : World) → ((foldl f w ids).source j).ready ≡ (w.source j).ready
foldl-source f j same [] w = refl
foldl-source f j same (id ∷ ids) w = foldl-source f j same ids (f w id) ∙ same w id

-- `Source::setReady` sets the flag of its source and of no other.
pub ready-source_set_ready :
    (w : World) (s : ℕ) (value : Bool) (j : ℕ)
    → ((source_set_ready w s value).source j).ready ≡ (if j == s then value else (w.source j).ready)
unfolding source_set_ready
ready-source_set_ready w s value j = elim (Bool-cases (bool_eq (w.source s).ready value)) [
  | inl same ↦ rw same (ground (arith, same))
  | inr other ↦ rw other (
      foldl-source _ j (λ w' id. set_ready-source w' id value j) (w.source s).list _ ∙ ground arith)
]

unlink_source-source :
    (w : World) (id j : ℕ) → ((unlink_source w id).source j).ready ≡ (w.source j).ready
unfolding unlink_source
unlink_source-source w id j = ground arith

-- A source that is destroyed is not ready at its end.
pub ready-destroy_source :
    (w : World) (s j : ℕ)
    → ((destroy_source w s).source j).ready ≡ (if j == s then false else (w.source j).ready)
unfolding destroy_source
ready-destroy_source w s j =
    foldl-source unlink_source j (λ w' id. unlink_source-source w' id j)
      ((source_set_ready w s false).source s).list (source_set_ready w s false)
    ∙ ready-source_set_ready w s false j
