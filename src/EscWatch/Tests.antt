-- ===== src/EscWatch/Tests.antt =====
-- Page loads at concrete times.
use wosh.Prelude.{ℕ, ◌≡◌, refl, true, false, [], ◌∷◌, none, arith}
use wosh.EscWatch.{Watch, found, init, Event, pointer, typed, blur, step, run}
use wosh.EscWatch.Pattern.{shape_blurs, banner_hidden-run}

-- The state at page load.
abbrev fresh : Watch
fresh = record {
  detecting = true;
  armed = false;
  last_explained_at = none;
  last_input_at = none;
  last_shape_blur_at = none;
  banner_hidden = true;
  stored = none;
  refocused = 0;
}

abbrev eaten : ℕ → Event
eaten t = blur t true false true

-- Esc is eaten twice in a row while the user types: the second time shows the hint.
retried : (run fresh (typed 1000 ∷ eaten 1200 ∷ eaten 4000 ∷ [])).banner_hidden ≡ false
unfolding run step
retried = refl

-- A click explains the second blur.
explained :
    (run fresh (typed 1000 ∷ eaten 1200 ∷ pointer 3900 ∷ eaten 4000 ∷ [])).banner_hidden ≡ true
unfolding run step
explained = refl

banner_hidden-run_example :
    (run fresh (typed 1000 ∷ eaten 1200 ∷ pointer 3900 ∷ eaten 4000 ∷ [])).banner_hidden ≡ true
unfolding init shape_blurs step run
banner_hidden-run_example =
    banner_hidden-run false (found none) fresh
      (typed 1000 ∷ eaten 1200 ∷ pointer 3900 ∷ eaten 4000 ∷ []) refl (omega arith)
