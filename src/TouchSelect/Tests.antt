-- ===== src/TouchSelect/Tests.antt =====
-- A hold on a mirror of three rows, over a buffer whose lines are numbered.
use wosh.Prelude.{ℕ, ◌≡◌, refl, true, false, List, [], ◌∷◌, Option, none, some, codes, get_elem?}
use wosh.TouchSelect.Refit.{
  Guard, Overlay, Event, wrapped, refit, selection, calls, after_hold, has, run, runs-run_of_hold,
}
use wosh.TouchSelect.Anchor.{Line, Mirror, IsAnchored, re_anchor, re_anchor-IsAnchored}
use wosh.TouchSelect.Ratchet.{Screen, Ratchet, delta, down, scroll_times}
use wosh.TouchSelect.Copy.{copy_places}

-- A hold in which the first of two callbacks is called twice
abbrev held : List Event
held = wrapped ∷ wrapped ∷ selection true ∷ refit 0 ∷ refit 0 ∷ []

abbrev mounted : Overlay
mounted = record { frozen = false; guards = [] }

once :
    (run mounted held).guards
    ≡ record { deferred = true; runs = 0 } ∷ record { deferred = false; runs = 0 } ∷ []
unfolding run
once = refl

abbrev two : List Guard
two = record { deferred = false; runs = 3 } ∷ record { deferred = false; runs = 5 } ∷ []

abbrev called : List ℕ
called = 1 ∷ 0 ∷ 1 ∷ []

-- Held until the terminal is resized, with one call of the first and two of the second
runs-run_of_hold_example :
    get_elem? (run (record { frozen = true; guards = two }) (calls true called)).guards 1
    ≡ some (after_hold (has 1 called) (record { deferred = false; runs = 5 }))
runs-run_of_hold_example =
    runs-run_of_hold true called 1 two (record { deferred = false; runs = 5 }) refl

abbrev numbered : ℕ → Option Line
numbered n = some (record { text = n ∷ []; wrapped = false })

abbrev mirror : Mirror
mirror = record {
  top = 10;
  rows =
      record { text = codes "old"; join_next = false }
      ∷ record { text = codes "er"; join_next = false }
      ∷ [];
}

re_anchor-IsAnchored_example : IsAnchored numbered 8 6 mirror (re_anchor numbered 8 6 mirror)
re_anchor-IsAnchored_example = re_anchor-IsAnchored numbered 8 6 mirror

covered : (re_anchor numbered 8 6 mirror).top ≡ 8
unfolding re_anchor
covered = refl

abbrev screen : Screen
screen = record { top = 100; viewport = 100; rows = 24 }

closed : delta screen 130 ≡ down 7
unfolding delta
closed = refl

abbrev fresh : Ratchet
fresh = record { last_div = none; last_at = 0 }

-- Three sightings on the last row; the first is the press, the third is too soon.
abbrev sightings : List (ℕ × Screen × Option (ℕ × ℕ))
sightings =
    (500, screen, some (7, 23)) ∷ (20, screen, some (8, 23)) ∷ (20, screen, some (7, 23)) ∷ []

one_scroll : scroll_times 1000 fresh sightings ≡ 1520 ∷ []
unfolding scroll_times
one_scroll = refl

-- From the second column of a wrapped row to the end of the row after the one it goes on in
copied :
    copy_places
      (record { text = codes "above"; join_next = false }
        ∷ record { text = codes "abc"; join_next = true }
        ∷ record { text = codes "g  "; join_next = false }
        ∷ record { text = codes "hi "; join_next = false }
        ∷ [])
      (some (record { row = 1; offset = 1 }))
      (some (record { row = 3; offset = 3 }))
    ≡ some (codes "bcg\nhi")
unfolding copy_places wosh.Prelude.is_space
copied = refl
