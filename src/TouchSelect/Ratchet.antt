-- ===== src/TouchSelect/Ratchet.antt =====
-- Scrolling while a selection handle is dragged over an edge: `ratchet`. A row of the mirror is named
-- by a number, its place among the rows is another; a focus that is in no row is none.
use wosh.Prelude.{
  ℕ, ◌+◌, ◌-◌, ◌≤◌, ◌<◌, ◌==◌, ◌≡◌, refl, subst, Bool, true, false, ◌||◌, List, [], ◌∷◌, Option,
  none, some, if◌then◌else◌, ltb, leb, min, max, Bool-cases, inl, inr, arith, ◌⊎◌,
}

-- `RATCHET_LINES` and `RATCHET_MS`
abbrev pub ratchet_lines : ℕ
ratchet_lines = 2

abbrev pub ratchet_ms : ℕ
ratchet_ms = 80

-- The argument of `scrollLines`: lines up, lines down, or no call.
pub data Scroll : Type 0 where
  up down : ℕ → Scroll
  still : Scroll

-- `lastFocusDiv` and `lastRatchetAt`
pub record Ratchet : Type 0 where
  pub last_div : Option ℕ
  pub last_at : ℕ

-- Where the terminal is: the mirror's `top`, `viewportY` and `term.rows`.
pub record Screen : Type 0 where
  pub top : ℕ
  pub viewport : ℕ
  pub rows : ℕ

-- `delta` for a row of the buffer; its place on the screen is the difference to `viewport`.
unfoldable pub delta : Screen → ℕ → Scroll
delta s row =
    if leb row s.viewport
    then (if row == s.viewport then up ratchet_lines else up (min (s.viewport - row) s.rows))
    else if leb (s.viewport + (s.rows - 1)) row
    then (if row == s.viewport + (s.rows - 1)
        then down ratchet_lines
        else down (min (row - (s.viewport + (s.rows - 1))) s.rows))
    else still

unfoldable pub same_div : Option ℕ → ℕ → Bool
same_div none div = true
same_div (some d) div = d == div

-- After the guards: the time is recorded only where there is a scroll.
unfoldable pub scrolled : ℕ → Ratchet → Scroll → Ratchet × Scroll
scrolled now r still = (r, still)
scrolled now r (up n) = (record r { last_at = now }, up n)
scrolled now r (down n) = (record r { last_at = now }, down n)

unfoldable pub ratchet : Screen → ℕ → Option (ℕ × ℕ) → Ratchet → Ratchet × Scroll
unfolding delta same_div scrolled
ratchet s now none r = (record r { last_div = none }, still)
ratchet s now (some (div, idx)) r =
    let moved : Ratchet = record r { last_div = some div } in
    if same_div r.last_div div || ltb (now - r.last_at) ratchet_ms
    then (moved, still)
    else scrolled now moved (delta s (s.top + idx))

-- The viewport after a scroll that the buffer does not stop.
abbrev pub moved_by : Scroll → ℕ → ℕ
moved_by (up n) v = v - n
moved_by (down n) v = v + n
moved_by still v = v

abbrev pub lines_of : Scroll → ℕ
lines_of (up n) = n
lines_of (down n) = n
lines_of still = 0

-- How far a step may go, and where it brings a focus above the screen, below it or inside.
pub record IsClosed (s : Screen) (row : ℕ) (d : Scroll) : Type 0 where
  pub bounded : lines_of d ≤ max s.rows ratchet_lines
  pub above : (s.viewport ≤ row) ⊎ ((s.rows < s.viewport - row) ⊎ (moved_by d s.viewport ≡ row))
  pub below :
      (row ≤ s.viewport + (s.rows - 1))
      ⊎ ((s.viewport + (s.rows - 1) + s.rows < row) ⊎ (moved_by d s.viewport + (s.rows - 1) ≡ row))
  pub inside : (row ≤ s.viewport) ⊎ ((s.viewport + (s.rows - 1) ≤ row) ⊎ (d ≡ still))

-- On a screen of at least one row, a step is at most a screenful, or the crawl at the edge; a focus
-- beyond an edge by no more than a screenful is brought to that edge exactly, while one strictly
-- inside the screen moves nothing.
delta-IsClosed : (s : Screen) (row : ℕ) → 1 ≤ s.rows → IsClosed s row (delta s row)
unfolding delta
delta-IsClosed s row h = ground arith

abbrev is_still : Scroll → Bool
is_still (up n) = false
is_still (down n) = false
is_still still = true

-- The times of the scrolls of a drag; each sighting of the focus comes some time after the one before.
unfoldable pub scroll_times : ℕ → Ratchet → List (ℕ × Screen × Option (ℕ × ℕ)) → List ℕ
unfolding ratchet
scroll_times now r [] = []
scroll_times now r ((elapsed, s, focus) ∷ es) =
    let done = ratchet s (now + elapsed) focus r in
    let rest = scroll_times (now + elapsed) done.0 es in
    if is_still done.1 then rest else (now + elapsed) ∷ rest

abbrev pub IsSpaced : ℕ → List ℕ → Type 0
IsSpaced t [] = Unit
IsSpaced t (u ∷ us) = (t + ratchet_ms ≤ u) × IsSpaced u us

-- A step that scrolls is recorded, and comes late enough; any other leaves the time as it was.
IsTimed : ℕ → Ratchet → Ratchet × Scroll → Type 0
IsTimed now r done =
    ((is_still done.1 ≡ true) × (done.0.last_at ≡ r.last_at))
    ⊎ ((is_still done.1 ≡ false) × (done.0.last_at ≡ now) × (r.last_at + ratchet_ms ≤ now))

scrolled-IsTimed :
    (now : ℕ) (r : Ratchet) (d : Scroll)
    → r.last_at + ratchet_ms ≤ now
    → IsTimed now r (scrolled now r d)
unfolding scrolled IsTimed
scrolled-IsTimed now r still h = inl (refl, refl)
scrolled-IsTimed now r (up n) h = inr (refl, refl, h)
scrolled-IsTimed now r (down n) h = inr (refl, refl, h)

ratchet-IsTimed :
    (s : Screen) (now : ℕ) (focus : Option (ℕ × ℕ)) (r : Ratchet)
    → r.last_at ≤ now
    → IsTimed now r (ratchet s now focus r)
unfolding ratchet IsTimed
ratchet-IsTimed s now none r h = inl (refl, refl)
ratchet-IsTimed s now (some (div, idx)) r h =
    elim (Bool-cases (same_div r.last_div div || ltb (now - r.last_at) ratchet_ms)) [
      | inl e ↦ rw e (inl (refl, refl))
      | inr e ↦ rw e (
          scrolled-IsTimed now (record r { last_div = some div }) (delta s (s.top + idx))
            (ground arith))
    ]

-- However a handle is dragged, the terminal is scrolled at most every `ratchet_ms` milliseconds.
scroll_times-IsSpaced :
    (es : List (ℕ × Screen × Option (ℕ × ℕ))) (now : ℕ) (r : Ratchet)
    → r.last_at ≤ now
    → IsSpaced r.last_at (scroll_times now r es)
unfolding scroll_times IsTimed
scroll_times-IsSpaced [] now r h = tt
scroll_times-IsSpaced ((elapsed, s, focus) ∷ es) now r h =
    let done = ratchet s (now + elapsed) focus r in
    let rest = scroll_times (now + elapsed) done.0 es in
    elim (ratchet-IsTimed s (now + elapsed) focus r (omega arith)) [
      | inl (quiet, same) ↦ rw quiet (
          subst (λ t. IsSpaced t rest) same
            (scroll_times-IsSpaced es (now + elapsed) done.0 (omega arith)))
      | inr (moved, at, spaced) ↦ rw moved (
        spaced,
        subst (λ t. IsSpaced t rest) at
            (scroll_times-IsSpaced es (now + elapsed) done.0 (omega arith)),
      )
    ]
