-- ===== src/Links/Tests.antt =====
-- A page where points are numbers and the scheme is what stands before the colon.
use wosh.Prelude.{
  ℕ, ◌+◌, ◌==◌, ◌≡◌, refl, true, false, List, [], ◌∷◌, Option, none, some, if◌then◌else◌, ltb, Text,
  codes, All,
}
use wosh.Links.{Page, Event, pointerdown, activated, toggled, open_clicked, cancelled, run}
use wosh.Links.Consent.{IsWeb, OnAsked, fresh, opened-run}

scheme_of : Text → Option Text
scheme_of [] = none
scheme_of (c ∷ s) =
    let rest = scheme_of s in
    if c == b':' then some (c ∷ []) else elim rest [ none ↦ none | some r ↦ some (c ∷ r) ]

abbrev flat : Page
flat = record { Point = ℕ; far = λ a b. ltb (a + 6) b; scheme = scheme_of }

abbrev link : Text
link = codes "https://a"

-- A tap is asked about and confirmed with the box checked; the next one opens at once; a drag, a tap
-- that dismisses a selection and a scheme of another kind open nothing.
abbrev taps : List (Event flat)
taps =
    pointerdown 5 false
    ∷ activated false (some 6) link
    ∷ toggled
    ∷ open_clicked true
    ∷ activated false (some 5) link
    ∷ activated false (some 20) link
    ∷ activated false none (codes "file:x")
    ∷ pointerdown 5 true
    ∷ activated false (some 5) link
    ∷ []

two_opened : (run flat (fresh flat false) taps).opened ≡ link ∷ link ∷ []
unfolding run scheme_of
two_opened = refl

opened-run_example :
    All (IsWeb flat) (run flat (fresh flat false) taps).opened
    × OnAsked flat (IsWeb flat) (run flat (fresh flat false) taps).dialog
opened-run_example = opened-run flat false taps

-- The same where storage refuses: the second link asks again.
abbrev refused_taps : List (Event flat)
refused_taps =
    activated false none link
    ∷ toggled
    ∷ open_clicked false
    ∷ activated false none link
    ∷ cancelled
    ∷ []
