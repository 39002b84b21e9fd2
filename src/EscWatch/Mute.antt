-- ===== src/EscWatch/Mute.antt =====
-- What silences the detector for the rest of a page load.
use wosh.Prelude.{
  ℕ, ◌+◌, ◌≤◌, ◌≡◌, refl, Bool, true, false, ◌&&◌, not, List, [], ◌∷◌, if◌then◌else◌, arith,
  Bool-cases, inl, inr,
}
use wosh.EscWatch.{
  Watch, Event, pointer, keydown, typed, blur, dismiss, never, step, run, tab, escape, other,
}

-- Whether the hint goes from hidden to shown in this step.
unfoldable pub fires : Watch → Event → Bool
fires w e = w.banner_hidden && not (step w e).banner_hidden

-- How often the hint appears in a sequence of events.
unfoldable pub firings : Watch → List Event → ℕ
unfolding fires
firings w [] = 0
firings w (e ∷ es) = let rest = firings (step w e) es in if fires w e then 1 + rest else rest

fires-quiet : (w : Watch) (e : Event) → w.detecting ≡ false → fires w e ≡ false
unfolding fires step
fires-quiet w (pointer t) h = ground arith
fires-quiet w (keydown t tab b) h = ground arith
fires-quiet w (keydown t escape true) h = ground arith
fires-quiet w (keydown t escape false) h = ground arith
fires-quiet w (keydown t other b) h = ground arith
fires-quiet w (typed t) h = ground arith
fires-quiet w (blur t b r f) h = ground arith
fires-quiet w dismiss h = ground arith
fires-quiet w (never true) h = ground arith
fires-quiet w (never false) h = ground arith

-- Detection is never switched on again.
step-quiet : (w : Watch) (e : Event) → w.detecting ≡ false → (step w e).detecting ≡ false
unfolding step
step-quiet w (pointer t) h = ground arith
step-quiet w (keydown t tab b) h = ground arith
step-quiet w (keydown t escape true) h = ground arith
step-quiet w (keydown t escape false) h = ground arith
step-quiet w (keydown t other b) h = ground arith
step-quiet w (typed t) h = ground arith
step-quiet w (blur t b r f) h = ground arith
step-quiet w dismiss h = ground arith
step-quiet w (never true) h = ground arith
step-quiet w (never false) h = ground arith

firings-quiet : (es : List Event) (w : Watch) → w.detecting ≡ false → firings w es ≡ 0
unfolding firings
firings-quiet [] w h = refl
firings-quiet (e ∷ es) w h = rw (fires-quiet w e h) (firings-quiet es (step w e) (step-quiet w e h))

fires-stops : (w : Watch) (e : Event) → fires w e ≡ true → (step w e).detecting ≡ false
unfolding fires step
fires-stops w (pointer t) h = ground arith
fires-stops w (keydown t tab b) h = ground arith
fires-stops w (keydown t escape true) h = ground arith
fires-stops w (keydown t escape false) h = ground arith
fires-stops w (keydown t other b) h = ground arith
fires-stops w (typed t) h = ground arith
fires-stops w (blur t b r f) h = ground arith
fires-stops w dismiss h = ground arith
fires-stops w (never true) h = ground arith
fires-stops w (never false) h = ground arith

-- From any state and whatever happens, the hint appears at most once.
firings-le_one : (es : List Event) (w : Watch) → firings w es ≤ 1
unfolding firings
firings-le_one [] w = omega arith
firings-le_one (e ∷ es) w = elim (Bool-cases (fires w e)) [
  | inl f ↦ rw (f, firings-quiet es (step w e) (fires-stops w e f)) (omega arith)
  | inr f ↦ rw f (firings-le_one es (step w e))
]

run-hidden :
    (es : List Event) (w : Watch)
    → w.detecting ≡ false
    → w.banner_hidden ≡ true
    → (run w es).banner_hidden ≡ true
unfolding run
run-hidden [] w q h = h
run-hidden (e ∷ es) w q h = run-hidden es (step w e) (step-quiet w e q) (hidden (fires-quiet w e q))
  where
    hidden : fires w e ≡ false → (step w e).banner_hidden ≡ true
    hidden k = unfold fires in ground arith

-- After an Escape that reached the terminal the hint is hidden, and stays so whatever follows.
banner_hidden-run_of_escape :
    (w : Watch) (t : ℕ) (es : List Event)
    → (run w (keydown t escape true ∷ es)).banner_hidden ≡ true
unfolding run step
banner_hidden-run_of_escape w t es = run-hidden es _ refl refl
