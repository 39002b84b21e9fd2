-- ===== src/EscWatch/Pattern.antt =====
-- When the hint appears: never for a single blur, never without typing.
use wosh.Prelude.{
  ℕ, ◌+◌, ◌≤◌, ◌≡◌, Bool, true, false, List, [], ◌∷◌, none, some, if◌then◌else◌, arith, Bool-cases,
  inl, inr,
}
use wosh.EscWatch.{
  Watch, Stored, init, Event, pointer, keydown, typed, blur, dismiss, never, within, is_shape, step,
  run, judge, tab, escape, other,
}

-- Whether this event is a blur that the handler counts as unexplained.
unfoldable pub counts : Watch → Event → Bool
counts w (blur t on_terminal related focus) = is_shape t on_terminal related focus w
counts w _ = false

-- The number of unexplained blurs in a sequence of events.
unfoldable pub shape_blurs : Watch → List Event → ℕ
unfolding counts
shape_blurs w [] = 0
shape_blurs w (e ∷ es) =
    let rest = shape_blurs (step w e) es in if counts w e then 1 + rest else rest

abbrev counted : Watch → Event → ℕ
counted w e = if counts w e then 1 else 0

-- What a state says after `n` unexplained blurs.
record Reached (n : ℕ) (w : Watch) : Type 0 where
  arming : w.armed ≡ true → 1 ≤ n
  showing : w.banner_hidden ≡ false → 2 ≤ n

Reached-mono : {m n : ℕ} {w : Watch} → Reached m w → m ≤ n → Reached n w
Reached-mono h le = ground arith

step-Reached : (n : ℕ) (w : Watch) (e : Event) → Reached n w → Reached (counted w e + n) (step w e)
unfolding step counts
step-Reached n w (pointer t) h = ground arith
step-Reached n w (keydown t tab on_terminal) h = ground arith
step-Reached n w (keydown t escape true) h = ground arith
step-Reached n w (keydown t escape false) h = ground arith
step-Reached n w (keydown t other on_terminal) h = ground arith
step-Reached n w (typed t) h = ground arith
step-Reached n w (blur t on_terminal related focus) h =
    elim (Bool-cases (is_shape t on_terminal related focus w)) [
      | inl e ↦ rw e (judge-Reached n t w h)
      | inr e ↦ rw e (Reached-mono h (omega arith))
    ]
  where
    judge-Reached : (n t : ℕ) (w : Watch) → Reached n w → Reached (1 + n) (judge t w)
    judge-Reached n t w h = ground arith
step-Reached n w dismiss h = ground arith
step-Reached n w (never true) h = ground arith
step-Reached n w (never false) h = ground arith

run-Reached :
    (es : List Event) (n : ℕ) (w : Watch) → Reached n w → Reached (shape_blurs w es + n) (run w es)
unfolding shape_blurs run
run-Reached [] n w h = ground arith
run-Reached (e ∷ es) n w h =
    Reached-mono (run-Reached es (counted w e + n) (step w e) (step-Reached n w e h)) (ground arith)

init-Reached : (coarse : Bool) (s : Stored) (w : Watch) → init coarse s ≡ some w → Reached 0 w
unfolding init
init-Reached coarse s w h = ground arith

-- On a page where at most one blur is unexplained, whatever else happens, the hint never appears.
pub banner_hidden-run :
    (coarse : Bool) (s : Stored) (w : Watch) (es : List Event)
    → init coarse s ≡ some w
    → shape_blurs w es ≤ 1
    → (run w es).banner_hidden ≡ true
banner_hidden-run coarse s w es started few =
    let r = run-Reached es 0 w (init-Reached coarse s w started) in ground (arith, r.showing)

-- No event of a list is typing that reaches the session.
abbrev pub NoTyping : List Event → Type 0
NoTyping [] = Unit
NoTyping (typed t ∷ es) = ⊥
NoTyping (e ∷ es) = NoTyping es

record Untyped (w : Watch) : Type 0 where
  no_input : w.last_input_at ≡ none
  not_armed : w.armed ≡ false
  hidden : w.banner_hidden ≡ true

run-Untyped : (es : List Event) (w : Watch) → NoTyping es → Untyped w → Untyped (run w es)
unfolding run step within
run-Untyped [] w q h = h
run-Untyped (pointer t ∷ es) w q h = run-Untyped es _ q (ground arith)
run-Untyped (keydown t tab b ∷ es) w q h = run-Untyped es _ q (ground arith)
run-Untyped (keydown t escape true ∷ es) w q h = run-Untyped es _ q (ground arith)
run-Untyped (keydown t escape false ∷ es) w q h = run-Untyped es _ q h
run-Untyped (keydown t other b ∷ es) w q h = run-Untyped es _ q h
run-Untyped (typed t ∷ es) w q h = absurd q
run-Untyped (blur t b r f ∷ es) w q h = run-Untyped es _ q (ground arith)
run-Untyped (dismiss ∷ es) w q h = run-Untyped es _ q (ground arith)
run-Untyped (never true ∷ es) w q h = run-Untyped es _ q (ground arith)
run-Untyped (never false ∷ es) w q h = run-Untyped es _ q (ground arith)

-- However many blurs there are, the hint never appears on a page where nothing was typed.
banner_hidden-run_of_NoTyping :
    (coarse : Bool) (s : Stored) (w : Watch) (es : List Event)
    → init coarse s ≡ some w
    → NoTyping es
    → (run w es).banner_hidden ≡ true
banner_hidden-run_of_NoTyping coarse s w es started quiet =
    (run-Untyped es w quiet (init-Untyped coarse s w started)).hidden
  where
    init-Untyped : (coarse : Bool) (s : Stored) (w : Watch) → init coarse s ≡ some w → Untyped w
    init-Untyped coarse s w h = unfold init in ground arith
