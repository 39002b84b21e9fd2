-- ===== src/Mobile/Modifiers.antt =====
-- The sticky modifiers are one-shot, and Ctrl with a letter is its control code.
use wosh.Prelude.{
  ℕ, ◌+◌, ◌≤◌, ◌≡◌, refl, Bool, true, false, ◌&&◌, ◌||◌, not, List, [], ◌∷◌, ◌++◌, if◌then◌else◌,
  arith, Bool-cases, inl, inr, Text, All,
}
use wosh.Mobile.{
  Armed, disarmed, arrow, is_report, Upper, control, modified_char, modified, transform_input,
  Event, chunk, run,
}

abbrev pub is_armed : Armed → Bool
is_armed a = a.ctrl || a.alt

abbrev pub chunks : List Text → List Event
chunks [] = []
chunks (s ∷ ss) = chunk s ∷ chunks ss

abbrev pub IsReport : Text → Type 0
IsReport s = is_report s ≡ true

run-disarmed : (u : Upper) (ss : List Text) → run u disarmed (chunks ss) ≡ (ss, disarmed)
unfolding run
run-disarmed u [] = refl
run-disarmed u (s ∷ ss) = rw (run-disarmed u ss) refl

transform_input-report :
    (u : Upper) (a : Armed) (s : Text) → IsReport s → transform_input u a s ≡ (s, a)
unfolding transform_input
transform_input-report u a s h = elim (Bool-cases (not a.ctrl && not a.alt)) [
  | inl e ↦ rw e refl
  | inr e ↦ rw (e, h) refl
]

transform_input-key :
    (u : Upper) (a : Armed) (s : Text)
    → is_armed a ≡ true
    → is_report s ≡ false
    → transform_input u a s ≡ (modified u a s, disarmed)
unfolding transform_input
transform_input-key u a s h hs =
    let e : (not a.ctrl && not a.alt) ≡ false = ground arith in rw (e, hs) refl

-- Modifiers that are armed apply to the first chunk that is not one of the terminal's own reports:
-- the reports before it pass unchanged and leave them armed, and everything after it passes
-- unchanged.
pub run-chunks :
    (u : Upper) (a : Armed) (reports : List Text) (key : Text) (rest : List Text)
    → is_armed a ≡ true
    → All IsReport reports
    → is_report key ≡ false
    → run u a (chunks (reports ++ key ∷ rest)) ≡ (reports ++ modified u a key ∷ rest, disarmed)
unfolding run
run-chunks u a [] key rest h hr hk = rw (transform_input-key u a key h hk, run-disarmed u rest) refl
run-chunks u a (r ∷ reports) key rest h hr hk =
    rw (transform_input-report u a r hr.0, run-chunks u a reports key rest h hr.1 hk) refl

control-lower : (u : Upper) (c : ℕ) → 1 ≤ c → c ≤ 26 → control u (c + 96) ≡ c
unfolding control
control-lower u c hl hu = ground (arith, u.upper-lower (c + 96) (omega arith) (omega arith))

control-upper : (u : Upper) (c : ℕ) → 1 ≤ c → c ≤ 26 → control u (c + 64) ≡ c
unfolding control
control-upper u c hl hu = ground (arith, u.upper_self (c + 64) (omega arith) (omega arith))

-- What Ctrl makes of a code unit that it knows is below 32.
abbrev pub after_alt : Armed → ℕ → Text
after_alt a c = if a.alt then 27 ∷ c ∷ [] else c ∷ []

modified-letter :
    (u : Upper) (a : Armed) (c : ℕ)
    → a.ctrl ≡ true
    → 1 ≤ c
    → c ≤ 26
    → (modified u a ((c + 96) ∷ []) ≡ after_alt a c)
      × (modified u a ((c + 64) ∷ []) ≡ after_alt a c)
unfolding modified modified_char arrow
modified-letter u a c h hl hu =
    (rw (h, control-lower u c hl hu) refl, rw (h, control-upper u c hl hu) refl)
