-- ===== src/Mobile.antt =====
-- The keys of site/mobile.mjs: `transformInput` with the sticky modifiers, and a press of a key in
-- the bar.
pub mod Modifiers
pub mod Press
mod Tests
use wosh.Prelude.{
  ℕ, ◌+◌, ◌==◌, Bool, true, false, ◌&&◌, ◌||◌, not, List, [], ◌∷◌, Option, none, some,
  if◌then◌else◌, leb, ltb, Text, is_nil, ◌≤◌, ◌≡◌, ◌-◌, ◌%◌,
}

pub record Armed : Type 0 where
  pub ctrl : Bool
  pub alt : Bool

abbrev pub disarmed : Armed
disarmed = record { ctrl = false; alt = false }

-- `ARROW`: its letter
unfoldable pub arrow : Text → Option ℕ
arrow (e ∷ p ∷ l ∷ []) =
    if (e == 27 && (p == b'[' || p == b'O')) && (leb b'A' l && leb l b'D') then some l else none
arrow s = none

-- `REPORT`
unfoldable pub is_report : Text → Bool
is_report (e ∷ b ∷ c ∷ s) =
    (e == 27 && b == b'[') && ((c == b'<' || c == b'M') || ((c == b'I' || c == b'O') && is_nil s))
is_report s = false

-- What a browser's `toUpperCase` makes of one code unit.
pub record Upper : Type 0 where
  pub first_upper : ℕ → ℕ
  pub upper-lower : (c : ℕ) → 97 ≤ c → c ≤ 122 → first_upper c ≡ c - 32
  pub upper_self : (c : ℕ) → 64 ≤ c → c ≤ 95 → first_upper c ≡ c

unfoldable pub digit_of : Armed → ℕ
digit_of a = 49 + ((if a.alt then 2 else 0) + (if a.ctrl then 4 else 0))

-- Ctrl on one code unit
unfoldable pub control : Upper → ℕ → ℕ
control u s =
    let code = if s == 32 then 64 else u.first_upper s in
    if leb 64 code && ltb code 128 then code % 32 else s

unfoldable pub modified_char : Upper → Armed → ℕ → Text
unfolding control
modified_char u a s =
    let out = if a.ctrl then control u s else s in if a.alt then 27 ∷ out ∷ [] else out ∷ []

-- What follows the disarming.
unfoldable pub modified : Upper → Armed → Text → Text
unfolding modified_char digit_of arrow
modified u a s = elim (arrow s) [
  | some l ↦ 27 ∷ b'[' ∷ b'1' ∷ b';' ∷ digit_of a ∷ l ∷ []
  | none ↦ elim s [ [] ↦ [] | c ∷ cs ↦ if is_nil cs then modified_char u a c else c ∷ cs ]
]

unfoldable pub transform_input : Upper → Armed → Text → Text × Armed
unfolding modified is_report
transform_input u a s =
    if not a.ctrl && not a.alt
    then (s, a)
    else if is_report s
    then (s, a)
    else (modified u a s, disarmed)

-- A press of Ctrl or Alt in the bar, and a chunk from the terminal.
pub data Event : Type 0 where
  press_ctrl press_alt : Event
  chunk : Text → Event

-- What the session is written, in order.
unfoldable pub run : Upper → Armed → List Event → List Text × Armed
unfolding transform_input
run u a [] = ([], a)
run u a (press_ctrl ∷ es) = run u (record a { ctrl = not a.ctrl }) es
run u a (press_alt ∷ es) = run u (record a { alt = not a.alt }) es
run u a (chunk s ∷ es) =
    let done = transform_input u a s in let rest = run u done.1 es in (done.0 ∷ rest.0, rest.1)
