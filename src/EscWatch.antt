-- ===== src/EscWatch.antt =====
-- The detector of an extension that eats Esc: `initEscWatch` of site/esc-watch.mjs. The closure's
-- variables are a record, its event handlers the cases of `step`. Times are milliseconds of one
-- monotone clock, `none` is `-Infinity`.
pub mod Pattern
pub mod Mute
mod Tests
use wosh.Prelude.{
  ℕ, ◌+◌, ◌-◌, Bool, true, false, ◌||◌, ◌&&◌, not, List, [], ◌∷◌, Option, none, some, if◌then◌else◌,
  ltb, Text, codes, text_eq,
}

abbrev pub explain_window_ms : ℕ
explain_window_ms = 300

abbrev pub input_window_ms : ℕ
input_window_ms = 5000

abbrev pub retry_window_ms : ℕ
retry_window_ms = 30000

pub record Watch : Type 0 where
  pub detecting : Bool
  pub armed : Bool
  pub last_explained_at : Option ℕ
  pub last_input_at : Option ℕ
  pub last_shape_blur_at : Option ℕ
  pub banner_hidden : Bool
  -- `localStorage` under `KEY`, and how often `refocus` was called
  pub stored : Option Text
  pub refocused : ℕ

-- What `localStorage.getItem` does: it throws, or returns the value if there is one.
pub data Stored : Type 0 where
  refused : Stored
  found : Option Text → Stored

unfoldable pub is_off : Stored → Bool
is_off refused = false
is_off (found none) = false
is_off (found (some v)) = text_eq v (codes "off")

abbrev stored_value : Stored → Option Text
stored_value refused = none
stored_value (found v) = v

-- Nothing is wired on a coarse pointer or after "don't show again".
unfoldable pub init : Bool → Stored → Option Watch
unfolding is_off
init coarse s =
    if coarse
    then none
    else if is_off s
    then none
    else some (record {
      detecting = true;
      armed = false;
      last_explained_at = none;
      last_input_at = none;
      last_shape_blur_at = none;
      banner_hidden = true;
      stored = stored_value s;
      refocused = 0;
    })

pub data Key : Type 0 where
  tab escape other : Key

-- A blur says whether its target is the terminal, whether `relatedTarget` is set, and whether the
-- document has focus; a keydown, whether the terminal is the active element; "don't show again",
-- whether the storage takes the value.
pub data Event : Type 0 where
  pointer : ℕ → Event
  keydown : ℕ → Key → Bool → Event
  typed : ℕ → Event
  blur : ℕ → Bool → Bool → Bool → Event
  dismiss : Event
  never : Bool → Event

-- `t - last < window`
unfoldable pub within : ℕ → Option ℕ → ℕ → Bool
within t none window = false
within t (some last) window = ltb (t - last) window

explain : ℕ → Watch → Watch
explain t w = record w { last_explained_at = some t }

-- The body of the blur handler behind its guards.
judge : ℕ → Watch → Watch
unfolding within
judge t w =
    let typing = within t w.last_input_at input_window_ms in
    if w.armed && (typing || within t w.last_shape_blur_at retry_window_ms)
    then record w { detecting = false; banner_hidden = false; last_shape_blur_at = some t }
    else if typing
    then record w { armed = true; last_shape_blur_at = some t }
    else record w { last_shape_blur_at = some t }

-- The guards: a blur of this shape is not explained by a click, a dialog, Tab or another window.
unfoldable pub is_shape : ℕ → Bool → Bool → Bool → Watch → Bool
unfolding within
is_shape t on_terminal related focus w =
    w.detecting
    && on_terminal
    && not related
    && focus
    && not (within t w.last_explained_at explain_window_ms)

close : Watch → Watch
close w = record w { banner_hidden = true; refocused = w.refocused + 1 }

unfoldable pub step : Watch → Event → Watch
unfolding explain judge is_shape close
step w (pointer t) = explain t w
step w (keydown t tab on_terminal) = explain t w
step w (keydown t escape true) = record w { detecting = false; banner_hidden = true }
step w (keydown t escape false) = w
step w (keydown t other on_terminal) = w
step w (typed t) = record w { last_input_at = some t }
step w (blur t on_terminal related focus) =
    if is_shape t on_terminal related focus w then judge t w else w
step w dismiss = close w
step w (never true) = close (record w { stored = some (codes "off") })
step w (never false) = close w

-- A page load: the events in order.
unfoldable pub run : Watch → List Event → Watch
run w [] = w
run w (e ∷ es) = run (step w e) es
