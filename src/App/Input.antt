-- ===== src/App/Input.antt =====
-- Typed input on its way to the session: `wireInput` of site/app.mjs with the variables that its
-- handlers of `onData`, `onBinary` and `onResize` read. A number stands for a session, and a chunk is what `transformInput` made
-- of one.
pub mod Silence
use wosh.Prelude.{
  ℕ, ◌%◌, ◌==◌, Bool, true, false, ◌||◌, not, List, [], ◌∷◌, ◌++◌, map, Option, none, some,
  if◌then◌else◌, Text,
}

-- What `writeInput` is given: the UTF-8 encoding of a text, or bytes.
pub data Sent : Type 0 where
  encoded : Text → Sent
  bytes : List ℕ → Sent

-- `window.__wosh.failure` as whether it is set, `currentSession`, the session of `wired`, and the
-- calls of `writeInput` and of `resize`, each in order.
pub record Input : Type 0 where
  pub failure : Bool
  pub current : Option ℕ
  pub wired : Option ℕ
  pub writes : List (ℕ × Sent)
  pub resizes : List (ℕ × (ℕ × ℕ))

-- What an attempt and a session do to them: the dial gives a session, `fatal` is called, the pump is
-- about to start, a session ends; and the terminal hands over a chunk, a chunk that is no text, or a
-- size in columns and rows.
pub data Event : Type 0 where
  dialed ready ended : ℕ → Event
  fatal : Event
  typed : Text → Event
  binary : List ℕ → Event
  resized : ℕ → ℕ → Event

unfoldable pub is_current : ℕ → Option ℕ → Bool
is_current n none = false
is_current n (some m) = m == n

unfoldable pub write_input : Input → Sent → Option ℕ → Input
unfolding is_current
write_input p s none = p
write_input p s (some n) =
    if not (is_current n p.current) || p.failure
    then p
    else record p { writes = p.writes ++ (n, s) ∷ [] }

unfoldable pub on_data : Input → Text → Option ℕ → Input
unfolding write_input
on_data p s wired = write_input p (encoded s) wired

-- Each character's low eight bits
unfoldable pub on_binary : Input → List ℕ → Option ℕ → Input
unfolding write_input
on_binary p s wired = write_input p (bytes (map (λ c. c % 256) s)) wired

unfoldable pub on_resize : Input → ℕ → ℕ → Option ℕ → Input
unfolding is_current
on_resize p cols rows none = p
on_resize p cols rows (some n) =
    if is_current n p.current then record p { resizes = p.resizes ++ (n, (cols, rows)) ∷ [] } else p

unfoldable pub step : Input → Event → Input
unfolding on_data on_binary on_resize is_current
step p (dialed n) = record p { current = some n }
step p (ready n) = record p { wired = some n }
step p (ended n) = if is_current n p.current then record p { current = none } else p
step p fatal = record p { failure = true }
step p (typed s) = on_data p s p.wired
step p (binary s) = on_binary p s p.wired
step p (resized cols rows) = on_resize p cols rows p.wired

unfoldable pub run : Input → List Event → Input
unfolding step
run p [] = p
run p (e ∷ es) = run (step p e) es
