-- ===== src/Prelude/Regex.antt =====
-- The part of the language's regular expressions that the site uses: backtracking matchers with
-- greedy repetition, over code units. A matcher hands what is left of the text to its continuation,
-- which answers with the captured text, or fails; then the next alternative is tried.
use Prim.Native.Nat.{ℕ, zero, suc}
use mathlib.Core.Bool.{Bool}
use mathlib.Core.Option.{Option, none, some}
use mathlib.Core.List.{[], ◌∷◌, ◌++◌}
use wosh.Prelude.Tests.{◌==◌, if◌then◌else◌}
use wosh.Prelude.Lists.{length}
use wosh.Prelude.Strings.{Text}

abbrev pub Rest : Type 0
Rest = Text → Option Text

-- The first of two alternatives that matches.
abbrev pub or_else : Option Text → Option Text → Option Text
or_else (some x) other = some x
or_else none other = other

-- A literal.
unfoldable pub lit : Text → Rest → Rest
lit [] k s = k s
lit (p ∷ ps) k [] = none
lit (p ∷ ps) k (c ∷ s) = let rest = lit ps k s in if p == c then rest else none

-- `[p]*` and `[p]+`
unfoldable pub many : (ℕ → Bool) → Rest → Rest
many p k [] = k []
many p k (c ∷ s) = let rest = many p k s in if p c then or_else rest (k (c ∷ s)) else k (c ∷ s)

unfoldable pub many1 : (ℕ → Bool) → Rest → Rest
unfolding many
many1 p k [] = none
many1 p k (c ∷ s) = if p c then many p k s else none

-- `([p]+)`: the same, with what is matched handed on; `acc` is what is matched so far.
unfoldable pub capture : (ℕ → Bool) → Text → (Text → Rest) → Rest
capture p acc k [] = k acc []
capture p acc k (c ∷ s) =
    let rest = capture p (acc ++ c ∷ []) k s in
    if p c then or_else rest (k acc (c ∷ s)) else k acc (c ∷ s)

unfoldable pub capture1 : (ℕ → Bool) → (Text → Rest) → Rest
unfolding capture
capture1 p k [] = none
capture1 p k (c ∷ s) = if p c then capture p (c ∷ []) k s else none

-- `(?:m)?`
abbrev pub optional : (Rest → Rest) → Rest → Rest
optional m k s = or_else (m k s) (k s)

-- `(?:m)*` of a group that consumes text: as many rounds as there are characters are enough.
unfoldable pub repeat : (Rest → Rest) → ℕ → Rest → Rest
repeat m zero k s = k s
repeat m (suc n) k s = or_else (m (repeat m n k) s) (k s)

unfoldable pub group_star : (Rest → Rest) → Rest → Rest
unfolding repeat
group_star m k s = repeat m (length s) k s

-- `exec` of an expression without `^`: the leftmost match.
unfoldable pub exec : Rest → Rest
exec m [] = m []
exec m (c ∷ s) = or_else (m (c ∷ s)) (exec m s)
