-- ===== src/Sessions/Listing.antt =====
-- The list parsers of site/sessions.mjs. Numbers of the language are the parameter `Numbers`.
use wosh.Prelude.{
  ℕ, ◌+◌, ltb, Bool, false, ◌||◌, ◌&&◌, not, List, [], ◌∷◌, ◌++◌, Option, none, some, map,
  if◌then◌else◌, ◌==◌, leb, length, is_nil, Text, codes, is_space, text_eq, split_at, trim,
  trim_start, split_runs, starts_with, includes, get_elem?,
}
use mathlib.Core.List.{tail}
use wosh.Prelude.Regex.{Rest, lit, many1, capture, capture1, exec, or_else}
use wosh.Sessions.{Preset, dtach, abduco, tmux, screen, valid_name}

-- What the language gives for floating-point numbers: `Number(text)` of a string or of a missing
-- value, `Number.isFinite`, `> 0` and `* 1000`.
pub record Numbers : Type 1 where
  pub Num : Type 0
  pub number : Option Text → Num
  pub is_finite : Num → Bool
  pub is_positive : Num → Bool
  pub thousandfold : Num → Num

-- A row of a list; `attached` and `at` are `none` where the tool does not say.
pub record Row (N : Type 0) : Type 0 where
  pub name : Text
  pub attached : Option Bool
  pub at : Option N

-- `replace(/\r$/, "")`
unfoldable pub drop_cr : Text → Text
drop_cr [] = []
drop_cr (c ∷ s) = let rest = drop_cr s in if c == b'\r' && is_nil s then [] else c ∷ rest

-- `filter((l) => l.trim())`
unfoldable pub non_blank : List Text → List Text
unfolding trim
non_blank [] = []
non_blank (l ∷ ls) = let rest = non_blank ls in if is_nil (trim l) then rest else l ∷ rest

unfoldable pub lines : Text → List Text
unfolding split_at drop_cr non_blank
lines text = non_blank (map drop_cr (split_at b'\n' text))

-- The loops of the parsers: a line gives a row, or is skipped by `continue`.
unfoldable pub rows {ℓ} : {R : Type ℓ} → (Text → Option R) → List Text → List R
rows f [] = []
rows f (l ∷ ls) = elim (f l) [ none ↦ rows f ls | some r ↦ r ∷ rows f ls ]

unfoldable pub or_empty : Option Text → Text
or_empty none = []
or_empty (some t) = t

-- `/^(.*)\.dtach$/`; the dot is any character but the four line terminators.
unfoldable pub before_dtach : Text → Option Text
unfolding text_eq
before_dtach [] = none
before_dtach (c ∷ s) =
    let rest = before_dtach s in
    if text_eq (c ∷ s) (codes ".dtach")
    then some []
    else if c == b'\n' || c == b'\r' || c == 0x2028 || c == 0x2029
    then none
    else elim rest [ none ↦ none | some m ↦ some (c ∷ m) ]

-- `\d`
abbrev is_digit : ℕ → Bool
is_digit c = leb b'0' c && leb c b'9'

abbrev not_space : ℕ → Bool
not_space c = not (is_space c)

-- What follows the anchor in `/(?:^|\s)\d+\.(\S+)/`
pid_name : Rest
unfolding many1 lit capture1
pid_name = many1 is_digit (lit (codes ".") (capture1 not_space (λ m s. some m)))

spaced_pid_name : Rest
spaced_pid_name [] = none
spaced_pid_name (c ∷ s) = if is_space c then pid_name s else none

-- `/(?:^|\s)\d+\.(\S+)/.exec(line)`: `^` holds only at the first position, and comes first there.
unfoldable pub screen_name : Text → Option Text
unfolding exec pid_name spaced_pid_name
screen_name line = or_else (pid_name line) (exec spaced_pid_name line)

-- The flag `i`: a letter of the expression matches either case.
fold : ℕ → ℕ
fold c = if leb b'A' c && leb c b'Z' then c + 32 else c

lit_fold : Text → Rest → Rest
unfolding fold
lit_fold [] k s = k s
lit_fold (p ∷ ps) k [] = none
lit_fold (p ∷ ps) k (c ∷ s) = let rest = lit_fold ps k s in if p == fold c then rest else none

-- One alternative after `Multi,\s*`
multi : Text → Rest
unfolding lit_fold capture
multi word = lit_fold (codes "multi,") (
    capture is_space []
      (λ sp. lit_fold (word ++ codes ")") (λ s. some (codes "multi," ++ (sp ++ word)))))

-- `/\((Attached|Detached|Multi,\s*attached|Multi,\s*detached)\)/i` at one position, with what
-- `toLowerCase` makes of the captured state.
state_at : Rest
unfolding lit lit_fold multi
state_at = lit (codes "(") (λ s.
    or_else (lit_fold (codes "attached)") (λ r. some (codes "attached")) s) (
      or_else (lit_fold (codes "detached)") (λ r. some (codes "detached")) s)
        (or_else (multi (codes "attached") s) (multi (codes "detached") s))))

-- The last match of `matchAll`. A match has one opening parenthesis, its first character, so
-- matches do not overlap.
unfoldable pub last_state : Text → Option Text
unfolding state_at
last_state [] = none
last_state (c ∷ s) = or_else (last_state s) (state_at (c ∷ s))

abbrev last_or : Text → List Text → Text
last_or d [] = d
last_or d (x ∷ xs) = last_or x xs

unfoldable pub dtach_row : {N : Type 0} → Text → Option (Row N)
unfolding before_dtach trim valid_name
dtach_row line = elim (before_dtach (trim line)) [
  | none ↦ none
  | some m ↦ if valid_name m then some (record { name = m; attached = none; at = none }) else none
]

unfoldable pub abduco_row : {N : Type 0} → Text → Option (Row N)
unfolding trim split_runs valid_name trim_start starts_with
abduco_row line =
    let name = last_or [] (split_runs is_space [] false (trim line)) in
    if valid_name name
    then some (record {
      name = name;
      attached = some (starts_with (codes "*") (trim_start is_space line));
      at = none;
    })
    else none

unfoldable pub screen_row : {N : Type 0} → Text → Option (Row N)
unfolding screen_name last_state includes valid_name
screen_row line = elim (screen_name line) [
  | none ↦ none
  | some name ↦ elim (last_state line) [
    | none ↦ none
    | some state ↦
        if valid_name name
        then some
            (record { name = name; attached = some (includes (codes "attached") state); at = none })
        else none
  ]
]

module _ (numbers : Numbers) where
  open numbers use {Num, number, is_finite, is_positive, thousandfold}

  unfoldable pub tmux_row : Text → Option (Row Num)
  unfolding split_at trim valid_name or_empty text_eq
  tmux_row line =
      let f = split_at b'\t' line in
      let name = trim (or_empty (get_elem? f 0)) in
      let created = number (get_elem? f 2) in
      if is_nil name || ltb (length f) 2
      then none
      else if not (valid_name name)
      then none
      else some (record {
        name = name;
        attached = some (not (text_eq (trim (or_empty (get_elem? f 1))) (codes "0")));
        at = if is_finite created && is_positive created then some (thousandfold created) else none;
      })

  -- The field `parseList`; a missing text is the empty string.
  unfoldable pub parse_list : Preset → Option Text → List (Row Num)
  unfolding rows lines or_empty dtach_row abduco_row tmux_row screen_row
  parse_list dtach text = rows dtach_row (lines (or_empty text))
  parse_list abduco text = rows abduco_row (tail (lines (or_empty text)))
  parse_list tmux text = rows tmux_row (lines (or_empty text))
  parse_list screen text = rows screen_row (lines (or_empty text))
