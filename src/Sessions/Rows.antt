-- ===== src/Sessions/Rows.antt =====
-- No parser offers a name that is not safe in a command line, and none invents a row.
use wosh.Prelude.{
  ℕ, ◌≤◌, ◌≡◌, Bool, true, List, [], ◌∷◌, Option, some, arith, All, length, Option-cases, inl, inr,
  Text, all,
}
use mathlib.Core.List.{tail}
use wosh.Sessions.{Preset, dtach, abduco, tmux, screen, valid_name, is_name_char}
use wosh.Sessions.Listing.{
  Numbers, Row, lines, rows, or_empty, dtach_row, abduco_row, screen_row, tmux_row, parse_list,
}

-- A name that the shell reads as itself: one to thirty-two characters, each a letter, a digit, `_`
-- or `-`.
abbrev pub IsSafeName : Text → Type 0
IsSafeName s = (1 ≤ length s) × (length s ≤ 32) × All (λ c. is_name_char c ≡ true) s

pub all-All : (p : ℕ → Bool) (s : Text) → all p s ≡ true → All (λ c. p c ≡ true) s
all-All p [] h = tt
all-All p (c ∷ s) h = (ground arith, all-All p s (ground arith))

pub valid_name-IsSafeName : (s : Text) → valid_name s ≡ true → IsSafeName s
unfolding valid_name
valid_name-IsSafeName s h = (ground arith, ground arith, all-All is_name_char s (ground arith))

All-rows :
    {N : Type 0} (f : Text → Option (Row N)) (ls : List Text)
    → ((l : Text) (r : Row N) → f l ≡ some r → valid_name r.name ≡ true)
    → All (λ r. valid_name r.name ≡ true) (rows f ls)
unfolding rows
All-rows f [] h = tt
All-rows f (l ∷ ls) h = elim (Option-cases (f l)) [
  | inl e ↦ rw (rows, e) (All-rows f ls h)
  | inr (r, e) ↦ rw (rows, e) (h l r e, All-rows f ls h)
]

dtach_row-valid :
    {N : Type 0} (l : Text) (r : Row N) → dtach_row l ≡ some r → valid_name r.name ≡ true
unfolding dtach_row
dtach_row-valid l r h = ground arith

abduco_row-valid :
    {N : Type 0} (l : Text) (r : Row N) → abduco_row l ≡ some r → valid_name r.name ≡ true
unfolding abduco_row
abduco_row-valid l r h = ground arith

screen_row-valid :
    {N : Type 0} (l : Text) (r : Row N) → screen_row l ≡ some r → valid_name r.name ≡ true
unfolding screen_row
screen_row-valid l r h = ground arith

tmux_row-valid :
    (n : Numbers) (l : Text) (r : Row n.Num) → tmux_row n l ≡ some r → valid_name r.name ≡ true
unfolding tmux_row
tmux_row-valid n l r h = ground arith

All-tail : {A : Type 0} (P : A → Type 0) (xs : List A) → All P xs → All P (tail xs)
All-tail P [] h = tt
All-tail P (x ∷ xs) h = h.1

All-mono :
    {A : Type 0} (P Q : A → Type 0) (xs : List A) → ((x : A) → P x → Q x) → All P xs → All Q xs
All-mono P Q [] f h = tt
All-mono P Q (x ∷ xs) f (p, h) = (f x p, All-mono P Q xs f h)

length-rows :
    {N : Type 0} (f : Text → Option (Row N)) (ls : List Text) → length (rows f ls) ≤ length ls
unfolding rows
length-rows f [] = omega arith
length-rows f (l ∷ ls) = ground (arith, length-rows f ls)

length-tail : {A : Type 0} (xs : List A) → length (tail xs) ≤ length xs
length-tail [] = omega arith
length-tail (x ∷ xs) = omega arith

-- Whatever a tool prints, every row that its parser offers has a name that is safe in a command
-- line, and there are no more rows than lines that are not blank.
pub parse_list-IsSafeName :
    (n : Numbers) (p : Preset) (text : Option Text)
    → All (λ r. IsSafeName r.name) (parse_list n p text)
      × (length (parse_list n p text) ≤ length (lines (or_empty text)))
unfolding parse_list
parse_list-IsSafeName n p text = (safe p, bounded p)
  where
    ls : List Text
    ls = lines (or_empty text)

    named :
        (f : Text → Option (Row n.Num)) (ks : List Text)
        → ((l : Text) (r : Row n.Num) → f l ≡ some r → valid_name r.name ≡ true)
        → All (λ r. IsSafeName r.name) (rows f ks)
    named f ks h =
        All-mono (λ r. valid_name r.name ≡ true) (λ r. IsSafeName r.name) (rows f ks)
          (λ r. valid_name-IsSafeName r.name) (All-rows f ks h)

    safe : (p : Preset) → All (λ r. IsSafeName r.name) (parse_list n p text)
    safe dtach = named dtach_row ls dtach_row-valid
    safe abduco = named abduco_row (tail ls) abduco_row-valid
    safe tmux = named (tmux_row n) ls (tmux_row-valid n)
    safe screen = named screen_row ls screen_row-valid

    bounded : (p : Preset) → length (parse_list n p text) ≤ length ls
    bounded dtach = length-rows dtach_row ls
    bounded abduco = omega (arith, length-rows {N = n.Num} abduco_row (tail ls), length-tail ls)
    bounded tmux = length-rows (tmux_row n) ls
    bounded screen = length-rows screen_row ls
