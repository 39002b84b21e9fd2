-- ===== src/Sessions/Matching.antt =====
-- From a command line back to the preset and the name: `MATCHERS` and `matchCommand` of
-- site/sessions.mjs.
use wosh.Prelude.{
  ℕ, Bool, List, [], ◌∷◌, Option, none, some, if◌then◌else◌, not, is_nil, Text, codes, is_space,
  trim,
}
use wosh.Prelude.Regex.{Rest, lit, many1, capture1, optional, group_star, exec}
use wosh.Sessions.{Preset, dtach, abduco, tmux, screen, presets, is_name_char, valid_name}

abbrev pub not_space : ℕ → Bool
not_space = λ c. not (is_space c)

-- `-\S+\s+`
unfoldable pub flag : Rest → Rest
flag k = lit (codes "-") (many1 not_space (many1 is_space k))

-- `([A-Za-z0-9_-]+)` at the end of an expression
unfoldable pub name_last : Rest
name_last = capture1 is_name_char (λ m s. some m)

-- The expressions of `MATCHERS`.
unfoldable pub matcher : Preset → Rest
unfolding flag name_last
matcher dtach = lit (codes "dtach") (
    many1 is_space (
      lit (codes "-A") (
        many1 is_space (
          optional (lit (codes "\"")) (
            lit (codes "$HOME/.wosh/")
              (capture1 is_name_char (λ m. lit (codes ".dtach") (λ s. some m))))))))
matcher abduco =
    lit (codes "abduco")
      (many1 is_space (group_star flag (lit (codes "-A") (many1 is_space name_last))))
matcher tmux = lit (codes "tmux") (
    many1 is_space (
      lit (codes "new") (
        optional (lit (codes "-session"))
          (many1 is_space (group_star flag (lit (codes "-s") (many1 is_space name_last)))))))
matcher screen =
    lit (codes "screen")
      (many1 is_space (group_star flag (lit (codes "-S") (many1 is_space name_last))))

-- The loop over `MATCHERS`
unfoldable pub match_from : List Preset → Text → Option (Preset × Text)
match_from [] s = none
match_from (p ∷ ps) s = elim (exec (matcher p) s) [
  | none ↦ match_from ps s
  | some name ↦ if valid_name name then some (p, name) else match_from ps s
]

-- `matchCommand`; a missing command is the empty string.
unfoldable pub match_command : Option Text → Option (Preset × Text)
unfolding match_from trim
match_command none = none
match_command (some s) = if is_nil (trim s) then none else match_from presets s
