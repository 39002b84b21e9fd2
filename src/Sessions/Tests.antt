-- ===== src/Sessions/Tests.antt =====
-- The parsers on what the tools print, from the samples of host-test/sessions-parse.mjs, and the
-- theorems at concrete inputs.
use wosh.Prelude.{
  ℕ, ◌≤◌, ◌≡◌, refl, Bool, true, false, [], ◌∷◌, ◌++◌, Option, none, some, Text, codes, map, All,
  length, is_space,
}
use wosh.Prelude.Regex.{lit, many1, capture1, exec}
use wosh.Sessions.{
  dtach, abduco, tmux, screen, valid_name, command, parse_detect, presets, is_name_char,
}
use wosh.Sessions.Listing.{Numbers, Row, parse_list, lines, or_empty}
use wosh.Sessions.Rows.{IsSafeName, parse_list-IsSafeName}
use wosh.Sessions.Matching.{match_command, matcher}
use wosh.Sessions.RoundTrip.{match_command-command}

-- Numbers that read nothing: every text is not a number.
abbrev pub no_numbers : Numbers
no_numbers = record {
  Num = ℕ;
  number = λ t. 0;
  is_finite = λ n. false;
  is_positive = λ n. false;
  thousandfold = λ n. n;
}

abbrev row : Text → Option Bool → Row ℕ
row name attached = record { name = name; attached = attached; at = none }

abbrev newline : Text
newline = 10 ∷ []

screen_listing :
    parse_list no_numbers screen (
      some (
        codes "There are screens on:"
        ++ newline
        ++ codes "\t12345.main\t(08/15/2026 12:01:02 PM)\t(Detached)"
        ++ newline
        ++ codes "\t11888.shared\t(Multi, attached)"
        ++ newline
        ++ codes "3 Sockets in /run/screen/S-alice."))
    ≡ row (codes "main") (some false) ∷ row (codes "shared") (some true) ∷ []
unfolding parse_list
screen_listing = refl

abduco_listing :
    parse_list no_numbers abduco (
      some (
        codes "Active sessions:"
        ++ newline
        ++ codes "* Fri 2026-08-15 12:01:02   12345  main"
        ++ newline
        ++ codes "  Fri 2026-08-15 09:14:55   12002  build"
        ++ newline))
    ≡ row (codes "main") (some true) ∷ row (codes "build") (some false) ∷ []
unfolding parse_list
abduco_listing = refl

dtach_listing :
    parse_list no_numbers dtach
      (some (codes "main.dtach" ++ newline ++ codes "README" ++ newline ++ codes "a b.dtach"))
    ≡ row (codes "main") none ∷ []
unfolding parse_list
dtach_listing = refl

tmux_listing :
    parse_list no_numbers tmux
      (some (codes "Welcome to example.net" ++ newline ++ codes "main\t2\t1755259262"))
    ≡ row (codes "main") (some true) ∷ []
unfolding parse_list
tmux_listing = refl

detected :
    map (parse_detect (codes "dtach" ++ newline ++ codes "tmux" ++ newline)) presets
    ≡ true ∷ false ∷ true ∷ false ∷ []
unfolding parse_detect
detected = refl

names :
    map valid_name (codes "build-2" ∷ codes "" ∷ codes "a b" ∷ codes "$(whoami)" ∷ [])
    ≡ true ∷ false ∷ false ∷ false ∷ []
unfolding valid_name
names = refl

parse_list-IsSafeName_example :
    All (λ r. IsSafeName r.name) (parse_list no_numbers dtach (some (codes "main.dtach")))
    × (length (parse_list no_numbers dtach (some (codes "main.dtach")))
        ≤ length (lines (or_empty (some (codes "main.dtach")))))
parse_list-IsSafeName_example = parse_list-IsSafeName no_numbers dtach (some (codes "main.dtach"))

match_command-command_example :
    match_command (some (command tmux (codes "-s"))) ≡ some (tmux, codes "-s")
unfolding valid_name
match_command-command_example = match_command-command tmux (codes "-s") refl

-- The spellings of earlier versions and of hands
hand_typed :
    match_command (some (codes "exec dtach -A $HOME/.wosh/build.dtach -r winch $SHELL"))
    ≡ some (dtach, codes "build")
unfolding match_command matcher exec is_space lit many1 capture1 is_name_char valid_name
hand_typed = refl
