-- ===== src/Sessions/RoundTrip.antt =====
-- The command line of a preset is recognised as that preset's, with the name in it.
mod Names
mod Flags
mod Lines
use wosh.Prelude.{
  ℕ, zero, suc, ◌≡◌, refl, ap, ◌∙◌, Bool, true, false, List, [], ◌∷◌, ◌++◌, Option, none, some,
  arith, All, Bool-cases, Option-cases, inl, inr, Text, if◌then◌else◌, codes, not, is_space, trim,
  is_nil, append-nil, append_assoc, length, is_word, ◌==◌, trim_end,
}
use wosh.Prelude.Regex.{
  Rest, lit, many, many1, capture, capture1, optional, repeat, group_star, exec, or_else,
}
use wosh.Sessions.{Preset, dtach, abduco, tmux, screen, presets, is_name_char, valid_name, command}
use wosh.Sessions.Matching.{flag, name_last, matcher, match_from, match_command, not_space}
use wosh.Sessions.Rows.{IsSafeName, valid_name-IsSafeName, all-All}
use wosh.Sessions.RoundTrip.Names.{
  IsName, name_char-not-space, capture-name, behind, Refuses, many1_space-behind, lit-behind,
  word-behind, space-name, lit-name, word-name, word1-name, flag-name, exec-name,
}
use wosh.Sessions.RoundTrip.Lines.{
  word, after_word, matcher-word, after_word-Refuses, word-IsName, exec-matcher-name, or_else-some,
  c_space, tmux_text, screen_text, abduco_text, dtach-abduco, dtach-tmux, abduco-tmux, dtach-screen,
  abduco-screen, tmux-screen, letter, three_flags, screen-screen, abduco-abduco, tmux-tmux,
  dtach_text, path_end, capture_dtach, dtach-dtach,
}

module _ (p : Preset) (ps : List Preset) (s : Text) where
  match_from-miss : exec (matcher p) s ≡ none → match_from (p ∷ ps) s ≡ match_from ps s
  unfolding match_from
  match_from-miss h = rw (h, match_from)

  match_from-hit :
      (name : Text)
      → exec (matcher p) s ≡ some name
      → valid_name name ≡ true
      → match_from (p ∷ ps) s ≡ some (p, name)
  unfolding match_from
  match_from-hit name h valid = rw (h, match_from, valid)

-- Every preset's command line for a valid name is recognised as that preset's, with that name.
pub match_command-command :
    (p : Preset) (name : Text)
    → valid_name name ≡ true
    → match_command (some (command p name)) ≡ some (p, name)
match_command-command p [] valid = absurd (unfold valid_name in ground arith)
match_command-command p (c ∷ w) valid = line p
  where
    is_name : IsName (c ∷ w)
    is_name = (valid_name-IsSafeName (c ∷ w) valid).2

    hit :
        (p : Preset) (ps : List Preset) (s : Text)
        → exec (matcher p) s ≡ some (c ∷ w)
        → match_from (p ∷ ps) s ≡ some (p, c ∷ w)
    hit p ps s h = match_from-hit p ps s (c ∷ w) h valid

    searched :
        (p : Preset)
        → match_command (some (command p (c ∷ w))) ≡ match_from presets (command p (c ∷ w))
    searched dtach = unfold match_command command in refl
    searched abduco = unfold match_command command in refl
    searched tmux = unfold match_command command in refl
    searched screen = unfold match_command command in refl

    closed : codes "exec tmux new-session -A -D -s " ++ (c ∷ w) ≡ tmux_text c w is_name
    closed = unfold tmux_text in rw append-nil

    closed' : codes "exec screen -D -R -S " ++ (c ∷ w) ≡ screen_text c w is_name
    closed' = unfold screen_text in rw append-nil

    found : (p : Preset) → match_from presets (command p (c ∷ w)) ≡ some (p, c ∷ w)
    found dtach = unfold command in hit dtach _ _ (unfold dtach_text in (dtach-dtach c w is_name))
    found abduco =
        unfold command abduco_text in
        match_from-miss dtach _ _ (dtach-abduco c w is_name)
        ∙ hit abduco _ _ (abduco-abduco c w is_name)
    found tmux =
        unfold command in
        ap (match_from presets) closed
        ∙ match_from-miss dtach _ _ (dtach-tmux c w is_name)
        ∙ match_from-miss abduco _ _ (abduco-tmux c w is_name)
        ∙ hit tmux _ _ (tmux-tmux c w is_name)
    found screen =
        unfold command in
        ap (match_from presets) closed'
        ∙ match_from-miss dtach _ _ (dtach-screen c w is_name)
        ∙ match_from-miss abduco _ _ (abduco-screen c w is_name)
        ∙ match_from-miss tmux _ _ (tmux-screen c w is_name)
        ∙ hit screen _ _ (screen-screen c w is_name)

    line : (p : Preset) → match_command (some (command p (c ∷ w))) ≡ some (p, c ∷ w)
    line p = searched p ∙ found p
