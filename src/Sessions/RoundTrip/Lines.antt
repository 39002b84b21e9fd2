-- ===== src/Sessions/RoundTrip/Lines.antt =====
-- Each matcher at each command line.
use wosh.Prelude.{
  ℕ, zero, suc, ◌≡◌, refl, ◌∙◌, Bool, true, false, [], ◌∷◌, ◌++◌, Option, none, some, Text, codes,
  is_space, length, is_word,
}
use wosh.Prelude.Regex.{Rest, lit, many1, capture, capture1, optional, group_star, exec, or_else}
use wosh.Sessions.{Preset, dtach, abduco, tmux, screen, is_name_char}
use wosh.Sessions.Matching.{flag, matcher}
use wosh.Sessions.Rows.{all-All}
use wosh.Sessions.RoundTrip.Names.{
  IsName, name_char-not-space, capture-name, behind, Refuses, exec-name,
}
use wosh.Sessions.RoundTrip.Flags.{target, space_step, repeat_step, repeat_last}

-- The words that the matchers begin with, without the first letter, and what they go on with.
abbrev pub word : Preset → ℕ × Text
word dtach = (b'd', codes "tach")
word abduco = (b'a', codes "bduco")
word tmux = (b't', codes "mux")
word screen = (b's', codes "creen")

abbrev pub after_word : Preset → Rest
after_word dtach = lit (codes "-A") (
    many1 is_space (
      optional (lit (codes "\"")) (
        lit (codes "$HOME/.wosh/")
          (capture1 is_name_char (λ m. lit (codes ".dtach") (λ s. some m))))))
after_word abduco = group_star flag (target (codes "-A"))
after_word tmux =
    lit (codes "new")
      (optional (lit (codes "-session")) (many1 is_space (group_star flag (target (codes "-s")))))
after_word screen = group_star flag (target (codes "-S"))

pub matcher-word :
    (p : Preset) → matcher p ≡ lit ((word p).0 ∷ (word p).1) (many1 is_space (after_word p))
unfolding matcher
matcher-word dtach = refl
matcher-word abduco = refl
matcher-word tmux = refl
matcher-word screen = refl

pub after_word-Refuses : (p : Preset) → Refuses (after_word p)
unfolding lit group_star flag
after_word-Refuses dtach = refl
after_word-Refuses abduco = refl
after_word-Refuses tmux = refl
after_word-Refuses screen = refl

pub word-IsName : (p : Preset) → IsName ((word p).0 ∷ (word p).1)
unfolding is_name_char is_word
word-IsName dtach = all-All is_name_char (codes "dtach") refl
word-IsName abduco = all-All is_name_char (codes "abduco") refl
word-IsName tmux = all-All is_name_char (codes "tmux") refl
word-IsName screen = all-All is_name_char (codes "screen") refl

-- No matcher finds anything from the name on.
pub exec-matcher-name :
    (p : Preset) (b : Bool) (w : Text) → IsName w → exec (matcher p) (w ++ behind b) ≡ none
exec-matcher-name p b w h = rw matcher-word (
    exec-name b (after_word p) (after_word-Refuses p) (word p).0 (word p).1 w (word-IsName p) h
      (at_end p b))
  where
    at_end :
        (p : Preset) (b : Bool)
        → exec (lit ((word p).0 ∷ (word p).1) (many1 is_space (after_word p))) (behind b) ≡ none
    at_end dtach false = unfold exec lit in refl
    at_end dtach true = unfold exec lit in refl
    at_end abduco false = unfold exec lit in refl
    at_end abduco true = unfold exec lit in refl
    at_end tmux false = unfold exec lit in refl
    at_end tmux true = unfold exec lit in refl
    at_end screen false = unfold exec lit in refl
    at_end screen true = unfold exec lit in refl

pub or_else-some : (a b : Option Text) {x : Text} → a ≡ some x → or_else a b ≡ some x
or_else-some a b h = rw h

-- The matchers at the command lines, for a name that is not empty.
module _ (c : ℕ) (w : Text) (name : IsName (c ∷ w)) where
  pub c_space : is_space c ≡ false
  c_space = name_char-not-space c name.0

  unfoldable pub tmux_text : Text
  tmux_text = codes "exec tmux new-session -A -D -s " ++ (c ∷ w ++ behind false)

  unfoldable pub screen_text : Text
  screen_text = codes "exec screen -D -R -S " ++ (c ∷ w ++ behind false)

  unfoldable pub abduco_text : Text
  abduco_text = codes "exec abduco -A " ++ (c ∷ w ++ behind true)

  -- The matchers that come first find nothing.
  pub dtach-abduco : exec (matcher dtach) abduco_text ≡ none
  unfolding exec matcher lit abduco_text
  dtach-abduco = exec-matcher-name dtach true (c ∷ w) name

  pub dtach-tmux : exec (matcher dtach) tmux_text ≡ none
  unfolding exec matcher lit tmux_text
  dtach-tmux = exec-matcher-name dtach false (c ∷ w) name

  pub abduco-tmux : exec (matcher abduco) tmux_text ≡ none
  unfolding exec matcher lit tmux_text
  abduco-tmux = exec-matcher-name abduco false (c ∷ w) name

  pub dtach-screen : exec (matcher dtach) screen_text ≡ none
  unfolding exec matcher lit screen_text
  dtach-screen = exec-matcher-name dtach false (c ∷ w) name

  pub abduco-screen : exec (matcher abduco) screen_text ≡ none
  unfolding exec matcher lit screen_text
  abduco-screen = exec-matcher-name abduco false (c ∷ w) name

  pub tmux-screen : exec (matcher tmux) screen_text ≡ none
  unfolding exec matcher lit screen_text
  tmux-screen = exec-matcher-name tmux false (c ∷ w) name

  pub letter : (f : ℕ) → is_name_char f ≡ true → is_space f ≡ false
  letter = name_char-not-space

  -- Three flags of one letter, the last one the word.
  pub three_flags :
      (f g h : ℕ)
      → is_name_char f ≡ true
      → is_name_char g ≡ true
      → is_name_char h ≡ true
      → group_star flag
          (target (45 ∷ h ∷ []))
          (45 ∷ f ∷ 32 ∷ 45 ∷ g ∷ 32 ∷ 45 ∷ h ∷ 32 ∷ c ∷ w ++ behind false)
        ≡ some (c ∷ w)
  unfolding group_star
  three_flags f g h hf hg hh =
      repeat_step (suc (suc (after 6))) (target (45 ∷ h ∷ [])) f 45
        (g ∷ 32 ∷ 45 ∷ h ∷ 32 ∷ c ∷ w ++ behind false) (c ∷ w) (name_char-not-space f hf) dash
        (repeat_step (suc (after 6)) (target (45 ∷ h ∷ [])) g 45 (h ∷ 32 ∷ c ∷ w ++ behind false)
          (c ∷ w) (name_char-not-space g hg) dash (repeat_last false (after 6) h c w hh name))
    where
      after : ℕ → ℕ
      after zero = length (c ∷ w ++ behind false)
      after (suc n) = suc (after n)

      dash : is_space 45 ≡ false
      dash = unfold is_space in refl

  pub screen-screen : exec (matcher screen) screen_text ≡ some (c ∷ w)
  unfolding exec matcher lit screen_text is_space is_name_char is_word
  screen-screen = or_else-some _ _ (
      space_step (group_star flag (target (codes "-S"))) 45 _ refl
      ∙ three_flags b'D' b'R' b'S' refl refl refl)

  pub abduco-abduco : exec (matcher abduco) abduco_text ≡ some (c ∷ w)
  unfolding exec matcher lit abduco_text group_star is_space is_name_char is_word
  abduco-abduco = or_else-some _ _ (
      space_step (group_star flag (target (codes "-A"))) 45 _ refl
      ∙ repeat_last true (suc (suc (length (c ∷ w ++ behind true)))) b'A' c w refl name)

  pub tmux-tmux : exec (matcher tmux) tmux_text ≡ some (c ∷ w)
  unfolding exec matcher lit tmux_text is_space is_name_char is_word
  tmux-tmux = or_else-some _ _ (
      space_step (after_word tmux) 110 _ refl
      ∙ or_else-some _ _ (
          space_step (group_star flag (target (codes "-s"))) 45 _ refl
          ∙ three_flags b'A' b'D' b's' refl refl refl))

  unfoldable pub dtach_text : Text
  dtach_text =
      codes "mkdir -p \"$HOME/.wosh\" && exec dtach -A \"$HOME/.wosh/"
      ++ (c ∷ w ++ codes ".dtach\" -r winch \"$SHELL\"")

  pub path_end : Text
  path_end = codes ".dtach\" -r winch \"$SHELL\""

  pub capture_dtach :
      capture1 is_name_char (λ m. lit (codes ".dtach") (λ s. some m)) (c ∷ w ++ path_end)
      ≡ some (c ∷ w)
  unfolding capture1 lit path_end
  capture_dtach = rw name.0 (
      capture-name (λ m. lit (codes ".dtach") (λ s. some m)) (c ∷ []) w path_end (c ∷ w) name.1 refl
        ends)
    where
      ends :
          capture is_name_char (c ∷ w) (λ m. lit (codes ".dtach") (λ s. some m)) path_end
          ≡ some (c ∷ w)
      ends = unfold is_name_char is_word in refl

  pub dtach-dtach : exec (matcher dtach) dtach_text ≡ some (c ∷ w)
  unfolding exec matcher lit dtach_text is_space path_end
  dtach-dtach = or_else-some _ _ (
      space_step (after_word dtach) 45 _ refl
      ∙ (space_step
            (optional (lit (codes "\"")) (
              lit (codes "$HOME/.wosh/")
                (capture1 is_name_char (λ m. lit (codes ".dtach") (λ s. some m)))))
            34 _ refl
          ∙ or_else-some _ _ capture_dtach))
