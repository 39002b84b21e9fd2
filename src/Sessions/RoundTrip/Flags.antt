-- ===== src/Sessions/RoundTrip/Flags.antt =====
-- How a matcher steps over the flags of a command line to the name.
use wosh.Prelude.{
  ℕ, zero, suc, ◌≡◌, refl, ◌∙◌, Bool, true, false, [], ◌∷◌, ◌++◌, none, some, arith, Text, is_space,
  is_word,
}
use wosh.Prelude.Regex.{Rest, lit, many1, capture, capture1, repeat}
use wosh.Sessions.{is_name_char}
use wosh.Sessions.Matching.{flag, name_last}
use wosh.Sessions.RoundTrip.Names.{
  IsName, name_char-not-space, capture-name, behind, Refuses, lit-name, flag-name,
}

-- The expression behind the flags: a word and a name.
abbrev pub target : Text → Rest
target word = lit word (many1 is_space name_last)

pub target-Refuses : (d : ℕ) (p : Text) → is_name_char d ≡ true → Refuses (target (d ∷ p))
unfolding lit is_name_char is_word
target-Refuses d p h = ground arith

pub flag-Refuses : (k : Rest) → Refuses (flag k)
unfolding flag lit
flag-Refuses k = refl

pub name_last-Refuses : Refuses name_last
unfolding name_last is_name_char is_word capture1
name_last-Refuses = refl

pub repeat-Refuses : (n : ℕ) (k : Rest) → Refuses k → Refuses (repeat flag n k)
unfolding repeat
repeat-Refuses zero k h = h
repeat-Refuses (suc n) k h = rw (flag-Refuses (repeat flag n k)) h

-- No round of flags leads from a name to the word.
pub repeat-name :
    (b : Bool) (n d : ℕ) (p w : Text)
    → IsName (d ∷ p)
    → IsName w
    → repeat flag n (target (d ∷ p)) (w ++ behind b) ≡ none
unfolding repeat
repeat-name b zero d p w hp h = lit-name b name_last name_last-Refuses (d ∷ p) w hp h
repeat-name b (suc n) d p w hp h =
    rw
      (flag-name b (repeat flag n (target (d ∷ p)))
        (repeat-Refuses n (target (d ∷ p)) (target-Refuses d p hp.0)) w h)
      (lit-name b name_last name_last-Refuses (d ∷ p) w hp h)

pub lit_self : (p : Text) (k : Rest) (s : Text) → lit p k (p ++ s) ≡ k s
unfolding lit
lit_self [] k s = refl
lit_self (d ∷ p) k s = ground (arith, lit_self p k s)

pub space_step :
    (k : Rest) (c : ℕ) (s : Text) → is_space c ≡ false → many1 is_space k (32 ∷ c ∷ s) ≡ k (c ∷ s)
unfolding many1
space_step k c s h = simp (h, space) refl
  where
    space : is_space 32 ≡ true
    space = unfold is_space in refl

-- One flag of one letter
pub flag_step :
    (k : Rest) (f c : ℕ) (s : Text)
    → is_space f ≡ false
    → is_space c ≡ false
    → flag k (45 ∷ f ∷ 32 ∷ c ∷ s) ≡ k (c ∷ s)
flag_step k f c s hf hc = unfold flag lit many1 in simp (hf, space, hc) refl
  where
    space : is_space 32 ≡ true
    space = unfold is_space in refl

pub repeat_step :
    (n : ℕ) (k : Rest) (f c : ℕ) (s x : Text)
    → is_space f ≡ false
    → is_space c ≡ false
    → repeat flag n k (c ∷ s) ≡ some x
    → repeat flag (suc n) k (45 ∷ f ∷ 32 ∷ c ∷ s) ≡ some x
unfolding repeat
repeat_step n k f c s x hf hc h = rw (flag_step (repeat flag n k) f c s hf hc, h) refl

pub name_last-name :
    (b : Bool) (c : ℕ) (w : Text) → IsName (c ∷ w) → name_last (c ∷ w ++ behind b) ≡ some (c ∷ w)
unfolding name_last capture1
name_last-name b c w (q, h) =
    rw q (capture-name (λ m s. some m) (c ∷ []) w (behind b) (c ∷ w) h refl (ends b))
  where
    ends : (b : Bool) → capture is_name_char (c ∷ w) (λ m s. some m) (behind b) ≡ some (c ∷ w)
    ends false = refl
    ends true = unfold is_name_char is_word in refl

-- The last flag is the word itself: its round of flags fails, and the name is captured.
pub repeat_last :
    (b : Bool) (n f c : ℕ) (w : Text)
    → is_name_char f ≡ true
    → IsName (c ∷ w)
    → repeat flag (suc n) (target (45 ∷ f ∷ [])) (45 ∷ f ∷ 32 ∷ c ∷ w ++ behind b) ≡ some (c ∷ w)
unfolding repeat
repeat_last b n f c w hf (q, h) =
    rw
      (flag_step (repeat flag n (target (45 ∷ f ∷ []))) f c (w ++ behind b)
        (name_char-not-space f hf) (name_char-not-space c q))
      (rw (repeat-name b n 45 (f ∷ []) (c ∷ w) (dash, (hf, tt)) (q, h)) found)
  where
    found : target (45 ∷ f ∷ []) (45 ∷ f ∷ 32 ∷ c ∷ w ++ behind b) ≡ some (c ∷ w)
    found =
        lit_self (45 ∷ f ∷ []) (many1 is_space name_last) (32 ∷ c ∷ w ++ behind b)
        ∙ space_step name_last c (w ++ behind b) (name_char-not-space c q)
        ∙ name_last-name b c w (q, h)

    dash : is_name_char 45 ≡ true
    dash = unfold is_name_char is_word in refl
