-- ===== src/Sessions/RoundTrip/Names.antt =====
-- What the matchers do from the name of a command line on: nothing is found there.
use wosh.Prelude.{
  ℕ, ◌≡◌, refl, Bool, true, false, [], ◌∷◌, ◌++◌, none, some, arith, All, Text, codes, is_space,
  append-nil, append_assoc, is_word,
}
use wosh.Prelude.Regex.{Rest, lit, many, many1, capture, exec}
use wosh.Sessions.{is_name_char}
use wosh.Sessions.Matching.{flag, not_space}

abbrev pub IsName : Text → Type 0
IsName = All (λ c. is_name_char c ≡ true)

pub name_char-not-space : (c : ℕ) → is_name_char c ≡ true → is_space c ≡ false
unfolding is_name_char is_space is_word
name_char-not-space c h = ground arith

-- A captured name is the whole of it, if what follows is accepted and begins with another character.
pub capture-name :
    (k : Text → Rest) (acc w t x : Text)
    → IsName w
    → k (acc ++ w) t ≡ some x
    → capture is_name_char (acc ++ w) k t ≡ some x
    → capture is_name_char acc k (w ++ t) ≡ some x
unfolding capture
capture-name k acc [] t x h e base = rw append-nil at base
capture-name k acc (c ∷ w) t x (q, h) e base =
    rw (q, capture-name k (acc ++ c ∷ []) w t x h (rw append_assoc e) (rw append_assoc base)) refl

-- What follows a name in a command line: nothing, or the shell.
abbrev pub behind : Bool → Text
behind false = []
behind true = codes " \"$SHELL\""

-- A continuation that does not accept the shell.
abbrev pub Refuses : Rest → Type 0
Refuses k = k (codes "\"$SHELL\"") ≡ none

pub many1_space-behind : (b : Bool) (k : Rest) → Refuses k → many1 is_space k (behind b) ≡ none
unfolding many1 is_space
many1_space-behind false k h = refl
many1_space-behind true k h = h

pub lit-behind :
    (b : Bool) (d : ℕ) (p : Text) (k : Rest)
    → is_name_char d ≡ true
    → lit (d ∷ p) k (behind b) ≡ none
unfolding lit is_name_char is_word
lit-behind false d p k h = refl
lit-behind true d p k h = ground arith

pub word-behind :
    (b : Bool) (k : Rest) → Refuses k → many not_space (many1 is_space k) (behind b) ≡ none
unfolding many1 is_space
word-behind false k h = refl
word-behind true k h = h

module _ (b : Bool) (k : Rest) (refuses : Refuses k) where
  pub space-name : (w : Text) → IsName w → many1 is_space k (w ++ behind b) ≡ none
  space-name [] h = many1_space-behind b k refuses
  space-name (c ∷ w) (q, h) = unfold many1 in rw (name_char-not-space c q) refl

  -- A word followed by spaces is not found where only a name is left.
  pub lit-name :
      (p w : Text) → IsName p → IsName w → lit p (many1 is_space k) (w ++ behind b) ≡ none
  unfolding lit
  lit-name [] w hp h = space-name w h
  lit-name (d ∷ p) [] hp h = lit-behind b d p (many1 is_space k) hp.0
  lit-name (d ∷ p) (c ∷ w) hp (q, h) = ground (arith, lit-name p w hp.1 h)

  pub word-name : (w : Text) → IsName w → many not_space (many1 is_space k) (w ++ behind b) ≡ none
  unfolding many
  word-name [] h = word-behind b k refuses
  word-name (c ∷ w) (q, h) =
      rw (name_char-not-space c q, word-name w h, space-name (c ∷ w) (q, h)) refl

  pub word1-name : (w : Text) → IsName w → many1 not_space (many1 is_space k) (w ++ behind b) ≡ none
  word1-name [] h = ends b
    where
      ends : (b : Bool) → many1 not_space (many1 is_space k) (behind b) ≡ none
      ends false = unfold many1 in refl
      ends true = unfold many1 is_space in refl
  word1-name (c ∷ w) (q, h) = unfold many1 in rw (name_char-not-space c q) (word-name w h)

  pub flag-name : (w : Text) → IsName w → flag k (w ++ behind b) ≡ none
  flag-name [] h = ends b
    where
      ends : (b : Bool) → flag k (behind b) ≡ none
      ends false = unfold flag lit in refl
      ends true = unfold flag lit in refl
  flag-name (c ∷ w) (q, h) = unfold flag lit in ground (arith, word1-name w h)

  -- A matcher that begins with a word and spaces finds nothing from a name on.
  pub exec-name :
      (d : ℕ) (p w : Text)
      → IsName (d ∷ p)
      → IsName w
      → exec (lit (d ∷ p) (many1 is_space k)) (behind b) ≡ none
      → exec (lit (d ∷ p) (many1 is_space k)) (w ++ behind b) ≡ none
  unfolding exec
  exec-name d p [] hp h e = e
  exec-name d p (c ∷ w) hp (q, h) e =
      rw (lit-name (d ∷ p) (c ∷ w) hp (q, h)) (exec-name d p w hp h e)
