-- ===== src/AuthorizedKeys/Quoting.antt =====
-- What `installCommand` puts between single quotes, and what it puts outside.
use wosh.Prelude.{
  ℕ, suc, zero, ◌≡◌, ◌≢◌, refl, ap, ◌∙◌, Bool, true, false, not, List, [], ◌∷◌, ◌++◌, All,
  All-append, arith, Bool-cases, inl, inr, Text, codes, is_space, if◌then◌else◌, ◌==◌, Option, none,
  some, append_assoc, append-nil, get_elem?, Option-cases, all, subst, split_runs,
}
use mathlib.Core.Option
use wosh.AuthorizedKeys.{blob, install_command}

-- A reading of a command line by the shell's rule for single quotes: such a word ends at the next
-- single quote, whatever stands between. The result is the quoted words in order, and `none` where
-- the last one is not closed. The command has no single quote between its double quotes.
unfoldable pub quoted_from : Bool → Text → Text → Option (List Text)
quoted_from true word [] = none
quoted_from false word [] = some []
quoted_from true word (c ∷ s) =
    let closed = Option.map (word ∷◌) (quoted_from false [] s) in
    let longer = quoted_from true (word ++ c ∷ []) s in if c == b'\'' then closed else longer
quoted_from false word (c ∷ s) =
    let opened = quoted_from true [] s in
    let outside = quoted_from false [] s in if c == b'\'' then opened else outside

-- The same reading of what is outside: the command line without what stands between single quotes,
-- which are kept, the opening and the closing one of each word.
unfoldable pub outside_of : Bool → Text → Text
outside_of within [] = []
outside_of true (c ∷ s) =
    let closed = c ∷ outside_of false s in
    let longer = outside_of true s in if c == b'\'' then closed else longer
outside_of false (c ∷ s) =
    let opened = c ∷ outside_of true s in
    let outside = c ∷ outside_of false s in if c == b'\'' then opened else outside

abbrev pub outside_quotes : Text → Text
outside_quotes s = outside_of false s

abbrev pub quoted_words : Text → Option (List Text)
quoted_words s = quoted_from false [] s

abbrev pub NotQuote : ℕ → Type 0
NotQuote c = c ≢ b'\''

no_quote : Text → Bool
no_quote s = all (λ c. not (c == b'\'')) s

no_quote_sound : (s : Text) → no_quote s ≡ true → All NotQuote s
unfolding no_quote
no_quote_sound [] h = tt
no_quote_sound (c ∷ s) h = (ground arith, no_quote_sound s (ground arith))

-- Text outside quotes adds no word.
quoted_from-plain : (p s : Text) → All NotQuote p → quoted_words (p ++ s) ≡ quoted_words s
unfolding quoted_from
quoted_from-plain [] s h = refl
quoted_from-plain (c ∷ p) s (q, h) = ground (arith, quoted_from-plain p s h)

quoted_from-word :
    (acc w s : Text)
    → All NotQuote w
    → quoted_from true acc (w ++ b'\'' ∷ s) ≡ Option.map ((acc ++ w) ∷◌) (quoted_words s)
unfolding quoted_from
quoted_from-word acc [] s h = rw append-nil
quoted_from-word acc (c ∷ w) s (q, h) = elim (Bool-cases (c == b'\'')) [
  | inl e ↦ absurd (ground arith)
  | inr e ↦ rw e (quoted_from-word (acc ++ c ∷ []) w s h ∙ rw append_assoc)
]

-- A quoted word is read back whole.
quoted_words-word :
    (p w s : Text)
    → All NotQuote p
    → All NotQuote w
    → quoted_words (p ++ (b'\'' ∷ (w ++ b'\'' ∷ s))) ≡ Option.map (w ∷◌) (quoted_words s)
unfolding quoted_from
quoted_words-word p w s hp hw = quoted_from-plain p _ hp ∙ quoted_from-word [] w s hw

outside_of-plain : (p s : Text) → All NotQuote p → outside_quotes (p ++ s) ≡ p ++ outside_quotes s
unfolding outside_of
outside_of-plain [] s h = refl
outside_of-plain (c ∷ p) s (q, h) = ground (arith, outside_of-plain p s h)

outside_of-word :
    (w s : Text) → All NotQuote w → outside_of true (w ++ b'\'' ∷ s) ≡ b'\'' ∷ outside_quotes s
unfolding outside_of
outside_of-word [] s h = refl
outside_of-word (c ∷ w) s (q, h) = ground (arith, outside_of-word w s h)

-- Of a quoted word only the quotes are outside.
outside_quotes-word :
    (p w s : Text)
    → All NotQuote p
    → All NotQuote w
    → outside_quotes (p ++ (b'\'' ∷ (w ++ b'\'' ∷ s))) ≡ p ++ (b'\'' ∷ b'\'' ∷ outside_quotes s)
unfolding outside_of
outside_quotes-word p w s hp hw =
    outside_of-plain p _ hp ∙ ap (λ t. p ++ b'\'' ∷ t) (outside_of-word w s hw)

module _ (P : ℕ → Type 0) (p : ℕ → Bool) where
  All-split_runs :
      (cur : Text) (within : Bool) (s : Text)
      → All P cur
      → All P s
      → All (All P) (split_runs p cur within s)
  unfolding split_runs
  All-split_runs cur within [] h k = (h, tt)
  All-split_runs cur within (c ∷ s) h (q, k) = elim (Bool-cases (p c)) [
    | inl e ↦ rw e (ended within _ (All-split_runs [] true s tt k))
    | inr e ↦ rw e (All-split_runs (cur ++ c ∷ []) false s (All-append P cur (c ∷ []) h (q, tt)) k)
  ]
    where
      ended : (b : Bool) (t : List Text) → All (All P) t → All (All P) (if b then t else cur ∷ t)
      ended true t a = a
      ended false t a = (h, a)

All-get_elem? :
    (P : Text → Type 0) (xs : List Text) (i : ℕ) (x : Text)
    → All P xs
    → get_elem? xs i ≡ some x
    → P x
All-get_elem? P [] i x h e = cc
All-get_elem? P (y ∷ xs) zero x (p, h) e = subst P (cc) p
All-get_elem? P (y ∷ xs) (suc i) x (p, h) e = All-get_elem? P xs i x h e

All-blob : (line : Text) → All NotQuote line → All NotQuote (blob line)
unfolding blob
All-blob line h = elim (Option-cases (get_elem? (split_runs is_space [] false line) 1)) [
  | inl e ↦ rw (blob, e) tt
  | inr (b, e) ↦
      rw (blob, e)
        (All-get_elem? (All NotQuote) _ 1 b (All-split_runs NotQuote is_space [] false line tt h) e)
]

-- The text of the command before, between and behind its quoted words.
abbrev before : Text
before = codes "cd || exit 1; umask 077; mkdir -p .ssh || exit 1; if grep -qsF "

abbrev between : Text
between =
    codes " .ssh/authorized_keys; then echo WOSH_ALREADY; exit 0; fi; "
    ++ codes "{ [ -z \"$(tail -1c .ssh/authorized_keys 2>/dev/null)\" ] || "
    ++ codes "echo >> .ssh/authorized_keys; } || exit 1; printf "

abbrev behind : Text
behind =
    codes " >> .ssh/authorized_keys || exit 1; "
    ++ codes "if command -v restorecon >/dev/null 2>&1; then "
    ++ codes "restorecon -F .ssh .ssh/authorized_keys 2>/dev/null; fi; echo WOSH_ADDED"

install_command_parts :
    (line : Text)
    → install_command line
      ≡ before
        ++ (b'\''
            ∷ (blob line
                ++ b'\''
                  ∷ (between
                      ++ (b'\''
                          ∷ (codes "%s\\n"
                              ++ b'\'' ∷ (b' ' ∷ [] ++ (b'\'' ∷ (line ++ b'\'' ∷ behind))))))))
unfolding install_command
install_command_parts line = simp append_assoc

-- The command with nothing in its quotes
abbrev pub frame : Text
frame = before ++ (b'\'' ∷ b'\'' ∷ (between ++ (b'\'' ∷ b'\'' ∷ b' ' ∷ b'\'' ∷ b'\'' ∷ behind)))

quoted_words_of_line :
    (line : Text)
    → All NotQuote line
    → quoted_words (install_command line) ≡ some (blob line ∷ codes "%s\\n" ∷ line ∷ [])
unfolding no_quote quoted_from
quoted_words_of_line line h = rw install_command_parts (
    quoted_words-word before (blob line) _ (no_quote_sound before refl) (All-blob line h)
    ∙ ap (Option.map (blob line ∷◌)) (
        quoted_words-word between (codes "%s\\n") (b' ' ∷ b'\'' ∷ (line ++ b'\'' ∷ behind))
          (no_quote_sound between refl) (no_quote_sound (codes "%s\\n") refl)
        ∙ ap (Option.map (codes "%s\\n" ∷◌))
            (quoted_words-word (b' ' ∷ []) line behind (no_quote_sound (b' ' ∷ []) refl) h)))

outside_of_line : (line : Text) → All NotQuote line → outside_quotes (install_command line) ≡ frame
unfolding no_quote outside_of
outside_of_line line h = rw install_command_parts (
    outside_quotes-word before (blob line) _ (no_quote_sound before refl) (All-blob line h)
    ∙ ap (λ t. before ++ b'\'' ∷ b'\'' ∷ t)
        (outside_quotes-word between (codes "%s\\n") (b' ' ∷ b'\'' ∷ (line ++ b'\'' ∷ behind))
            (no_quote_sound between refl) (no_quote_sound (codes "%s\\n") refl)
          ∙ ap (λ t. between ++ b'\'' ∷ b'\'' ∷ t)
              (outside_quotes-word (b' ' ∷ []) line behind (no_quote_sound (b' ' ∷ []) refl) h)))

-- For a line without a single quote the shell reads exactly three quoted words, in this order: the
-- key material that `grep` looks for, the format of `printf`, and the whole line; and outside the
-- quotes it reads a command that is the same for every line.
pub quoted_words-install_command :
    (line : Text)
    → All NotQuote line
    → (quoted_words (install_command line) ≡ some (blob line ∷ codes "%s\\n" ∷ line ∷ []))
      × (outside_quotes (install_command line) ≡ frame)
quoted_words-install_command line h = (quoted_words_of_line line h, outside_of_line line h)
