-- ===== src/Boot/Token.antt =====
-- Pairing tokens: `decodeToken` of site/boot.mjs, and what the re-pair sheet makes of what is typed.
mod Tests
use wosh.Prelude.{
  ℕ, zero, suc, ◌+◌, ◌-◌, ◌*◌, ◌/◌, ◌%◌, ◌^◌, ◌≤◌, ◌<◌, ◌==◌, ◌≡◌, refl, sym, ◌∙◌, ap, subst, Bool,
  true, false, ◌||◌, ◌&&◌, not, List, [], ◌∷◌, ◌++◌, ◌⊎◌, Option, none, some, if◌then◌else◌, leb,
  is_nil, length, All, Bool-cases, Option-cases, inl, inr, arith, Text, codes, is_space,
}
use wosh.Boot.Connstring.{Browser, Details, connstring_details, v3_connstring, IsByte}
use wosh.Boot.Connstring.RoundTrip.{IsCard, connstring_details-v3_connstring}
use wosh.Boot.HostKeys.{Urls, connstring_from, is_some}

abbrev token_alphabet : Text
token_alphabet = codes "ABCDEFGH9JKLMNOPQRSTUVWXYZ234567"

-- `/[\s:_-]/`
unfoldable pub is_separator : ℕ → Bool
unfolding is_space
is_separator c = is_space c || (c == b':' || (c == b'_' || c == b'-'))

-- The shapes with one meaning, of a character that is one code unit in upper case
unfoldable pub fold_shape : Text → Text
fold_shape [] = []
fold_shape (c ∷ d ∷ s) = c ∷ d ∷ s
fold_shape (c ∷ []) =
    if c == b'0'
    then codes "O"
    else if c == b'1' || c == b'I'
    then codes "L"
    else if c == b'8'
    then codes "B"
    else c ∷ []

-- `upper` is what a browser's `toUpperCase` makes of one character.
unfoldable pub folded : (ℕ → Text) → Text → Text
unfolding is_separator fold_shape
folded upper [] = []
folded upper (c ∷ s) =
    let rest = folded upper s in if is_separator c then rest else fold_shape (upper c) ++ rest

-- `indexOf`, with the place so far
unfoldable pub index_from : ℕ → Text → ℕ → Option ℕ
index_from n [] c = none
index_from n (d ∷ ds) c = let rest = index_from (n + 1) ds c in if d == c then some n else rest

abbrev prepend : ℕ → Option (List ℕ) → Option (List ℕ)
prepend b none = none
prepend b (some bs) = some (b ∷ bs)

-- A byte where there are eight bits; `rest` is the loop on the symbols that follow.
unfoldable pub emit : ℕ → ℕ → (ℕ → ℕ → Option (List ℕ)) → Option (List ℕ)
emit acc bits rest =
    if leb 8 bits then prepend (acc / 2 ^ (bits - 8) % 256) (rest acc (bits - 8)) else rest acc bits

unfoldable pub take_symbol : Option ℕ → ℕ → ℕ → (ℕ → ℕ → Option (List ℕ)) → Option (List ℕ)
unfolding emit
take_symbol none acc bits rest = none
take_symbol (some v) acc bits rest = emit ((acc * 32 + v) % 2 ^ 32) (bits + 5) rest

-- The loop with what follows it: the bits that are left over are zero. `acc` is a number of 32 bits.
unfoldable pub decode_from : ℕ → ℕ → Text → Option (List ℕ)
unfolding index_from take_symbol
decode_from acc bits [] = if acc % 2 ^ bits == 0 then some [] else none
decode_from acc bits (c ∷ s) =
    take_symbol (index_from 0 token_alphabet c) acc bits (λ a b. decode_from a b s)

abbrev sixteen : Option (List ℕ) → Option (List ℕ)
sixteen none = none
sixteen (some bs) = if length bs == 16 then some bs else none

unfoldable pub decode_token : (ℕ → Text) → Text → Option (List ℕ)
unfolding folded decode_from
decode_token upper raw =
    let symbols = folded upper raw in
    if length symbols == 26 then sixteen (decode_from 0 0 symbols) else none

unfoldable pub typed_token : Browser → Option Details → Option (List ℕ) → Option Text
unfolding v3_connstring
typed_token w details none = none
typed_token w none (some token) = none
typed_token w (some d) (some token) = some (v3_connstring w d.id d.relay (some token))

-- `submit` of the re-pair sheet: the connection string that it closes the sheet with, if any. The
-- sheet's other button, which closes it with `scan`, is not a submission.
unfoldable pub repair_link : Browser → Urls → (ℕ → Text) → Option Details → Text → Option Text
unfolding decode_token connstring_from connstring_details typed_token
repair_link w u upper details raw =
    let link = connstring_from u raw in
    if not (is_nil link) && is_some (connstring_details w link)
    then some link
    else typed_token w details (decode_token upper raw)
