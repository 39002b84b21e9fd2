-- ===== src/Boot/Tests.antt =====
-- Connection strings in a browser whose `btoa` writes two letters for a byte.
use wosh.Prelude.{
  ℕ, ◌+◌, ◌-◌, ◌*◌, ◌/◌, ◌%◌, ◌≡◌, ◌∙◌, ap, refl, true, false, List, [], ◌∷◌, none, some, codes,
  Text, is_word, trim_end, arith, All,
}
use wosh.Boot.Connstring.{
  Browser, connstring_details, endpoint_id_of, v3_connstring, is_base64, is_pad, IsByte,
}
use wosh.Boot.Connstring.RoundTrip.{IsCard, connstring_details-v3_connstring}

unfoldable pub letter : ℕ → ℕ
letter n = 97 + n % 16

unfoldable pub letters : List ℕ → Text
letters [] = []
letters (b ∷ bs) = letter (b / 16) ∷ letter b ∷ letters bs

unfoldable pub from_letters : Text → List ℕ
from_letters [] = []
from_letters (c ∷ []) = []
from_letters (c ∷ d ∷ s) = ((c - 97) * 16 + (d - 97)) ∷ from_letters s

letter_base64 : (n : ℕ) → is_base64 (letter n) ≡ true
unfolding letter is_base64 is_word
letter_base64 n = ground arith

letter_inside : (n : ℕ) → is_pad (letter n) ≡ false
unfolding letter
letter_inside n = ground arith

pub letters_base64 : (bs : List ℕ) → All (λ c. is_base64 c ≡ true) (letters bs)
unfolding letters
letters_base64 [] = tt
letters_base64 (b ∷ bs) = (letter_base64 (b / 16), (letter_base64 b, letters_base64 bs))

pub letters_unpadded : (bs : List ℕ) → trim_end is_pad (letters bs) ≡ letters bs
unfolding letters trim_end
letters_unpadded [] = refl
letters_unpadded (b ∷ bs) = rw (letter_inside (b / 16), letter_inside b, letters_unpadded bs) refl

pub from_letters-letters : (bs : List ℕ) → All IsByte bs → from_letters (letters bs) ≡ bs
unfolding letters from_letters letter
from_letters-letters [] h = refl
from_letters-letters (b ∷ bs) h =
    let byte : (97 + b / 16 % 16 - 97) * 16 + (97 + b % 16 - 97) ≡ b = omega (arith, h.0) in
    rw (byte, from_letters-letters bs h.1) refl

abbrev pub lettered : Browser
lettered = record {
  btoa = letters;
  atob = λ t. some (from_letters t);
  encode = λ t. t;
  decode = λ bs. bs;
  other_pair = λ t. 0;
  btoa-alphabet = letters_base64;
  atob_unpadded = λ bs h.
      ap (λ t. some (from_letters t)) (letters_unpadded bs) ∙ ap some (from_letters-letters bs h);
  encode-ascii = λ t h. refl;
  decode-ascii = λ bs h. refl;
}

abbrev pub card_id : Text
card_id = codes "00112233445566778899aabbccddeeff00112233445566778899aabbccddeeff"

abbrev pub card_relay : Text
card_relay = codes "https://r"

pub card : IsCard card_id card_relay
card = record {
  id_hex = ground arith;
  id_length = refl;
  relay_ascii = ground arith;
  relay_given = refl;
}

connstring_details-v3_connstring_example :
    (connstring_details lettered (v3_connstring lettered card_id card_relay none)
      ≡ some (record { id = card_id; relay = card_relay }))
    × (endpoint_id_of lettered (v3_connstring lettered card_id card_relay none) ≡ some card_id)
connstring_details-v3_connstring_example =
    connstring_details-v3_connstring lettered card_id card_relay none card tt
