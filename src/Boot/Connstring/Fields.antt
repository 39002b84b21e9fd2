-- ===== src/Boot/Connstring/Fields.antt =====
-- The fields of a connection string are read as they were written.
use wosh.Prelude.{
  ℕ, zero, suc, ◌+◌, ◌-◌, ◌*◌, ◌/◌, ◌%◌, ◌<◌, ◌≡◌, refl, sym, ◌∙◌, ap, Bool, true, false, ◌&&◌,
  ◌||◌, List, [], ◌∷◌, ◌++◌, some, ltb, leb, length, All, Text, arith, Bool-cases, inl, inr,
}
use native.Mathlib.Nat.{mul_assoc, add-mul}
use wosh.Boot.Connstring.{
  IsByte, Browser, hex_digit, to_hex, varint, digit_value, hex_pair, from_hex, put_varint,
}

abbrev pub is_lower_hex : ℕ → Bool
is_lower_hex c = leb 48 c && leb c 57 || leb 97 c && leb c 102

abbrev pub IsLowerHex : ℕ → Type 0
IsLowerHex c = is_lower_hex c ≡ true

digit : (c : ℕ) → IsLowerHex c → (h : ℕ) × (digit_value c ≡ some h) × (h < 16) × (hex_digit h ≡ c)
unfolding digit_value hex_digit
digit c e = elim (Bool-cases (leb c 57)) [
  | inl s ↦ (c - 48, ground arith, ground arith, ground arith)
  | inr s ↦ (c - 87, ground arith, ground arith, ground arith)
]

-- A pair of digits is a byte that prints as the pair.
abbrev IsPrinted : ℕ → ℕ → ℕ → Type 0
IsPrinted b c d = (b < 256) × (hex_digit (b / 16) ≡ c) × (hex_digit (b % 16) ≡ d)

hex_pair-IsPrinted :
    (w : Browser) (c d : ℕ) → IsLowerHex c → IsLowerHex d → IsPrinted (hex_pair w (c ∷ d ∷ [])) c d
unfolding hex_pair
hex_pair-IsPrinted w c d hc hd =
    let (h, eh, bh, ph) = digit c hc in
    let (l, el, bl, pl) = digit d hd in
    let high : (16 * h + l) / 16 ≡ h = omega arith in
    let low : (16 * h + l) % 16 ≡ l = omega arith in
    rw (eh, el) (omega arith, ap hex_digit high ∙ ph, ap hex_digit low ∙ pl)

pub from_hex-IsByte :
    (w : Browser) (n : ℕ) (s : Text)
    → length s ≡ n + n
    → All IsLowerHex s
    → All IsByte (from_hex w n s) × (length (from_hex w n s) ≡ n) × (to_hex (from_hex w n s) ≡ s)
unfolding from_hex to_hex
from_hex-IsByte w zero [] e h = (tt, refl, refl)
from_hex-IsByte w zero (c ∷ s) e h = absurd (omega arith)
from_hex-IsByte w (suc n) [] e h = absurd (omega arith)
from_hex-IsByte w (suc n) (c ∷ []) e h = absurd (omega arith)
from_hex-IsByte w (suc n) (c ∷ d ∷ s) e (hc, (hd, hs)) =
    let (bytes, len, printed) = from_hex-IsByte w n s (omega arith) hs in
    let (small, high, low) = hex_pair-IsPrinted w c d hc hd in
    ((small, bytes), omega arith, rw (high, low, printed) refl)

scaled : (q r s : ℕ) → r * s + q * (s * 128) ≡ (128 * q + r) * s
scaled q r s = omega (arith, sym (mul_assoc q s 128), add-mul (128 * q) r s, mul_assoc 128 q s)

pub varint-put_varint :
    (fuel len v scale : ℕ) (rest : List ℕ)
    → len < fuel
    → varint v scale (put_varint fuel len ++ rest) ≡ (v + len * scale, rest)
unfolding varint put_varint
varint-put_varint zero len v scale rest h = absurd (omega arith)
varint-put_varint (suc fuel) len v scale rest h =
    let low : (len % 128 + 128) % 128 ≡ len % 128 = omega arith in
    let high : ltb (len % 128 + 128) 128 ≡ false = ground arith in
    let whole : 128 * (len / 128) + len % 128 ≡ len = omega arith in
    let sum : v + (len % 128) * scale + (len / 128) * (scale * 128) ≡ v + len * scale =
      omega (arith, scaled (len / 128) (len % 128) scale, ap (λ n. n * scale) whole) in
    elim (Bool-cases (leb 128 len)) [
      | inl e ↦
          rw
            (
              e,
              high,
              low,
              varint-put_varint fuel (len / 128) (v + (len % 128) * scale) (scale * 128) rest
                  (ground arith),
            )
            (ap (λ n. (n, rest)) sum)
      | inr e ↦
          let small : ltb len 128 ≡ true = ground arith in
          let self : len % 128 ≡ len = ground arith in rw (e, small, self) refl
    ]

pub put_varint-IsByte : (fuel len : ℕ) → All IsByte (put_varint fuel len)
unfolding put_varint
put_varint-IsByte zero len = tt
put_varint-IsByte (suc fuel) len = elim (Bool-cases (leb 128 len)) [
  | inl e ↦ rw e (omega arith, put_varint-IsByte fuel (len / 128))
  | inr e ↦ rw e (ground arith, tt)
]
