-- ===== src/Boot/Connstring/Base64.antt =====
-- A connection string is read back to the bytes that were encoded.
use wosh.Prelude.{
  ℕ, ◌==◌, ◌≡◌, refl, ◌∙◌, ap, Bool, true, false, ◌&&◌, List, [], ◌∷◌, some, if◌then◌else◌, is_nil,
  All, Text, is_word, is_space, trim, trim_start, trim_end, arith, Bool-cases, inl, inr,
}
use wosh.Boot.Connstring.{IsByte, is_base64, is_pad, Browser, swap, read_bytes}

abbrev IsBase64 : ℕ → Type 0
IsBase64 c = is_base64 c ≡ true

abbrev url_safe : Text → Text
url_safe s = swap b'/' b'_' (swap b'+' b'-' s)

abbrev standard : Text → Text
standard s = swap b'_' b'/' (swap b'-' b'+' s)

-- The four replacements on one character
char_back : ℕ → ℕ
char_back c =
    let d = if c == b'+' then b'-' else c in
    let e = if d == b'/' then b'_' else d in
    let f = if e == b'-' then b'+' else e in if f == b'_' then b'/' else f

char_back_self : (c : ℕ) → IsBase64 c → char_back c ≡ c
unfolding char_back is_base64 is_word
char_back_self c h = ground arith

abbrev fwd : ℕ → ℕ
fwd c = let d = if c == b'+' then b'-' else c in if d == b'/' then b'_' else d

is_pad-fwd : (c : ℕ) → is_pad (fwd c) ≡ is_pad c
is_pad-fwd c = ground arith

is_space-fwd : (c : ℕ) → IsBase64 c → is_space (fwd c) ≡ false
unfolding is_space is_base64 is_word
is_space-fwd c h = ground arith

is_nil-trim_end : (s : Text) → is_nil (trim_end is_pad (url_safe s)) ≡ is_nil (trim_end is_pad s)
unfolding trim_end swap
is_nil-trim_end [] = refl
is_nil-trim_end (c ∷ s) =
    rw (is_pad-fwd c, is_nil-trim_end s)
      (elim (Bool-cases (is_pad c && is_nil (trim_end is_pad s))) [
        | inl e ↦ rw e refl
        | inr e ↦ rw e refl
      ])

standard-url_safe :
    (s : Text) → All IsBase64 s → standard (trim_end is_pad (url_safe s)) ≡ trim_end is_pad s
unfolding trim_end swap char_back
standard-url_safe [] h = refl
standard-url_safe (c ∷ s) h =
    rw (is_pad-fwd c, is_nil-trim_end s)
      (elim (Bool-cases (is_pad c && is_nil (trim_end is_pad s))) [
        | inl e ↦ rw e refl
        | inr e ↦
            rw (e, standard-url_safe s h.1) (ap (λ d. d ∷ trim_end is_pad s) (char_back_self c h.0))
      ])

IsInside : ℕ → Type 0
IsInside c = is_space c ≡ false

All-url_safe : (s : Text) → All IsBase64 s → All IsInside (url_safe s)
unfolding swap IsInside
All-url_safe [] h = tt
All-url_safe (c ∷ s) h = (is_space-fwd c h.0, All-url_safe s h.1)

All-trim_end : (P : ℕ → Type 0) (p : ℕ → Bool) (s : Text) → All P s → All P (trim_end p s)
unfolding trim_end
All-trim_end P p [] h = tt
All-trim_end P p (c ∷ s) h = elim (Bool-cases (p c && is_nil (trim_end p s))) [
  | inl e ↦ rw e tt
  | inr e ↦ rw e (h.0, All-trim_end P p s h.1)
]

trim_end_self : (s : Text) → All IsInside s → trim_end is_space s ≡ s
unfolding trim_end IsInside
trim_end_self [] h = refl
trim_end_self (c ∷ s) h = rw (h.0, trim_end_self s h.1) refl

trim_self : (s : Text) → All IsInside s → trim s ≡ s
unfolding trim trim_start IsInside
trim_self [] h = unfold trim_end in refl
trim_self (c ∷ s) h = rw h.0 (trim_end_self (c ∷ s) h)

-- The text of some bytes, url-safe and without padding, is read back to them.
pub read_bytes-btoa :
    (w : Browser) (bs : List ℕ)
    → All IsByte bs
    → read_bytes w (trim_end is_pad (url_safe (w.btoa bs))) ≡ some bs
unfolding read_bytes
read_bytes-btoa w bs h =
    ap (λ t. w.atob (standard t))
      (trim_self _ (All-trim_end IsInside is_pad _ (All-url_safe (w.btoa bs) (w.btoa-alphabet bs))))
    ∙ (ap w.atob (standard-url_safe (w.btoa bs) (w.btoa-alphabet bs)) ∙ w.atob_unpadded bs h)
