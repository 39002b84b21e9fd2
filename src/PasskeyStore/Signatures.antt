-- ===== src/PasskeyStore/Signatures.antt =====
-- What the conversion of a signature gives.
use wosh.Prelude.{
  ℕ, zero, suc, ◌+◌, ◌-◌, ◌^◌, ◌≤◌, ◌<◌, ◌≡◌, refl, sym, ◌∙◌, ap, Bool, true, false, List, [], ◌∷◌,
  ◌++◌, some, ltb, leb, ◌==◌, lt→ltb, ==_refl, length, take-append, drop-append, get_elem?,
  append_assoc, length-append, arith, Bool-cases, inl, inr,
}
use wosh.Prelude.Results.{ok, ◌>>=◌, >>=-returned}
use wosh.PasskeyStore.Der.{
  read_length, advance, subarray, check, is_byte, read_int, strip, zeros, padded, fit32,
  der_to_raw_ecdsa_signature,
}

length-zeros : (n : ℕ) → length (zeros n) ≡ n
length-zeros zero = refl
length-zeros (suc n) = omega (arith, length-zeros n)

length-padded : (bs : List ℕ) → length bs ≤ 32 → length (padded bs) ≡ 32
length-padded bs h =
    omega (arith, length-append (zeros (32 - length bs)) bs, length-zeros (32 - length bs))

length-fit32 : (bs : List ℕ) (x : List ℕ) → fit32 bs ≡ ok x → length x ≡ 32
unfolding fit32
length-fit32 bs x h = elim (Bool-cases (ltb 32 (length (strip bs)))) [
  | inl e ↦ absurd (ground arith)
  | inr e ↦ ground (arith, length-padded (strip bs))
]

-- A signature that is converted has 64 bytes, whatever the bytes that it came in.
length-der_to_raw_ecdsa_signature :
    (der : List ℕ) {raw : List ℕ} → der_to_raw_ecdsa_signature der ≡ ok raw → length raw ≡ 64
unfolding der_to_raw_ecdsa_signature
length-der_to_raw_ecdsa_signature der h =
    let (_, _, h1) = >>=-returned (check (is_byte 0x30 (get_elem? der 0))) _ h in
    let ((seq_len, start), _, h2) = >>=-returned (read_length (get_elem? der 1) der 1) _ h1 in
    let (end, _, h3) = >>=-returned (advance start seq_len) _ h2 in
    let (_, _, h4) = >>=-returned (check (end == length der)) _ h3 in
    let ((r, after_r), _, h5) = >>=-returned (read_int der start) _ h4 in
    let ((s, after_s), _, h6) = >>=-returned (read_int der after_r) _ h5 in
    let (_, _, h7) = >>=-returned (check (after_s == length der)) _ h6 in
    let (r32, er, h8) = >>=-returned (fit32 r) _ h7 in
    let (s32, es, h9) = >>=-returned (fit32 s) _ h8 in
    halves r32 s32 (length-fit32 r r32 er) (length-fit32 s s32 es) h9
  where
    halves :
        (r s : List ℕ) {raw : List ℕ}
        → length r ≡ 32
        → length s ≡ 32
        → ok (r ++ s) ≡ ok raw
        → length raw ≡ 64
    halves r s hr hs h = ground (arith, length-append r s)

get_elem?-append :
    (p : List ℕ) (b : ℕ) (s : List ℕ) (n : ℕ) → n ≡ length p → get_elem? (p ++ b ∷ s) n ≡ some b
get_elem?-append [] b s zero h = refl
get_elem?-append [] b s (suc n) h = absurd (omega arith)
get_elem?-append (a ∷ p) b s zero h = absurd (omega arith)
get_elem?-append (a ∷ p) b s (suc n) h = get_elem?-append p b s n (omega arith)

-- An INTEGER of DER, as long as its length fits one byte.
abbrev pub der_integer : List ℕ → List ℕ
der_integer bs = 0x02 ∷ length bs ∷ bs

subarray-append :
    (p bs s : List ℕ) (n : ℕ)
    → n ≡ length p
    → length bs < 128
    → subarray (p ++ (bs ++ s)) n (length bs) ≡ bs
unfolding subarray
subarray-append p bs s n e h =
    rw (lt→ltb (length bs) (2 ^ 31) (omega arith), drop-append n p (bs ++ s) (sym e))
      (take-append (length bs) bs s refl)

read_length_short :
    (b : ℕ) (der : List ℕ) (off : ℕ) → b < 128 → read_length (some b) der off ≡ ok (b, off + 1)
unfolding read_length
read_length_short b der off h = ground arith

advance_short : (off len : ℕ) → len < 128 → advance off len ≡ ok (off + len)
unfolding advance
advance_short off len h = ground arith

read_int-der_integer :
    (p bs s : List ℕ) (n : ℕ)
    → n ≡ length p
    → length bs < 128
    → read_int (p ++ (der_integer bs ++ s)) n ≡ ok (bs, n + 2 + length bs)
unfolding read_int
read_int-der_integer p bs s n e h =
    let der : List ℕ = p ++ (der_integer bs ++ s) in
    let tag : get_elem? der n ≡ some 0x02 = get_elem?-append p 0x02 (length bs ∷ (bs ++ s)) n e in
    let size : get_elem? der (n + 1) ≡ some (length bs) =
      ap (λ d. get_elem? d (n + 1)) (sym (append_assoc p (0x02 ∷ []) (length bs ∷ (bs ++ s))))
      ∙ get_elem?-append (p ++ 0x02 ∷ []) (length bs) (bs ++ s) (n + 1)
          (omega (arith, length-append p (0x02 ∷ []))) in
    let body : subarray der (n + 1 + 1) (length bs) ≡ bs =
      ap (λ d. subarray d (n + 1 + 1) (length bs))
        (sym (append_assoc p (0x02 ∷ length bs ∷ []) (bs ++ s)))
      ∙ subarray-append (p ++ 0x02 ∷ length bs ∷ []) bs s (n + 1 + 1)
          (omega (arith, length-append p (0x02 ∷ length bs ∷ []))) h in
    rw (tag, size, read_length_short (length bs) der (n + 1) h)
      (rw (advance_short (n + 1 + 1) (length bs) h, body) (ap (λ k. ok (bs, k)) (omega arith)))

-- The bytes of a number with the zero byte that keeps an INTEGER from being negative, or without.
abbrev pub with_guard : Bool → List ℕ → List ℕ
with_guard true bs = 0 ∷ bs
with_guard false bs = bs

zeros_last : (n : ℕ) (bs : List ℕ) → zeros n ++ 0 ∷ bs ≡ zeros (suc n) ++ bs
zeros_last zero bs = refl
zeros_last (suc n) bs = ap (0 ∷◌) (zeros_last n bs)

strip_short : (bs : List ℕ) → length bs ≤ 32 → strip bs ≡ bs
unfolding strip
strip_short [] h = refl
strip_short (b ∷ bs) h = ground arith

fit32-strip : (bs x : List ℕ) → strip bs ≡ x → length x ≤ 32 → fit32 bs ≡ ok (padded x)
unfolding fit32
fit32-strip bs x e h = rw e (ground arith)

padded_guard : (bs : List ℕ) → length bs < 32 → padded (0 ∷ bs) ≡ padded bs
padded_guard bs h = zeros_last (32 - suc (length bs)) bs ∙ ap (λ n. zeros n ++ bs) same
  where
    same : suc (32 - suc (length bs)) ≡ 32 - length bs
    same = omega arith

fit32-with_guard :
    (g : Bool) (bs : List ℕ) → length bs ≤ 32 → fit32 (with_guard g bs) ≡ ok (padded bs)
unfolding strip
fit32-with_guard false bs h = fit32-strip bs bs (strip_short bs h) h
fit32-with_guard true bs h = elim (Bool-cases (ltb 32 (suc (length bs)))) [
  | inl e ↦ fit32-strip (0 ∷ bs) bs (rw e (strip_short bs h)) h
  | inr e ↦
      fit32-strip (0 ∷ bs) (0 ∷ bs) (rw e refl) (ground arith)
      ∙ ap ok (padded_guard bs (ground arith))
]

-- A SEQUENCE of DER of two such integers, as long as its length fits one byte.
abbrev pub der_signature : List ℕ → List ℕ → List ℕ
der_signature r s = let body = der_integer r ++ (der_integer s ++ []) in 0x30 ∷ length body ∷ body

-- A signature whose parts are read so is converted so.
converted :
    (der : List ℕ) (n k : ℕ) {r s : List ℕ}
    → get_elem? der 0 ≡ some 0x30
    → read_length (get_elem? der 1) der 1 ≡ ok (n, 2)
    → advance 2 n ≡ ok (length der)
    → read_int der 2 ≡ ok (r, k)
    → read_int der k ≡ ok (s, length der)
    → der_to_raw_ecdsa_signature der ≡ (fit32 r >>= λ r32. fit32 s >>= λ s32. ok (r32 ++ s32))
unfolding der_to_raw_ecdsa_signature
converted der n k tag size end first second =
    rw (tag, size)
      (rw end (rw (==_refl (length der), first) (rw second (rw (==_refl (length der)) refl))))

-- Two numbers of at most 32 bytes, each with a guard byte or without.
converted_parts :
    (g h : Bool) (r s : List ℕ)
    → length r ≤ 32
    → length s ≤ 32
    → der_to_raw_ecdsa_signature (der_signature (with_guard g r) (with_guard h s))
      ≡ ok (padded r ++ padded s)
converted_parts g h r s hr hs =
    let x : List ℕ = with_guard g r in
    let y : List ℕ = with_guard h s in
    let n : ℕ = length (der_integer x ++ (der_integer y ++ [])) in
    let lx : length x < 34 = length-with_guard g r hr in
    let ly : length y < 34 = length-with_guard h s hs in
    let total : n ≡ 4 + length x + length y = omega (
      arith,
      length-append (der_integer x) (der_integer y ++ []),
      length-append (der_integer y) [],
    ) in
    let start : List ℕ = 0x30 ∷ n ∷ [] in
    converted (der_signature x y) n (2 + 2 + length x) refl
      (read_length_short n (der_signature x y) 1 (omega (arith, total)))
      (advance_short 2 n (omega (arith, total)) ∙ ap ok (two n))
      (read_int-der_integer start x (der_integer y ++ []) 2 refl (omega (arith, lx)))
      (read_int-der_integer (start ++ der_integer x) y [] (2 + 2 + length x) (omega arith)
          (omega (arith, ly))
        ∙ ap (λ m. ok (y, m)) (end n (length x) (length y) total))
    ∙ rw (fit32-with_guard g r hr, fit32-with_guard h s hs) refl
  where
    length-with_guard : (b : Bool) (bs : List ℕ) → length bs ≤ 32 → length (with_guard b bs) < 34
    length-with_guard true bs e = omega arith
    length-with_guard false bs e = omega arith

    two : (n : ℕ) → 2 + n ≡ suc (suc n)
    two n = omega arith

    end : (n a b : ℕ) → n ≡ 4 + a + b → 2 + 2 + a + 2 + b ≡ suc (suc n)
    end n a b e = omega arith

-- The one DER form of a positive number: its first byte is not zero, and a zero byte is put before it
-- exactly where its first bit is set.
abbrev pub IsCanonical : Bool → List ℕ → Type 0
IsCanonical g [] = ⊥
IsCanonical g (b ∷ bs) = (0 < b) × (b < 256) × (g ≡ leb 128 b)

-- The DER form of two positive numbers of at most 32 bytes, in its canonical encoding, is converted to
-- the two numbers padded to 32 bytes.
pub der_to_raw_ecdsa_signature-der_signature :
    (g h : Bool) (r s : List ℕ)
    → IsCanonical g r
    → IsCanonical h s
    → length r ≤ 32
    → length s ≤ 32
    → der_to_raw_ecdsa_signature (der_signature (with_guard g r) (with_guard h s))
      ≡ ok (padded r ++ padded s)
der_to_raw_ecdsa_signature-der_signature g h r s cr cs hr hs = converted_parts g h r s hr hs
