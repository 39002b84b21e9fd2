-- ===== src/PasskeyStore/Der.antt =====
-- The signature of an assertion, from ASN.1 DER to the fixed-width form that WebCrypto verifies.
use wosh.Prelude.{
  ℕ, zero, suc, ◌+◌, ◌-◌, ◌*◌, ◌%◌, ◌^◌, Bool, true, false, ◌&&◌, List, [], ◌∷◌, ◌++◌, Option, none,
  some, if◌then◌else◌, ltb, leb, ◌==◌, length, take, drop, get_elem?, codes,
}
use wosh.Prelude.Results.{Result, ok, err, ◌>>=◌, ◌>>◌}

-- `fail`
abbrev pub malformed : {A : Type 0} → Result A
malformed = err (codes "malformed ECDSA DER signature")

-- `der[off] | 0`: past the end it is 0.
abbrev pub byte_or_zero : Option ℕ → ℕ
byte_or_zero none = 0
byte_or_zero (some b) = b

-- The loop over the bytes of a long length, on the 32 bits of `len`.
unfoldable pub long_length : ℕ → ℕ → List ℕ → ℕ → ℕ
long_length zero len der off = len
long_length (suc n) len der off =
    long_length n ((len * 256 + byte_or_zero (get_elem? der off)) % 2 ^ 32) der (off + 1)

-- A length, as 32 bits of two's complement, and the offset after it. A missing byte makes the length
-- and each later offset NaN, which every later test refuses.
unfoldable pub read_length : Option ℕ → List ℕ → ℕ → Result (ℕ × ℕ)
unfolding long_length
read_length none der off = malformed
read_length (some b) der off =
    if leb 128 b
    then ok (long_length (b % 128) 0 der (off + 1), off + 1 + b % 128)
    else ok (b, off + 1)

-- `off + len`. Below zero, every later test refuses it.
unfoldable pub advance : ℕ → ℕ → Result ℕ
advance off len =
    if ltb len (2 ^ 31)
    then ok (off + len)
    else if leb (2 ^ 32) (off + len)
    then ok (off + len - 2 ^ 32)
    else malformed

-- `der.subarray(off, off + len)`, where `off + len` is not below zero.
unfoldable pub subarray : List ℕ → ℕ → ℕ → List ℕ
subarray der off len = if ltb len (2 ^ 31) then take len (drop off der) else []

abbrev pub check : Bool → Result (Unit {0})
check true = ok tt
check false = malformed

abbrev pub is_byte : ℕ → Option ℕ → Bool
is_byte b none = false
is_byte b (some c) = c == b

-- `readInt`
unfoldable pub read_int : List ℕ → ℕ → Result (List ℕ × ℕ)
unfolding read_length advance subarray
read_int der off = do
  check (is_byte 0x02 (get_elem? der off))
  (len, start) ← read_length (get_elem? der (off + 1)) der (off + 1)
  next ← advance start len
  ok (subarray der start len, next)

-- The loop of `fit32`.
unfoldable pub strip : List ℕ → List ℕ
strip [] = []
strip (b ∷ bs) = let rest = strip bs in if ltb 32 (length (b ∷ bs)) && b == 0 then rest else b ∷ bs

abbrev pub zeros : ℕ → List ℕ
zeros zero = []
zeros (suc n) = 0 ∷ zeros n

-- `new Uint8Array(32)` with the bytes at its end.
abbrev pub padded : List ℕ → List ℕ
padded bs = zeros (32 - length bs) ++ bs

unfoldable pub fit32 : List ℕ → Result (List ℕ)
unfolding strip
fit32 bs = let x = strip bs in if ltb 32 (length x) then malformed else ok (padded x)

-- `derToRawEcdsaSignature`
unfoldable pub der_to_raw_ecdsa_signature : List ℕ → Result (List ℕ)
unfolding read_length advance read_int fit32
der_to_raw_ecdsa_signature der = do
  check (is_byte 0x30 (get_elem? der 0))
  (seq_len, start) ← read_length (get_elem? der 1) der 1
  end ← advance start seq_len
  check (end == length der)
  (r, after_r) ← read_int der start
  (s, after_s) ← read_int der after_r
  check (after_s == length der)
  r32 ← fit32 r
  s32 ← fit32 s
  ok (r32 ++ s32)
