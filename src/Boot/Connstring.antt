-- ===== src/Boot/Connstring.antt =====
-- Connection strings: `endpointIdOf`, `connstringDetails` and `v3Connstring` of site/boot.mjs. A
-- byte is a number; a string is its code units.
pub mod Fields
pub mod Base64
pub mod RoundTrip
use wosh.Prelude.{
  ℕ, zero, suc, ◌+◌, ◌-◌, ◌*◌, ◌/◌, ◌%◌, ◌<◌, ◌==◌, ◌≡◌, Bool, true, false, ◌&&◌, ◌||◌, List, [],
  ◌∷◌, ◌++◌, map, Option, none, some, if◌then◌else◌, ltb, leb, length, take, drop, get_elem?,
  is_nil, All, Text, codes, is_word, trim, trim_end,
}

abbrev pub IsByte : ℕ → Type 0
IsByte b = b < 256

abbrev pub IsAscii : ℕ → Type 0
IsAscii c = c < 128

-- The character class of base64, with its padding
unfoldable pub is_base64 : ℕ → Bool
unfolding is_word
is_base64 c = is_word c && ltb c 95 || is_word c && ltb 95 c || c == b'+' || c == b'/' || c == b'='

abbrev pub is_pad : ℕ → Bool
is_pad c = c == b'='

-- What the page relies on in a browser. `other_pair` is the character of `parseInt` of a slice that
-- is not two hexadecimal digits.
pub record Browser : Type 0 where
  pub btoa : List ℕ → Text
  pub atob : Text → Option (List ℕ)
  pub encode : Text → List ℕ
  pub decode : List ℕ → Text
  pub other_pair : Text → ℕ
  pub btoa-alphabet : (bs : List ℕ) → All (λ c. is_base64 c ≡ true) (btoa bs)
  pub atob_unpadded : (bs : List ℕ) → All IsByte bs → atob (trim_end is_pad (btoa bs)) ≡ some bs
  pub encode-ascii : (t : Text) → All IsAscii t → encode t ≡ t
  pub decode-ascii : (bs : List ℕ) → All IsAscii bs → decode bs ≡ bs

-- `replace` of every occurrence of one character
unfoldable pub swap : ℕ → ℕ → Text → Text
swap a b [] = []
swap a b (c ∷ s) = (if c == a then b else c) ∷ swap a b s

-- The bytes of a connection string
unfoldable pub read_bytes : Browser → Text → Option (List ℕ)
unfolding swap trim
read_bytes w s = w.atob (swap b'_' b'/' (swap b'-' b'+' (trim s)))

unfoldable pub hex_digit : ℕ → ℕ
hex_digit n = if ltb n 10 then 48 + n else 87 + n

-- `toString(16).padStart(2, "0")` of each byte
unfoldable pub to_hex : List ℕ → Text
unfolding hex_digit
to_hex [] = []
to_hex (b ∷ bs) = hex_digit (b / 16) ∷ hex_digit (b % 16) ∷ to_hex bs

-- `endpointIdOf` of the bytes; one that is not there is NaN, which fails the test of the length.
unfoldable pub id_of_bytes : Option (List ℕ) → Option Text
unfolding to_hex
id_of_bytes none = none
id_of_bytes (some []) = none
id_of_bytes (some (version ∷ bin)) =
    if ltb (1 + length bin) 34 || ltb version 1 || ltb 3 version
    then none
    else some (to_hex (take 32 bin))

unfoldable pub endpoint_id_of : Browser → Text → Option Text
unfolding read_bytes id_of_bytes
endpoint_id_of w s = id_of_bytes (read_bytes w s)

-- `varint`: what is read and what is left. Past the end every byte reads as 0. `v` is the value so
-- far and `scale` is `2 ** shift`, without the rounding of numbers past 2 ^ 53.
unfoldable pub varint : ℕ → ℕ → List ℕ → ℕ × List ℕ
varint v scale [] = (v, [])
varint v scale (b ∷ bs) =
    let rest = varint (v + (b % 128) * scale) (scale * 128) bs in
    if ltb b 128 then (v + (b % 128) * scale, bs) else rest

abbrev pub well_known_relays : List Text
well_known_relays =
    codes "https://use1-1.relay.n0.iroh.link"
    ∷ codes "https://usw1-1.relay.n0.iroh.link"
    ∷ codes "https://euc1-1.relay.n0.iroh.link"
    ∷ codes "https://aps1-1.relay.n0.iroh.link"
    ∷ []

pub record Details : Type 0 where
  pub id : Text
  pub relay : Text

-- `relay ? { id: hex, relay } : null`
abbrev pub with_relay : Text → Text → Option Details
with_relay hex relay = if is_nil relay then none else some (record { id = hex; relay = relay })

-- What follows the public key, by version.
unfoldable pub relay_v1 : Browser → Text → List ℕ → Option Details
relay_v1 w hex [] = with_relay hex (w.decode [])
relay_v1 w hex (flags ∷ bs) = with_relay hex (w.decode (if flags % 2 == 0 then bs else drop 16 bs))

unfoldable pub relay_v2 : Browser → Text → List ℕ → Option Details
unfolding varint
relay_v2 w hex bs =
    let disc = varint 0 1 bs in
    let field = varint 0 1 disc.1 in
    if disc.0 == 0
    then with_relay hex (w.decode (take field.0 field.1))
    else if disc.0 == 1
    then elim (get_elem? well_known_relays field.0) [ none ↦ none | some r ↦ with_relay hex r ]
    else none

unfoldable pub details_by_version : Browser → ℕ → Text → List ℕ → Option Details
unfolding relay_v1 relay_v2
details_by_version w version hex bs =
    if version == 1
    then relay_v1 w hex bs
    else if version == 2 || version == 3
    then relay_v2 w hex bs
    else none

unfoldable pub details_of_bytes : Browser → List ℕ → Option Details
unfolding details_by_version to_hex
details_of_bytes w [] = none
details_of_bytes w (version ∷ bs) =
    if ltb (1 + length bs) 34
    then none
    else details_by_version w version (to_hex (take 32 bs)) (drop 32 bs)

-- `Uint8Array` keeps eight bits.
unfoldable pub details_of : Browser → Option (List ℕ) → Option Details
unfolding details_of_bytes
details_of w none = none
details_of w (some bin) = details_of_bytes w (map (λ c. c % 256) bin)

unfoldable pub connstring_details : Browser → Text → Option Details
unfolding read_bytes details_of
connstring_details w s = details_of w (read_bytes w s)

-- One hexadecimal digit
unfoldable pub digit_value : ℕ → Option ℕ
digit_value c =
    if leb 48 c && leb c 57
    then some (c - 48)
    else if leb 97 c && leb c 102
    then some (c - 87)
    else if leb 65 c && leb c 70
    then some (c - 55)
    else none

abbrev pub pair_value : Option ℕ → Option ℕ → ℕ → ℕ
pair_value (some h) (some l) other = 16 * h + l
pair_value (some h) none other = other
pair_value none l other = other

-- `parseInt` of a slice, for base 16
unfoldable pub hex_pair : Browser → Text → ℕ
unfolding digit_value
hex_pair w (c ∷ d ∷ []) = pair_value (digit_value c) (digit_value d) (w.other_pair (c ∷ d ∷ []))
hex_pair w s = w.other_pair s

unfoldable pub from_hex : Browser → ℕ → Text → List ℕ
unfolding hex_pair
from_hex w zero s = []
from_hex w (suc n) s = hex_pair w (take 2 s) ∷ from_hex w n (drop 2 s)

-- The loop that writes a length, on fuel.
unfoldable pub put_varint : ℕ → ℕ → List ℕ
put_varint zero len = []
put_varint (suc fuel) len =
    let rest = put_varint fuel (len / 128) in
    if leb 128 len then (len % 128 + 128) ∷ rest else len ∷ []

abbrev pub put_token : Option (List ℕ) → List ℕ
put_token none = 0 ∷ []
put_token (some token) = 1 ∷ token

-- The array `bytes` of `v3Connstring`; the fuel is the length and one.
unfoldable pub payload : Browser → Text → Text → Option (List ℕ) → List ℕ
unfolding from_hex put_varint
payload w id relay token =
    let relay_bytes = w.encode relay in
    let len = length relay_bytes in
    3 ∷ (from_hex w 32 id ++ 0 ∷ (put_varint (suc len) len ++ (relay_bytes ++ put_token token)))

unfoldable pub v3_connstring : Browser → Text → Text → Option (List ℕ) → Text
unfolding payload swap
v3_connstring w id relay token =
    trim_end is_pad (swap b'/' b'_' (swap b'+' b'-' (w.btoa (payload w id relay token))))
