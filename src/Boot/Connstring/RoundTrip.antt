-- ===== src/Boot/Connstring/RoundTrip.antt =====
-- What `v3Connstring` writes, `connstringDetails` and `endpointIdOf` read.
use wosh.Prelude.{
  take-append, drop-append, ℕ, suc, ◌+◌, ◌*◌, ◌%◌, ◌≤◌, ◌≡◌, refl, ◌∙◌, ap, false, List, [], ◌∷◌,
  ◌++◌, map, Option, none, some, ltb, length, length-append, take, is_nil, All, All-append, Text,
  arith,
}
use wosh.Boot.Connstring.{
  IsByte, IsAscii, Browser, to_hex, varint, with_relay, relay_v2, details_of_bytes, details_of,
  details_by_version, id_of_bytes, read_bytes, connstring_details, endpoint_id_of, from_hex,
  put_varint, put_token, payload, v3_connstring,
}
use wosh.Boot.Connstring.Fields.{IsLowerHex, from_hex-IsByte, varint-put_varint, put_varint-IsByte}
use wosh.Boot.Connstring.Base64.{read_bytes-btoa}

map_bytes : (bs : List ℕ) → All IsByte bs → map (λ c. c % 256) bs ≡ bs
map_bytes [] h = refl
map_bytes (b ∷ bs) h = let low : b % 256 ≡ b = omega (arith, h.0) in rw (low, map_bytes bs h.1) refl

IsByte-of_IsAscii : (t : Text) → All IsAscii t → All IsByte t
IsByte-of_IsAscii [] h = tt
IsByte-of_IsAscii (c ∷ t) h = (omega (arith, h.0), IsByte-of_IsAscii t h.1)

abbrev pub IsToken : Option (List ℕ) → Type 0
IsToken none = Unit
IsToken (some token) = All IsByte token

put_token-IsByte : (token : Option (List ℕ)) → IsToken token → All IsByte (put_token token)
put_token-IsByte none h = (omega arith, tt)
put_token-IsByte (some token) h = (omega arith, h)

-- A saved card: an endpoint id in lower-case hexadecimal, and a relay's URL.
pub record IsCard (id relay : Text) : Type 0 where
  pub id_hex : All IsLowerHex id
  pub id_length : length id ≡ 64
  pub relay_ascii : All IsAscii relay
  pub relay_given : is_nil relay ≡ false

module _ (w : Browser) (id relay : Text) (token : Option (List ℕ)) (card : IsCard id relay)
    (ht : IsToken token) where
  key : List ℕ
  key = from_hex w 32 id

  tail_bytes : List ℕ
  tail_bytes = 0 ∷ (put_varint (suc (length relay)) (length relay) ++ (relay ++ put_token token))

  key-IsByte : All IsByte key × (length key ≡ 32) × (to_hex key ≡ id)
  unfolding key
  key-IsByte = from_hex-IsByte w 32 id card.id_length card.id_hex

  payload_bytes : payload w id relay token ≡ 3 ∷ (key ++ tail_bytes)
  unfolding payload key tail_bytes
  payload_bytes = rw (w.encode-ascii relay card.relay_ascii) refl

  payload-IsByte : All IsByte (3 ∷ (key ++ tail_bytes))
  unfolding tail_bytes
  payload-IsByte = (
    omega arith,
    All-append IsByte key _ key-IsByte.0 (
      omega arith,
      All-append IsByte (put_varint (suc (length relay)) (length relay)) _ (put_varint-IsByte _ _) (
          All-append IsByte relay _ (IsByte-of_IsAscii relay card.relay_ascii)
            (put_token-IsByte token ht)),
    ),
  )

  relay_read : relay_v2 w id tail_bytes ≡ some (record { id = id; relay = relay })
  unfolding relay_v2 varint tail_bytes
  relay_read =
      ap (λ f. with_relay id (w.decode (take f.0 f.1))) field
      ∙ (ap (λ t. with_relay id (w.decode t))
            (take-append (0 + length relay * 1) relay (put_token token) (omega arith))
          ∙ rw (w.decode-ascii relay card.relay_ascii, card.relay_given) refl)
    where
      field :
          varint 0 1 (put_varint (suc (length relay)) (length relay) ++ (relay ++ put_token token))
          ≡ (0 + length relay * 1, relay ++ put_token token)
      field = varint-put_varint (suc (length relay)) (length relay) 0 1 _ (omega arith)

  tail_length : 1 ≤ length tail_bytes
  unfolding tail_bytes
  tail_length = omega arith

  long : ltb (1 + length (key ++ tail_bytes)) 34 ≡ false
  long = ground (arith, length-append key tail_bytes, key-IsByte.1, tail_length)

  details_read :
      details_of_bytes w (3 ∷ (key ++ tail_bytes)) ≡ some (record { id = id; relay = relay })
  unfolding details_of_bytes
  details_read = rw long (
      ap (λ bs. details_by_version w 3 (to_hex (take 32 (key ++ tail_bytes))) bs)
        (drop-append 32 key tail_bytes key-IsByte.1)
      ∙ (ap (λ bs. details_by_version w 3 (to_hex bs) tail_bytes)
            (take-append 32 key tail_bytes key-IsByte.1)
          ∙ (ap (λ hex. details_by_version w 3 hex tail_bytes) key-IsByte.2 ∙ relay_read)))

  id_read : id_of_bytes (some (3 ∷ (key ++ tail_bytes))) ≡ some id
  unfolding id_of_bytes
  id_read = rw long (
      ap (λ bs. some (to_hex bs)) (take-append 32 key tail_bytes key-IsByte.1)
      ∙ ap some key-IsByte.2)

  bytes_read : read_bytes w (v3_connstring w id relay token) ≡ some (3 ∷ (key ++ tail_bytes))
  unfolding v3_connstring
  bytes_read = rw payload_bytes (read_bytes-btoa w (3 ∷ (key ++ tail_bytes)) payload-IsByte)

  -- The details of a written connection string are the card's, with a token or without, and its
  -- endpoint id is the card's.
  pub connstring_details-v3_connstring :
      (connstring_details w (v3_connstring w id relay token)
        ≡ some (record { id = id; relay = relay }))
      × (endpoint_id_of w (v3_connstring w id relay token) ≡ some id)
  unfolding connstring_details endpoint_id_of details_of
  connstring_details-v3_connstring = (
    ap (details_of w) bytes_read
        ∙ (ap (details_of_bytes w) (map_bytes (3 ∷ (key ++ tail_bytes)) payload-IsByte)
            ∙ details_read),
    ap id_of_bytes bytes_read ∙ id_read,
  )
