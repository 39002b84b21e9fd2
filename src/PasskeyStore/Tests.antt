-- ===== src/PasskeyStore/Tests.antt =====
-- The passkey store at concrete inputs.
use wosh.Prelude.{◌≡◌, refl, true, false, [], ◌∷◌, ◌++◌, none, some, arith, codes}
use wosh.Prelude.Results.{working, ok}
use wosh.PasskeyStore.Der.{zeros, padded, der_to_raw_ecdsa_signature}
use wosh.PasskeyStore.Signatures.{der_signature, der_to_raw_ecdsa_signature-der_signature}
use wosh.PasskeyStore.Records.{Bytes, stored_identity, no_object, value_of, Kept}
use wosh.PasskeyStore.Ceremonies.{
  Crypto, Page, Picked, Registration, PasskeyIdentity, identity, enroll,
}
use wosh.PasskeyStore.Asserting.{adopt, assert}
use wosh.PasskeyStore.Verified.{IsAdoption, adopt-IsAdoption}
use wosh.PasskeyStore.Asserted.{IsAssert, assert-IsAssert}
use wosh.PasskeyStore.Identities.{identity-assert}

abbrev point : Bytes
point = 4 ∷ zeros 64

abbrev crypto : Crypto
crypto = record {
  Key = Bytes;
  import_raw = ok;
  import_spki = ok;
  export_raw = λ k. ok point;
  sha256 = λ b. b;
  verify = λ k raw over. ok true;
}

abbrev picked : Picked
picked = record {
  raw_id = 7 ∷ [];
  attachment = some (codes "platform");
  assertion = record {
    authenticator_data = 1 ∷ [];
    client_data_json = 2 ∷ [];
    signature = der_signature (5 ∷ []) (0 ∷ 200 ∷ []);
  };
}

abbrev registration : Registration
registration = record { raw_id = 7 ∷ []; public_key = some (9 ∷ []); transports = some [] }

abbrev page : Page
page = record {
  crypto = crypto;
  hostname = codes "wosh.test";
  get = λ r. ok (some picked);
  create = λ rp id challenge. ok (some registration);
  is_active = none;
  ceremony_gate = none;
}

abbrev fresh : Kept
fresh = record { database = no_object; mem_record = none }

abbrev mine : PasskeyIdentity
mine = record { public_key = point; relying_party = codes "wosh.test" }

-- A record with no credential id.
abbrev kept : Kept
kept = record {
  database = value_of (stored_identity none point (codes "wosh.test") none);
  mem_record = none;
}

-- An empty INTEGER is read as zero.
empty_integers : der_to_raw_ecdsa_signature (0x30 ∷ 4 ∷ 2 ∷ 0 ∷ 2 ∷ 0 ∷ []) ≡ ok (zeros 64)
unfolding der_to_raw_ecdsa_signature
empty_integers = refl

der_to_raw_ecdsa_signature-der_signature_example :
    der_to_raw_ecdsa_signature (der_signature (5 ∷ []) (0 ∷ 200 ∷ []))
    ≡ ok (padded (5 ∷ []) ++ padded (200 ∷ []))
der_to_raw_ecdsa_signature-der_signature_example =
    der_to_raw_ecdsa_signature-der_signature false true (5 ∷ []) (200 ∷ [])
      (omega arith, omega arith, refl) (omega arith, omega arith, refl) (omega arith) (omega arith)

adopt-IsAdoption_example : IsAdoption page [] mine working fresh (adopt page [] mine working fresh)
adopt-IsAdoption_example = adopt-IsAdoption page [] mine working fresh

assert-IsAssert_example :
    IsAssert page (3 ∷ []) working working kept (assert page (3 ∷ []) working working kept)
assert-IsAssert_example = assert-IsAssert page (3 ∷ []) working working kept

identity-assert_example :
    identity working (assert page (3 ∷ []) working working kept).1 ≡ identity working kept
identity-assert_example = identity-assert page (3 ∷ []) working working kept

asserted_here : (assert page (3 ∷ []) working working kept).0 ≡ ok picked.assertion
unfolding assert der_to_raw_ecdsa_signature
asserted_here = refl

enrolled_here : (enroll page [] [] working fresh).0 ≡ ok mine
unfolding enroll
enrolled_here = refl
