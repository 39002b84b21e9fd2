-- ===== src/PasskeyStore/Ceremonies.antt =====
-- The ceremonies with the authenticator. The authenticator, WebCrypto and the gate that the page
-- installs are parameters.
use wosh.Prelude.{
  Bool, true, false, List, ◌++◌, Option, none, some, if◌then◌else◌, is_nil, Text, codes,
}
use wosh.Prelude.Results.{Access, err_arm, Result, ok, err, ◌>>=◌}
use wosh.PasskeyStore.Der.{der_to_raw_ecdsa_signature}
use wosh.PasskeyStore.Records.{
  Bytes, StoredIdentity, stored_identity, Kept, load_record, save_record,
}

pub record Assertion : Type 0 where
  pub authenticator_data : Bytes
  pub client_data_json : Bytes
  pub signature : Bytes

-- What `credentials.get` gives, and what it is asked for: the credentials that it may use, each with
-- the transports that reach it.
pub record Picked : Type 0 where
  pub raw_id : Bytes
  pub attachment : Option Text
  pub assertion : Assertion

pub record Request : Type 0 where
  pub challenge : Bytes
  pub rp_id : Text
  pub allow_credentials : List (Bytes × Option (List Text))

-- What `credentials.create` gives: `getPublicKey` and `getTransports` may give nothing.
pub record Registration : Type 0 where
  pub raw_id : Bytes
  pub public_key : Option Bytes
  pub transports : Option (List Text)

pub record Crypto : Type 1 where
  pub Key : Type 0
  pub import_raw : Bytes → Result Key
  pub import_spki : Bytes → Result Key
  pub export_raw : Key → Result Bytes
  pub sha256 : Bytes → Bytes
  pub verify : Key → Bytes → Bytes → Result Bool

-- The page's surroundings: `location.hostname`, `credentials.get` and `credentials.create` for a
-- relying party, a user id and a challenge, `userActivation.isActive` and the gate, if it is
-- installed.
pub record Page : Type 1 where
  pub crypto : Crypto
  pub hostname : Text
  pub get : Request → Result (Option Picked)
  pub create : Text → Bytes → Bytes → Result (Option Registration)
  pub is_active : Option Bool
  pub ceremony_gate : Option (Result (Unit {0}))

-- `if (!v) throw`
abbrev pub present : {A : Type 0} → Text → Option A → Result A
present e none = err e
present e (some a) = ok a

abbrev pub ensure : Text → Bool → Result (Unit {0})
ensure e true = ok tt
ensure e false = err e

-- `verifyAssertion`. What cannot be converted is not verified.
abbrev verify_raw : (c : Crypto) → c.Key → Bytes → Result Bytes → Result Bool
verify_raw c key over (ok raw) = c.verify key raw over
verify_raw c key over (err e) = ok false

unfoldable pub verify_assertion : Crypto → Bytes → Assertion → Result Bool
verify_assertion c public_key a = do
  key ← c.import_raw public_key
  let signed_over = a.authenticator_data ++ c.sha256 a.client_data_json
  verify_raw c key signed_over (der_to_raw_ecdsa_signature a.signature)

-- `maybeGate`
unfoldable pub maybe_gate : Option Bool → Option (Result (Unit {0})) → Result (Unit {0})
maybe_gate (some false) (some g) = g
maybe_gate active gate = ok tt

pub record PasskeyIdentity : Type 0 where
  pub public_key : Bytes
  pub relying_party : Text

abbrev pub passkey_of : StoredIdentity → PasskeyIdentity
passkey_of r = record { public_key = r.public_key; relying_party = r.rp_id }

abbrev pub passkey_if : Option StoredIdentity → Option PasskeyIdentity
passkey_if none = none
passkey_if (some r) = some (passkey_of r)

-- `identity`
unfoldable pub identity : Access → Kept → Result (Option PasskeyIdentity)
unfolding load_record
identity access s =
    err_arm (codes "passkey identity") (do r ← load_record access s; ok (passkey_if r))

-- `transports?.length ? transports : undefined`
abbrev pub nonempty : Option (List Text) → Option (List Text)
nonempty none = none
nonempty (some ts) = if is_nil ts then none else some ts

-- What `enroll` is to store.
unfoldable pub registered : Page → Bytes → Bytes → Result StoredIdentity
registered w user_id challenge = do
  created ← w.create w.hostname user_id challenge
  cred ← present (codes "no credential returned") created
  spki ←
      present
        (codes
          "authenticator did not return a public key (getPublicKey unsupported or credential not ES256)")
        cred.public_key
  key ← w.crypto.import_spki spki
  public_key ← w.crypto.export_raw key
  ok (stored_identity (some cred.raw_id) public_key w.hostname (nonempty cred.transports))

-- Storing what a body gives, and answering from it.
abbrev pub saving :
    {A : Type 0} → Access → (StoredIdentity → A) → Result StoredIdentity → Kept → Result A × Kept
saving access answer (ok r) s =
    let (done, s') = save_record access r s in (done >>= λ _. ok (answer r), s')
saving access answer (err e) s = (err e, s)

-- `enroll`
unfoldable pub enroll : Page → Bytes → Bytes → Access → Kept → Result PasskeyIdentity × Kept
unfolding registered save_record
enroll w user_id challenge access s =
    let (done, s') = saving access passkey_of (registered w user_id challenge) s in
    (err_arm (codes "passkey enroll") done, s')
