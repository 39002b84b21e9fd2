-- ===== src/PasskeyStore/Asserting.antt =====
-- The calls that take a passkey over, use it and let it go.
use wosh.Prelude.{
  Bool, true, false, not, ◌&&◌, ◌||◌, List, [], ◌∷◌, ◌++◌, Option, none, some, if◌then◌else◌, Text,
  codes, text_eq,
}
use wosh.Prelude.Results.{Access, err_arm, Result, ok, err, ◌>>=◌, ◌>>◌}
use wosh.PasskeyStore.Records.{
  Bytes, StoredIdentity, stored_identity, Kept, load_record, save_record, clear_record,
}
use wosh.PasskeyStore.Ceremonies.{
  Assertion, Picked, Request, Page, present, ensure, verify_assertion, maybe_gate, PasskeyIdentity,
  nonempty, saving,
}

-- `["internal"]` where the platform's own authenticator answered
abbrev pub is_platform : Option Text → Bool
is_platform none = false
is_platform (some a) = text_eq a (codes "platform")

abbrev pub taught_transports : Option Text → Option (List Text)
taught_transports a = if is_platform a then some (codes "internal" ∷ []) else none

abbrev pub blind_request : Bytes → Text → Request
blind_request challenge rp = record { challenge = challenge; rp_id = rp; allow_credentials = [] }

abbrev not_this_site : Text → Text → Text
not_this_site rp host =
    codes "passkey is scoped to \""
    ++ (rp ++ (codes "\", not this site (\"" ++ (host ++ codes "\")")))

-- What `adopt` is to store.
unfoldable pub confirmed : Page → Bytes → PasskeyIdentity → Result StoredIdentity
unfolding verify_assertion
confirmed w challenge candidate = do
  ensure (not_this_site candidate.relying_party w.hostname)
      (text_eq candidate.relying_party w.hostname)
  given ← w.get (blind_request challenge candidate.relying_party)
  cred ← present (codes "no assertion returned") given
  good ← verify_assertion w.crypto candidate.public_key cred.assertion
  ensure
      (codes
        "the passkey selected does not match the claimed public key -- a different passkey was picked")
      good
  ok (
      stored_identity (some cred.raw_id) candidate.public_key candidate.relying_party
        (taught_transports cred.attachment))

abbrev pub adopt_from : Access → Result StoredIdentity → Kept → Result (Unit {0}) × Kept
adopt_from access m s =
    let (done, s') = saving access (λ _. tt) m s in (err_arm (codes "passkey adopt") done, s')

-- `adopt`
unfoldable pub adopt : Page → Bytes → PasskeyIdentity → Access → Kept → Result (Unit {0}) × Kept
unfolding confirmed save_record
adopt w challenge candidate access s = adopt_from access (confirmed w challenge candidate) s

-- `forget`
unfoldable pub forget : Access → Kept → Result (Unit {0}) × Kept
unfolding clear_record
forget access s =
    let (done, s') = clear_record access s in (err_arm (codes "passkey forget") done, s')

-- The `allowCredentials` of `assert`.
abbrev pub allowed : Option Bytes → Option (List Text) → List (Bytes × Option (List Text))
allowed none ts = []
allowed (some id) ts = (id, nonempty ts) ∷ []

abbrev pub request_for : Bytes → StoredIdentity → Request
request_for challenge r = record {
  challenge = challenge;
  rp_id = r.rp_id;
  allow_credentials = allowed r.credential_id r.transports;
}

abbrev pub is_some : {A : Type 0} → Option A → Bool
is_some none = false
is_some (some a) = true

abbrev pub or_else : {A : Type 0} → Option A → Option A → Option A
or_else none b = b
or_else (some a) b = some a

-- `{ ...rec, ...learned }`, and whether `learned` has a key
abbrev pub learned : StoredIdentity → Picked → StoredIdentity
learned r p = stored_identity (or_else r.credential_id (some p.raw_id)) r.public_key r.rp_id (
    if is_some (nonempty r.transports)
    then r.transports
    else or_else (taught_transports p.attachment) r.transports)

abbrev pub has_learned : StoredIdentity → Picked → Bool
has_learned r p =
    not (is_some r.credential_id)
    || not (is_some (nonempty r.transports)) && is_platform p.attachment

-- `assert`, up to what it learns: the record that it used and what was picked
unfoldable pub asserted : Page → Bytes → Access → Kept → Result (StoredIdentity × Picked)
unfolding load_record maybe_gate verify_assertion
asserted w challenge access s = do
  stored ← load_record access s
  r ← present (codes "no passkey enrolled") stored
  maybe_gate w.is_active w.ceremony_gate
  given ← w.get (request_for challenge r)
  cred ← present (codes "no assertion returned") given
  good ← verify_assertion w.crypto r.public_key cred.assertion
  ensure
      (codes
        "the signed assertion does not match the stored passkey -- a different passkey was selected")
      good
  ok (r, cred)

abbrev pub learning : Access → Result (StoredIdentity × Picked) → Kept → Result Assertion × Kept
learning access (ok (r, p)) s =
    if has_learned r p
    then saving access (λ _. p.assertion) (ok (learned r p)) s
    else (ok p.assertion, s)
learning access (err e) s = (err e, s)

abbrev pub assert_from : Access → Result (StoredIdentity × Picked) → Kept → Result Assertion × Kept
assert_from access m s =
    let (done, s') = learning access m s in (err_arm (codes "passkey assert") done, s')

-- `assert`, with how the database answers when it is read and when it is written
unfoldable pub assert : Page → Bytes → Access → Access → Kept → Result Assertion × Kept
unfolding asserted save_record
assert w challenge reading writing s = assert_from writing (asserted w challenge reading s) s

-- `assertUnknown`
unfoldable pub assert_unknown : Page → Bytes → Result (Bytes × Text × Assertion)
assert_unknown w challenge = err_arm (codes "passkey assert-unknown") (do
  given ← w.get (blind_request challenge w.hostname)
  cred ← present (codes "no assertion returned") given
  ok (cred.raw_id, w.hostname, cred.assertion))

-- `remember`
unfoldable pub remember : PasskeyIdentity → Bytes → Access → Kept → Result (Unit {0}) × Kept
unfolding save_record
remember identity credential_id access s =
    let r = stored_identity (some credential_id) identity.public_key identity.relying_party none in
    let (done, s') = save_record access r s in (err_arm (codes "passkey remember") done, s')
