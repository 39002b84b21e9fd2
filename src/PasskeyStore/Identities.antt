-- ===== src/PasskeyStore/Identities.antt =====
-- The passkey from one call to the next.
use wosh.Prelude.{
  ◌≡◌, refl, sym, ap, ◌∙◌, subst, ◌==◌, length, Bool, true, false, not, ◌||◌, List, [], ◌∷◌, Option,
  none, some, Text, codes,
}
use wosh.Prelude.Results.{
  Access, closed, working, refused, err_arm, Result, ok, err, >>=-returned, ok_injective,
  err_not_ok,
}
use wosh.PasskeyStore.Records.{Bytes, StoredIdentity, Kept, load_record, save_record}
use wosh.PasskeyStore.Ceremonies.{
  Assertion, Picked, Page, PasskeyIdentity, passkey_of, identity, passkey_if, nonempty, saving,
  present, registered, enroll,
}
use wosh.PasskeyStore.Asserting.{request_for, learned, is_some, or_else, assert, allowed}
use wosh.PasskeyStore.Asserted.{thrown, unchanged, taught, assert-IsAssert}
use wosh.PasskeyStore.Usable.{usable_key, usable-value_of, load_record-save_record}

-- What `identity` answers from a record.
abbrev answer : Option StoredIdentity → Result (Option PasskeyIdentity)
answer m = ok (passkey_if m)

-- Saving what an assertion taught leaves every later reading of the identity as it was.
taught-identity :
    (access b : Access) (s : Kept) (r : StoredIdentity) (p : Picked) {t : Kept}
    → load_record access s ≡ ok (some r)
    → save_record access (learned r p) s ≡ (ok tt, t)
    → identity b t ≡ identity b s
unfolding identity load_record save_record
taught-identity closed closed s r p l h =
    sym (ap (λ x. identity closed x.1) h) ∙ ap answer (sym (ok_injective l))
taught-identity closed working s r p l h = sym (ap (λ x. identity working x.1) h)
taught-identity closed (refused e) s r p l h = refl
taught-identity working closed s r p l h = sym (ap (λ x. identity closed x.1) h)
taught-identity working working s r p l h =
    sym (ap (λ x. identity working x.1) h)
    ∙ ap answer (usable-value_of (learned r p) (usable_key s.database (ok_injective l)))
    ∙ ap answer (sym (ok_injective l))
taught-identity working (refused e) s r p l h = refl
taught-identity (refused m) b s r p l h = absurd (err_not_ok l)

-- Where the database answers a ceremony alike throughout, an assertion leaves the identity as it is,
-- however it ends, and however the database answers when the identity is read.
pub identity-assert :
    (w : Page) (challenge : Bytes) (access b : Access) (s : Kept)
    → identity b (assert w challenge access access s).1 ≡ identity b s
identity-assert w challenge access b s = elim (assert-IsAssert w challenge access access s) [
  | thrown e h k ↦ ap (identity b) k
  | unchanged r p h e d ↦ ap (λ x. identity b x.1) d
  | taught r p h saved d ↦ taught-identity access b s r p h.0 saved
]

-- `assert` names the credential of a record that has one.
named_learned :
    (o : Option Bytes) (b : Bytes) (ts : Option (List Text))
    → (id : Bytes) × (allowed (or_else o (some b)) ts ≡ (id, nonempty ts) ∷ [])
named_learned none b ts = (b, refl)
named_learned (some id) b ts = (id, refl)

named_known :
    (o : Option Bytes) (q : Bool) (ts : Option (List Text))
    → (not (is_some o) || q) ≡ false
    → (id : Bytes) × (allowed o ts ≡ (id, nonempty ts) ∷ [])
named_known none q ts h = absurd (cc)
named_known (some id) q ts h = (id, refl)

load_record-learned :
    (access : Access) (s : Kept) (r : StoredIdentity) (p : Picked) {t : Kept}
    → load_record access s ≡ ok (some r)
    → save_record access (learned r p) s ≡ (ok tt, t)
    → load_record access t ≡ ok (some (learned r p))
unfolding load_record save_record
load_record-learned closed s r p l h = sym (ap (λ x. load_record closed x.1) h)
load_record-learned working s r p l h =
    load_record-save_record working (learned r p) s (usable_key s.database (ok_injective l)) h
load_record-learned (refused m) s r p l h = absurd (err_not_ok l)

-- After an assertion that was returned, with the database answering alike throughout, the next one
-- names the credential to the authenticator.
assert-learns :
    (w : Page) (challenge next : Bytes) (access : Access) (s : Kept) {a : Assertion}
    → (assert w challenge access access s).0 ≡ ok a
    → (r : StoredIdentity) × (id : Bytes) × (load_record access
          (assert w challenge access access s).1
        ≡ ok (some r))
      × ((request_for next r).allow_credentials ≡ (id, nonempty r.transports) ∷ [])
assert-learns w challenge next access s h = elim (assert-IsAssert w challenge access access s) [
  | thrown e d k ↦ absurd (err_not_ok (sym d ∙ h))
  | unchanged r p proved known d ↦
      let (id, named) = named_known r.credential_id _ r.transports known in
      (r, id, ap (λ x. load_record access x.1) d ∙ proved.0, named)
  | taught r p proved saved d ↦
      let (id, named) = named_learned r.credential_id p.raw_id (learned r p).transports in
      (learned r p, id, load_record-learned access s r p proved.0 saved, named)
]

module _ (w : Page) (user_id challenge : Bytes) where
  -- An uncompressed point of P-256 has 65 bytes.
  abbrev pub IsP256 : Type 0
  IsP256 = (k : w.crypto.Key) (b : Bytes) → w.crypto.export_raw k ≡ ok b → length b == 65 ≡ true

  registered_key :
      {r : StoredIdentity}
      → IsP256
      → registered w user_id challenge ≡ ok r
      → length r.public_key == 65 ≡ true
  unfolding registered
  registered_key key h =
      let (created, _, h1) = >>=-returned (w.create w.hostname user_id challenge) _ h in
      let (cred, _, h2) = >>=-returned (present _ created) _ h1 in
      let (spki, _, h3) = >>=-returned (present _ cred.public_key) _ h2 in
      let (k, _, h4) = >>=-returned (w.crypto.import_spki spki) _ h3 in
      let (b, exported, h5) = >>=-returned (w.crypto.export_raw k) _ h4 in
      subst (λ r. length r.public_key == 65 ≡ true) (ok_injective h5) (key k b exported)

  identity-enrolled :
      (access : Access) (m : Result StoredIdentity) (s : Kept) {i : PasskeyIdentity}
      → ((r : StoredIdentity) → m ≡ ok r → length r.public_key == 65 ≡ true)
      → (saving access passkey_of m s).0 ≡ ok i
      → identity access (saving access passkey_of m s).1 ≡ ok (some i)
  unfolding identity load_record save_record
  identity-enrolled closed (ok r) s key h = ap (λ j. ok (some j)) (ok_injective h)
  identity-enrolled working (ok r) s key h =
      ap answer (usable-value_of r (key r refl)) ∙ ap (λ j. ok (some j)) (ok_injective h)
  identity-enrolled (refused e) (ok r) s key h = absurd (err_not_ok h)
  identity-enrolled access (err e) s key h = absurd (err_not_ok h)

  -- A passkey that was enrolled is the identity from then on, where the database answers as it did.
  identity-enroll :
      (access : Access) (s : Kept) {i : PasskeyIdentity}
      → IsP256
      → (enroll w user_id challenge access s).0 ≡ ok i
      → identity access (enroll w user_id challenge access s).1 ≡ ok (some i)
  unfolding enroll
  identity-enroll access s key h =
      identity-enrolled access (registered w user_id challenge) s (λ r e. registered_key key e)
        (unarmed _ h)
    where
      unarmed :
          (m : Result PasskeyIdentity) {i : PasskeyIdentity}
          → err_arm (codes "passkey enroll") m ≡ ok i
          → m ≡ ok i
      unarmed (ok i) h = h
      unarmed (err e) h = absurd (err_not_ok h)
