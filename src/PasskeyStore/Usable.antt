-- ===== src/PasskeyStore/Usable.antt =====
-- What is saved is loaded again.
use wosh.Prelude.{
  ◌≡◌, refl, sym, ap, ◌∙◌, subst, Bool, true, false, List, Option, none, some, Text, length, ◌==◌,
  if◌then◌else◌,
}
use wosh.Prelude.Results.{Access, closed, working, refused, ok, err_not_ok}
use wosh.PasskeyStore.Records.{
  Bytes, StoredIdentity, stored_identity, Field, absent, foreign, held, Value, no_object, object,
  with_held, with_optional, value_of, usable, Kept, load_record, save_record,
}

with_held-eq-some :
    {A B : Type 0} (f : Field A) (k : A → Option B) {b : B}
    → with_held f k ≡ some b
    → (a : A) × (k a ≡ some b)
with_held-eq-some absent k h = absurd (cc)
with_held-eq-some foreign k h = absurd (cc)
with_held-eq-some (held a) k h = (a, h)

with_optional-eq-some :
    {A B : Type 0} (f : Field A) (k : Option A → Option B) {b : B}
    → with_optional f k ≡ some b
    → (a : Option A) × (k a ≡ some b)
with_optional-eq-some absent k h = (none, h)
with_optional-eq-some foreign k h = absurd (cc)
with_optional-eq-some (held a) k h = (some a, h)

abbrev is_key : Bytes → Bool
is_key key = length key == 65

checked :
    (x : StoredIdentity) (b : Bool) {r : StoredIdentity}
    → is_key x.public_key ≡ b
    → (if b then some x else none) ≡ some r
    → is_key r.public_key ≡ true
checked x true e h = subst (λ y. is_key y.public_key ≡ true) (some_injective h) e
  where
    some_injective : {a b : StoredIdentity} → some a ≡ some b → a ≡ b
    some_injective h = cc
checked x false e h = absurd (cc)

-- A record that is taken for a passkey has a key of 65 bytes.
pub usable_key :
    (v : Value) {r : StoredIdentity} → usable v ≡ some r → length r.public_key == 65 ≡ true
unfolding usable
usable_key no_object h = absurd (cc)
usable_key (object v) h =
    let (key, h1) = with_held-eq-some v.public_key _ h in
    let (rp, h2) = with_held-eq-some v.rp_id _ h1 in
    let (id, h3) = with_optional-eq-some v.credential_id _ h2 in
    let (ts, h4) = with_optional-eq-some v.transports _ h3 in
    checked (stored_identity id key rp ts) (is_key key) refl h4

usable_parts :
    (id : Option Bytes) (key : Bytes) (rp : Text) (ts : Option (List Text))
    → is_key key ≡ true
    → usable (value_of (stored_identity id key rp ts)) ≡ some (stored_identity id key rp ts)
unfolding usable
usable_parts none key rp none h = rw h refl
usable_parts none key rp (some ts) h = rw h refl
usable_parts (some id) key rp none h = rw h refl
usable_parts (some id) key rp (some ts) h = rw h refl

pub usable-value_of :
    (r : StoredIdentity) → length r.public_key == 65 ≡ true → usable (value_of r) ≡ some r
usable-value_of r h = usable_parts r.credential_id r.public_key r.rp_id r.transports h

-- A record that was saved, with a key of 65 bytes, is what is loaded where the database answers as it
-- did.
pub load_record-save_record :
    (access : Access) (r : StoredIdentity) (s : Kept) {t : Kept}
    → (length r.public_key == 65) ≡ true
    → save_record access r s ≡ (ok tt, t)
    → load_record access t ≡ ok (some r)
unfolding load_record save_record
load_record-save_record closed r s h e = sym (ap (λ x. ok x.1.mem_record) e)
load_record-save_record working r s h e =
    sym (ap (λ x. ok (usable x.1.database)) e) ∙ ap ok (usable-value_of r h)
load_record-save_record (refused m) r s h e = absurd (err_not_ok (ap (λ x. x.0) e))
