-- ===== src/PasskeyStore/Records.antt =====
-- The record of the passkey: what it holds, and where it is kept. The warnings on the console are left
-- out.
use wosh.Prelude.{ℕ, List, Option, none, some, if◌then◌else◌, ◌==◌, length, Text}
use wosh.Prelude.Results.{Access, closed, working, refused, Result, ok, err}

abbrev pub Bytes : Type 0
Bytes = List ℕ

pub record StoredIdentity : Type 0 where
  pub credential_id : Option Bytes
  pub public_key : Bytes
  pub rp_id : Text
  pub transports : Option (List Text)

-- A property of a value in the database: `undefined`, of another type than the source wants, or of
-- that type.
pub data Field (A : Type 0) : Type 0 where
  absent foreign : Field A
  held : A → Field A

pub record Fields : Type 0 where
  pub credential_id : Field Bytes
  pub public_key : Field Bytes
  pub rp_id : Field Text
  pub transports : Field (List Text)

-- What the key has in the database: nothing or a value that is no object, or an object.
pub data Value : Type 0 where
  no_object : Value
  object : Fields → Value

abbrev pub with_optional : {A B : Type 0} → Field A → (Option A → Option B) → Option B
with_optional absent k = k none
with_optional foreign k = none
with_optional (held a) k = k (some a)

abbrev pub with_held : {A B : Type 0} → Field A → (A → Option B) → Option B
with_held absent k = none
with_held foreign k = none
with_held (held a) k = k a

abbrev pub stored_identity : Option Bytes → Bytes → Text → Option (List Text) → StoredIdentity
stored_identity id key rp ts = record {
  credential_id = id;
  public_key = key;
  rp_id = rp;
  transports = ts;
}

-- `usable`, with the value as what it is then taken for
unfoldable pub usable : Value → Option StoredIdentity
usable no_object = none
usable (object v) = with_held v.public_key λ key. with_held v.rp_id λ rp.
    with_optional v.credential_id λ id.
      with_optional v.transports
        λ ts. if length key == 65 then some (stored_identity id key rp ts) else none

abbrev field_of : {A : Type 0} → Option A → Field A
field_of none = absent
field_of (some a) = held a

abbrev fields_of : StoredIdentity → Fields
fields_of r = record {
  credential_id = field_of r.credential_id;
  public_key = held r.public_key;
  rp_id = held r.rp_id;
  transports = field_of r.transports;
}

-- A record as the database keeps it.
abbrev pub value_of : StoredIdentity → Value
value_of r = object (fields_of r)

-- `KEY` of the object store, and `memRecord`.
pub record Kept : Type 0 where
  pub database : Value
  pub mem_record : Option StoredIdentity

-- `loadRecord`
unfoldable pub load_record : Access → Kept → Result (Option StoredIdentity)
unfolding usable
load_record closed s = ok s.mem_record
load_record working s = ok (usable s.database)
load_record (refused e) s = err e

-- `saveRecord`
unfoldable pub save_record : Access → StoredIdentity → Kept → Result (Unit {0}) × Kept
save_record closed r s = (ok tt, record s { mem_record = some r })
save_record working r s = (ok tt, record s { database = value_of r })
save_record (refused e) r s = (err e, s)

-- `clearRecord`
unfoldable pub clear_record : Access → Kept → Result (Unit {0}) × Kept
clear_record closed s = (ok tt, record s { mem_record = none })
clear_record working s = (ok tt, record s { database = no_object })
clear_record (refused e) s = (err e, s)
