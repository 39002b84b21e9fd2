-- ===== src/PairingStore.antt =====
-- The pairing that the client component keeps in this browser: site/pairing-store.ts. The warnings on
-- the console are left out.
mod Lasting
mod Tests
use wosh.Prelude.{List, [], ◌∷◌, Option, none, some, codes}
use wosh.Prelude.Results.{Access, closed, working, refused, Result, ok, err, err_arm}
use wosh.PasskeyStore.Records.{Bytes}

-- What the database has under the key: nothing or a value of another type, or bytes.
pub data Blob : Type 0 where
  no_bytes : Blob
  bytes : Bytes → Blob

-- `v instanceof Uint8Array ? v : undefined`
abbrev pub bytes_of : Blob → Option Bytes
bytes_of no_bytes = none
bytes_of (bytes b) = some b

-- `load`
unfoldable pub load_pairing : Access → Blob → Result (Option Bytes)
load_pairing closed v = ok none
load_pairing working v = ok (bytes_of v)
load_pairing (refused e) v = err_arm (codes "pairing load") (err e)

-- `store`
unfoldable pub store_pairing : Access → Bytes → Blob → Result (Unit {0}) × Blob
store_pairing closed b v = (ok tt, v)
store_pairing working b v = (ok tt, bytes b)
store_pairing (refused e) b v = (err_arm (codes "pairing store") (err e), v)

-- Calls of `store`, with how the database answers each.
unfoldable pub store_all : List (Access × Bytes) → Blob → Blob
unfolding store_pairing
store_all [] v = v
store_all ((access, b) ∷ calls) v = store_all calls (store_pairing access b v).1
