-- ===== src/PairingStore/Lasting.antt =====
-- What is loaded after any calls of `store`.
use wosh.Prelude.{◌≡◌, refl, List, [], ◌∷◌, Option, some}
use wosh.Prelude.Results.{Access, closed, working, refused, ok}
use wosh.PasskeyStore.Records.{Bytes}
use wosh.PairingStore.{Blob, bytes_of, load_pairing, store_all}

-- The blob of the last call that the database carried out, or what there was before.
abbrev last_carried_out : List (Access × Bytes) → Option Bytes → Option Bytes
last_carried_out [] kept = kept
last_carried_out ((closed, b) ∷ calls) kept = last_carried_out calls kept
last_carried_out ((working, b) ∷ calls) kept = last_carried_out calls (some b)
last_carried_out ((refused e, b) ∷ calls) kept = last_carried_out calls kept

-- After any calls of `store`, `load` gives the blob of the last one that the database carried out,
-- or what it gave before.
load_pairing-store_all :
    (calls : List (Access × Bytes)) (v : Blob)
    → load_pairing working (store_all calls v) ≡ ok (last_carried_out calls (bytes_of v))
unfolding load_pairing store_all
load_pairing-store_all [] v = refl
load_pairing-store_all ((closed, b) ∷ calls) v = load_pairing-store_all calls v
load_pairing-store_all ((working, b) ∷ calls) v = load_pairing-store_all calls _
load_pairing-store_all ((refused e, b) ∷ calls) v = load_pairing-store_all calls v
