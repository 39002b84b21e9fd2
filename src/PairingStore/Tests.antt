-- ===== src/PairingStore/Tests.antt =====
-- The pairing store at concrete inputs.
use wosh.Prelude.{◌≡◌, refl, List, [], ◌∷◌, codes}
use wosh.Prelude.Results.{Access, closed, working, refused}
use wosh.PasskeyStore.Records.{Bytes}
use wosh.PairingStore.{no_bytes, bytes, store_all}

abbrev calls : List (Access × Bytes)
calls =
    (working, 1 ∷ [])
    ∷ (working, 2 ∷ [])
    ∷ (closed, 3 ∷ [])
    ∷ (refused (codes "quota"), 4 ∷ [])
    ∷ []

second_kept : store_all calls no_bytes ≡ bytes (2 ∷ [])
unfolding store_all
second_kept = refl
