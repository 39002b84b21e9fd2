-- ===== src/TransferUi.antt =====
-- The transfer panel of site/transfer-ui.mjs; here `joinSegments`, `segsEqual` and
-- `predictSavedName`. A path is a list of segments, each a list of bytes.
pub mod Polling
mod Once
pub mod Resumable
mod Handoff
mod Careful
pub mod Paths
mod Tests
use wosh.Prelude.{
  ℕ, zero, suc, ◌+◌, ◌-◌, ◌==◌, Bool, true, false, ◌&&◌, List, [], ◌∷◌, if◌then◌else◌, length,
  is_nil, Text, trim_start,
}

abbrev pub Segments : Type 0
Segments = List (List ℕ)

abbrev pub sep : ℕ
sep = 47

-- `new Uint8Array`
unfoldable pub zeros : ℕ → List ℕ
zeros zero = []
zeros (suc n) = 0 ∷ zeros n

abbrev pub overwrite : List ℕ → List ℕ → List ℕ
overwrite [] out = out
overwrite (b ∷ s) [] = []
overwrite (b ∷ s) (c ∷ out) = b ∷ overwrite s out

-- `out.set`, which here never goes past the end
unfoldable pub set_at : ℕ → List ℕ → List ℕ → List ℕ
set_at zero s out = overwrite s out
set_at (suc o) s [] = []
set_at (suc o) s (c ∷ out) = c ∷ set_at o s out

unfoldable pub lengths : Segments → ℕ
lengths [] = 0
lengths (s ∷ ss) = length s + lengths ss

-- The loop over the segments; a separator follows each but the last.
unfoldable pub fill : ℕ → List ℕ → Segments → List ℕ
unfolding set_at
fill o out [] = out
fill o out (s ∷ ss) =
    let written = set_at o s out in
    if is_nil ss
    then fill (o + length s) written ss
    else fill (o + length s + 1) (set_at (o + length s) (sep ∷ []) written) ss

unfoldable pub join_segments : Segments → List ℕ
unfolding fill zeros lengths
join_segments [] = b'.' ∷ []
join_segments (s ∷ ss) = fill 0 (zeros (lengths (s ∷ ss) + length ss)) (s ∷ ss)

-- The loop over the bytes of two segments; past the end of `y` there is no equal byte.
unfoldable pub bytes_agree : List ℕ → List ℕ → Bool
bytes_agree [] y = true
bytes_agree (a ∷ x) [] = false
bytes_agree (a ∷ x) (b ∷ y) = a == b && bytes_agree x y

unfoldable pub segs_agree : Segments → Segments → Bool
unfolding bytes_agree
segs_agree [] b = true
segs_agree (x ∷ a) [] = false
segs_agree (x ∷ a) (y ∷ b) = (length x == length y && bytes_agree x y) && segs_agree a b

unfoldable pub segs_equal : Segments → Segments → Bool
unfolding segs_agree
segs_equal a b = length a == length b && segs_agree a b

abbrev pub is_dot : ℕ → Bool
is_dot c = c == b'.'

unfoldable pub predict_saved_name : Text → Text
unfolding trim_start
predict_saved_name name =
    let stripped = trim_start is_dot name in if is_nil stripped then name else stripped
