-- ===== src/BufferStore/Tests.antt =====
-- A store that is full, where keys are one letter.
use wosh.Prelude.{
  ℕ, ◌≡◌, refl, Bool, true, false, [], ◌∷◌, none, some, ltb, text_eq, Text, codes, arith,
}
use wosh.BufferStore.{Saved, Store, get, put, find, no_fault, reading, wipe}
use wosh.BufferStore.Keeping.{IsDistinct, IsOlder}
use wosh.BufferStore.Newest.{get-put}

abbrev by_letter : Text → Text → Bool
by_letter [] k = true
by_letter (c ∷ s) [] = false
by_letter (c ∷ s) (d ∷ t) = ltb c d

abbrev dump : ℕ → Saved
dump n = record { buf = n ∷ []; at = n }

abbrev full : Store
full = record {
  entries =
      (codes "a", dump 1)
      ∷ (codes "b", dump 8)
      ∷ (codes "c", dump 3)
      ∷ (codes "d", dump 4)
      ∷ (codes "e", dump 5)
      ∷ (codes "f", dump 6)
      ∷ (codes "g", dump 7)
      ∷ (codes "i", dump 2)
      ∷ [];
  warned = false;
  warnings = 0;
}

distinct : IsDistinct full.entries
unfolding text_eq
distinct = ground arith

older : IsOlder 9 full.entries
older = ground arith

get-put_example :
    (get no_fault (codes "h") (put by_letter no_fault (codes "h") (codes "x") 9 full)).0
    ≡ some (record { buf = codes "x"; at = 9 })
get-put_example = get-put by_letter (codes "h") (codes "x") 9 full distinct older

oldest_gone :
    find (codes "a") (put by_letter no_fault (codes "h") (codes "x") 9 full).entries ≡ none
unfolding find put
oldest_gone = refl

one_warning : (wipe reading (put by_letter reading (codes "h") (codes "x") 9 full)).warnings ≡ 1
unfolding put wipe
one_warning = refl
