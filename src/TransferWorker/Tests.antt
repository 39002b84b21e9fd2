-- ===== src/TransferWorker/Tests.antt =====
-- The worker over files that are lists of bytes.
use wosh.Prelude.{ℕ, zero, suc, ◌≡◌, refl, true, false, List, [], ◌∷◌, ◌++◌, none, some, length, ap}
use wosh.TransferWorker.{
  Opfs, opening, writing, flushing, committing, closing, Message, ok, not_open, run, browser_error,
}

abbrev overwrite : List ℕ → List ℕ → List ℕ
overwrite [] f = f
overwrite (b ∷ bytes) [] = b ∷ bytes
overwrite (b ∷ bytes) (c ∷ f) = b ∷ overwrite bytes f

-- A hole before the offset is filled with zeros.
abbrev write_list : List ℕ → ℕ → List ℕ → List ℕ
write_list bytes zero f = overwrite bytes f
write_list bytes (suc at) [] = 0 ∷ write_list bytes at []
write_list bytes (suc at) (b ∷ f) = b ∷ write_list bytes at f

write_list_end : (bytes f : List ℕ) → write_list bytes (length f) f ≡ f ++ bytes
write_list_end [] [] = refl
write_list_end (c ∷ bytes) [] = refl
write_list_end bytes (b ∷ f) = ap (b ∷◌) (write_list_end bytes f)

abbrev list_files : Opfs
list_files = record {
  File = List ℕ;
  empty_file = [];
  content = λ f. f;
  write_at = write_list;
  content-empty_file = refl;
  content-write_at = write_list_end;
}

-- A download that is interrupted after its flush, a write and a flush that throw, and its resumption.
abbrev interrupted : List (ℕ × Message)
interrupted =
    (7, writing (1 ∷ []) (some 1))
    ∷ (7, opening true true)
    ∷ (7, writing (1 ∷ 2 ∷ []) (some 2))
    ∷ (7, flushing true)
    ∷ (7, writing (3 ∷ []) (some 1))
    ∷ (7, writing (4 ∷ []) none)
    ∷ (7, flushing false)
    ∷ (7, committing)
    ∷ (7, closing)
    ∷ (8, opening false true)
    ∷ (7, opening false true)
    ∷ []

resumed :
    (run list_files interrupted (λ j. record { entry = none; file = none })).1
    ≡ not_open
      ∷ ok (some 0)
      ∷ ok none
      ∷ ok (some 2)
      ∷ ok none
      ∷ browser_error
      ∷ browser_error
      ∷ ok (some 2)
      ∷ ok none
      ∷ browser_error
      ∷ ok (some 3)
      ∷ []
unfolding run
resumed = refl
