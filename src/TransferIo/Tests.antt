-- ===== src/TransferIo/Tests.antt =====
-- Staged downloads at concrete inputs.
use wosh.Prelude.{
  some, true, ℕ, ◌≡◌, refl, List, [], ◌∷◌, none, codes, Text, ◌++◌, take, length, ap,
  take-length_le, arith,
}
use wosh.Prelude.Results.{ok, err}
use wosh.TransferWorker.{Opfs, Worker, Reply}
use wosh.TransferWorker as Staging_worker
use wosh.TransferWorker.Refinement.{missing, closed, run-IsShown_of_empty}
use wosh.TransferIo.Staging.{
  Op, write_of, flush_of, committed_of, IsShownAs, download, download-IsStaged,
}
use wosh.TransferIo.Rpc.{fresh, Event, called, replied, run}
use wosh.TransferIo.Settled.{settlements, settlements-run}

-- The replies to two calls come in the other order, one of them twice, and one comes for a call
-- that is not made yet.
abbrev mixed : List (Event ℕ)
mixed =
    called
    ∷ called
    ∷ replied 3 (ok 5)
    ∷ replied 2 (ok 7)
    ∷ replied 1 (err (codes "gone"))
    ∷ replied 2 (ok 8)
    ∷ []

settlements-run_example : settlements ℕ 2 (run ℕ mixed (fresh ℕ)).settled ≡ ok 7 ∷ []
settlements-run_example = settlements-run ℕ mixed 2

-- Files of bytes, where a sink_write at the end appends.
abbrev files : Opfs
files = record {
  File = List ℕ;
  empty_file = [];
  content = λ f. f;
  write_at = λ bytes offset f. take offset f ++ bytes;
  content-empty_file = refl;
  content-write_at = λ bytes f. ap (◌++ bytes) (take-length_le (length f) f (omega arith));
}

abbrev nothing : Worker files
nothing j = record { entry = none; file = none }

abbrev text : Reply → Text
text r = codes "error"

-- Two chunks are written, and the second after the flush.
abbrev two_chunks : List Op
two_chunks =
    write_of (1 ∷ 2 ∷ []) (some 2)
    ∷ flush_of true
    ∷ write_of (3 ∷ []) (some 1)
    ∷ committed_of
    ∷ flush_of true
    ∷ committed_of
    ∷ []

nothing_shown : IsShownAs files text 5 missing nothing
unfolding Staging_worker.run
nothing_shown = ((λ j. missing), (run-IsShown_of_empty files [] tt).0, refl)

download-IsStaged_example :
    ((download files text 5 two_chunks nothing).0 ≡ ok (2 ∷ 3 ∷ []))
    × IsShownAs files text 5 (closed (1 ∷ 2 ∷ 3 ∷ [])) (download files text 5 two_chunks nothing).1
download-IsStaged_example =
    download-IsStaged files text 5 two_chunks none nothing (refl, (refl, (refl, (refl, tt))))
      nothing_shown
