-- ===== src/TransferUi/Handoff.antt =====
-- What becomes of a staged file: its growth, the handoff when its download is done, the delayed
-- removal, and page loads between them.
use wosh.Prelude.{
  ℕ, ◌==◌, Bool, false, ◌&&◌, ◌||◌, List, [], ◌∷◌, ◌++◌, Option, none, some, if◌then◌else◌,
}
use wosh.TransferUi.Resumable.{
  SavedTransfer, TransferStore, idb_delete, remove_staged, load_resumable, resume_download,
  discard_resumable, retry_download,
}

-- What is stored, the staging ids of the files that were handed to the browser, and the records
-- whose removal has a timer.
pub record Downloads : Type 0 where
  pub store : TransferStore
  pub handed : List ℕ
  pub timers : List SavedTransfer

abbrev pub start : TransferStore → Downloads
start s = record { store = s; handed = []; timers = [] }

-- The handoff: `stagedBlob` throws where there is no file.
abbrev pub hand_off : SavedTransfer → Option ℕ → Downloads → Downloads
hand_off r none d = d
hand_off r (some n) d = record d { handed = r.staging_id ∷ d.handed; timers = d.timers ++ r ∷ [] }

-- `finishTransfer` for an outcome, with whether `closeStaged` succeeds.
unfoldable pub finish_transfer : SavedTransfer → Bool → Bool → Downloads → Downloads
finish_transfer r good closes d =
    if good && (r.is_download && closes) then hand_off r (d.store.files r.staging_id) d else d

-- The timer's handler, with whether each of the removals succeeds.
abbrev pub clean_up : SavedTransfer → Bool → Bool → TransferStore → TransferStore
clean_up r removes deletes s = record s {
  files = if removes then remove_staged r.staging_id s.files else s.files;
  records = if deletes then idb_delete r.id s.records else s.records;
}

-- The first of the timers, which all have one delay.
abbrev pub first_due : Bool → Bool → List SavedTransfer → Downloads → Downloads
first_due removes deletes [] d = d
first_due removes deletes (r ∷ rs) d = record d {
  store = clean_up r removes deletes d.store;
  timers = rs;
}

-- A file that the worker has written to a length; a finished transfer; a timer that is due; a page
-- load, which forgets the timers; a resumption with a fresh id; a retry, which may start over, with
-- whether the browser removes the file then; and a file that the user discards.
pub data Change : Type 0 where
  grown : ℕ → ℕ → Change
  finished : SavedTransfer → Bool → Bool → Change
  due : Bool → Bool → Change
  page_loaded : Change
  resumed : SavedTransfer → ℕ → Change
  retried : SavedTransfer → Bool → Bool → ℕ → Change
  discarded : SavedTransfer → Change

abbrev pub grow : ℕ → ℕ → TransferStore → TransferStore
grow k n s = record s { files = λ j. if j == k then some n else s.files j }

abbrev pub reload : TransferStore → TransferStore
reload s = record s { transfers = [] }

unfoldable pub change : Change → Downloads → Downloads
unfolding finish_transfer load_resumable resume_download retry_download discard_resumable
change (grown k n) d = record d { store = grow k n d.store }
change (finished r good closes) d = finish_transfer r good closes d
change (due removes deletes) d = first_due removes deletes d.timers d
change page_loaded d = record d { store = load_resumable (reload d.store); timers = [] }
change (resumed r k) d = record d { store = resume_download r k d.store }
change (retried r overwrite removes k) d = record d {
  store = retry_download r overwrite removes k d.store;
}
change (discarded r) d = record d { store = discard_resumable r d.store }

unfoldable pub change_all : List Change → Downloads → Downloads
unfolding change
change_all [] d = d
change_all (c ∷ cs) d = change_all cs (change c d)

-- The file was handed to the browser
abbrev pub has_handed : ℕ → List ℕ → Bool
has_handed k [] = false
has_handed k (j ∷ js) = k == j || has_handed k js
