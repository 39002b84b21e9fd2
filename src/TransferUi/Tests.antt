-- ===== src/TransferUi/Tests.antt =====
-- Paths of the transfer panel.
use wosh.Prelude.{
  ◌⊎◌, ◌==◌, none, if◌then◌else◌, ℕ, ◌≤◌, true, List, [], ◌∷◌, some, ◌≡◌, refl, codes,
}
use wosh.TransferUi.Polling.{
  Polled, gave, Event, started, fired, ticked, shown, added, handled, fresh, run,
}
use wosh.TransferUi.Resumable.{SavedTransfer, TransferStore, load_resumable, resume_download}
use wosh.TransferUi.Handoff.{Change, grown, finished, due, start, change, change_all}
use wosh.TransferUi.Careful.{IsThere, IsExcused, change_all_careful}
use wosh.TransferUi.Once.{finishes, additions, loops, wanted, finishes-le-additions, loops-le_one}
use wosh.TransferUi.{predict_saved_name}

hidden_name : predict_saved_name (codes "..gitconfig") ≡ codes "gitconfig"
unfolding predict_saved_name
hidden_name = refl

all_dots : predict_saved_name (codes "...") ≡ codes "..."
unfolding predict_saved_name
all_dots = refl

-- A download that is seen finished by two polls, with polling started three times.
abbrev succeeded : ℕ → Polled
succeeded k = gave (record { bytes_done = 9; outcome = some true })

abbrev polls : List Event
polls =
    started
    ∷ added 4 true
    ∷ started
    ∷ handled 4
    ∷ shown true
    ∷ ticked succeeded
    ∷ started
    ∷ fired
    ∷ ticked succeeded
    ∷ []

finished_once : (run fresh polls).finished ≡ (4, true) ∷ []
unfolding run
finished_once = refl

finishes-le-additions_example : finishes 4 (run fresh polls).finished ≤ additions 4 polls
finishes-le-additions_example = finishes-le-additions 4 polls

loops-le_one_example :
    (loops (run fresh polls) ≤ 1) × (loops (run fresh polls) ≡ wanted (run fresh polls).poll_timer)
loops-le_one_example = loops-le_one polls

abbrev part : SavedTransfer
part = record { id = 1; is_download = true; total = some 10; staging_id = 7 }

abbrev interrupted : TransferStore
interrupted = record {
  records = part ∷ [];
  files = λ k. if k == 7 then some 4 else none;
  transfers = (1, some 4) ∷ [];
}

-- After a resumption the page keeps two records of one file, and its next load offers both.
abbrev reloaded : TransferStore → TransferStore
reloaded s = record s { transfers = [] }

offered_twice :
    (load_resumable (reloaded (resume_download part 2 interrupted))).transfers
    ≡ (1, some 4) ∷ (2, some 4) ∷ []
unfolding load_resumable resume_download
offered_twice = refl

abbrev done_and_handed : List Change
done_and_handed = grown 7 10 ∷ finished part true true ∷ []

still_there : (change_all done_and_handed (start interrupted)).store.files 7 ≡ some 10
unfolding change_all
still_there = refl

change_all_careful_example :
    IsThere 7 (change (due true true) (change_all done_and_handed (start interrupted))).store
    ⊎ IsExcused 7 10 (due true true) (change_all done_and_handed (start interrupted))
change_all_careful_example =
    change_all_careful 7 10 (due true true) done_and_handed interrupted still_there
