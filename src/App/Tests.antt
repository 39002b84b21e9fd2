-- ===== src/App/Tests.antt =====
-- The page of site/app.mjs at concrete events.
use wosh.Prelude.{
  ◌⊎◌, ◌≡◌, refl, true, false, List, [], ◌∷◌, ◌≤◌, ◌≢◌, ℕ, zero, suc, arith, none, some, All, inl,
  inr,
}
use wosh.App.Painter.{Chunk, initial}
use wosh.App.Painter.Order.{painted-run, all_chunks, painted, IsScheduled}
use wosh.App.Scrollback.Filing.{saves-run, IsFiled}
use wosh.App.Connect.{
  connecting, host_key_check, auth_prompts, batch_of, no_batch, ready, password, World, connected,
  connect, set_current, poll, ask_fingerprint, confirm_host_key, clear_current,
}
use wosh.App.Connect.HostKey.{in_order, in_order-connect}
use wosh.App.Connect.Success.{connect-connected_iff}
use wosh.App.Gate.{waiting, enter_patiently}
use wosh.App.Gate.Patience.{refusals, enter_patiently_ends}
use wosh.App.Gate.Queue.{
  queued, inside, settled, called, began_first, began, ended, Reached, start, also, IsInFile,
  inside_count, work, Progress, Reached-single_file,
}
use wosh.App.Input as I
use wosh.App.Input.Silence.{writes-run_of_fatal}
use wosh.App.Painter as P
use wosh.App.Scrollback as S

abbrev burst : List P.Event
burst =
    P.output (some (1 ∷ []))
    ∷ P.hidden
    ∷ P.frame
    ∷ P.output none
    ∷ P.output (some (2 ∷ 3 ∷ []))
    ∷ P.output (some [])
    ∷ P.output (some (4 ∷ []))
    ∷ []

painted-run_example :
    (all_chunks (P.run initial burst) ≡ painted burst)
    × IsScheduled (P.run initial burst)
    × ((P.step (P.run initial burst) P.timeout).written ≡ painted burst)
    × ((P.step (P.run initial burst) P.frame).written ≡ painted burst)
painted-run_example = painted-run burst

-- Two sessions on one page: the first is saved, and after the second has printed nothing is.
abbrev two_sessions : List S.Event
two_sessions =
    S.drained (some (104 ∷ [])) true
    ∷ S.saving (some (104 ∷ [])) (some 10)
    ∷ S.drained (some (105 ∷ [])) true
    ∷ S.saving (some (105 ∷ [])) (some 10)
    ∷ S.saving (some (104 ∷ [])) (some 10)
    ∷ []

one_save : (S.run S.fresh two_sessions).saves ≡ (104 ∷ [], some (104 ∷ []) ∷ []) ∷ []
unfolding S.run S.step
one_save = refl

saves-run_example : All IsFiled (S.run S.fresh two_sessions).saves
saves-run_example = saves-run two_sessions

-- A password that is asked for, and one batch of prompts.
abbrev asked : World
asked = record {
  dialed = true;
  prior = true;
  polls = (connecting, false) ∷ (host_key_check, false) ∷ [];
  fingerprint_read = true;
  confirmed = true;
  gate_passed = true;
  credential = password none;
  password_answers = some ((112 ∷ []) ∷ []);
  accepted = true;
  rounds =
      record {
        status = auth_prompts;
        batch = batch_of 1;
        answers = some ((50 ∷ []) ∷ []);
        taken = true;
      }
      ∷ record { status = ready; batch = no_batch; answers = none; taken = true }
      ∷ [];
}

in_order-connect_example : in_order true false false (connect asked).calls ≡ true
in_order-connect_example = in_order-connect asked

connect-connected_example : (connect asked).outcome ≡ connected
connect-connected_example =
    (connect-connected_iff asked).1
      (refl, (refl, tt), (refl, refl, refl), (tt, refl, inr (refl, inl refl)))

-- A key that is turned down: nothing follows the refusal.
refused :
    (connect (record asked { prior = false; confirmed = false })).calls
    ≡ set_current ∷ poll ∷ poll ∷ ask_fingerprint ∷ confirm_host_key false ∷ clear_current ∷ []
unfolding connect
refused = refl

-- The first call fails while a second one waits behind it; then the second has its turn.
abbrev handed_on : Reached (settled false ∷ inside ∷ queued ∷ [])
handed_on =
    also
      (also
        (also (also (also (also start called) began_first) called) (ended [] (queued ∷ []) false))
        (began [] [] false))
      called

Reached-single_file_example :
    IsInFile (settled false ∷ inside ∷ queued ∷ [])
    × (inside_count (settled false ∷ inside ∷ queued ∷ []) ≤ 1)
    × ((work (settled false ∷ inside ∷ queued ∷ []) ≡ 0)
        ⊎ Progress (settled false ∷ inside ∷ queued ∷ []))
Reached-single_file_example = Reached-single_file (settled false ∷ inside ∷ queued ∷ []) handed_on

abbrev zeros : ℕ → List ℕ
zeros zero = []
zeros (suc n) = 0 ∷ zeros n

-- An instance that is wedged
enter_patiently_ends_example : enter_patiently 100 (refusals (zeros 304)) ≢ waiting
enter_patiently_ends_example = enter_patiently_ends 100 (refusals (zeros 304)) (omega arith)

-- A password that was turned down, and a second attempt that succeeds: what is typed then is lost.
abbrev second_attempt : List I.Event
second_attempt = I.dialed 2 ∷ I.ready 2 ∷ I.typed (108 ∷ []) ∷ I.binary (371 ∷ []) ∷ []

abbrev first_attempt : I.Input
first_attempt = record {
  failure = false;
  current = some 1;
  wired = none;
  writes = [];
  resizes = [];
}

without_failure :
    (I.run first_attempt second_attempt).writes
    ≡ (2, I.encoded (108 ∷ [])) ∷ (2, I.bytes (115 ∷ [])) ∷ []
unfolding I.run
without_failure = refl

writes-run_of_fatal_example : (I.run first_attempt (I.fatal ∷ second_attempt)).writes ≡ []
writes-run_of_fatal_example = writes-run_of_fatal first_attempt second_attempt
