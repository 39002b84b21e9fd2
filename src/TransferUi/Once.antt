-- ===== src/TransferUi/Once.antt =====
-- How often a transfer is finished, and how many loops poll.
use wosh.Prelude.{
  ltb, ltb→lt, ℕ, suc, ◌+◌, ◌≤◌, ◌==◌, ◌≡◌, refl, ap, Bool, ◌&&◌, not, List, [], ◌∷◌, ◌++◌, Option,
  none, some, if◌then◌else◌, arith, Bool-cases, inl, inr,
}
use wosh.TransferUi.Polling.{
  polled_panel, after_progress, noted, polling_from, TransferProgress, TransferEntry, Timer, null,
  ticking, timer, Panel, fresh, new_transfer, set_entry, delete_entry, give_handle, Polled, threw,
  gave, Turn, poll_entry, listed, poll, start_polling, reschedule, end_tick, Event, started, fired,
  ticked, shown, added, handled, deleted, step, run,
}

-- Calls of `finishTransfer` for a key
abbrev pub finishes : ℕ → List (ℕ × Bool) → ℕ
finishes k [] = 0
finishes k ((j, outcome) ∷ fs) = if k == j then suc (finishes k fs) else finishes k fs

-- Times that an entry was made for a key
abbrev pub additions : ℕ → List Event → ℕ
additions k [] = 0
additions k (added j active ∷ es) = if k == j then suc (additions k es) else additions k es
additions k (started ∷ es) = additions k es
additions k (fired ∷ es) = additions k es
additions k (ticked answers ∷ es) = additions k es
additions k (shown b ∷ es) = additions k es
additions k (handled j ∷ es) = additions k es
additions k (deleted j ∷ es) = additions k es

-- Entries of a key that are not settled.
abbrev unsettled : ℕ → TransferEntry → ℕ
unsettled k e = if k == e.key && not e.settled then 1 else 0

abbrev open_entries : ℕ → List TransferEntry → ℕ
open_entries k [] = 0
open_entries k (e ∷ es) = unsettled k e + open_entries k es

finishes-append :
    (k : ℕ) (fs gs : List (ℕ × Bool)) → finishes k (fs ++ gs) ≡ finishes k fs + finishes k gs
finishes-append k [] gs = omega arith
finishes-append k ((j, o) ∷ fs) gs = ground (arith, finishes-append k fs gs)

-- A turn of the loop finishes an entry only if it settles it.
abbrev Spends : ℕ → TransferEntry → Turn → Type 0
Spends k e t = finishes k (listed e.key t.finishes) + unsettled k t.entry ≤ unsettled k e

after_progress-Spends :
    (k : ℕ) (e : TransferEntry) (p : TransferProgress) (o : Option Bool)
    → Spends k e (after_progress (noted p e) o)
after_progress-Spends k e p none = omega arith
after_progress-Spends k e p (some o) = ground arith

poll_entry-Spends : (k : ℕ) (e : TransferEntry) (a : Polled) → Spends k e (poll_entry e a)
unfolding poll_entry
poll_entry-Spends k e threw = ground arith
poll_entry-Spends k e (gave p) = elim (Bool-cases (e.is_active && e.has_handle)) [
  | inl h ↦ rw h (after_progress-Spends k e p p.outcome)
  | inr h ↦ rw h (omega arith)
]

poll-spent :
    (k : ℕ) (answers : ℕ → Polled) (es : List TransferEntry)
    → finishes k (poll answers es).finishes + open_entries k (poll answers es).entries
      ≤ open_entries k es
unfolding poll
poll-spent k answers [] = omega arith
poll-spent k answers (e ∷ es) = omega (
  arith,
  finishes-append k (listed e.key (poll_entry e (answers e.key)).finishes)
      (poll answers es).finishes,
  poll_entry-Spends k e (answers e.key),
  poll-spent k answers es,
)

set_entry-open :
    (k j : ℕ) (active : Bool) (es : List TransferEntry)
    → open_entries k (set_entry (new_transfer j active) es)
      ≤ (if k == j then 1 else 0) + open_entries k es
unfolding set_entry
set_entry-open k j active [] = ground arith
set_entry-open k j active (e ∷ es) = ground (arith, set_entry-open k j active es)

delete_entry-open :
    (k j : ℕ) (es : List TransferEntry) → open_entries k (delete_entry j es) ≤ open_entries k es
unfolding delete_entry
delete_entry-open k j [] = omega arith
delete_entry-open k j (e ∷ es) = ground (arith, delete_entry-open k j es)

give_handle-open :
    (k j : ℕ) (es : List TransferEntry) → open_entries k (give_handle j es) ≡ open_entries k es
unfolding give_handle
give_handle-open k j [] = refl
give_handle-open k j (e ∷ es) = elim (Bool-cases (j == e.key)) [
  | inl h ↦ rw h refl
  | inr h ↦ rw h (ap (unsettled k e +◌) (give_handle-open k j es))
]

-- What a key has left of its additions.
abbrev spent : ℕ → Panel → ℕ
spent k s = finishes k s.finished + open_entries k s.transfers

end_tick-spent :
    (k : ℕ) (answers : ℕ → Polled) (s : Panel) → spent k (end_tick answers s) ≤ spent k s
unfolding end_tick reschedule
end_tick-spent k answers s = ground (
  arith,
  finishes-append k s.finished (poll answers s.transfers).finishes,
  poll-spent k answers s.transfers,
)

polling_from-spent : (k : ℕ) (t : Timer) (s : Panel) → spent k (polling_from t s) ≡ spent k s
polling_from-spent k null s = refl
polling_from-spent k ticking s = refl
polling_from-spent k (timer d) s = refl

step-spent : (k : ℕ) (s : Panel) (e : Event) → spent k (step s e) ≤ spent k s + additions k (e ∷ [])
unfolding step start_polling
step-spent k s started = omega (arith, polling_from-spent k s.poll_timer s)
step-spent k s fired = ground arith
step-spent k s (ticked answers) = elim (Bool-cases (ltb 0 s.ticks)) [
  | inl h ↦ rw h (omega (arith, end_tick-spent k answers s))
  | inr h ↦ rw h (omega arith)
]
step-spent k s (shown b) = omega arith
step-spent k s (added j active) = ground (arith, set_entry-open k j active s.transfers)
step-spent k s (handled j) = omega (arith, give_handle-open k j s.transfers)
step-spent k s (deleted j) = omega (arith, delete_entry-open k j s.transfers)

additions-first :
    (k : ℕ) (e : Event) (es : List Event)
    → additions k (e ∷ es) ≡ additions k (e ∷ []) + additions k es
additions-first k (added j active) es = ground arith
additions-first k started es = omega arith
additions-first k fired es = omega arith
additions-first k (ticked answers) es = omega arith
additions-first k (shown b) es = omega arith
additions-first k (handled j) es = omega arith
additions-first k (deleted j) es = omega arith

run-spent : (k : ℕ) (s : Panel) (es : List Event) → spent k (run s es) ≤ spent k s + additions k es
unfolding run
run-spent k s [] = omega arith
run-spent k s (e ∷ es) =
    omega (arith, run-spent k (step s e) es, step-spent k s e, additions-first k e es)

-- However often its outcome is seen, by however many polls, a transfer is finished at most once for
-- each time that an entry is made for it.
pub finishes-le-additions :
    (k : ℕ) (es : List Event) → finishes k (run fresh es).finished ≤ additions k es
finishes-le-additions k es = omega (arith, run-spent k fresh es)

-- The loops that poll, running or waiting for their timer
abbrev pub loops : Panel → ℕ
loops s = s.ticks + s.timers

abbrev pub wanted : Timer → ℕ
wanted null = 0
wanted ticking = 1
wanted (timer d) = 1

wanted_le : (t : Timer) → wanted t ≤ 1
wanted_le null = omega arith
wanted_le ticking = omega arith
wanted_le (timer d) = omega arith

-- There are as many loops as the timer variable says.
abbrev IsCounted : Panel → Type 0
IsCounted s = loops s ≡ wanted s.poll_timer

polling_from-IsCounted :
    (t : Timer) (s : Panel) → loops s ≡ wanted t → IsCounted s → IsCounted (polling_from t s)
polling_from-IsCounted null s h k = omega arith
polling_from-IsCounted ticking s h k = k
polling_from-IsCounted (timer d) s h k = k

reschedule-IsCounted :
    (any_active : Bool) (s : Panel) → loops s ≡ 0 → IsCounted (reschedule any_active s)
unfolding reschedule
reschedule-IsCounted any_active s h = elim (Bool-cases (not any_active && not s.visible)) [
  | inl e ↦ rw e h
  | inr e ↦ rw e (omega arith)
]

step-IsCounted : (s : Panel) (e : Event) → IsCounted s → IsCounted (step s e)
unfolding step start_polling end_tick
step-IsCounted s started h = polling_from-IsCounted s.poll_timer s h h
step-IsCounted s fired h = ground arith
step-IsCounted s (ticked answers) h = elim (Bool-cases (ltb 0 s.ticks)) [
  | inl e ↦ rw e (
      reschedule-IsCounted (poll answers s.transfers).any_active
        (polled_panel (poll answers s.transfers) s)
        (omega (arith, wanted_le s.poll_timer, ltb→lt 0 s.ticks e)))
  | inr e ↦ rw e h
]
step-IsCounted s (shown b) h = h
step-IsCounted s (added j active) h = h
step-IsCounted s (handled j) h = h
step-IsCounted s (deleted j) h = h

run-IsCounted : (s : Panel) (es : List Event) → IsCounted s → IsCounted (run s es)
unfolding run
run-IsCounted s [] h = h
run-IsCounted s (e ∷ es) h = run-IsCounted (step s e) es (step-IsCounted s e h)

-- At no time does more than one loop poll, whoever starts polling and whenever, and none does where
-- the variable of the timer is null.
pub loops-le_one :
    (es : List Event)
    → (loops (run fresh es) ≤ 1) × (loops (run fresh es) ≡ wanted (run fresh es).poll_timer)
loops-le_one es =
    let h : IsCounted (run fresh es) = run-IsCounted fresh es refl in
    (omega (arith, wanted_le (run fresh es).poll_timer), h)
