-- ===== src/TransferUi/Polling.antt =====
-- The loop of the transfer panel that asks each running transfer how far it is.
use wosh.Prelude.{
  ℕ, ◌+◌, ◌-◌, ◌==◌, Bool, true, false, ◌&&◌, ◌||◌, not, List, [], ◌∷◌, ◌++◌, Option, none, some,
  if◌then◌else◌, ltb,
}

-- What `progress` gives: the bytes done, and whether a finished transfer succeeded.
pub record TransferProgress : Type 0 where
  pub bytes_done : ℕ
  pub outcome : Option Bool

-- An entry of the map `transfers`, by its key. The flags say whether its kind is active and whether it
-- has a handle.
pub record TransferEntry : Type 0 where
  pub key : ℕ
  pub is_active : Bool
  pub has_handle : Bool
  pub last_progress : Option TransferProgress
  pub ever_seen_bytes : Bool
  pub settled : Bool

-- `pollTimer`: null, true, or the handle of a timer with its delay.
pub data Timer : Type 0 where
  null ticking : Timer
  timer : ℕ → Timer

-- The ticks that are running, the timers that are set for one and the calls of `finishTransfer`
-- are counted here.
pub record Panel : Type 0 where
  pub transfers : List TransferEntry
  pub poll_timer : Timer
  pub visible : Bool
  pub ticks : ℕ
  pub timers : ℕ
  pub finished : List (ℕ × Bool)

abbrev pub fresh : Panel
fresh = record {
  transfers = [];
  poll_timer = null;
  visible = false;
  ticks = 0;
  timers = 0;
  finished = [];
}

abbrev pub new_transfer : ℕ → Bool → TransferEntry
new_transfer k active = record {
  key = k;
  is_active = active;
  has_handle = false;
  last_progress = none;
  ever_seen_bytes = false;
  settled = false;
}

-- `Map.set` and `Map.delete`
unfoldable pub set_entry : TransferEntry → List TransferEntry → List TransferEntry
set_entry e [] = e ∷ []
set_entry e (f ∷ fs) = let rest = set_entry e fs in if e.key == f.key then e ∷ fs else f ∷ rest

unfoldable pub delete_entry : ℕ → List TransferEntry → List TransferEntry
delete_entry k [] = []
delete_entry k (f ∷ fs) = let rest = delete_entry k fs in if k == f.key then fs else f ∷ rest

-- `entry.handle = handle`
unfoldable pub give_handle : ℕ → List TransferEntry → List TransferEntry
give_handle k [] = []
give_handle k (f ∷ fs) =
    let rest = give_handle k fs in
    if k == f.key then record f { has_handle = true } ∷ fs else f ∷ rest

-- What a `progress` that is asked for an entry answers: it throws or gives one.
pub data Polled : Type 0 where
  threw : Polled
  gave : TransferProgress → Polled

-- What one turn of the loop of `tick` makes of an entry.
pub record Turn : Type 0 where
  pub entry : TransferEntry
  pub finishes : Option Bool
  pub any_active : Bool

abbrev pub turn : TransferEntry → Option Bool → Bool → Turn
turn e f a = record { entry = e; finishes = f; any_active = a }

abbrev pub noted : TransferProgress → TransferEntry → TransferEntry
noted p e = record e {
  last_progress = some p;
  ever_seen_bytes = e.ever_seen_bytes || ltb 0 p.bytes_done;
}

abbrev pub settle_entry : TransferEntry → Bool → Turn
settle_entry e outcome =
    if e.settled then turn e none false else turn (record e { settled = true }) (some outcome) false

abbrev pub after_progress : TransferEntry → Option Bool → Turn
after_progress e (some outcome) = settle_entry e outcome
after_progress e none = turn e none true

abbrev pub polled_entry : TransferEntry → Polled → Turn
polled_entry e threw = turn e none false
polled_entry e (gave p) = after_progress (noted p e) p.outcome

unfoldable pub poll_entry : TransferEntry → Polled → Turn
poll_entry e a = if e.is_active && e.has_handle then polled_entry e a else turn e none false

-- The loop of `tick`
pub record Polling : Type 0 where
  pub entries : List TransferEntry
  pub finishes : List (ℕ × Bool)
  pub any_active : Bool

abbrev pub listed : ℕ → Option Bool → List (ℕ × Bool)
listed k none = []
listed k (some outcome) = (k, outcome) ∷ []

unfoldable pub poll : (ℕ → Polled) → List TransferEntry → Polling
unfolding poll_entry
poll answers [] = record { entries = []; finishes = []; any_active = false }
poll answers (e ∷ es) =
    let t = poll_entry e (answers e.key) in
    let rest = poll answers es in
    record {
      entries = t.entry ∷ rest.entries;
      finishes = listed e.key t.finishes ++ rest.finishes;
      any_active = t.any_active || rest.any_active;
    }

-- `startPolling`, which runs the first tick at once
abbrev pub polling_from : Timer → Panel → Panel
polling_from null s = record s { poll_timer = ticking; ticks = s.ticks + 1 }
polling_from ticking s = s
polling_from (timer d) s = s

unfoldable pub start_polling : Panel → Panel
start_polling s = polling_from s.poll_timer s

-- What `tick` ends with
unfoldable pub reschedule : Bool → Panel → Panel
reschedule any_active s =
    if not any_active && not s.visible
    then record s { poll_timer = null }
    else record s { poll_timer = timer (if s.visible then 250 else 2000); timers = s.timers + 1 }

abbrev pub polled_panel : Polling → Panel → Panel
polled_panel p s = record s {
  transfers = p.entries;
  finished = s.finished ++ p.finishes;
  ticks = s.ticks - 1;
}

-- `tick`, once it has its answers
unfoldable pub end_tick : (ℕ → Polled) → Panel → Panel
unfolding poll reschedule
end_tick answers s = let p = poll answers s.transfers in reschedule p.any_active (polled_panel p s)

-- A call of `startPolling`; a running tick that has its answers; a timer that is due; the dropdown
-- opened or closed; and an entry that is set, given its handle or deleted.
pub data Event : Type 0 where
  started fired : Event
  ticked : (ℕ → Polled) → Event
  shown : Bool → Event
  added : ℕ → Bool → Event
  handled deleted : ℕ → Event

unfoldable pub step : Panel → Event → Panel
unfolding start_polling end_tick set_entry give_handle delete_entry
step s started = start_polling s
step s fired = if ltb 0 s.timers then record s { timers = s.timers - 1; ticks = s.ticks + 1 } else s
step s (ticked answers) = if ltb 0 s.ticks then end_tick answers s else s
step s (shown b) = record s { visible = b }
step s (added k active) = record s { transfers = set_entry (new_transfer k active) s.transfers }
step s (handled k) = record s { transfers = give_handle k s.transfers }
step s (deleted k) = record s { transfers = delete_entry k s.transfers }

unfoldable pub run : Panel → List Event → Panel
unfolding step
run s [] = s
run s (e ∷ es) = run (step s e) es
