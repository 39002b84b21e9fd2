-- ===== src/App/Pump.antt =====
-- The pump of `connect` in site/app.mjs: the loop that drains a session's output, as a function from
-- what each round meets to the calls that it makes.
pub mod Rounds
pub mod Outcomes
pub mod Order
mod Tests
use wosh.Prelude.{
  ℕ, ◌+◌, ◌-◌, ◌%◌, ◌==◌, Bool, true, false, ◌&&◌, ◌||◌, not, List, [], ◌∷◌, ◌++◌, Option, none,
  some, if◌then◌else◌, leb, is_nil, Text, codes, text_eq,
}

-- What a call of the session comes to.
pub data Result (A : Type 0) : Type 0 where
  answered : A → Result A
  threw : Text → Result A

-- A round: whether the session is current at its top; what `drainOutput`, `exited` and `exitStatus`
-- answer, the code with its digits; whether the session is current at the save, whether another pump
-- has painted since, and the time there; what `linkState` answers, where it is a function; and the
-- time of an exit.
pub record Round : Type 0 where
  pub current : Bool
  pub drained : Result (Option Text)
  pub exited : Result Bool
  pub status : Result (Option (ℕ × Text))
  pub still_current : Bool
  pub dirtied : Bool
  pub now : ℕ
  pub link : Option (Result (Option Text))

-- The pump's variables with `dirtySincePersist`.
pub record Pump : Type 0 where
  pub last_persist_at : ℕ
  pub dirty : Bool
  pub link_poll_tick : ℕ
  pub last_link : Option Text

-- The calls that a round makes. `ended` is `sessionEnded` with its reason, the exit code and the
-- uptime.
pub data Call : Type 0 where
  claimed : Option Text → Call
  painted : Option Text → Call
  saved : Text → ℕ → Call
  status_set link_event : Text → Call
  ended : Text → Option ℕ → Option ℕ → Call

abbrev pub given : Option Text → Bool
given none = false
given (some t) = not (is_nil t)

abbrev pub prepend : List Call → List Call × Option Pump → List Call × Option Pump
prepend cs (ds, p) = (cs ++ ds, p)

abbrev stop : Text → Option ℕ → Option ℕ → List Call × Option Pump
stop why code uptime = (ended why code uptime ∷ [], none)

abbrev pump_failed : Text → Text
pump_failed msg = codes "pump: " ++ msg

-- What the status line says of a link state
abbrev pub link_status : Text → Text → List Call
link_status user ls =
    if text_eq ls (codes "reconnecting") || text_eq ls (codes "stalled")
    then status_set (codes "reconnecting…") ∷ []
    else if text_eq ls (codes "attached")
    then status_set (codes "connected as " ++ user) ∷ []
    else []

abbrev pub same_link : Option Text → Text → Bool
same_link none ls = false
same_link (some l) ls = text_eq l ls

-- An answer of `linkState` on a round that polls
unfoldable pub polled : Text → Result (Option Text) → Pump → List Call × Option Pump
unfolding text_eq
polled user (threw msg) p = ([], some p)
polled user (answered none) p = ([], some p)
polled user (answered (some ls)) p =
    if is_nil ls || same_link p.last_link ls
    then ([], some p)
    else (link_status user ls ++ link_event ls ∷ [], some (record p { last_link = some ls }))

-- `++linkPollTick % 32 === 0`
unfoldable pub poll_link : Text → Option (Result (Option Text)) → Pump → List Call × Option Pump
unfolding polled
poll_link user none p = ([], some p)
poll_link user (some reply) p =
    let ticked : Pump = record p { link_poll_tick = p.link_poll_tick + 1 } in
    if ticked.link_poll_tick % 32 == 0 then polled user reply ticked else ([], some ticked)

-- Whether the periodic save is made
unfoldable pub is_due : Option Text → Round → Pump → Bool
is_due key r p =
    given key && (r.still_current && (p.dirty && leb 10000 (r.now - p.last_persist_at)))

abbrev pub saved_for : Option Text → ℕ → List Call
saved_for none now = []
saved_for (some k) now = saved k now ∷ []

unfoldable pub after_save : Option Text → Text → Round → Pump → List Call × Option Pump
unfolding is_due poll_link
after_save key user r p =
    if is_due key r p
    then prepend (saved_for key r.now)
        (poll_link user r.link (record p { last_persist_at = r.now; dirty = false }))
    else poll_link user r.link p

-- After `exitStatus`
unfoldable pub after_exit : ℕ → ℕ → Result (Option (ℕ × Text)) → List Call × Option Pump
after_exit ready_at now (threw msg) = stop (pump_failed msg) none none
after_exit ready_at now (answered none) = stop (codes "session ended") none (some (now - ready_at))
after_exit ready_at now (answered (some (code, digits))) =
    stop (codes "exited (" ++ (digits ++ codes ")")) (some code) (some (now - ready_at))

unfoldable pub after_exited :
    Option Text → Text → ℕ → Round → Result Bool → Pump → List Call × Option Pump
unfolding after_exit after_save
after_exited key user ready_at r (threw msg) p = stop (pump_failed msg) none none
after_exited key user ready_at r (answered true) p = after_exit ready_at r.now r.status
after_exited key user ready_at r (answered false) p =
    after_save key user r (record p { dirty = p.dirty || r.dirtied })

abbrev pub claim_first : Option Text → Option Text → List Call
claim_first key out = if given out then claimed key ∷ [] else []

unfoldable pub after_drain :
    Option Text → Text → ℕ → Round → Result (Option Text) → Pump → List Call × Option Pump
unfolding after_exited
after_drain key user ready_at r (threw msg) p = stop (pump_failed msg) none none
after_drain key user ready_at r (answered out) p =
    prepend (claim_first key out ++ painted out ∷ [])
      (after_exited key user ready_at r r.exited (record p { dirty = p.dirty || given out }))

-- One round: its calls, and the pump that goes on.
unfoldable pub round : Option Text → Text → ℕ → Round → Pump → List Call × Option Pump
unfolding after_drain
round key user ready_at r p =
    if r.current then after_drain key user ready_at r r.drained p else ([], none)

unfoldable pub pump : Option Text → Text → ℕ → Pump → List Round → List Call
unfolding round
pump key user ready_at p [] = []
pump key user ready_at p (r ∷ rs) =
    let done = round key user ready_at r p in
    done.0 ++ elim done.1 [ none ↦ [] | some q ↦ pump key user ready_at q rs ]

-- The pump of a session that has just become ready.
abbrev pub started : ℕ → Bool → Pump
started ready_at dirty = record {
  last_persist_at = ready_at;
  dirty = dirty;
  link_poll_tick = 0;
  last_link = none;
}
