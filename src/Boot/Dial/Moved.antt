-- ===== src/Boot/Dial/Moved.antt =====
-- Every event of the page is one of those moves.
use wosh.Prelude.{
  ℕ, ◌+◌, ◌≤◌, ◌≡◌, refl, sym, subst, Bool, true, false, List, [], ◌∷◌, Option, none, some,
  Bool-cases, inl, inr, arith, Text, codes,
}
use wosh.Boot.Connstring.{Browser}
use wosh.Boot.HostKeys.{is_some}
use wosh.Boot.Dial.{
  Dial, Last, Page, Sheet, show_sheet, withdraw_sheet, idle_home, begin_dial, Outcome, settle_dial,
  settle_in_flight, dial_from_entry,
}
use wosh.Boot.Dial.Ended.{
  Close, lost, ended, other, session_ended, said, silent_dial, may_reconnect, auto_gap,
  auto_reconnect, command_session_ended, ended_for, ended_by, or_text,
}
use wosh.Boot.Dial.Steps.{
  Answer, answered_open, Event, tapped, counted_down, opened, answer, settled, ended_at, resumed,
  detected, step, closed_sheet, run_resolved,
}
use wosh.Boot.Dial.Moves.{
  Move, kept, freed, sent, is_some-false, begin_free, begin_dial-Move, idle_home-same,
  idle_home-Move, answered-Move, settled_for-freed,
}

settle_in_flight-Move :
    (w : Browser) (now : ℕ) (o : Option Dial) (outcome : Outcome) (page : Page)
    → Move w now page (settle_in_flight w o outcome page)
unfolding settle_in_flight
settle_in_flight-Move w now none outcome page = kept refl (omega arith)
settle_in_flight-Move w now (some d) outcome page =
    let (free, same) = settled_for-freed w d d.origin outcome page in freed free same

reconnect_busy :
    (w : Browser) (now : ℕ) (why : Text) (lc : Last) (page : Page)
    → may_reconnect w now lc page ≡ true
    → is_some page.dialing ≡ true
    → auto_reconnect w now why lc page ≡ idle_home why (record page { last_auto_at = now })
unfolding auto_reconnect
reconnect_busy w now why lc page may busy = rw (may, busy) refl

pub reconnect_free :
    (w : Browser) (now : ℕ) (why : Text) (lc : Last) (page : Page)
    → may_reconnect w now lc page ≡ true
    → is_some page.dialing ≡ false
    → auto_reconnect w now why lc page
      ≡ begin_dial (silent_dial why lc) (record page { last_auto_at = now })
unfolding auto_reconnect
reconnect_free w now why lc page may free = rw (may, free) refl

reconnect_off :
    (w : Browser) (now : ℕ) (why : Text) (lc : Last) (page : Page)
    → may_reconnect w now lc page ≡ false
    → auto_reconnect w now why lc page ≡ idle_home why page
unfolding auto_reconnect
reconnect_off w now why lc page off = rw off refl

auto_gap-positive : (c : Option Text) → 1 ≤ auto_gap c
unfolding auto_gap
auto_gap-positive none = omega arith
auto_gap-positive (some c) = omega arith

-- A silent dial keeps its distance from the one before.
pub may_reconnect-late :
    (w : Browser) (now : ℕ) (lc : Last) (page : Page)
    → may_reconnect w now lc page ≡ true
    → page.last_auto_at + auto_gap lc.command ≤ now
unfolding may_reconnect
may_reconnect-late w now lc page may = ground (arith, auto_gap-positive lc.command)

auto_reconnect-Move :
    (w : Browser) (now : ℕ) (why : Text) (lc : Last) (page : Page)
    → page.last ≡ some lc
    → Move w now page (auto_reconnect w now why lc page)
auto_reconnect-Move w now why lc page known = elim (Bool-cases (may_reconnect w now lc page)) [
  | inl may ↦ elim (Bool-cases (is_some page.dialing)) [
    | inl busy ↦
        let late = may_reconnect-late w now lc page may in
        subst (Move w now page) (sym (reconnect_busy w now why lc page may busy)) (
          idle_home-Move w now why page (record page { last_auto_at = now }) refl
            (omega (arith, late)))
    | inr free ↦
        let (d, t) = begin_free (silent_dial why lc) (record page { last_auto_at = now }) free in
        subst (Move w now page) (sym (reconnect_free w now why lc page may free))
          (sent why lc known (is_some-false page.dialing free) d t may)
  ]
  | inr off ↦
      subst (Move w now page) (sym (reconnect_off w now why lc page off))
        (idle_home-Move w now why page page refl (omega arith))
]

ended_for-Move :
    (w : Browser) (now : ℕ) (why : Option Text) (code : Option ℕ) (uptime : ℕ) (lc : Last)
    (o : Option Text) (page : Page)
    → Move w now page (ended_for w why code uptime lc o page)
unfolding command_session_ended show_sheet withdraw_sheet
ended_for-Move w now why code uptime lc none page =
    idle_home-Move w now (said why) page page refl (omega arith)
ended_for-Move w now why code uptime lc (some command) page =
    let (d, t) = idle_home-same (or_text why (codes "session ended")) page in
    kept d (omega (arith, t))

ended_by-Move :
    (w : Browser) (now : ℕ) (kind : Close) (why : Option Text) (code : Option ℕ) (uptime : ℕ)
    (o : Option Last) (page : Page)
    → page.last ≡ o
    → Move w now page (ended_by w now kind why code uptime o page)
unfolding ended_by
ended_by-Move w now lost why code uptime none page known =
    idle_home-Move w now (said why) page page refl (omega arith)
ended_by-Move w now lost why code uptime (some lc) page known =
    auto_reconnect-Move w now (said why) lc page known
ended_by-Move w now ended why code uptime none page known =
    idle_home-Move w now (said why) page page refl (omega arith)
ended_by-Move w now ended why code uptime (some lc) page known =
    ended_for-Move w now why code uptime lc lc.command page
ended_by-Move w now other why code uptime o page known =
    idle_home-Move w now (said why) page page refl (omega arith)

answered_open-Move :
    (w : Browser) (now : ℕ) (accepted : Bool) (o : Option Sheet) (a : Answer) (page : Page)
    → Move w now page (answered_open w accepted o a (closed_sheet page))
unfolding answered_open
answered_open-Move w now accepted none a page = kept refl (omega arith)
answered_open-Move w now accepted (some s) a page =
    answered-Move w now accepted s a page (closed_sheet page) refl refl

run_resolved-Move :
    (w : Browser) (now : ℕ) (es : List Text) (page : Page) → Move w now page (run_resolved es page)
run_resolved-Move w now [] page = kept refl (omega arith)
run_resolved-Move w now (error ∷ es) page =
    idle_home-Move w now error page (record page { resolved = es }) refl (omega arith)

-- The time that an event comes with
abbrev pub time_of : Event → ℕ
time_of (tapped entry cmd) = 0
time_of (counted_down entry) = 0
time_of (opened connstring) = 0
time_of (answer accepted a) = 0
time_of (settled outcome) = 0
time_of (ended_at now kind why code uptime) = now
time_of resumed = 0
time_of (detected accepted now i user text) = now

-- Every event is such a move.
pub step-Move : (w : Browser) (page : Page) (e : Event) → Move w (time_of e) page (step w page e)
unfolding step show_sheet withdraw_sheet session_ended settle_dial dial_from_entry
step-Move w page (tapped entry cmd) =
    begin_dial-Move w _ (dial_from_entry w entry cmd) page page refl refl refl
step-Move w page (counted_down entry) =
    begin_dial-Move w _ (dial_from_entry w entry none) page page refl refl refl
step-Move w page (opened connstring) = kept refl (omega arith)
step-Move w page (answer accepted a) = answered_open-Move w _ accepted page.sheet a page
step-Move w page (settled outcome) = settle_in_flight-Move w _ page.dialing outcome page
step-Move w page (ended_at now kind why code uptime) =
    ended_by-Move w now kind why code uptime page.last page refl
step-Move w page resumed = run_resolved-Move w _ page.resolved page
step-Move w page (detected accepted now i user text) = kept refl (omega arith)
