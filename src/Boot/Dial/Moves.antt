-- ===== src/Boot/Dial/Moves.antt =====
-- What an event can do to the dial in flight and to the time of the last silent one.
use wosh.Prelude.{
  ℕ, ◌≤◌, ◌≡◌, refl, sym, ◌∙◌, subst, Bool, true, false, Option, none, some, Bool-cases, inl, inr,
  arith, Text, includes,
}
use wosh.Boot.Connstring.{Browser}
use wosh.Boot.HostKeys.{is_some}
use wosh.Boot.Dial.{
  Origin, card, form, repair, offer, silent, Dial, Last, Page, Sheet, connect_sheet, repair_sheet,
  trouble_sheet, ended_sheet, show_sheet, withdraw_sheet, idle_home, begin_dial, Outcome, session,
  rejected, failed, with_session, with_error, released, retried, refuse_pairing, settled_for,
}
use wosh.Boot.Dial.Ended.{silent_dial, may_reconnect}
use wosh.Boot.Dial.Steps.{Answer, filled, linked, swap, once, always, reattach, dismiss, answered}

abbrev pub is_silent : Origin → Bool
is_silent card = false
is_silent form = false
is_silent repair = false
is_silent offer = false
is_silent (silent why) = true

-- The dial in flight stays, ends, or is begun, by the user or silently.
pub data Move (w : Browser) (now : ℕ) (before after : Page) : Type 0 where
  kept :
      after.dialing ≡ before.dialing
      → before.last_auto_at ≤ after.last_auto_at
      → Move w now before after
  freed : after.dialing ≡ none → after.last_auto_at ≡ before.last_auto_at → Move w now before after
  begun :
      (d : Dial)
      → is_silent d.origin ≡ false
      → after.dialing ≡ some d
      → after.last_auto_at ≡ before.last_auto_at
      → Move w now before after
  sent :
      (why : Text) (lc : Last)
      → before.last ≡ some lc
      → before.dialing ≡ none
      → after.dialing ≡ some (silent_dial why lc)
      → after.last_auto_at ≡ now
      → may_reconnect w now lc before ≡ true
      → Move w now before after

pub is_some-false : (o : Option Dial) → is_some o ≡ false → o ≡ none
is_some-false none h = refl
is_some-false (some d) h = absurd (cc)

begin_busy : (d : Dial) (page : Page) → is_some page.dialing ≡ true → begin_dial d page ≡ page
unfolding begin_dial
begin_busy d page e = rw e refl

pub begin_free :
    (d : Dial) (page : Page)
    → is_some page.dialing ≡ false
    → ((begin_dial d page).dialing ≡ some d)
      × ((begin_dial d page).last_auto_at ≡ page.last_auto_at)
unfolding begin_dial withdraw_sheet
begin_free d page e = rw e (refl, refl)

pub begin_dial-Move :
    (w : Browser) (now : ℕ) (d : Dial) (before page : Page)
    → page.dialing ≡ before.dialing
    → page.last_auto_at ≡ before.last_auto_at
    → is_silent d.origin ≡ false
    → Move w now before (begin_dial d page)
begin_dial-Move w now d before page same time mine = elim (Bool-cases (is_some page.dialing)) [
  | inl e ↦ subst (Move w now before) (sym (begin_busy d page e)) (kept same (omega (arith, time)))
  | inr e ↦ let (now, at) = begin_free d page e in begun d mine now (at ∙ time)
]

pub idle_home-same :
    (msg : Text) (page : Page)
    → ((idle_home msg page).dialing ≡ page.dialing)
      × ((idle_home msg page).last_auto_at ≡ page.last_auto_at)
unfolding idle_home withdraw_sheet
idle_home-same msg page = elim (Bool-cases (is_some page.dialing)) [
  | inl e ↦ rw e (refl, refl)
  | inr e ↦ rw e (refl, refl)
]

pub idle_home-Move :
    (w : Browser) (now : ℕ) (msg : Text) (before page : Page)
    → page.dialing ≡ before.dialing
    → before.last_auto_at ≤ page.last_auto_at
    → Move w now before (idle_home msg page)
idle_home-Move w now msg before page same time =
    let (d, t) = idle_home-same msg page in kept (d ∙ same) (omega (arith, t, time))

pub answered-Move :
    (w : Browser) (now : ℕ) (accepted : Bool) (s : Sheet) (a : Answer) (before page : Page)
    → page.dialing ≡ before.dialing
    → page.last_auto_at ≡ before.last_auto_at
    → Move w now before (answered w accepted s a page)
unfolding answered
answered-Move w now accepted (connect_sheet c p e) (filled user method cmd) before page same time =
    begin_dial-Move w now _ before page same time refl
answered-Move w now accepted (repair_sheet d e) (linked c) before page same time =
    begin_dial-Move w now _ before page same time refl
answered-Move w now accepted (repair_sheet d e) dismiss before page same time =
    idle_home-Move w now e before page same (omega (arith, time))
answered-Move w now accepted (trouble_sheet t l lc cmd) (swap p) before page same time =
    begin_dial-Move w now _ before page same time refl
answered-Move w now accepted (trouble_sheet t l lc cmd) once before page same time =
    begin_dial-Move w now _ before page same time refl
answered-Move w now accepted (trouble_sheet t l lc cmd) always before page same time =
    begin_dial-Move w now _ before (record page { history = _ }) same time refl
answered-Move w now accepted (ended_sheet lc cmd) reattach before page same time =
    begin_dial-Move w now _ before page same time refl
answered-Move w now accepted s a before page same time = kept same (omega (arith, time))

retried-freed :
    (d : Dial) (origin : Origin) (msg : Text) (done : Bool) (page : Page)
    → ((retried d origin msg (done, released page)).dialing ≡ none)
      × ((retried d origin msg (done, released page)).last_auto_at ≡ page.last_auto_at)
unfolding retried show_sheet withdraw_sheet
retried-freed d origin msg true page = (refl, refl)
retried-freed d (silent why) msg false page = (refl, refl)
retried-freed d offer msg false page = (refl, refl)
retried-freed d card msg false page = (refl, refl)
retried-freed d form msg false page = (refl, refl)
retried-freed d repair msg false page = (refl, refl)

with_error-same :
    (d : Dial) (msg : Text) (page : Page)
    → (with_error d msg page).1.last_auto_at ≡ page.last_auto_at
unfolding with_error show_sheet withdraw_sheet
with_error-same d msg page = elim (Bool-cases (includes refuse_pairing msg)) [
  | inl e ↦ rw e refl
  | inr e ↦ rw e (idle_home-same msg page).1
]

failed-freed :
    (d : Dial) (origin : Origin) (msg : Text) (page : Page)
    → ((retried d origin msg
          ((with_error d msg page).0, released (with_error d msg page).1)).dialing
        ≡ none)
      × ((retried d origin msg
            ((with_error d msg page).0, released (with_error d msg page).1)).last_auto_at
          ≡ page.last_auto_at)
failed-freed d origin msg page =
    let (free, same) =
      retried-freed d origin msg (with_error d msg page).0 (with_error d msg page).1 in
    (free, same ∙ with_error-same d msg page)

-- A settled dial is over.
pub settled_for-freed :
    (w : Browser) (d : Dial) (origin : Origin) (outcome : Outcome) (page : Page)
    → ((settled_for w d origin outcome page).dialing ≡ none)
      × ((settled_for w d origin outcome page).last_auto_at ≡ page.last_auto_at)
unfolding settled_for
settled_for-freed w d origin (session accepted now) page = unfold with_session in (refl, refl)
settled_for-freed w d (silent why) (rejected status) page = idle_home-same why (released page)
settled_for-freed w d (silent why) (failed msg) page = idle_home-same why (released page)
settled_for-freed w d card (rejected status) page = (refl, (idle_home-same status page).1)
settled_for-freed w d form (rejected status) page = (refl, (idle_home-same status page).1)
settled_for-freed w d repair (rejected status) page = (refl, (idle_home-same status page).1)
settled_for-freed w d offer (rejected status) page = (refl, (idle_home-same status page).1)
settled_for-freed w d card (failed msg) page = failed-freed d card msg page
settled_for-freed w d form (failed msg) page = failed-freed d form msg page
settled_for-freed w d repair (failed msg) page = failed-freed d repair msg page
settled_for-freed w d offer (failed msg) page = failed-freed d offer msg page
