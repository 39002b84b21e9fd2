-- ===== src/Boot/Dial/Reports.antt =====
-- How dials come out: what is on the screen after each outcome.
use wosh.Prelude.{
  ◌≡◌, refl, subst, true, false, Option, none, some, Bool-cases, inl, inr, ◌⊎◌, Text, includes,
}
use wosh.Boot.Connstring.{Browser}
use wosh.Boot.HostKeys.{is_some}
use wosh.Boot.Dial.{
  Origin, card, form, repair, offer, silent, Dial, Page, connect_sheet, repair_sheet, show_sheet,
  withdraw_sheet, idle_home, Outcome, session, rejected, failed, refuse_pairing, with_session,
  with_error, released, retried, settled_for, settle_in_flight, settle_dial,
}
use wosh.Boot.Dial.Moves.{is_silent}
use wosh.Boot.Dial.Silence.{same_some}

-- The home screen with a line that says why.
abbrev pub IsHome : Text → Page → Type 0
IsHome why page = (page.chrome ≡ true) × ((page.notice ≡ why) × (page.live ≡ none))

-- What the screen shows after a failure with some message: where it names the refusal that a re-pair
-- can mend, the re-pair sheet; and where it does not, the home screen.
abbrev pub IsMended : Dial → Text → Page → Type 0
IsMended d msg page =
    (includes refuse_pairing msg ≡ true) × (page.sheet ≡ some (repair_sheet d msg))

abbrev pub IsUnmended : Text → Page → Type 0
IsUnmended msg page = (includes refuse_pairing msg ≡ false) × IsHome msg page

-- The user was dialing: the connect sheet stands on the home screen.
abbrev pub IsAskedAgain : Dial → Text → Page → Type 0
IsAskedAgain d msg page =
    IsUnmended msg page × (page.sheet ≡ some (connect_sheet d.connstring (some d) (some msg)))

abbrev pub IsTold : Dial → Origin → Text → Page → Type 0
IsTold d (silent why) msg page = IsHome why page
IsTold d offer msg page = IsMended d msg page ⊎ IsUnmended msg page
IsTold d card msg page = IsMended d msg page ⊎ IsAskedAgain d msg page
IsTold d form msg page = IsMended d msg page ⊎ IsAskedAgain d msg page
IsTold d repair msg page = IsMended d msg page ⊎ IsAskedAgain d msg page

abbrev pub status_or_why : Origin → Text → Text
status_or_why card status = status
status_or_why form status = status
status_or_why repair status = status
status_or_why offer status = status
status_or_why (silent why) status = why

-- By the outcome. In every case the page can dial again.
abbrev pub IsReported : Dial → Origin → Outcome → Page → Type 0
IsReported d origin (session accepted now) page =
    (page.dialing ≡ none) × ((page.chrome ≡ false) × (is_some page.live ≡ true))
IsReported d origin (rejected status) page =
    (page.dialing ≡ none) × IsHome (status_or_why origin status) page
IsReported d origin (failed msg) page = (page.dialing ≡ none) × IsTold d origin msg page

idle_home-IsHome : (msg : Text) (page : Page) → IsHome msg (idle_home msg page)
unfolding idle_home
idle_home-IsHome msg page = (refl, (refl, refl))

-- The page after `with_error`, by whether the message has the code.
told :
    (d : Dial) (origin : Origin) (msg : Text) (page : Page)
    → is_silent origin ≡ false
    → let after =
        retried d origin msg ((with_error d msg page).0, released (with_error d msg page).1) in
      (after.dialing ≡ none) × IsTold d origin msg after
unfolding with_error
told d origin msg page mine = elim (Bool-cases (includes refuse_pairing msg)) [
  | inl e ↦ rw e (mended origin mine e)
  | inr e ↦ rw e (unmended origin mine e)
]
  where
    mended :
        (o : Origin)
        → is_silent o ≡ false
        → includes refuse_pairing msg ≡ true
        → let after = retried d o msg (true, released (show_sheet (repair_sheet d msg) page)) in
          (after.dialing ≡ none) × IsTold d o msg after
    mended (silent why) h e = absurd (cc)
    mended offer h e = unfold retried show_sheet withdraw_sheet in (refl, inl (e, refl))
    mended card h e = unfold retried show_sheet withdraw_sheet in (refl, inl (e, refl))
    mended form h e = unfold retried show_sheet withdraw_sheet in (refl, inl (e, refl))
    mended repair h e = unfold retried show_sheet withdraw_sheet in (refl, inl (e, refl))

    unmended :
        (o : Origin)
        → is_silent o ≡ false
        → includes refuse_pairing msg ≡ false
        → let after = retried d o msg (false, released (idle_home msg page)) in
          (after.dialing ≡ none) × IsTold d o msg after
    unmended (silent why) h e = absurd (cc)
    unmended offer h e = unfold retried in (refl, inr (e, idle_home-IsHome msg page))
    unmended card h e =
        unfold retried show_sheet withdraw_sheet in
        (refl, inr ((e, idle_home-IsHome msg page), refl))
    unmended form h e =
        unfold retried show_sheet withdraw_sheet in
        (refl, inr ((e, idle_home-IsHome msg page), refl))
    unmended repair h e =
        unfold retried show_sheet withdraw_sheet in
        (refl, inr ((e, idle_home-IsHome msg page), refl))

settled_for-IsReported :
    (w : Browser) (d : Dial) (origin : Origin) (outcome : Outcome) (page : Page)
    → IsReported d origin outcome (settled_for w d origin outcome page)
unfolding settled_for with_session idle_home withdraw_sheet
settled_for-IsReported w d origin (session accepted now) page = (refl, (refl, refl))
settled_for-IsReported w d card (failed msg) page = told d card msg page refl
settled_for-IsReported w d form (failed msg) page = told d form msg page refl
settled_for-IsReported w d repair (failed msg) page = told d repair msg page refl
settled_for-IsReported w d offer (failed msg) page = told d offer msg page refl
settled_for-IsReported w d (silent why) (failed msg) page = (refl, (refl, (refl, refl)))
settled_for-IsReported w d (silent why) (rejected status) page = (refl, (refl, (refl, refl)))
settled_for-IsReported w d card (rejected status) page = (refl, (refl, (refl, refl)))
settled_for-IsReported w d form (rejected status) page = (refl, (refl, (refl, refl)))
settled_for-IsReported w d repair (rejected status) page = (refl, (refl, (refl, refl)))
settled_for-IsReported w d offer (rejected status) page = (refl, (refl, (refl, refl)))

settle_in_flight-IsReported :
    (w : Browser) (d : Dial) (outcome : Outcome) (page : Page) (o : Option Dial)
    → o ≡ some d
    → IsReported d d.origin outcome (settle_in_flight w o outcome page)
unfolding settle_in_flight
settle_in_flight-IsReported w d outcome page none e = absurd (cc)
settle_in_flight-IsReported w d outcome page (some c) e =
    subst (λ (b : Dial). IsReported b b.origin outcome (settled_for w c c.origin outcome page))
      (same_some c d e) (settled_for-IsReported w c c.origin outcome page)

-- No outcome of a dial is lost on the user, and after each the page can dial again: a session shows
-- the terminal and a rejected host key the home screen with the reason. After a failure of a dial that
-- is not silent the re-pair sheet comes up where the message has `pairing-required`; where it does not,
-- the home screen says the reason, with the connect sheet and the parameters over it unless the dial
-- was of a redial offer. A silent dial leaves its own reason on the home screen.
pub settle_dial-IsReported :
    (w : Browser) (d : Dial) (outcome : Outcome) (page : Page)
    → page.dialing ≡ some d
    → IsReported d d.origin outcome (settle_dial w outcome page)
unfolding settle_dial
settle_dial-IsReported w d outcome page e =
    settle_in_flight-IsReported w d outcome page page.dialing e
