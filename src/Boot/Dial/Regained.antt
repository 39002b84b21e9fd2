-- ===== src/Boot/Dial/Regained.antt =====
-- A lost session that comes back.
use wosh.Prelude.{
  ℕ, ◌+◌, ◌≤◌, ◌≡◌, refl, sym, ◌∙◌, ap, subst, Bool, true, false, [], ◌∷◌, Option, none, some,
  arith, Text,
}
use wosh.Boot.Connstring.{Browser, endpoint_id_of}
use wosh.Boot.HostKeys.{is_some}
use wosh.Boot.Dial.{
  Dial, Last, Page, session, with_session, settled_for, settle_in_flight, settle_dial, non_empty,
}
use wosh.Boot.Dial.Ended.{
  lost, silent_dial, auto_gap, may_reconnect, is_silent_method, is_pinned, session_ended, ended_by,
  said, auto_reconnect,
}
use wosh.Boot.Dial.Moves.{begin_free}
use wosh.Boot.Dial.Silence.{same_some}
use wosh.Boot.Dial.Moved.{reconnect_free}
use wosh.Boot.Dial.Reports.{settle_dial-IsReported}

non_empty-again :
    (t : Text) → non_empty (elim (non_empty t) [ none ↦ [] | some c ↦ c ]) ≡ non_empty t
non_empty-again [] = refl
non_empty-again (c ∷ t) = refl

-- A connection as `doConnect` remembers it.
abbrev pub connected : Text → Text → Text → Text → Last
connected connstring user command method = record {
  connstring = connstring;
  user = user;
  command = non_empty command;
  method = method;
}

-- The page while a lost session's silent dial is in flight, and after it succeeds.
pub record IsRegained (w : Browser) (lc : Last) (dialing : Page) (done : Page) : Type 0 where
  pub why : Text
  pub in_flight : dialing.dialing ≡ some (silent_dial why lc)
  pub again : done.last ≡ some lc
  pub live : is_some done.live ≡ true
  pub free : done.dialing ≡ none

session-connected :
    (w : Browser) (d : Dial) (accepted : Bool) (date : Text) (page : Page) (o : Option Dial)
    → o ≡ some d
    → (settle_in_flight w o (session accepted date) page).last
      ≡ some (connected d.connstring d.user d.command d.method)
unfolding settle_in_flight settled_for with_session
session-connected w d accepted date page none e = absurd (cc)
session-connected w d accepted date page (some c) e =
    ap (λ (b : Dial). some (connected b.connstring b.user b.command b.method)) (same_some c d e)

begun_silently :
    (w : Browser) (now : ℕ) (why : Text) (lc : Last) (page : Page)
    → may_reconnect w now lc page ≡ true
    → page.dialing ≡ none
    → (auto_reconnect w now why lc page).dialing ≡ some (silent_dial why lc)
begun_silently w now why lc page may free =
    let idle : is_some page.dialing ≡ false = ap is_some free in
    ap (λ (p : Page). p.dialing) (reconnect_free w now why lc page may idle)
    ∙ (begin_free (silent_dial why lc) (record page { last_auto_at = now }) idle).0

regained :
    (w : Browser) (now : ℕ) (why : Text) (page : Page) (connstring user command method : Text)
    (accepted : Bool) (date : Text)
    → may_reconnect w now (connected connstring user command method) page ≡ true
    → page.dialing ≡ none
    → let lc = connected connstring user command method in
      let dialing = auto_reconnect w now why lc page in
      IsRegained w lc dialing (settle_dial w (session accepted date) dialing)
unfolding settle_dial
regained w now why page connstring user command method accepted date may free =
    let lc = connected connstring user command method in
    let dialing = auto_reconnect w now why lc page in
    let d = silent_dial why lc in
    let is_d = begun_silently w now why lc page may free in
    let (over, (hidden, on)) = settle_dial-IsReported w d (session accepted date) dialing is_d in
    record {
      why = why;
      in_flight = is_d;
      again =
          session-connected w d accepted date dialing dialing.dialing is_d
          ∙ ap (λ c. let l : Last = record lc { command = c } in some l) (non_empty-again command);
      live = on;
      free = over;
    }

may_reconnect-when :
    (w : Browser) (now : ℕ) (lc : Last) (page : Page)
    → is_silent_method lc.method ≡ true
    → is_pinned (endpoint_id_of w lc.connstring) page.pinned ≡ true
    → page.last_auto_at + auto_gap lc.command ≤ now
    → may_reconnect w now lc page ≡ true
unfolding may_reconnect
may_reconnect-when w now lc page unasking pinned late = rw (unasking, pinned) (ground (arith, late))

lost-reconnects :
    (w : Browser) (now uptime : ℕ) (why : Option Text) (code : Option ℕ) (page : Page) (lc : Last)
    (o : Option Last)
    → o ≡ some lc
    → ended_by w now lost why code uptime o page ≡ auto_reconnect w now (said why) lc page
unfolding ended_by
lost-reconnects w now uptime why code page lc none e = absurd (cc)
lost-reconnects w now uptime why code page lc (some l) e =
    ap (λ k. auto_reconnect w now (said why) k page) (same_last l lc e)
  where
    same_last : (k l : Last) → some k ≡ some l → k ≡ l
    same_last k l h = cc

-- A session that is lost comes back by itself: where the method asks nothing, the endpoint's key is
-- pinned, the last silent dial is far enough back and no dial is in flight, the same connection is
-- dialed at once; and when that dial gets a session, the page is live on the same connection and can
-- reconnect again.
pub session_ended-IsRegained :
    (w : Browser) (now uptime : ℕ) (why : Option Text) (code : Option ℕ) (page : Page)
    → (connstring user command method : Text) (accepted : Bool) (date : Text)
    → page.last ≡ some (connected connstring user command method)
    → is_silent_method method ≡ true
    → is_pinned (endpoint_id_of w connstring) page.pinned ≡ true
    → page.last_auto_at + auto_gap (non_empty command) ≤ now
    → page.dialing ≡ none
    → IsRegained w
        (connected connstring user command method)
        (session_ended w now lost why code uptime page)
        (settle_dial w (session accepted date) (session_ended w now lost why code uptime page))
unfolding session_ended
session_ended-IsRegained w now uptime why code page connstring user command method accepted date
      known unasking pinned late free =
    let lc = connected connstring user command method in
    subst (λ (p : Page). IsRegained w lc p (settle_dial w (session accepted date) p))
      (sym (lost-reconnects w now uptime why code page lc page.last known))
      (regained w now (said why) page connstring user command method accepted date
        (may_reconnect-when w now lc page unasking pinned late) free)
