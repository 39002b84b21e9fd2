-- ===== src/Boot/Dial/Steps.antt =====
-- The page's dials as a machine: taps, answers to the sheet, dials that settle and sessions that end,
-- in any order.
use wosh.Prelude.{ℕ, Bool, List, [], ◌∷◌, Option, none, some, if◌then◌else◌, Text, codes}
use wosh.Boot.Connstring.{Browser, Details, connstring_details}
use wosh.Boot.History.{Connection, Storage}
use wosh.Boot.History.Operations.{clear_stored_command, update_connection}
use wosh.Boot.Dial.{
  Dial, form, repair, offer, Last, Page, Sheet, connect_sheet, repair_sheet, trouble_sheet,
  ended_sheet, show_sheet, idle_home, begin_dial, Outcome, settle_dial, dial_from_entry,
}
use wosh.Boot.Dial.Ended.{Close, session_ended}
use wosh.Sessions.{Preset, command, valid_name, parse_detect, presets, id}
use wosh.Sessions.Matching.{match_command}

-- What a sheet resolves to: the form filled in, a link from the re-pair sheet or the wish to scan, the
-- offers after a session's end, or null.
pub data Answer : Type 0 where
  filled : Text → Text → Text → Answer
  linked : Text → Answer
  rescan : Answer
  swap : Preset → Answer
  once always reattach dismiss : Answer

-- `redial` of `commandSessionEnded`
abbrev pub redial : Last → Text → Dial
redial lc cmd = record {
  connstring = lc.connstring;
  user = lc.user;
  method = lc.method;
  command = cmd;
  origin = offer;
}

-- The name a session keeps when its manager is swapped.
unfoldable pub kept_name : Option (Preset × Text) → Text
unfolding valid_name
kept_name none = codes "main"
kept_name (some (p, name)) = if valid_name name then name else codes "main"

unfoldable pub swapped_command : Preset → Text → Text
unfolding kept_name match_command command
swapped_command p cmd = command p (kept_name (match_command (some cmd)))

unfoldable pub cleared : Bool → Option Details → Text → Storage → Storage
unfolding clear_stored_command
cleared accepted none user s = s
cleared accepted (some d) user s = clear_stored_command accepted d.id user s

-- The continuation of the sheet that was open, on the page without it. The flag says whether storage
-- accepts. An answer that the sheet has no button for does nothing.
unfoldable pub answered : Browser → Bool → Sheet → Answer → Page → Page
unfolding begin_dial swapped_command cleared connstring_details idle_home
answered w accepted (connect_sheet connstring prefill error) (filled user method cmd) page =
    begin_dial
      (record {
        connstring = connstring;
        user = user;
        method = method;
        command = cmd;
        origin = form;
      })
      page
answered w accepted (repair_sheet d error) (linked connstring) page =
    begin_dial (record d { connstring = connstring; origin = repair }) page
answered w accepted (repair_sheet d error) dismiss page = idle_home error page
answered w accepted (trouble_sheet tool alternatives lc cmd) (swap p) page =
    begin_dial (redial lc (swapped_command p cmd)) page
answered w accepted (trouble_sheet tool alternatives lc cmd) once page =
    begin_dial (redial lc []) page
answered w accepted (trouble_sheet tool alternatives lc cmd) always page =
    begin_dial (redial lc []) (record page {
      history = cleared accepted (connstring_details w lc.connstring) lc.user page.history;
    })
answered w accepted (ended_sheet lc cmd) reattach page = begin_dial (redial lc cmd) page
answered w accepted s a page = page

unfoldable pub answered_open : Browser → Bool → Option Sheet → Answer → Page → Page
unfolding answered
answered_open w accepted none a page = page
answered_open w accepted (some s) a page = answered w accepted s a page

-- `settleSheet`
abbrev pub closed_sheet : Page → Page
closed_sheet page = record page { sheet = none }

abbrev all_detected : Text → List Preset → List (Text × Bool)
all_detected text [] = []
all_detected text (p ∷ ps) = (id p, parse_detect text p) ∷ all_detected text ps

-- `detectTools`, when the probe answers
unfoldable pub tools_detected : Bool → ℕ → Text → Text → Text → Storage → Storage
unfolding update_connection parse_detect id
tools_detected accepted now i user text s =
    update_connection accepted i user
      (λ c. record c { tools = some (all_detected text presets); tools_at = some now }) s

-- A card is tapped, with a command of its own or not; the countdown on the home screen ends, which
-- dials the card that it was shown on (which card that is, and when, is not modelled); a link is opened; the open sheet is answered;
-- the dial in flight settles; a session ends at some time; a withdrawn re-pair sheet's continuation
-- runs; the probe of a connection answers.
pub data Event : Type 0 where
  tapped : Connection → Option Text → Event
  counted_down : Connection → Event
  opened : Text → Event
  answer : Bool → Answer → Event
  settled : Outcome → Event
  ended_at : ℕ → Close → Option Text → Option ℕ → ℕ → Event
  resumed : Event
  detected : Bool → ℕ → Text → Text → Text → Event

abbrev pub run_resolved : List Text → Page → Page
run_resolved [] page = page
run_resolved (error ∷ es) page = idle_home error (record page { resolved = es })

unfoldable pub step : Browser → Page → Event → Page
unfolding begin_dial dial_from_entry show_sheet answered_open settle_dial session_ended idle_home
    tools_detected
step w page (tapped entry cmd) = begin_dial (dial_from_entry w entry cmd) page
step w page (counted_down entry) = begin_dial (dial_from_entry w entry none) page
step w page (opened connstring) = show_sheet (connect_sheet connstring none none) page
step w page (answer accepted a) = answered_open w accepted page.sheet a (closed_sheet page)
step w page (settled outcome) = settle_dial w outcome page
step w page (ended_at now kind why code uptime) = session_ended w now kind why code uptime page
step w page resumed = run_resolved page.resolved page
step w page (detected accepted now i user text) = record page {
  history = tools_detected accepted now i user text page.history;
}

unfoldable pub run : Browser → Page → List Event → Page
unfolding step
run w page [] = page
run w page (e ∷ es) = run w (step w page e) es
