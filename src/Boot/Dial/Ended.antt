-- ===== src/Boot/Dial/Ended.antt =====
-- What happens when a session is gone: the listener of `wosh:session-ended`, `autoReconnect` and
-- `commandSessionEnded` of site/boot.mjs.
use wosh.Prelude.{
  ℕ, ◌-◌, ◌==◌, Bool, false, ◌&&◌, ◌||◌, not, List, [], ◌∷◌, ◌++◌, Option, none, some,
  if◌then◌else◌, ltb, is_nil, Text, codes, text_eq, trim, is_space, is_word, split_runs,
}
use wosh.Boot.Connstring.{Browser, Details, connstring_details, endpoint_id_of}
use wosh.Boot.History.{load_history}
use wosh.Boot.History.Operations.{find_at}
use wosh.Boot.HostKeys.{Stored, load_pins, find_pin, is_some}
use wosh.Boot.Dial.{
  Dial, silent, Last, Page, trouble_sheet, ended_sheet, show_sheet, idle_home, begin_dial,
}
use wosh.Sessions.{Preset, presets, id}

-- A character that begins `&&` or `||`
abbrev is_operator : ℕ → Bool
is_operator c = c == b'&' || c == b'|'

abbrev follows : Option ℕ → ℕ → Bool
follows none c = false
follows (some p) c = p == c

abbrev ends_segment : Option ℕ → ℕ → Bool
ends_segment pending c = c == b';' || follows pending c

abbrev next_pending : Option ℕ → ℕ → Option ℕ
next_pending pending c =
    if ends_segment pending c then none else if is_operator c then some c else none

-- The last piece of `split(/&&|\|\||;/)`: the piece so far, and the half of an operator at its end.
unfoldable pub last_segment : Text → Option ℕ → Text → Text
last_segment cur pending [] = cur
last_segment cur pending (c ∷ s) =
    last_segment (if ends_segment pending c then [] else cur ++ c ∷ []) (next_pending pending c) s

abbrev is_letter : ℕ → Bool
is_letter c = is_word c && not (ltb 47 c && ltb c 58)

assigns : Text → Bool
unfolding is_word
assigns [] = false
assigns (c ∷ s) = c == b'=' || (is_word c && assigns s)

-- `/^[A-Za-z_][A-Za-z0-9_]*=/`
unfoldable pub is_assignment : Text → Bool
unfolding assigns is_word
is_assignment [] = false
is_assignment (c ∷ s) = is_letter c && assigns s

abbrev words : Text → List Text
words s = split_runs is_space [] false (trim s)

unfoldable pub first_program : List Text → Option Text
unfolding is_assignment text_eq
first_program [] = none
first_program (w ∷ ws) =
    let rest = first_program ws in
    if text_eq w (codes "exec") || is_assignment w then rest else some w

abbrev first_of : List Text → Text
first_of [] = []
first_of (w ∷ ws) = w

-- The program that a 127 is about
unfoldable pub tool_of : Text → Text
unfolding last_segment first_program split_runs trim
tool_of command = elim (first_program (words (last_segment [] none command))) [
  | none ↦ first_of (words command)
  | some w ↦ w
]

-- A detection result of `true`
unfoldable pub has_tool : Text → List (Text × Bool) → Bool
unfolding text_eq
has_tool i [] = false
has_tool i ((j, b) ∷ ts) = let rest = has_tool i ts in if text_eq j i then b else rest

unfoldable pub offered_instead : Text → List (Text × Bool) → List Preset → List Preset
unfolding has_tool id
offered_instead tool tools [] = []
offered_instead tool tools (p ∷ ps) =
    let rest = offered_instead tool tools ps in
    if not (text_eq (id p) tool) && has_tool (id p) tools then p ∷ rest else rest

abbrev pub tools_at : Option Details → Text → Page → Option (List (Text × Bool))
tools_at none user page = none
tools_at (some d) user page = elim (find_at d.id user (load_history page.history)) [
  | none ↦ none
  | some c ↦ c.tools
]

unfoldable pub alternatives : Text → Option (List (Text × Bool)) → List Preset
unfolding offered_instead
alternatives tool none = []
alternatives tool (some tools) = offered_instead tool tools presets

-- `code === 127 && uptimeMs < 5000`
abbrev pub not_found : Option ℕ → ℕ → Bool
not_found none uptime = false
not_found (some code) uptime = code == 127 && ltb uptime 5000

-- `commandSessionEnded` up to its sheet
unfoldable pub command_session_ended : Browser → Text → Option ℕ → ℕ → Last → Text → Page → Page
unfolding tool_of alternatives connstring_details find_at load_history idle_home show_sheet
command_session_ended w why code uptime lc command page =
    let tool = tool_of command in
    let offers = alternatives tool (tools_at (connstring_details w lc.connstring) lc.user page) in
    show_sheet
      (if not_found code uptime
        then trouble_sheet tool offers lc command
        else ended_sheet lc command)
      (idle_home why page)

unfoldable pub is_silent_method : Text → Bool
unfolding text_eq
is_silent_method m =
    text_eq m (codes "auto") || text_eq m (codes "publickey") || text_eq m (codes "passkey")

-- `if (!id || !loadPins()[id]?.fp)` does not hold
unfoldable pub is_pinned : Option Text → Stored → Bool
unfolding find_pin load_pins
is_pinned none s = false
is_pinned (some i) s = elim (find_pin i (load_pins s)) [ none ↦ false | some p ↦ not (is_nil p.fp) ]

-- The time between silent reconnects, in milliseconds
unfoldable pub auto_gap : Option Text → ℕ
auto_gap none = 60000
auto_gap (some command) = 15000

unfoldable pub may_reconnect : Browser → ℕ → Last → Page → Bool
unfolding is_silent_method is_pinned endpoint_id_of auto_gap
may_reconnect w now lc page =
    is_silent_method lc.method
    && (is_pinned (endpoint_id_of w lc.connstring) page.pinned
        && not (ltb (now - page.last_auto_at) (auto_gap lc.command)))

abbrev pub silent_dial : Text → Last → Dial
silent_dial why lc = record {
  connstring = lc.connstring;
  user = lc.user;
  method = lc.method;
  command = elim lc.command [ none ↦ [] | some c ↦ c ];
  origin = silent why;
}

-- `autoReconnect` for a connection, with what the listener does where it is false at once; `said` is
-- what the notes say, `why` what the home screen says.
unfoldable pub auto_reconnect : Browser → ℕ → Text → Last → Page → Page
unfolding may_reconnect begin_dial idle_home
auto_reconnect w now why lc page =
    if may_reconnect w now lc page
    then if is_some page.dialing
      then idle_home why (record page { last_auto_at = now })
      else begin_dial (silent_dial why lc) (record page { last_auto_at = now })
    else idle_home why page

-- How a session ended: terminal.wit's `close-kind` as the page tells it apart.
pub data Close : Type 0 where
  lost ended other : Close

abbrev pub or_text : Option Text → Text → Text
or_text none t = t
or_text (some w) t = w

abbrev pub said : Option Text → Text
said why = or_text why []

abbrev pub ended_for : Browser → Option Text → Option ℕ → ℕ → Last → Option Text → Page → Page
ended_for w why code uptime lc none page = idle_home (said why) page
ended_for w why code uptime lc (some command) page =
    command_session_ended w (or_text why (codes "session ended")) code uptime lc command page

-- By `lastConnected`
unfoldable pub ended_by :
    Browser → ℕ → Close → Option Text → Option ℕ → ℕ → Option Last → Page → Page
unfolding auto_reconnect command_session_ended idle_home
ended_by w now lost why code uptime none page = idle_home (said why) page
ended_by w now lost why code uptime (some lc) page = auto_reconnect w now (said why) lc page
ended_by w now ended why code uptime none page = idle_home (said why) page
ended_by w now ended why code uptime (some lc) page = ended_for w why code uptime lc lc.command page
ended_by w now other why code uptime last page = idle_home (said why) page

-- The listener of `wosh:session-ended`
unfoldable pub session_ended : Browser → ℕ → Close → Option Text → Option ℕ → ℕ → Page → Page
unfolding ended_by
session_ended w now kind why code uptime page = ended_by w now kind why code uptime page.last page
