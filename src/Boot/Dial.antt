-- ===== src/Boot/Dial.antt =====
-- The dials of site/boot.mjs: the page's session state, `idleHome`, `doConnect` and what its callers
-- make of the outcome. A dial is begun and settled, and other events come between.
pub mod Ended
pub mod Steps
pub mod Moves
pub mod Moved
pub mod Offers
mod Tests
pub mod Silence
pub mod Reports
pub mod Regained
use wosh.Prelude.{
  ℕ, Bool, true, false, List, [], ◌∷◌, ◌++◌, Option, none, some, if◌then◌else◌, is_nil, take, Text,
  codes, includes,
}
use wosh.Boot.Connstring.{Browser, Details, connstring_details, v3_connstring}
use wosh.Boot.History.{Connection, Storage, load_history}
use wosh.Boot.History.Operations.{find_at, record_connection}
use wosh.Boot.HostKeys.{Stored, is_some}
use wosh.Sessions.{Preset}

-- Who dials: a card, the connect sheet, the re-pair sheet, an offer after a session's end, or the page
-- itself after a loss, with what it will say if that fails.
pub data Origin : Type 0 where
  card form repair offer : Origin
  silent : Text → Origin

pub record Dial : Type 0 where
  pub connstring : Text
  pub user : Text
  pub method : Text
  pub command : Text
  pub origin : Origin

-- `lastConnected`
pub record Last : Type 0 where
  pub connstring : Text
  pub user : Text
  pub command : Option Text
  pub method : Text

-- What the sheet asks, with what its continuation holds. A text at the end is an error that is shown.
pub data Sheet : Type 0 where
  connect_sheet : Text → Option Dial → Option Text → Sheet
  repair_sheet : Dial → Text → Sheet
  trouble_sheet : Text → List Preset → Last → Text → Sheet
  ended_sheet : Last → Text → Sheet

-- `live` is the user and the label in the header, `resolved` the errors of re-pair sheets that were
-- withdrawn and whose continuation has yet to run, `dialed` what `onConnect` was called with.
pub record Page : Type 0 where
  pub dialing : Option Dial
  pub last : Option Last
  pub last_auto_at : ℕ
  pub sheet : Option Sheet
  pub resolved : List Text
  pub notice : Text
  pub chrome : Bool
  pub live : Option (Text × Text)
  pub history : Storage
  pub pinned : Stored
  pub remember : Bool
  pub dialed : List Dial

abbrev pub left_by : Option Sheet → List Text
left_by none = []
left_by (some (connect_sheet connstring prefill error)) = []
left_by (some (repair_sheet d error)) = error ∷ []
left_by (some (trouble_sheet tool alternatives lc command)) = []
left_by (some (ended_sheet lc command)) = []

-- `withdrawSheet`
unfoldable pub withdraw_sheet : Page → Page
withdraw_sheet page = record page { sheet = none; resolved = page.resolved ++ left_by page.sheet }

-- `showSheet`
unfoldable pub show_sheet : Sheet → Page → Page
unfolding withdraw_sheet
show_sheet s page = record (withdraw_sheet page) { sheet = some s }

-- `idleHome`
unfoldable pub idle_home : Text → Page → Page
unfolding withdraw_sheet
idle_home msg page =
    let kept = if is_some page.dialing then page else withdraw_sheet page in
    record kept { live = none; notice = msg; chrome = true }

-- `doConnect` up to `onConnect`
unfoldable pub begin_dial : Dial → Page → Page
unfolding withdraw_sheet
begin_dial d page = if is_some page.dialing then page else record (withdraw_sheet page) {
  dialing = some d;
  chrome = false;
  dialed = page.dialed ++ d ∷ [];
}

-- How `onConnect` ends: with a session, which storage records or not at some time; with null, and
-- the line that then stands in the status; or with a throw.
pub data Outcome : Type 0 where
  session : Bool → Text → Outcome
  rejected : Text → Outcome
  failed : Text → Outcome

abbrev pub ellipsis : ℕ
ellipsis = 8230

-- `labelOf`
abbrev pub label_of : Connection → Text
label_of c = elim c.name [ none ↦ take 8 c.id ++ ellipsis ∷ [] | some n ↦ n ]

-- What stands for the connection in the header
unfoldable pub label_at : Option Details → Text → Storage → Text
unfolding find_at load_history
label_at none user s = codes "?"
label_at (some d) user s = elim (find_at d.id user (load_history s)) [
  | none ↦ take 8 d.id ++ ellipsis ∷ []
  | some c ↦ label_of c
]

abbrev pub non_empty : Text → Option Text
non_empty t = if is_nil t then none else some t

abbrev pub history_after : Bool → Bool → Text → Option Details → Dial → Storage → Storage
history_after remember accepted now none d s = s
history_after remember accepted now (some at) d s =
    if remember
    then record_connection accepted now at.id at.relay d.user (some d.command) (some d.method) none
        s
    else s

-- The rest of `doConnect` with a session
unfoldable pub with_session : Browser → Bool → Text → Dial → Page → Page
unfolding label_at record_connection connstring_details
with_session w accepted now d page =
    let details = connstring_details w d.connstring in
    let history = history_after page.remember accepted now details d page.history in
    record page {
      last = some (record {
        connstring = d.connstring;
        user = d.user;
        command = non_empty d.command;
        method = d.method;
      });
      history = history;
      live = some (d.user, label_at details d.user history);
      chrome = false;
      notice = [];
    }

abbrev pub refuse_pairing : Text
refuse_pairing = codes "pairing-required"

-- The catch: whether the re-pair sheet takes over, and the page.
unfoldable pub with_error : Dial → Text → Page → Bool × Page
unfolding includes show_sheet idle_home
with_error d msg page =
    if includes refuse_pairing msg
    then (true, show_sheet (repair_sheet d msg) page)
    else (false, idle_home msg page)

-- `finally`
abbrev pub released : Page → Page
released page = record page { dialing = none }

-- What `dialWithSheet`, `dialFromEntry` and `repairFlow` do after an error that is not handled; a
-- redial from an offer leaves it at that.
unfoldable pub retried : Dial → Origin → Text → Bool × Page → Page
unfolding show_sheet
retried d origin msg (true, page) = page
retried d (silent why) msg (false, page) = page
retried d offer msg (false, page) = page
retried d card msg (false, page) = show_sheet (connect_sheet d.connstring (some d) (some msg)) page
retried d form msg (false, page) = show_sheet (connect_sheet d.connstring (some d) (some msg)) page
retried d repair msg (false, page) =
    show_sheet (connect_sheet d.connstring (some d) (some msg)) page

-- After a dial that said nothing by itself, `autoReconnect` is false and the page goes home.
unfoldable pub settled_for : Browser → Dial → Origin → Outcome → Page → Page
unfolding with_session with_error retried idle_home
settled_for w d origin (session accepted now) page = released (with_session w accepted now d page)
settled_for w d (silent why) (rejected status) page = idle_home why (released page)
settled_for w d (silent why) (failed msg) page = idle_home why (released page)
settled_for w d card (rejected status) page = released (idle_home status page)
settled_for w d form (rejected status) page = released (idle_home status page)
settled_for w d repair (rejected status) page = released (idle_home status page)
settled_for w d offer (rejected status) page = released (idle_home status page)
settled_for w d card (failed msg) page =
    let done = with_error d msg page in retried d card msg (done.0, released done.1)
settled_for w d form (failed msg) page =
    let done = with_error d msg page in retried d form msg (done.0, released done.1)
settled_for w d repair (failed msg) page =
    let done = with_error d msg page in retried d repair msg (done.0, released done.1)
settled_for w d offer (failed msg) page =
    let done = with_error d msg page in retried d offer msg (done.0, released done.1)

unfoldable pub settle_in_flight : Browser → Option Dial → Outcome → Page → Page
unfolding settled_for
settle_in_flight w none outcome page = page
settle_in_flight w (some d) outcome page = settled_for w d d.origin outcome page

unfoldable pub settle_dial : Browser → Outcome → Page → Page
unfolding settle_in_flight
settle_dial w outcome page = settle_in_flight w page.dialing outcome page

-- `dialFromEntry`; the command, where one is given, stands in for the card's.
unfoldable pub dial_from_entry : Browser → Connection → Option Text → Dial
unfolding v3_connstring
dial_from_entry w entry command = record {
  connstring = v3_connstring w entry.id entry.relay none;
  user = entry.user;
  method = elim entry.method [ none ↦ codes "auto" | some m ↦ m ];
  command = elim command [ none ↦ elim entry.command [ none ↦ [] | some c ↦ c ] | some c ↦ c ];
  origin = card;
}
