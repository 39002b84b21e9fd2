-- ===== src/Boot/Dial/Offers.antt =====
-- What is offered where a session manager is not on the target.
use wosh.Prelude.{
  ℕ, ◌≡◌, ◌<◌, refl, ◌∙◌, ap, Bool, true, false, ◌&&◌, not, List, [], ◌∷◌, Option, none, some,
  Bool-cases, inl, inr, arith, Text, text_eq, All,
}
use wosh.Boot.Connstring.{Browser, connstring_details}
use wosh.Boot.Dial.{Last, Page, trouble_sheet, show_sheet}
use wosh.Boot.Dial.Ended.{
  tool_of, has_tool, offered_instead, tools_at, alternatives, not_found, command_session_ended,
}
use wosh.Boot.Dial.Steps.{swapped_command, kept_name}
use wosh.Sessions.{Preset, presets, id, command, valid_name}
use wosh.Sessions.RoundTrip.{match_command-command}

-- A manager other than the one that is missing, which the host was seen to have.
abbrev pub IsThere : Text → List (Text × Bool) → Preset → Type 0
IsThere tool tools p = (text_eq (id p) tool ≡ false) × (has_tool (id p) tools ≡ true)

offered_instead-IsThere :
    (tool : Text) (tools : List (Text × Bool)) (ps : List Preset)
    → All (IsThere tool tools) (offered_instead tool tools ps)
unfolding offered_instead
offered_instead-IsThere tool tools [] = tt
offered_instead-IsThere tool tools (p ∷ ps) =
    elim (Bool-cases (not (text_eq (id p) tool) && has_tool (id p) tools)) [
      | inl e ↦ rw e ((ground arith, ground arith), offered_instead-IsThere tool tools ps)
      | inr e ↦ rw e (offered_instead-IsThere tool tools ps)
    ]

abbrev pub detected_at : Browser → Last → Page → List (Text × Bool)
detected_at w lc page = elim (tools_at (connstring_details w lc.connstring) lc.user page) [
  | none ↦ []
  | some ts ↦ ts
]

-- An offer that is sound, and keeps the name of the session.
abbrev pub IsSound : Text → List (Text × Bool) → Text → Text → Preset → Type 0
IsSound tool tools cmd name q = IsThere tool tools q × (swapped_command q cmd ≡ command q name)

pub record IsHelpful (w : Browser) (lc : Last) (before : Page) (cmd name : Text) (after : Page)
    : Type 0 where
  pub offers : List Preset
  pub shown : after.sheet ≡ some (trouble_sheet (tool_of cmd) offers lc cmd)
  pub sound : All (IsSound (tool_of cmd) (detected_at w lc before) cmd name) offers

swapped_command-command :
    (p q : Preset) (name : Text)
    → valid_name name ≡ true
    → swapped_command q (command p name) ≡ command q name
unfolding swapped_command kept_name
swapped_command-command p q name valid =
    ap (λ o. command q (kept_name o)) (match_command-command p name valid)
    ∙ ap (command q) (rw valid refl)

alternatives-IsThere :
    (tool : Text) (o : Option (List (Text × Bool)))
    → All (IsThere tool (elim o [ none ↦ [] | some ts ↦ ts ])) (alternatives tool o)
unfolding alternatives
alternatives-IsThere tool none = tt
alternatives-IsThere tool (some ts) = offered_instead-IsThere tool ts presets

all-IsSound :
    (tool : Text) (tools : List (Text × Bool)) (p : Preset) (name : Text) (qs : List Preset)
    → valid_name name ≡ true
    → All (IsThere tool tools) qs
    → All (IsSound tool tools (command p name) name) qs
all-IsSound tool tools p name [] valid h = tt
all-IsSound tool tools p name (q ∷ qs) valid h =
    ((h.0, swapped_command-command p q name valid), all-IsSound tool tools p name qs valid h.1)

-- Where a session manager's command fails with 127 within five seconds, each manager that is offered
-- in its place is another one, which the host was seen to have, and taking the offer runs it with the
-- session name that the user had; a host that was not asked is offered none.
command_session_ended-IsHelpful :
    (w : Browser) (why : Text) (uptime : ℕ) (lc : Last) (p : Preset) (name : Text) (page : Page)
    → valid_name name ≡ true
    → uptime < 5000
    → IsHelpful w lc page
        (command p name)
        name
        (command_session_ended w why (some 127) uptime lc (command p name) page)
unfolding command_session_ended show_sheet
command_session_ended-IsHelpful w why uptime lc p name page valid soon =
    let cmd = command p name in
    let tools = tools_at (connstring_details w lc.connstring) lc.user page in
    let quick : not_found (some 127) uptime ≡ true = ground (arith, soon) in
    record {
      offers = alternatives (tool_of cmd) tools;
      shown = rw quick refl;
      sound =
          all-IsSound (tool_of cmd) (detected_at w lc page) p name
            (alternatives (tool_of cmd) tools) valid (alternatives-IsThere (tool_of cmd) tools);
    }
