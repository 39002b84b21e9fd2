-- ===== src/Links.antt =====
-- Links in the terminal: the handler that `linkHandler` of site/links.mjs builds, with its dialog.
-- What a browser decides is a parameter: the scheme of a URI, and whether two points are farther
-- apart than `DRAG_SLOP`.
pub mod Consent
mod Tests
use wosh.Prelude.{
  ℕ, suc, Bool, true, false, ◌&&◌, ◌||◌, not, List, [], ◌∷◌, ◌++◌, Option, none, some,
  if◌then◌else◌, Text, codes, text_eq,
}

pub record Page : Type 1 where
  pub Point : Type 0
  pub far : Point → Point → Bool
  -- `new URL(uri).protocol`; `none` where it throws
  pub scheme : Text → Option Text

unfoldable pub is_web : Option Text → Bool
unfolding text_eq
is_web none = false
is_web (some s) = text_eq s (codes "http:") || text_eq s (codes "https:")

module _ (page : Page) where
  -- `pressedAt`
  pub record Press : Type 0 where
    pub at : page.Point
    pub had_selection : Bool

  -- `remembered` is what storage holds, `dialog` the URI that the open dialog asks about with its
  -- checkbox, `opened` what `window.open` was given, in order, and `refocused` the calls of `refocus`.
  pub record Links : Type 0 where
    pub pressed : Option Press
    pub remembered : Bool
    pub dialog : Option (Text × Bool)
    pub opened : List Text
    pub refocused : ℕ

  -- A pointer goes down; a link is activated while the terminal has a selection or not, by an event
  -- with a position or without one; the dialog's checkbox, its buttons and Esc. Storage may refuse.
  pub data Event : Type 0 where
    pointerdown : page.Point → Bool → Event
    activated : Bool → Option page.Point → Text → Event
    toggled : Event
    open_clicked : Bool → Event
    cancelled : Event

  unfoldable pub selected_at_press : Option Press → Bool
  selected_at_press none = false
  selected_at_press (some p) = p.had_selection

  unfoldable pub dragged : Option Press → Option page.Point → Bool
  dragged none at = false
  dragged (some p) none = false
  dragged (some p) (some q) = page.far p.at q

  unfoldable pub ignored : Bool → Option Press → Option page.Point → Text → Bool
  unfolding selected_at_press dragged is_web
  ignored has_selection pressed at uri =
      has_selection
      || selected_at_press pressed
      || dragged pressed at
      || not (is_web (page.scheme uri))

  -- The handler
  unfoldable pub activate : Bool → Option page.Point → Text → Links → Links
  unfolding ignored
  activate has_selection at uri l =
      if ignored has_selection l.pressed at uri
      then l
      else if l.remembered
      then record l { opened = l.opened ++ uri ∷ [] }
      else record l { dialog = some (uri, false) }

  unfoldable pub click_open : Bool → Option (Text × Bool) → Links → Links
  click_open accepted none l = l
  click_open accepted (some (uri, checked)) l = record l {
    remembered = l.remembered || (checked && accepted);
    dialog = none;
    opened = l.opened ++ uri ∷ [];
    refocused = suc l.refocused;
  }

  unfoldable pub toggle : Option (Text × Bool) → Option (Text × Bool)
  toggle none = none
  toggle (some (uri, checked)) = some (uri, not checked)

  unfoldable pub cancel_dialog : Option (Text × Bool) → Links → Links
  cancel_dialog none l = l
  cancel_dialog (some d) l = record l { dialog = none; refocused = suc l.refocused }

  unfoldable pub step : Links → Event → Links
  unfolding activate click_open toggle cancel_dialog
  step l (pointerdown p selection) = record l {
    pressed = some (record { at = p; had_selection = selection });
  }
  step l (activated has_selection at uri) = activate has_selection at uri l
  step l toggled = record l { dialog = toggle l.dialog }
  step l (open_clicked accepted) = click_open accepted l.dialog l
  step l cancelled = cancel_dialog l.dialog l

  unfoldable pub run : Links → List Event → Links
  unfolding step
  run l [] = l
  run l (e ∷ es) = run (step l e) es
