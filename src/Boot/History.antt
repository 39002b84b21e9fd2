-- ===== src/Boot/History.antt =====
-- The connection history: `loadHistory` and `saveHistory` of site/boot.mjs.
pub mod Loading
pub mod Operations
mod Tests
pub mod Recording
pub mod Updating
use wosh.Prelude.{
  ℕ, Bool, true, false, ◌&&◌, ◌||◌, not, List, [], ◌∷◌, map, Option, none, some, if◌then◌else◌,
  take, is_nil, Text, codes, text_eq, trim,
}

-- An optional field of a stored entry: a JSON value of one of the types that the page tells apart,
-- or nothing.
pub data Field : Type 0 where
  text : Text → Field
  truth : Bool → Field
  number : ℕ → Field
  absent other : Field

-- The field `tools`: a flat map of booleans, or anything else.
pub data Tools : Type 0 where
  booleans : List (Text × Bool) → Tools
  no_tools : Tools

-- An entry as it is stored.
pub record StoredEntry : Type 0 where
  pub id : Text
  pub relay : Text
  pub user : Text
  pub at : Text
  pub name : Field
  pub command : Field
  pub method : Field
  pub auto_resume : Field
  pub tools : Tools
  pub tools_at : Field

-- An entry as the page has it.
pub record Connection : Type 0 where
  pub id : Text
  pub relay : Text
  pub user : Text
  pub at : Text
  pub name : Option Text
  pub command : Option Text
  pub method : Option Text
  pub auto_resume : Bool
  pub tools : Option (List (Text × Bool))
  pub tools_at : Option ℕ

abbrev pub kept_text : (Text → Bool) → Field → Option Text
kept_text p (text t) = if p t then some t else none
kept_text p f = none

abbrev pub given : Text → Bool
given t = not (is_nil t)

unfoldable pub is_named : Text → Bool
unfolding trim
is_named t = not (is_nil (trim t))

-- `METHODS` without `auto`
unfoldable pub offered : Text → Bool
unfolding text_eq
offered t =
    text_eq t (codes "publickey")
    || text_eq t (codes "passkey")
    || text_eq t (codes "password")
    || text_eq t (codes "keyboard-interactive")

abbrev pub kept_flag : Field → Bool
kept_flag (truth b) = b
kept_flag f = false

abbrev pub kept_number : Field → Option ℕ
kept_number (number n) = some n
kept_number f = none

abbrev pub kept_tools : Tools → Option (List (Text × Bool))
kept_tools (booleans bs) = some bs
kept_tools no_tools = none

abbrev pub kept_tools_at : Tools → Field → Option ℕ
kept_tools_at (booleans bs) f = kept_number f
kept_tools_at no_tools f = none

unfoldable pub coerce : StoredEntry → Connection
unfolding is_named offered
coerce e = record {
  id = e.id;
  relay = e.relay;
  user = e.user;
  at = e.at;
  name = kept_text is_named e.name;
  command = kept_text given e.command;
  method = kept_text offered e.method;
  auto_resume = kept_flag e.auto_resume;
  tools = kept_tools e.tools;
  tools_at = kept_tools_at e.tools e.tools_at;
}

-- What storage holds under the key: an array, where `none` is an element that is not an object, or
-- something that is no array, or nothing.
pub data Storage : Type 0 where
  array : List (Option StoredEntry) → Storage
  unusable : Storage

unfoldable pub loaded : List (Option StoredEntry) → List Connection
unfolding coerce
loaded [] = []
loaded (none ∷ es) = loaded es
loaded (some e ∷ es) = coerce e ∷ loaded es

unfoldable pub load_history : Storage → List Connection
unfolding loaded
load_history (array es) = loaded es
load_history unusable = []

abbrev pub text_field : Option Text → Field
text_field none = absent
text_field (some t) = text t

abbrev pub tools_field : Option (List (Text × Bool)) → Tools
tools_field none = no_tools
tools_field (some bs) = booleans bs

abbrev pub number_field : Option ℕ → Field
number_field none = absent
number_field (some n) = number n

-- `JSON.stringify` of an entry
unfoldable pub to_stored : Connection → StoredEntry
to_stored c = record {
  id = c.id;
  relay = c.relay;
  user = c.user;
  at = c.at;
  name = text_field c.name;
  command = text_field c.command;
  method = text_field c.method;
  auto_resume = if c.auto_resume then truth true else absent;
  tools = tools_field c.tools;
  tools_at = number_field c.tools_at;
}

abbrev pub history_cap : ℕ
history_cap = 20

-- `saveHistory`; the flag says whether storage accepts.
unfoldable pub save_history : Bool → List Connection → Storage → Storage
unfolding to_stored
save_history accepted cs s =
    if accepted then array (map (λ c. some (to_stored c)) (take history_cap cs)) else s
