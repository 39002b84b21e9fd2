-- ===== src/Boot/History/Operations.antt =====
-- The changes of the history: `recordConnection`, `updateConnection`, `clearStoredCommand` and
-- `removeConnection` of site/boot.mjs.
use wosh.Prelude.{
  ℕ, Bool, false, ◌&&◌, ◌||◌, List, [], ◌∷◌, Option, none, some, if◌then◌else◌, is_nil, Text, codes,
  text_eq,
}
use wosh.Boot.History.{Connection, Storage, load_history, save_history}

unfoldable pub is_at : Text → Text → Connection → Bool
unfolding text_eq
is_at id user c = text_eq c.id id && text_eq c.user user

unfoldable pub find_at : Text → Text → List Connection → Option Connection
unfolding is_at
find_at id user [] = none
find_at id user (c ∷ cs) = let rest = find_at id user cs in if is_at id user c then some c else rest

unfoldable pub without : Text → Text → List Connection → List Connection
unfolding is_at
without id user [] = []
without id user (c ∷ cs) =
    let rest = without id user cs in if is_at id user c then rest else c ∷ rest

-- A text that JavaScript takes for true
abbrev pub truthy : Option Text → Option Text
truthy none = none
truthy (some t) = if is_nil t then none else some t

-- What a new entry takes from the prior one.
abbrev pub prior_name : Option Connection → Option Text
prior_name none = none
prior_name (some c) = truthy c.name

abbrev pub prior_tools : Option Connection → Option (List (Text × Bool))
prior_tools none = none
prior_tools (some c) = c.tools

abbrev pub prior_tools_at : Option Connection → Option ℕ
prior_tools_at none = none
prior_tools_at (some c) = elim c.tools [ none ↦ none | some bs ↦ c.tools_at ]

abbrev pub prior_resume : Option Connection → Bool
prior_resume none = false
prior_resume (some c) = c.auto_resume

abbrev pub not_auto : Option Text → Option Text
not_auto none = none
not_auto (some m) = if is_nil m || text_eq m (codes "auto") then none else some m

abbrev pub new_entry :
    Text
    → Text
    → Text
    → Text
    → Option Text
    → Option Text
    → Option Bool
    → Option Connection
    → Connection
new_entry now id relay user command method resume prior = record {
  id = id;
  relay = relay;
  user = user;
  at = now;
  name = prior_name prior;
  command = truthy command;
  method = not_auto method;
  auto_resume = elim resume [ none ↦ prior_resume prior | some b ↦ b ];
  tools = prior_tools prior;
  tools_at = prior_tools_at prior;
}

unfoldable pub record_connection :
    Bool → Text → Text → Text → Text → Option Text → Option Text → Option Bool → Storage → Storage
unfolding load_history save_history find_at without
record_connection accepted now id relay user command method resume s =
    let before = load_history s in
    let entry = new_entry now id relay user command method resume (find_at id user before) in
    save_history accepted (entry ∷ without id user before) s

unfoldable pub remove_connection : Bool → Text → Text → Storage → Storage
unfolding load_history save_history without
remove_connection accepted id user s = save_history accepted (without id user (load_history s)) s

unfoldable pub clear_commands : Text → Text → List Connection → List Connection
unfolding is_at
clear_commands id user [] = []
clear_commands id user (c ∷ cs) =
    (if is_at id user c then record c { command = none } else c) ∷ clear_commands id user cs

unfoldable pub clear_stored_command : Bool → Text → Text → Storage → Storage
unfolding load_history save_history clear_commands
clear_stored_command accepted id user s =
    save_history accepted (clear_commands id user (load_history s)) s

-- `Object.assign` on the first entry for that account
unfoldable pub update_at :
    Text → Text → (Connection → Connection) → List Connection → List Connection
unfolding is_at
update_at id user patch [] = []
update_at id user patch (c ∷ cs) =
    let rest = update_at id user patch cs in if is_at id user c then patch c ∷ cs else c ∷ rest

unfoldable pub update_hit :
    Bool → Text → Text → (Connection → Connection) → Storage → Option Connection → Storage
unfolding load_history save_history update_at
update_hit accepted id user patch s none = s
update_hit accepted id user patch s (some hit) =
    save_history accepted (update_at id user patch (load_history s)) s

unfoldable pub update_connection :
    Bool → Text → Text → (Connection → Connection) → Storage → Storage
unfolding update_hit find_at
update_connection accepted id user patch s =
    update_hit accepted id user patch s (find_at id user (load_history s))
