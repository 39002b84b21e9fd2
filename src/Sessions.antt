-- ===== src/Sessions.antt =====
-- What the page knows about session managers: site/sessions.mjs. Names and command lines here, the
-- list parsers in `Listing`, the way back from a command line in `Matching`.
pub mod Listing
pub mod Rows
mod Tests
pub mod Matching
pub mod RoundTrip
use wosh.Prelude.{
  ℕ, ◌≡◌, refl, Bool, true, false, ◌||◌, ◌&&◌, List, [], ◌∷◌, ◌++◌, Option, none, some, map,
  if◌then◌else◌, ◌==◌, leb, length, all, Text, codes, is_word, text_eq, split_at, trim,
}

-- `[A-Za-z0-9_-]`
unfoldable pub is_name_char : ℕ → Bool
unfolding is_word
is_name_char c = is_word c || c == b'-'

-- `validName`; a missing argument is the empty string.
unfoldable pub valid_name : Text → Bool
unfolding is_name_char
valid_name s = leb 1 (length s) && leb (length s) 32 && all is_name_char s

-- The entries of `PRESETS`, in its order.
pub data Preset : Type 0 where
  dtach abduco tmux screen : Preset

abbrev pub presets : List Preset
presets = dtach ∷ abduco ∷ tmux ∷ screen ∷ []

-- The field `id`
unfoldable pub id : Preset → Text
id dtach = codes "dtach"
id abduco = codes "abduco"
id tmux = codes "tmux"
id screen = codes "screen"

-- The field `command`, for a name that passed `validName`.
unfoldable pub command : Preset → Text → Text
command dtach name =
    codes "mkdir -p \"$HOME/.wosh\" && exec dtach -A \"$HOME/.wosh/"
    ++ (name ++ codes ".dtach\" -r winch \"$SHELL\"")
command abduco name = codes "exec abduco -A " ++ (name ++ codes " \"$SHELL\"")
command tmux name = codes "exec tmux new-session -A -D -s " ++ name
command screen name = codes "exec screen -D -R -S " ++ name

find_by_id : Text → List Preset → Option Preset
find_by_id i [] = none
find_by_id i (p ∷ ps) = let rest = find_by_id i ps in if text_eq (id p) i then some p else rest

-- `presetById`
unfoldable pub preset_by_id : Text → Option Preset
unfolding find_by_id id text_eq
preset_by_id i = find_by_id i presets

-- `new Set(…).has`
unfoldable pub has : List Text → Text → Bool
unfolding text_eq
has [] t = false
has (x ∷ xs) t = text_eq x t || has xs t

-- `parseDetect`: for each tool of `TOOLS`, whether a trimmed line of the output is its name.
unfoldable pub parse_detect : Text → Preset → Bool
unfolding has id split_at trim
parse_detect text p = has (map trim (split_at b'\n' text)) (id p)
