-- ===== src/App/Scrollback.antt =====
-- Whose content the terminal shows, and which dumps are saved and restored: `claimTerminal`,
-- `restoreScrollback`, `dumpWorthSaving` and `saveScrollback` of site/app.mjs. A persistence key is
-- a text, `none` a session that persists nothing.
pub mod Filing
use wosh.Prelude.{
  ℕ, ◌+◌, Bool, true, false, ◌||◌, ◌&&◌, not, List, [], ◌∷◌, ◌++◌, Option, none, some,
  if◌then◌else◌, ltb, leb, is_nil, length, Text, text_eq,
}

-- `key || UNKEYED`: an empty key is none.
unfoldable pub owner_key : Option Text → Option Text
owner_key none = none
owner_key (some []) = none
owner_key (some (c ∷ s)) = some (c ∷ s)

pub data Owner : Type 0 where
  unclaimed mixed : Owner
  owned : Option Text → Owner

unfoldable pub key_eq : Option Text → Option Text → Bool
unfolding text_eq
key_eq none none = true
key_eq (some a) (some b) = text_eq a b
key_eq none (some b) = false
key_eq (some a) none = false

unfoldable pub claim : Option Text → Owner → Owner
unfolding owner_key key_eq
claim key unclaimed = owned (owner_key key)
claim key (owned k) = if key_eq k (owner_key key) then owned k else mixed
claim key mixed = mixed

-- What the terminal shows, as the keys of the sessions that its content came from, and the page's
-- variables: `terminalOwner`, `everPainted`, `restored`, `dirtySincePersist`. `saves` is what
-- `bufferStore.put` was given, newest first, with the content of the screen at that moment;
-- `alternate` says whether the alternate screen is active.
pub record Page : Type 0 where
  pub owner : Owner
  pub ever_painted : Bool
  pub restored : Bool
  pub dirty : Bool
  pub alternate : Bool
  pub screen : List (Option Text)
  pub saves : List (Text × List (Option Text))

abbrev pub fresh : Page
fresh = record {
  owner = unclaimed;
  ever_painted = false;
  restored = false;
  dirty = false;
  alternate = false;
  screen = [];
  saves = [];
}

-- One round of the pump with output: the claim, then `paint`. Without output nothing happens.
unfoldable pub drain : Option Text → Bool → Page → Page
unfolding claim
drain key output p =
    if output
    then record p {
      owner = claim key p.owner;
      ever_painted = true;
      dirty = true;
      screen = owner_key key ∷ p.screen;
    }
    else p

-- `restoreScrollback` of a dump that was saved under the key, and whether it restored.
unfoldable pub restore : Text → Option Text → Page → Page × Bool
unfolding claim
restore dump key p = if p.ever_painted || p.restored || is_nil dump then (p, false) else (
  record p { restored = true; owner = claim key p.owner; screen = owner_key key ∷ p.screen },
  true,
)

unfoldable pub is_owned : Owner → Option Text → Bool
unfolding key_eq
is_owned (owned k) key = key_eq k key
is_owned unclaimed key = false
is_owned mixed key = false

-- `SCROLLBACK_SAVE_CAP`
abbrev pub save_cap : ℕ
save_cap = 786432

-- `saveScrollback`: `serialize` says whether the addon is there and how long its dump would be.
unfoldable pub save : Option Text → Option ℕ → Page → Page
unfolding is_owned owner_key
save key serialize p = elim (owner_key key) [
  | none ↦ p
  | some k ↦ elim serialize [
    | none ↦ p
    | some size ↦
        if not (is_owned p.owner (some k)) || p.alternate || ltb save_cap size
        then p
        else record p { saves = (k, p.screen) ∷ p.saves }
  ]
]

-- Everything that touches the screen or the store: a pump's rounds, a restore, the saves (at the
-- cadence of the pump, at the end of a session, when the page goes away), and the program in the
-- terminal switching screens.
pub data Event : Type 0 where
  drained : Option Text → Bool → Event
  restoring : Text → Option Text → Event
  saving : Option Text → Option ℕ → Event
  screen_switched : Bool → Event

unfoldable pub step : Page → Event → Page
unfolding drain restore save
step p (drained key output) = drain key output p
step p (restoring dump key) = (restore dump key p).0
step p (saving key serialize) = save key serialize p
step p (screen_switched alternate) = record p { alternate = alternate }

unfoldable pub run : Page → List Event → Page
unfolding step
run p [] = p
run p (e ∷ es) = run (step p e) es
