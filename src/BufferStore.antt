-- ===== src/BufferStore.antt =====
-- The store of scrollback dumps: site/buffer-store.mjs. The order that IndexedDB keeps keys in is a
-- parameter.
pub mod Keeping
pub mod Newest
mod Tests
use wosh.Prelude.{
  ℕ, ◌+◌, Bool, true, false, ◌||◌, not, List, [], ◌∷◌, map, Option, none, some, if◌then◌else◌, leb,
  length, drop, Text, text_eq,
}

-- A record of the store; the page writes no other.
pub record Saved : Type 0 where
  pub buf : Text
  pub at : ℕ

abbrev pub cap : ℕ
cap = 8

-- The records in the order of their keys, `warned`, and how many warnings were printed.
pub record Store : Type 0 where
  pub entries : List (Text × Saved)
  pub warned : Bool
  pub warnings : ℕ

unfoldable pub degrade : Store → Store
degrade s = if s.warned then s else record s { warned = true; warnings = s.warnings + 1 }

unfoldable pub find : Text → List (Text × Saved) → Option Saved
unfolding text_eq
find k [] = none
find k ((j, v) ∷ es) = let rest = find k es in if text_eq j k then some v else rest

-- Where the database fails, if it does: at opening it, or in a transaction.
pub data Fault : Type 0 where
  no_fault opening writing reading deleting : Fault

-- `get`
unfoldable pub get : Fault → Text → Store → Option Saved × Store
unfolding find degrade
get no_fault k s = (find k s.entries, s)
get opening k s = (none, degrade s)
get writing k s = (find k s.entries, s)
get reading k s = (none, degrade s)
get deleting k s = (find k s.entries, s)

unfoldable pub has_key : Text → List (Text × Saved) → Bool
unfolding text_eq
has_key k [] = false
has_key k ((j, v) ∷ es) = text_eq j k || has_key k es

unfoldable pub replace : Text → Saved → List (Text × Saved) → List (Text × Saved)
unfolding text_eq
replace k v [] = []
replace k v ((j, w) ∷ es) =
    let rest = replace k v es in if text_eq j k then (k, v) ∷ es else (j, w) ∷ rest

unfoldable pub add : (Text → Text → Bool) → Text → Saved → List (Text × Saved) → List (Text × Saved)
add before k v [] = (k, v) ∷ []
add before k v ((j, w) ∷ es) =
    let rest = add before k v es in if before k j then (k, v) ∷ (j, w) ∷ es else (j, w) ∷ rest

-- `store.put`: the record under the key, or a new one at its place
unfoldable pub insert :
    (Text → Text → Bool) → Text → Saved → List (Text × Saved) → List (Text × Saved)
unfolding has_key replace add
insert before k v es = if has_key k es then replace k v es else add before k v es

-- `sort((a, b) => b.at - a.at)`, which is stable
unfoldable pub insert_by_at : Text × Saved → List (Text × Saved) → List (Text × Saved)
insert_by_at e [] = e ∷ []
insert_by_at e (x ∷ xs) =
    let rest = insert_by_at e xs in if leb x.1.at e.1.at then e ∷ x ∷ xs else x ∷ rest

unfoldable pub newest_first : List (Text × Saved) → List (Text × Saved)
unfolding insert_by_at
newest_first [] = []
newest_first (e ∷ es) = insert_by_at e (newest_first es)

-- `store.delete` for each of some records
unfoldable pub delete_all : List (Text × Saved) → List (Text × Saved) → List (Text × Saved)
unfolding has_key
delete_all stale [] = []
delete_all stale ((j, v) ∷ es) =
    let rest = delete_all stale es in if has_key j stale then rest else (j, v) ∷ rest

abbrev pub stale : List (Text × Saved) → List (Text × Saved)
stale es = drop cap (newest_first es)

unfoldable pub prune : List (Text × Saved) → List (Text × Saved)
unfolding newest_first delete_all
prune es = if leb (length es) cap then es else delete_all (stale es) es

abbrev with_entries : List (Text × Saved) → Store → Store
with_entries es s = record s { entries = es }

-- `put`; the transaction that prunes is only made where there is something to delete.
unfoldable pub put : (Text → Text → Bool) → Fault → Text → Text → ℕ → Store → Store
unfolding degrade insert prune
put before no_fault k buf now s =
    with_entries (prune (insert before k (record { buf = buf; at = now }) s.entries)) s
put before opening k buf now s = degrade s
put before writing k buf now s = degrade s
put before reading k buf now s =
    degrade (with_entries (insert before k (record { buf = buf; at = now }) s.entries) s)
put before deleting k buf now s =
    let es = insert before k (record { buf = buf; at = now }) s.entries in
    if leb (length es) cap then with_entries es s else degrade (with_entries es s)

-- `wipe`
unfoldable pub wipe : Fault → Store → Store
unfolding degrade
wipe no_fault s = with_entries [] s
wipe opening s = degrade s
wipe writing s = degrade s
wipe reading s = with_entries [] s
wipe deleting s = with_entries [] s
