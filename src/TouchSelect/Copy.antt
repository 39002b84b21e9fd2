-- ===== src/TouchSelect/Copy.antt =====
-- Copying a held selection: `locate` and the handler of `copy`.
use wosh.Prelude.{
  ℕ, zero, suc, ◌-◌, ◌==◌, Bool, true, false, List, [], ◌∷◌, ◌++◌, Option, none, some,
  if◌then◌else◌, ltb, leb, min, length, take, drop, get_elem?, is_nil, Text, trim_end, is_space,
}
use wosh.TouchSelect.Anchor.{Row}

-- The node of a boundary point: the text of a row or of nothing that is mirrored, the sheet, the
-- layer, a row itself with the number of its children, or any other.
pub data Node : Type 0 where
  text_node : Option ℕ → Node
  sheet layer other : Node
  row_node : ℕ → ℕ → Node

pub record Place : Type 0 where
  pub row : ℕ
  pub offset : ℕ

abbrev pub text_length : List Row → ℕ → ℕ
text_length rows i = elim (get_elem? rows i) [ none ↦ 0 | some r ↦ length r.text ]

-- Of the sheet, where `n` counts rows.
unfoldable pub locate_row : List Row → ℕ → Bool → Place
locate_row rows n true =
    if min n (length rows) == 0
    then record { row = 0; offset = 0 }
    else let r = min n (length rows) - 1 in record { row = r; offset = text_length rows r }
locate_row rows n false = record { row = min n (length rows - 1); offset = 0 }

unfoldable pub locate_in : List Row → Node → ℕ → Bool → Option Place
unfolding locate_row
locate_in rows (text_node none) offset at_end = none
locate_in rows (text_node (some row)) offset at_end = some (record { row = row; offset = offset })
locate_in rows sheet offset at_end = some (locate_row rows offset at_end)
locate_in rows layer offset at_end =
    some (locate_row rows (if offset == 0 then 0 else length rows) at_end)
locate_in rows other offset at_end = none
locate_in rows (row_node row children) offset at_end =
    if offset == 0
    then some (record { row = row; offset = 0 })
    else if leb children offset
    then some (record { row = row; offset = text_length rows row })
    else none

unfoldable pub locate : List Row → Option Node → ℕ → Bool → Option Place
unfolding locate_in
locate rows none offset at_end = none
locate rows (some node) offset at_end =
    if is_nil rows then none else locate_in rows node offset at_end

-- `text.slice(from, to)`
abbrev pub slice : Text → ℕ → ℕ → Text
slice t from to = drop from (take to t)

-- The loop of the copy: the rows from the first on, how many more there are to the last, and where
-- the slice of the first row begins.
unfoldable pub copy_rows : List Row → ℕ → ℕ → ℕ → Text
unfolding trim_end
copy_rows [] n from to = []
copy_rows (r ∷ rows) zero from to = trim_end is_space (slice r.text from to)
copy_rows (r ∷ rows) (suc n) from to =
    let rest = copy_rows rows n 0 to in
    let part = slice r.text from (length r.text) in
    if r.join_next then part ++ rest else trim_end is_space part ++ 10 ∷ rest

-- The text that is put on the clipboard; `none` leaves the copy to the browser.
unfoldable pub copy_places : List Row → Option Place → Option Place → Option Text
unfolding copy_rows
copy_places rows none end = none
copy_places rows (some start) none = none
copy_places rows (some start) (some end) =
    if ltb end.row start.row
    then none
    else some (copy_rows (drop start.row rows) (end.row - start.row) start.offset end.offset)
