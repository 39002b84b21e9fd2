-- ===== src/AuthorizedKeys.antt =====
-- Installing an `authorized_keys` line: `cleanComment` and `installCommand` of
-- site/authorized-keys.mjs, as functions on code units.
pub mod Runs
pub mod Comment
pub mod Quoting
mod Tests
use wosh.Prelude.{
  ℕ, Bool, true, false, ◌||◌, not, List, [], ◌∷◌, ◌++◌, Option, none, some, take, get_elem?,
  if◌then◌else◌, ◌==◌, Text, codes, is_word, is_space, trim_start, trim_end, split_runs, join,
}

-- The characters that `cleanComment` keeps: the complement of `[^\w.@+ -]`.
unfoldable pub is_comment : ℕ → Bool
unfolding is_word
is_comment c = is_word c || c == b'.' || c == b'@' || c == b'+' || c == b' ' || c == b'-'

-- The class `[-\s]`
unfoldable pub is_edge : ℕ → Bool
unfolding is_space
is_edge c = c == b'-' || is_space c

-- `replace(/[..]+/g, r)` for a class `p`: every maximal run becomes one `r`. The flag says that
-- the character before was in the run.
unfoldable pub replace_runs : (ℕ → Bool) → ℕ → Bool → Text → Text
replace_runs p r within [] = []
replace_runs p r within (c ∷ s) =
    let rest = replace_runs p r (p c) s in
    if p c then (if within then rest else r ∷ rest) else c ∷ rest

-- `cleanComment`; a missing argument is the empty string.
unfoldable pub clean_comment : Option Text → Text
unfolding is_comment is_edge replace_runs trim_start trim_end
clean_comment none = []
clean_comment (some s) =
    let dashed = replace_runs (λ c. not (is_comment c)) b'-' false s in
    let spaced = replace_runs is_space b' ' false dashed in
    let trimmed = trim_end is_edge (trim_start is_edge spaced) in trim_end is_edge (take 64 trimmed)

-- `line.split(/\s+/)[1] ?? ""`: the key material
unfoldable pub blob : Text → Text
blob line = elim (get_elem? (split_runs is_space [] false line) 1) [ none ↦ [] | some b ↦ b ]

unfoldable pub install_command : Text → Text
unfolding join
install_command line = join (codes "; ") (
    codes "cd || exit 1"
    ∷ codes "umask 077"
    ∷ codes "mkdir -p .ssh || exit 1"
    ∷ (codes "if grep -qsF '"
        ++ (blob line ++ codes "' .ssh/authorized_keys; then echo WOSH_ALREADY; exit 0; fi"))
    ∷ codes
        "{ [ -z \"$(tail -1c .ssh/authorized_keys 2>/dev/null)\" ] || echo >> .ssh/authorized_keys; } || exit 1"
    ∷ (codes "printf '%s\\n' '" ++ (line ++ codes "' >> .ssh/authorized_keys || exit 1"))
    ∷ codes
        "if command -v restorecon >/dev/null 2>&1; then restorecon -F .ssh .ssh/authorized_keys 2>/dev/null; fi"
    ∷ codes "echo WOSH_ADDED"
    ∷ [])
