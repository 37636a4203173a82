-- ===== src/Names.antt =====
-- Names of routes, worktrees and peers: `validName` (internal/daemon/api.go), `parseRouteName` and
-- `worktreeParent` (internal/daemon/worktree.go), `Slugify` (internal/gitwt/gitwt.go) and
-- `SanitizeName` (internal/peer/pairing.go). The regular expressions are written out as functions
-- on the bytes of a text.
pub mod Parse
pub mod Slug
mod Tests
use local_vibe.Base.{
  ℕ, Bool, true, false, not, ◌&&◌, ◌||◌, Option, none, some, Result, ok, err, List, [], ◌∷◌, Text,
  codes, leb, ◌==◌, if◌then◌else◌, text_eq, to_lower, split, trim, trim_prefix, trim_suffix,
}

abbrev pub is_alnum : ℕ → Bool
is_alnum c = leb b'a' c && leb c b'z' || leb b'0' c && leb c b'9'

abbrev pub is_dash : ℕ → Bool
is_dash c = c == b'-'

-- [a-z0-9-]*[a-z0-9], or nothing.
abbrev pub valid_tail : Text → Bool
valid_tail [] = true
valid_tail (c ∷ []) = is_alnum c
valid_tail (c ∷ d ∷ s) = (is_alnum c || is_dash c) && valid_tail (d ∷ s)

-- ^[a-z0-9][a-z0-9-]*[a-z0-9]$|^[a-z0-9]$
abbrev pub valid_name : Text → Bool
valid_name [] = false
valid_name (c ∷ s) = is_alnum c && valid_tail s

abbrev pub local_name : Text
local_name = codes "local"

pub data NameError : Type 0 where
  bad_name bad_label reserved too_deep : NameError

-- The `for` loop over the two labels of a dotted name.
unfoldable pub check_labels : List Text → Option NameError
check_labels [] = none
check_labels (p ∷ ps) =
    let rest = check_labels ps in
    if not (valid_name p)
    then some bad_label
    else if text_eq p local_name
    then some reserved
    else rest

abbrev pub parse_parts : Text → List Text → Result NameError Text
parse_parts name (a ∷ []) = if not (valid_name name) then err bad_name else ok []
parse_parts name (a ∷ b ∷ []) = elim (check_labels (a ∷ b ∷ [])) [ none ↦ ok b | some e ↦ err e ]
parse_parts name _ = err too_deep

-- The parent of a worktree name; the empty text for a single label.
unfoldable pub parse_route_name : Text → Result NameError Text
unfolding check_labels
parse_route_name name = parse_parts name (split name b'.')

abbrev pub parent_of_parts : List Text → Option Text
parent_of_parts (a ∷ b ∷ []) = if text_eq a [] || text_eq b [] then none else some b
parent_of_parts _ = none

pub worktree_parent : Text → Option Text
worktree_parent name = parent_of_parts (split name b'.')

-- [^a-z0-9]+ replaced by one hyphen. The flag says that a run is being passed.
unfoldable pub strip_runs : Bool → Text → Text
strip_runs inside [] = []
strip_runs inside (c ∷ s) =
    let kept = c ∷ strip_runs false s in
    let dropped = strip_runs true s in
    if is_alnum c then kept else if inside then dropped else b'-' ∷ dropped

unfoldable pub slugify : Text → Text
slugify s =
    trim is_dash (trim_prefix (trim is_dash (strip_runs false (to_lower s))) (codes "worktree-"))

-- The loop of `SanitizeName`, with its `prevDash`.
pub sanitize_loop : Bool → Text → Text
sanitize_loop prev_dash [] = []
sanitize_loop prev_dash (c ∷ s) =
    let kept = c ∷ sanitize_loop false s in
    let dropped = sanitize_loop true s in
    if is_alnum c then kept else if not prev_dash then b'-' ∷ dropped else dropped

abbrev pub or_peer : Text → Text
or_peer out = if text_eq out [] then codes "peer" else out

pub sanitize_name : Text → Text
sanitize_name host =
    or_peer (trim is_dash (sanitize_loop true (trim_suffix (to_lower host) (codes ".local"))))
