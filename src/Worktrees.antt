-- ===== src/Worktrees.antt =====
-- internal/gitwt/gitwt.go (`ListLinked`) and internal/daemon/worktree.go: the git worktrees of an app on disk.
-- What is on disk is a record of functions, with the output of git among them.
pub mod Porcelain
pub mod Found
pub mod RoundTrip
mod Tests
use local_vibe.Base.{
  ℕ, Bool, true, false, not, ◌&&◌, ◌||◌, Option, none, some, Result, ok, err, List, [], ◌∷◌, ◌++◌,
  Text, codes, if◌then◌else◌, ◌==◌, ltb, text_eq, is_some, cut_prefix, split, push, trim_right,
  trim_space, sort_by, lookup, length, map,
}
use local_vibe.Config.{DaemonConfig}
use local_vibe.Names.{slugify}
use local_vibe.Routes.{Route, RouteTable, get, list, is_managed, update_managed_config}
use local_vibe.Ports.{
  Claim, BridgeError, ReserveError, validate_reserve_ports, validate_oauth_bridge_config,
  reserve_ports_claim,
}
use local_vibe.Bridge.{reconcile_oauth_bridge_listeners}
use local_vibe.Store.{save_sticky_routes}
use local_vibe.Handlers.{Daemon, Surroundings, or_else}

pub record Worktree : Type 0 where
  pub path : Text
  pub branch : Text

-- What `os.Stat` says of a path.
pub data Stat : Type 0 where
  a_directory a_file missing unknown : Stat

pub record Disk : Type 0 where
  pub stat_git : Text → Stat
  pub worktree_entries : Text → Option ℕ
  pub git_worktree_list : Text → Option Text
  pub realpath : Text → Text
  pub container_readable : Text → Bool

-- `strings.Split(s, "\n\n")`, for a doubled byte.
abbrev pub split_double : ℕ → Text → List Text
split_double sep [] = [] ∷ []
split_double sep (c ∷ []) = (c ∷ []) ∷ []
split_double sep (c ∷ d ∷ s) =
    let skip = split_double sep s in
    let keep = split_double sep (d ∷ s) in if c == sep && d == sep then [] ∷ skip else push c keep

-- One line of a block.
pub read_line : Text → Worktree → Worktree
read_line line w = elim (cut_prefix line (codes "worktree ")) [
  | some path ↦ record w { path = path }
  | none ↦ elim (cut_prefix line (codes "branch refs/heads/")) [
    | some branch ↦ record w { branch = branch }
    | none ↦ w
  ]
]

pub read_lines : List Text → Worktree → Worktree
read_lines [] w = w
read_lines (line ∷ lines) w = read_lines lines (read_line line w)

pub read_block : Text → Worktree
read_block block = read_lines (split block b'\n') (record { path = []; branch = [] })

pub read_blocks : List Text → List Worktree
read_blocks [] = []
read_blocks (block ∷ blocks) =
    let rest = read_blocks blocks in
    let w = read_block block in if text_eq w.path [] then rest else w ∷ rest

-- All but the main checkout, which git lists first.
abbrev pub linked : List Worktree → List Worktree
linked [] = []
linked (main ∷ rest) = rest

pub parse_worktree_list : Text → List Worktree
parse_worktree_list out = linked (read_blocks (split_double b'\n' (trim_space out)))

pub may_have_linked_worktrees : Disk → Text → Bool
may_have_linked_worktrees disk dir = elim (disk.stat_git dir) [
  | Stat.a_directory ↦ elim (disk.worktree_entries dir) [ none ↦ false | some n ↦ not (n == 0) ]
  | _ ↦ true
]

-- none is the error of git.
pub list_linked : Disk → Text → Option (List Worktree)
list_linked disk dir =
    if not (may_have_linked_worktrees disk dir)
    then some []
    else elim (disk.git_worktree_list dir) [
      | none ↦ none
      | some out ↦ some (parse_worktree_list out)
    ]

-- A worktree is gone if its `.git` is missing while the directory that contains it can be read.
pub dir_is_gone_worktree : Disk → Text → Bool
dir_is_gone_worktree disk dir = elim (disk.stat_git dir) [
  | Stat.missing ↦ disk.container_readable dir
  | _ ↦ false
]

pub record DiscoveredWorktree : Type 0 where
  pub path : Text
  pub branch : Text
  pub slug : Text

-- The text after the last slash.
abbrev pub after_slash : Text → Text → Text
after_slash seen [] = seen
after_slash seen (c ∷ s) = if c == b'/' then after_slash s s else after_slash seen s

-- `filepath.Base`, of a path that is not empty.
abbrev pub base_name : Text → Text
base_name path =
    let stripped = trim_right (λ c. c == b'/') path in
    if text_eq stripped [] then b'/' ∷ [] else after_slash stripped stripped

pub slug_of : Worktree → Text
slug_of w = if text_eq (slugify w.branch) [] then slugify (base_name w.path) else slugify w.branch

-- Whether a route is a child of the app with the directory.
pub is_registered : Disk → Text → Text → List Route → Bool
is_registered disk app dir [] = false
is_registered disk app dir (r ∷ rs) =
    text_eq r.parent app
      && (not (text_eq r.dir []) && text_eq (disk.realpath r.dir) (disk.realpath dir))
    || is_registered disk app dir rs

abbrev pub is_named : Text → List Route → Bool
is_named n [] = false
is_named n (r ∷ rs) = text_eq r.name n || is_named n rs

abbrev pub child_name : Text → Text → Text
child_name slug app = slug ++ b'.' ∷ app

pub unregistered : Disk → Text → List Route → List Worktree → List DiscoveredWorktree
unregistered disk app rs [] = []
unregistered disk app rs (w ∷ ws) =
    let rest = unregistered disk app rs ws in
    let slug = slug_of w in
    if is_registered disk app w.path rs
    then rest
    else if text_eq slug [] || is_named (child_name slug app) rs
    then rest
    else record { path = w.path; branch = w.branch; slug = slug } ∷ rest

pub discover_unregistered_worktrees : Disk → RouteTable → Route → List DiscoveredWorktree
discover_unregistered_worktrees disk table route =
    if not (is_managed route.type) || (text_eq route.dir [] || not (text_eq route.parent []))
    then []
    else elim (list_linked disk route.dir) [
      | none ↦ []
      | some ws ↦
          sort_by (λ (w : DiscoveredWorktree). w.slug)
            (unregistered disk route.name (list table) ws)
    ]
