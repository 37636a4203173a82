-- ===== src/Worktrees/Tests.antt =====
-- Tests of the worktrees on disk, and their theorems at concrete repositories.
use local_vibe.Base.{
  true, false, ◌≡◌, ◌≢◌, ◌⊎◌, refl, some, [], ◌∷◌, map, Text, codes, if◌then◌else◌, text_eq,
  text_eq_iff, All,
}
use local_vibe.Names.{slugify, strip_runs}
use local_vibe.Routes.{list}
use local_vibe.Routes.Samples.{app, table}
use local_vibe.Worktrees.{
  Disk, a_directory, missing, read_line, read_lines, read_block, read_blocks, parse_worktree_list,
  list_linked, may_have_linked_worktrees, slug_of, is_registered, unregistered,
  discover_unregistered_worktrees,
}
use local_vibe.Worktrees.Found.{
  IsOffered, IsLinked, listed_as, discover_unregistered_worktrees_sound,
}
use local_vibe.Worktrees.RoundTrip.{
  Entry, IsEntry, porcelain, worktree_of, parse_worktree_list-porcelain,
}

abbrev main : Entry
main = record { path = codes "/src/app"; head = codes "c0ffee"; branch = codes "main" }

abbrev fix : Entry
fix = record {
  path = codes "/src/fix it";
  head = codes "beef";
  branch = codes "worktree-fix/Login";
}

false-ne-true : false ≢ true
false-ne-true h = cc

some_text : (s : Text) → text_eq s [] ≡ false → s ≢ []
some_text s h = λ e. absurd (cc ((text_eq_iff s []).1 e))

main-IsEntry : IsEntry main
main-IsEntry =
    (refl, refl, refl, some_text (codes "/src/app") refl, some_text (codes "main") refl, refl)

fix-IsEntry : IsEntry fix
fix-IsEntry = (
  refl,
  refl,
  refl,
  some_text (codes "/src/fix it") refl,
  some_text (codes "worktree-fix/Login") refl,
  refl,
)

parse_worktree_list-porcelain_example :
    parse_worktree_list (porcelain (main ∷ fix ∷ [])) ≡ map worktree_of (fix ∷ [])
parse_worktree_list-porcelain_example =
    parse_worktree_list-porcelain main (fix ∷ []) (main-IsEntry, (fix-IsEntry, tt))

-- A detached worktree has no branch line.
detached :
    parse_worktree_list
      (codes "worktree /a\nHEAD 12\nbranch refs/heads/main\n\nworktree /b\nHEAD 34\ndetached\n\n")
    ≡ record { path = codes "/b"; branch = [] } ∷ []
unfolding parse_worktree_list read_blocks read_block read_lines read_line
detached = refl

abbrev disk : Disk
disk = record {
  stat_git = λ dir. if text_eq dir (codes "/src/app") then a_directory else missing;
  worktree_entries = λ dir. some 1;
  git_worktree_list = λ dir. some (porcelain (main ∷ fix ∷ []));
  realpath = λ path. path;
  container_readable = λ dir. true;
}

discover_unregistered_worktrees_sound_example :
    let found = discover_unregistered_worktrees disk table app in
    All
      (λ w. IsOffered disk (codes "app") (list table) w × IsLinked disk app.dir (listed_as w))
      found
    × (true ≡ false ⊎ text_eq (codes "/src/app") [] ≡ true ⊎ text_eq [] [] ≡ false → found ≡ [])
discover_unregistered_worktrees_sound_example = discover_unregistered_worktrees_sound disk table app

-- The branch's name gives the label.
fix_offered :
    discover_unregistered_worktrees disk table app
    ≡ record {
      path = codes "/src/fix it";
      branch = codes "worktree-fix/Login";
      slug = codes "fix-login";
    }
      ∷ []
unfolding discover_unregistered_worktrees list_linked may_have_linked_worktrees parse_worktree_list
    read_blocks read_block read_lines read_line unregistered is_registered slug_of list slugify
    strip_runs
fix_offered = refl
