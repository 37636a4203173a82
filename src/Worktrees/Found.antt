-- ===== src/Worktrees/Found.antt =====
-- Which worktrees are offered (`discoverUnregisteredWorktrees`), and when one counts as gone.
use local_vibe.Base.{
  true, false, not, ◌||◌, ◌≡◌, ◌⊎◌, refl, inl, inr, Bool-cases, Option-cases, List, [], ◌∷◌, Text,
  arith, text_eq, text_eq_iff, trim_space, some, All, sort_by-All,
}
use local_vibe.Names.{slugify, valid_name}
use local_vibe.Names.Slug.{slugify_valid}
use local_vibe.Routes.{Route, RouteTable, list, is_managed}
use local_vibe.Worktrees.{
  Disk, Worktree, DiscoveredWorktree, slug_of, is_registered, is_named, child_name, unregistered,
  list_linked, discover_unregistered_worktrees, base_name, read_block, read_blocks, linked,
  split_double, may_have_linked_worktrees, parse_worktree_list,
}

-- A worktree that may be offered: not yet a child of the app, with a valid label that makes a free name.
abbrev pub IsOffered : Disk → Text → List Route → DiscoveredWorktree → Type 0
IsOffered disk app rs w =
    (is_registered disk app w.path rs ≡ false)
    × (valid_name w.slug ≡ true)
    × (is_named (child_name w.slug app) rs ≡ false)

-- One of the blocks is that of the worktree.
abbrev pub IsBlockOf : Worktree → List Text → Type 0
IsBlockOf w [] = ⊥
IsBlockOf w (b ∷ bs) = (read_block b ≡ w) ⊎ IsBlockOf w bs

abbrev pub all_but_first : List Text → List Text
all_but_first [] = []
all_but_first (b ∷ bs) = bs

-- A linked worktree of a directory: git lists it there, in a block which is not the first, that of the main checkout.
abbrev pub IsLinked : Disk → Text → Worktree → Type 0
IsLinked disk dir w =
    (out : Text) × (disk.git_worktree_list dir ≡ some out)
    × IsBlockOf w (all_but_first (split_double b'\n' (trim_space out)))

read_blocks-All :
    (P : Worktree → Type 0) (bs : List Text)
    → ((b : Text) → IsBlockOf (read_block b) bs → P (read_block b))
    → All P (read_blocks bs)
unfolding read_blocks
read_blocks-All P [] h = tt
read_blocks-All P (b ∷ bs) h =
    let rest = read_blocks-All P bs (λ c k. h c (inr k)) in
    elim (Bool-cases (text_eq (read_block b).path [])) [
      | inl e ↦ rw (e, read_blocks) rest
      | inr e ↦ rw (e, read_blocks) (h b (inl refl), rest)
    ]

linked-All : (P : Worktree → Type 0) (ws : List Worktree) → All P ws → All P (linked ws)
linked-All P [] h = tt
linked-All P (w ∷ ws) (h, hs) = hs

-- The first block is dropped, as that of the main checkout or as one without a path.
linked_blocks :
    (P : Worktree → Type 0) (bs : List Text)
    → ((b : Text) → IsBlockOf (read_block b) (all_but_first bs) → P (read_block b))
    → All P (linked (read_blocks bs))
unfolding read_blocks
linked_blocks P [] h = tt
linked_blocks P (b ∷ bs) h =
    let rest = read_blocks-All P bs h in
    elim (Bool-cases (text_eq (read_block b).path [])) [
      | inl e ↦ rw (e, read_blocks) (linked-All P (read_blocks bs) rest)
      | inr e ↦ rw (e, read_blocks) rest
    ]

list_linked-IsLinked :
    (disk : Disk) (dir : Text) (ws : List Worktree)
    → list_linked disk dir ≡ some ws
    → All (IsLinked disk dir) ws
unfolding list_linked parse_worktree_list
list_linked-IsLinked disk dir ws h = elim (Bool-cases (may_have_linked_worktrees disk dir)) [
  | inr a ↦ let same : [] ≡ ws = cc (rw (list_linked, a) at h) in rw (← same) tt
  | inl a ↦ elim (Option-cases (disk.git_worktree_list dir)) [
    | inl b ↦ absurd (cc (rw (list_linked, a, b) at h))
    | inr (out, b) ↦
        let blocks = split_double b'\n' (trim_space out) in
        let same : parse_worktree_list out ≡ ws = cc (rw (list_linked, a, b) at h) in
        rw (← same) (linked_blocks (IsLinked disk dir) blocks (λ c k. (out, b, k)))
  ]
]

-- The worktree of a discovered one.
abbrev pub listed_as : DiscoveredWorktree → Worktree
listed_as w = record { path = w.path; branch = w.branch }

slug_of_valid : (w : Worktree) → text_eq (slug_of w) [] ≡ false → valid_name (slug_of w) ≡ true
unfolding slug_of
slug_of_valid w h = elim (Bool-cases (text_eq (slugify w.branch) [])) [
  | inl e ↦ rw (e, slug_of) (fitting (base_name w.path) (rw (slug_of, e) at h))
  | inr e ↦ rw (e, slug_of) (fitting w.branch e)
]
  where
    fitting : (s : Text) → text_eq (slugify s) [] ≡ false → valid_name (slugify s) ≡ true
    fitting s k = elim (slugify_valid s) [
      | inl empty ↦ absurd (cc ((text_eq_iff (slugify s) []).1 empty))
      | inr valid ↦ valid
    ]

unregistered-IsOffered :
    (disk : Disk) (app dir : Text) (rs : List Route) (ws : List Worktree)
    → All (IsLinked disk dir) ws
    → All
        (λ w. IsOffered disk app rs w × IsLinked disk dir (listed_as w))
        (unregistered disk app rs ws)
unfolding unregistered
unregistered-IsOffered disk app dir rs [] h = tt
unregistered-IsOffered disk app dir rs (w ∷ ws) (h, hs) =
    let rest = unregistered-IsOffered disk app dir rs ws hs in
    elim (Bool-cases (is_registered disk app w.path rs)) [
      | inl a ↦ rw (a, unregistered) rest
      | inr a ↦ elim (Bool-cases (text_eq (slug_of w) [])) [
        | inl b ↦ rw (a, unregistered, b) rest
        | inr b ↦ elim (Bool-cases (is_named (child_name (slug_of w) app) rs)) [
          | inl c ↦ rw (a, unregistered, b, c) rest
          | inr c ↦ rw (a, unregistered, b, c) (((a, slug_of_valid w b, c), h), rest)
        ]
      ]
    ]

-- What the picker offers for an app are worktrees that git lists in the app's directory, without the main checkout, and
-- that are not yet its routes, each under a label that is a valid name
-- and that gives a name which no route has. Nothing is offered for a route that is not a managed app with a directory,
-- or that is itself a worktree's.
pub discover_unregistered_worktrees_sound :
    (disk : Disk) (table : RouteTable) (route : Route)
    → let found = discover_unregistered_worktrees disk table route in
      All
        (λ w. IsOffered disk route.name (list table) w × IsLinked disk route.dir (listed_as w))
        found
      × (is_managed route.type ≡ false
            ⊎ text_eq route.dir [] ≡ true
            ⊎ text_eq route.parent [] ≡ false
          → found ≡ [])
unfolding discover_unregistered_worktrees
discover_unregistered_worktrees_sound disk table route =
    elim (Bool-cases
      (not (is_managed route.type) || (text_eq route.dir [] || not (text_eq route.parent [])))) [
        | inl a ↦ rw (a, discover_unregistered_worktrees) (tt, λ h. refl)
        | inr a ↦ elim (Option-cases (list_linked disk route.dir)) [
          | inl b ↦ rw (a, discover_unregistered_worktrees, b) (tt, λ h. refl)
          | inr (ws, b) ↦
              let offered =
                (sort_by-All (λ (w : DiscoveredWorktree). w.slug)
                    (λ w.
                      IsOffered disk route.name (list table) w
                      × IsLinked disk route.dir (listed_as w))
                    (unregistered disk route.name (list table) ws)).1
                  (unregistered-IsOffered disk route.name route.dir (list table) ws
                    (list_linked-IsLinked disk route.dir ws b)) in
              rw (a, discover_unregistered_worktrees, b) (offered, λ h. absurd (ground arith))
        ]
      ]
