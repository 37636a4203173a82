-- ===== src/Names/Parse.antt =====
-- What `parseRouteName` accepts, and its agreement with `worktreeParent`
-- (internal/daemon/worktree.go).
use local_vibe.Base.{
  true, false, ◌≡◌, ◌⊎◌, ◌↔◌, refl, sym, inl, inr, Option-cases, none, some, ok, ok_injective,
  err-ne-ok, List, [], ◌∷◌, ◌++◌, Text, arith, text_eq, split, join, join-split, split_whole,
  split_first, lacks, if◌then◌else◌,
}
use local_vibe.Names.{
  valid_tail, valid_name, local_name, check_labels, parse_parts, parse_route_name, worktree_parent,
}

valid_tail-lacks : (s : Text) → valid_tail s ≡ true → lacks b'.' s ≡ true
valid_tail-lacks [] h = refl
valid_tail-lacks (c ∷ []) h = ground arith
valid_tail-lacks (c ∷ d ∷ s) h = ground (arith, valid_tail-lacks (d ∷ s))

-- A valid label has no dot.
pub valid_name-lacks : (s : Text) → valid_name s ≡ true → lacks b'.' s ≡ true
valid_name-lacks [] h = refl
valid_name-lacks (c ∷ s) h = ground (arith, valid_tail-lacks s)

-- A label that a worktree name may have.
pub record IsPart (p : Text) : Type 0 where
  pub valid : valid_name p ≡ true
  pub not_local : text_eq p local_name ≡ false

check_labels_iff : (a b : Text) → (check_labels (a ∷ b ∷ []) ≡ none) ↔ (IsPart a × IsPart b)
unfolding check_labels
check_labels_iff a b = (
  λ h. (
    record { valid = ground arith; not_local = ground arith },
    record { valid = ground arith; not_local = ground arith },
  ),
  λ h. ground arith,
)

-- What a route name is: one valid label, or a worktree label, a dot and the parent's label.
abbrev pub IsRouteName : Text → Text → Type 0
IsRouteName name parent =
    ((parent ≡ []) × (valid_name name ≡ true))
    ⊎ ((a : Text) × (name ≡ a ++ b'.' ∷ parent) × IsPart a × IsPart parent)

parts_sound :
    (name parent : Text) (parts : List Text)
    → join parts b'.' ≡ name
    → parse_parts name parts ≡ ok parent
    → IsRouteName name parent
parts_sound name parent [] j h = absurd (cc)
parts_sound name parent (a ∷ []) j h = inl (ground arith)
parts_sound name parent (a ∷ b ∷ []) j h = elim (Option-cases (check_labels (a ∷ b ∷ []))) [
  | inl e ↦
      let same : b ≡ parent = ok_injective (rw (e, parse_parts) at h) in
      let (pa, pb) = (check_labels_iff a b).0 e in inr (a, rw (← same) (sym j), pa, rw (← same) pb)
  | inr (x, e) ↦ absurd (err-ne-ok (rw (e, parse_parts) at h))
]
parts_sound name parent (a ∷ b ∷ c ∷ ps) j h = absurd (cc)

-- A name is accepted with a parent exactly if it is a route name with that parent.
pub parse_route_name_iff :
    (name parent : Text) → (parse_route_name name ≡ ok parent) ↔ IsRouteName name parent
unfolding parse_route_name
parse_route_name_iff name parent = (
  parts_sound name parent (split name b'.') (join-split name b'.'),
  λ h. elim h [
    | inl (top, v) ↦ rw (split_whole name b'.' (valid_name-lacks name v), top) (rw v refl)
    | inr (a, e, pa, pb) ↦
        rw
          (
            e,
            split_first a parent b'.' (valid_name-lacks a pa.valid),
            split_whole parent b'.' (valid_name-lacks parent pb.valid),
            (check_labels_iff a parent).1 (pa, pb),
            parse_parts,
          )
          refl
  ],
)

nonempty : (s : Text) → valid_name s ≡ true → text_eq s [] ≡ false
nonempty [] h = absurd (cc)
nonempty (c ∷ s) h = refl

-- `worktreeParent` gives the parent that `parseRouteName` found, and none for a single label.
pub worktree_parent-parse_route_name :
    (name parent : Text)
    → parse_route_name name ≡ ok parent
    → worktree_parent name ≡ (if text_eq parent [] then none else some parent)
unfolding worktree_parent
worktree_parent-parse_route_name name parent h = elim ((parse_route_name_iff name parent).0 h) [
  | inl (top, v) ↦ rw (split_whole name b'.' (valid_name-lacks name v), top) refl
  | inr (a, e, pa, pb) ↦
      rw
        (
          e,
          split_first a parent b'.' (valid_name-lacks a pa.valid),
          split_whole parent b'.' (valid_name-lacks parent pb.valid),
          nonempty a pa.valid,
          nonempty parent pb.valid,
        )
        refl
]
