-- ===== src/Names/Slug.antt =====
-- What `Slugify` (internal/gitwt/gitwt.go) and `SanitizeName` (internal/peer/pairing.go) return is a
-- DNS label.
use local_vibe.Base.{
  ℕ, Bool, true, false, not, ◌||◌, ◌≡◌, ◌⊎◌, refl, inl, inr, Bool-cases, [], ◌∷◌, ◌++◌, Text, codes,
  arith, to_lower, All, trim, trim_left, trim_right, trim_prefix, trim_suffix, cut_prefix,
  cut_prefix_sound, Option-cases, if◌then◌else◌,
}
use local_vibe.Names.{
  is_alnum, is_dash, valid_tail, valid_name, strip_runs, slugify, sanitize_loop, or_peer,
  sanitize_name,
}

-- The bytes of a label.
abbrev IsLabelByte : ℕ → Type 0
IsLabelByte c = (is_alnum c || is_dash c) ≡ true

-- What `strip_runs` does with a byte that is no letter or digit.
after_run :
    (inside : Bool) (r : Text)
    → All IsLabelByte r
    → All IsLabelByte (if inside then r else b'-' ∷ r)
after_run true r h = h
after_run false r h = (refl, h)

strip_runs-All : (inside : Bool) (s : Text) → All IsLabelByte (strip_runs inside s)
unfolding strip_runs
strip_runs-All inside [] = tt
strip_runs-All inside (c ∷ s) = elim (Bool-cases (is_alnum c)) [
  | inl e ↦ rw e (rw e refl, strip_runs-All false s)
  | inr e ↦ rw e (after_run inside (strip_runs true s) (strip_runs-All true s))
]

after_dash :
    (prev : Bool) (r : Text)
    → All IsLabelByte r
    → All IsLabelByte (if not prev then b'-' ∷ r else r)
after_dash true r h = h
after_dash false r h = (refl, h)

sanitize_loop-All : (prev : Bool) (s : Text) → All IsLabelByte (sanitize_loop prev s)
unfolding sanitize_loop
sanitize_loop-All prev [] = tt
sanitize_loop-All prev (c ∷ s) = elim (Bool-cases (is_alnum c)) [
  | inl e ↦ rw e (rw e refl, sanitize_loop-All false s)
  | inr e ↦ rw e (after_dash prev (sanitize_loop true s) (sanitize_loop-All true s))
]

trim_left-All : (s : Text) → All IsLabelByte s → All IsLabelByte (trim_left is_dash s)
trim_left-All [] h = tt
trim_left-All (c ∷ s) (p, h) = elim (Bool-cases (is_dash c)) [
  | inl e ↦ rw e (trim_left-All s h)
  | inr e ↦ rw e (p, h)
]

-- Trimmed on the right, label bytes end in a letter or digit.
trim_right_tail : (s : Text) → All IsLabelByte s → valid_tail (trim_right is_dash s) ≡ true
trim_right_tail [] h = refl
trim_right_tail (c ∷ s) (p, h) = step c (trim_right is_dash s) p (trim_right_tail s h)
  where
    step :
        (c : ℕ) (r : Text)
        → IsLabelByte c
        → valid_tail r ≡ true
        → valid_tail (elim r [ [] ↦ if is_dash c then [] else c ∷ [] | d ∷ t ↦ c ∷ d ∷ t ]) ≡ true
    step c [] p v = ground arith
    step c (d ∷ r) p v = ground arith

trim_right-cons :
    (c : ℕ) (s : Text) → is_dash c ≡ false → trim_right is_dash (c ∷ s) ≡ c ∷ trim_right is_dash s
trim_right-cons c s e = step c (trim_right is_dash s) e
  where
    step :
        (c : ℕ) (r : Text)
        → is_dash c ≡ false
        → elim r [ [] ↦ if is_dash c then [] else c ∷ [] | d ∷ t ↦ c ∷ d ∷ t ] ≡ c ∷ r
    step c [] e = rw e refl
    step c (d ∷ r) e = refl

-- Label bytes that are trimmed on both sides are nothing or a label.
trim_valid :
    (s : Text) → All IsLabelByte s → (trim is_dash s ≡ []) ⊎ (valid_name (trim is_dash s) ≡ true)
trim_valid [] h = inl refl
trim_valid (c ∷ s) (p, h) = elim (Bool-cases (is_dash c)) [
  | inl e ↦ rw e (trim_valid s h)
  | inr e ↦ inr (rw e (rw (trim_right-cons c s e) (ground (arith, trim_right_tail s h))))
]

All-suffix : (p r s : Text) → s ≡ p ++ r → All IsLabelByte s → All IsLabelByte r
All-suffix [] r s e h = rw e at h
All-suffix (c ∷ p) r [] e h = absurd (cc)
All-suffix (c ∷ p) r (d ∷ s) e h = All-suffix p r s (cc) h.1

trim_prefix-All : (s p : Text) → All IsLabelByte s → All IsLabelByte (trim_prefix s p)
trim_prefix-All s p h = elim (Option-cases (cut_prefix s p)) [
  | inl e ↦ rw (e, trim_prefix) h
  | inr (r, e) ↦ rw (e, trim_prefix) (All-suffix p r s (cut_prefix_sound s p r e) h)
]

trim_right-All : (s : Text) → All IsLabelByte s → All IsLabelByte (trim_right is_dash s)
trim_right-All [] h = tt
trim_right-All (c ∷ s) (p, h) = step c (trim_right is_dash s) p (trim_right-All s h)
  where
    step :
        (c : ℕ) (r : Text)
        → IsLabelByte c
        → All IsLabelByte r
        → All IsLabelByte (elim r [ [] ↦ if is_dash c then [] else c ∷ [] | d ∷ t ↦ c ∷ d ∷ t ])
    step c [] p v = elim (Bool-cases (is_dash c)) [ inl e ↦ rw e tt | inr e ↦ rw e (p, tt) ]
    step c (d ∷ r) p v = (p, v)

-- A slug is empty or a valid route name, for every branch or directory name.
pub slugify_valid : (s : Text) → (slugify s ≡ []) ⊎ (valid_name (slugify s) ≡ true)
unfolding slugify
slugify_valid s =
    let stripped = strip_runs false (to_lower s) in
    let trimmed = trim is_dash stripped in
    trim_valid (trim_prefix trimmed (codes "worktree-")) (
      trim_prefix-All trimmed (codes "worktree-") (
        trim_right-All (trim_left is_dash stripped)
          (trim_left-All stripped (strip_runs-All false (to_lower s)))))

or_peer_valid : (t : Text) → (t ≡ []) ⊎ (valid_name t ≡ true) → valid_name (or_peer t) ≡ true
or_peer_valid t (inl e) = rw e refl
or_peer_valid [] (inr e) = absurd (cc)
or_peer_valid (c ∷ t) (inr e) = e

-- A peer name is always a valid route name, whatever the hostname.
pub sanitize_name_valid : (host : Text) → valid_name (sanitize_name host) ≡ true
unfolding sanitize_name
sanitize_name_valid host =
    let h = trim_suffix (to_lower host) (codes ".local") in
    or_peer_valid (trim is_dash (sanitize_loop true h))
      (trim_valid (sanitize_loop true h) (sanitize_loop-All true h))
