-- ===== src/Worktrees/Porcelain.antt =====
-- Reading git's list of worktrees back (`ListLinked`).
use local_vibe.Base.{
  ℕ, true, false, ◌≡◌, refl, List, [], ◌∷◌, ◌++◌, Text, arith, ◌==◌, lacks, split, split_first,
  split_whole, push,
}
use local_vibe.Worktrees.{split_double}

pub prepend : Text → List Text → List Text
prepend [] ps = ps
prepend (c ∷ s) ps = push c (prepend s ps)

prepend-cons : (s x : Text) (ps : List Text) → prepend s (x ∷ ps) ≡ (s ++ x) ∷ ps
unfolding prepend
prepend-cons [] x ps = refl
prepend-cons (c ∷ s) x ps = rw (prepend-cons s x ps) refl

-- A stretch without the separator is passed.
split_double-append :
    (sep : ℕ) (s t : Text)
    → lacks sep s ≡ true
    → split_double sep (s ++ t) ≡ prepend s (split_double sep t)
unfolding prepend
split_double-append sep [] t h = refl
split_double-append sep (c ∷ []) [] h = refl
split_double-append sep (c ∷ []) (d ∷ t) h = ground arith
split_double-append sep (c ∷ d ∷ s) t h =
    let rest = split_double-append sep (d ∷ s) t (ground arith) in
    let other : (c == sep) ≡ false = ground arith in rw (other, rest) refl

-- Three lines, of which the last two begin with another byte than the separator, and what follows.
abbrev pub lines : Text → ℕ → Text → ℕ → Text → Text → Text
lines a b s c t rest = a ++ (b'\n' ∷ b ∷ (s ++ (b'\n' ∷ c ∷ (t ++ rest))))

pub split_double-lines :
    (a : Text) (b : ℕ) (s : Text) (c : ℕ) (t rest : Text)
    → lacks b'\n' a ≡ true
    → lacks b'\n' (b ∷ s) ≡ true
    → lacks b'\n' (c ∷ t) ≡ true
    → split_double b'\n' (lines a b s c t rest)
      ≡ prepend a
          (push b'\n' (prepend (b ∷ s) (push b'\n' (prepend (c ∷ t) (split_double b'\n' rest)))))
split_double-lines a b s c t rest ha hb hc =
    let one = split_double-append b'\n' a (b'\n' ∷ b ∷ (s ++ (b'\n' ∷ c ∷ (t ++ rest)))) ha in
    let two = split_double-append b'\n' (b ∷ s) (b'\n' ∷ c ∷ (t ++ rest)) hb in
    let three = split_double-append b'\n' (c ∷ t) rest hc in
    let nb : (b == b'\n') ≡ false = ground arith in
    let nc : (c == b'\n') ≡ false = ground arith in rw (one, nb, two, nc, three) refl

-- The block that they make, before a list of further parts.
pub block-prepend :
    (a : Text) (b : ℕ) (s : Text) (c : ℕ) (t : Text) (ps : List Text)
    → prepend a (push b'\n' (prepend (b ∷ s) (push b'\n' (prepend (c ∷ t) ([] ∷ ps)))))
      ≡ lines a b s c t [] ∷ ps
block-prepend a b s c t ps =
    rw
      (
        prepend-cons (c ∷ t) [] ps,
        prepend-cons (b ∷ s) (b'\n' ∷ c ∷ (t ++ [])) ps,
        prepend-cons a (b'\n' ∷ b ∷ (s ++ (b'\n' ∷ c ∷ (t ++ [])))) ps,
      )
      refl

pub split-lines :
    (a : Text) (b : ℕ) (s : Text) (c : ℕ) (t : Text)
    → lacks b'\n' a ≡ true
    → lacks b'\n' (b ∷ s) ≡ true
    → lacks b'\n' (c ∷ t) ≡ true
    → split (lines a b s c t []) b'\n' ≡ a ∷ (b ∷ s) ∷ (c ∷ t) ∷ []
split-lines a b s c t ha hb hc =
    rw
      (
        split_first a (b ∷ (s ++ (b'\n' ∷ c ∷ (t ++ [])))) b'\n' ha,
        split_first (b ∷ s) (c ∷ (t ++ [])) b'\n' hb,
        append-nil t,
        split_whole (c ∷ t) b'\n' hc,
      )
      refl
  where
    append-nil : (t : Text) → t ++ [] ≡ t
    append-nil [] = refl
    append-nil (x ∷ t) = rw (append-nil t) refl
