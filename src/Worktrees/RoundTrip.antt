-- ===== src/Worktrees/RoundTrip.antt =====
-- What `git worktree list --porcelain` prints, and that `ListLinked` reads it back.
use local_vibe.Base.{
  ℕ, Bool, true, false, ◌&&◌, ◌≡◌, ◌≢◌, ◌∙◌, refl, sym, ap, List, [], ◌∷◌, ◌++◌, map, Text, codes,
  arith, text_eq, text_eq_ne, lacks, is_space, trim_right, trim_space, All,
}
use local_vibe.Worktrees.{
  Worktree, split_double, read_line, read_lines, read_block, read_blocks, linked,
  parse_worktree_list,
}
use local_vibe.Worktrees.Porcelain.{lines, split_double-lines, block-prepend, split-lines}

-- A worktree as git lists it: its path, the commit that is checked out, and its branch.
pub record Entry : Type 0 where
  pub path : Text
  pub head : Text
  pub branch : Text

-- No line break, a path, and a branch that does not end in white space.
abbrev pub IsEntry : Entry → Type 0
IsEntry w =
    (lacks b'\n' w.path ≡ true)
    × (lacks b'\n' w.head ≡ true)
    × (lacks b'\n' w.branch ≡ true)
    × (w.path ≢ [])
    × (w.branch ≢ [])
    × (trim_right is_space w.branch ≡ w.branch)

-- The lines of an entry, and what follows.
abbrev pub block : Entry → Text → Text
block w rest =
    lines (codes "worktree " ++ w.path) b'H' (codes "EAD " ++ w.head) b'b'
      (codes "ranch refs/heads/" ++ w.branch) rest

-- An empty line ends each entry, the last one too.
abbrev pub porcelain : List Entry → Text
porcelain [] = []
porcelain (w ∷ ws) = block w (b'\n' ∷ b'\n' ∷ porcelain ws)

abbrev pub worktree_of : Entry → Worktree
worktree_of w = record { path = w.path; branch = w.branch }

lacks-append : (b : ℕ) (s t : Text) → lacks b (s ++ t) ≡ (lacks b s && lacks b t)
lacks-append b [] t = refl
lacks-append b (c ∷ s) t = ground (arith, lacks-append b s t)

lacks_joined : (b : ℕ) (s t : Text) → lacks b s ≡ true → lacks b t ≡ true → lacks b (s ++ t) ≡ true
lacks_joined b s t h k = lacks-append b s t ∙ rw (h, k) refl

read_block-block : (w : Entry) → IsEntry w → read_block (block w []) ≡ worktree_of w
unfolding read_block read_lines read_line
read_block-block w (path, head, branch, some_path, some_branch, trimmed) =
    let three =
      split-lines (codes "worktree " ++ w.path) b'H' (codes "EAD " ++ w.head) b'b'
        (codes "ranch refs/heads/" ++ w.branch)
        (lacks_joined b'\n' (codes "worktree ") w.path refl path)
        (lacks_joined b'\n' (codes "HEAD ") w.head refl head)
        (lacks_joined b'\n' (codes "branch refs/heads/") w.branch refl branch) in
    rw three refl

split_double-block :
    (w : Entry) (rest : Text) (ps : List Text)
    → IsEntry w
    → split_double b'\n' rest ≡ [] ∷ ps
    → split_double b'\n' (block w rest) ≡ block w [] ∷ ps
split_double-block w rest ps (path, head, branch, some_path, some_branch, trimmed) h =
    split_double-lines (codes "worktree " ++ w.path) b'H' (codes "EAD " ++ w.head) b'b'
      (codes "ranch refs/heads/" ++ w.branch) rest
      (lacks_joined b'\n' (codes "worktree ") w.path refl path)
      (lacks_joined b'\n' (codes "HEAD ") w.head refl head)
      (lacks_joined b'\n' (codes "branch refs/heads/") w.branch refl branch)
    ∙ rw h (
        block-prepend (codes "worktree " ++ w.path) b'H' (codes "EAD " ++ w.head) b'b'
          (codes "ranch refs/heads/" ++ w.branch) ps)

-- The entries with nothing after the last one.
abbrev joined : Entry → List Entry → Text
joined w [] = block w []
joined w (v ∷ ws) = block w (b'\n' ∷ b'\n' ∷ joined v ws)

abbrev blocks : List Entry → List Text
blocks [] = []
blocks (w ∷ ws) = block w [] ∷ blocks ws

split_double-joined :
    (w : Entry) (ws : List Entry)
    → All IsEntry (w ∷ ws)
    → split_double b'\n' (joined w ws) ≡ blocks (w ∷ ws)
split_double-joined w [] h = split_double-block w [] [] h.0 refl
split_double-joined w (v ∷ ws) h =
    split_double-block w (b'\n' ∷ b'\n' ∷ joined v ws) (blocks (v ∷ ws)) h.0
      (ap (λ (ps : List Text). [] ∷ ps) (split_double-joined v ws h.1))

read_blocks-blocks :
    (ws : List Entry) → All IsEntry ws → read_blocks (blocks ws) ≡ map worktree_of ws
unfolding read_blocks
read_blocks-blocks [] h = refl
read_blocks-blocks (w ∷ ws) h =
    let (path, head, branch, some_path, some_branch, trimmed) = h.0 in
    let kept : text_eq w.path [] ≡ false = text_eq_ne w.path [] some_path in
    rw (read_block-block w h.0, kept, read_blocks-blocks ws h.1) refl

-- White space at the end of a text that does not end there is left.
module _ (p : ℕ → Bool) where
  trim_right-cons :
      (c : ℕ) (s t : Text) → trim_right p s ≡ t → t ≢ [] → trim_right p (c ∷ s) ≡ c ∷ t
  trim_right-cons c s [] h n = absurd (n refl)
  trim_right-cons c s (d ∷ t) h n = rw h refl

  trim_right-append : (a s t : Text) → trim_right p s ≡ t → t ≢ [] → trim_right p (a ++ s) ≡ a ++ t
  trim_right-append [] s t h n = h
  trim_right-append (c ∷ a) s t h n =
      trim_right-cons c (a ++ s) (a ++ t) (trim_right-append a s t h n) (longer a t n)
    where
      longer : (a t : Text) → t ≢ [] → a ++ t ≢ []
      longer [] t n = n
      longer (x ∷ a) t n = λ e. absurd (cc)

  trim_right-spaces : (s t : Text) → trim_right p t ≡ [] → trim_right p (s ++ t) ≡ trim_right p s
  trim_right-spaces [] t h = h
  trim_right-spaces (c ∷ s) t h = rw (trim_right-spaces s t h) refl

cons-ne : {c : ℕ} {s : Text} → ◌≢◌ {A = Text} (c ∷ s) []
cons-ne h = cc

trim_right-lines :
    (a : Text) (b : ℕ) (s : Text) (c : ℕ) (t rest rest' : Text)
    → trim_right is_space (c ∷ (t ++ rest)) ≡ c ∷ (t ++ rest')
    → trim_right is_space (lines a b s c t rest) ≡ lines a b s c t rest'
trim_right-lines a b s c t rest rest' h =
    trim_right-append is_space a _ _
      (trim_right-append is_space (b'\n' ∷ b ∷ s) _ _
        (trim_right-append is_space (b'\n' ∷ []) (c ∷ (t ++ rest)) (c ∷ (t ++ rest')) h cons-ne)
        cons-ne)
      cons-ne

append-nil : (s : Text) → s ++ [] ≡ s
append-nil [] = refl
append-nil (c ∷ s) = rw (append-nil s) refl

-- The last line of an entry does not end in white space.
last_line :
    (w : Entry)
    → IsEntry w
    → trim_right is_space (codes "branch refs/heads/" ++ w.branch)
      ≡ codes "branch refs/heads/" ++ w.branch
last_line w (path, head, branch, some_path, some_branch, trimmed) =
    trim_right-append is_space (codes "branch refs/heads/") w.branch w.branch trimmed some_branch

trim_right-block :
    (w : Entry) (rest rest' : Text)
    → IsEntry w
    → trim_right is_space rest ≡ rest'
    → rest' ≢ []
    → trim_right is_space (block w rest) ≡ block w rest'
trim_right-block w rest rest' h e n =
    trim_right-lines (codes "worktree " ++ w.path) b'H' (codes "EAD " ++ w.head) b'b'
      (codes "ranch refs/heads/" ++ w.branch) rest rest'
      (trim_right-append is_space (codes "branch refs/heads/" ++ w.branch) rest rest' e n)

trim_right-last :
    (w : Entry) → IsEntry w → trim_right is_space (block w (b'\n' ∷ b'\n' ∷ [])) ≡ block w []
trim_right-last w h =
    trim_right-lines (codes "worktree " ++ w.path) b'H' (codes "EAD " ++ w.head) b'b'
      (codes "ranch refs/heads/" ++ w.branch) (b'\n' ∷ b'\n' ∷ []) []
      (trim_right-spaces is_space (codes "branch refs/heads/" ++ w.branch) (b'\n' ∷ b'\n' ∷ []) refl
        ∙ (last_line w h ∙ sym (append-nil (codes "branch refs/heads/" ++ w.branch))))

trim_right-porcelain :
    (w : Entry) (ws : List Entry)
    → All IsEntry (w ∷ ws)
    → trim_right is_space (porcelain (w ∷ ws)) ≡ joined w ws
trim_right-porcelain w [] h = trim_right-last w h.0
trim_right-porcelain w (v ∷ ws) h =
    trim_right-block w (b'\n' ∷ b'\n' ∷ porcelain (v ∷ ws)) (b'\n' ∷ b'\n' ∷ joined v ws) h.0
      (trim_right-append is_space (b'\n' ∷ b'\n' ∷ []) (porcelain (v ∷ ws)) (joined v ws)
        (trim_right-porcelain v ws h.1) (joined-ne v ws))
      cons-ne
  where
    joined-ne : (v : Entry) (ws : List Entry) → joined v ws ≢ []
    joined-ne v [] = cons-ne
    joined-ne v (u ∷ ws) = cons-ne

-- What git prints for a repository's worktrees is read back exactly: each linked worktree with its path and branch, in
-- git's order, without the main checkout. This is stated of worktrees on a branch, whose paths and branches have no
-- line break and whose branches do not end in white space.
pub parse_worktree_list-porcelain :
    (main : Entry) (ws : List Entry)
    → All IsEntry (main ∷ ws)
    → parse_worktree_list (porcelain (main ∷ ws)) ≡ map worktree_of ws
unfolding parse_worktree_list
parse_worktree_list-porcelain main ws h =
    let trimmed : trim_space (porcelain (main ∷ ws)) ≡ joined main ws =
      trim_right-porcelain main ws h in
    let parts = split_double-joined main ws h in
    let read = read_blocks-blocks (main ∷ ws) h in
    ap (λ (t : Text). linked (read_blocks (split_double b'\n' t))) trimmed
    ∙ (ap (λ (ps : List Text). linked (read_blocks ps)) parts ∙ ap linked read)
