-- ===== src/Base/Texts.antt =====
-- Go strings as lists of bytes: the functions of package `strings` that the daemon calls, on ASCII.
use Prim.Native.Nat.{ℕ, ◌+◌}
use Prim.Native.Char.{code}
use Prim.Native.String.{String}
use mathlib.Core.Path.{◌≡◌, refl, ap}
use mathlib.Core.Logic.{◌≢◌, ◌↔◌, inl, inr}
use mathlib.Core.Bool.{Bool, true, false, ◌&&◌, ◌||◌, not}
use mathlib.Core.Option
use mathlib.Core.Option.{Option, none, some}
use mathlib.Core.List.{List, [], ◌∷◌, ◌++◌, map}
use native.Mathlib.Omega.{arith}
use local_vibe.Base.Tests.{leb, ◌==◌, if◌then◌else◌, Bool-cases, Option-cases, is_some}
use local_vibe.Base.Lists.{length, length-append}

abbrev pub Text : Type 0
Text = List ℕ

-- The bytes of a literal. `String` has its own `[]` and `∷`.
abbrev pub codes : String → Text
codes String.[] = []
codes (String.◌∷◌ c s) = code c ∷ codes s

abbrev pub text_eq : Text → Text → Bool
text_eq [] [] = true
text_eq [] (d ∷ t) = false
text_eq (c ∷ s) [] = false
text_eq (c ∷ s) (d ∷ t) = c == d && text_eq s t

pub text_eq_refl : (s : Text) → text_eq s s ≡ true
text_eq_refl [] = refl
text_eq_refl (c ∷ s) = ground (arith, text_eq_refl s)

pub text_eq→eq : (s t : Text) → text_eq s t ≡ true → s ≡ t
text_eq→eq [] [] h = refl
text_eq→eq [] (d ∷ t) h = cc
text_eq→eq (c ∷ s) [] h = cc
text_eq→eq (c ∷ s) (d ∷ t) h = ground (arith, text_eq→eq s t)

pub text_eq_ne : (s t : Text) → s ≢ t → text_eq s t ≡ false
text_eq_ne s t h = ground (arith, text_eq→eq s t)

pub text_eq_iff : (s t : Text) → (text_eq s t ≡ true) ↔ (s ≡ t)
text_eq_iff s t = (text_eq→eq s t, λ e. ground (arith, e, text_eq_refl s))

-- `strings.CutPrefix`, `HasPrefix` and `TrimPrefix`.
abbrev pub cut_prefix : Text → Text → Option Text
cut_prefix s [] = some s
cut_prefix [] (p ∷ ps) = none
cut_prefix (c ∷ s) (p ∷ ps) = if c == p then cut_prefix s ps else none

abbrev pub has_prefix : Text → Text → Bool
has_prefix s p = is_some (cut_prefix s p)

abbrev pub trim_prefix : Text → Text → Text
trim_prefix s p = elim (cut_prefix s p) [ none ↦ s | some r ↦ r ]

pub cut_prefix-append : (p s : Text) → cut_prefix (p ++ s) p ≡ some s
cut_prefix-append [] s = refl
cut_prefix-append (c ∷ p) s = ground (arith, cut_prefix-append p s)

pub cut_prefix_sound : (s p r : Text) → cut_prefix s p ≡ some r → s ≡ p ++ r
cut_prefix_sound s [] r h = ground arith
cut_prefix_sound [] (c ∷ p) r h = cc
cut_prefix_sound (c ∷ s) (d ∷ p) r h = ground (arith, cut_prefix_sound s p r)

-- `strings.CutSuffix`, `HasSuffix` and `TrimSuffix`.
abbrev pub cut_suffix : Text → Text → Option Text
cut_suffix [] p = if text_eq [] p then some [] else none
cut_suffix (c ∷ s) p =
    let rest = Option.map (λ r. c ∷ r) (cut_suffix s p) in
    if text_eq (c ∷ s) p then some [] else rest

abbrev pub has_suffix : Text → Text → Bool
has_suffix s p = is_some (cut_suffix s p)

abbrev pub trim_suffix : Text → Text → Text
trim_suffix s p = elim (cut_suffix s p) [ none ↦ s | some r ↦ r ]

pub cut_suffix-append : (s p : Text) → cut_suffix (s ++ p) p ≡ some s
cut_suffix-append [] [] = refl
cut_suffix-append [] (c ∷ p) = ground (arith, text_eq_refl (c ∷ p))
cut_suffix-append (c ∷ s) p =
    ground
      (arith, cut_suffix-append s p, text_eq→eq (c ∷ s ++ p) p, longer c s p, length-append s p)
  where
    longer : (c : ℕ) (s p : Text) → c ∷ s ++ p ≡ p → ⊥
    longer c s p e = omega (arith, ap length e, length-append s p)

pub cut_suffix_sound : (s p r : Text) → cut_suffix s p ≡ some r → s ≡ r ++ p
cut_suffix_sound [] p r h = ground (arith, text_eq→eq [] p)
cut_suffix_sound (c ∷ s) p r h = elim (Bool-cases (text_eq (c ∷ s) p)) [
  | inl e ↦ ground (arith, text_eq→eq (c ∷ s) p)
  | inr e ↦ tail_case c s p r (rw e at h) (λ q. cut_suffix_sound s p q)
]
  where
    tail_case :
        (c : ℕ) (s p r : Text)
        → Option.map (λ t. c ∷ t) (cut_suffix s p) ≡ some r
        → ((q : Text) → cut_suffix s p ≡ some q → s ≡ q ++ p)
        → c ∷ s ≡ r ++ p
    tail_case c s p r h ih = elim (Option-cases (cut_suffix s p)) [
      | inl e ↦ cc
      | inr (q, e) ↦ cc (ih q e)
    ]

-- The last label of a dotted name is cut off exactly when the name ends in it.
pub has_suffix-append : (s p : Text) → has_suffix (s ++ p) p ≡ true
has_suffix-append s p = rw (cut_suffix-append s p)

pub trim_suffix-append : (s p : Text) → trim_suffix (s ++ p) p ≡ s
trim_suffix-append s p = rw (cut_suffix-append s p, trim_suffix)

-- `strings.Split` at one byte, and `strings.Join` with one byte.
abbrev pub push : ℕ → List Text → List Text
push c [] = (c ∷ []) ∷ []
push c (p ∷ ps) = (c ∷ p) ∷ ps

abbrev pub split : Text → ℕ → List Text
split [] sep = [] ∷ []
split (c ∷ s) sep = let rest = split s sep in if c == sep then [] ∷ rest else push c rest

abbrev pub join : List Text → ℕ → Text
join [] sep = []
join (p ∷ []) sep = p
join (p ∷ q ∷ ps) sep = p ++ sep ∷ join (q ∷ ps) sep

abbrev pub lacks : ℕ → Text → Bool
lacks b [] = true
lacks b (c ∷ s) = not (c == b) && lacks b s

-- `strings.ToLower` on ASCII.
abbrev pub lower : ℕ → ℕ
lower c = if leb b'A' c && leb c b'Z' then c + 32 else c

abbrev pub to_lower : Text → Text
to_lower = map lower

abbrev pub equal_fold : Text → Text → Bool
equal_fold s t = text_eq (to_lower s) (to_lower t)

-- `strings.TrimSpace` on ASCII, and `strings.Trim` with one byte.
abbrev pub is_space : ℕ → Bool
is_space c = c == 32 || leb 9 c && leb c 13

abbrev pub trim_left : (ℕ → Bool) → Text → Text
trim_left p [] = []
trim_left p (c ∷ s) = if p c then trim_left p s else c ∷ s

abbrev pub trim_right : (ℕ → Bool) → Text → Text
trim_right p [] = []
trim_right p (c ∷ s) = elim (trim_right p s) [ [] ↦ if p c then [] else c ∷ [] | d ∷ r ↦ c ∷ d ∷ r ]

abbrev pub trim : (ℕ → Bool) → Text → Text
trim p s = trim_right p (trim_left p s)

abbrev pub trim_space : Text → Text
trim_space = trim is_space

-- `strings.Contains` and the part of a text before a byte (`host[:idx]`).
abbrev pub contains : Text → Text → Bool
contains [] p = text_eq p []
contains (c ∷ s) p = has_prefix (c ∷ s) p || contains s p

abbrev pub before : ℕ → Text → Text
before b [] = []
before b (c ∷ s) = if c == b then [] else c ∷ before b s

-- `s[:i]` and `s[i+1:]` at the first `b`, if there is one.
abbrev pub cut_at : ℕ → Text → Option (Text × Text)
cut_at b [] = none
cut_at b (c ∷ s) =
    let rest = Option.map (λ (r : Text × Text). (c ∷ r.0, r.1)) (cut_at b s) in
    if c == b then some ([], s) else rest

pub cut_at-append : (b : ℕ) (s t : Text) → lacks b s ≡ true → cut_at b (s ++ b ∷ t) ≡ some (s, t)
cut_at-append b [] t h = ground arith
cut_at-append b (c ∷ s) t h = ground (arith, cut_at-append b s t)

pub lower_idem : (c : ℕ) → lower (lower c) ≡ lower c
lower_idem c = ground arith

pub to_lower_idem : (s : Text) → to_lower (to_lower s) ≡ to_lower s
to_lower_idem [] = refl
to_lower_idem (c ∷ s) = cc (lower_idem c, to_lower_idem s)

pub split-ne-nil : (s : Text) (sep : ℕ) → split s sep ≢ []
split-ne-nil [] sep e = cc
split-ne-nil (c ∷ s) sep e = ground (arith, push-ne-nil c (split s sep))
  where
    push-ne-nil : (c : ℕ) (ps : List Text) → push c ps ≢ []
    push-ne-nil c [] e = cc
    push-ne-nil c (p ∷ ps) e = cc

join-push : (c sep : ℕ) (ps : List Text) → join (push c ps) sep ≡ c ∷ join ps sep
join-push c sep [] = refl
join-push c sep (p ∷ []) = refl
join-push c sep (p ∷ q ∷ ps) = refl

join-cons-nil : (sep : ℕ) (ps : List Text) → ps ≢ [] → join ([] ∷ ps) sep ≡ sep ∷ join ps sep
join-cons-nil sep [] h = absurd (h refl)
join-cons-nil sep (p ∷ ps) h = refl

-- Joining the parts of a split gives the text back.
pub join-split : (s : Text) (sep : ℕ) → join (split s sep) sep ≡ s
join-split [] sep = refl
join-split (c ∷ s) sep = ground (
  arith,
  join-push c sep (split s sep),
  join-cons-nil sep (split s sep) (split-ne-nil s sep),
  join-split s sep,
)

-- A text with no separator is one part, and is cut off in front of a separator.
pub split_whole : (s : Text) (sep : ℕ) → lacks sep s ≡ true → split s sep ≡ s ∷ []
split_whole [] sep h = refl
split_whole (c ∷ s) sep h = ground (arith, split_whole s sep)

pub split_first :
    (s t : Text) (sep : ℕ) → lacks sep s ≡ true → split (s ++ sep ∷ t) sep ≡ s ∷ split t sep
split_first [] t sep h = ground arith
split_first (c ∷ s) t sep h = ground (arith, split_first s t sep)
