-- ===== src/Base/Sort.antt =====
-- `sort.Strings` and `sort.Slice` by a text key: texts in byte order, and insertion sort.
use mathlib.Core.Path.{◌≡◌, refl}
use mathlib.Core.Logic.{◌↔◌, inl, inr}
use mathlib.Core.Bool.{Bool, true, false}
use mathlib.Core.List.{List, [], ◌∷◌, Perm}
use mathlib.Core.List.Perm
use Prim.Native.Nat.{compare, Ordering}
use native.Mathlib.Omega.{arith}
use local_vibe.Base.Tests.{if◌then◌else◌, Bool-cases}
use local_vibe.Base.Texts.{Text}
use local_vibe.Base.Lists.{All}

-- Byte order on texts: `a <= b` of Go strings.
abbrev pub text_leb : Text → Text → Bool
text_leb [] t = true
text_leb (c ∷ s) [] = false
text_leb (c ∷ s) (d ∷ t) = elim (compare c d) [
  | Ordering.lt ↦ true
  | Ordering.eq ↦ text_leb s t
  | Ordering.gt ↦ false
]

pub text_leb_total : (s t : Text) → text_leb s t ≡ false → text_leb t s ≡ true
text_leb_total [] t h = cc
text_leb_total (c ∷ s) [] h = refl
text_leb_total (c ∷ s) (d ∷ t) h = ground (arith, text_leb_total s t)

pub text_leb_trans :
    (s t u : Text) → text_leb s t ≡ true → text_leb t u ≡ true → text_leb s u ≡ true
text_leb_trans [] t u h k = refl
text_leb_trans (c ∷ s) [] u h k = cc
text_leb_trans (c ∷ s) (d ∷ t) [] h k = cc
text_leb_trans (c ∷ s) (d ∷ t) (e ∷ u) h k = ground (arith, text_leb_trans s t u)

module _ {ℓ} {A : Type ℓ} (key : A → Text) where
  abbrev pub insert_by : A → List A → List A
  insert_by a [] = a ∷ []
  insert_by a (x ∷ xs) =
      let rest = x ∷ insert_by a xs in if text_leb (key a) (key x) then a ∷ x ∷ xs else rest

  abbrev pub sort_by : List A → List A
  sort_by [] = []
  sort_by (x ∷ xs) = insert_by x (sort_by xs)

  -- Every element is at most the next one.
  abbrev pub IsSorted : List A → Type 0
  IsSorted [] = Unit
  IsSorted (x ∷ []) = Unit
  IsSorted (x ∷ y ∷ ys) = (text_leb (key x) (key y) ≡ true) × IsSorted (y ∷ ys)

  insert_by-IsSorted : (a : A) (xs : List A) → IsSorted xs → IsSorted (insert_by a xs)
  insert_by-IsSorted a [] h = tt
  insert_by-IsSorted a (x ∷ []) h = elim (Bool-cases (text_leb (key a) (key x))) [
    | inl e ↦ rw e (e, tt)
    | inr e ↦ rw e (text_leb_total (key a) (key x) e, tt)
  ]
  insert_by-IsSorted a (x ∷ y ∷ ys) (p, h) = elim (Bool-cases (text_leb (key a) (key x))) [
    | inl e ↦ rw e (e, (p, h))
    | inr e ↦ rw e (below (text_leb_total (key a) (key x) e) (insert_by-IsSorted a (y ∷ ys) h))
  ]
    where
      below :
          text_leb (key x) (key a) ≡ true
          → IsSorted (insert_by a (y ∷ ys))
          → IsSorted (x ∷ insert_by a (y ∷ ys))
      below q s = elim (Bool-cases (text_leb (key a) (key y))) [
        | inl e ↦ rw e (q, rw e at s)
        | inr e ↦ rw e (p, rw e at s)
      ]

  pub sort_by-IsSorted : (xs : List A) → IsSorted (sort_by xs)
  sort_by-IsSorted [] = tt
  sort_by-IsSorted (x ∷ xs) = insert_by-IsSorted x (sort_by xs) (sort_by-IsSorted xs)

  insert_by-perm : (a : A) (xs : List A) → Perm (insert_by a xs) (a ∷ xs)
  insert_by-perm a [] = Perm.refl _
  insert_by-perm a (x ∷ xs) = elim (Bool-cases (text_leb (key a) (key x))) [
    | inl e ↦ rw e (Perm.refl _)
    | inr e ↦ rw e (Perm.trans (Perm.cons x (insert_by-perm a xs)) (Perm.swap a x xs))
  ]

  pub sort_by-perm : (xs : List A) → Perm (sort_by xs) xs
  sort_by-perm [] = Perm.refl _
  sort_by-perm (x ∷ xs) = Perm.trans (insert_by-perm x (sort_by xs)) (Perm.cons x (sort_by-perm xs))

  -- Sorting keeps what holds of every element, and conversely.
  insert_by-All {κ} :
      (P : A → Type κ) (a : A) (xs : List A) → All P (insert_by a xs) ↔ (P a × All P xs)
  insert_by-All P a [] = (λ h. h, λ h. h)
  insert_by-All P a (x ∷ xs) = elim (Bool-cases (text_leb (key a) (key x))) [
    | inl e ↦ rw e (λ h. h, λ h. h)
    | inr e ↦ rw e (
      λ h. let r = (insert_by-All P a xs).0 h.1 in (r.0, (h.0, r.1)),
      λ h. (h.1.0, (insert_by-All P a xs).1 (h.0, h.1.1)),
    )
  ]

  pub sort_by-All {κ} : (P : A → Type κ) (xs : List A) → All P (sort_by xs) ↔ All P xs
  sort_by-All P [] = (λ h. h, λ h. h)
  sort_by-All P (x ∷ xs) =
      let (there, back) = sort_by-All P xs in
      let (out, back') = insert_by-All P x (sort_by xs) in
      (λ h. ((out h).0, there (out h).1), λ h. back' (h.0, back h.1))
