-- ===== src/BookmarkProxy/Attributes.antt =====
-- Which attributes of a cookie are left (internal/daemon/proxy_bookmark.go, `removeDomainAttr`).
use mathlib.Core.List.{filter}
use mathlib.Core.Logic.{ite}
use local_vibe.Base.{
  ℕ, Bool, if◌then◌else◌, true, false, ◌≡◌, ◌∙◌, refl, ap, inl, inr, Bool-cases, List, [], ◌∷◌,
  Text, arith, ◌==◌, split, join, lacks, push, split_whole, split_first, All,
}
use local_vibe.BookmarkProxy.{is_domain_attr, without_domain, remove_domain_attr}

-- No part of a list has the separator.
abbrev IsParted : ℕ → List Text → Type 0
IsParted sep l = All (λ p. lacks sep p ≡ true) l

push-IsParted :
    (c sep : ℕ) (l : List Text) → (c == sep) ≡ false → IsParted sep l → IsParted sep (push c l)
push-IsParted c sep [] h k = (ground arith, tt)
push-IsParted c sep (p ∷ ps) h (k, ks) = (ground arith, ks)

split-IsParted : (s : Text) (sep : ℕ) → IsParted sep (split s sep)
split-IsParted [] sep = (refl, tt)
split-IsParted (c ∷ s) sep = elim (Bool-cases (c == sep)) [
  | inl e ↦ rw e (refl, split-IsParted s sep)
  | inr e ↦ rw e (push-IsParted c sep (split s sep) e (split-IsParted s sep))
]

split-join :
    (p : Text) (ps : List Text) (sep : ℕ)
    → IsParted sep (p ∷ ps)
    → split (join (p ∷ ps) sep) sep ≡ p ∷ ps
split-join p [] sep (h, _) = split_whole p sep h
split-join p (q ∷ ps) sep (h, hs) =
    split_first p (join (q ∷ ps) sep) sep h ∙ ap (λ l. p ∷ l) (split-join q ps sep hs)

without_domain-IsParted :
    (sep : ℕ) (l : List Text) → IsParted sep l → IsParted sep (without_domain l)
unfolding without_domain
without_domain-IsParted sep [] h = tt
without_domain-IsParted sep (p ∷ ps) (h, hs) = elim (Bool-cases (is_domain_attr p)) [
  | inl e ↦ rw (e, without_domain) (without_domain-IsParted sep ps hs)
  | inr e ↦ rw (e, without_domain) (h, without_domain-IsParted sep ps hs)
]

-- A text has at least one part.
abbrev pub or_empty : List Text → List Text
or_empty [] = [] ∷ []
or_empty (p ∷ ps) = p ∷ ps

split_joined : (l : List Text) (sep : ℕ) → IsParted sep l → split (join l sep) sep ≡ or_empty l
split_joined [] sep h = refl
split_joined (p ∷ ps) sep h = split-join p ps sep h

without_domain-All : (l : List Text) → All (λ p. is_domain_attr p ≡ false) (without_domain l)
unfolding without_domain
without_domain-All [] = tt
without_domain-All (p ∷ ps) = elim (Bool-cases (is_domain_attr p)) [
  | inl e ↦ rw (e, without_domain) (without_domain-All ps)
  | inr e ↦ rw (e, without_domain) (e, without_domain-All ps)
]

or_empty-All :
    (l : List Text)
    → All (λ p. is_domain_attr p ≡ false) l
    → All (λ p. is_domain_attr p ≡ false) (or_empty l)
or_empty-All [] h = (refl, tt)
or_empty-All (p ∷ ps) h = h

without_domain_fixed :
    (l : List Text) → All (λ p. is_domain_attr p ≡ false) l → without_domain l ≡ l
unfolding without_domain
without_domain_fixed [] h = refl
without_domain_fixed (p ∷ ps) (h, hs) =
    rw (without_domain, h) (ap (λ l. p ∷ l) (without_domain_fixed ps hs))

join-or_empty : (l : List Text) (sep : ℕ) → join (or_empty l) sep ≡ join l sep
join-or_empty [] sep = refl
join-or_empty (p ∷ ps) sep = refl

abbrev pub is_false : (b : Bool) → Dec (b ≡ false)
is_false true = no (λ h. cc)
is_false false = yes refl

-- The parts that do not begin with `domain=`, once trimmed and in lower case.
abbrev pub other_attributes : List Text → List Text
other_attributes ps =
    filter {p = λ p. is_domain_attr p ≡ false} (λ p. is_false (is_domain_attr p)) ps

chosen : (b : Bool) (x y : List Text) → (if b then y else x) ≡ ite {C = List Text} (is_false b) x y
chosen true x y = refl
chosen false x y = refl

without_domain-filter : (ps : List Text) → without_domain ps ≡ other_attributes ps
unfolding without_domain
without_domain-filter [] = refl
without_domain-filter (p ∷ ps) =
    rw (without_domain-filter ps)
      (chosen (is_domain_attr p) (p ∷ other_attributes ps) (other_attributes ps))

-- The parts of a cookie, between its semicolons, once its Domain attributes are removed: those of the cookie which do
-- not begin with `domain=` when they are trimmed and put in lower case, all of them, in their order and unchanged; or
-- a single empty part if there is none. Removing them once more changes nothing.
pub remove_domain_attr_lem :
    (cookie : Text)
    → (split (remove_domain_attr cookie) b';' ≡ or_empty (other_attributes (split cookie b';')))
      × All (λ p. is_domain_attr p ≡ false) (split (remove_domain_attr cookie) b';')
      × (remove_domain_attr (remove_domain_attr cookie) ≡ remove_domain_attr cookie)
unfolding remove_domain_attr
remove_domain_attr_lem cookie =
    let kept = without_domain (split cookie b';') in
    let parts : split (join kept b';') b';' ≡ or_empty kept =
      split_joined kept b';'
        (without_domain-IsParted b';' (split cookie b';') (split-IsParted cookie b';')) in
    let none_left = or_empty-All kept (without_domain-All (split cookie b';')) in
    (
      parts ∙ ap or_empty (without_domain-filter (split cookie b';')),
      rw parts none_left,
      ap (λ l. join (without_domain l) b';') parts
          ∙ (ap (λ l. join l b';') (without_domain_fixed (or_empty kept) none_left)
              ∙ join-or_empty kept b';'),
    )
