-- ===== src/Dns/Walk.antt =====
-- The label walks of `parseQuestion` and `questionEnd` (internal/dns/server.go): fuel, agreement,
-- and where they stop.
use Prim.Native.Nat.{bit_and}
use local_vibe.Base.{
  ℕ, zero, suc, ◌+◌, ◌<◌, ◌≡◌, ◌≢◌, refl, inl, inr, Bool-cases, not, ltb, ◌==◌, List, [], ◌∷◌, ◌++◌,
  Text, arith, length, take, drop, length-drop,
}
use local_vibe.Dns.{Msg, Scan, spent, malformed, found, walk, walk_end}

walk-ne-spent :
    (fuel : ℕ) (s : Msg) (labels : List Text) → length s < fuel → walk fuel s labels ≢ spent
unfolding walk
walk-ne-spent zero s labels h = elim h [ ]
walk-ne-spent (suc fuel) [] labels h = ground arith
walk-ne-spent (suc fuel) (l ∷ s) labels h =
    ground (arith, walk-ne-spent fuel (drop l s) (labels ++ take l s ∷ []), length-drop l s)

-- The two walks end alike: both malformed, or both in front of the same bytes.
abbrev pub Alike : Scan (List Text) → Scan ℕ → Type 0
Alike spent spent = Unit
Alike malformed malformed = Unit
Alike (found _ s) (found _ t) = s ≡ t
Alike _ _ = ⊥

pub walk-Alike :
    (fuel pos : ℕ) (s : Msg) (labels : List Text) → Alike (walk fuel s labels) (walk_end fuel pos s)
unfolding walk walk_end
walk-Alike zero pos s labels = tt
walk-Alike (suc fuel) pos [] labels = tt
walk-Alike (suc fuel) pos (l ∷ s) labels = elim (Bool-cases (l == 0)) [
  | inl e ↦ rw e refl
  | inr e ↦ elim (Bool-cases (not (bit_and l 0xC0 == 0))) [
    | inl f ↦ rw (e, f) tt
    | inr f ↦ elim (Bool-cases (ltb (length s) l)) [
      | inl g ↦ rw (e, f, g) tt
      | inr g ↦ rw (e, f, g) (walk-Alike fuel (pos + 1 + l) (drop l s) (labels ++ take l s ∷ []))
    ]
  ]
]

-- `questionEnd` counts the bytes that it passes.
pub walk_end_pos :
    (fuel pos : ℕ) (s : Msg) (p : ℕ) (t : Msg)
    → walk_end fuel pos s ≡ found p t
    → p + length t ≡ pos + length s
unfolding walk_end
walk_end_pos zero pos s p t h = cc
walk_end_pos (suc fuel) pos [] p t h = cc
walk_end_pos (suc fuel) pos (l ∷ s) p t h =
    ground (arith, walk_end_pos fuel (pos + 1 + l) (drop l s) p t, length-drop l s)

walk_end-ne-spent : (fuel pos : ℕ) (s : Msg) → length s < fuel → walk_end fuel pos s ≢ spent
unfolding walk_end
walk_end-ne-spent zero pos s h = elim h [ ]
walk_end-ne-spent (suc fuel) pos [] h = ground arith
walk_end-ne-spent (suc fuel) pos (l ∷ s) h =
    ground (arith, walk_end-ne-spent fuel (pos + 1 + l) (drop l s), length-drop l s)

walk_same :
    (fuel fuel' : ℕ) (s : Msg) (labels : List Text)
    → length s < fuel
    → length s < fuel'
    → walk fuel' s labels ≡ walk fuel s labels
unfolding walk
walk_same zero fuel' s labels h k = elim h [ ]
walk_same (suc fuel) zero s labels h k = elim k [ ]
walk_same (suc fuel) (suc fuel') [] labels h k = refl
walk_same (suc fuel) (suc fuel') (l ∷ s) labels h k =
    ground (arith, walk_same fuel fuel' (drop l s) (labels ++ take l s ∷ []), length-drop l s)

walk_end_same :
    (fuel fuel' pos : ℕ) (s : Msg)
    → length s < fuel
    → length s < fuel'
    → walk_end fuel' pos s ≡ walk_end fuel pos s
unfolding walk_end
walk_end_same zero fuel' pos s h k = elim h [ ]
walk_end_same (suc fuel) zero pos s h k = elim k [ ]
walk_end_same (suc fuel) (suc fuel') pos [] h k = refl
walk_end_same (suc fuel) (suc fuel') pos (l ∷ s) h k =
    ground (arith, walk_end_same fuel fuel' (pos + 1 + l) (drop l s), length-drop l s)

-- Both walks over the labels of a question end on every message, at the end of the name or at malformed bytes: one step
-- more than there are bytes left is enough, and with any larger number of steps they end alike.
pub walks_end :
    (fuel pos : ℕ) (s : Msg) (labels : List Text)
    → length s < fuel
    → (walk fuel s labels ≢ spent)
      × (walk_end fuel pos s ≢ spent)
      × (walk fuel s labels ≡ walk (suc (length s)) s labels)
      × (walk_end fuel pos s ≡ walk_end (suc (length s)) pos s)
walks_end fuel pos s labels h =
    let enough : length s < suc (length s) = omega arith in
    (
      walk-ne-spent fuel s labels h,
      walk_end-ne-spent fuel pos s h,
      walk_same (suc (length s)) fuel s labels enough h,
      walk_end_same (suc (length s)) fuel pos s enough h,
    )
