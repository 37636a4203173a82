-- ===== src/Dns/Layout.antt =====
-- The shape of a message that `parseQuestion` (internal/dns/server.go) accepts: a header of twelve
-- bytes, the bytes of the name, four bytes for type and class, and the rest.
use Prim.Native.Nat.{bit_and}
use local_vibe.Base.{
  ℕ, zero, suc, ◌+◌, ◌*◌, ◌<◌, ◌≡◌, refl, inl, inr, Bool-cases, true, false, not, ltb, ◌==◌, List,
  [], ◌∷◌, ◌++◌, Text, some, arith, length, take, drop, length-take, take-append-drop,
  length-append, drop-length, take-length, join,
}
use mathlib.Core.List.{append_assoc}
use local_vibe.Dns.{
  Msg, Scan, spent, malformed, found, walk, get16, Question, read_tail, parse_question,
}

-- The bytes `p` spell a name whose labels are appended to `labels`, whatever stands behind them.
abbrev pub Spells : Msg → List Text → List Text → Type 0
Spells p labels ls = (fuel : ℕ) (t : Msg) → length p < fuel → walk fuel (p ++ t) labels ≡ found ls t

pub step-Spells :
    (l : ℕ) (v p : Msg) (labels ls : List Text)
    → length v ≡ l
    → (l == 0) ≡ false
    → not (bit_and l 0xC0 == 0) ≡ false
    → Spells p (labels ++ v ∷ []) ls
    → Spells (l ∷ v ++ p) labels ls
unfolding walk
step-Spells l v p labels ls n z b h zero t k = elim k [ ]
step-Spells l v p labels ls n z b h (suc fuel) t k =
    let long : ltb (length ((v ++ p) ++ t)) l ≡ false =
      ground (arith, length-append (v ++ p) t, length-append v p) in
    let off : drop l ((v ++ p) ++ t) ≡ p ++ t = rw (← n, append_assoc) (drop-length v (p ++ t)) in
    let on : take l ((v ++ p) ++ t) ≡ v = rw (← n, append_assoc) (take-length v (p ++ t)) in
    rw (z, b, long, off, on) (h fuel t (omega (arith, length-append v p)))

pub stop-Spells :
    (l : ℕ) (labels ls : List Text) → (l == 0) ≡ true → labels ≡ ls → Spells (l ∷ []) labels ls
unfolding walk
stop-Spells l labels ls e q zero t k = elim k [ ]
stop-Spells l labels ls e q (suc fuel) t k = rw (e, q) refl

stop_parts :
    (s t : Msg) (labels ls : List Text) → found labels s ≡ found ls t → (s ≡ t) × (labels ≡ ls)
stop_parts s t labels ls h = ground arith

regroup : (l n : ℕ) (s p t : Msg) → drop n s ≡ p ++ t → l ∷ s ≡ (l ∷ take n s ++ p) ++ t
regroup l n s p t q = rw (append_assoc, ← q, take-append-drop)

-- A walk that finds the end of a name has read bytes that spell it.
pub walk-Spells :
    (fuel : ℕ) (s : Msg) (labels ls : List Text) (t : Msg)
    → walk fuel s labels ≡ found ls t
    → (p : Msg) × (s ≡ p ++ t) × Spells p labels ls
unfolding walk
walk-Spells zero s labels ls t h = absurd (cc)
walk-Spells (suc fuel) [] labels ls t h = absurd (cc)
walk-Spells (suc fuel) (l ∷ s) labels ls t h = elim (Bool-cases (l == 0)) [
  | inl e ↦
      let (same, q) = stop_parts s t labels ls (rw e at h) in
      (l ∷ [], cc same, stop-Spells l labels ls e q)
  | inr e ↦ elim (Bool-cases (not (bit_and l 0xC0 == 0))) [
    | inl f ↦ absurd (ground arith)
    | inr f ↦ elim (Bool-cases (ltb (length s) l)) [
      | inl g ↦ absurd (ground arith)
      | inr g ↦
          let rest : walk fuel (drop l s) (labels ++ take l s ∷ []) ≡ found ls t =
            rw (e, f, g) at h in
          let (p, q, sp) = walk-Spells fuel (drop l s) (labels ++ take l s ∷ []) ls t rest in
          (
            l ∷ take l s ++ p,
            regroup l l s p t q,
            step-Spells l (take l s) p labels ls (length-take l s (ground arith)) e f sp,
          )
    ]
  ]
]

-- What `parse_question m ≡ some q` says of the bytes of `m`.
pub record Layout (m : Msg) (q : Question) : Type 0 where
  pub head : Msg
  pub name_bytes : Msg
  pub labels : List Text
  pub t0 : ℕ
  pub t1 : ℕ
  pub c0 : ℕ
  pub c1 : ℕ
  pub extra : Msg
  pub head_size : length head ≡ 12
  pub bytes : m ≡ head ++ (name_bytes ++ t0 ∷ t1 ∷ c0 ∷ c1 ∷ extra)
  pub counted : (get16 m 4 == 0) ≡ false
  pub spells : Spells name_bytes [] labels
  pub question :
      q ≡ record { name = join labels b'.'; qtype = t0 * 256 + t1; qclass = c0 * 256 + c1 }

read_tail-found :
    (w : Scan (List Text)) (q : Question)
    → read_tail w ≡ some q
    → (ls : List Text) × (t : Msg) × (w ≡ found ls t)
      × (ltb (length t) 4 ≡ false)
      × (q ≡ record { name = join ls b'.'; qtype = get16 t 0; qclass = get16 t 2 })
read_tail-found spent q h = absurd (cc)
read_tail-found malformed q h = absurd (cc)
read_tail-found (found ls t) q h = elim (Bool-cases (ltb (length t) 4)) [
  | inl e ↦ absurd (ground arith)
  | inr e ↦ (ls, t, refl, e, some_eq (rw e at h))
]
  where
    some_eq : {a b : Question} → some a ≡ some b → b ≡ a
    some_eq k = cc k

four : (t : Msg) → ltb (length t) 4 ≡ false → (a b c d : ℕ) × (r : Msg) × (t ≡ a ∷ b ∷ c ∷ d ∷ r)
four [] h = absurd (cc)
four (a ∷ []) h = absurd (ground arith)
four (a ∷ b ∷ []) h = absurd (ground arith)
four (a ∷ b ∷ c ∷ []) h = absurd (ground arith)
four (a ∷ b ∷ c ∷ d ∷ r) h = (a, b, c, d, r, refl)

rejoin : (n : ℕ) (m p t r : Msg) → drop n m ≡ p ++ t → t ≡ r → m ≡ take n m ++ (p ++ r)
rejoin n m p t r h k = cc (take-append-drop n m)

pub parsed_Layout : (m : Msg) (q : Question) → parse_question m ≡ some q → Layout m q
unfolding parse_question
parsed_Layout m q h = elim (Bool-cases (ltb (length m) 12)) [
  | inl e ↦ absurd (ground arith)
  | inr e ↦ elim (Bool-cases (get16 m 4 == 0)) [
    | inl z ↦ absurd (ground arith)
    | inr z ↦
        let (ls, t, w, size, question) =
          read_tail-found (walk (suc (length m)) (drop 12 m) []) q (rw (e, z) at h) in
        let (p, split_at, spells) = walk-Spells (suc (length m)) (drop 12 m) [] ls t w in
        let (a, b, c, d, r, last) = four t size in
        record {
          head = take 12 m;
          name_bytes = p;
          labels = ls;
          t0 = a;
          t1 = b;
          c0 = c;
          c1 = d;
          extra = r;
          head_size = length-take 12 m (ground arith);
          bytes = rejoin 12 m p t (a ∷ b ∷ c ∷ d ∷ r) split_at last;
          counted = z;
          spells = spells;
          question = rw last at question;
        }
  ]
]
