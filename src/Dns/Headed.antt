-- ===== src/Dns/Headed.antt =====
-- Messages with their twelve header bytes written out: what `parseQuestion` and `questionEnd`
-- (internal/dns/server.go) make of them.
use local_vibe.Base.{
  ℕ, suc, ◌+◌, ◌*◌, ◌<◌, ◌≡◌, refl, sym, false, ltb, ◌==◌, List, [], ◌∷◌, ◌++◌, Text, some, arith,
  length, take, length-append, take-length, join,
}
use mathlib.Core.List.{append_assoc}
use local_vibe.Dns.{
  Msg, Scan, spent, malformed, found, walk, walk_end, parse_question, question_end,
}
use local_vibe.Dns.Walk.{Alike, walk-Alike, walk_end_pos}
use local_vibe.Dns.Layout.{Spells}

-- Twelve header bytes that the replies edit.
module _ (i0 i1 f0 f1 q0 q1 a0 a1 n0 n1 r0 r1 : ℕ) where
  abbrev pub headed : Msg → Msg
  headed s = i0 ∷ i1 ∷ f0 ∷ f1 ∷ q0 ∷ q1 ∷ a0 ∷ a1 ∷ n0 ∷ n1 ∷ r0 ∷ r1 ∷ s

-- A header with a question count, a spelled name and four bytes more are a question.
pub parse_question-headed :
    (i0 i1 f0 f1 q0 q1 a0 a1 n0 n1 r0 r1 : ℕ) (p : Msg) (ls : List Text) (t0 t1 c0 c1 : ℕ)
    (extra : Msg)
    → (q0 * 256 + q1 == 0) ≡ false
    → Spells p [] ls
    → parse_question (headed i0 i1 f0 f1 q0 q1 a0 a1 n0 n1 r0 r1 (p ++ t0 ∷ t1 ∷ c0 ∷ c1 ∷ extra))
      ≡ some (record { name = join ls b'.'; qtype = t0 * 256 + t1; qclass = c0 * 256 + c1 })
unfolding parse_question
parse_question-headed i0 i1 f0 f1 q0 q1 a0 a1 n0 n1 r0 r1 p ls t0 t1 c0 c1 extra z sp =
    let s = p ++ t0 ∷ t1 ∷ c0 ∷ c1 ∷ extra in
    let m = headed i0 i1 f0 f1 q0 q1 a0 a1 n0 n1 r0 r1 s in
    let long : ltb (length m) 12 ≡ false = ground arith in
    let enough : length p < suc (length m) =
      omega (arith, length-append p (t0 ∷ t1 ∷ c0 ∷ c1 ∷ extra)) in
    let w : walk (suc (length m)) s [] ≡ found ls (t0 ∷ t1 ∷ c0 ∷ c1 ∷ extra) =
      sp (suc (length m)) (t0 ∷ t1 ∷ c0 ∷ c1 ∷ extra) enough in
    let four : ltb (length (t0 ∷ t1 ∷ c0 ∷ c1 ∷ extra)) 4 ≡ false = ground arith in
    rw (long, z, w, four) refl

Alike-found :
    (ls : List Text) (t : Msg) (v : Scan ℕ) → Alike (found ls t) v → (p : ℕ) × (v ≡ found p t)
Alike-found ls t spent a = absurd a
Alike-found ls t malformed a = absurd a
Alike-found ls t (found p s) a = (p, rw a refl)

pub question_end-headed :
    (i0 i1 f0 f1 q0 q1 a0 a1 n0 n1 r0 r1 : ℕ) (p : Msg) (ls : List Text) (t0 t1 c0 c1 : ℕ)
    (extra : Msg)
    → (q0 * 256 + q1 == 0) ≡ false
    → Spells p [] ls
    → question_end (headed i0 i1 f0 f1 q0 q1 a0 a1 n0 n1 r0 r1 (p ++ t0 ∷ t1 ∷ c0 ∷ c1 ∷ extra))
      ≡ some (16 + length p)
unfolding question_end
question_end-headed i0 i1 f0 f1 q0 q1 a0 a1 n0 n1 r0 r1 p ls t0 t1 c0 c1 extra z sp =
    let t : Msg = t0 ∷ t1 ∷ c0 ∷ c1 ∷ extra in
    let s = p ++ t in
    let m = headed i0 i1 f0 f1 q0 q1 a0 a1 n0 n1 r0 r1 s in
    let long : ltb (length m) 12 ≡ false = ground arith in
    let enough : length p < suc (length m) = omega (arith, length-append p t) in
    let w : walk (suc (length m)) s [] ≡ found ls t = sp (suc (length m)) t enough in
    let (pos, v) =
      Alike-found ls t (walk_end (suc (length m)) 12 s)
        (rw w at (walk-Alike (suc (length m)) 12 s [])) in
    let count = walk_end_pos (suc (length m)) 12 s pos t v in
    let size : length m ≡ 12 + length s = omega arith in
    rw (long, z, v) (ground (arith, count, length-append p t, size))

pub take-headed :
    (i0 i1 f0 f1 q0 q1 a0 a1 n0 n1 r0 r1 : ℕ) (p : Msg) (t0 t1 c0 c1 : ℕ) (extra : Msg)
    → take
        (16 + length p)
        (headed i0 i1 f0 f1 q0 q1 a0 a1 n0 n1 r0 r1 (p ++ t0 ∷ t1 ∷ c0 ∷ c1 ∷ extra))
      ≡ headed i0 i1 f0 f1 q0 q1 a0 a1 n0 n1 r0 r1 (p ++ t0 ∷ t1 ∷ c0 ∷ c1 ∷ [])
take-headed i0 i1 f0 f1 q0 q1 a0 a1 n0 n1 r0 r1 p t0 t1 c0 c1 extra =
    let four : Msg = t0 ∷ t1 ∷ c0 ∷ c1 ∷ [] in
    let u = headed i0 i1 f0 f1 q0 q1 a0 a1 n0 n1 r0 r1 (p ++ four) in
    let size : 16 + length p ≡ length u = omega (arith, length-append p four) in
    let join_up : p ++ t0 ∷ t1 ∷ c0 ∷ c1 ∷ extra ≡ (p ++ four) ++ extra =
      sym (append_assoc p four extra) in
    rw (size, join_up) (take-length u extra)
