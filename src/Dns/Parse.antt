-- ===== src/Dns/Parse.antt =====
-- `parseQuestion` and `questionEnd` (internal/dns/server.go) agree, and stay inside the message.
use local_vibe.Base.{
  ℕ, zero, suc, ◌+◌, ◌≤◌, ◌<◌, ◌≡◌, refl, inl, inr, Bool-cases, false, not, ◌&&◌, ltb, ◌==◌, List,
  [], ◌∷◌, Text, some, arith, length, drop, length-drop, is_some,
}
use local_vibe.Dns.{
  Msg, Scan, spent, malformed, found, walk, walk_end, get16, read_tail, end_tail, parse_question,
  question_end,
}
use local_vibe.Dns.Walk.{Alike, walk-Alike, walk_end_pos}

tail_agree :
    (size : ℕ) (w : Scan (List Text)) (v : Scan ℕ)
    → Alike w v
    → ((p : ℕ) (t : Msg) → v ≡ found p t → p + length t ≡ size)
    → is_some (read_tail w) ≡ is_some (end_tail size v)
tail_agree size spent spent a h = refl
tail_agree size spent malformed a h = absurd a
tail_agree size spent (found _ _) a h = absurd a
tail_agree size malformed malformed a h = refl
tail_agree size malformed spent a h = absurd a
tail_agree size malformed (found _ _) a h = absurd a
tail_agree size (found _ _) spent a h = absurd a
tail_agree size (found _ _) malformed a h = absurd a
tail_agree size (found ls s) (found p t) a h = ground (arith, h p t refl, a)

-- Behind the name `questionEnd` has counted every byte before the rest.
walk_end_size :
    (m : Msg)
    → ltb (length m) 12 ≡ false
    → (p : ℕ) (t : Msg) → walk_end (suc (length m)) 12 (drop 12 m) ≡ found p t
    → p + length t ≡ length m
walk_end_size m h p t k =
    ground (arith, walk_end_pos (suc (length m)) 12 (drop 12 m) p t, length-drop 12 m)

-- A message is parsed exactly if it has a question count other than zero and `questionEnd`
-- finds the end of the question.
pub parse_question-question_end :
    (m : Msg) → is_some (parse_question m) ≡ (not (get16 m 4 == 0) && is_some (question_end m))
unfolding parse_question question_end
parse_question-question_end m = elim (Bool-cases (ltb (length m) 12)) [
  | inl e ↦ ground arith
  | inr e ↦ elim (Bool-cases (get16 m 4 == 0)) [
    | inl z ↦ rw (e, z) refl
    | inr z ↦
        rw (e, z)
          (tail_agree (length m) (walk (suc (length m)) (drop 12 m) [])
            (walk_end (suc (length m)) 12 (drop 12 m))
            (walk-Alike (suc (length m)) 12 (drop 12 m) []) (walk_end_size m e))
  ]
]

end_tail_le : (size : ℕ) (v : Scan ℕ) (e : ℕ) → end_tail size v ≡ some e → e ≤ size
end_tail_le size spent e k = cc
end_tail_le size malformed e k = cc
end_tail_le size (found p t) e k = ground arith

walk_end_ge : (fuel pos : ℕ) (s : Msg) (p : ℕ) (t : Msg) → walk_end fuel pos s ≡ found p t → pos < p
unfolding walk_end
walk_end_ge zero pos s p t h = cc
walk_end_ge (suc fuel) pos [] p t h = cc
walk_end_ge (suc fuel) pos (l ∷ s) p t h =
    ground (arith, walk_end_ge fuel (pos + 1 + l) (drop l s) p t)

end_tail_gt :
    (size : ℕ) (v : Scan ℕ) (e : ℕ)
    → ((p : ℕ) (t : Msg) → v ≡ found p t → 12 < p)
    → end_tail size v ≡ some e
    → 12 < e
end_tail_gt size spent e h k = cc
end_tail_gt size malformed e h k = cc
end_tail_gt size (found p t) e h k = ground (arith, h p t refl)

-- The end of the question lies behind the header and inside the message.
pub question_end_bounds : (m : Msg) (e : ℕ) → question_end m ≡ some e → (12 ≤ e) × (e ≤ length m)
unfolding question_end
question_end_bounds m e h = elim (Bool-cases (ltb (length m) 12)) [
  | inl a ↦ ground arith
  | inr a ↦ elim (Bool-cases (get16 m 4 == 0)) [
    | inl z ↦ ground arith
    | inr z ↦
        let v = walk_end (suc (length m)) 12 (drop 12 m) in
        let k : end_tail (length m) v ≡ some e = rw (a, z) at h in
        let low : 12 < e =
          end_tail_gt (length m) v e (walk_end_ge (suc (length m)) 12 (drop 12 m)) k in
        (omega arith, end_tail_le (length m) v e k)
  ]
]
