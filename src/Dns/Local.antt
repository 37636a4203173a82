-- ===== src/Dns/Local.antt =====
-- What `buildLocalResponse`, `servfail` and `handle` (internal/dns/server.go) answer to a query that
-- `parseQuestion` accepts.
use Prim.Native.Nat.{bit_or}
use local_vibe.Base.{
  ℕ, ◌+◌, ◌*◌, ◌≡◌, ◌⊎◌, Option-cases, refl, inl, inr, Bool-cases, true, false, ◌==◌, ltb, List, [],
  ◌∷◌, ◌++◌, Text, Option, none, some, arith, length, join, if◌then◌else◌, ◌&&◌, ◌||◌, Bool,
}
use local_vibe.Dns.{
  Msg, Question, parse_question, type_a, type_aaaa, class_in, answer, reply_flags, rcode_serv_fail,
  servfail, build_local_response, handle, name_ends_in_tld,
}
use local_vibe.Dns.Layout.{Layout, Spells, parsed_Layout}
use local_vibe.Dns.Bits.{reply_flags-IsReply, failed_flags-IsReply, IsBytes, get16_bound}
use local_vibe.Dns.Headed.{headed}
use local_vibe.Dns.Reply.{Answers, local_a, local_other, failed, reply-Answers}

-- What `buildLocalResponse` counts and appends for a type.
abbrev pub answer_count : ℕ → ℕ
answer_count qtype = if qtype == type_a then 1 else 0

abbrev pub answer_bytes : ℕ → Msg
answer_bytes qtype = if qtype == type_a then answer else []

twelve :
    (h : Msg)
    → length h ≡ 12
    → (i0 i1 f0 f1 q0 q1 a0 a1 n0 n1 r0 r1 : ℕ) × (h
        ≡ headed i0 i1 f0 f1 q0 q1 a0 a1 n0 n1 r0 r1 [])
twelve (i0 ∷ i1 ∷ f0 ∷ f1 ∷ q0 ∷ q1 ∷ a0 ∷ a1 ∷ n0 ∷ n1 ∷ r0 ∷ r1 ∷ []) e =
    (i0, i1, f0, f1, q0, q1, a0, a1, n0, n1, r0, r1, refl)
twelve _ e = absurd (omega arith)

-- To prove something of every accepted query, prove it of those that are written out.
written_out :
    (P : Msg → Question → Type 0)
    → ((i0 i1 f0 f1 q0 q1 a0 a1 n0 n1 r0 r1 : ℕ) (p : Msg) (ls : List Text) (t0 t1 c0 c1 : ℕ)
          (extra : Msg) (counted : (q0 * 256 + q1 == 0) ≡ false) (spells : Spells p [] ls)
        → P
            (headed i0 i1 f0 f1 q0 q1 a0 a1 n0 n1 r0 r1 (p ++ t0 ∷ t1 ∷ c0 ∷ c1 ∷ extra))
            (record { name = join ls b'.'; qtype = t0 * 256 + t1; qclass = c0 * 256 + c1 }))
    → (m : Msg) (q : Question) → parse_question m ≡ some q
    → P m q
written_out P h m q e =
    let l = parsed_Layout m q e in
    let (i0, i1, f0, f1, q0, q1, a0, a1, n0, n1, r0, r1, first) = twelve l.head l.head_size in
    go i0 i1 f0 f1 q0 q1 a0 a1 n0 n1 r0 r1 l first
  where
    go :
        (i0 i1 f0 f1 q0 q1 a0 a1 n0 n1 r0 r1 : ℕ) (l : Layout m q)
        → l.head ≡ headed i0 i1 f0 f1 q0 q1 a0 a1 n0 n1 r0 r1 []
        → P m q
    go i0 i1 f0 f1 q0 q1 a0 a1 n0 n1 r0 r1 l first =
        let whole : m
            ≡ headed i0 i1 f0 f1 q0 q1 a0 a1 n0 n1 r0 r1
                (l.name_bytes ++ l.t0 ∷ l.t1 ∷ l.c0 ∷ l.c1 ∷ l.extra) =
          rw first at l.bytes in
        let counted : (q0 * 256 + q1 == 0) ≡ false = rw whole at l.counted in
        rw (whole, l.question)
          (h i0 i1 f0 f1 q0 q1 a0 a1 n0 n1 r0 r1 l.name_bytes l.labels l.t0 l.t1 l.c0 l.c1 l.extra
            counted l.spells)

-- A local reply to an accepted query keeps its ID and question, is marked as an answer without
-- error, and carries the one A record 127.0.0.1 if the type is A and no record otherwise.
pub build_local_response-Answers :
    (m : Msg) (q : Question)
    → IsBytes m
    → parse_question m ≡ some q
    → Answers m q 0 (answer_count q.qtype) (answer_bytes q.qtype) (build_local_response m q.qtype)
build_local_response-Answers m q bytes e =
    written_out
      (λ m' q'.
        IsBytes m'
        → Answers m' q' 0 (answer_count q'.qtype) (answer_bytes q'.qtype)
            (build_local_response m' q'.qtype))
      (λ i0 i1 f0 f1 q0 q1 a0 a1 n0 n1 r0 r1 p ls t0 t1 c0 c1 extra counted spells b.
        let m' = headed i0 i1 f0 f1 q0 q1 a0 a1 n0 n1 r0 r1 (p ++ t0 ∷ t1 ∷ c0 ∷ c1 ∷ extra) in
        let f = reply_flags-IsReply (f0 * 256 + f1) (get16_bound m' 2 b) in
        elim (Bool-cases (t0 * 256 + t1 == type_a)) [
          | inl a ↦
              rw
                (
                  local_a i0 i1 f0 f1 q0 q1 a0 a1 n0 n1 r0 r1 p ls t0 t1 c0 c1 extra counted spells
                      (t0 * 256 + t1) (rw a refl),
                  a,
                )
                (reply-Answers i0 i1 f0 f1 q0 q1 a0 a1 n0 n1 r0 r1 p ls t0 t1 c0 c1 extra counted
                  spells (reply_flags (f0 * 256 + f1)) 0 1 answer f)
          | inr a ↦
              rw
                (
                  local_other i0 i1 f0 f1 q0 q1 a0 a1 n0 n1 r0 r1 p ls t0 t1 c0 c1 extra counted
                      spells (t0 * 256 + t1) (rw a refl),
                  a,
                )
                (reply-Answers i0 i1 f0 f1 q0 q1 a0 a1 n0 n1 r0 r1 p ls t0 t1 c0 c1 extra counted
                  spells (reply_flags (f0 * 256 + f1)) 0 0 [] f)
        ])
      m q e bytes

-- A failure reply to an accepted query keeps its ID and question, has RCODE 2 and no record.
pub servfail-Answers :
    (m : Msg) (q : Question)
    → IsBytes m
    → parse_question m ≡ some q
    → Answers m q 2 0 [] (servfail m)
servfail-Answers m q bytes e =
    written_out (λ m' q'. IsBytes m' → Answers m' q' 2 0 [] (servfail m'))
      (λ i0 i1 f0 f1 q0 q1 a0 a1 n0 n1 r0 r1 p ls t0 t1 c0 c1 extra counted spells b.
        let m' = headed i0 i1 f0 f1 q0 q1 a0 a1 n0 n1 r0 r1 (p ++ t0 ∷ t1 ∷ c0 ∷ c1 ∷ extra) in
        let f = failed_flags-IsReply (f0 * 256 + f1) (get16_bound m' 2 b) in
        rw (failed i0 i1 f0 f1 q0 q1 a0 a1 n0 n1 r0 r1 p ls t0 t1 c0 c1 extra counted spells) (
          reply-Answers i0 i1 f0 f1 q0 q1 a0 a1 n0 n1 r0 r1 p ls t0 t1 c0 c1 extra counted spells
            (bit_or (reply_flags (f0 * 256 + f1)) rcode_serv_fail) 2 0 [] f))
      m q e bytes

-- Whether `handle` answers a question itself.
abbrev pub is_local : Text → Question → Bool
is_local tld q =
    q.qclass == class_in
    && (q.qtype == type_a || q.qtype == type_aaaa)
    && name_ends_in_tld q.name tld

long_enough : (m : Msg) (q : Question) → parse_question m ≡ some q → ltb (length m) 12 ≡ false
unfolding parse_question
long_enough m q h = ground arith

-- A query for A or AAAA under the TLD is answered from here, whatever the upstream does.
-- The reply keeps the ID and the question, and answers an A query with 127.0.0.1 alone.
pub handle-local :
    (tld : Text) (forward : Msg → Option Msg) (m : Msg) (q : Question)
    → IsBytes m
    → parse_question m ≡ some q
    → is_local tld q ≡ true
    → (handle tld forward m ≡ some (build_local_response m q.qtype))
      × Answers m q 0 (answer_count q.qtype) (answer_bytes q.qtype) (build_local_response m q.qtype)
unfolding handle
handle-local tld forward m q bytes e here =
    (rw (long_enough m q e, e, here) refl, build_local_response-Answers m q bytes e)

-- Any other accepted query gets the upstream's reply byte for byte.
-- Where the upstream fails, the reply has RCODE 2, the query's ID and its question.
pub handle-upstream :
    (tld : Text) (forward : Msg → Option Msg) (m : Msg) (q : Question)
    → IsBytes m
    → parse_question m ≡ some q
    → is_local tld q ≡ false
    → ((r : Msg) × (forward m ≡ some r) × (handle tld forward m ≡ some r))
      ⊎ ((forward m ≡ none)
          × (handle tld forward m ≡ some (servfail m))
          × Answers m q 2 0 [] (servfail m))
unfolding handle
handle-upstream tld forward m q bytes e away = elim (Option-cases (forward m)) [
  | inl f ↦ inr (f, rw (long_enough m q e, e, away, f) refl, servfail-Answers m q bytes e)
  | inr (r, f) ↦ inl (r, f, rw (long_enough m q e, e, away, f) refl)
]
