-- ===== src/Dns/Reply.antt =====
-- The replies of `buildLocalResponse` and `servfail` (internal/dns/server.go).
use Prim.Native.Nat.{bit_or}
use local_vibe.Base.{
  ℕ, ◌+◌, ◌*◌, ◌/◌, ◌%◌, ◌<◌, ◌≡◌, refl, sym, true, false, not, ltb, leb, ◌==◌, ◌&&◌, List, [], ◌∷◌,
  ◌++◌, Text, some, arith, length, drop, length-append, drop-length, join,
}
use mathlib.Core.List.{append_assoc}
use local_vibe.Dns.{
  Msg, get16, Question, parse_question, question_end, type_a, answer, reply_flags, rcode_serv_fail,
  servfail, build_local_response,
}
use local_vibe.Dns.Headed.{headed, parse_question-headed, question_end-headed, take-headed}
use local_vibe.Dns.Layout.{Spells}
use local_vibe.Dns.Bits.{IsReply}

-- The header and question of a query with the flags `f`, one count, and what follows.
module _ (i0 i1 f0 f1 q0 q1 a0 a1 n0 n1 r0 r1 : ℕ) (p : Msg) (ls : List Text) (t0 t1 c0 c1 : ℕ)
    (extra : Msg) (counted : (q0 * 256 + q1 == 0) ≡ false) (spells : Spells p [] ls) where
  abbrev pub query : Msg
  query = headed i0 i1 f0 f1 q0 q1 a0 a1 n0 n1 r0 r1 (p ++ t0 ∷ t1 ∷ c0 ∷ c1 ∷ extra)

  abbrev pub reply : ℕ → ℕ → Msg → Msg
  reply f count after =
      headed i0 i1 (f / 256 % 256) (f % 256) q0 q1 0 count 0 0 0 0 (p ++ t0 ∷ t1 ∷ c0 ∷ c1 ∷ after)

  pub local_other :
      (qtype : ℕ)
      → not (qtype == type_a) ≡ true
      → build_local_response query qtype ≡ reply (reply_flags (f0 * 256 + f1)) 0 []
  unfolding build_local_response
  local_other qtype other =
      rw
        (
          question_end-headed i0 i1 f0 f1 q0 q1 a0 a1 n0 n1 r0 r1 p ls t0 t1 c0 c1 extra counted
              spells,
          take-headed i0 i1 f0 f1 q0 q1 a0 a1 n0 n1 r0 r1 p t0 t1 c0 c1 extra,
          other,
          build_local_response,
        )
        refl

  pub local_a :
      (qtype : ℕ)
      → not (qtype == type_a) ≡ false
      → build_local_response query qtype ≡ reply (reply_flags (f0 * 256 + f1)) 1 answer
  unfolding build_local_response
  local_a qtype a =
      rw
        (
          question_end-headed i0 i1 f0 f1 q0 q1 a0 a1 n0 n1 r0 r1 p ls t0 t1 c0 c1 extra counted
              spells,
          take-headed i0 i1 f0 f1 q0 q1 a0 a1 n0 n1 r0 r1 p t0 t1 c0 c1 extra,
          a,
          append_assoc p (t0 ∷ t1 ∷ c0 ∷ c1 ∷ []) answer,
          build_local_response,
        )
        refl

  pub failed : servfail query ≡ reply (bit_or (reply_flags (f0 * 256 + f1)) rcode_serv_fail) 0 []
  unfolding servfail
  failed =
      let size : length query ≡ 16 + length p + length extra =
        omega (arith, length-append p (t0 ∷ t1 ∷ c0 ∷ c1 ∷ extra)) in
      let long : ltb (length query) 12 ≡ false = ground arith in
      let inside : (ltb 0 (16 + length p) && leb (16 + length p) (length query)) ≡ true =
        ground arith in
      rw
        (
          long,
          question_end-headed i0 i1 f0 f1 q0 q1 a0 a1 n0 n1 r0 r1 p ls t0 t1 c0 c1 extra counted
              spells,
          inside,
          take-headed i0 i1 f0 f1 q0 q1 a0 a1 n0 n1 r0 r1 p t0 t1 c0 c1 extra,
        )
        refl

-- A reply `r` to `m` with the response code `rcode`, `count` answers, and the bytes `after` behind
-- the question.
pub record Answers (m : Msg) (q : Question) (rcode count : ℕ) (after r : Msg) : Type 0 where
  pub same_id : get16 r 0 ≡ get16 m 0
  pub flags : IsReply (get16 m 2) (get16 r 2) rcode
  pub questions : get16 r 4 ≡ get16 m 4
  pub answers : get16 r 6 ≡ count
  pub no_authority : get16 r 8 ≡ 0
  pub no_additional : get16 r 10 ≡ 0
  pub asked : parse_question r ≡ some q
  pub end_found : (e : ℕ) × (question_end r ≡ some e) × (drop e r ≡ after)

word_bytes : (f : ℕ) → f < 0x10000 → f / 256 % 256 * 256 + f % 256 ≡ f
word_bytes f h = omega arith

drop-headed :
    (i0 i1 f0 f1 q0 q1 a0 a1 n0 n1 r0 r1 : ℕ) (p : Msg) (t0 t1 c0 c1 : ℕ) (after : Msg)
    → drop
        (16 + length p)
        (headed i0 i1 f0 f1 q0 q1 a0 a1 n0 n1 r0 r1 (p ++ t0 ∷ t1 ∷ c0 ∷ c1 ∷ after))
      ≡ after
drop-headed i0 i1 f0 f1 q0 q1 a0 a1 n0 n1 r0 r1 p t0 t1 c0 c1 after =
    let four : Msg = t0 ∷ t1 ∷ c0 ∷ c1 ∷ [] in
    let u = headed i0 i1 f0 f1 q0 q1 a0 a1 n0 n1 r0 r1 (p ++ four) in
    let size : 16 + length p ≡ length u = omega (arith, length-append p four) in
    let join_up : p ++ t0 ∷ t1 ∷ c0 ∷ c1 ∷ after ≡ (p ++ four) ++ after =
      sym (append_assoc p four after) in
    rw (size, join_up) (drop-length u after)

pub reply-Answers :
    (i0 i1 f0 f1 q0 q1 a0 a1 n0 n1 r0 r1 : ℕ) (p : Msg) (ls : List Text) (t0 t1 c0 c1 : ℕ)
    (extra : Msg) (counted : (q0 * 256 + q1 == 0) ≡ false) (spells : Spells p [] ls)
    (f rcode count : ℕ) (after : Msg)
    → IsReply (f0 * 256 + f1) f rcode
    → Answers
        (headed i0 i1 f0 f1 q0 q1 a0 a1 n0 n1 r0 r1 (p ++ t0 ∷ t1 ∷ c0 ∷ c1 ∷ extra))
        (record { name = join ls b'.'; qtype = t0 * 256 + t1; qclass = c0 * 256 + c1 })
        rcode
        count
        after
        (reply i0 i1 f0 f1 q0 q1 a0 a1 n0 n1 r0 r1 p ls t0 t1 c0 c1 extra counted spells f count
          after)
reply-Answers i0 i1 f0 f1 q0 q1 a0 a1 n0 n1 r0 r1 p ls t0 t1 c0 c1 extra counted spells f rcode
      count after h =
    record {
      same_id = refl;
      flags = rw (word_bytes f h.word) h;
      questions = refl;
      answers = omega arith;
      no_authority = refl;
      no_additional = refl;
      asked =
          parse_question-headed i0 i1 (f / 256 % 256) (f % 256) q0 q1 0 count 0 0 0 0 p ls t0 t1 c0
            c1 after counted spells;
      end_found = (
        16 + length p,
        question_end-headed i0 i1 (f / 256 % 256) (f % 256) q0 q1 0 count 0 0 0 0 p ls t0 t1 c0 c1
            after counted spells,
        drop-headed i0 i1 (f / 256 % 256) (f % 256) q0 q1 0 count 0 0 0 0 p t0 t1 c0 c1 after,
      );
    }
