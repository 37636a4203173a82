-- ===== src/Dns/Tests.antt =====
-- Tests of the resolver, and its theorems at one query: myapp.vibe, type A, with an OPT record.
use local_vibe.Base.{
  suc, length, ◌≡◌, ◌≢◌, refl, List, [], ◌∷◌, ◌++◌, Text, Option, none, some, arith, codes, join,
  ◌/◌, ◌%◌,
}
use local_vibe.Dns.{
  Msg, spent, Question, walk, walk_end, parse_question, question_end, build_local_response, handle,
  name_ends_in_tld, answer,
}
use local_vibe.Dns.Walk.{walks_end}
use local_vibe.Dns.Headed.{headed}
use local_vibe.Dns.Reply.{Answers}
use local_vibe.Dns.Local.{handle-local}
use local_vibe.Dns.RoundTrip.{encode_name, parse_question-encode_name}

abbrev labels : List Text
labels = codes "myapp" ∷ codes "Vibe" ∷ []

abbrev question : Msg
question = encode_name labels ++ 0 ∷ 1 ∷ 0 ∷ 1 ∷ []

abbrev query : Msg
query = headed 0x12 0x34 1 0 0 1 0 0 0 0 0 1 (question ++ 0 ∷ 0 ∷ 41 ∷ [])

abbrev asked : Question
asked = record { name = codes "myapp.Vibe"; qtype = 1; qclass = 1 }

parses : parse_question query ≡ some asked
unfolding parse_question walk
parses = refl

replies :
    build_local_response query 1 ≡ headed 0x12 0x34 0x81 0x80 0 1 0 1 0 0 0 0 (question ++ answer)
unfolding build_local_response question_end walk_end
replies = refl

abbrev no_upstream : Msg → Option Msg
no_upstream m = none

abbrev foreign : Msg
foreign =
    headed 0x12 0x34 1 0 0 1 0 0 0 0 0 0
      (encode_name (codes "go" ∷ codes "dev" ∷ []) ++ 0 ∷ 1 ∷ 0 ∷ 1 ∷ [])

abbrev foreign_asked : Question
foreign_asked = record { name = codes "go.dev"; qtype = 1; qclass = 1 }

foreign_parses : parse_question foreign ≡ some foreign_asked
unfolding parse_question walk
foreign_parses = refl

-- A label length with pointer bits stops both walks.
pointer_refused :
    (parse_question (headed 0 1 1 0 0 1 0 0 0 0 0 0 (0xC0 ∷ 12 ∷ 0 ∷ 1 ∷ 0 ∷ 1 ∷ [])) ≡ none)
    × (question_end (headed 0 1 1 0 0 1 0 0 0 0 0 0 (0xC0 ∷ 12 ∷ 0 ∷ 1 ∷ 0 ∷ 1 ∷ [])) ≡ none)
unfolding parse_question question_end walk walk_end
pointer_refused = (refl, refl)

walks_end_example :
    (walk 17 question [] ≢ spent)
    × (walk_end 17 0 question ≢ spent)
    × (walk 17 question [] ≡ walk (suc (length question)) question [])
    × (walk_end 17 0 question ≡ walk_end (suc (length question)) 0 question)
walks_end_example = walks_end 17 0 question [] (omega arith)

handle-local_example :
    (handle (codes "vibe") no_upstream query ≡ some (build_local_response query 1))
    × Answers query asked 0 1 answer (build_local_response query 1)
unfolding name_ends_in_tld
handle-local_example = handle-local (codes "vibe") no_upstream query asked (omega arith) parses refl

parse_question-encode_name_example :
    parse_question (
      headed 0 7 1 0 0 1 0 0 0 0 0 0
        (encode_name labels ++ 28 / 256 ∷ 28 % 256 ∷ 1 / 256 ∷ 1 % 256 ∷ []))
    ≡ some (record { name = join labels b'.'; qtype = 28; qclass = 1 })
parse_question-encode_name_example =
    parse_question-encode_name 0 7 1 0 0 0 0 0 0 0 labels 28 1 [] (omega arith) (omega arith)
      (omega arith)
