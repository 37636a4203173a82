-- ===== src/Dns.antt =====
-- internal/dns/server.go: the embedded resolver's reading of a query and the replies it builds.
-- A message is a list of bytes. The cursor `pos` of the two label walks is kept as the bytes from
-- it on, so `pos >= len(msg)` is an empty list, and `questionEnd` carries the number as well. The
-- walks are on fuel; one more than the bytes left is enough (Dns/Walk). The sockets and the
-- upstream resolver are outside: `handle` takes what `forward` returns as a function.
pub mod Walk
pub mod Layout
pub mod Headed
pub mod Parse
pub mod Bits
pub mod Reply
pub mod Local
pub mod RoundTrip
mod Tests
use Prim.Native.Nat.{bit_and, bit_or}
use local_vibe.Base.{
  ℕ, zero, suc, ◌+◌, ◌-◌, ◌*◌, ◌/◌, ◌%◌, Bool, true, false, not, ◌&&◌, ◌||◌, Option, none, some,
  List, [], ◌∷◌, ◌++◌, Text, codes, ltb, leb, ◌==◌, if◌then◌else◌, length, take, drop, get_or, set,
  text_eq, to_lower, trim_suffix, has_suffix, join,
}

abbrev pub Msg : Type 0
Msg = List ℕ

abbrev pub flag_response : ℕ
flag_response = 0x8000

abbrev pub flag_recursion_avail : ℕ
flag_recursion_avail = 0x0080

abbrev pub rcode_serv_fail : ℕ
rcode_serv_fail = 2

abbrev pub type_a : ℕ
type_a = 1

abbrev pub type_aaaa : ℕ
type_aaaa = 28

abbrev pub class_in : ℕ
class_in = 1

-- `binary.BigEndian.Uint16(msg[i:])` and `PutUint16`.
abbrev pub get16 : Msg → ℕ → ℕ
get16 m i = get_or m i 0 * 256 + get_or m (i + 1) 0

abbrev pub put16 : Msg → ℕ → ℕ → Msg
put16 m i v = set (set m i (v / 256 % 256)) (i + 1) (v % 256)

-- How a walk over the labels of a name ends.
pub data Scan {ℓ} (A : Type ℓ) : Type ℓ where
  spent : Scan A
  malformed : Scan A
  found : A → Msg → Scan A

-- The loop of `parseQuestion`: the labels read so far, and the bytes behind the name.
pub walk : ℕ → Msg → List Text → Scan (List Text)
walk zero s labels = spent
walk (suc fuel) [] labels = malformed
walk (suc fuel) (l ∷ s) labels =
    let rest = walk fuel (drop l s) (labels ++ take l s ∷ []) in
    if l == 0
    then found labels s
    else if not (bit_and l 0xC0 == 0)
    then malformed
    else if ltb (length s) l
    then malformed
    else rest

-- The loop of `questionEnd`.
pub walk_end : ℕ → ℕ → Msg → Scan ℕ
walk_end zero pos s = spent
walk_end (suc fuel) pos [] = malformed
walk_end (suc fuel) pos (l ∷ s) =
    let rest = walk_end fuel (pos + 1 + l) (drop l s) in
    if l == 0
    then found (pos + 1) s
    else if not (bit_and l 0xC0 == 0)
    then malformed
    else if ltb (length s) l
    then malformed
    else rest

pub record Question : Type 0 where
  pub name : Text
  pub qtype : ℕ
  pub qclass : ℕ

-- What `parseQuestion` does behind the name.
abbrev pub read_tail : Scan (List Text) → Option Question
read_tail spent = none
read_tail malformed = none
read_tail (found labels s) =
    if ltb (length s) 4
    then none
    else some (record { name = join labels b'.'; qtype = get16 s 0; qclass = get16 s 2 })

pub parse_question : Msg → Option Question
parse_question m =
    if ltb (length m) 12
    then none
    else if get16 m 4 == 0
    then none
    else read_tail (walk (suc (length m)) (drop 12 m) [])

-- The -1 of `questionEnd` is `none`.
abbrev pub end_tail : ℕ → Scan ℕ → Option ℕ
end_tail size spent = none
end_tail size malformed = none
end_tail size (found pos s) = if ltb size (pos + 4) then none else some (pos + 4)

pub question_end : Msg → Option ℕ
question_end m =
    if ltb (length m) 12
    then none
    else if get16 m 4 == 0
    then some 12
    else end_tail (length m) (walk_end (suc (length m)) 12 (drop 12 m))

-- flags |= flagResponse | flagRecursionAvail; flags &^= 0x000F
abbrev pub reply_flags : ℕ → ℕ
reply_flags flags = bit_and (bit_or flags (bit_or flag_response flag_recursion_avail)) 0xFFF0

-- ANCOUNT, NSCOUNT and ARCOUNT cleared.
abbrev pub clear_counts : Msg → Msg
clear_counts m = put16 (put16 (put16 m 6 0) 8 0) 10 0

-- flags |= rcodeServFail after that, on the header of a reply.
abbrev pub mark_failed : Msg → Msg
mark_failed resp = put16 resp 2 (bit_or (reply_flags (get16 resp 2)) rcode_serv_fail)

pub servfail : Msg → Msg
servfail query =
    let bare = clear_counts (put16 (mark_failed (take 12 query)) 4 0) in
    if ltb (length query) 12 then query else elim (question_end query) [
      | none ↦ bare
      | some stop ↦
          if ltb 0 stop && leb stop (length query)
          then clear_counts (mark_failed (take stop query))
          else bare
    ]

-- The answer record: a pointer to offset 12, type A, class IN, TTL 60, four bytes 127.0.0.1.
abbrev pub answer : Msg
answer = 0xC0 ∷ 0x0C ∷ 0 ∷ type_a ∷ 0 ∷ class_in ∷ 0 ∷ 0 ∷ 0 ∷ 0x3C ∷ 0 ∷ 4 ∷ 127 ∷ 0 ∷ 0 ∷ 1 ∷ []

pub build_local_response : Msg → ℕ → Msg
build_local_response query qtype = elim (question_end query) [
  | none ↦ servfail query
  | some stop ↦
      let cut = take stop query in
      let resp = clear_counts (put16 cut 2 (reply_flags (get16 cut 2))) in
      if not (qtype == type_a) then resp else put16 (resp ++ answer) 6 1
]

pub name_ends_in_tld : Text → Text → Bool
name_ends_in_tld name tld =
    let n = trim_suffix (to_lower name) (codes ".") in
    let t = to_lower tld in text_eq n t || has_suffix n (codes "." ++ t)

-- The reply that `handle` writes, if it writes one. `forward` is the upstream's answer.
pub handle : Text → (Msg → Option Msg) → Msg → Option Msg
handle tld forward query = if ltb (length query) 12 then none else elim (parse_question query) [
  | none ↦ none
  | some q ↦
      if q.qclass == class_in
        && (q.qtype == type_a || q.qtype == type_aaaa)
        && name_ends_in_tld q.name tld
      then some (build_local_response query q.qtype)
      else elim (forward query) [ none ↦ some (servfail query) | some resp ↦ some resp ]
]
