-- ===== src/Dns/RoundTrip.antt =====
-- Names on the wire and back, and names under the TLD (internal/dns/server.go, `parseQuestion` and
-- `nameEndsInTLD`).
use local_vibe.Base.{
  ℕ, ◌/◌, ◌%◌, ◌<◌, ◌≡◌, ◌⊎◌, ◌↔◌, refl, sym, inl, inr, Bool-cases, true, List, [], ◌∷◌, ◌++◌, ◌∙◌,
  ◌||◌, Text, some, arith, length, join, codes, All, to_lower, trim_suffix, text_eq, text_eq→eq,
  text_eq_refl, has_suffix, has_suffix-append, cut_suffix, cut_suffix_sound, Option-cases,
}
use mathlib.Core.List.{append_assoc, append-nil}
use local_vibe.Dns.{Msg, parse_question, name_ends_in_tld}
use local_vibe.Dns.Layout.{Spells, step-Spells, stop-Spells}
use local_vibe.Dns.Bits.{no_pointer}
use local_vibe.Dns.Headed.{headed, parse_question-headed}

-- A name as RFC 1035 writes it: each label behind its length, and a zero.
abbrev pub encode_name : List Text → Msg
encode_name [] = 0 ∷ []
encode_name (l ∷ ls) = length l ∷ l ++ encode_name ls

-- A label is one to 63 bytes long.
abbrev pub IsLabel : Text → Type 0
IsLabel l = (0 < length l) × (length l < 64)

encode_name-Spells :
    (ls labels : List Text) → All IsLabel ls → Spells (encode_name ls) labels (labels ++ ls)
encode_name-Spells [] labels h = stop-Spells 0 labels (labels ++ []) refl (sym (append-nil labels))
encode_name-Spells (l ∷ ls) labels (s, h) = rw (← append_assoc labels (l ∷ []) ls) (
    step-Spells (length l) l (encode_name ls) labels ((labels ++ l ∷ []) ++ ls) refl (ground arith)
      (no_pointer (length l) s.1) (encode_name-Spells ls (labels ++ l ∷ []) h))

-- A query of one question for a name with labels of one to 63 bytes, whatever its other header
-- fields and whatever follows, is parsed to the dotted name, the type and the class.
pub parse_question-encode_name :
    (i0 i1 f0 f1 a0 a1 n0 n1 r0 r1 : ℕ) (ls : List Text) (qtype qclass : ℕ) (extra : Msg)
    → All IsLabel ls
    → qtype < 0x10000
    → qclass < 0x10000
    → parse_question (
        headed i0 i1 f0 f1 0 1 a0 a1 n0 n1 r0 r1
          (encode_name ls ++ qtype / 256 ∷ qtype % 256 ∷ qclass / 256 ∷ qclass % 256 ∷ extra))
      ≡ some (record { name = join ls b'.'; qtype = qtype; qclass = qclass })
parse_question-encode_name i0 i1 f0 f1 a0 a1 n0 n1 r0 r1 ls qtype qclass extra h t c =
    parse_question-headed i0 i1 f0 f1 0 1 a0 a1 n0 n1 r0 r1 (encode_name ls) ls (qtype / 256)
      (qtype % 256) (qclass / 256) (qclass % 256) extra refl (encode_name-Spells ls [] h)
    ∙ ground arith

under :
    (n t : Text)
    → (text_eq n t || has_suffix n (codes "." ++ t)) ≡ true
    → (n ≡ t) ⊎ ((sub : Text) × (n ≡ sub ++ (codes "." ++ t)))
under n t h = elim (Bool-cases (text_eq n t)) [
  | inl e ↦ inl (text_eq→eq n t e)
  | inr e ↦ elim (Option-cases (cut_suffix n (codes "." ++ t))) [
    | inl c ↦ absurd (ground arith)
    | inr (sub, c) ↦ inr (sub, cut_suffix_sound n (codes "." ++ t) sub c)
  ]
]

above :
    (sub t : Text)
    → (text_eq (sub ++ (codes "." ++ t)) t || has_suffix (sub ++ (codes "." ++ t)) (codes "." ++ t))
      ≡ true
above sub t = ground (arith, has_suffix-append sub (codes "." ++ t))

-- A name is under the TLD exactly if, in lower case and without a final dot, it is the TLD or ends
-- in a dot and the TLD.
pub name_ends_in_tld_iff :
    (name tld : Text)
    → (name_ends_in_tld name tld ≡ true) ↔ (
        (trim_suffix (to_lower name) (codes ".") ≡ to_lower tld)
        ⊎ ((sub : Text) × (trim_suffix (to_lower name) (codes ".")
              ≡ sub ++ (codes "." ++ to_lower tld))))
unfolding name_ends_in_tld
name_ends_in_tld_iff name tld = (
  under (trim_suffix (to_lower name) (codes ".")) (to_lower tld),
  λ h. elim h [
    | inl e ↦ rw (e, text_eq_refl (to_lower tld)) refl
    | inr (sub, e) ↦ rw e (above sub (to_lower tld))
  ],
)
