-- ===== src/Ports/Reserve.antt =====
-- The validation of reserve ports (internal/daemon/api.go, `validateReservePorts`).
use local_vibe.Base.{
  ℕ, ◌+◌, ◌≤◌, true, false, ◌||◌, ◌≡◌, ◌≢◌, refl, inl, inr, Option-cases, none, ok, ok_injective,
  err-ne-ok, List, [], ◌∷◌, ◌++◌, Text, codes, arith, ◌==◌, text_eq, text_eq_iff, to_lower,
  trim_space, insert, has_key, lookup, All, All-append, length, length-append, trim_right, is_space,
  and_true, to_lower_idem, ap, sym, ◌∙◌,
}
use mathlib.Core.List.{append_assoc, append-nil}
use local_vibe.Ports.{
  reserve_port_name_pattern, is_word, all_word, seen, entry_error, validate_loop,
  validate_reserve_ports, port_values,
}

-- An entry that the start of the route can use: a name for an environment variable, not "port", and a port
-- of its own.
pub record IsReserve (primary oauth : ℕ) (e : Text × ℕ) : Type 0 where
  pub named : reserve_port_name_pattern e.0 ≡ true
  pub normal : to_lower (trim_space e.0) ≡ e.0
  pub not_port : text_eq (to_lower e.0) (codes "port") ≡ false
  pub low : 1 ≤ e.1
  pub high : e.1 ≤ 65535
  pub not_primary : e.1 ≢ primary
  pub not_callback : e.1 ≢ oauth

-- No two entries have a name or a port in common.
abbrev pub IsDistinct : List (Text × ℕ) → Type 0
IsDistinct [] = Unit
IsDistinct ((k, p) ∷ m) = (has_key k m ≡ false) × (seen p (port_values m) ≡ false) × IsDistinct m

word_space : (c : ℕ) → is_word c ≡ true → is_space c ≡ false
word_space c h = ground arith

all_word-trim_right : (s : Text) → all_word s ≡ true → trim_right is_space s ≡ s
all_word-trim_right [] h = refl
all_word-trim_right (c ∷ s) h = ground (arith, all_word-trim_right s, word_space c)

-- A name that matches the pattern has nothing to trim.
pattern-trim_space : (s : Text) → reserve_port_name_pattern s ≡ true → trim_space s ≡ s
pattern-trim_space [] h = cc
pattern-trim_space (c ∷ s) h =
    let word : all_word (c ∷ s) ≡ true = ground arith in
    rw (word_space c (and_true (is_word c) (all_word s) word).0) (all_word-trim_right (c ∷ s) word)

entry_error-IsReserve :
    (primary oauth : ℕ) (ports : List ℕ) (out : List (Text × ℕ)) (raw name : Text) (p : ℕ)
    → name ≡ to_lower (trim_space raw)
    → entry_error primary oauth ports out name p ≡ none
    → IsReserve primary oauth (name, p) × (seen p ports ≡ false) × (has_key name out ≡ false)
entry_error-IsReserve primary oauth ports out raw name p q h =
    let named : reserve_port_name_pattern name ≡ true = ground arith in
    (
      record {
        named = named;
        normal =
            ap to_lower (pattern-trim_space name named)
            ∙ (ap to_lower q ∙ (to_lower_idem (trim_space raw) ∙ sym q));
        not_port = ground arith;
        low = ground arith;
        high = ground arith;
        not_primary = ground arith;
        not_callback = ground arith;
      },
      ground arith,
      ground arith,
    )

insert_fresh :
    (k : Text) (v : ℕ) (m : List (Text × ℕ)) → has_key k m ≡ false → insert k v m ≡ m ++ (k, v) ∷ []
unfolding insert lookup
insert_fresh k v [] h = refl
insert_fresh k v ((j, w) ∷ m) h = ground (arith, insert_fresh k v m)

seen-append :
    (q p : ℕ) (k : Text) (m : List (Text × ℕ))
    → seen q (port_values (m ++ (k, p) ∷ [])) ≡ (p == q || seen q (port_values m))
seen-append q p k [] = refl
seen-append q p k ((j, w) ∷ m) = ground (arith, seen-append q p k m)

has_key-append :
    (j k : Text) (p : ℕ) (m : List (Text × ℕ))
    → has_key j (m ++ (k, p) ∷ []) ≡ (has_key j m || text_eq k j)
unfolding lookup
has_key-append j k p [] = ground arith
has_key-append j k p ((i, w) ∷ m) = ground (arith, has_key-append j k p m)

append-IsDistinct :
    (k : Text) (p : ℕ) (m : List (Text × ℕ))
    → has_key k m ≡ false
    → seen p (port_values m) ≡ false
    → IsDistinct m
    → IsDistinct (m ++ (k, p) ∷ [])
unfolding lookup
append-IsDistinct k p [] a b h = (refl, refl, tt)
append-IsDistinct k p ((j, w) ∷ m) a b (x, y, h) = (
  ground (arith, has_key-append j k p m, text_eq_iff j k, text_eq_iff k j),
  ground (arith, seen-append w p k m),
  append-IsDistinct k p m (ground arith) (ground arith) h,
)

-- What holds between two turns of the loop.
record IsTaken (primary oauth : ℕ) (ports : List ℕ) (out : List (Text × ℕ)) : Type 0 where
  entries : All (IsReserve primary oauth) out
  distinct : IsDistinct out
  same : (q : ℕ) → seen q ports ≡ seen q (port_values out)

take_entry :
    (primary oauth : ℕ) (ports : List ℕ) (out : List (Text × ℕ)) (name : Text) (p : ℕ)
    → IsTaken primary oauth ports out
    → IsReserve primary oauth (name, p)
    → seen p ports ≡ false
    → has_key name out ≡ false
    → IsTaken primary oauth (p ∷ ports) (out ++ (name, p) ∷ [])
take_entry primary oauth ports out name p h e a b = record {
  entries = All-append (IsReserve primary oauth) out ((name, p) ∷ []) h.entries (e, tt);
  distinct = append-IsDistinct name p out b (sym (h.same p) ∙ a) h.distinct;
  same = λ q. ground (arith, seen-append q p name out, h.same q);
}

validate_loop_sound :
    (primary oauth : ℕ) (rest : List (Text × ℕ)) (ports : List ℕ) (out taken : List (Text × ℕ))
    → IsTaken primary oauth ports out
    → validate_loop primary oauth rest ports out ≡ ok taken
    → All (IsReserve primary oauth) taken
      × IsDistinct taken
      × (length taken ≡ length out + length rest)
unfolding validate_loop
validate_loop_sound primary oauth [] ports out taken h e =
    rw (← ok_injective e) (h.entries, h.distinct, ground arith)
validate_loop_sound primary oauth ((raw, p) ∷ rest) ports out taken h e =
    let name = to_lower (trim_space raw) in
    elim (Option-cases (entry_error primary oauth ports out name p)) [
      | inr (x, f) ↦ absurd (err-ne-ok (rw (f, validate_loop) at e))
      | inl f ↦
          let (good, p_new, k_new) =
            entry_error-IsReserve primary oauth ports out raw name p refl f in
          let more : validate_loop primary oauth rest (p ∷ ports) (out ++ (name, p) ∷ [])
              ≡ ok taken =
            rw (f, validate_loop, insert_fresh name p out k_new) at e in
          let (a, b, size) =
            validate_loop_sound primary oauth rest (p ∷ ports) (out ++ (name, p) ∷ []) taken
              (take_entry primary oauth ports out name p h good p_new k_new) more in
          (a, b, ground (arith, length-append out ((name, p) ∷ [])))
    ]

-- Accepted reserve ports are as many as were given; each name is in lower case, fits an environment variable
-- and is not "port"; each port is from 1 to 65535 and neither the primary nor the callback port; and no name or
-- port occurs twice.
pub validate_reserve_ports_sound :
    (reserve : List (Text × ℕ)) (primary oauth : ℕ) (taken : List (Text × ℕ))
    → validate_reserve_ports reserve primary oauth ≡ ok taken
    → All (IsReserve primary oauth) taken × IsDistinct taken × (length taken ≡ length reserve)
unfolding validate_reserve_ports
validate_reserve_ports_sound reserve primary oauth taken e =
    let start : IsTaken primary oauth [] [] = record {
      entries = tt;
      distinct = tt;
      same = λ q. refl;
    } in
    let (a, b, size) = validate_loop_sound primary oauth reserve [] [] taken start e in
    (a, b, omega arith)

has_key-there :
    (k : Text) (p : ℕ) (m rest : List (Text × ℕ)) → has_key k (m ++ (k, p) ∷ rest) ≡ true
unfolding lookup
has_key-there k p [] rest = ground (arith, text_eq_iff k k)
has_key-there k p ((j, w) ∷ m) rest = ground (arith, has_key-there k p m rest)

seen-there :
    (k : Text) (p : ℕ) (m rest : List (Text × ℕ)) → seen p (port_values (m ++ (k, p) ∷ rest)) ≡ true
seen-there k p [] rest = ground arith
seen-there k p ((j, w) ∷ m) rest = ground (arith, seen-there k p m rest)

-- In a distinct list an entry is new to those in front of it.
distinct_new :
    (k : Text) (p : ℕ) (m rest : List (Text × ℕ))
    → IsDistinct (m ++ (k, p) ∷ rest)
    → (has_key k m ≡ false) × (seen p (port_values m) ≡ false)
unfolding lookup
distinct_new k p [] rest h = (refl, refl)
distinct_new k p ((j, w) ∷ m) rest (a, b, h) =
    let (x, y) = distinct_new k p m rest h in
    (
      ground (arith, has_key-there k p m rest, text_eq_iff j k),
      ground (arith, seen-there k p m rest),
    )

entry_error-none :
    (primary oauth : ℕ) (ports : List ℕ) (out : List (Text × ℕ)) (name : Text) (p : ℕ)
    → IsReserve primary oauth (name, p)
    → seen p ports ≡ false
    → has_key name out ≡ false
    → entry_error primary oauth ports out name p ≡ none
entry_error-none primary oauth ports out [] p h a b = absurd (ground (arith, h.named))
entry_error-none primary oauth ports out (c ∷ s) p h a b =
    rw (h.named, h.not_port) (ground (arith, h.low, h.high, h.not_primary, h.not_callback))

validate_loop_complete :
    (primary oauth : ℕ) (rest : List (Text × ℕ)) (ports : List ℕ) (out : List (Text × ℕ))
    → IsTaken primary oauth ports out
    → All (IsReserve primary oauth) rest
    → IsDistinct (out ++ rest)
    → validate_loop primary oauth rest ports out ≡ ok (out ++ rest)
unfolding validate_loop
validate_loop_complete primary oauth [] ports out h good d = ap ok (sym (append-nil out))
validate_loop_complete primary oauth ((name, p) ∷ rest) ports out h (e, good) d =
    let (k_new, p_new) = distinct_new name p out rest d in
    let unseen : seen p ports ≡ false = h.same p ∙ p_new in
    rw
      (
        validate_loop,
        e.normal,
        entry_error-none primary oauth ports out name p e unseen k_new,
        e.normal,
        insert_fresh name p out k_new,
        ← append_assoc out ((name, p) ∷ []) rest,
      )
      (validate_loop_complete primary oauth rest (p ∷ ports) (out ++ (name, p) ∷ [])
        (take_entry primary oauth ports out name p h e unseen k_new) good
        (rw (append_assoc out ((name, p) ∷ []) rest) d))

-- Accepted reserve ports are accepted again, unchanged: what a route stores passes when it is read back.
pub validate_reserve_ports_again :
    (reserve : List (Text × ℕ)) (primary oauth : ℕ) (taken : List (Text × ℕ))
    → validate_reserve_ports reserve primary oauth ≡ ok taken
    → validate_reserve_ports taken primary oauth ≡ ok taken
unfolding validate_reserve_ports
validate_reserve_ports_again reserve primary oauth taken e =
    let (good, d, size) = validate_reserve_ports_sound reserve primary oauth taken e in
    validate_loop_complete primary oauth taken [] []
      (record { entries = tt; distinct = tt; same = λ q. refl }) good d
