-- ===== src/Peers/Pins.antt =====
-- The pinned certificates of the paired machines (internal/daemon/peer_pair.go, `storePeer`).
use local_vibe.Base.{
  Bool, true, false, ◌||◌, ◌≡◌, ◌∙◌, refl, sym, inl, inr, Bool-cases, Option-cases, Option, none,
  some, List, [], ◌∷◌, ◌++◌, Text, arith, if◌then◌else◌, text_eq, text_eq_iff, is_some,
}
use local_vibe.Peers.{Peer, Peers, replace_pinned, with_peer, store_peer, peer_by_fingerprint}

-- Whether a fingerprint is pinned.
abbrev pub pinned : Text → List Peer → Bool
pinned fp l = is_some (peer_by_fingerprint fp l)

-- No two peers have the same fingerprint.
abbrev pub IsDistinct : List Peer → Type 0
IsDistinct [] = Unit
IsDistinct (p ∷ ps) = (pinned p.fingerprint ps ≡ false) × IsDistinct ps

abbrev pub fingerprints : List Peer → List Text
fingerprints [] = []
fingerprints (p ∷ ps) = p.fingerprint ∷ fingerprints ps

pinned-cons :
    (fp : Text) (p : Peer) (ps : List Peer)
    → pinned fp (p ∷ ps) ≡ (text_eq p.fingerprint fp || pinned fp ps)
unfolding peer_by_fingerprint
pinned-cons fp p ps = ground arith

pinned-append :
    (fp : Text) (p : Peer) (ps : List Peer)
    → pinned fp (ps ++ p ∷ []) ≡ (text_eq p.fingerprint fp || pinned fp ps)
unfolding peer_by_fingerprint
pinned-append fp p [] = ground arith
pinned-append fp p (q ∷ qs) = ground (arith, pinned-append fp p qs)

-- Whether the loop finds the entry, and what it leaves.
abbrev Replaced : Peer → List Peer → Option (List Peer) → Type 0
Replaced p l none = pinned p.fingerprint l ≡ false
Replaced p l (some l') =
    (pinned p.fingerprint l ≡ true)
    × (fingerprints l' ≡ fingerprints l)
    × ((fp : Text) → pinned fp l' ≡ pinned fp l)

replace_pinned-Replaced : (p : Peer) (l : List Peer) → Replaced p l (replace_pinned p l)
unfolding replace_pinned peer_by_fingerprint
replace_pinned-Replaced p [] = refl
replace_pinned-Replaced p (q ∷ qs) = elim (Bool-cases (text_eq q.fingerprint p.fingerprint)) [
  | inl e ↦
      let same : q.fingerprint ≡ p.fingerprint = (text_eq_iff q.fingerprint p.fingerprint).0 e in
      rw e (ground arith, ground arith, λ fp. ground arith)
  | inr e ↦
      let tail = replace_pinned-Replaced p qs in
      elim (Option-cases (replace_pinned p qs)) [
        | inl f ↦ let new : pinned p.fingerprint qs ≡ false = rw f at tail in rw f (ground arith)
        | inr (l, f) ↦
            let tail' = rw f at tail in
            rw (e, f) (ground arith, ground arith, λ fp. ground (arith, tail'.2 fp))
      ]
]

with_peer-fingerprints :
    (p : Peer) (l : List Peer)
    → (fingerprints (with_peer p l)
        ≡ (if pinned p.fingerprint l then fingerprints l else fingerprints l ++ p.fingerprint ∷ []))
      × ((fp : Text) → pinned fp (with_peer p l) ≡ (text_eq p.fingerprint fp || pinned fp l))
unfolding with_peer
with_peer-fingerprints p l =
    let found = replace_pinned-Replaced p l in
    elim (Option-cases (replace_pinned p l)) [
      | inl e ↦
          let new : pinned p.fingerprint l ≡ false = rw e at found in
          rw (e, with_peer, new) (fingerprints-append p l, λ fp. pinned-append fp p l)
      | inr (l', e) ↦
          let (was, order, same) = rw e at found in
          rw (e, with_peer, was)
            (order, λ fp. ground (arith, same fp, text_eq_iff p.fingerprint fp))
    ]
  where
    fingerprints-append :
        (p : Peer) (l : List Peer)
        → fingerprints (l ++ p ∷ []) ≡ fingerprints l ++ p.fingerprint ∷ []
    fingerprints-append p [] = refl
    fingerprints-append p (q ∷ qs) = rw (fingerprints-append p qs) refl

-- Whether a list of peers is distinct depends on its fingerprints alone.
pinned_congr :
    (fp : Text) (l m : List Peer) → fingerprints l ≡ fingerprints m → pinned fp l ≡ pinned fp m
unfolding peer_by_fingerprint
pinned_congr fp [] [] h = refl
pinned_congr fp [] (q ∷ qs) h = absurd (cc)
pinned_congr fp (p ∷ ps) [] h = absurd (cc)
pinned_congr fp (p ∷ ps) (q ∷ qs) h =
    let tails : fingerprints ps ≡ fingerprints qs = cc in
    let heads : p.fingerprint ≡ q.fingerprint = cc in ground (arith, pinned_congr fp ps qs tails)

IsDistinct-congr : (l m : List Peer) → fingerprints l ≡ fingerprints m → IsDistinct l → IsDistinct m
IsDistinct-congr l [] h d = tt
IsDistinct-congr [] (q ∷ qs) h d = absurd (cc)
IsDistinct-congr (p ∷ ps) (q ∷ qs) h d =
    let tails : fingerprints ps ≡ fingerprints qs = cc in
    let heads : p.fingerprint ≡ q.fingerprint = cc in
    (
      rw heads at (sym (pinned_congr p.fingerprint ps qs tails) ∙ d.0),
      IsDistinct-congr ps qs tails d.1,
    )

IsDistinct-append :
    (p : Peer) (l : List Peer)
    → pinned p.fingerprint l ≡ false
    → IsDistinct l
    → IsDistinct (l ++ p ∷ [])
unfolding peer_by_fingerprint
IsDistinct-append p [] h d = (refl, tt)
IsDistinct-append p (q ∷ qs) h d = (
  pinned-append q.fingerprint p qs
      ∙ ground
          (arith, text_eq_iff p.fingerprint q.fingerprint, text_eq_iff q.fingerprint p.fingerprint),
  IsDistinct-append p qs (ground arith) d.1,
)

with_peer-IsDistinct : (p : Peer) (l : List Peer) → IsDistinct l → IsDistinct (with_peer p l)
unfolding with_peer
with_peer-IsDistinct p l d =
    let found = replace_pinned-Replaced p l in
    elim (Option-cases (replace_pinned p l)) [
      | inl e ↦ rw (e, with_peer) (IsDistinct-append p l (rw e at found) d)
      | inr (l', e) ↦
          let (was, order, same) = rw e at found in
          rw (e, with_peer) (IsDistinct-congr l l' (sym order) d)
    ]

-- Storing a peer pins its certificate and unpins none, whether or not the file can be written. A certificate that was
-- pinned already keeps its place in the order of the peers, a new one comes last, and no certificate is ever
-- pinned twice.
pub store_peer_lem :
    (written : Bool) (p : Peer) (s : Peers)
    → IsDistinct s.peer_list
    → let l = (store_peer written p s).1.peer_list in
      IsDistinct l
      × (fingerprints l ≡ (
          if pinned p.fingerprint s.peer_list
          then fingerprints s.peer_list
          else fingerprints s.peer_list ++ p.fingerprint ∷ []))
      × ((fp : Text) → pinned fp l ≡ (text_eq p.fingerprint fp || pinned fp s.peer_list))
unfolding store_peer
store_peer_lem true p s d =
    let (order, same) = with_peer-fingerprints p s.peer_list in
    (with_peer-IsDistinct p s.peer_list d, order, same)
store_peer_lem false p s d =
    let (order, same) = with_peer-fingerprints p s.peer_list in
    (with_peer-IsDistinct p s.peer_list d, order, same)
