-- ===== src/Peers/Removal.antt =====
-- The removal of a paired machine (internal/daemon/peer_api.go, `handlePeerRemove`).
use local_vibe.Base.{
  ℕ, Bool, true, not, ◌&&◌, ◌≡◌, refl, inl, inr, Bool-cases, Option-cases, Option, none, some, List,
  [], ◌∷◌, Text, arith, if◌then◌else◌, text_eq, text_eq_iff, text_eq_refl,
}
use local_vibe.Peers.{
  Peer, Peers, peer_by_fingerprint, without_first, invite_open, handle_peer_remove,
  peer_cert_authorized,
}
use local_vibe.Peers.Pins.{pinned, IsDistinct}

-- The first peer of a name, which a removal removes.
abbrev pub first_named : Text → List Peer → Option Peer
first_named name [] = none
first_named name (p ∷ ps) = if text_eq p.name name then some p else first_named name ps

abbrev Removed : Text → List Peer → Option (List Peer) → Option Peer → Type 0
Removed name l none none = Unit
Removed name l none (some p) = ⊥
Removed name l (some m) none = ⊥
Removed name l (some m) (some p) =
    IsDistinct m
    × (pinned p.fingerprint l ≡ true)
    × ((fp : Text) → pinned fp m ≡ (not (text_eq p.fingerprint fp) && pinned fp l))

without_first-Removed :
    (name : Text) (l : List Peer)
    → IsDistinct l
    → Removed name l (without_first name l) (first_named name l)
unfolding without_first peer_by_fingerprint
without_first-Removed name [] d = tt
without_first-Removed name (p ∷ ps) d = elim (Bool-cases (text_eq p.name name)) [
  | inl e ↦ rw e (
    d.1,
    ground (arith, text_eq_refl p.fingerprint),
    λ fp. ground (arith, text_eq_iff p.fingerprint fp),
  )
  | inr e ↦
      let tail = without_first-Removed name ps d.1 in
      elim (Option-cases (without_first name ps)) [
        | inl f ↦ elim (Option-cases (first_named name ps)) [
          | inl g ↦ rw (e, f, g) tt
          | inr (q, g) ↦ absurd (rw (f, g) at tail)
        ]
        | inr (m, f) ↦ elim (Option-cases (first_named name ps)) [
          | inl g ↦ absurd (rw (f, g) at tail)
          | inr (q, g) ↦
              let (distinct, was, others) = rw (f, g) at tail in
              rw (e, f, g)
                (
                  (ground (arith, others p.fingerprint), distinct),
                  ground arith,
                  λ fp. ground (
                    arith,
                    others fp,
                    text_eq_iff p.fingerprint fp,
                    text_eq_iff q.fingerprint fp,
                  ),
                )
        ]
      ]
]

-- The daemon before and after the removal of a peer, or of an unknown name.
abbrev pub AfterRemoval : Peers → Peers → Option Peer → Type 0
AfterRemoval s s' none = s' ≡ s
AfterRemoval s s' (some p) =
    IsDistinct s'.peer_list
    × ((fp : Text)
        → pinned fp s'.peer_list ≡ (not (text_eq p.fingerprint fp) && pinned fp s.peer_list))
    × ((now : ℕ) → peer_cert_authorized now s' p.fingerprint ≡ true → invite_open now s ≡ true)

-- Removing a paired machine by its name unpins its certificate and no other one, and none is pinned twice. After that
-- its certificate passes the TLS gate at most while an invite is open. This holds although the new list may
-- fail to be written; an unknown name changes nothing.
pub handle_peer_remove_lem :
    (written : Bool) (name : Text) (s : Peers)
    → IsDistinct s.peer_list
    → AfterRemoval s (handle_peer_remove written name s).1 (first_named name s.peer_list)
unfolding handle_peer_remove peer_cert_authorized
handle_peer_remove_lem written name s d =
    let removed = without_first-Removed name s.peer_list d in
    elim (Option-cases (without_first name s.peer_list)) [
      | inl e ↦ elim (Option-cases (first_named name s.peer_list)) [
        | inl f ↦ rw (f, handle_peer_remove, e) refl
        | inr (p, f) ↦ absurd (rw (e, f) at removed)
      ]
      | inr (m, e) ↦ elim (Option-cases (first_named name s.peer_list)) [
        | inl f ↦ absurd (rw (e, f) at removed)
        | inr (p, f) ↦
            let (distinct, was, others) = rw (e, f) at removed in
            elim (Bool-cases written) [
              | inl w ↦
                  rw (f, handle_peer_remove, e, w)
                    (
                      distinct,
                      others,
                      λ now h. ground (arith, others p.fingerprint, text_eq_refl p.fingerprint),
                    )
              | inr w ↦
                  rw (f, handle_peer_remove, e, w)
                    (
                      distinct,
                      others,
                      λ now h. ground (arith, others p.fingerprint, text_eq_refl p.fingerprint),
                    )
            ]
      ]
    ]
