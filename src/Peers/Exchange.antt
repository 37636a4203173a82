-- ===== src/Peers/Exchange.antt =====
-- Which pairing requests are accepted, and what they pin (internal/daemon/peer_pair.go, `handlePeerPair`).
use local_vibe.Base.{
  Bool, true, false, ◌||◌, ◌≡◌, ◌≢◌, ◌⊎◌, ◌∙◌, refl, sym, ap, inl, inr, Bool-cases, Option-cases,
  Option, none, some, [], ◌∷◌, ◌++◌, Text, arith, text_eq, text_eq_iff, lacks, cut_at,
  cut_at-append,
}
use local_vibe.Peers.{Peers, store_peer, invite_open}
use local_vibe.Peers.Pairing.{
  PairRequest, PairResponse, Pairer, own_fingerprint, make_proof, verify_proof, requested,
  Meanwhile, clear_invite, read_invite, answer_pairing, handle_peer_pair,
}
use local_vibe.Peers.Pins.{pinned, IsDistinct, store_peer_lem}

-- A request whose proof is right for the invite of `s`, and what its storing makes of `before`: its certificate is pinned
-- as well, and no other one is.
abbrev pub IsProven : Pairer → Text → Option PairRequest → Peers → Peers → Peers → Type 0
IsProven e client none s before after = ⊥
IsProven e client (some q) s before after =
    (invite_open e.now s ≡ true)
    × (q.proof ≡ make_proof e.hmac s.invite_code client (own_fingerprint s))
    × IsDistinct after.peer_list
    × ((fp : Text) → pinned fp after.peer_list ≡ (text_eq client fp || pinned fp before.peer_list))

pub pairing_step :
    (m : Meanwhile) (e : Pairer) (client remote : Text) (body : Option PairRequest) (s : Peers)
    → IsDistinct (m.before_store s).peer_list
    → let out = handle_peer_pair m e client remote body s in
      ((a : PairResponse)
        → out.0 ≡ some a
        → (stored : Peers) × IsProven e client body s (m.before_store s) stored
          × (out.1 ≡ clear_invite (m.before_clear stored)))
      × (out.0 ≡ none
          → (out.1 ≡ s)
            ⊎ (out.1 ≡ m.before_store s)
            ⊎ (e.written ≡ false) × IsProven e client body s (m.before_store s) out.1)
unfolding handle_peer_pair read_invite answer_pairing verify_proof store_peer
pairing_step m e client remote body s d = elim (Bool-cases (invite_open e.now s)) [
  | inr o ↦ rw (o, handle_peer_pair) (λ a h. absurd (cc), λ h. inl refl)
  | inl o ↦ elim (Option-cases body) [
    | inl b ↦ rw (o, b, handle_peer_pair) (λ a h. absurd (cc), λ h. inr (inl refl))
    | inr (q, b) ↦
        let expected = make_proof e.hmac s.invite_code client (own_fingerprint s) in
        let stores =
          λ (w : Bool). store_peer_lem w (requested e client remote q) (m.before_store s) d in
        elim (Bool-cases (text_eq q.proof expected)) [
          | inr v ↦ rw (o, b, handle_peer_pair, v) (λ a h. absurd (cc), λ h. inr (inl refl))
          | inl v ↦
              let proven = (text_eq_iff q.proof expected).0 v in
              elim (Bool-cases e.written) [
                | inl w ↦
                    let (distinct, order, pins) = stores true in
                    rw (o, b, handle_peer_pair, v, w)
                      (
                        λ a h. (
                          (store_peer true (requested e client remote q) (m.before_store s)).1,
                          (o, proven, distinct, pins),
                          refl,
                        ),
                        λ h. absurd (cc),
                      )
                | inr w ↦
                    let (distinct, order, pins) = stores false in
                    rw (o, b, handle_peer_pair, v, w)
                      (λ a h. absurd (cc), λ h. inr (inr (refl, (o, proven, distinct, pins))))
              ]
        ]
  ]
]

closed_pair :
    (m : Meanwhile) (e : Pairer) (client remote : Text) (body : Option PairRequest) (s : Peers)
    → s.invite_code ≡ []
    → handle_peer_pair m e client remote body s ≡ (none, s)
unfolding handle_peer_pair read_invite
closed_pair m e client remote body s h =
    let shut : invite_open e.now s ≡ false = ground arith in rw (shut, handle_peer_pair) refl

-- A pairing that is accepted was made while an invite was open, and its proof is the keyed hash, under the invite's
-- code, of the certificate on the connection and the daemon's own. Whatever other requests do between its critical
-- sections, it pins that certificate and no other, and then clears the invite: every pairing request that begins after
-- it is denied and changes nothing.
pub handle_peer_pair_accepted :
    (m : Meanwhile) (e : Pairer) (client remote : Text) (body : Option PairRequest) (s : Peers)
    (a : PairResponse)
    → IsDistinct (m.before_store s).peer_list
    → (handle_peer_pair m e client remote body s).0 ≡ some a
    → let s' = (handle_peer_pair m e client remote body s).1 in
      ((stored : Peers) × IsProven e client body s (m.before_store s) stored
        × (s' ≡ clear_invite (m.before_clear stored)))
      × ((m' : Meanwhile) (e' : Pairer) (client' remote' : Text) (body' : Option PairRequest)
          → handle_peer_pair m' e' client' remote' body' s' ≡ (none, s'))
handle_peer_pair_accepted m e client remote body s a d h =
    let (stored, proven, used) = (pairing_step m e client remote body s d).0 a h in
    (
      (stored, proven, used),
      λ m' e' client' remote' body'.
          closed_pair m' e' client' remote' body' (handle_peer_pair m e client remote body s).1
            (ap (λ (x : Peers). x.invite_code) used),
    )

-- A pairing that is denied changes nothing of what it read or of what other requests have left since, with one
-- exception: a request whose proof is right is denied when the new list cannot be written, and its certificate is pinned
-- in memory all the same.
pub handle_peer_pair_denied :
    (m : Meanwhile) (e : Pairer) (client remote : Text) (body : Option PairRequest) (s : Peers)
    → IsDistinct (m.before_store s).peer_list
    → (handle_peer_pair m e client remote body s).0 ≡ none
    → let s' = (handle_peer_pair m e client remote body s).1 in
      (s' ≡ s)
      ⊎ (s' ≡ m.before_store s)
      ⊎ (e.written ≡ false) × IsProven e client body s (m.before_store s) s'
handle_peer_pair_denied m e client remote body s d h = (pairing_step m e client remote body s d).1 h

-- A machine in between that shows the two daemons other certificates than theirs, and passes the request on, gets
-- nothing: unless the certificate that the initiator saw is the responder's, and the one that the responder sees is
-- the initiator's, the request is denied and changes nothing of what it read or of what other requests have left
-- since. The keyed hash is taken to give different results for different messages, and fingerprints have no `|`.
pub handle_peer_pair_intercepted :
    (m : Meanwhile) (e : Pairer) (initiator shown seen own remote : Text) (q : PairRequest)
    (s : Peers)
    → ((code x y : Text) → e.hmac code x ≡ e.hmac code y → x ≡ y)
    → s.identity ≡ some own
    → lacks b'|' initiator ≡ true
    → lacks b'|' seen ≡ true
    → q.proof ≡ make_proof e.hmac s.invite_code initiator shown
    → shown ≢ own ⊎ seen ≢ initiator
    → let out = handle_peer_pair m e seen remote (some q) s in
      (out ≡ (none, s)) ⊎ (out ≡ (none, m.before_store s))
unfolding handle_peer_pair read_invite answer_pairing verify_proof make_proof
handle_peer_pair_intercepted m e initiator shown seen own remote q s inj i la ls h other =
    elim (Bool-cases (invite_open e.now s)) [
      | inr o ↦ rw (o, handle_peer_pair) (inl refl)
      | inl o ↦
          elim (Bool-cases
            (text_eq q.proof (make_proof e.hmac s.invite_code seen (own_fingerprint s)))) [
              | inr v ↦ rw (o, handle_peer_pair, v) (inr refl)
              | inl v ↦
                  let own_s : own_fingerprint s ≡ own = rw i refl in
                  let proven : q.proof ≡ make_proof e.hmac s.invite_code seen own = rw own_s at (
                    (text_eq_iff q.proof
                        (make_proof e.hmac s.invite_code seen (own_fingerprint s))).0
                      v) in
                  let message : initiator ++ b'|' ∷ shown ≡ seen ++ b'|' ∷ own =
                    inj s.invite_code _ _ (sym h ∙ proven) in
                  let cut : ◌≡◌ {A = Option (Text × Text)} (some (initiator, shown))
                      (some (seen, own)) =
                    sym (cut_at-append b'|' initiator shown la)
                    ∙ (ap (cut_at b'|') message ∙ cut_at-append b'|' seen own ls) in
                  let first : initiator ≡ seen = cc in
                  let second : shown ≡ own = cc in
                  absurd (elim other [ inl n ↦ n second | inr n ↦ n (sym first) ])
            ]
    ]
