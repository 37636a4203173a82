-- ===== src/Peers/Mutual.antt =====
-- Two daemons that pair (internal/daemon/peer_pair.go, `pairWithPeer` and `handlePeerPair`).
use local_vibe.Base.{
  ℕ, Bool, true, ◌||◌, ◌≡◌, ◌∙◌, refl, sym, ap, inl, inr, Bool-cases, Option-cases, Option, none,
  some, Result, ok, err, Text, if◌then◌else◌, ◌==◌, text_eq, text_eq_iff,
}
use local_vibe.Peers.{Peer, Peers, store_peer, invite_open, identified}
use local_vibe.Peers.Pairing.{
  PairRequest, PairResponse, Pairer, Remote, PairError, setup, own_fingerprint, make_proof,
  verify_proof, quiet, read_invite, answer_pairing, handle_peer_pair, pair_identified,
  pair_with_peer, pair_request, listen_after, accept_response,
}
use local_vibe.Peers.Pins.{pinned, IsDistinct, store_peer_lem}
use local_vibe.Peers.Exchange.{pairing_step}

-- The other machine as this daemon's own code answers: it shows `shown`, and sees the certificate `seen`.
abbrev pub answers : Pairer → Text → Text → Text → Peers → Remote
answers e shown seen remote s = record {
  probe = some shown;
  connected = shown;
  post = λ q. elim (handle_peer_pair quiet e seen remote (some q) s).0 [
    | none ↦ some (403, none)
    | some a ↦ some (200, some a)
  ];
}

-- The answer to a request that is right.
accepting :
    (e : Pairer) (client remote : Text) (q : PairRequest) (s : Peers)
    → e.written ≡ true
    → invite_open e.now s ≡ true
    → q.proof ≡ make_proof e.hmac s.invite_code client (own_fingerprint s)
    → (a : PairResponse) × ((handle_peer_pair quiet e client remote (some q) s).0 ≡ some a)
      × (a.proof ≡ make_proof e.hmac s.invite_code (own_fingerprint s) client)
unfolding handle_peer_pair read_invite answer_pairing verify_proof store_peer
accepting e client remote q s w o v =
    let right =
      (text_eq_iff q.proof (make_proof e.hmac s.invite_code client (own_fingerprint s))).1 v in
    rw (o, handle_peer_pair, right, w) (_, refl, refl)

listen_after_lem :
    (bindable : Bool) (p : Peer) (s : Peers)
    → ((listen_after bindable p s).0 ≡ ok p)
      × ((listen_after bindable p s).1.peer_list ≡ s.peer_list)
unfolding listen_after
listen_after_lem bindable p s = elim (Bool-cases s.listening) [
  | inl l ↦ rw (l, listen_after) (refl, refl)
  | inr l ↦ elim (Option-cases s.identity) [
    | inl i ↦ rw (l, listen_after, i) (refl, refl)
    | inr (fp, i) ↦ elim (Bool-cases bindable) [
      | inl b ↦ rw (l, listen_after, i, b) (refl, refl)
      | inr b ↦ rw (l, listen_after, i, b) (refl, refl)
    ]
  ]
]

-- The initiator's side, once an answer has come.
accept_response_lem :
    (e : Pairer) (host : Text) (port : ℕ) (code server : Text) (a : PairResponse) (s : Peers)
    → e.written ≡ true
    → IsDistinct s.peer_list
    → a.proof ≡ make_proof e.hmac code server (own_fingerprint s)
    → let out = accept_response e host port code server a s in
      (p : Peer) × (out.0 ≡ ok p)
      × (p.fingerprint ≡ server)
      × IsDistinct out.1.peer_list
      × ((fp : Text) → pinned fp out.1.peer_list ≡ (text_eq server fp || pinned fp s.peer_list))
unfolding accept_response verify_proof store_peer
accept_response_lem e host port code server a s w d v =
    let right = (text_eq_iff a.proof (make_proof e.hmac code server (own_fingerprint s))).1 v in
    let p : Peer = record {
      name = a.name;
      host = host;
      port = if a.port == 0 then port else a.port;
      fingerprint = server;
      added_at = e.now;
    } in
    let (distinct, order, pins) = store_peer_lem true p s d in
    let (okay, same) = listen_after_lem e.bindable p (store_peer true p s).1 in
    rw (right, accept_response, w, okay, same) (p, refl, refl, distinct, pins)

pair_with_peer-pair_identified :
    (e : Pairer) (r : Remote) (host : Text) (port : ℕ) (code own : Text) (s : Peers)
    → s.identity ≡ some own
    → pair_with_peer e r host port code s ≡ pair_identified e r host port code s
unfolding pair_with_peer
pair_with_peer-pair_identified e r host port code own s i =
    let step : Option Text → Result PairError Peer × Peers = λ id.
      elim (identified e.loaded_identity s id) [
        | err x ↦ (err (setup x), s)
        | ok s' ↦ pair_identified e r host port code s'
      ] in
    ap step i

pair_identified_lem :
    (e : Pairer) (r : Remote) (host : Text) (port : ℕ) (code server : Text) (a : PairResponse)
    (s : Peers)
    → r.probe ≡ some server
    → r.connected ≡ server
    → r.post (pair_request e code (own_fingerprint s) server) ≡ some (200, some a)
    → pair_identified e r host port code s ≡ accept_response e host port code server a s
unfolding pair_identified
pair_identified_lem e r host port code server a s p c post =
    let same = (text_eq_iff r.connected server).1 c in rw (p, pair_identified, same, post) refl

module _ (here there : Pairer) (host remote : Text) (port : ℕ) (a b : Text) (sa sb : Peers) where
  -- Two daemons that pair over a channel which shows each the other's certificate, with the code of the invite that is
  -- open on one of them, end with each other's certificate pinned, and with no other one pinned besides those
  -- that were. This is stated of daemons that have an identity and can write their lists, when no
  -- other request changes the second daemon's list in between.
  pub pairing_mutual :
      ((code sender receiver : Text)
        → make_proof here.hmac code sender receiver ≡ make_proof there.hmac code sender receiver)
      → here.written ≡ true
      → there.written ≡ true
      → sa.identity ≡ some a
      → sb.identity ≡ some b
      → IsDistinct sa.peer_list
      → IsDistinct sb.peer_list
      → invite_open there.now sb ≡ true
      → let code = sb.invite_code in
        let out = pair_with_peer here (answers there b a remote sb) host port code sa in
        let sb' =
          (handle_peer_pair quiet there a remote (some (pair_request here code a b)) sb).1 in
        (p : Peer) × (out.0 ≡ ok p)
        × (p.fingerprint ≡ b)
        × ((fp : Text) → pinned fp out.1.peer_list ≡ (text_eq b fp || pinned fp sa.peer_list))
        × ((fp : Text) → pinned fp sb'.peer_list ≡ (text_eq a fp || pinned fp sb.peer_list))
  unfolding pair_with_peer
  pairing_mutual same wa wb ia ib da db open_ =
      let code = sb.invite_code in
      let q = pair_request here code a b in
      let own_b : own_fingerprint sb ≡ b = rw ib refl in
      let own_a : own_fingerprint sa ≡ a = rw ia refl in
      let right : q.proof ≡ make_proof there.hmac code a (own_fingerprint sb) =
        rw own_b (same code a b) in
      let (reply, answered, proof) = accepting there a remote q sb wb open_ right in
      let (stored, proven, cleared) =
        (pairing_step quiet there a remote (some q) sb db).0 reply answered in
      let back : reply.proof ≡ make_proof here.hmac code b (own_fingerprint sa) =
        rw own_a (rw own_b at proof ∙ sym (same code b a)) in
      let posted : (answers there b a remote sb).post
            (pair_request here code (own_fingerprint sa) b)
          ≡ some (200, some reply) =
        rw own_a (rw (answered, answers) refl) in
      let (p, okay, fp, distinct, pins) =
        accept_response_lem here host port code b reply sa wa da back in
      let relay = answers there b a remote sb in
      let run =
        pair_with_peer-pair_identified here relay host port code a sa ia
        ∙ pair_identified_lem here relay host port code b reply sa refl refl posted in
      rw run (p, okay, fp, pins, λ x. ap (λ (t : Peers). pinned x t.peer_list) cleared ∙ proven.3 x)
