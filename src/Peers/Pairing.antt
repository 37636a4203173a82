-- ===== src/Peers/Pairing.antt =====
-- Pairing by a one-time invite (internal/daemon/peer_pair.go, internal/peer/pairing.go, peer_api.go).
-- The keyed hash is a parameter, in hex; the random number of a code, the host name and what the other machine
-- answers are inputs.
use local_vibe.Base.{
  ℕ, zero, suc, ◌+◌, ◌*◌, ◌/◌, ◌%◌, Bool, true, false, not, ◌||◌, Option, none, some, Result, ok,
  err, [], ◌∷◌, ◌++◌, Text, if◌then◌else◌, ◌==◌, text_eq, trim_space,
}
use local_vibe.Names.{sanitize_name}
use local_vibe.Timers.{second}
use local_vibe.Handlers.{Status, done, refused}
use local_vibe.Peers.{
  Peer, Peers, SetupError, no_code, store_peer, invite_open, ensure_peer_identity,
  ensure_peer_listener,
}

pub record PairRequest : Type 0 where
  pub name : Text
  pub host : Text
  pub port : ℕ
  pub proof : Text

pub record PairResponse : Type 0 where
  pub name : Text
  pub port : ℕ
  pub proof : Text

-- `%0<width>d`, for a number of at most `width` digits.
unfoldable pub padded : ℕ → ℕ → Text → Text
padded zero n acc = acc
padded (suc width) n acc = padded width (n / 10) ((b'0' + n % 10) ∷ acc)

unfoldable pub new_invite_code : ℕ → Text
new_invite_code n = padded 6 n []

abbrev pub peer_invite_ttl : ℕ
peer_invite_ttl = 5 * 60 * second

-- What a daemon has at hand when it pairs.
pub record Pairer : Type 0 where
  pub hmac : Text → Text → Text
  pub hostname : Text
  pub peers_port : ℕ
  pub now : ℕ
  pub loaded_identity : Option Text
  pub bindable : Bool
  pub written : Bool

unfoldable pub make_proof : (Text → Text → Text) → Text → Text → Text → Text
make_proof hmac code sender receiver = hmac code (sender ++ b'|' ∷ receiver)

unfoldable pub verify_proof : (Text → Text → Text) → Text → Text → Text → Text → Bool
verify_proof hmac proof code sender receiver = text_eq proof (make_proof hmac code sender receiver)

abbrev pub own_fingerprint : Peers → Text
own_fingerprint s = elim s.identity [ none ↦ [] | some fp ↦ fp ]

-- `code` is the number drawn, none if there is none.
unfoldable pub open_peer_invite : Pairer → Option ℕ → Peers → Result SetupError (Text × ℕ) × Peers
unfolding new_invite_code
open_peer_invite e code s = elim (ensure_peer_identity e.loaded_identity s) [
  | err x ↦ (err x, s)
  | ok s1 ↦ elim (ensure_peer_listener e.bindable s1) [
    | err x ↦ (err x, s1)
    | ok s2 ↦ elim code [
      | none ↦ (err no_code, s2)
      | some n ↦
          let expires = e.now + peer_invite_ttl in
          (
            ok (new_invite_code n, expires),
            record s2 { invite_code = new_invite_code n; invite_expires = expires },
          )
    ]
  ]
]

-- The peer that a request asks to be; `remote` is the host of the connection's other end.
abbrev pub requested : Pairer → Text → Text → PairRequest → Peer
requested e client remote q = record {
  name = sanitize_name q.name;
  host = if text_eq (trim_space q.host) [] then remote else trim_space q.host;
  port = q.port;
  fingerprint = client;
  added_at = e.now;
}

-- The first part of `handlePeerPair`, under the lock: the open invite's code and the daemon's own fingerprint.
unfoldable pub read_invite : ℕ → Peers → Option (Text × Text)
read_invite now s = if invite_open now s then some (s.invite_code, own_fingerprint s) else none

-- The last part of `handlePeerPair`, under the lock.
abbrev pub clear_invite : Peers → Peers
clear_invite s = record s { invite_code = [] }

-- What other requests do between the critical sections of `handlePeerPair`: before the peer is stored, and before the
-- invite is cleared.
pub record Meanwhile : Type 0 where
  pub before_store : Peers → Peers
  pub before_clear : Peers → Peers

abbrev pub quiet : Meanwhile
quiet = record { before_store = λ s. s; before_clear = λ s. s }

-- What follows the reading of the invite, from the state in which the peer is stored. none is the one denial, and a
-- body that does not decode is none.
unfoldable pub answer_pairing :
    (Peers → Peers)
    → Pairer
    → Text
    → Text
    → Text
    → Text
    → Option PairRequest
    → Peers
    → Option PairResponse × Peers
answer_pairing before_clear e code own client remote body s = elim body [
  | none ↦ (none, s)
  | some q ↦
      let (saved, s') = store_peer e.written (requested e client remote q) s in
      let answer : PairResponse = record {
        name = sanitize_name e.hostname;
        port = e.peers_port;
        proof = make_proof e.hmac code own client;
      } in
      if not (verify_proof e.hmac q.proof code client own)
      then (none, s)
      else if not saved
      then (none, s')
      else (some answer, clear_invite (before_clear s'))
]

-- The three critical sections, with what other requests do in between.
unfoldable pub handle_peer_pair :
    Meanwhile → Pairer → Text → Text → Option PairRequest → Peers → Option PairResponse × Peers
handle_peer_pair m e client remote body s = elim (read_invite e.now s) [
  | none ↦ (none, s)
  | some (code, own) ↦
      answer_pairing m.before_clear e code own client remote body (m.before_store s)
]

pub data PairError : Type 0 where
  setup : SetupError → PairError
  unreachable certificate_changed no_reply rejected bad_response failed_proof not_saved : PairError

-- The other end of the connections to a host: the fingerprint seen by the probe, that of the connection which
-- follows, and what is answered: no reply, or a status and the decoded body.
pub record Remote : Type 0 where
  pub probe : Option Text
  pub connected : Text
  pub post : PairRequest → Option (ℕ × Option PairResponse)

abbrev pub pair_request : Pairer → Text → Text → Text → PairRequest
pair_request e code own server = record {
  name = sanitize_name e.hostname;
  host = e.hostname;
  port = e.peers_port;
  proof = make_proof e.hmac code own server;
}

-- A listener that cannot be opened is only a warning.
unfoldable pub listen_after : Bool → Peer → Peers → Result PairError Peer × Peers
listen_after bindable p s = elim (ensure_peer_listener bindable s) [
  | err x ↦ (ok p, s)
  | ok s' ↦ (ok p, s')
]

-- From the decoded answer on.
unfoldable pub accept_response :
    Pairer → Text → ℕ → Text → Text → PairResponse → Peers → Result PairError Peer × Peers
accept_response e host port code server a s =
    let p : Peer = record {
      name = a.name;
      host = host;
      port = if a.port == 0 then port else a.port;
      fingerprint = server;
      added_at = e.now;
    } in
    if not (verify_proof e.hmac a.proof code server (own_fingerprint s))
    then (err failed_proof, s)
    else let (saved, s') = store_peer e.written p s in
      if not saved then (err not_saved, s') else listen_after e.bindable p s'

-- From the probe on.
unfoldable pub pair_identified :
    Pairer → Remote → Text → ℕ → Text → Peers → Result PairError Peer × Peers
pair_identified e r host port code s = elim r.probe [
  | none ↦ (err unreachable, s)
  | some server ↦
      if not (text_eq r.connected server)
      then (err certificate_changed, s)
      else elim (r.post (pair_request e code (own_fingerprint s) server)) [
        | none ↦ (err no_reply, s)
        | some (status, body) ↦ if not (status == 200) then (err rejected, s) else elim body [
          | none ↦ (err bad_response, s)
          | some a ↦ accept_response e host port code server a s
        ]
      ]
]

unfoldable pub pair_with_peer :
    Pairer → Remote → Text → ℕ → Text → Peers → Result PairError Peer × Peers
pair_with_peer e r host port code s0 = elim (ensure_peer_identity e.loaded_identity s0) [
  | err x ↦ (err (setup x), s0)
  | ok s ↦ pair_identified e r host port code s
]

pub handle_peer_invite : Pairer → Option ℕ → Peers → Status × Option (Text × ℕ) × Peers
handle_peer_invite e code s =
    if not s.enabled
    then (refused 409, none, s)
    else let (outcome, s') = open_peer_invite e code s in
      elim outcome [ err x ↦ (refused 500, none, s') | ok invite ↦ (done, some invite, s') ]

pub record PeerAddRequest : Type 0 where
  pub host : Text
  pub port : ℕ
  pub code : Text

-- The Boolean says that a refresh of all peers is started.
pub handle_peer_add :
    Pairer → (Text → ℕ → Remote) → Option PeerAddRequest → Peers → Status × Bool × Peers
handle_peer_add e dial body s = if not s.enabled then (refused 409, false, s) else elim body [
  | none ↦ (refused 400, false, s)
  | some q ↦
      let port = if q.port == 0 then 7444 else q.port in
      let (outcome, s') = pair_with_peer e (dial q.host port) q.host port q.code s in
      if text_eq q.host [] || text_eq q.code []
      then (refused 400, false, s)
      else elim outcome [ err x ↦ (refused 502, false, s') | ok p ↦ (done, true, s') ]
]
