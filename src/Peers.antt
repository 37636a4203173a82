-- ===== src/Peers.antt =====
-- internal/daemon/peer_pair.go (`storePeer`), peer_listener.go and peer_api.go: the paired machines of a daemon and
-- who may reach its listener on the local network; internal/peer/store.go and summary.go for the records. The daemon's
-- peer fields are one record. `peers.json` is the last list saved; a save may fail after the list in memory has
-- changed. A certificate is its fingerprint, and the identity is the daemon's own. The zero time is none. An operation
-- here is what runs while `peerMu` is held; `handlePeerPair` takes it three times, and what other requests do in
-- between is an argument of its model.
pub mod Pairing
pub mod Sync
pub mod Gate
pub mod Pins
pub mod Removal
pub mod Invites
pub mod Exchange
pub mod Mutual
pub mod Cache
pub mod Shared
mod Marks
mod Tests
use local_vibe.Base.{
  ℕ, Bool, true, false, not, ◌&&◌, ◌||◌, Option, none, some, Result, ok, err, List, [], ◌∷◌, ◌++◌,
  Text, codes, if◌then◌else◌, ltb, text_eq, has_prefix, is_some, lookup, erase,
}
use local_vibe.Routes.{RouteType}
use local_vibe.Handlers.{Status, done, refused}

pub record Peer : Type 0 where
  pub name : Text
  pub host : Text
  pub port : ℕ
  pub fingerprint : Text
  pub added_at : ℕ

pub record RouteSummary : Type 0 where
  pub name : Text
  pub type : RouteType
  pub running : Bool
  pub ready : Bool
  pub icon : Text

-- One peer's cached routes and the outcome of the last polls.
pub record PeerState : Type 0 where
  pub routes : List RouteSummary
  pub etag : Text
  pub last_ok : Option ℕ
  pub last_err : Text
  pub last_refresh : Option ℕ
  pub refreshing : Bool

pub record Peers : Type 0 where
  pub enabled : Bool
  pub identity : Option Text
  pub listening : Bool
  pub peer_list : List Peer
  pub peer_states : List (Text × PeerState)
  pub invite_code : Text
  pub invite_expires : ℕ
  pub peers_json : List Peer

-- The loop of `storePeer`: the list with the pinned entry replaced, if there is one.
pub replace_pinned : Peer → List Peer → Option (List Peer)
replace_pinned p [] = none
replace_pinned p (q ∷ qs) =
    let rest = replace_pinned p qs in
    if text_eq q.fingerprint p.fingerprint
    then some (record p { added_at = q.added_at } ∷ qs)
    else elim rest [ none ↦ none | some l ↦ some (q ∷ l) ]

pub with_peer : Peer → List Peer → List Peer
unfolding replace_pinned
with_peer p l = elim (replace_pinned p l) [ some l' ↦ l' | none ↦ l ++ p ∷ [] ]

abbrev pub save_peers : Bool → Peers → Peers
save_peers written s = if written then record s { peers_json = s.peer_list } else s

-- `written` says that `SavePeers` succeeds; the Boolean returned is that the error is nil.
pub store_peer : Bool → Peer → Peers → Bool × Peers
unfolding with_peer
store_peer written p s =
    (written, save_peers written (record s { peer_list = with_peer p s.peer_list }))

pub peer_by_fingerprint : Text → List Peer → Option Peer
peer_by_fingerprint fp [] = none
peer_by_fingerprint fp (p ∷ ps) =
    let rest = peer_by_fingerprint fp ps in if text_eq p.fingerprint fp then some p else rest

abbrev pub invite_open : ℕ → Peers → Bool
invite_open now s = not (text_eq s.invite_code []) && ltb now s.invite_expires

-- The gate of the TLS handshake.
pub peer_cert_authorized : ℕ → Peers → Text → Bool
peer_cert_authorized now s fp = is_some (peer_by_fingerprint fp s.peer_list) || invite_open now s

pub record PeerRequest : Type 0 where
  pub method : Text
  pub path : Text
  pub certificate : Option Text

-- Where a request on the peer listener goes.
pub data PeerEndpoint : Type 0 where
  api_blackhole no_certificate not_pinned : PeerEndpoint
  pairing : Text → PeerEndpoint
  route_list serve_route : PeerEndpoint

pub peer_handler : Peers → PeerRequest → PeerEndpoint
peer_handler s r =
    if has_prefix r.path (codes "/_api/") || text_eq r.path (codes "/_api")
    then api_blackhole
    else elim r.certificate [
      | none ↦ no_certificate
      | some fp ↦
          if text_eq r.method (codes "POST") && text_eq r.path (codes "/peer/pair")
          then pairing fp
          else if not (is_some (peer_by_fingerprint fp s.peer_list))
          then not_pinned
          else if text_eq r.method (codes "GET") && text_eq r.path (codes "/peer/routes")
          then route_list
          else serve_route
    ]

pub data SetupError : Type 0 where
  bad_identity no_identity cannot_listen no_code : SetupError

-- `loaded` is what `EnsureIdentity` gives; none is its error.
abbrev pub identified : Option Text → Peers → Option Text → Result SetupError Peers
identified loaded s (some fp) = ok s
identified none s none = err bad_identity
identified (some fp) s none = ok (record s { identity = some fp })

abbrev pub ensure_peer_identity : Option Text → Peers → Result SetupError Peers
ensure_peer_identity loaded s = identified loaded s s.identity

abbrev pub ensure_peer_listener : Bool → Peers → Result SetupError Peers
ensure_peer_listener bindable s = if s.listening then ok s else elim s.identity [
  | none ↦ err no_identity
  | some fp ↦ if bindable then ok (record s { listening = true }) else err cannot_listen
]

-- The list without its first peer of a name.
pub without_first : Text → List Peer → Option (List Peer)
without_first name [] = none
without_first name (p ∷ ps) =
    let rest = without_first name ps in
    if text_eq p.name name then some ps else elim rest [ none ↦ none | some l ↦ some (p ∷ l) ]

pub handle_peer_remove : Bool → Text → Peers → Status × Peers
handle_peer_remove written name s = elim (without_first name s.peer_list) [
  | none ↦ (refused 404, s)
  | some l ↦ (
    (if written then done else refused 500),
    save_peers written (record s { peer_list = l; peer_states = erase name s.peer_states }),
  )
]

-- What `loadPeerSubsystem` leaves: `file` is none if `peers.json` cannot be read. The Boolean says that the sync
-- loop starts.
pub load_peer_subsystem : Option (List Peer) → Option Text → Bool → Peers → Bool × Peers
load_peer_subsystem file loaded bindable s = if not s.enabled then (false, s) else elim file [
  | none ↦ (false, s)
  | some [] ↦ (false, record s { peer_list = [] })
  | some (p ∷ ps) ↦
      let s1 = record s { peer_list = p ∷ ps } in
      elim (ensure_peer_identity loaded s1) [
        | err e ↦ (false, s1)
        | ok s2 ↦ elim (ensure_peer_listener bindable s2) [
          | err e ↦ (false, s2)
          | ok s3 ↦ (true, s3)
        ]
      ]
]
