-- ===== src/Peers/Gate.antt =====
-- Who gets past the peer listener, and how far (`peerCertAuthorized`, `peerHandler`).
use local_vibe.Base.{
  ℕ, Bool, true, false, not, ◌&&◌, ◌||◌, ◌≡◌, ◌⊎◌, refl, some, Text, codes, arith, if◌then◌else◌,
  text_eq, has_prefix,
}
use local_vibe.Peers.{
  Peers, PeerRequest, PeerEndpoint, api_blackhole, not_pinned, pairing, route_list, serve_route,
  invite_open, peer_cert_authorized, peer_handler,
}
use local_vibe.Peers.Pins.{pinned}

abbrev pub is_api_path : Text → Bool
is_api_path path = has_prefix path (codes "/_api/") || text_eq path (codes "/_api")

abbrev pub dispatch : Text → Bool → Bool → Bool → Bool → PeerEndpoint
dispatch fp api pair known poll =
    if api
    then api_blackhole
    else if pair
    then pairing fp
    else if not known
    then not_pinned
    else if poll
    then route_list
    else serve_route

peer_handler-dispatch :
    (s : Peers) (r : PeerRequest) (fp : Text)
    → r.certificate ≡ some fp
    → peer_handler s r
      ≡ dispatch fp
          (is_api_path r.path)
          (text_eq r.method (codes "POST") && text_eq r.path (codes "/peer/pair"))
          (pinned fp s.peer_list)
          (text_eq r.method (codes "GET") && text_eq r.path (codes "/peer/routes"))
unfolding peer_handler
peer_handler-dispatch s r fp h = rw h refl

dispatch_lem :
    (fp : Text) (api pair known poll : Bool)
    → let reached = dispatch fp api pair known poll in
      (reached ≡ route_list ⊎ reached ≡ serve_route → (api ≡ false) × (known ≡ true))
      × (known ≡ false → reached ≡ api_blackhole ⊎ reached ≡ not_pinned ⊎ reached ≡ pairing fp)
      × (api ≡ true → reached ≡ api_blackhole)
dispatch_lem fp api pair known poll = ground arith

-- A request that comes through the peer listener never reaches the daemon's API, whatever its certificate. It reaches
-- a route or the list of routes only if its certificate is pinned. A certificate that is not pinned passes the
-- TLS gate only while an invite is open, and gets no further than the pairing of that certificate itself.
pub peer_handler_confined :
    (now : ℕ) (s : Peers) (r : PeerRequest) (fp : Text)
    → r.certificate ≡ some fp
    → let reached = peer_handler s r in
      (is_api_path r.path ≡ true → reached ≡ api_blackhole)
      × (reached ≡ route_list ⊎ reached ≡ serve_route
          → (is_api_path r.path ≡ false) × (pinned fp s.peer_list ≡ true))
      × (pinned fp s.peer_list ≡ false
          → peer_cert_authorized now s fp ≡ true
          → (invite_open now s ≡ true)
            × (reached ≡ api_blackhole ⊎ reached ≡ not_pinned ⊎ reached ≡ pairing fp))
unfolding peer_cert_authorized
peer_handler_confined now s r fp h =
    let (reach, confined, api) =
      dispatch_lem fp (is_api_path r.path)
        (text_eq r.method (codes "POST") && text_eq r.path (codes "/peer/pair"))
        (pinned fp s.peer_list)
        (text_eq r.method (codes "GET") && text_eq r.path (codes "/peer/routes")) in
    rw (peer_handler-dispatch s r fp h) (api, reach, λ new passed. (ground arith, confined new))
