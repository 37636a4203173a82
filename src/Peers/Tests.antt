-- ===== src/Peers/Tests.antt =====
-- Tests of the peer operations, and their theorems at concrete daemons.
use local_vibe.Base.{
  if◌then◌else◌, ℕ, ◌≤◌, Bool, true, false, ◌||◌, ◌≡◌, ◌≢◌, ◌⊎◌, refl, inr, Option, none, some, ok,
  [], ◌∷◌, ◌++◌, Text, codes, arith, ◌==◌, text_eq, text_eq_iff, length, value, lookup, All,
  is_some,
}
use local_vibe.Names.{sanitize_name}
use local_vibe.Routes.{list, sticky}
use local_vibe.Routes.Samples.{table}
use local_vibe.Peers.{
  Peer, Peers, RouteSummary, PeerRequest, PeerState, api_blackhole, not_pinned, pairing, route_list,
  serve_route, peer_handler, peer_cert_authorized, invite_open, store_peer, with_peer,
  replace_pinned, peer_by_fingerprint,
}
use local_vibe.Peers.Pairing.{
  Pairer, PairRequest, PairResponse, make_proof, verify_proof, Meanwhile, quiet, clear_invite,
  read_invite, answer_pairing, handle_peer_pair, pair_with_peer, pair_request, new_invite_code,
  padded,
}
use local_vibe.Peers.Sync.{
  Fetch, failed, start_refresh, refresh_peer_routes, find_peer_route, refresh_all_peers,
  first_with_route, peer_route_from_cache, peer_state_for, cached_routes, handle_peer_routes,
  same_route_names,
}
use local_vibe.Peers.Gate.{is_api_path, peer_handler_confined}
use local_vibe.Peers.Pins.{pinned, IsDistinct}
use local_vibe.Peers.Exchange.{
  IsProven, handle_peer_pair_accepted, handle_peer_pair_denied, handle_peer_pair_intercepted,
}
use local_vibe.Peers.Mutual.{answers, pairing_mutual}
use local_vibe.Peers.Invites.{new_invite_code_digits}
use local_vibe.Peers.Cache.{Found, served_by_any, find_peer_route_lem}
use local_vibe.Peers.Marks.{mark, mark_injective}
use local_vibe.Peers.Shared.{
  IsShared, IsFresh, told, polled, handle_peer_routes_sound, refresh_peer_routes_exact,
}

abbrev laptop : Peer
laptop = record {
  name = codes "laptop";
  host = codes "laptop.local";
  port = 7444;
  fingerprint = codes "aa";
  added_at = 10;
}

abbrev desk : Peer
desk = record {
  name = codes "desk";
  host = codes "desk.local";
  port = 7444;
  fingerprint = codes "dd";
  added_at = 20;
}

abbrev summary : Text → RouteSummary
summary name = record { name = name; type = sticky; running = true; ready = true; icon = [] }

abbrev desk_state : PeerState
desk_state = record {
  routes = summary (codes "wiki") ∷ [];
  etag = [];
  last_ok = some 100;
  last_err = [];
  last_refresh = none;
  refreshing = false;
}

-- A daemon with two peers and an open invite.
abbrev daemon : Peers
daemon = record {
  enabled = true;
  identity = some (codes "bb");
  listening = true;
  peer_list = laptop ∷ desk ∷ [];
  peer_states = (codes "desk", desk_state) ∷ [];
  invite_code = codes "042042";
  invite_expires = 500;
  peers_json = laptop ∷ desk ∷ [];
}

abbrev fresh : Peers
fresh = record {
  enabled = true;
  identity = some (codes "cc");
  listening = false;
  peer_list = [];
  peer_states = [];
  invite_code = [];
  invite_expires = 0;
  peers_json = [];
}

daemon-IsDistinct : IsDistinct daemon.peer_list
unfolding peer_by_fingerprint
daemon-IsDistinct = (refl, (refl, tt))

-- A hash that keeps the whole message.
abbrev keyed : Text → Text → Text
keyed code message = code ++ message

keyed_injective : (code x y : Text) → keyed code x ≡ keyed code y → x ≡ y
keyed_injective [] x y h = h
keyed_injective (c ∷ code) x y h = keyed_injective code x y (cc)

abbrev pairer : Bool → Pairer
pairer written = record {
  hmac = keyed;
  hostname = codes "Desk.local";
  peers_port = 7444;
  now = 300;
  loaded_identity = none;
  bindable = true;
  written = written;
}

-- The request of the machine whose certificate is `cc`.
abbrev request : PairRequest
request = pair_request (pairer true) (codes "042042") (codes "cc") (codes "bb")

abbrev poll_request : Text → PeerRequest
poll_request fp = record {
  method = codes "GET";
  path = codes "/peer/routes";
  certificate = some fp;
}

poll_pinned : peer_handler daemon (poll_request (codes "aa")) ≡ route_list
unfolding peer_handler peer_by_fingerprint
poll_pinned = refl

poll_stranger : peer_handler daemon (poll_request (codes "ee")) ≡ not_pinned
unfolding peer_handler peer_by_fingerprint
poll_stranger = refl

invite_stranger : peer_cert_authorized 300 daemon (codes "ee") ≡ true
unfolding peer_cert_authorized peer_by_fingerprint
invite_stranger = refl

peer_handler_confined_example :
    let reached = peer_handler daemon (poll_request (codes "ee")) in
    (is_api_path (codes "/peer/routes") ≡ true → reached ≡ api_blackhole)
    × (reached ≡ route_list ⊎ reached ≡ serve_route
        → (is_api_path (codes "/peer/routes") ≡ false)
          × (pinned (codes "ee") daemon.peer_list ≡ true))
    × (pinned (codes "ee") daemon.peer_list ≡ false
        → peer_cert_authorized 300 daemon (codes "ee") ≡ true
        → (invite_open 300 daemon ≡ true)
          × (reached ≡ api_blackhole ⊎ reached ≡ not_pinned ⊎ reached ≡ pairing (codes "ee")))
peer_handler_confined_example =
    peer_handler_confined 300 daemon (poll_request (codes "ee")) (codes "ee") refl

new_invite_code_digits_example :
    (length (new_invite_code 4207) ≡ 6)
    × All (λ c. (b'0' ≤ c) × (c ≤ b'9')) (new_invite_code 4207)
    × (value 0 (new_invite_code 4207) ≡ 4207)
new_invite_code_digits_example = new_invite_code_digits 4207 (omega arith)

code_padded : new_invite_code 4207 ≡ codes "004207"
unfolding new_invite_code padded
code_padded = refl

-- The answer of a pairing that succeeds.
abbrev reply : PairResponse
reply = record {
  name = sanitize_name (codes "Desk.local");
  port = 7444;
  proof = make_proof keyed (codes "042042") (codes "bb") (codes "cc");
}

-- Another invite is opened before the first one is cleared, and is cleared in its place.
abbrev reopened : Meanwhile
reopened = record {
  before_store = λ s. s;
  before_clear = λ s. record s { invite_code = codes "777777"; invite_expires = 9000 };
}

handle_peer_pair_accepted_example :
    let s' =
      (handle_peer_pair reopened
        (pairer true)
        (codes "cc")
        (codes "10.0.0.3")
        (some request)
        daemon).1 in
    ((stored : Peers) × IsProven (pairer true) (codes "cc") (some request) daemon daemon stored
      × (s' ≡ clear_invite (reopened.before_clear stored)))
    × ((m' : Meanwhile) (e' : Pairer) (client' remote' : Text) (body' : Option PairRequest)
        → handle_peer_pair m' e' client' remote' body' s' ≡ (none, s'))
unfolding handle_peer_pair read_invite answer_pairing verify_proof make_proof store_peer
handle_peer_pair_accepted_example =
    handle_peer_pair_accepted reopened (pairer true) (codes "cc") (codes "10.0.0.3") (some request)
      daemon reply daemon-IsDistinct refl

handle_peer_pair_denied_example :
    let s' =
      (handle_peer_pair quiet
        (pairer false)
        (codes "cc")
        (codes "10.0.0.3")
        (some request)
        daemon).1 in
    (s' ≡ daemon)
    ⊎ (s' ≡ daemon)
    ⊎ (false ≡ false) × IsProven (pairer false) (codes "cc") (some request) daemon daemon s'
unfolding handle_peer_pair read_invite answer_pairing verify_proof make_proof store_peer
handle_peer_pair_denied_example =
    handle_peer_pair_denied quiet (pairer false) (codes "cc") (codes "10.0.0.3") (some request)
      daemon daemon-IsDistinct refl

-- A denied request whose certificate passes the TLS gate ever after.
denied_but_pinned :
    let (answer, s') =
      handle_peer_pair quiet (pairer false) (codes "cc") (codes "10.0.0.3") (some request) daemon in
    (answer ≡ none)
    × (peer_cert_authorized 9000 s' (codes "cc") ≡ true)
    × (s'.peers_json ≡ daemon.peers_json)
unfolding handle_peer_pair read_invite answer_pairing verify_proof make_proof store_peer
    peer_cert_authorized peer_by_fingerprint with_peer replace_pinned
denied_but_pinned = (refl, refl, refl)

-- Another machine's request with the same code.
abbrev second_request : PairRequest
second_request = pair_request (pairer true) (codes "042042") (codes "ee") (codes "bb")

-- The second machine pairs while the first one's request has read the invite and not yet stored its peer.
abbrev overtaken : Meanwhile
overtaken = record {
  before_store =
      λ s. (handle_peer_pair quiet (pairer true) (codes "ee") [] (some second_request) s).1;
  before_clear = λ s. s;
}

-- Both requests are accepted with one invite, and both machines are pinned.
invite_used_twice :
    let (inner, s1) =
      handle_peer_pair quiet (pairer true) (codes "ee") [] (some second_request) daemon in
    let (outer, s2) =
      handle_peer_pair overtaken (pairer true) (codes "cc") [] (some request) daemon in
    (is_some inner ≡ true)
    × (is_some outer ≡ true)
    × (pinned (codes "cc") s2.peer_list ≡ true)
    × (pinned (codes "ee") s2.peer_list ≡ true)
unfolding handle_peer_pair read_invite answer_pairing verify_proof make_proof store_peer
    peer_by_fingerprint with_peer replace_pinned
invite_used_twice = (refl, refl, refl, refl)

pairing_mutual_example :
    let out =
      pair_with_peer
        (pairer true)
        (answers (pairer true) (codes "bb") (codes "cc") [] daemon)
        (codes "desk.local")
        7444
        (codes "042042")
        fresh in
    let sb' = (handle_peer_pair quiet (pairer true) (codes "cc") [] (some request) daemon).1 in
    (p : Peer) × (out.0 ≡ ok p)
    × (p.fingerprint ≡ codes "bb")
    × ((fp : Text) → pinned fp out.1.peer_list ≡ (text_eq (codes "bb") fp || pinned fp []))
    × ((fp : Text)
        → pinned fp sb'.peer_list ≡ (text_eq (codes "cc") fp || pinned fp daemon.peer_list))
pairing_mutual_example =
    pairing_mutual (pairer true) (pairer true) (codes "desk.local") [] 7444 (codes "cc")
      (codes "bb") fresh daemon (λ code sender receiver. refl) refl refl refl refl tt
      daemon-IsDistinct refl

false-ne-true : false ≢ true
false-ne-true h = cc

ee-ne-cc : codes "ee" ≢ codes "cc"
ee-ne-cc h = false-ne-true ((text_eq_iff (codes "ee") (codes "cc")).1 h)

-- A relay with the certificate `ee` passes the request on.
handle_peer_pair_intercepted_example :
    let out = handle_peer_pair quiet (pairer true) (codes "ee") [] (some request) daemon in
    (out ≡ (none, daemon)) ⊎ (out ≡ (none, daemon))
handle_peer_pair_intercepted_example =
    handle_peer_pair_intercepted quiet (pairer true) (codes "cc") (codes "bb") (codes "ee")
      (codes "bb") [] request daemon keyed_injective refl refl refl refl (inr ee-ne-cc)

abbrev no_fetch : Peer → Text → Fetch
no_fetch p etag = failed (codes "timeout")

find_peer_route_lem_example :
    let (found, s') = find_peer_route 400 no_fetch (codes "wiki") daemon in
    Found s'.peer_states (codes "wiki") s'.peer_list found
    × (s'.peer_list ≡ daemon.peer_list)
    × (s' ≡ (
        if served_by_any daemon.peer_states (codes "wiki") daemon.peer_list
        then daemon
        else refresh_all_peers 400 false no_fetch daemon))
find_peer_route_lem_example = find_peer_route_lem 400 no_fetch (codes "wiki") daemon

found_on_desk :
    (find_peer_route 400 no_fetch (codes "wiki") daemon).0 ≡ some (desk, summary (codes "wiki"))
unfolding find_peer_route peer_route_from_cache first_with_route lookup
found_on_desk = refl

abbrev ready : ℕ → Bool
ready port = port == 3001

handle_peer_routes_sound_example :
    let (body, sent) = handle_peer_routes ready mark table [] in
    (sent ≡ mark (told ready table))
    × All (IsShared ready (list table)) (told ready table)
    × (body ≡ some (told ready table) ⊎ (body ≡ none) × ([] ≡ mark (told ready table)))
handle_peer_routes_sound_example = handle_peer_routes_sound ready mark table []

-- Two lists may have one set of names though a name is gone: it is seen only where no name stands twice.
names_by_length :
    same_route_names
      (summary (codes "a") ∷ summary (codes "b") ∷ [])
      (summary (codes "a") ∷ summary (codes "a") ∷ [])
    ≡ true
unfolding same_route_names
names_by_length = refl

-- The desk's state as a poll of the sample table left it.
abbrev polled_state : PeerState
polled_state = record desk_state { routes = told ready table; etag = mark (told ready table) }

abbrev polled_daemon : Peers
polled_daemon = record daemon { peer_states = (codes "desk", polled_state) ∷ [] }

refresh_peer_routes_exact_example :
    let s' = (refresh_peer_routes 900 true (λ q. polled ready mark table) desk polled_daemon).1 in
    (cached_routes s'.peer_states desk ≡ told ready table)
    × IsFresh mark (peer_state_for (codes "desk") s')
unfolding start_refresh lookup
refresh_peer_routes_exact_example =
    refresh_peer_routes_exact ready mark table 900 true desk polled_daemon mark_injective
      (mark_injective (told ready table)) refl
