-- ===== src/Peers/Sync.antt =====
-- The polls of paired machines and the cache of their routes (internal/daemon/peer_sync.go), and the summaries that this
-- daemon gives out (`handlePeerRoutes` of peer_listener.go, `handlePeersList` of peer_api.go).
-- A refresh is a start and an end, between which other requests may run. What comes of the HTTP exchange is a value.
use local_vibe.Base.{
  ℕ, ◌+◌, ◌*◌, Bool, true, false, not, ◌&&◌, ◌||◌, Option, none, some, List, [], ◌∷◌, ◌++◌, map,
  Text, if◌then◌else◌, ◌==◌, ltb, text_eq, lookup, insert, length, sort_by,
}
use local_vibe.Timers.{second}
use local_vibe.Routes.{Route, RouteTable, is_bookmark, is_managed, list}
use local_vibe.Peers.{Peer, RouteSummary, PeerState, Peers}

abbrev pub peer_sync_interval : ℕ
peer_sync_interval = 30 * second

abbrev pub peer_refresh_throttle : ℕ
peer_refresh_throttle = 3 * second

abbrev pub new_peer_state : PeerState
new_peer_state = record {
  routes = [];
  etag = [];
  last_ok = none;
  last_err = [];
  last_refresh = none;
  refreshing = false;
}

abbrev pub peer_state_for : Text → Peers → PeerState
peer_state_for name s = elim (lookup name s.peer_states) [ none ↦ new_peer_state | some st ↦ st ]

-- Less than `d` since the time.
abbrev pub is_within : ℕ → ℕ → Option ℕ → Bool
is_within now d none = false
is_within now d (some t) = ltb now (t + d)

-- The throttle and the compare-and-swap; the Boolean is the go-ahead.
unfoldable pub start_refresh : ℕ → Bool → PeerState → Bool × PeerState
start_refresh now force st =
    if not force && is_within now peer_refresh_throttle st.last_refresh
    then (false, st)
    else if st.refreshing
    then (false, st)
    else (true, record st { refreshing = true; last_refresh = some now })

-- An error of the transport, the request, the exchange or the body; a status; or the routes with their ETag.
pub data Fetch : Type 0 where
  failed : Text → Fetch
  not_modified : Fetch
  fetched : List RouteSummary → Text → Fetch

abbrev pub has_name : Text → List RouteSummary → Bool
has_name n [] = false
has_name n (r ∷ rs) = text_eq r.name n || has_name n rs

abbrev pub all_named : List RouteSummary → List RouteSummary → Bool
all_named a [] = true
all_named a (r ∷ rs) = has_name r.name a && all_named a rs

unfoldable pub same_route_names : List RouteSummary → List RouteSummary → Bool
same_route_names a b = if not (length a == length b) then false else all_named a b

-- The Boolean says that the certificate is made anew.
unfoldable pub finish_refresh : ℕ → Fetch → PeerState → Bool × PeerState
finish_refresh now (failed e) st = (false, record st { last_err = e; refreshing = false })
finish_refresh now not_modified st =
    (false, record st { last_ok = some now; last_err = []; refreshing = false })
finish_refresh now (fetched routes etag) st = (
  not (same_route_names st.routes routes),
  record st { routes = routes; etag = etag; last_ok = some now; last_err = []; refreshing = false },
)

abbrev pub put_state : Text → PeerState → Peers → Peers
put_state name st s = record s { peer_states = insert name st s.peer_states }

-- A whole refresh; `fetch` is the exchange with a peer, given the ETag that is sent.
unfoldable pub refresh_peer_routes : ℕ → Bool → (Peer → Text → Fetch) → Peer → Peers → Bool × Peers
unfolding start_refresh finish_refresh
refresh_peer_routes now force fetch p s =
    let st = peer_state_for p.name s in
    let (go, st1) = start_refresh now force st in
    let (changed, st2) = finish_refresh now (fetch p st.etag) st1 in
    if not go then (false, put_state p.name st s) else (changed, put_state p.name st2 s)

unfoldable pub refresh_each : ℕ → Bool → (Peer → Text → Fetch) → List Peer → Peers → Peers
unfolding refresh_peer_routes
refresh_each now force fetch [] s = s
refresh_each now force fetch (p ∷ ps) s =
    refresh_each now force fetch ps (refresh_peer_routes now force fetch p s).1

unfoldable pub refresh_all_peers : ℕ → Bool → (Peer → Text → Fetch) → Peers → Peers
unfolding refresh_each
refresh_all_peers now force fetch s = refresh_each now force fetch s.peer_list s

abbrev pub find_summary : Text → List RouteSummary → Option RouteSummary
find_summary name [] = none
find_summary name (r ∷ rs) = if text_eq r.name name then some r else find_summary name rs

abbrev pub cached_routes : List (Text × PeerState) → Peer → List RouteSummary
cached_routes states p = elim (lookup p.name states) [ none ↦ [] | some st ↦ st.routes ]

unfoldable pub first_with_route :
    List (Text × PeerState) → Text → List Peer → Option (Peer × RouteSummary)
first_with_route states name [] = none
first_with_route states name (p ∷ ps) =
    let rest = first_with_route states name ps in
    elim (find_summary name (cached_routes states p)) [ some r ↦ some (p, r) | none ↦ rest ]

unfoldable pub peer_route_from_cache : Text → Peers → Option (Peer × RouteSummary)
unfolding first_with_route
peer_route_from_cache name s = first_with_route s.peer_states name s.peer_list

unfoldable pub find_peer_route :
    ℕ → (Peer → Text → Fetch) → Text → Peers → Option (Peer × RouteSummary) × Peers
unfolding peer_route_from_cache refresh_all_peers
find_peer_route now fetch name s =
    let s' = refresh_all_peers now false fetch s in
    elim (peer_route_from_cache name s) [
      | some found ↦ (some found, s)
      | none ↦ (peer_route_from_cache name s', s')
    ]

unfoldable pub cold : List (Text × PeerState) → List Peer → Bool
cold states [] = false
cold states (p ∷ ps) =
    elim (lookup p.name states) [
      | none ↦ true
      | some st ↦ elim st.last_ok [ none ↦ text_eq st.last_err [] | some t ↦ false ]
    ]
    || cold states ps

unfoldable pub peer_cache_cold : Peers → Bool
unfolding cold
peer_cache_cold s = cold s.peer_states s.peer_list

abbrev pub text_member : Text → List Text → Bool
text_member n [] = false
text_member n (m ∷ ms) = text_eq m n || text_member n ms

-- The inner loop: the names of one peer's routes that are new are appended.
unfoldable pub add_names : List RouteSummary → List Text → List Text
add_names [] names = names
add_names (r ∷ rs) names =
    add_names rs (if text_member r.name names then names else names ++ r.name ∷ [])

unfoldable pub collect_names : List (Text × PeerState) → List Peer → List Text → List Text
unfolding add_names
collect_names states [] names = names
collect_names states (p ∷ ps) names =
    collect_names states ps (add_names (cached_routes states p) names)

unfoldable pub peer_route_names : Peers → List Text
unfolding collect_names
peer_route_names s = collect_names s.peer_states s.peer_list []

-- A route as a paired machine sees it. Only a managed route's own flags are believed.
unfoldable pub summary_of : (ℕ → Bool) → Route → RouteSummary
summary_of port_ready r = record {
  name = r.name;
  type = r.type;
  running = if is_managed r.type then r.running else port_ready r.port;
  ready = if is_managed r.type then r.ready else port_ready r.port;
  icon = r.icon;
}

unfoldable pub summaries_of : (ℕ → Bool) → List Route → List RouteSummary
unfolding summary_of
summaries_of port_ready [] = []
summaries_of port_ready (r ∷ rs) =
    let rest = summaries_of port_ready rs in
    if is_bookmark r.type then rest else summary_of port_ready r ∷ rest

-- The body, or none for 304, with the ETag; `etag_of` is that of the marshalled list.
unfoldable pub handle_peer_routes :
    (ℕ → Bool) → (List RouteSummary → Text) → RouteTable → Text → Option (List RouteSummary) × Text
unfolding summaries_of
handle_peer_routes port_ready etag_of table if_none_match =
    let body = sort_by (λ (r : RouteSummary). r.name) (summaries_of port_ready (list table)) in
    let etag = etag_of body in ((if text_eq if_none_match etag then none else some body), etag)

pub record PeerResponse : Type 0 where
  pub peer : Peer
  pub reachable : Bool
  pub last_error : Text
  pub routes : List RouteSummary

-- An icon is not listed here.
abbrev pub peer_response : ℕ → List (Text × PeerState) → Peer → PeerResponse
peer_response now states p = elim (lookup p.name states) [
  | none ↦ record { peer = p; reachable = false; last_error = []; routes = [] }
  | some st ↦ record {
    peer = p;
    reachable = is_within now (2 * peer_sync_interval) st.last_ok;
    last_error = st.last_err;
    routes = map (λ (r : RouteSummary). record r { icon = [] }) st.routes;
  }
]

pub handle_peers_list : ℕ → Peers → List PeerResponse
handle_peers_list now s = map (peer_response now s.peer_states) s.peer_list
