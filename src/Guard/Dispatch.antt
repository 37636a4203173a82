-- ===== src/Guard/Dispatch.antt =====
-- The two switches of internal/daemon/api.go, `apiHandler` and `isDaemonAPIPath`, and the guard in
-- front of them.
use local_vibe.Base.{
  Bool, true, false, not, ◌&&◌, ◌||◌, ◌≡◌, ◌⊎◌, and_true, refl, inl, inr, Bool-cases, Option, none,
  some, [], Text, codes, arith, if◌then◌else◌, text_eq, text_eq_iff, equal_fold, is_some,
  trim_prefix, has_prefix, has_suffix,
}
use local_vibe.Routes.{RouteTable}
use local_vibe.Config.{DaemonConfig}
use local_vibe.Guard.{
  Net, Method, method_get, method_post, method_put, method_delete, method_other, Request, Endpoint,
  health, list_worktrees, list_routes, register, ready, repair, stop_route, start_route,
  adopt_worktree, peers_list, peer_invite, peer_add, endpoint_of, is_daemon_api_path,
  api_state_changing, api_request_cross_site, origin_trusted, ApiOutcome, proxied, forbidden,
  not_found, answered, api_handler, non_local_vibe_host, action_path, action_name,
}

-- The switch of the GET requests, over its tests in their order, and that of the POST requests.
get_some :
    (a b c d e f : Bool) (x0 x1 x2 x3 x4 x5 : Endpoint)
    → (a || b || c || e || d || f)
      ≡ is_some (
          if a
          then some x0
          else if b
          then some x1
          else if c
          then some x2
          else if d
          then some x3
          else if e
          then some x4
          else if f
          then some x5
          else none)
get_some a b c d e f x0 x1 x2 x3 x4 x5 = ground arith

post_some :
    (a b c d e f : Bool) (x0 x1 x2 x3 x4 x5 : Endpoint)
    → (a || b || c || d || e || f)
      ≡ is_some (
          if a
          then some x0
          else if b
          then some x1
          else if c
          then some x2
          else if d
          then some x3
          else if e
          then some x4
          else if f
          then some x5
          else none)
post_some a b c d e f x0 x1 x2 x3 x4 x5 = ground arith

-- The paths that the daemon keeps for itself on every .vibe host are exactly those that its API answers.
pub is_daemon_api_path-endpoint_of :
    (m : Method) (path : Text) → is_daemon_api_path m path ≡ is_some (endpoint_of m path)
unfolding is_daemon_api_path endpoint_of
is_daemon_api_path-endpoint_of method_get path =
    get_some (text_eq path (codes "/health")) (action_path "/ready" path)
      (action_path "/repair" path) (text_eq path (codes "/worktrees"))
      (text_eq path (codes "/routes")) (text_eq path (codes "/peers")) health
      (ready (action_name "/ready" path)) (repair (action_name "/repair" path)) list_worktrees
      list_routes peers_list
is_daemon_api_path-endpoint_of method_post path =
    post_some (text_eq path (codes "/routes")) (action_path "/stop" path)
      (action_path "/start" path) (action_path "/worktrees" path)
      (text_eq path (codes "/peers/invite")) (text_eq path (codes "/peers")) register
      (stop_route (action_name "/stop" path)) (start_route (action_name "/start" path))
      (adopt_worktree (action_name "/worktrees" path)) peer_invite peer_add
is_daemon_api_path-endpoint_of method_put path = ground arith
is_daemon_api_path-endpoint_of method_delete path = ground arith
is_daemon_api_path-endpoint_of method_other path = refl

-- The handlers that change the daemon's state.
abbrev pub writes : Endpoint → Bool
writes health = false
writes list_worktrees = false
writes list_routes = false
writes (ready _) = false
writes peers_list = false
writes _ = true

-- A GET that reaches a handler which writes passed the third test, that of a repair.
get_writes :
    (a b c d f g : Bool) (n m : Text) (e : Endpoint)
    → (if a
        then some health
        else if b
        then some (ready n)
        else if c
        then some (repair m)
        else if d
        then some list_worktrees
        else if f
        then some list_routes
        else if g
        then some peers_list
        else none)
      ≡ some e
    → writes e ≡ true
    → c ≡ true
get_writes a b c d f g n m e h w = ground arith

endpoint_of-writes :
    (m : Method) (path : Text) (e : Endpoint)
    → endpoint_of m path ≡ some e
    → writes e ≡ true
    → api_state_changing m path ≡ true
unfolding endpoint_of api_state_changing
endpoint_of-writes method_get path e h w =
    let passed =
      get_writes (text_eq path (codes "/health")) (action_path "/ready" path)
        (action_path "/repair" path) (text_eq path (codes "/worktrees"))
        (text_eq path (codes "/routes")) (text_eq path (codes "/peers")) (action_name "/ready" path)
        (action_name "/repair" path) e h w in
    ((and_true (has_prefix path (codes "/routes/")) (has_suffix path (codes "/repair")) passed).1)
endpoint_of-writes method_post path e h w = refl
endpoint_of-writes method_put path e h w = refl
endpoint_of-writes method_delete path e h w = refl
endpoint_of-writes method_other path e h w = refl

-- What an answer says of the tests in front of it.
answered_tests :
    (aside guarded away : Bool) (o : Option Endpoint) (e : Endpoint)
    → (if aside
        then proxied
        else if guarded
        then forbidden
        else elim o [ some e' ↦ answered e' | none ↦ if away then proxied else not_found ])
      ≡ answered e
    → (guarded ≡ false) × (o ≡ some e)
answered_tests aside guarded away none e h = absurd (ground (arith, h))
answered_tests aside guarded away (some x) e h = (ground arith, ground arith)

same_site :
    (net : Net) (cfg : DaemonConfig) (table : RouteTable) (r : Request)
    → api_request_cross_site net cfg table r ≡ false
    → (equal_fold r.sec_fetch_site (codes "cross-site") ≡ false)
      × ((r.origin ≡ []) ⊎ (origin_trusted net cfg table r.origin ≡ true))
unfolding api_request_cross_site
same_site net cfg table r h = elim (Bool-cases (equal_fold r.sec_fetch_site (codes "cross-site"))) [
  | inl a ↦ absurd (ground arith)
  | inr a ↦ elim (Bool-cases (text_eq r.origin [])) [
    | inl b ↦ (a, inl ((text_eq_iff r.origin []).0 b))
    | inr b ↦ (a, inr (ground arith))
  ]
]

-- A handler that changes state runs only for a request that the browser does not mark as cross-site and
-- whose `Origin`, if it has one, is trusted: on every host, for every method and path.
pub api_handler_guard :
    (net : Net) (cfg : DaemonConfig) (table : RouteTable) (r : Request) (e : Endpoint)
    → api_handler net cfg table r ≡ answered e
    → writes e ≡ true
    → (equal_fold r.sec_fetch_site (codes "cross-site") ≡ false)
      × ((r.origin ≡ []) ⊎ (origin_trusted net cfg table r.origin ≡ true))
unfolding api_handler
api_handler_guard net cfg table r e h w =
    let path = trim_prefix r.path (codes "/_api") in
    let away = non_local_vibe_host cfg r.request_host in
    let (free, found) =
      answered_tests (away && not (is_daemon_api_path r.method path))
        (api_state_changing r.method path && api_request_cross_site net cfg table r) away
        (endpoint_of r.method path) e h in
    let changing = endpoint_of-writes r.method path e found w in
    let same : api_request_cross_site net cfg table r ≡ false = ground arith in
    same_site net cfg table r same

whichever :
    (away guarded : Bool)
    → ◌≡◌ {A = ApiOutcome}
        (if away && not false
          then proxied
          else if guarded
          then forbidden
          else if away
          then proxied
          else not_found)
        (if away then proxied else if guarded then forbidden else not_found)
whichever true guarded = refl
whichever false guarded = refl

-- On a .vibe host other than the dashboard's a path that the API does not answer goes on to the app,
-- whatever its method and origin; on any other it is forbidden if it is a cross-site change of state, and
-- not found otherwise.
pub api_handler-unknown :
    (net : Net) (cfg : DaemonConfig) (table : RouteTable) (r : Request)
    → endpoint_of r.method (trim_prefix r.path (codes "/_api")) ≡ none
    → api_handler net cfg table r ≡ (
        if non_local_vibe_host cfg r.request_host
        then proxied
        else if api_state_changing r.method (trim_prefix r.path (codes "/_api"))
            && api_request_cross_site net cfg table r
        then forbidden
        else not_found)
unfolding api_handler
api_handler-unknown net cfg table r h =
    let path = trim_prefix r.path (codes "/_api") in
    let unknown : is_daemon_api_path r.method path ≡ false =
      rw (is_daemon_api_path-endpoint_of r.method path, h) refl in
    rw (unknown, h)
      (whichever (non_local_vibe_host cfg r.request_host)
        (api_state_changing r.method path && api_request_cross_site net cfg table r))
