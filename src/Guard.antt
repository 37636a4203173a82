-- ===== src/Guard.antt =====
-- internal/daemon/origin.go and `apiHandler` of internal/daemon/api.go: which requests to the API are
-- answered, by which handler, and which are refused as cross-site.
-- `url.Parse` and `net.SplitHostPort` are parameters. A handler is named by the constructor of
-- `Endpoint`, with the route or peer name that it gets; what it does is modelled elsewhere.
pub mod Trust
pub mod Dispatch
mod Tests
use Prim.Native.String.{String}
use local_vibe.Base.{
  ℕ, Bool, true, false, not, ◌&&◌, ◌||◌, Option, none, some, List, [], ◌∷◌, ◌++◌, Text, codes,
  if◌then◌else◌, text_eq, equal_fold, has_prefix, has_suffix, trim_prefix, trim_suffix, before,
  itoa,
}
use local_vibe.Config.{DaemonConfig}
use local_vibe.Routes.{Route, RouteTable, get, is_bookmark}

-- A parsed URL: its host with the port, its host name and its port.
pub record Url : Type 0 where
  pub scheme : Text
  pub host : Text
  pub hostname : Text
  pub url_port : Text

-- The library functions: none is their error.
pub record Net : Type 0 where
  pub parse : Text → Option Url
  pub split_host_port : Text → Option (Text × Text)

pub data Method : Type 0 where
  method_get method_post method_put method_delete method_other : Method

pub record Request : Type 0 where
  pub method : Method
  pub path : Text
  pub request_host : Text
  pub remote_addr : Text
  pub origin : Text
  pub sec_fetch_site : Text

pub daemon_port_trusted : DaemonConfig → Text → Bool
daemon_port_trusted cfg p =
    if text_eq p []
    then true
    else if text_eq p (itoa cfg.port)
    then true
    else if text_eq p (itoa cfg.tls_port)
    then cfg.tls_enabled
    else false

abbrev pub is_loopback : Text → Bool
is_loopback host =
    text_eq host (codes "localhost")
    || text_eq host (codes "127.0.0.1")
    || text_eq host (codes "::1")

-- Whether a route of this name may drive the API.
abbrev pub route_trusted : Option Route → Bool
route_trusted none = false
route_trusted (some r) = not (is_bookmark r.type)

abbrev pub host_trusted : DaemonConfig → RouteTable → Url → Bool
host_trusted cfg table u =
    let suffix = codes "." ++ cfg.tld in
    if is_loopback u.hostname
    then daemon_port_trusted cfg u.url_port
    else if not (daemon_port_trusted cfg u.url_port)
    then false
    else if text_eq u.hostname (codes "local." ++ cfg.tld)
    then true
    else if has_suffix u.hostname suffix
    then route_trusted (get table (trim_suffix u.hostname suffix))
    else false

pub origin_trusted : Net → DaemonConfig → RouteTable → Text → Bool
unfolding daemon_port_trusted
origin_trusted net cfg table origin =
    if text_eq origin [] || text_eq origin (codes "null") then false else elim (net.parse origin) [
      | none ↦ false
      | some u ↦ if text_eq u.host [] then false else host_trusted cfg table u
    ]

pub api_request_cross_site : Net → DaemonConfig → RouteTable → Request → Bool
unfolding origin_trusted
api_request_cross_site net cfg table r =
    if equal_fold r.sec_fetch_site (codes "cross-site")
    then true
    else if text_eq r.origin []
    then false
    else not (origin_trusted net cfg table r.origin)

abbrev pub is_get : Method → Bool
is_get method_get = true
is_get _ = false

pub api_state_changing : Method → Text → Bool
api_state_changing method path =
    if not (is_get method) then true else has_suffix path (codes "/repair")

abbrev pub own_host : DaemonConfig → Text → Text → Bool
own_host cfg host p =
    if is_loopback host || text_eq host (codes "local." ++ cfg.tld)
    then daemon_port_trusted cfg p
    else false

pub local_details_allowed : Net → DaemonConfig → Request → Bool
local_details_allowed net cfg r = elim (net.split_host_port r.remote_addr) [
  | none ↦ true
  | some _ ↦ elim (net.split_host_port r.request_host) [
    | none ↦ own_host cfg r.request_host []
    | some (host, p) ↦ own_host cfg host p
  ]
]

pub data Endpoint : Type 0 where
  health list_worktrees list_routes register set_preferences : Endpoint
  ready repair update_route stop_route deregister start_route adopt_worktree : Text → Endpoint
  peers_list peer_invite peer_add : Endpoint
  peer_remove : Text → Endpoint

abbrev pub route_path : Text → Bool
route_path path = has_prefix path (codes "/routes/")

abbrev pub route_name : Text → Text
route_name path = trim_prefix path (codes "/routes/")

-- A path "/routes/<name><end>", and the name in it.
abbrev pub action_path : String → Text → Bool
action_path end path = route_path path && has_suffix path (codes end)

abbrev pub action_name : String → Text → Text
action_name end path = trim_suffix (route_name path) (codes end)

-- The `switch` of `apiHandler`, one method at a time.
pub endpoint_of : Method → Text → Option Endpoint
endpoint_of method_get path =
    if text_eq path (codes "/health")
    then some health
    else if action_path "/ready" path
    then some (ready (action_name "/ready" path))
    else if action_path "/repair" path
    then some (repair (action_name "/repair" path))
    else if text_eq path (codes "/worktrees")
    then some list_worktrees
    else if text_eq path (codes "/routes")
    then some list_routes
    else if text_eq path (codes "/peers")
    then some peers_list
    else none
endpoint_of method_post path =
    if text_eq path (codes "/routes")
    then some register
    else if action_path "/stop" path
    then some (stop_route (action_name "/stop" path))
    else if action_path "/start" path
    then some (start_route (action_name "/start" path))
    else if action_path "/worktrees" path
    then some (adopt_worktree (action_name "/worktrees" path))
    else if text_eq path (codes "/peers/invite")
    then some peer_invite
    else if text_eq path (codes "/peers")
    then some peer_add
    else none
endpoint_of method_put path =
    if route_path path
    then some (update_route (route_name path))
    else if text_eq path (codes "/preferences")
    then some set_preferences
    else none
endpoint_of method_delete path =
    if route_path path
    then if has_suffix (route_name path) (codes "/stop")
      then some (stop_route (trim_suffix (route_name path) (codes "/stop")))
      else some (deregister (route_name path))
    else if has_prefix path (codes "/peers/")
    then some (peer_remove (trim_prefix path (codes "/peers/")))
    else none
endpoint_of method_other path = none

pub is_daemon_api_path : Method → Text → Bool
is_daemon_api_path method_get path =
    text_eq path (codes "/health")
    || action_path "/ready" path
    || action_path "/repair" path
    || text_eq path (codes "/routes")
    || text_eq path (codes "/worktrees")
    || text_eq path (codes "/peers")
is_daemon_api_path method_post path =
    text_eq path (codes "/routes")
    || action_path "/stop" path
    || action_path "/start" path
    || action_path "/worktrees" path
    || text_eq path (codes "/peers/invite")
    || text_eq path (codes "/peers")
is_daemon_api_path method_put path = route_path path || text_eq path (codes "/preferences")
is_daemon_api_path method_delete path = route_path path || has_prefix path (codes "/peers/")
is_daemon_api_path method_other path = false

pub data ApiOutcome : Type 0 where
  proxied forbidden not_found : ApiOutcome
  answered : Endpoint → ApiOutcome

-- A .vibe host other than the dashboard's.
abbrev pub non_local_vibe_host : DaemonConfig → Text → Bool
non_local_vibe_host cfg host =
    let h = before b':' host in
    let suffix = codes "." ++ cfg.tld in
    has_suffix h suffix && not (text_eq (trim_suffix h suffix) (codes "local"))

pub api_handler : Net → DaemonConfig → RouteTable → Request → ApiOutcome
unfolding api_request_cross_site
api_handler net cfg table r =
    let path = trim_prefix r.path (codes "/_api") in
    let away = non_local_vibe_host cfg r.request_host in
    if away && not (is_daemon_api_path r.method path)
    then proxied
    else if api_state_changing r.method path && api_request_cross_site net cfg table r
    then forbidden
    else elim (endpoint_of r.method path) [
      | some e ↦ answered e
      | none ↦ if away then proxied else not_found
    ]
