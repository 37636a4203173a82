-- ===== src/Bridge.antt =====
-- The OAuth callback bridge: internal/daemon/oauth_bridge.go, and the tagging of the state parameter in
-- internal/daemon/oauth_worktree.go.
-- `url.Parse` and `URL.String` are parameters; a query is an association list with the first value of each
-- key, the one that `Get` reads. A listener is its port; `net.Listen` is a test of a port, and the loops over
-- the maps of ports take them in the order of the routes.
pub mod Callback
pub mod Listeners
mod Tests
use local_vibe.Base.{
  ℕ, Bool, true, false, not, ◌&&◌, ◌||◌, Option, none, some, Result, ok, err, List, [], ◌∷◌, ◌++◌,
  Text, codes, if◌then◌else◌, ◌==◌, leb, ltb, text_eq, has_prefix, cut_prefix, cut_at, lookup,
  insert, erase, itoa,
}
use local_vibe.Config.{DaemonConfig}
use local_vibe.Routes.{Route, RouteTable, get, list}
use local_vibe.Ports.{BridgeError, validate_oauth_bridge_config}

abbrev pub oauth_state_tag_prefix : Text
oauth_state_tag_prefix = codes "vibewt1!"

pub wrap_oauth_state : Text → Text → Text
wrap_oauth_state route_name state = oauth_state_tag_prefix ++ (route_name ++ b'!' ∷ state)

-- The route name and the original state.
pub parse_wrapped_oauth_state : Text → Option (Text × Text)
parse_wrapped_oauth_state state = elim (cut_prefix state oauth_state_tag_prefix) [
  | none ↦ none
  | some rest ↦ cut_at b'!' rest
]

pub parent_bridge_port : RouteTable → Route → ℕ
parent_bridge_port table route =
    if text_eq route.parent []
    then 0
    else elim (get table route.parent) [ none ↦ 0 | some parent ↦ parent.oauth_callback_port ]

pub oauth_env_for_route : RouteTable → Route → List Text
unfolding parent_bridge_port
oauth_env_for_route table route =
    let port =
      if route.oauth_callback_port == 0
      then parent_bridge_port table route
      else route.oauth_callback_port in
    let base = codes "http://localhost:" ++ itoa port in
    if port == 0 then [] else (codes "AUTH_URL=" ++ base) ∷ (codes "NEXTAUTH_URL=" ++ base) ∷ []

abbrev pub Values : Type 0
Values = List (Text × Text)

-- `q.Get`.
abbrev pub value_of : Values → Text → Text
value_of q key = elim (lookup key q) [ none ↦ [] | some v ↦ v ]

pub record Location : Type 0 where
  pub scheme : Text
  pub host : Text
  pub path : Text
  pub query : Values

pub record UrlLibrary : Type 0 where
  pub parse_url : Text → Option Location
  pub print_url : Location → Text

pub is_bridge_host : Text → ℕ → Bool
is_bridge_host host port =
    text_eq host (codes "localhost:" ++ itoa port) || text_eq host (codes "127.0.0.1:" ++ itoa port)

-- Whether the redirect URI of an authorize URL is on the bridge.
abbrev pub redirects_to_bridge : UrlLibrary → Text → ℕ → Bool
redirects_to_bridge lib redirect_uri port = elim (lib.parse_url redirect_uri) [
  | none ↦ false
  | some u ↦ is_bridge_host u.host port
]

-- The query after tagging, if there is anything to tag.
pub tag_authorize_url : UrlLibrary → Values → Text → ℕ → Option Values
unfolding is_bridge_host wrap_oauth_state
tag_authorize_url lib q route_name port =
    let state = value_of q (codes "state") in
    let redirect_uri = value_of q (codes "redirect_uri") in
    if text_eq redirect_uri [] || has_prefix state oauth_state_tag_prefix
    then none
    else if not (redirects_to_bridge lib redirect_uri port)
    then none
    else some (insert (codes "state") (wrap_oauth_state route_name state) q)

-- The status and the Location header of a response.
pub record Response : Type 0 where
  pub status : ℕ
  pub location : Text

abbrev pub is_redirect : Response → Bool
is_redirect resp = leb 300 resp.status && leb resp.status 399 && not (text_eq resp.location [])

abbrev pub is_http : Text → Bool
is_http scheme = text_eq scheme (codes "http") || text_eq scheme (codes "https")

pub tag_oauth_authorize_redirect : UrlLibrary → Response → Text → ℕ → Response
unfolding tag_authorize_url
tag_oauth_authorize_redirect lib resp route_name port =
    if not (is_redirect resp) then resp else elim (lib.parse_url resp.location) [
      | none ↦ resp
      | some u ↦
          if not (is_http u.scheme) || text_eq u.host []
          then resp
          else elim (tag_authorize_url lib u.query route_name port) [
            | none ↦ resp
            | some q ↦ record resp { location = lib.print_url (record u { query = q }) }
          ]
    ]

pub rewrite_bridge_host_redirect : UrlLibrary → Response → Text → Text → ℕ → Response
unfolding is_bridge_host
rewrite_bridge_host_redirect lib resp scheme vibe_host port =
    if not (is_redirect resp) then resp else elim (lib.parse_url resp.location) [
      | none ↦ resp
      | some u ↦ if not (is_bridge_host u.host port) then resp else record resp {
        location = lib.print_url (record u { scheme = scheme; host = vibe_host });
      }
    ]

-- The first route of the list with this callback port.
pub bridge_owner : ℕ → List Route → Option Route
bridge_owner port [] = none
bridge_owner port (r ∷ rs) = if r.oauth_callback_port == port then some r else bridge_owner port rs

-- The query without the state of a flow that sent none, or with the original state.
abbrev pub restore_state : Text → Values → Values
restore_state orig q =
    if text_eq orig [] then erase (codes "state") q else insert (codes "state") orig q

-- The name of the route that the callback is sent on to, and its query; none is not found.
pub handle_oauth_callback_bridge : RouteTable → ℕ → Values → Option (Text × Values)
unfolding bridge_owner parse_wrapped_oauth_state
handle_oauth_callback_bridge table port q = elim (bridge_owner port (list table)) [
  | none ↦ none
  | some owner ↦ elim (parse_wrapped_oauth_state (value_of q (codes "state"))) [
    | none ↦ some (owner.name, q)
    | some (name, orig) ↦ elim (get table name) [
      | none ↦ some (owner.name, q)
      | some wt ↦
          if text_eq wt.parent owner.name
          then some (wt.name, restore_state orig q)
          else some (owner.name, q)
    ]
  ]
]

abbrev pub listening : ℕ → List ℕ → Bool
listening p [] = false
listening p (q ∷ qs) = q == p || listening p qs

pub data ReconcileError : Type 0 where
  bad_config : BridgeError → ReconcileError
  not_available : ℕ → ReconcileError

unfoldable pub wanted_ports :
    DaemonConfig → RouteTable → List Route → Result ReconcileError (List ℕ)
wanted_ports cfg table [] = ok []
wanted_ports cfg table (r ∷ rs) =
    let rest = wanted_ports cfg table rs in
    if not (ltb 0 r.oauth_callback_port)
    then rest
    else elim (validate_oauth_bridge_config cfg table r.name r.port r.oauth_callback_port) [
      | some e ↦ err (bad_config e)
      | none ↦ elim rest [ err e ↦ err e | ok ports ↦ ok (r.oauth_callback_port ∷ ports) ]
    ]

unfoldable pub close_unwanted : List ℕ → List ℕ → List ℕ
close_unwanted wanted [] = []
close_unwanted wanted (p ∷ open_ports) =
    let rest = close_unwanted wanted open_ports in if listening p wanted then p ∷ rest else rest

-- The listeners, and the error that stopped the loop.
unfoldable pub open_wanted : (ℕ → Bool) → List ℕ → List ℕ → List ℕ × Option ReconcileError
open_wanted bindable [] open_ports = (open_ports, none)
open_wanted bindable (p ∷ wanted) open_ports =
    let skip = open_wanted bindable wanted open_ports in
    let more = open_wanted bindable wanted (p ∷ open_ports) in
    if listening p open_ports
    then skip
    else if not (bindable p)
    then (open_ports, some (not_available p))
    else more

unfoldable pub reconcile_oauth_bridge_listeners :
    DaemonConfig → RouteTable → (ℕ → Bool) → List ℕ → List ℕ × Option ReconcileError
unfolding wanted_ports close_unwanted open_wanted
reconcile_oauth_bridge_listeners cfg table bindable open_ports =
    elim (wanted_ports cfg table (list table)) [
      | err e ↦ (open_ports, some e)
      | ok wanted ↦ open_wanted bindable wanted (close_unwanted wanted open_ports)
    ]
