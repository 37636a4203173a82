-- ===== src/Ports.antt =====
-- Who may use which port: the claims and checks of internal/daemon/api.go, `findFreePort` of daemon.go and
-- `validateOAuthBridgeConfig` of oauth_bridge.go.
-- A message is the constructor of an error with what the message names. The maps of reserve ports are
-- association lists, and a loop over one takes them in that order. `net.Listen` is a test of a port.
pub mod Claims
pub mod Reserve
pub mod Free
mod Tests
use local_vibe.Base.{
  ℕ, zero, suc, ◌+◌, Bool, true, false, not, ◌&&◌, ◌||◌, Option, none, some, Result, ok, err, List,
  [], ◌∷◌, ◌++◌, Text, codes, if◌then◌else◌, ◌==◌, leb, ltb, text_eq, to_lower, trim_space, sort_by,
  insert, has_key,
}
use local_vibe.Config.{DaemonConfig}
use local_vibe.Routes.{Route, RouteTable, list}

pub data Claim : Type 0 where
  daemon_http daemon_https : Claim
  route_port route_oauth : Text → Claim
  route_reserve : Text → Text → Claim

-- The first reserve port equal to `port`.
abbrev pub reserve_key : ℕ → List (Text × ℕ) → Option Text
reserve_key port [] = none
reserve_key port ((key, p) ∷ rest) = if p == port then some key else reserve_key port rest

-- The loop over the routes.
unfoldable pub routes_claim : Text → ℕ → List Route → Option Claim
routes_claim exclude port [] = none
routes_claim exclude port (r ∷ rs) =
    let rest = routes_claim exclude port rs in
    if text_eq r.name exclude
    then rest
    else if r.port == port
    then some (route_port r.name)
    else if r.oauth_callback_port == port
    then some (route_oauth r.name)
    else elim (reserve_key port r.reserve_ports) [
      | some key ↦ some (route_reserve r.name key)
      | none ↦ rest
    ]

unfoldable pub vibe_port_claim : DaemonConfig → RouteTable → Text → ℕ → Option Claim
unfolding routes_claim
vibe_port_claim cfg table exclude port =
    if port == 0
    then none
    else if port == cfg.port
    then some daemon_http
    else if cfg.tls_enabled && port == cfg.tls_port
    then some daemon_https
    else routes_claim exclude port (list table)

abbrev pub reserve_port_values_sorted : List (Text × ℕ) → List (Text × ℕ)
reserve_port_values_sorted = sort_by (λ (e : Text × ℕ). e.0)

-- The loop of `reservePortsClaim`; a port 0 awaits its assignment.
unfoldable pub values_claim : DaemonConfig → RouteTable → Text → List (Text × ℕ) → Option Claim
values_claim cfg table exclude [] = none
values_claim cfg table exclude ((key, p) ∷ rest) =
    let more = values_claim cfg table exclude rest in
    if p == 0
    then more
    else elim (vibe_port_claim cfg table exclude p) [ some c ↦ some c | none ↦ more ]

unfoldable pub reserve_ports_claim :
    DaemonConfig → RouteTable → Text → List (Text × ℕ) → Option Claim
reserve_ports_claim cfg table exclude reserve =
    values_claim cfg table exclude (reserve_port_values_sorted reserve)

unfoldable pub check_vibe_port_collisions : DaemonConfig → RouteTable → Route → Option Claim
check_vibe_port_collisions cfg table r = elim (vibe_port_claim cfg table r.name r.port) [
  | some c ↦ some c
  | none ↦ reserve_ports_claim cfg table r.name r.reserve_ports
]

pub data ReserveError : Type 0 where
  empty_name bad_name reserved_name out_of_range primary_port oauth_port duplicate_port
        duplicate_name :
      ReserveError

abbrev pub is_letter : ℕ → Bool
is_letter c = leb b'a' c && leb c b'z' || leb b'A' c && leb c b'Z'

abbrev pub is_word : ℕ → Bool
is_word c = is_letter c || leb b'0' c && leb c b'9' || c == b'_'

abbrev pub all_word : Text → Bool
all_word [] = true
all_word (c ∷ s) = is_word c && all_word s

-- ^[a-zA-Z][a-zA-Z0-9_]*$
abbrev pub reserve_port_name_pattern : Text → Bool
reserve_port_name_pattern [] = false
reserve_port_name_pattern (c ∷ s) = is_letter c && all_word s

abbrev pub seen : ℕ → List ℕ → Bool
seen p [] = false
seen p (q ∷ qs) = q == p || seen p qs

-- The checks of one entry, in their order. `ports` are the ports seen so far, `out` the entries taken.
abbrev pub entry_error : ℕ → ℕ → List ℕ → List (Text × ℕ) → Text → ℕ → Option ReserveError
entry_error primary oauth ports out name p =
    if text_eq name []
    then some empty_name
    else if not (reserve_port_name_pattern name)
    then some bad_name
    else if text_eq (to_lower name) (codes "port")
    then some reserved_name
    else if ltb p 1 || ltb 65535 p
    then some out_of_range
    else if p == primary
    then some primary_port
    else if ltb 0 oauth && p == oauth
    then some oauth_port
    else if seen p ports
    then some duplicate_port
    else if has_key name out
    then some duplicate_name
    else none

unfoldable pub validate_loop :
    ℕ → ℕ → List (Text × ℕ) → List ℕ → List (Text × ℕ) → Result ReserveError (List (Text × ℕ))
validate_loop primary oauth [] ports out = ok out
validate_loop primary oauth ((raw, p) ∷ rest) ports out =
    let name = to_lower (trim_space raw) in
    let more = validate_loop primary oauth rest (p ∷ ports) (insert name p out) in
    elim (entry_error primary oauth ports out name p) [ some e ↦ err e | none ↦ more ]

unfoldable pub validate_reserve_ports :
    List (Text × ℕ) → ℕ → ℕ → Result ReserveError (List (Text × ℕ))
unfolding validate_loop
validate_reserve_ports reserve primary oauth = validate_loop primary oauth reserve [] []

pub data BridgeError : Type 0 where
  callback_range callback_is_app callback_is_daemon : BridgeError
  callback_used : Text → BridgeError

unfoldable pub callback_user : Text → ℕ → List Route → Option BridgeError
callback_user name callback [] = none
callback_user name callback (r ∷ rs) =
    let rest = callback_user name callback rs in
    if not (text_eq r.name name) && r.oauth_callback_port == callback
    then some (callback_used r.name)
    else rest

unfoldable pub validate_oauth_bridge_config :
    DaemonConfig → RouteTable → Text → ℕ → ℕ → Option BridgeError
unfolding callback_user
validate_oauth_bridge_config cfg table name app_port callback =
    if ltb callback 1 || ltb 65535 callback
    then some callback_range
    else if ltb 0 app_port && callback == app_port
    then some callback_is_app
    else if callback == cfg.port || cfg.tls_enabled && callback == cfg.tls_port
    then some callback_is_daemon
    else callback_user name callback (list table)

abbrev pub port_values : List (Text × ℕ) → List ℕ
port_values [] = []
port_values ((k, p) ∷ m) = p ∷ port_values m

-- The ports above 0 that the routes name (`claimed`).
abbrev pub claims : ℕ → List Route → Bool
claims port [] = false
claims port (r ∷ rs) =
    ltb 0 port
      && (r.port == port
          || r.oauth_callback_port == port
          || seen port (port_values r.reserve_ports))
    || claims port rs

-- The loop over `fuel` ports from `port` on.
pub scan_free : (ℕ → Bool) → List Route → ℕ → ℕ → Option ℕ
scan_free bindable rs zero port = none
scan_free bindable rs (suc fuel) port =
    let rest = scan_free bindable rs fuel (port + 1) in
    if claims port rs then rest else if bindable port then some port else rest

-- The port that the operating system picks is `fallback`; none is the error.
pub find_free_port : (ℕ → Bool) → Option ℕ → RouteTable → Option ℕ
unfolding scan_free
find_free_port bindable fallback table = elim (scan_free bindable (list table) 1000 3000) [
  | some port ↦ some port
  | none ↦ fallback
]
