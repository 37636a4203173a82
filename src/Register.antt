-- ===== src/Register.antt =====
-- internal/daemon/api.go: registering a route (`handleRegister`).
-- The table's entry is written through the route's pointer, as `update` of its name. The checks come first and write
-- nothing; a route that is added and then cannot be served is removed again. A body that does not decode is none,
-- and the decoded numbers are not negative. The copying of .env files and the readiness poll are outside.
pub mod Added
pub mod Refused
pub mod Launched
pub mod Tracked
pub mod Served
mod Tests
use local_vibe.Base.{
  ℕ, ◌+◌, ◌*◌, Bool, true, false, not, ◌&&◌, ◌||◌, Option, none, some, Result, ok, err, List, [],
  ◌∷◌, ◌++◌, map, Text, codes, if◌then◌else◌, ◌==◌, ltb, text_eq, to_lower, is_some, insert,
}
use local_vibe.Config.{DaemonConfig}
use local_vibe.Names.{parse_route_name, local_name}
use local_vibe.Routes.{
  Route, RouteTable, RouteType, sticky, pid_tracked, ttl, managed, bookmark, is_managed,
  is_bookmark, is_sticky, get, update,
}
use local_vibe.Procs.{System, ProcessManager, start, stop}
use local_vibe.Timers.{Server, second, add_route, remove_route}
use local_vibe.Ports.{
  vibe_port_claim, reserve_ports_claim, validate_reserve_ports, validate_oauth_bridge_config,
  reserve_port_values_sorted, find_free_port,
}
use local_vibe.Bridge.{reconcile_oauth_bridge_listeners}
use local_vibe.Store.{save_sticky_routes}
use local_vibe.Handlers.{
  Daemon, Surroundings, Status, done, refused, or_else, validate_external_url,
}
use local_vibe.Recover.{preflight_ports, spawned}

pub record RegisterRequest : Type 0 where
  pub name : Text
  pub port : ℕ
  pub pid : Option ℕ
  pub ttl : Option ℕ
  pub cmd : Text
  pub dir : Text
  pub url : Text
  pub idle_timeout : Option ℕ
  pub icon : Option Text
  pub proxy : Option Bool
  pub insecure_skip_verify : Option Bool
  pub oauth_callback_port : Option ℕ
  pub reserve_ports : List (Text × ℕ)

-- `later` is the system half a second after a port's holders were signalled; `fallback` is the port that the operating
-- system picks for a reserve port's name, or for the primary port under the empty name; `is_worktree` says that a
-- directory has a `.git` entry.
pub record Registering : Type 0 where
  pub around : Surroundings
  pub later : System
  pub fallback : Text → Option ℕ
  pub is_worktree : Text → Bool

-- The checks of a worktree's registration.
pub worktree_refused : (Text → Bool) → RegisterRequest → Bool
worktree_refused is_worktree q =
    not (text_eq q.url [])
    || (text_eq q.cmd []
        || (ltb 0 (or_else q.oauth_callback_port 0)
            || (text_eq q.dir [] || not (is_worktree q.dir))))

abbrev pub is_worktree_name : Text → Bool
is_worktree_name parent = not (text_eq parent [])

-- The name in lower case, and no port for a worktree.
abbrev pub portless : Text → RegisterRequest → RegisterRequest
portless parent q = record q { port = if is_worktree_name parent then 0 else q.port }

-- The parent that the name has, once what the request says by itself is in order.
pub check_request : Registering → RegisterRequest → Result ℕ Text
check_request e q =
    if text_eq q.name []
    then err 400
    else if q.port == 0 && (text_eq q.url [] && text_eq q.cmd [])
    then err 400
    else elim (parse_route_name q.name) [
      | err x ↦ err 400
      | ok parent ↦
          if text_eq q.name local_name
          then err 400
          else if is_worktree_name parent && worktree_refused e.is_worktree q
          then err 400
          else if not (text_eq q.url []) && not (validate_external_url e.around.urls q.url)
          then err 400
          else if or_else q.proxy false && text_eq q.url []
          then err 400
          else ok parent
    ]

abbrev pub callback_refused : DaemonConfig → RouteTable → RegisterRequest → Bool
callback_refused cfg table q = elim q.oauth_callback_port [
  | none ↦ false
  | some port ↦ is_some (validate_oauth_bridge_config cfg table q.name q.port port)
]

abbrev pub zeroed : List (Text × ℕ) → List (Text × ℕ)
zeroed [] = []
zeroed ((name, port) ∷ rest) = (name, 0) ∷ zeroed rest

abbrev pub is_running_app : Option Route → Bool
is_running_app none = false
is_running_app (some r) = is_managed r.type && r.running

-- The reserve ports to register, once the table allows them and the other ports.
pub check_ports : DaemonConfig → RouteTable → Text → RegisterRequest → Result ℕ (List (Text × ℕ))
check_ports cfg table parent q =
    if callback_refused cfg table q
    then err 400
    else elim (validate_reserve_ports q.reserve_ports q.port (or_else q.oauth_callback_port 0)) [
      | err x ↦ err 400
      | ok given ↦
          let reserve = if is_worktree_name parent then zeroed given else given in
          if is_some (vibe_port_claim cfg table q.name q.port)
          then err 409
          else if is_some (reserve_ports_claim cfg table q.name reserve)
          then err 409
          else if is_running_app (get table q.name)
          then err 409
          else ok reserve
    ]

abbrev pub default_worktree_idle_minutes : ℕ
default_worktree_idle_minutes = 60

abbrev pub type_of : RegisterRequest → RouteType
type_of q =
    if not (text_eq q.url [])
    then bookmark
    else if not (text_eq q.cmd [])
    then managed
    else if is_some q.pid
    then pid_tracked
    else if is_some q.ttl
    then ttl
    else sticky

-- `route`, with the `switch` that sets its type.
pub new_route : ℕ → Text → List (Text × ℕ) → RegisterRequest → Route
new_route now parent reserve q =
    let type = type_of q in
    record {
      name = q.name;
      parent = parent;
      port = q.port;
      ttl_seconds = elim type [ ttl ↦ q.ttl | _ ↦ none ];
      cmd = if is_managed type then q.cmd else [];
      dir = if is_managed type then q.dir else [];
      external_url = q.url;
      registered_at = now;
      expires_at = elim type [
        | ttl ↦ elim q.ttl [ none ↦ none | some t ↦ some (now + t * second) ]
        | _ ↦ none
      ];
      type = type;
      idle_timeout =
          or_else q.idle_timeout
            (if is_worktree_name parent then default_worktree_idle_minutes else 0);
      icon = or_else q.icon [];
      auto_icon = [];
      oauth_callback_port = or_else q.oauth_callback_port 0;
      reserve_ports = reserve;
      proxy = or_else q.proxy false;
      insecure_skip_verify = or_else q.insecure_skip_verify false;
      running = true;
      ready = true;
      pid = q.pid;
      last_activity = none;
      last_failure = none;
    }

-- A write to the table's entry; the route that the handler holds is the entry.
abbrev pub write_entry : Text → (Route → Route) → Server → Server
write_entry name f s = record s { table = (update s.table name f).0 }

-- The loop that gives the reserve ports of a worktree their values.
pub assign_reserve : Registering → Text → List (Text × ℕ) → Server × Route → Option (Server × Route)
assign_reserve e name [] (s, r) = some (s, r)
assign_reserve e name ((key, given) ∷ rest) (s, r) =
    let as_is = assign_reserve e name rest (s, r) in
    let picked = find_free_port e.around.bindable (e.fallback key) s.table in
    let port = or_else picked 0 in
    let f : Route → Route = λ x. record x { reserve_ports = insert key port x.reserve_ports } in
    let assigned = assign_reserve e name rest (write_entry name f s, f r) in
    if not (given == 0) then as_is else elim picked [ none ↦ none | some p ↦ assigned ]

-- Until the process runs: none, or the code of the refusal; and the PIDs that were signalled on the way.
pub start_registered : Registering → Text → Server × Route → Option ℕ × Server × List ℕ
start_registered e name (s, r) =
    let (held, killed) =
      preflight_ports e.around.system e.later s.procs
        (reserve_port_values_sorted r.reserve_ports ++ ([], r.port) ∷ []) in
    let (pm, outcome) = start e.around.system s.procs r in
    let s' = record s { procs = pm } in
    elim held [
      | some _ ↦ (some 409, s, killed)
      | none ↦ elim outcome [
        | err x ↦ (some 500, s', killed)
        | ok pid ↦ (none, write_entry name (spawned e.around.now pid) s', killed)
      ]
    ]

-- The ports that are still to be assigned, and the start.
pub launch_registered : Registering → Text → Server × Route → Option ℕ × Server × List ℕ
launch_registered e name (s, r) =
    let picked = find_free_port e.around.bindable (e.fallback []) s.table in
    let port = if r.port == 0 then or_else picked 0 else r.port in
    let f : Route → Route = λ x. record x { port = port } in
    let s1 = if r.port == 0 then write_entry name f s else s in
    let r1 = f r in
    let assigned =
      if is_worktree_name r.parent
      then assign_reserve e name (reserve_port_values_sorted r.reserve_ports) (s1, r1)
      else some (s1, r1) in
    if r.port == 0 && not (is_some picked)
    then (some 500, s, [])
    else elim assigned [ none ↦ (some 500, s1, []) | some state ↦ start_registered e name state ]

-- `table.Add` of the route, and the launch of an app.
pub launch_added : Registering → Daemon → Route → Option ℕ × Server × List ℕ
launch_added e d fresh =
    let added = add_route e.around.now e.around.system.alive fresh d.server in
    if is_managed fresh.type
    then launch_registered e fresh.name (added, fresh)
    else (none, added, [])

-- Whether a route goes into `routes.json`.
abbrev pub is_kept : RouteType → Bool
is_kept type = is_sticky type || (is_managed type || is_bookmark type)

-- What follows the launch.
pub finish_registered :
    Registering → Daemon → Route → Option ℕ × Server × List ℕ → Status × Daemon × List ℕ
finish_registered e d fresh (refusal, s, killed) =
    let name = fresh.name in
    let (open_ports, failed) =
      reconcile_oauth_bridge_listeners e.around.config s.table e.around.bindable d.listeners in
    let halted = if is_managed fresh.type then record s { procs = (stop s.procs name).0 } else s in
    elim refusal [
      | some code ↦ (refused code, record d { server = remove_route name s }, killed)
      | none ↦ elim failed [
        | some _ ↦ (
          refused 409,
          record d { server = remove_route name halted; listeners = open_ports },
          killed,
        )
        | none ↦ (
          done,
          record {
            server = s;
            listeners = open_ports;
            saved = if is_kept fresh.type then save_sticky_routes s.table else d.saved;
          },
          killed,
        )
      ]
    ]

pub add_registered : Registering → Daemon → Route → Status × Daemon × List ℕ
add_registered e d fresh = finish_registered e d fresh (launch_added e d fresh)

pub handle_register : Registering → Daemon → Option RegisterRequest → Status × Daemon × List ℕ
handle_register e d body = elim body [
  | none ↦ (refused 400, d, [])
  | some raw ↦
      let q : RegisterRequest = record raw { name = to_lower raw.name } in
      elim (check_request e q) [
        | err code ↦ (refused code, d, [])
        | ok parent ↦
            let q' = portless parent q in
            elim (check_ports e.around.config d.server.table parent q') [
              | err code ↦ (refused code, d, [])
              | ok reserve ↦ add_registered e d (new_route e.around.now parent reserve q')
            ]
      ]
]
