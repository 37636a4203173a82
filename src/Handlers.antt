-- ===== src/Handlers.antt =====
-- internal/daemon/api.go: the handlers that update, stop, deregister and repair a route.
-- A response is its status: `done` or the HTTP code of the refusal; the PIDs that a handler signals on a port are
-- returned as well. A handler's writes through the route's pointer are writes to the table's entry, which keeps
-- its key when the name in it changes. `routes.json` is the last value saved. The request's JSON, the browser
-- redirects and the log lines are outside; a body that does not decode is none.
pub mod Update
pub mod Stop
pub mod Repair
mod Tests
use local_vibe.Base.{
  ℕ, Bool, true, false, not, ◌&&◌, ◌||◌, Option, none, some, List, [], ◌∷◌, ◌++◌, Text, codes,
  if◌then◌else◌, ◌==◌, ltb, text_eq, to_lower, is_some,
}
use local_vibe.Config.{DaemonConfig}
use local_vibe.Names.{valid_name, local_name}
use local_vibe.Routes.{
  Route, RouteTable, RouteType, sticky, bookmark, is_managed, is_bookmark, Failure, get, list,
  update, update_port,
}
use local_vibe.Procs.{System, ProcessManager, stop, kill_port}
use local_vibe.Timers.{Server, add_route, remove_route}
use local_vibe.Ports.{validate_oauth_bridge_config}
use local_vibe.Bridge.{UrlLibrary, is_http, reconcile_oauth_bridge_listeners}
use local_vibe.Store.{StickyEntry, save_sticky_routes}

pub record Daemon : Type 0 where
  pub server : Server
  pub listeners : List ℕ
  pub saved : List (Text × StickyEntry)

-- What surrounds a request: the settings, the time, the system and the libraries.
pub record Surroundings : Type 0 where
  pub config : DaemonConfig
  pub now : ℕ
  pub system : System
  pub bindable : ℕ → Bool
  pub urls : UrlLibrary

pub data Status : Type 0 where
  done : Status
  refused : ℕ → Status

-- The fields of `registerRequest` that an update reads.
pub record UpdateRequest : Type 0 where
  pub new_name : Text
  pub new_port : ℕ
  pub new_cmd : Text
  pub new_url : Text
  pub new_idle_timeout : Option ℕ
  pub new_icon : Option Text
  pub new_proxy : Option Bool
  pub new_insecure_skip_verify : Option Bool
  pub new_oauth_callback_port : Option ℕ

abbrev pub or_else {ℓ} : {A : Type ℓ} → Option A → A → A
or_else none a = a
or_else (some b) a = b

pub validate_external_url : UrlLibrary → Text → Bool
validate_external_url lib raw = elim (lib.parse_url raw) [
  | none ↦ false
  | some u ↦ is_http u.scheme && not (text_eq u.host [])
]

abbrev pub lower_request : UpdateRequest → UpdateRequest
lower_request q = record q { new_name = to_lower q.new_name }

abbrev pub is_renaming : Text → UpdateRequest → Bool
is_renaming name q = not (text_eq q.new_name []) && not (text_eq q.new_name name)

-- The checks before the first write, in their order: the code of the first that fails.
pub update_refusal : UrlLibrary → RouteTable → Text → Route → UpdateRequest → Option ℕ
unfolding validate_external_url
update_refusal lib table name route q =
    let worktree = not (text_eq route.parent []) in
    let renaming = is_renaming name q in
    if worktree && renaming
    then some 400
    else if worktree && not (text_eq q.new_url [])
    then some 400
    else if worktree && ltb 0 (or_else q.new_oauth_callback_port 0)
    then some 400
    else if renaming && not (valid_name q.new_name)
    then some 400
    else if renaming && text_eq q.new_name local_name
    then some 409
    else if renaming && (is_managed route.type && route.running)
    then some 409
    else if renaming && is_some (get table q.new_name)
    then some 409
    else if not (text_eq q.new_url []) && not (validate_external_url lib q.new_url)
    then some 400
    else if or_else q.new_proxy false && (text_eq q.new_url [] && not (is_bookmark route.type))
    then some 400
    else none

-- The switch between a bookmark and a port.
abbrev pub switch_kind : UpdateRequest → Route → Route
switch_kind q r =
    if not (text_eq q.new_url [])
    then record r { external_url = q.new_url; type = bookmark; port = 0 }
    else if is_bookmark r.type && not (q.new_port == 0)
    then record r { external_url = []; type = sticky; proxy = false; insecure_skip_verify = false }
    else r

abbrev pub basic_fields : Text → UpdateRequest → Route → Route
basic_fields name q r = record r {
  name = if is_renaming name q then q.new_name else r.name;
  port = if q.new_port == 0 then r.port else q.new_port;
  idle_timeout = or_else q.new_idle_timeout r.idle_timeout;
  icon = or_else q.new_icon r.icon;
  cmd = if not (text_eq q.new_cmd []) && is_managed r.type then q.new_cmd else r.cmd;
}

abbrev pub last_fields : UpdateRequest → Route → Route
last_fields q r = record r {
  proxy = or_else q.new_proxy r.proxy;
  insecure_skip_verify = or_else q.new_insecure_skip_verify r.insecure_skip_verify;
  oauth_callback_port = or_else q.new_oauth_callback_port r.oauth_callback_port;
}

abbrev pub updated : Text → UpdateRequest → Route → Route
updated name q r = last_fields q (switch_kind q (basic_fields name q r))

-- The assignments of the two rollbacks; the command is not among them.
abbrev pub rolled_back : Route → Route → Route
rolled_back original r = record r {
  name = original.name;
  port = original.port;
  external_url = original.external_url;
  type = original.type;
  idle_timeout = original.idle_timeout;
  icon = original.icon;
  proxy = original.proxy;
  insecure_skip_verify = original.insecure_skip_verify;
  oauth_callback_port = original.oauth_callback_port;
}

abbrev pub with_table : Daemon → RouteTable → Daemon
with_table d t = let s = d.server in record d { server = record s { table = t } }

-- Whether the updated route's callback port is refused.
abbrev pub bad_callback : Surroundings → RouteTable → Route → Bool
bad_callback e table r =
    ltb 0 r.oauth_callback_port
    && is_some (validate_oauth_bridge_config e.config table r.name r.port r.oauth_callback_port)

-- `table.Remove` of the old name when renaming, and `table.Add`.
pub commit : Surroundings → Text → Bool → Route → Server → Server
commit e name renaming r s =
    add_route e.now e.system.alive r (if renaming then remove_route name s else s)

-- What follows the checks: `fresh` is the route as updated, `route` as it was.
pub apply_update : Surroundings → Daemon → Text → Bool → Route → Route → Status × Daemon
unfolding commit
apply_update e d name renaming route fresh =
    let written = (update d.server.table name (λ r. fresh)).0 in
    let undone = (update written name (λ r. rolled_back route fresh)).0 in
    let s = d.server in
    let added = commit e name renaming fresh (record s { table = written }) in
    let (open_ports, failed) =
      reconcile_oauth_bridge_listeners e.config added.table e.bindable d.listeners in
    let back =
      add_route e.now e.system.alive (rolled_back route fresh)
        (if renaming then remove_route fresh.name added else added) in
    if bad_callback e written fresh then (refused 400, with_table d undone) else elim failed [
      | some _ ↦ (refused 409, record d { server = back; listeners = open_ports })
      | none ↦ (
        done,
        record d { server = added; listeners = open_ports; saved = save_sticky_routes added.table },
      )
    ]

pub handle_update : Surroundings → Daemon → Text → Option UpdateRequest → Status × Daemon
unfolding update_refusal apply_update
handle_update e d name body = elim (get d.server.table name) [
  | none ↦ (refused 404, d)
  | some route ↦ elim body [
    | none ↦ (refused 400, d)
    | some raw ↦
        let q = lower_request raw in
        elim (update_refusal e.urls d.server.table name route q) [
          | some code ↦ (refused code, d)
          | none ↦ apply_update e d name (is_renaming name q) route (updated name q route)
        ]
  ]
]

-- The fields that a stop writes.
abbrev pub stopped : Route → Route
stopped r = record r { running = false; ready = false; pid = none }

-- `procs.Stop`, or the port's holders if nothing was tracked.
abbrev pub stop_or_kill : System → ProcessManager → Text → ℕ → ProcessManager × List ℕ
stop_or_kill sys pm name port =
    let (after, signal) = stop pm name in
    (after, elim signal [ some _ ↦ [] | none ↦ kill_port sys pm port ])

pub handle_stop : Surroundings → Daemon → Text → Status × Daemon × List ℕ
handle_stop e d name = elim (get d.server.table name) [
  | none ↦ (refused 404, d, [])
  | some route ↦
      let s = d.server in
      let (after, killed) = stop_or_kill e.system s.procs name route.port in
      (
        done,
        record d { server = record s { table = (update s.table name stopped).0; procs = after } },
        killed,
      )
]

abbrev pub not_running : Route → Route
not_running r = record r { running = false; ready = false }

pub handle_deregister : Surroundings → Daemon → Text → Status × Daemon × List ℕ
handle_deregister e d name = elim (get d.server.table name) [
  | none ↦ (refused 404, d, [])
  | some route ↦
      let s = d.server in
      let (after, killed) = stop_or_kill e.system s.procs name route.port in
      let halted =
        if is_managed route.type
        then record s { table = (update s.table name not_running).0; procs = after }
        else s in
      let s' = remove_route name halted in
      let open_ports =
        (reconcile_oauth_bridge_listeners e.config s'.table e.bindable d.listeners).0 in
      (
        done,
        record { server = s'; listeners = open_ports; saved = save_sticky_routes s'.table },
        (if is_managed route.type then killed else []),
      )
]

pub data Repaired : Type 0 where
  unknown_route is_a_bookmark already_reachable no_candidate : Repaired
  registered_to : Text → Repaired
  repaired : ℕ → ℕ → Repaired

-- The first other route on the port.
pub port_holder : Text → ℕ → List Route → Option Text
port_holder name port [] = none
port_holder name port (r ∷ rs) =
    let rest = port_holder name port rs in
    if not (text_eq r.name name) && r.port == port then some r.name else rest

-- The fields that a repair writes besides the port.
abbrev pub serving : Route → Route
serving r = record r { ready = true; last_failure = none }

-- `foreign` is `portForeignToRoute`, `discover` is `discoverRoutePort`.
unfoldable pub handle_repair :
    Surroundings → (Route → Bool) → (Route → Option ℕ) → Daemon → Text → Repaired × Daemon
handle_repair e foreign discover d name = elim (get d.server.table name) [
  | none ↦ (unknown_route, d)
  | some route ↦
      if is_bookmark route.type
      then (is_a_bookmark, d)
      else if e.system.port_ready route.port && not (foreign route)
      then (already_reachable, d)
      else elim (discover route) [
        | none ↦ (no_candidate, d)
        | some port ↦ elim (port_holder route.name port (list d.server.table)) [
          | some other ↦ (registered_to other, d)
          | none ↦
              let moved = (update_port d.server.table name port).0 in
              let healed = (update moved name serving).0 in
              let d' = with_table d healed in
              (repaired route.port port, record d' { saved = save_sticky_routes healed })
        ]
      ]
]
