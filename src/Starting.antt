-- ===== src/Starting.antt =====
-- internal/daemon/api.go: a start that is asked for through the API (`handleStart`). `written` says that a save of
-- routes.json by the sync succeeds. The visit is of the system as it is after the requested kills; `before` is the
-- system that the kill of a PID sees, `between` the one that the freeing of a port sees. The file is vibe.json as
-- syncRouteFromVibeJSON reads it. The copying of .env files and the readiness poll are left out.
pub mod Adopt
pub mod Started
pub mod Adopted
mod Tests
use local_vibe.Base.{
  ℕ, Bool, true, false, not, ◌&&◌, ◌||◌, Option, none, some, Result, ok, err, List, [], ◌∷◌, ◌++◌,
  Text, if◌then◌else◌, ◌==◌, ltb, text_eq, is_some,
}
use local_vibe.Names.{parse_route_name}
use local_vibe.Routes.{Route, get, is_managed, update}
use local_vibe.Procs.{System, safe_kill_pid, kill_port, ProcessManager}
use local_vibe.Timers.{Server, remove_route}
use local_vibe.Ports.{find_free_port}
use local_vibe.Store.{save_sticky_routes}
use local_vibe.Handlers.{Daemon, Status, done, refused, or_else}
use local_vibe.Recover.{
  Visit, StartRefusal, no_free_port, collision, port_in_use, not_started, worktree_dir_gone, write,
  start_on_port,
}
use local_vibe.SyncConfig.{VibeJson, sync_route_from_vibe_json}

-- What the body may ask to kill first; 0 is nothing.
pub record StartRequest : Type 0 where
  pub kill_pid : ℕ
  pub kill_port : ℕ

-- The code of a refused start.
abbrev pub code_of : StartRefusal → ℕ
code_of no_free_port = 500
code_of (collision c) = 409
code_of (port_in_use port rec) = 409
code_of (not_started x) = 500

abbrev pub status_of : Option StartRefusal → Status
status_of none = done
status_of (some x) = refused (code_of x)

-- `route` as the table has it now.
abbrev pub as_stored : Option Route → Route → Route
as_stored none r = r
as_stored (some now) r = now

-- The port, if there is none, and the rest of the start.
pub start_ported : Visit → Daemon → Text → Route → Status × Daemon × List ℕ
start_ported v d name route =
    let picked = find_free_port v.around.bindable v.fallback d.server.table in
    let port = if route.port == 0 then or_else picked 0 else route.port in
    let d1 = if route.port == 0 then write d name (λ r. record r { port = port }) else d in
    let (refusal, d', killed) = start_on_port v d1 name (record route { port = port }) in
    if route.port == 0 && not (is_some picked)
    then (refused 500, d, [])
    else (status_of refusal, d', killed)

-- The kills that are asked for: the PIDs signalled, or a refusal.
pub requested_kills : System → System → ProcessManager → StartRequest → Option (List ℕ)
requested_kills before between pm q =
    let freed = if ltb 0 q.kill_port then kill_port between pm q.kill_port else [] in
    if ltb 0 q.kill_pid
    then elim (safe_kill_pid before pm q.kill_pid) [ err x ↦ none | ok pid ↦ some (pid ∷ freed) ]
    else some freed

-- Past the config: the command, the kills and the start.
pub start_synced :
    Visit → System → System → StartRequest → Daemon → Text → Route → Status × Daemon × List ℕ
start_synced v before between q d name route =
    let (status, d', killed) = start_ported v d name route in
    if text_eq route.cmd []
    then (refused 400, d, [])
    else elim (requested_kills before between d.server.procs q) [
      | none ↦ (refused 400, d, [])
      | some asked ↦ (status, d', asked ++ killed)
    ]

-- A worktree that is gone is only deregistered here.
abbrev pub forgotten : Daemon → Text → Daemon
forgotten d name =
    let s = remove_route name d.server in
    record d { server = s; saved = save_sticky_routes s.table }

pub start_known :
    Visit
    → System
    → System
    → Bool
    → Option (Option VibeJson)
    → StartRequest
    → Daemon
    → Text
    → Route
    → Status × Daemon × List ℕ
start_known v before between written file q d name route =
    let (failed, d') = sync_route_from_vibe_json v.around written file d route in
    if worktree_dir_gone v.is_gone route then (refused 410, forgotten d name, []) else elim failed [
      | some x ↦ (refused 409, d', [])
      | none ↦ start_synced v before between q d' name (as_stored (get d'.server.table name) route)
    ]

pub handle_start :
    Visit
    → System
    → System
    → Bool
    → Option (Option VibeJson)
    → StartRequest
    → Daemon
    → Text
    → Status × Daemon × List ℕ
handle_start v before between written file q d name = elim (get d.server.table name) [
  | none ↦ (refused 404, d, [])
  | some route ↦ start_known v before between written file q d name route
]
