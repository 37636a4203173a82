-- ===== src/Starting/Adopt.antt =====
-- internal/daemon/api.go: a worktree that was found on disk becomes a route and is started (`handleAdoptWorktree`).
-- `fallback` is the port that the operating system picks for a reserve port's name. The body is its path, if it decodes.
use local_vibe.Base.{
  ℕ, true, false, not, ◌||◌, Option, none, some, ok, err, List, [], ◌∷◌, Text, if◌then◌else◌,
  text_eq,
}
use local_vibe.Names.{parse_route_name}
use local_vibe.Routes.{Route, managed, get, is_managed}
use local_vibe.Timers.{add_route, remove_route}
use local_vibe.Ports.{reserve_port_values_sorted}
use local_vibe.Store.{save_sticky_routes}
use local_vibe.Handlers.{Daemon, Status, done, refused}
use local_vibe.Recover.{Visit, StartRefusal, start_managed_now}
use local_vibe.Register.{Registering, zeroed, assign_reserve, default_worktree_idle_minutes}
use local_vibe.Worktrees.{Disk, DiscoveredWorktree, child_name, discover_unregistered_worktrees}

-- The first discovered worktree at the path.
unfoldable pub matching : Disk → Text → List DiscoveredWorktree → Option DiscoveredWorktree
matching disk path [] = none
matching disk path (w ∷ ws) =
    let rest = matching disk path ws in
    if text_eq (disk.realpath w.path) (disk.realpath path) then some w else rest

-- The route of a worktree, with the command of its app.
abbrev pub worktree_route : ℕ → Route → DiscoveredWorktree → Route
worktree_route now parent w = record {
  name = child_name w.slug parent.name;
  parent = parent.name;
  port = 0;
  ttl_seconds = none;
  cmd = parent.cmd;
  dir = w.path;
  external_url = [];
  registered_at = now;
  expires_at = none;
  type = managed;
  idle_timeout = default_worktree_idle_minutes;
  icon = [];
  auto_icon = [];
  oauth_callback_port = 0;
  reserve_ports = zeroed parent.reserve_ports;
  proxy = false;
  insecure_skip_verify = false;
  running = false;
  ready = false;
  pid = none;
  last_activity = none;
  last_failure = none;
}

abbrev pub registering : Visit → (Text → Option ℕ) → Registering
registering v fallback = record {
  around = v.around;
  later = v.later;
  fallback = fallback;
  is_worktree = λ dir. true;
}

-- What follows the start.
abbrev pub finish_adopted : Text → Option StartRefusal × Daemon × List ℕ → Status × Daemon × List ℕ
finish_adopted name (none, d, killed) =
    (done, record d { saved = save_sticky_routes d.server.table }, killed)
finish_adopted name (some x, d, killed) =
    (refused 409, record d { server = remove_route name d.server }, killed)

-- `table.Add`, the reserve ports and the start.
unfoldable pub launch_worktree :
    Visit → (Text → Option ℕ) → Daemon → Route → Status × Daemon × List ℕ
launch_worktree v fallback d fresh =
    let added = add_route v.around.now v.around.system.alive fresh d.server in
    elim (assign_reserve (registering v fallback) fresh.name
      (reserve_port_values_sorted fresh.reserve_ports) (added, fresh)) [
        | none ↦ (refused 500, record d { server = remove_route fresh.name added }, [])
        | some (s, r) ↦
            finish_adopted fresh.name (start_managed_now v (record d { server = s }) fresh.name r)
      ]

unfoldable pub handle_adopt_worktree :
    Visit → (Text → Option ℕ) → Disk → Option Text → Daemon → Text → Status × Daemon × List ℕ
handle_adopt_worktree v fallback disk body d name = elim (get d.server.table name) [
  | none ↦ (refused 404, d, [])
  | some parent ↦
      if not (is_managed parent.type) || text_eq parent.cmd []
      then (refused 400, d, [])
      else elim body [
        | none ↦ (refused 400, d, [])
        | some path ↦
            if text_eq path []
            then (refused 400, d, [])
            else elim (matching disk path
                (discover_unregistered_worktrees disk d.server.table parent)) [
                  | none ↦ (refused 404, d, [])
                  | some w ↦ elim (parse_route_name (child_name w.slug parent.name)) [
                    | err x ↦ (refused 400, d, [])
                    | ok _ ↦ launch_worktree v fallback d (worktree_route v.around.now parent w)
                  ]
                ]
      ]
]
