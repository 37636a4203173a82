-- ===== src/Recover.antt =====
-- internal/daemon/autostart.go: what a visit to a managed route that is not running does (`recoverManagedRoute`,
-- `startManagedNow`), with `adoptOrphan` of autostart_unix.go.
-- The route is the table's entry under its name. The group of a PID and the holders of a port are the system's;
-- `later` is the system half a second after a port's holders were signalled. The text of a recorded failure is a
-- function of its reason, and the copying of .env files is left out.
pub mod Visits
pub mod Launched
pub mod Beyond
mod Tests
use local_vibe.Base.{
  ℕ, Bool, true, false, not, ◌&&◌, ◌||◌, Option, none, some, Result, ok, err, List, [], ◌∷◌, ◌++◌,
  Text, if◌then◌else◌, ◌==◌, ltb, text_eq, is_some,
}
use local_vibe.Config.{auto_start_enabled}
use local_vibe.Routes.{Route, RouteTable, Failure, Recovery, get, list, update}
use local_vibe.Procs.{System, ProcessManager, StartError, start, stop, adopt, preflight_port}
use local_vibe.Timers.{Server, remove_route}
use local_vibe.Ports.{Claim, check_vibe_port_collisions, reserve_port_values_sorted, find_free_port}
use local_vibe.Store.{save_sticky_routes}
use local_vibe.Handlers.{Daemon, Surroundings}

pub data StartRefusal : Type 0 where
  no_free_port : StartRefusal
  collision : Claim → StartRefusal
  port_in_use : ℕ → Recovery → StartRefusal
  not_started : StartError → StartRefusal

pub record Visit : Type 0 where
  pub around : Surroundings
  pub later : System
  pub fallback : Option ℕ
  pub is_gone : Text → Bool
  pub auto_starting : Bool
  pub begins : Bool
  pub unregistered_worktrees : Bool
  pub tell : StartRefusal → Failure

unfoldable pub worktree_dir_gone : (Text → Bool) → Route → Bool
worktree_dir_gone is_gone r = not (text_eq r.parent []) && (not (text_eq r.dir []) && is_gone r.dir)

pub in_group : System → ℕ → List ℕ → Bool
in_group sys pgid [] = false
in_group sys pgid (p ∷ ps) =
    elim (sys.group_of p) [ none ↦ false | some g ↦ g == pgid ] || in_group sys pgid ps

-- The leader, if a member of its group holds the route's port.
pub adopt_orphan : System → Route → Option ℕ
adopt_orphan sys r = elim r.pid [
  | none ↦ none
  | some leader ↦
      if not (sys.alive leader) || r.port == 0 then none else elim (sys.group_of leader) [
        | none ↦ none
        | some pgid ↦ if in_group sys pgid (sys.holders r.port) then some leader else none
      ]
]

abbrev pub write : Daemon → Text → (Route → Route) → Daemon
write d name f =
    let s = d.server in record d { server = record s { table = (update s.table name f).0 } }

-- The first port that is still held, and the PIDs that were signalled on the way.
unfoldable pub preflight_ports :
    System → System → ProcessManager → List (Text × ℕ) → Option (ℕ × Recovery) × List ℕ
preflight_ports sys later pm [] = (none, [])
preflight_ports sys later pm ((key, port) ∷ rest) =
    let (found, killed) = preflight_port sys later pm port in
    let (more, others) = preflight_ports sys later pm rest in
    elim found [ some rec ↦ (some (port, rec), killed) | none ↦ (more, killed ++ others) ]

abbrev pub spawned : ℕ → ℕ → Route → Route
spawned now pid r = record r {
  pid = some pid;
  running = true;
  ready = false;
  last_failure = none;
  last_activity = some now;
}

abbrev pub failed_with : Failure → Route → Route
failed_with f r = record r { last_failure = some f }

-- `procs.Start` and what follows it.
unfoldable pub launch_now : Visit → Daemon → Text → Route → Option StartRefusal × Daemon
launch_now v d name route =
    let s = d.server in
    let (pm, outcome) = start v.around.system s.procs route in
    let d' : Daemon = record d { server = record s { procs = pm } } in
    elim outcome [
      | err x ↦ (
        some (not_started x),
        write d' name (λ r. record r {
          running = false;
          ready = false;
          last_failure = some (v.tell (not_started x));
        }),
      )
      | ok pid ↦
          let up = write d' name (spawned v.around.now pid) in
          (none, record up { saved = save_sticky_routes up.server.table })
    ]

-- From the check of the ports on; `route` has its port.
unfoldable pub start_on_port : Visit → Daemon → Text → Route → Option StartRefusal × Daemon × List ℕ
start_on_port v d name route =
    let (held, killed) =
      preflight_ports v.around.system v.later d.server.procs
        (reserve_port_values_sorted route.reserve_ports ++ ([], route.port) ∷ []) in
    elim (check_vibe_port_collisions v.around.config d.server.table route) [
      | some c ↦ (some (collision c), write d name (failed_with (v.tell (collision c))), [])
      | none ↦ elim held [
        | some (port, rec) ↦ (
          some (port_in_use port rec),
          write d name (failed_with (v.tell (port_in_use port rec))),
          killed,
        )
        | none ↦ let (refusal, d') = launch_now v d name route in (refusal, d', killed)
      ]
    ]

pub start_managed_now : Visit → Daemon → Text → Route → Option StartRefusal × Daemon × List ℕ
start_managed_now v d name route =
    if not (route.port == 0)
    then start_on_port v d name route
    else elim (find_free_port v.around.bindable v.fallback d.server.table) [
      | none ↦ (some no_free_port, write d name (failed_with (v.tell no_free_port)), [])
      | some port ↦
          start_on_port v (write d name (λ r. record r { port = port })) name
            (record route { port = port })
    ]

pub data Served : Type 0 where
  to_parent starting_page start_page proxied : Served

abbrev pub has_child : Text → List Route → Bool
has_child name [] = false
has_child name (r ∷ rs) = text_eq r.parent name || has_child name rs

-- A dead PID is dropped.
abbrev pub normalized : System → Route → Route
normalized sys r = record r {
  pid = elim r.pid [ none ↦ none | some p ↦ if sys.alive p then some p else none ];
  running = false;
  ready = false;
}

abbrev pub adopted_as : ℕ → ℕ → Route → Route
adopted_as now pid r = record r {
  pid = some pid;
  running = true;
  ready = true;
  last_failure = none;
  last_activity = some now;
}

abbrev pub may_spawn : Visit → Daemon → Route → Bool
may_spawn v d route =
    auto_start_enabled v.around.config
    && (not (text_eq route.cmd [])
        && (not (is_some route.last_failure)
            && not (has_child route.name (list d.server.table) || v.unregistered_worktrees)))

-- The page, the daemon and the PIDs signalled on a port; `proxied` is the go-ahead to the proxy.
unfoldable pub recover_managed_route : Visit → Daemon → Text → Route → Served × Daemon × List ℕ
recover_managed_route v d name route =
    let s = d.server in
    let gone = remove_route name (record s {
      table = (update s.table name (λ r. record r { running = false })).0;
      procs = (stop s.procs name).0;
    }) in
    let idle = write d name (normalized v.around.system) in
    let route' = normalized v.around.system route in
    if worktree_dir_gone v.is_gone route
    then (to_parent, record d { server = gone; saved = save_sticky_routes gone.table }, [])
    else if v.auto_starting
    then (starting_page, d, [])
    else elim (adopt_orphan v.around.system route') [
      | some pid ↦
          let s' = idle.server in
          let known : Daemon = record idle {
            server = record s' { procs = (adopt s'.procs name pid).0 };
          } in
          (proxied, write known name (adopted_as v.around.now pid), [])
      | none ↦
          if not (route.port == 0) && v.around.system.port_ready route.port
          then (start_page, idle, [])
          else if not (may_spawn v idle route')
          then (start_page, idle, [])
          else if not v.begins
          then (starting_page, idle, [])
          else let (refusal, d', killed) = start_managed_now v idle name route' in
            (elim refusal [ some _ ↦ start_page | none ↦ starting_page ], d', killed)
    ]
