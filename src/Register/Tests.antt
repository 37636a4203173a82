-- ===== src/Register/Tests.antt =====
-- Tests of registrations, and their theorems at concrete requests.
use local_vibe.Base.{
  ℕ, true, false, ◌≡◌, ◌⊎◌, refl, none, some, Result, err, [], Text, codes, ◌==◌, text_eq, lookup,
  insert,
}
use local_vibe.Names.{parse_route_name, check_labels}
use local_vibe.Routes.{Route, get, list, add, update}
use local_vibe.Procs.{System, no_start, lives, Launch, start, preflight_port}
use local_vibe.Ports.{
  vibe_port_claim, routes_claim, values_claim, reserve_ports_claim, validate_loop,
  validate_reserve_ports,
}
use local_vibe.Procs.Tracked.{NoNew}
use local_vibe.Bridge.{reconcile_oauth_bridge_listeners, wanted_ports, close_unwanted, open_wanted}
use local_vibe.Timers.{
  Server, add_route, run_hooks, run_hook, on_route_added, on_untimed_added, arm_idle,
  on_route_removed,
}
use local_vibe.Timers.Sync.{IsSynced}
use local_vibe.Store.{save_sticky_routes}
use local_vibe.Handlers.{Daemon, done, refused}
use local_vibe.Recover.{preflight_ports}
use local_vibe.Register.{
  Registering, RegisterRequest, check_request, worktree_refused, check_ports, new_route,
  start_registered, launch_registered, launch_added, finish_registered, add_registered,
  handle_register,
}
use local_vibe.Register.Refused.{handle_register-refused, handle_register-IsSynced}
use local_vibe.Register.Launched.{IsUp}
use local_vibe.Register.Served.{IsUnclaimed, handle_register_running}

abbrev empty : Server
empty = record {
  table = record { routes = []; on_add = true; on_remove = true };
  ttl_timers = [];
  idle_timers = [];
  procs = record { procs = []; adopted = [] };
  watched = [];
}

empty-IsSynced : IsSynced empty
unfolding get lookup
empty-IsSynced = record {
  hook_add = refl;
  hook_remove = refl;
  ttl_match = λ n. refl;
  idle_match = λ n. refl;
}

abbrev daemon : Daemon
daemon = record { server = empty; listeners = []; saved = [] }

-- A system on which no port is held; the outcome of a launch is given.
abbrev system : Launch → System
system outcome = record {
  alive = λ pid. pid == 700;
  group_of = λ pid. some pid;
  holders = λ port. [];
  own_pid = 900;
  launch = λ r. outcome;
  port_ready = λ port. false;
  command_of = λ pid. [];
}

abbrev around : Launch → Registering
around outcome = record {
  around = record {
    config = record {
      port = 7999;
      tld = codes "test";
      tls_enabled = true;
      tls_port = 7443;
      autostart = none;
    };
    now = 2000;
    system = system outcome;
    bindable = λ port. true;
    urls = record { parse_url = λ s. none; print_url = λ u. [] };
  };
  later = system outcome;
  fallback = λ key. none;
  is_worktree = λ dir. true;
}

abbrev web : RegisterRequest
web = record {
  name = codes "Web";
  port = 3100;
  pid = none;
  ttl = none;
  cmd = codes "npm start";
  dir = codes "/src/web";
  url = [];
  idle_timeout = some 5;
  icon = none;
  proxy = none;
  insecure_skip_verify = none;
  oauth_callback_port = none;
  reserve_ports = [];
}

web_runs : (handle_register (around (lives 700)) daemon (some web)).0 ≡ done
unfolding handle_register check_request check_ports new_route launch_registered start_registered
    launch_added finish_registered add_registered parse_route_name check_labels vibe_port_claim
    routes_claim values_claim reserve_ports_claim validate_loop validate_reserve_ports start
    preflight_port preflight_ports reconcile_oauth_bridge_listeners wanted_ports close_unwanted
    open_wanted add_route run_hooks run_hook on_route_added on_untimed_added arm_idle
    on_route_removed add get list update lookup insert
web_runs = refl

web_fails : (handle_register (around no_start) daemon (some web)).0 ≡ refused 500
unfolding handle_register check_request check_ports new_route launch_registered start_registered
    launch_added finish_registered add_registered parse_route_name check_labels vibe_port_claim
    routes_claim values_claim reserve_ports_claim validate_loop validate_reserve_ports start
    preflight_port preflight_ports reconcile_oauth_bridge_listeners wanted_ports close_unwanted
    open_wanted add_route run_hooks run_hook on_route_added on_untimed_added arm_idle
    on_route_removed add get list update lookup insert
web_fails = refl

handle_register_running_example :
    let d' = (handle_register (around (lives 700)) daemon (some web)).1 in
    (r : Route) × (get d'.server.table (codes "web") ≡ some r)
    × IsUp (around (lives 700)) daemon.server.procs d'.server.procs (codes "npm start") r
    × IsUnclaimed (around (lives 700)) daemon.server.table (codes "web") r.port
    × (r.name ≡ codes "web")
    × (d'.saved ≡ save_sticky_routes d'.server.table)
handle_register_running_example =
    handle_register_running (around (lives 700)) daemon web refl refl web_runs

handle_register-refused_example :
    let d' = (handle_register (around no_start) daemon (some web)).1 in
    (d' ≡ daemon)
    ⊎ (get d'.server.table (codes "web") ≡ none)
      × ((n : Text)
          → text_eq (codes "web") n ≡ false
          → get d'.server.table n ≡ get daemon.server.table n)
      × (d'.saved ≡ daemon.saved)
      × NoNew daemon.server.procs d'.server.procs
handle_register-refused_example =
    handle_register-refused (around no_start) daemon (some web) 500 web_fails

handle_register-IsSynced_example :
    let d' = (handle_register (around (lives 700)) daemon (some web)).1 in
    IsSynced d'.server
    × ((n : Text)
        → text_eq (codes "web") n ≡ false
        → get d'.server.table n ≡ get daemon.server.table n)
handle_register-IsSynced_example =
    handle_register-IsSynced (around (lives 700)) daemon (some web) empty-IsSynced

-- A name of two labels without a directory is refused.
worktree_without_dir :
    ◌≡◌ {A = Result ℕ Text}
      (check_request (around no_start) (record web { name = codes "dev.web"; dir = [] }))
      (err 400)
unfolding check_request worktree_refused parse_route_name check_labels
worktree_without_dir = refl
