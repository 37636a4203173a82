-- ===== src/Handlers/Tests.antt =====
-- Tests of the handlers, and their theorems at concrete requests.
use local_vibe.Base.{
  ℕ, Bool, true, false, not, ◌≡◌, ◌≢◌, ◌⊎◌, refl, Option, none, some, [], ◌∷◌, Text, codes,
  if◌then◌else◌, ◌==◌, text_eq, lookup, insert, erase, All,
}
use local_vibe.Routes.{Route, Failure, get, list, managed, add, update}
use local_vibe.Routes.Samples.{plain}
use local_vibe.Procs.{no_start}
use local_vibe.Ports.{validate_oauth_bridge_config, callback_user}
use local_vibe.Bridge.{reconcile_oauth_bridge_listeners, wanted_ports, close_unwanted, open_wanted}
use local_vibe.Timers.{
  Server, add_route, run_hooks, run_hook, on_route_added, on_untimed_added, arm_idle,
  on_route_removed, handle_managed_exit,
}
use local_vibe.Timers.Sync.{IsSynced, add_route-IsSynced}
use local_vibe.Handlers.{
  Daemon, Surroundings, done, refused, UpdateRequest, update_refusal, apply_update, commit,
  handle_update, handle_stop, repaired, handle_repair, port_holder,
}
use local_vibe.Handlers.Update.{OnlyCmd, handle_update-refused}
use local_vibe.Handlers.Stop.{handle_stop_lem}
use local_vibe.Handlers.Repair.{handle_repair_moved}

abbrev shop : Text
shop = codes "shop"

-- A managed app with an idle timeout of one minute, running as process 500.
abbrev app : Route
app =
    let base = plain shop managed 3000 in
    record base { idle_timeout = 1; cmd = codes "npm start"; pid = some 500 }

abbrev empty : Server
empty = record {
  table = record { routes = []; on_add = true; on_remove = true };
  ttl_timers = [];
  idle_timers = [];
  procs = record { procs = (shop, 500) ∷ []; adopted = [] };
  watched = [];
}

empty-IsSynced : IsSynced empty
unfolding get lookup
empty-IsSynced = record {
  hook_add = refl;
  hook_remove = refl;
  ttl_match = λ n. refl;
  idle_match = λ n. refl;
}

abbrev alive : ℕ → Bool
alive pid = pid == 500

abbrev server : Server
server = add_route 1000 alive app empty

server-IsSynced : IsSynced server
server-IsSynced = add_route-IsSynced 1000 alive app empty empty-IsSynced

app_stored : get server.table shop ≡ some app
unfolding add_route run_hooks run_hook on_route_added on_untimed_added arm_idle get add lookup
    insert
app_stored = refl

abbrev daemon : Daemon
daemon = record { server = server; listeners = []; saved = [] }

abbrev around : Surroundings
around = record {
  config = record {
    port = 7999;
    tld = codes "test";
    tls_enabled = true;
    tls_port = 7443;
    autostart = none;
  };
  now = 2000;
  system = record {
    alive = alive;
    group_of = λ pid. some pid;
    holders = λ port. [];
    own_pid = 900;
    launch = λ r. no_start;
    port_ready = λ port. port == 3005;
    command_of = λ pid. [];
  };
  bindable = λ port. true;
  urls = record { parse_url = λ s. none; print_url = λ u. [] };
}

-- A new command, and a callback port that is the daemon's own.
abbrev bad_update : UpdateRequest
bad_update = record {
  new_name = [];
  new_port = 3001;
  new_cmd = codes "rm -rf build";
  new_url = [];
  new_idle_timeout = none;
  new_icon = none;
  new_proxy = none;
  new_insecure_skip_verify = none;
  new_oauth_callback_port = some 7999;
}

update_run :
    handle_update around daemon shop (some bad_update)
    ≡ (refused 400, (handle_update around daemon shop (some bad_update)).1)
unfolding handle_update update_refusal apply_update add_route run_hooks run_hook on_route_added
    on_untimed_added arm_idle get add update lookup insert validate_oauth_bridge_config list
update_run = refl

-- The refused update has changed the command all the same.
cmd_kept :
    get (handle_update around daemon shop (some bad_update)).1.server.table shop
    ≡ some (record app { cmd = codes "rm -rf build" })
unfolding handle_update update_refusal apply_update add_route run_hooks run_hook on_route_added
    on_untimed_added arm_idle get add update lookup insert validate_oauth_bridge_config list
cmd_kept = refl

handle_update-refused_example :
    (cmd : Text) × OnlyCmd shop cmd app server.table
      (handle_update around daemon shop (some bad_update)).1.server.table
handle_update-refused_example =
    handle_update-refused around daemon (handle_update around daemon shop (some bad_update)).1 shop
      (some bad_update) app 400 app_stored refl refl update_run

handle_stop_lem_example :
    ((handle_stop around daemon shop).0 ≡ done)
    × IsSynced (handle_stop around daemon shop).1.server
    × ((n : Text)
        → get (handle_stop around daemon shop).1.server.table n ≡ (
            if text_eq shop n
            then some (record app { running = false; ready = false; pid = none })
            else get server.table n))
    × (lookup shop (handle_stop around daemon shop).1.server.procs.procs ≡ none)
    × (lookup shop (handle_stop around daemon shop).1.server.procs.adopted ≡ none)
    × ((scanned : Failure) (pid : ℕ)
        → get
            (handle_managed_exit scanned shop pid (handle_stop around daemon shop).1.server).table
            shop
          ≡ some (record app { running = false; ready = false; pid = none }))
handle_stop_lem_example = handle_stop_lem around daemon shop app server-IsSynced app_stored

abbrev found : Route → Option ℕ
found r = some 3005

repair_run : (handle_repair around (λ r. false) found daemon shop).0 ≡ repaired 3000 3005
unfolding handle_repair port_holder add_route run_hooks run_hook on_route_added on_untimed_added
    arm_idle get add lookup insert list
repair_run = refl

handle_repair_moved_example :
    (found app ≡ some 3005)
    × All (λ r. (r.name ≡ app.name) ⊎ (r.port ≢ 3005)) (list server.table)
    × ((n : Text)
        → get (handle_repair around (λ r. false) found daemon shop).1.server.table n ≡ (
            if text_eq shop n
            then some (record app { port = 3005; ready = true; last_failure = none })
            else get server.table n))
handle_repair_moved_example =
    handle_repair_moved around (λ r. false) found daemon shop app 3000 3005 app_stored repair_run

-- The app with a callback port that is open, and an update to one that cannot be opened.
abbrev bridged : Route
bridged = record app { oauth_callback_port = 4000 }

abbrev bridged_daemon : Daemon
bridged_daemon = record {
  server = add_route 1000 alive bridged empty;
  listeners = 4000 ∷ [];
  saved = [];
}

abbrev taken : Surroundings
taken = record around { bindable = λ port. not (port == 4001) }

abbrev other_callback : UpdateRequest
other_callback = record bad_update { new_oauth_callback_port = some 4001 }

-- The route keeps its old callback port, but the listener on it has been closed.
listener_lost :
    ((handle_update taken bridged_daemon shop (some other_callback)).0 ≡ refused 409)
    × ((handle_update taken bridged_daemon shop (some other_callback)).1.listeners ≡ [])
unfolding handle_update update_refusal apply_update commit add_route run_hooks run_hook
    on_route_added on_untimed_added arm_idle on_route_removed get add update lookup insert erase
    validate_oauth_bridge_config callback_user reconcile_oauth_bridge_listeners wanted_ports
    close_unwanted open_wanted list
listener_lost = (refl, refl)
