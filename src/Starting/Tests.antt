-- ===== src/Starting/Tests.antt =====
-- Tests of starts through the API, and their theorems at concrete requests.
use local_vibe.Base.{
  ℕ, if◌then◌else◌, true, false, ◌≡◌, ◌⊎◌, refl, none, some, [], Text, codes, text_eq, lookup, List,
}
use local_vibe.Routes.{get, list}
use local_vibe.Routes.Samples.{table, app}
use local_vibe.Procs.{System, lives, start, preflight_port}
use local_vibe.Ports.{
  vibe_port_claim, routes_claim, values_claim, reserve_ports_claim, check_vibe_port_collisions,
}
use local_vibe.Handlers.{Daemon, done, refused}
use local_vibe.Recover.{Visit, worktree_dir_gone, preflight_ports, launch_now, start_on_port}
use local_vibe.SyncConfig.{sync_route_from_vibe_json}
use local_vibe.Worktrees.{Disk, a_directory, missing}
use local_vibe.Starting.{
  StartRequest, start_ported, requested_kills, start_synced, start_known, handle_start,
}
use local_vibe.Starting.Started.{IsStarted, handle_start_done}
use local_vibe.Starting.Adopt.{handle_adopt_worktree}
use local_vibe.Starting.Adopted.{IsAdopted, handle_adopt_worktree_lem}
use local_vibe.Recover.Launched.{SameOthers}

-- Nothing runs, and no port is held.
abbrev idle : System
idle = record {
  alive = λ pid. false;
  group_of = λ pid. none;
  holders = λ port. [];
  own_pid = 900;
  launch = λ r. lives 600;
  port_ready = λ port. false;
  command_of = λ pid. [];
}

abbrev visit : Visit
visit = record {
  around = record {
    config = record {
      port = 7999;
      tld = codes "test";
      tls_enabled = true;
      tls_port = 7443;
      autostart = none;
    };
    now = 2000;
    system = idle;
    bindable = λ port. true;
    urls = record { parse_url = λ s. none; print_url = λ u. [] };
  };
  later = idle;
  fallback = none;
  is_gone = λ dir. false;
  auto_starting = false;
  begins = true;
  unregistered_worktrees = false;
  tell = λ x. record { message = []; log = []; recovery = none };
}

abbrev daemon : Daemon
daemon = record {
  server = record {
    table = table;
    ttl_timers = [];
    idle_timers = [];
    procs = record { procs = []; adopted = [] };
    watched = [];
  };
  listeners = [];
  saved = [];
}

abbrev nothing : StartRequest
nothing = record { kill_pid = 0; kill_port = 0 }

app_started : (handle_start visit idle idle true none nothing daemon (codes "app")).0 ≡ done
unfolding handle_start start_known start_synced start_ported requested_kills get lookup
    worktree_dir_gone sync_route_from_vibe_json start_on_port launch_now check_vibe_port_collisions
    preflight_ports preflight_port start vibe_port_claim routes_claim values_claim
    reserve_ports_claim list
app_started = refl

app_known : get table (codes "app") ≡ some app
unfolding get lookup
app_known = refl

handle_start_done_example :
    let d' = (handle_start visit idle idle true none nothing daemon (codes "app")).1 in
    (worktree_dir_gone (λ dir. false) app ≡ false)
    × ((cmd : Text) × (oauth : ℕ) × (reserve : List (Text × ℕ)) × (text_eq cmd [] ≡ false)
        × IsStarted visit daemon.server.procs
            (sync_route_from_vibe_json visit.around true none daemon app).1
            (record app { cmd = cmd; oauth_callback_port = oauth; reserve_ports = reserve })
            d')
    × SameOthers (codes "app") daemon d'
handle_start_done_example =
    handle_start_done visit idle idle true none nothing daemon app app_known app_started

abbrev disk : Disk
disk = record {
  stat_git = λ dir. if text_eq dir (codes "/src/app") then a_directory else missing;
  worktree_entries = λ dir. some 1;
  git_worktree_list = λ dir. some (
      codes
        "worktree /src/app\nbranch refs/heads/main\n\nworktree /src/fix\nbranch refs/heads/fix\n\n");
  realpath = λ path. path;
  container_readable = λ dir. true;
}

handle_adopt_worktree_lem_example :
    let out =
      handle_adopt_worktree visit
        (λ key. none)
        disk
        (some (codes "/src/fix"))
        daemon
        (codes "app") in
    ((code : ℕ) × (out ≡ (refused code, daemon, [])))
    ⊎ IsAdopted visit disk (some (codes "/src/fix")) daemon (codes "app") out
handle_adopt_worktree_lem_example =
    handle_adopt_worktree_lem visit (λ key. none) disk (some (codes "/src/fix")) daemon
      (codes "app")
