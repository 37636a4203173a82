-- ===== src/Recover/Tests.antt =====
-- Tests of visits to stopped managed routes, and their theorems at concrete visits.
use local_vibe.Base.{if◌then◌else◌, true, false, ◌||◌, ◌≡◌, refl, none, some, [], ◌∷◌, codes, ◌==◌}
use local_vibe.Routes.Samples.{table, app}
use local_vibe.Procs.{System, lives}
use local_vibe.Handlers.{Daemon}
use local_vibe.Recover.{
  Visit, proxied, start_page, worktree_dir_gone, in_group, adopt_orphan, recover_managed_route,
}

-- 500 leads app's group and 501, in it, holds port 3000.
abbrev own_child : System
own_child = record {
  alive = λ pid. pid == 500 || pid == 501;
  group_of = λ pid. some 500;
  holders = λ port. if port == 3000 then 501 ∷ [] else [];
  own_pid = 900;
  launch = λ r. lives 600;
  port_ready = λ port. port == 3000;
  command_of = λ pid. [];
}

-- 700, a stranger, holds port 3000; nothing of app's lives.
abbrev stranger : System
stranger = record own_child {
  alive = λ pid. pid == 700;
  group_of = λ pid. some pid;
  holders = λ port. if port == 3000 then 700 ∷ [] else [];
}

abbrev visit : System → Visit
visit sys = record {
  around = record {
    config = record {
      port = 7999;
      tld = codes "test";
      tls_enabled = true;
      tls_port = 7443;
      autostart = none;
    };
    now = 2000;
    system = sys;
    bindable = λ port. true;
    urls = record { parse_url = λ s. none; print_url = λ u. [] };
  };
  later = sys;
  fallback = none;
  is_gone = λ dir. false;
  auto_starting = false;
  begins = true;
  unregistered_worktrees = false;
  tell = λ x. record { message = []; log = []; recovery = none };
}

abbrev daemon : Daemon
daemon = record {
  server = record {
    table = table;
    ttl_timers = [];
    idle_timers = [];
    procs = record { procs = []; adopted = [] };
    watched = [];
  };
  listeners = [];
  saved = [];
}

adopted_run : (recover_managed_route (visit own_child) daemon (codes "app") app).0 ≡ proxied
unfolding recover_managed_route worktree_dir_gone adopt_orphan in_group
adopted_run = refl

stranger_run : (recover_managed_route (visit stranger) daemon (codes "app") app).0 ≡ start_page
unfolding recover_managed_route worktree_dir_gone adopt_orphan in_group
stranger_run = refl

app_present : worktree_dir_gone (λ dir. false) app ≡ false
unfolding worktree_dir_gone
app_present = refl
