-- ===== src/Routing/Tests.antt =====
-- Tests of the answers to browsers and to paired machines, and their theorems at concrete requests.
use local_vibe.Base.{
  if◌then◌else◌, true, false, ◌≡◌, refl, none, some, [], ◌∷◌, Text, codes, ◌==◌, lookup,
}
use local_vibe.Routes.{get}
use local_vibe.Routes.Samples.{table, app}
use local_vibe.Procs.{System, lives}
use local_vibe.Handlers.{Daemon}
use local_vibe.Recover.{Visit, worktree_dir_gone}
use local_vibe.Peers.{Peer, Peers}
use local_vibe.Peers.Sync.{Fetch, failed}
use local_vibe.Routing.{
  OwnerCheck, BrowserRequest, to_port, repair_page, is_down, serve_port, serve_local, serve_route,
  serve_name, route_request,
}
use local_vibe.Routing.Remote.{peer_port, serve_ready, serve_shared, peer_serve_route}
use local_vibe.Routing.Reached.{Reached, peer_serve_route_sound}

-- 500 runs app; something answers on port 3000.
abbrev machine : System
machine = record {
  alive = λ pid. pid == 500;
  group_of = λ pid. some 500;
  holders = λ port. if port == 3000 then 500 ∷ [] else [];
  own_pid = 900;
  launch = λ r. lives 600;
  port_ready = λ port. port == 3000;
  command_of = λ pid. [];
}

abbrev visit : Visit
visit = record {
  around = record {
    config = record {
      port = 7999;
      tld = codes "test";
      tls_enabled = true;
      tls_port = 7443;
      autostart = none;
    };
    now = 2000;
    system = machine;
    bindable = λ port. true;
    urls = record { parse_url = λ s. none; print_url = λ u. [] };
  };
  later = machine;
  fallback = none;
  is_gone = λ dir. false;
  auto_starting = false;
  begins = true;
  unregistered_worktrees = false;
  tell = λ x. record { message = []; log = []; recovery = none };
}

abbrev daemon : Daemon
daemon = record {
  server = record {
    table = table;
    ttl_timers = [];
    idle_timers = [];
    procs = record { procs = []; adopted = [] };
    watched = [];
  };
  listeners = [];
  saved = [];
}

abbrev peers : Peers
peers = record {
  enabled = false;
  identity = none;
  listening = false;
  peer_list = [];
  peer_states = [];
  invite_code = [];
  invite_expires = 0;
  peers_json = [];
}

abbrev no_fetch : Peer → Text → Fetch
no_fetch p etag = failed []

abbrev request : Text → BrowserRequest
request host = record { host = host; over_tls = true; uri = codes "/"; path = codes "/" }

-- The name of app, with a port.
abbrev app_request : BrowserRequest
app_request = request (codes "app.test:7443")

app_served : (route_request visit false no_fetch daemon peers app_request).answer ≡ to_port 3000
unfolding route_request serve_name serve_route serve_local serve_port worktree_dir_gone is_down get
    lookup
app_served = refl

-- A stranger on app's port.
app_not_served : (route_request visit true no_fetch daemon peers app_request).answer ≡ repair_page
unfolding route_request serve_name serve_route serve_local serve_port worktree_dir_gone is_down get
    lookup
app_not_served = refl

-- A browser gets the repair page where a paired machine is sent to whatever holds the port.
stranger_served :
    (peer_serve_route visit false (λ r. true) (λ r. none) daemon (codes "app.test")).0
    ≡ peer_port 3000
unfolding peer_serve_route serve_shared serve_ready get lookup is_down
stranger_served = refl

peer_serve_route_sound_example :
    Reached visit
      (λ r. none)
      daemon
      (codes "app")
      (some app)
      (peer_serve_route visit false (λ r. true) (λ r. none) daemon (codes "app.test")).0
unfolding get lookup
peer_serve_route_sound_example =
    peer_serve_route_sound visit false (λ r. true) (λ r. none) daemon (codes "app.test") refl

abbrev unchecked : OwnerCheck
unchecked = record { checked = none; foreign = false; checking = false }
