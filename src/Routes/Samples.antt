-- ===== src/Routes/Samples.antt =====
-- Routes that the tests share.
use local_vibe.Base.{ℕ, true, false, none, some, [], ◌∷◌, Text, codes}
use local_vibe.Routes.{Route, RouteTable, RouteType, sticky, managed, bookmark}

abbrev pub plain : Text → RouteType → ℕ → Route
plain name type port = record {
  name = name;
  parent = [];
  port = port;
  ttl_seconds = none;
  cmd = [];
  dir = [];
  external_url = [];
  registered_at = 1000;
  expires_at = none;
  type = type;
  idle_timeout = 0;
  icon = [];
  auto_icon = [];
  oauth_callback_port = 0;
  reserve_ports = [];
  proxy = false;
  insecure_skip_verify = false;
  running = true;
  ready = true;
  pid = none;
  last_activity = none;
  last_failure = none;
}

abbrev pub api : Route
api = plain (codes "api") sticky 3001

-- A managed app with a callback bridge and a reserve port, running as process 500.
abbrev pub app : Route
app =
    let base = plain (codes "app") managed 3000 in
    record base {
      cmd = codes "npm run dev";
      dir = codes "/src/app";
      idle_timeout = 60;
      oauth_callback_port = 4000;
      reserve_ports = (codes "server", 3002) ∷ [];
      pid = some 500;
    }

abbrev pub feature : Route
feature =
    let base = plain (codes "feature.app") managed 3003 in
    record base { parent = codes "app"; cmd = codes "npm run dev"; dir = codes "/src/feature" }

abbrev pub home : Route
home =
    let base = plain (codes "home") bookmark 0 in
    record base { external_url = codes "https://ha:8123/lovelace"; proxy = true }

abbrev pub table : RouteTable
table = record {
  routes =
      (codes "home", home)
      ∷ (codes "app", app)
      ∷ (codes "feature.app", feature)
      ∷ (codes "api", api)
      ∷ [];
  on_add = true;
  on_remove = true;
}
