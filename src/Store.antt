-- ===== src/Store.antt =====
-- internal/daemon/persistence.go: the routes that outlive the daemon, in routes.json.
-- A file is its entries by name: the JSON text and the atomic rename are outside. An entry's empty `type` is
-- none, and a PID 0 is none. `is_gone` stands for `dirIsGoneWorktree`, the test for a removed worktree;
-- the survivors that loading kills are returned.
pub mod Save
mod Tests
use local_vibe.Base.{
  ℕ, Bool, true, false, not, ◌&&◌, ◌||◌, Option, none, some, Result, ok, err, List, [], ◌∷◌, ◌++◌,
  Text, codes, if◌then◌else◌, ◌==◌, ltb, text_eq, to_lower, insert,
}
use local_vibe.Names.{parse_route_name, local_name}
use local_vibe.Routes.{
  Route, RouteTable, RouteType, sticky, managed, bookmark, is_managed, list, add,
}

pub record StickyEntry : Type 0 where
  pub port : ℕ
  pub cmd : Text
  pub dir : Text
  pub external_url : Text
  pub type : Option RouteType
  pub registered_at : ℕ
  pub idle_timeout : ℕ
  pub icon : Text
  pub auto_icon : Text
  pub proxy : Bool
  pub insecure_skip_verify : Bool
  pub reserve_ports : List (Text × ℕ)
  pub oauth_callback_port : ℕ
  pub pid : Option ℕ

-- What the daemon can ask about a stored worktree and its process.
pub record Survey : Type 0 where
  pub is_gone : Text → Bool
  pub process_alive : ℕ → Bool
  pub pid_group_holds_port : ℕ → ℕ → Bool

abbrev pub entry_type : StickyEntry → RouteType
entry_type e = elim e.type [ none ↦ sticky | some t ↦ t ]

-- The route of an entry.
abbrev pub loaded : Text → Text → StickyEntry → Route
loaded name parent e = record {
  name = name;
  parent = parent;
  port = e.port;
  ttl_seconds = none;
  cmd = e.cmd;
  dir = e.dir;
  external_url = e.external_url;
  registered_at = e.registered_at;
  expires_at = none;
  type = entry_type e;
  idle_timeout = e.idle_timeout;
  icon = e.icon;
  auto_icon = e.auto_icon;
  oauth_callback_port = e.oauth_callback_port;
  reserve_ports = e.reserve_ports;
  proxy = e.proxy;
  insecure_skip_verify = e.insecure_skip_verify;
  running = not (is_managed (entry_type e));
  ready = not (is_managed (entry_type e));
  pid = if is_managed (entry_type e) then e.pid else none;
  last_activity = none;
  last_failure = none;
}

-- The PID of a gone worktree's survivor that is still provably ours.
abbrev pub survivor : Survey → StickyEntry → List ℕ
survivor s e = elim e.pid [
  | none ↦ []
  | some pid ↦ if s.process_alive pid && s.pid_group_holds_port pid e.port then pid ∷ [] else []
]

-- The table, and the processes that were killed.
pub load_entry : Survey → Text → StickyEntry → RouteTable → RouteTable × List ℕ
load_entry s name e table =
    let low = to_lower name in
    elim (parse_route_name low) [
      | err _ ↦ (table, [])
      | ok parent ↦
          if text_eq low local_name
          then (table, [])
          else if not (text_eq parent []) && (not (text_eq e.dir []) && s.is_gone e.dir)
          then (table, survivor s e)
          else ((add table (loaded low parent e)).0, [])
    ]

pub load_sticky_routes : Survey → List (Text × StickyEntry) → RouteTable → RouteTable × List ℕ
load_sticky_routes s [] table = (table, [])
load_sticky_routes s ((name, e) ∷ rest) table =
    let (t, killed) = load_entry s name e table in
    let (t', more) = load_sticky_routes s rest t in (t', killed ++ more)

abbrev pub is_persistent : RouteType → Bool
is_persistent sticky = true
is_persistent managed = true
is_persistent bookmark = true
is_persistent _ = false

abbrev pub saved_pid : Route → Option ℕ
saved_pid r = if is_managed r.type && r.running then r.pid else none

abbrev pub entry_of : Route → StickyEntry
entry_of r = record {
  port = r.port;
  cmd = r.cmd;
  dir = r.dir;
  external_url = r.external_url;
  type = some r.type;
  registered_at = r.registered_at;
  idle_timeout = r.idle_timeout;
  icon = r.icon;
  auto_icon = r.auto_icon;
  proxy = r.proxy;
  insecure_skip_verify = r.insecure_skip_verify;
  reserve_ports = r.reserve_ports;
  oauth_callback_port = r.oauth_callback_port;
  pid = saved_pid r;
}

-- The names of a table's list are distinct, so an entry is put in front.
pub save_entries : List Route → List (Text × StickyEntry)
save_entries [] = []
save_entries (r ∷ rs) =
    let rest = save_entries rs in if is_persistent r.type then (r.name, entry_of r) ∷ rest else rest

pub save_sticky_routes : RouteTable → List (Text × StickyEntry)
save_sticky_routes table = save_entries (list table)
