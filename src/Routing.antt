-- ===== src/Routing.antt =====
-- internal/daemon/daemon.go: what a browser's request is answered with (`routeRequest`, `handleProxyError`), the check
-- of a running app's port (`managedStrangerOnPort`). The reverse proxy is outside: an answer says where the request is
-- sent on to. A visit is that of Recover, `stranger` what `managedStrangerOnPort` answers for the route.
pub mod Proxied
pub mod Remote
pub mod Moved
pub mod Owner
pub mod Reached
mod Tests
use local_vibe.Base.{
  ℕ, ◌+◌, Bool, true, false, not, ◌&&◌, ◌||◌, Option, none, some, List, [], ◌∷◌, ◌++◌, Text, codes,
  if◌then◌else◌, ◌==◌, ltb, text_eq, before, has_suffix, trim_suffix, is_some,
}
use local_vibe.Config.{DaemonConfig}
use local_vibe.Names.{worktree_parent, local_name}
use local_vibe.Routes.{
  Route, RouteTable, get, list, update, is_managed, is_bookmark, touch_activity, set_failure,
}
use local_vibe.Procs.{System, pid_alive, stop}
use local_vibe.Timers.{Server, remove_route}
use local_vibe.Store.{save_sticky_routes}
use local_vibe.Handlers.{Daemon, Surroundings, handle_repair}
use local_vibe.Recover.{
  Visit, Served, to_parent, starting_page, start_page, proxied, worktree_dir_gone, has_child, write,
  recover_managed_route,
}
use local_vibe.Peers.{Peer, Peers, RouteSummary}
use local_vibe.Peers.Sync.{Fetch, find_peer_route}

-- The last ownership probe of a route: its time, its verdict, and whether one is under way.
pub record OwnerCheck : Type 0 where
  pub checked : Option ℕ
  pub foreign : Bool
  pub checking : Bool

-- 3 seconds.
abbrev pub managed_owner_check_interval : ℕ
managed_owner_check_interval = 3000000000

-- A healthy verdict that is recent.
abbrev pub recently_healthy : ℕ → OwnerCheck → Bool
recently_healthy now c =
    elim c.checked [ none ↦ false | some t ↦ ltb now (t + managed_owner_check_interval) ]
    && not c.foreign

-- `is_foreign` is what `portForeignToRoute` finds, at the time `later`.
pub managed_stranger_on_port : ℕ → ℕ → Bool → OwnerCheck → Bool × OwnerCheck
managed_stranger_on_port now later is_foreign c =
    if recently_healthy now c
    then (false, c)
    else if c.checking
    then (c.foreign, c)
    else (is_foreign, record c { checked = some later; foreign = is_foreign })

pub record BrowserRequest : Type 0 where
  pub host : Text
  pub over_tls : Bool
  pub uri : Text
  pub path : Text

pub data Answer : Type 0 where
  to_https : Text → Answer
  service_worker dashboard : Answer
  redirect_to_app : Text → Answer
  redirect_to_bookmark : Text → Answer
  through_bookmark : Route → Answer
  to_port : ℕ → Answer
  recovery_page repair_page : Answer
  to_peer : Peer → Answer

abbrev pub host_name : Text → Text
host_name host = before b':' host

-- `pruneGoneWorktree`, of a worktree that is gone.
pub pruned : Daemon → Text → Daemon
pruned d name =
    let s = d.server in
    let gone = remove_route name (record s {
      table = (update s.table name (λ r. record r { running = false })).0;
      procs = (stop s.procs name).0;
    }) in
    record d { server = gone; saved = save_sticky_routes gone.table }

abbrev pub not_ready : Route → Route
not_ready r = record r { ready = false }

-- A managed route that is marked as stopped, or whose process is gone.
pub is_down : System → Route → Bool
is_down sys r = not r.running || not (pid_alive sys r.pid)

-- Whether `recoverManagedRoute` left the answer to its caller.
abbrev pub if_adopted : {A : Type 0} → Served → A → A → A
if_adopted proxied go page = go
if_adopted to_parent go page = page
if_adopted starting_page go page = page
if_adopted start_page go page = page

-- The last steps: the registered port has to answer.
pub serve_port : Visit → Daemon → Text → Route → Answer × Daemon
serve_port v d name route =
    if not (v.around.system.port_ready route.port)
    then (repair_page, write d name not_ready)
    else (to_port route.port, write d name (touch_activity v.around.now))

-- A route of the table, past the bookmarks and with its worktree in place. The PIDs are those that a start signals.
pub serve_local : Visit → Bool → Daemon → Text → Route → Answer × Daemon × List ℕ
serve_local v stranger d name route =
    let (served, healed, killed) = recover_managed_route v d name route in
    let (again, healed') = serve_port v healed name route in
    let (answer, d') = serve_port v d name route in
    if is_managed route.type && is_down v.around.system route
    then if_adopted served (again, healed', killed) (recovery_page, healed, killed)
    else if is_managed route.type && stranger
    then (repair_page, write d name not_ready, [])
    else (answer, d', [])

pub serve_route : Visit → Bool → Daemon → Text → Route → Answer × Daemon × List ℕ
serve_route v stranger d name route =
    if worktree_dir_gone v.is_gone route
    then (redirect_to_app route.parent, pruned d name, [])
    else if is_bookmark route.type && not (text_eq route.external_url [])
    then (
      (if route.proxy then through_bookmark route else redirect_to_bookmark route.external_url),
      d,
      [],
    )
    else serve_local v stranger d name route

pub parent_known : RouteTable → Text → Bool
parent_known table app = is_some (get table app) || has_child app (list table)

-- Where a name goes that nobody serves: the parent app of a worktree's name, if it is known, or the dashboard.
abbrev pub to_app : Daemon → Option Text → Answer
to_app d none = dashboard
to_app d (some app) = if parent_known d.server.table app then redirect_to_app app else dashboard

-- The peers are asked only if pairing is on.
abbrev pub looked_up : Bool → Option (Peer × RouteSummary) → Answer → Peers → Peers → Answer × Peers
looked_up false found fallback peers peers' = (fallback, peers)
looked_up true none fallback peers peers' = (fallback, peers')
looked_up true (some (p, summary)) fallback peers peers' = (to_peer p, peers')

-- A name that the table does not have.
pub serve_unknown : ℕ → (Peer → Text → Fetch) → Daemon → Peers → Text → Answer × Peers
serve_unknown now fetch d peers name =
    let (found, peers') = find_peer_route now fetch name peers in
    looked_up peers.enabled found (to_app d (worktree_parent name)) peers peers'

pub record Reply : Type 0 where
  pub answer : Answer
  pub daemon : Daemon
  pub peers : Peers
  pub signalled : List ℕ

abbrev pub answered : Answer → Daemon → Peers → Reply
answered a d peers = record { answer = a; daemon = d; peers = peers; signalled = [] }

pub serve_name : Visit → Bool → (Peer → Text → Fetch) → Daemon → Peers → Text → Text → Reply
serve_name v stranger fetch d peers path name =
    let (elsewhere, peers') = serve_unknown v.around.now fetch d peers name in
    if text_eq name local_name
    then answered (if text_eq path (codes "/sw.js") then service_worker else dashboard) d peers
    else elim (get d.server.table name) [
      | some route ↦
          let (answer, d', killed) = serve_route v stranger d name route in
          record { answer = answer; daemon = d'; peers = peers; signalled = killed }
      | none ↦ answered elsewhere d peers'
    ]

pub route_request : Visit → Bool → (Peer → Text → Fetch) → Daemon → Peers → BrowserRequest → Reply
route_request v stranger fetch d peers r =
    let cfg = v.around.config in
    let host = host_name r.host in
    let suffix = b'.' ∷ cfg.tld in
    if cfg.tls_enabled && not r.over_tls
    then answered (to_https (codes "https://" ++ (host ++ r.uri))) d peers
    else if has_suffix host suffix
    then serve_name v stranger fetch d peers r.path (trim_suffix host suffix)
    else answered dashboard d peers

-- What a recovery answers when it does not go on.
abbrev pub page_of : Route → Served → Answer
page_of r to_parent = redirect_to_app r.parent
page_of r starting_page = recovery_page
page_of r start_page = recovery_page
page_of r proxied = recovery_page

-- The proxy's error handler, for an upstream that failed; a request that the client dropped does not come here.
pub handle_proxy_error : Visit → Daemon → Text → Route → Answer × Daemon × List ℕ
handle_proxy_error v d name route =
    let marked = write d name not_ready in
    let (served, d', killed) = recover_managed_route v marked name (not_ready route) in
    if not (is_managed route.type)
    then (repair_page, marked, [])
    else (if_adopted served repair_page (page_of route served), d', killed)
