-- ===== src/Routing/Remote.antt =====
-- internal/daemon/peer_listener.go: what a paired machine's request for a route is answered with (`peerServeRoute`).
-- `foreign` is `portForeignToRoute`, `discover` is `discoverRoutePort`, `starting` is `isAutoStarting` when a page is
-- written.
use local_vibe.Base.{
  ℕ, Bool, false, not, ◌&&◌, ◌||◌, Option, none, some, List, [], ◌∷◌, Text, if◌then◌else◌,
  has_suffix, trim_suffix, is_some,
}
use local_vibe.Routes.{Route, get, is_managed, is_bookmark, touch_activity, set_failure}
use local_vibe.Handlers.{Daemon, handle_repair}
use local_vibe.Recover.{Visit, write, recover_managed_route}
use local_vibe.Routing.{host_name, not_ready, is_down, if_adopted}

pub data PeerAnswer : Type 0 where
  not_found : PeerAnswer
  peer_starting_page : Bool → PeerAnswer
  peer_port : ℕ → PeerAnswer

-- The starting page reloads itself only while this machine brings the route up.
abbrev pub peer_route_recovering : Bool → Route → Bool
peer_route_recovering starting r =
    is_managed r.type && (starting || r.running && not (is_some r.last_failure))

-- The route as it stands after a step; one that was pruned was marked as stopped before.
abbrev pub current : Option Route → Route → Route
current none r = record r { running = false }
current (some now) r = now

-- The port answers.
abbrev pub serve_answering : Visit → Daemon → Text → Route → PeerAnswer × Daemon
serve_answering v d name r = (
  peer_port r.port,
  write d name
      (λ r. touch_activity v.around.now (if is_managed r.type then set_failure none r else r)),
)

-- Past the recovery: a live route whose port does not answer is repaired first.
unfoldable pub serve_ready :
    Visit → Bool → (Route → Bool) → (Route → Option ℕ) → Daemon → Text → Route → PeerAnswer × Daemon
serve_ready v starting foreign discover d name route =
    let ready = v.around.system.port_ready in
    let healed : Daemon =
      if is_managed route.type && route.running
      then (handle_repair v.around foreign discover d route.name).1
      else d in
    let route' : Route = current (get healed.server.table name) route in
    if ready route.port
    then serve_answering v d name route
    else if ready route'.port
    then serve_answering v healed name route'
    else (peer_starting_page (peer_route_recovering starting route'), write healed name not_ready)

-- A route that is shared; the PIDs are those that a start signals.
unfoldable pub serve_shared :
    Visit
    → Bool
    → (Route → Bool)
    → (Route → Option ℕ)
    → Daemon
    → Text
    → Route
    → PeerAnswer × Daemon × List ℕ
serve_shared v starting foreign discover d name route =
    let (served, d', killed) = recover_managed_route v d name route in
    let route' = current (get d'.server.table name) route in
    let (again, healed) = serve_ready v starting foreign discover d' name route' in
    let (answer, after) = serve_ready v starting foreign discover d name route in
    if is_managed route.type && is_down v.around.system route
    then if_adopted served (again, healed, killed)
        (peer_starting_page (peer_route_recovering starting route'), d', killed)
    else (answer, after, [])

unfoldable pub peer_serve_route :
    Visit
    → Bool
    → (Route → Bool)
    → (Route → Option ℕ)
    → Daemon
    → Text
    → PeerAnswer × Daemon × List ℕ
peer_serve_route v starting foreign discover d requested =
    let host = host_name requested in
    let suffix = b'.' ∷ v.around.config.tld in
    let name = trim_suffix host suffix in
    if not (has_suffix host suffix) then (not_found, d, []) else elim (get d.server.table name) [
      | none ↦ (not_found, d, [])
      | some route ↦
          if is_bookmark route.type
          then (not_found, d, [])
          else serve_shared v starting foreign discover d name route
    ]
