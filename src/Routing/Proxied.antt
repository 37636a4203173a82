-- ===== src/Routing/Proxied.antt =====
-- Where a browser's request may be sent on to (internal/daemon/daemon.go, `routeRequest`).
use local_vibe.Base.{Bool, true, false, ◌≡◌, ◌⊎◌, Option, none, some, Text}
use local_vibe.Names.{worktree_parent}
use local_vibe.Routes.{Route, is_managed, is_bookmark}
use local_vibe.Procs.{System}
use local_vibe.Handlers.{Daemon}
use local_vibe.Recover.{Visit, worktree_dir_gone}
use local_vibe.Recover.Visits.{IsServed}
use local_vibe.Peers.{Peers, RouteSummary}
use local_vibe.Peers.Cache.{IsFirst, served_by_any}
use local_vibe.Routing.{
  Answer, to_https, service_worker, dashboard, redirect_to_app, redirect_to_bookmark,
  through_bookmark, to_port, recovery_page, repair_page, to_peer, is_down, parent_known,
}

-- The route may be sent requests: it is not managed, its own process group holds its port, or its process lives and no
-- stranger was found on its port.
abbrev pub IsAllowed : System → Bool → Route → Type 0
IsAllowed sys stranger r =
    (is_managed r.type ≡ false) ⊎ IsServed sys r ⊎ (is_down sys r ≡ false) × (stranger ≡ false)

-- What a route of the table is answered with.
abbrev pub Local : Visit → Bool → Route → Answer → Type 0
Local v stranger r (to_https u) = ⊥
Local v stranger r service_worker = ⊥
Local v stranger r dashboard = ⊥
Local v stranger r (redirect_to_app app) = (worktree_dir_gone v.is_gone r ≡ true) × (r.parent ≡ app)
Local v stranger r (redirect_to_bookmark u) =
    (is_bookmark r.type ≡ true) × (r.proxy ≡ false) × (r.external_url ≡ u)
Local v stranger r (through_bookmark b) = (is_bookmark r.type ≡ true) × (r.proxy ≡ true) × (r ≡ b)
Local v stranger r (to_port p) =
    (worktree_dir_gone v.is_gone r ≡ false)
    × (r.port ≡ p)
    × (v.around.system.port_ready p ≡ true)
    × IsAllowed v.around.system stranger r
Local v stranger r recovery_page = (is_managed r.type ≡ true) × (is_down v.around.system r ≡ true)
Local v stranger r repair_page =
    (v.around.system.port_ready r.port ≡ false) ⊎ (is_managed r.type ≡ true) × (stranger ≡ true)
Local v stranger r (to_peer p) = ⊥

-- No peer is known to have the name.
abbrev pub IsUnserved : Bool → Peers → Text → Type 0
IsUnserved enabled peers name =
    (enabled ≡ false) ⊎ (served_by_any peers.peer_states name peers.peer_list ≡ false)

-- What a name that the table does not have is answered with, as the lookup leaves the peers.
abbrev pub Elsewhere : Daemon → Bool → Peers → Text → Answer → Type 0
Elsewhere d enabled peers name (to_peer p) =
    (enabled ≡ true)
    × ((summary : RouteSummary) × (summary.name ≡ name)
        × IsFirst peers.peer_states name p summary peers.peer_list)
Elsewhere d enabled peers name (redirect_to_app app) =
    (worktree_parent name ≡ some app)
    × (parent_known d.server.table app ≡ true)
    × IsUnserved enabled peers name
Elsewhere d enabled peers name dashboard =
    ((app : Text) → worktree_parent name ≡ some app → parent_known d.server.table app ≡ false)
    × IsUnserved enabled peers name
Elsewhere d enabled peers name (to_https u) = ⊥
Elsewhere d enabled peers name service_worker = ⊥
Elsewhere d enabled peers name (redirect_to_bookmark u) = ⊥
Elsewhere d enabled peers name (through_bookmark b) = ⊥
Elsewhere d enabled peers name (to_port p) = ⊥
Elsewhere d enabled peers name recovery_page = ⊥
Elsewhere d enabled peers name repair_page = ⊥

-- What a browser's request for a name may be answered with.
abbrev pub Sent : Visit → Bool → Daemon → Bool → Peers → Text → Option Route → Answer → Type 0
Sent v stranger d enabled after name (some r) a = Local v stranger r a
Sent v stranger d enabled after name none a = Elsewhere d enabled after name a
