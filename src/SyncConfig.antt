-- ===== src/SyncConfig.antt =====
-- internal/daemon/sync_config.go: the fields of a route that a start reads again from vibe.json. `written` says that a
-- save of routes.json succeeds. The file is none when it cannot be read, and its content none when it does not decode.
-- In the comparison of reserve ports the nil map is the empty one.
pub mod Effect
mod Tests
use local_vibe.Base.{
  ℕ, Bool, true, false, not, ◌&&◌, ◌||◌, Option, none, some, Result, ok, err, List, [], ◌∷◌, Text,
  if◌then◌else◌, ◌==◌, ltb, text_eq, lookup, length,
}
use local_vibe.Config.{DaemonConfig}
use local_vibe.Routes.{Route, RouteTable, is_managed, update_managed_config}
use local_vibe.Ports.{
  Claim, BridgeError, ReserveError, validate_reserve_ports, validate_oauth_bridge_config,
  reserve_ports_claim,
}
use local_vibe.Bridge.{ReconcileError, reconcile_oauth_bridge_listeners}
use local_vibe.Store.{save_sticky_routes}
use local_vibe.Handlers.{Daemon, Surroundings, with_table, or_else}

pub record VibeJson : Type 0 where
  pub name : Text
  pub cmd : Text
  pub oauth_callback_port : Option ℕ
  pub reserve_ports : List (Text × ℕ)

pub data SyncError : Type 0 where
  bad_reserve : ReserveError → SyncError
  bad_oauth : BridgeError → SyncError
  claimed : Claim → SyncError
  bridge_failed : ReconcileError → SyncError
  not_saved : SyncError

abbrev pub same_port : Option ℕ → ℕ → Bool
same_port none p = false
same_port (some q) p = q == p

abbrev pub within_map : List (Text × ℕ) → List (Text × ℕ) → Bool
within_map [] m = true
within_map ((k, p) ∷ rest) m = same_port (lookup k m) p && within_map rest m

-- `reflect.DeepEqual` on maps, whose keys are distinct.
abbrev pub same_map : List (Text × ℕ) → List (Text × ℕ) → Bool
same_map a b = length a == length b && within_map a b

-- What an edit asks for, or why it is refused: the command, the callback port and the reserve ports.
pub candidate :
    DaemonConfig → RouteTable → Route → VibeJson → Result SyncError (Text × ℕ × List (Text × ℕ))
candidate cfg table route v =
    let cmd = if text_eq v.cmd [] then route.cmd else v.cmd in
    let oauth = or_else v.oauth_callback_port route.oauth_callback_port in
    elim (validate_reserve_ports v.reserve_ports route.port oauth) [
      | err e ↦ err (bad_reserve e)
      | ok reserve ↦
          let bad =
            if ltb 0 oauth
            then validate_oauth_bridge_config cfg table route.name route.port oauth
            else none in
          elim bad [
            | some e ↦ err (bad_oauth e)
            | none ↦ elim (reserve_ports_claim cfg table route.name reserve) [
              | some c ↦ err (claimed c)
              | none ↦ ok (cmd, oauth, reserve)
            ]
          ]
    ]

-- `return s.saveStickyRoutes()`.
abbrev pub saved_after : Bool → Daemon → Option SyncError × Daemon
saved_after true d = (none, record d { saved = save_sticky_routes d.server.table })
saved_after false d = (some not_saved, d)

-- A worktree's file is a copy of its app's: only the command is read.
pub sync_worktree : Bool → Daemon → Route → VibeJson → Option SyncError × Daemon
sync_worktree written d route v =
    let (t, known) =
      update_managed_config d.server.table route.name v.cmd route.oauth_callback_port
        route.reserve_ports in
    let d' = with_table d t in
    if not (text_eq v.name []) && not (text_eq v.name route.parent)
    then (none, d)
    else if text_eq v.cmd [] || text_eq v.cmd route.cmd
    then (none, d)
    else if not known
    then (none, d)
    else saved_after written d'

-- The write, the listeners and the file, for an edit that is not refused.
pub apply_candidate :
    Surroundings → Bool → Daemon → Route → Text → ℕ → List (Text × ℕ) → Option SyncError × Daemon
apply_candidate e written d route cmd oauth reserve =
    let changed =
      not (text_eq cmd route.cmd)
      || (not (oauth == route.oauth_callback_port) || not (same_map reserve route.reserve_ports)) in
    let (t, known) = update_managed_config d.server.table route.name cmd oauth reserve in
    let (open_ports, failed) = reconcile_oauth_bridge_listeners e.config t e.bindable d.listeners in
    let d' = with_table d t in
    if not changed then (none, d) else if not known then (none, d) else elim failed [
      | some x ↦ (some (bridge_failed x), record d' { listeners = open_ports })
      | none ↦ saved_after written (record d' { listeners = open_ports })
    ]

pub sync_app : Surroundings → Bool → Daemon → Route → VibeJson → Option SyncError × Daemon
sync_app e written d route v =
    if not (text_eq v.name []) && not (text_eq v.name route.name)
    then (none, d)
    else elim (candidate e.config d.server.table route v) [
      | err x ↦ (some x, d)
      | ok (cmd, oauth, reserve) ↦ apply_candidate e written d route cmd oauth reserve
    ]

unfoldable pub sync_route_from_vibe_json :
    Surroundings → Bool → Option (Option VibeJson) → Daemon → Route → Option SyncError × Daemon
sync_route_from_vibe_json e written file d route =
    if not (is_managed route.type) || text_eq route.dir [] then (none, d) else elim file [
      | none ↦ (none, d)
      | some none ↦ (none, d)
      | some (some v) ↦
          if not (text_eq route.parent [])
          then sync_worktree written d route v
          else sync_app e written d route v
    ]
