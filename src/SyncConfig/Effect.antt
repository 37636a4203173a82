-- ===== src/SyncConfig/Effect.antt =====
-- What a sync writes (`syncRouteFromVibeJSON`).
use local_vibe.Base.{
  ℕ, Bool, true, false, not, ◌&&◌, ◌||◌, ◌≡◌, ◌≢◌, ◌⊎◌, ◌∙◌, refl, inl, inr, Bool-cases,
  Option-cases, Result-cases, Option, none, some, List, [], Text, arith, if◌then◌else◌, ◌==◌,
  text_eq, text_eq_iff,
}
use local_vibe.Routes.{Route, RouteTable, get, is_managed, update_managed_config}
use local_vibe.Routes.Lookup.{get-update_managed_config}
use local_vibe.Bridge.{ReconcileError, reconcile_oauth_bridge_listeners}
use local_vibe.Store.{save_sticky_routes}
use local_vibe.Handlers.{Daemon, Surroundings, with_table}
use local_vibe.SyncConfig.{
  VibeJson, SyncError, bridge_failed, not_saved, saved_after, same_map, candidate, sync_worktree,
  apply_candidate, sync_app, sync_route_from_vibe_json,
}

-- The table with a route's command, callback port and reserve ports written.
abbrev pub Rewritten : Text → Route → Text → ℕ → List (Text × ℕ) → RouteTable → RouteTable → Type 0
Rewritten name route cmd oauth reserve before after =
    (n : Text)
    → get after n ≡ (
        if text_eq name n
        then some (record route { cmd = cmd; oauth_callback_port = oauth; reserve_ports = reserve })
        else get before n)

kept-Rewritten :
    (name : Text) (route : Route) (t : RouteTable)
    → get t name ≡ some route
    → Rewritten name route route.cmd route.oauth_callback_port route.reserve_ports t t
kept-Rewritten name route t h n = ground (arith, text_eq_iff name n)

update_managed_config-Rewritten :
    (name : Text) (route : Route) (cmd : Text) (oauth : ℕ) (reserve : List (Text × ℕ))
    (t : RouteTable)
    → get t name ≡ some route
    → Rewritten name route cmd oauth reserve t (update_managed_config t name cmd oauth reserve).0
update_managed_config-Rewritten name route cmd oauth reserve t h n =
    (get-update_managed_config t name cmd oauth reserve n).0 ∙ rw h refl

-- What is known of a sync's answer. Only the opening of the bridge and the save can fail after the write.
abbrev pub IsSync : Bool → Bool → Route → Daemon → Option SyncError × Daemon → Type 0
IsSync written worktree route d out =
    ((cmd : Text) × (oauth : ℕ) × (reserve : List (Text × ℕ)) × Rewritten route.name route cmd oauth
        reserve d.server.table out.1.server.table
      × (worktree ≡ true → (oauth ≡ route.oauth_callback_port) × (reserve ≡ route.reserve_ports)))
    × ((x : SyncError)
        → out.0 ≡ some x
        → out.1 ≡ d
          ⊎ (worktree ≡ false) × ((y : ReconcileError) × (x ≡ bridge_failed y))
          ⊎ (written ≡ false) × (x ≡ not_saved))
    × (out.1.server.procs ≡ d.server.procs)
    × ((out.0 ≡ none) × (out.1.saved ≡ save_sticky_routes out.1.server.table)
        ⊎ (out.1.saved ≡ d.saved) × ((out.1 ≡ d) ⊎ (out.0 ≢ none)))

unwritten :
    (written b : Bool) (route : Route) (d : Daemon) (x : Option SyncError)
    → get d.server.table route.name ≡ some route
    → IsSync written b route d (x, d)
unwritten written b route d x h = (
  (
    route.cmd,
    route.oauth_callback_port,
    route.reserve_ports,
    kept-Rewritten route.name route d.server.table h,
    λ wt. (refl, refl),
  ),
  λ y k. inl refl,
  refl,
  inr (refl, inl refl),
)

saved_after-IsSync :
    (b written : Bool) (route : Route) (d after : Daemon) (cmd : Text) (oauth : ℕ)
    (reserve : List (Text × ℕ))
    → Rewritten route.name route cmd oauth reserve d.server.table after.server.table
    → (b ≡ true → (oauth ≡ route.oauth_callback_port) × (reserve ≡ route.reserve_ports))
    → after.server.procs ≡ d.server.procs
    → after.saved ≡ d.saved
    → IsSync written b route d (saved_after written after)
saved_after-IsSync b true route d after cmd oauth reserve h wt p s =
    ((cmd, oauth, reserve, h, wt), λ x k. absurd (cc), p, inl (refl, refl))
saved_after-IsSync b false route d after cmd oauth reserve h wt p s =
    ((cmd, oauth, reserve, h, wt), λ x k. inr (inr (refl, cc)), p, inr (s, inr (λ e. cc)))

sync_worktree-IsSync :
    (b written : Bool) (route : Route) (d : Daemon) (v : VibeJson)
    → get d.server.table route.name ≡ some route
    → IsSync written b route d (sync_worktree written d route v)
unfolding sync_worktree
sync_worktree-IsSync b written route d v h =
    let write =
      update_managed_config d.server.table route.name v.cmd route.oauth_callback_port
        route.reserve_ports in
    elim (Bool-cases (not (text_eq v.name []) && not (text_eq v.name route.parent))) [
      | inl a ↦ rw (a, sync_worktree) (unwritten written b route d none h)
      | inr a ↦ elim (Bool-cases (text_eq v.cmd [] || text_eq v.cmd route.cmd)) [
        | inl f ↦ rw (a, sync_worktree, f) (unwritten written b route d none h)
        | inr f ↦ elim (Bool-cases write.1) [
          | inr k ↦ rw (a, sync_worktree, f, k) (unwritten written b route d none h)
          | inl k ↦
              rw (a, sync_worktree, f, k)
                (saved_after-IsSync b written route d (with_table d write.0) v.cmd
                  route.oauth_callback_port route.reserve_ports
                  (update_managed_config-Rewritten route.name route v.cmd route.oauth_callback_port
                    route.reserve_ports d.server.table h)
                  (λ wt. (refl, refl)) refl refl)
        ]
      ]
    ]

apply_candidate-IsSync :
    (e : Surroundings) (written : Bool) (d : Daemon) (route : Route) (cmd : Text) (oauth : ℕ)
    (reserve : List (Text × ℕ))
    → get d.server.table route.name ≡ some route
    → IsSync written false route d (apply_candidate e written d route cmd oauth reserve)
unfolding apply_candidate
apply_candidate-IsSync e written d route cmd oauth reserve h =
    let write = update_managed_config d.server.table route.name cmd oauth reserve in
    let rewritten =
      update_managed_config-Rewritten route.name route cmd oauth reserve d.server.table h in
    elim (Bool-cases (
      not (text_eq cmd route.cmd)
      || (not (oauth == route.oauth_callback_port)
          || not (same_map reserve route.reserve_ports)))) [
            | inr a ↦ rw (a, apply_candidate) (unwritten written false route d none h)
            | inl a ↦ elim (Bool-cases write.1) [
              | inr k ↦ rw (a, apply_candidate, k) (unwritten written false route d none h)
              | inl k ↦
                  elim (Option-cases
                    (reconcile_oauth_bridge_listeners e.config write.0 e.bindable d.listeners).1) [
                      | inl f ↦
                          rw (a, apply_candidate, k, f)
                            (let (open_ports, _) =
                                reconcile_oauth_bridge_listeners e.config write.0 e.bindable
                                  d.listeners in
                              let d' = with_table d write.0 in
                              saved_after-IsSync false written route d
                                (record d' { listeners = open_ports }) cmd oauth reserve rewritten
                                (λ wt. absurd (cc)) refl refl)
                      | inr (x, f) ↦
                          rw (a, apply_candidate, k, f)
                            (
                              (cmd, oauth, reserve, rewritten, λ wt. absurd (cc)),
                              λ y k. inr (inl (refl, (x, cc))),
                              refl,
                              inr (refl, inr (λ k. cc)),
                            )
                    ]
            ]
          ]

sync_app-IsSync :
    (e : Surroundings) (written : Bool) (d : Daemon) (route : Route) (v : VibeJson)
    → get d.server.table route.name ≡ some route
    → IsSync written false route d (sync_app e written d route v)
unfolding sync_app
sync_app-IsSync e written d route v h =
    elim (Bool-cases (not (text_eq v.name []) && not (text_eq v.name route.name))) [
      | inl a ↦ rw (a, sync_app) (unwritten written false route d none h)
      | inr a ↦ elim (Result-cases (candidate e.config d.server.table route v)) [
        | inl (x, c) ↦ rw (a, sync_app, c) (unwritten written false route d (some x) h)
        | inr ((cmd, oauth, reserve), c) ↦
            rw (a, sync_app, c) (apply_candidate-IsSync e written d route cmd oauth reserve h)
      ]
    ]

pub sync_route_from_vibe_json_lem :
    (e : Surroundings) (written : Bool) (file : Option (Option VibeJson)) (d : Daemon)
    (route : Route)
    → get d.server.table route.name ≡ some route
    → IsSync written
        (not (text_eq route.parent []))
        route
        d
        (sync_route_from_vibe_json e written file d route)
unfolding sync_route_from_vibe_json
sync_route_from_vibe_json_lem e written file d route h =
    elim (Bool-cases (not (is_managed route.type) || text_eq route.dir [])) [
      | inl a ↦ rw (a, sync_route_from_vibe_json) (unwritten written _ route d none h)
      | inr a ↦ elim (Option-cases file) [
        | inl f ↦ rw (a, f, sync_route_from_vibe_json) (unwritten written _ route d none h)
        | inr (content, f) ↦ elim (Option-cases content) [
          | inl c ↦ rw (a, f, sync_route_from_vibe_json, c) (unwritten written _ route d none h)
          | inr (v, c) ↦ elim (Bool-cases (text_eq route.parent [])) [
            | inl p ↦
                rw (a, f, sync_route_from_vibe_json, c, p) (sync_app-IsSync e written d route v h)
            | inr p ↦
                rw (a, f, sync_route_from_vibe_json, c, p)
                  (sync_worktree-IsSync true written route d v h)
          ]
        ]
      ]
    ]
