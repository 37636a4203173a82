-- ===== src/Routing/Moved.antt =====
-- Which port a route has after a visit and a repair (internal/daemon/autostart.go, `recoverManagedRoute`;
-- internal/daemon/api.go, `handleRepair`).
use local_vibe.Base.{
  ℕ, Bool, not, ◌&&◌, ◌≡◌, ◌≢◌, ◌⊎◌, refl, inl, inr, Bool-cases, Option-cases, Option, some, Text,
  text_eq, text_eq_iff, All,
}
use local_vibe.Routes.{Route, get, list, is_bookmark}
use local_vibe.Procs.{adopt}
use local_vibe.Handlers.{Daemon, Surroundings, repaired, port_holder, handle_repair}
use local_vibe.Handlers.Repair.{handle_repair_moved}
use local_vibe.Recover.{
  Visit, proxied, worktree_dir_gone, adopt_orphan, normalized, adopted_as, write,
  recover_managed_route,
}
use local_vibe.Recover.Visits.{recover_page}
use local_vibe.Recover.Launched.{get-write}
use local_vibe.Routing.Remote.{current}

-- A repair either moves the route or leaves the daemon as it is.
handle_repair_cases :
    (e : Surroundings) (foreign : Route → Bool) (discover : Route → Option ℕ) (d : Daemon)
    (name : Text)
    → ((route : Route) × (old : ℕ) × (port : ℕ) × (get d.server.table name ≡ some route)
        × ((handle_repair e foreign discover d name).0 ≡ repaired old port))
      ⊎ ((handle_repair e foreign discover d name).1 ≡ d)
unfolding handle_repair
handle_repair_cases e foreign discover d name = elim (Option-cases (get d.server.table name)) [
  | inl f ↦ rw (f, handle_repair) (inr refl)
  | inr (route, f) ↦ elim (Bool-cases (is_bookmark route.type)) [
    | inl a ↦ rw (f, handle_repair, a) (inr refl)
    | inr a ↦ elim (Bool-cases (e.system.port_ready route.port && not (foreign route))) [
      | inl b ↦ rw (f, handle_repair, a, b) (inr refl)
      | inr b ↦ elim (Option-cases (discover route)) [
        | inl c ↦ rw (f, handle_repair, a, b, c) (inr refl)
        | inr (p, c) ↦ elim (Option-cases (port_holder route.name p (list d.server.table))) [
          | inr (other, g) ↦ rw (f, handle_repair, a, b, c, g) (inr refl)
          | inl g ↦ rw (f, handle_repair, a, b, c, g) (inl (route, route.port, p, refl, refl))
        ]
      ]
    ]
  ]
]

-- A port of a route: the one that it has, or the one that was discovered for it and that no other route has.
abbrev pub IsPortOf : (Route → Option ℕ) → Daemon → Route → ℕ → Type 0
IsPortOf discover d r p =
    (p ≡ r.port)
    ⊎ (discover r ≡ some p) × All (λ q. (q.name ≡ r.name) ⊎ (q.port ≢ p)) (list d.server.table)

-- Whatever name is repaired, a route has a port of its own after it.
pub handle_repair-IsPortOf :
    (e : Surroundings) (foreign : Route → Bool) (discover : Route → Option ℕ) (d : Daemon)
    (repairs name : Text) (r : Route)
    → get d.server.table name ≡ some r
    → let healed = (handle_repair e foreign discover d repairs).1 in
      IsPortOf discover d r (current (get healed.server.table name) r).port
handle_repair-IsPortOf e foreign discover d repairs name r h =
    elim (handle_repair_cases e foreign discover d repairs) [
      | inr same ↦ inl (rw (same, h) refl)
      | inl (route, old, port, f, moves) ↦
          let (found, unclaimed, moved) =
            handle_repair_moved e foreign discover d repairs route old port f moves in
          elim (Bool-cases (text_eq repairs name)) [
            | inr other ↦ inl (rw (moved name, other, h) refl)
            | inl here ↦
                let named : repairs ≡ name = (text_eq_iff repairs name).0 here in
                let same : route ≡ r = cc in rw (moved name, here, ← same) (inr (found, unclaimed))
          ]
    ]

-- A visit that goes on to the proxy leaves the route under its name, with the port that it had.
pub recover_proxied_port :
    (v : Visit) (d : Daemon) (name : Text) (route : Route)
    → get d.server.table name ≡ some route
    → (recover_managed_route v d name route).0 ≡ proxied
    → (now : Route) × (get (recover_managed_route v d name route).1.server.table name ≡ some now)
      × (now.port ≡ route.port)
unfolding recover_managed_route
recover_proxied_port v d name route g h =
    elim (Option-cases (adopt_orphan v.around.system (normalized v.around.system route))) [
      | inl e ↦ absurd (recover_page v d name route e h)
      | inr (pid, e) ↦ elim (Bool-cases (worktree_dir_gone v.is_gone route)) [
        | inl a ↦ absurd (cc (rw (recover_managed_route, a) at h))
        | inr a ↦ elim (Bool-cases v.auto_starting) [
          | inl b ↦ absurd (cc (rw (recover_managed_route, a, b) at h))
          | inr b ↦
              let idle = write d name (normalized v.around.system) in
              let s = idle.server in
              let known : Daemon = record idle {
                server = record s { procs = (adopt s.procs name pid).0 };
              } in
              let now = adopted_as v.around.now pid (normalized v.around.system route) in
              rw (recover_managed_route, a, b, e)
                (
                  now,
                  get-write known name (adopted_as v.around.now pid)
                      (normalized v.around.system route)
                      (get-write d name (normalized v.around.system) route g),
                  refl,
                )
        ]
      ]
    ]
