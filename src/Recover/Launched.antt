-- ===== src/Recover/Launched.antt =====
-- A start of a route that has its port, when it succeeds (internal/daemon/autostart.go, `startManagedNow`).
use local_vibe.Base.{
  ℕ, false, ◌≡◌, ◌∙◌, refl, inl, inr, Bool-cases, Option-cases, none, some, ok, Result-cases, [],
  ◌∷◌, ◌++◌, Text, ◌==◌, text_eq, text_eq_refl,
}
use local_vibe.Routes.{Route, get}
use local_vibe.Routes.Lookup.{get-update}
use local_vibe.Procs.{ProcessManager, start}
use local_vibe.Ports.{check_vibe_port_collisions, reserve_port_values_sorted, find_free_port}
use local_vibe.Store.{save_sticky_routes}
use local_vibe.Handlers.{Daemon}
use local_vibe.Recover.{
  Visit, preflight_ports, spawned, write, launch_now, start_on_port, start_managed_now,
}

pub get-write :
    (d : Daemon) (name : Text) (f : Route → Route) (r : Route)
    → get d.server.table name ≡ some r
    → get (write d name f).server.table name ≡ some (f r)
get-write d name f r h = (get-update d.server.table name f name).0 ∙ rw (text_eq_refl name, h) refl

pub get-write_other :
    (d : Daemon) (name : Text) (f : Route → Route) (n : Text)
    → text_eq name n ≡ false
    → get (write d name f).server.table n ≡ get d.server.table n
get-write_other d name f n h = (get-update d.server.table name f n).0 ∙ rw h refl

-- Every route but one is as it was.
abbrev pub SameOthers : Text → Daemon → Daemon → Type 0
SameOthers name d d' =
    (n : Text) → text_eq name n ≡ false → get d'.server.table n ≡ get d.server.table n

-- `d'` is `d` after the launch of the route as `r` by a manager: it runs as the process that the manager's start gave,
-- no port of it belongs to another route or to the daemon or is held by a process that the manager does not know, and
-- the file says so.
abbrev pub IsLaunched : Visit → ProcessManager → Daemon → Route → Daemon → Type 0
IsLaunched v pm d r d' =
    (pid : ℕ) × (get d'.server.table r.name ≡ some (spawned v.around.now pid r))
    × (start v.around.system pm r ≡ (d'.server.procs, ok pid))
    × (check_vibe_port_collisions v.around.config d.server.table r ≡ none)
    × ((preflight_ports v.around.system v.later pm
          (reserve_port_values_sorted r.reserve_ports ++ ([], r.port) ∷ [])).0
        ≡ none)
    × (d'.saved ≡ save_sticky_routes d'.server.table)

launch_now_done :
    (v : Visit) (d : Daemon) (r : Route)
    → get d.server.table r.name ≡ some r
    → (launch_now v d r.name r).0 ≡ none
    → let d' = (launch_now v d r.name r).1 in
      (pid : ℕ) × (get d'.server.table r.name ≡ some (spawned v.around.now pid r))
      × (start v.around.system d.server.procs r ≡ (d'.server.procs, ok pid))
      × (d'.saved ≡ save_sticky_routes d'.server.table)
      × SameOthers r.name d d'
unfolding launch_now
launch_now_done v d r g h = elim (Result-cases (start v.around.system d.server.procs r).1) [
  | inl (x, e) ↦ absurd (cc (rw (launch_now, e) at h))
  | inr (pid, e) ↦
      let s = d.server in
      let d1 : Daemon = record d {
        server = record s { procs = (start v.around.system s.procs r).0 };
      } in
      rw (launch_now, e)
        (
          pid,
          get-write d1 r.name (spawned v.around.now pid) r g,
          refl,
          refl,
          get-write_other d1 r.name (spawned v.around.now pid),
        )
]

pub start_on_port-IsLaunched :
    (v : Visit) (d : Daemon) (r : Route)
    → get d.server.table r.name ≡ some r
    → (start_on_port v d r.name r).0 ≡ none
    → let d' = (start_on_port v d r.name r).1 in
      IsLaunched v d.server.procs d r d' × SameOthers r.name d d'
unfolding start_on_port
start_on_port-IsLaunched v d r g h =
    let held =
      (preflight_ports v.around.system v.later d.server.procs
        (reserve_port_values_sorted r.reserve_ports ++ ([], r.port) ∷ [])).0 in
    elim (Option-cases (check_vibe_port_collisions v.around.config d.server.table r)) [
      | inr (c, e) ↦ absurd (cc (rw (start_on_port, e) at h))
      | inl e ↦ elim (Option-cases held) [
        | inr (x, f) ↦ absurd (cc (rw (start_on_port, e, f) at h))
        | inl f ↦
            let (pid, stored, launched, saved, others) =
              launch_now_done v d r g (rw (start_on_port, e, f) at h) in
            rw (start_on_port, e, f) ((pid, stored, launched, refl, refl, saved), others)
      ]
    ]

-- A start that succeeds has launched the route with its port, or with one that was found.
pub start_managed_now-IsLaunched :
    (v : Visit) (d : Daemon) (r : Route)
    → get d.server.table r.name ≡ some r
    → (start_managed_now v d r.name r).0 ≡ none
    → (d1 : Daemon) × (port : ℕ) × IsLaunched v d.server.procs d1
        (record r { port = port })
        (start_managed_now v d r.name r).1
unfolding start_managed_now
start_managed_now-IsLaunched v d r g h = elim (Bool-cases (r.port == 0)) [
  | inr z ↦
      rw (z, start_managed_now)
        (d, r.port, (start_on_port-IsLaunched v d r g (rw (start_managed_now, z) at h)).0)
  | inl z ↦ elim (Option-cases (find_free_port v.around.bindable v.fallback d.server.table)) [
    | inl p ↦ absurd (cc (rw (start_managed_now, z, p) at h))
    | inr (port, p) ↦
        let d1 = write d r.name (λ x. record x { port = port }) in
        rw (z, start_managed_now, p)
          (
            d1,
            port,
            (start_on_port-IsLaunched v d1 (record r { port = port })
                (get-write d r.name (λ x. record x { port = port }) r g)
                (rw (start_managed_now, z, p) at h)).0,
          )
  ]
]

-- The same of a route that is started under a name which is its own.
pub start_managed_now-IsLaunched_named :
    (v : Visit) (d : Daemon) (name : Text) (r : Route)
    → r.name ≡ name
    → get d.server.table name ≡ some r
    → (start_managed_now v d name r).0 ≡ none
    → (d1 : Daemon) × (port : ℕ) × IsLaunched v d.server.procs d1
        (record r { port = port })
        (start_managed_now v d name r).1
start_managed_now-IsLaunched_named v d name r same =
    rw (← same) (start_managed_now-IsLaunched v d r)
