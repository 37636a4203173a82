-- ===== src/Recover/Beyond.antt =====
-- A start touches no route but its own (internal/daemon/autostart.go, `startManagedNow`).
use local_vibe.Base.{
  false, ◌≡◌, refl, inl, inr, Bool-cases, Option-cases, some, Result-cases, [], ◌∷◌, ◌++◌, Text,
  ◌==◌,
}
use local_vibe.Routes.{Route}
use local_vibe.Procs.{start}
use local_vibe.Ports.{check_vibe_port_collisions, reserve_port_values_sorted, find_free_port}
use local_vibe.Handlers.{Daemon}
use local_vibe.Recover.{
  Visit, preflight_ports, spawned, write, failed_with, not_started, launch_now, start_on_port,
  start_managed_now,
}
use local_vibe.Register.Added.{IsBeyond, IsBeyond-trans, write_entry-IsBeyond, procs-IsBeyond}

write-IsBeyond :
    (d : Daemon) (name : Text) (f : Route → Route)
    → ((r : Route) → (f r).type ≡ r.type)
    → ((r : Route) → (f r).expires_at ≡ r.expires_at)
    → ((r : Route) → (f r).idle_timeout ≡ r.idle_timeout)
    → IsBeyond name d.server (write d name f).server
write-IsBeyond d name f a b c = write_entry-IsBeyond name f d.server.procs d.server a b c

launch_now-IsBeyond :
    (v : Visit) (d : Daemon) (name : Text) (r : Route)
    → IsBeyond name d.server (launch_now v d name r).1.server
unfolding launch_now
launch_now-IsBeyond v d name r =
    let s = d.server in
    let pm = (start v.around.system s.procs r).0 in
    let d1 : Daemon = record d { server = record s { procs = pm } } in
    let known = procs-IsBeyond name pm s in
    elim (Result-cases (start v.around.system s.procs r).1) [
      | inl (x, e) ↦
          rw (e, launch_now)
            (IsBeyond-trans name s d1.server _ known (
              write-IsBeyond d1 name
                (λ r. record r {
                  running = false;
                  ready = false;
                  last_failure = some (v.tell (not_started x));
                })
                (λ x. refl) (λ x. refl) (λ x. refl)))
      | inr (pid, e) ↦
          rw (e, launch_now)
            (IsBeyond-trans name s d1.server _ known (
              write-IsBeyond d1 name (spawned v.around.now pid) (λ x. refl) (λ x. refl)
                (λ x. refl)))
    ]

start_on_port-IsBeyond :
    (v : Visit) (d : Daemon) (name : Text) (r : Route)
    → IsBeyond name d.server (start_on_port v d name r).1.server
unfolding start_on_port
start_on_port-IsBeyond v d name r =
    let held =
      (preflight_ports v.around.system v.later d.server.procs
        (reserve_port_values_sorted r.reserve_ports ++ ([], r.port) ∷ [])).0 in
    elim (Option-cases (check_vibe_port_collisions v.around.config d.server.table r)) [
      | inr (c, e) ↦
          rw (e, start_on_port)
            (write-IsBeyond d name (failed_with _) (λ x. refl) (λ x. refl) (λ x. refl))
      | inl e ↦ elim (Option-cases held) [
        | inr (x, f) ↦
            rw (e, start_on_port, f)
              (write-IsBeyond d name (failed_with _) (λ x. refl) (λ x. refl) (λ x. refl))
        | inl f ↦ rw (e, start_on_port, f) (launch_now-IsBeyond v d name r)
      ]
    ]

-- A start, refused or not, leaves every route but its own as it was, and the timers in step with the table.
pub start_managed_now-IsBeyond :
    (v : Visit) (d : Daemon) (name : Text) (r : Route)
    → IsBeyond name d.server (start_managed_now v d name r).1.server
unfolding start_managed_now
start_managed_now-IsBeyond v d name r = elim (Bool-cases (r.port == 0)) [
  | inr z ↦ rw (z, start_managed_now) (start_on_port-IsBeyond v d name r)
  | inl z ↦ elim (Option-cases (find_free_port v.around.bindable v.fallback d.server.table)) [
    | inl p ↦
        rw (z, start_managed_now, p)
          (write-IsBeyond d name (failed_with _) (λ x. refl) (λ x. refl) (λ x. refl))
    | inr (port, p) ↦
        let d1 = write d name (λ r. record r { port = port }) in
        rw (z, start_managed_now, p)
          (IsBeyond-trans name d.server d1.server _
            (write-IsBeyond d name (λ r. record r { port = port }) (λ x. refl) (λ x. refl)
              (λ x. refl))
            (start_on_port-IsBeyond v d1 name (record r { port = port })))
  ]
]
