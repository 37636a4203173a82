-- ===== src/Handlers/Stop.antt =====
-- Stopping a route on purpose (internal/daemon/api.go, `handleStop`).
use local_vibe.Base.{
  false, ℕ, ◌≡◌, ◌∙◌, refl, inl, inr, Bool-cases, Option-cases, none, some, Text, arith,
  if◌then◌else◌, text_eq, text_eq_refl, lookup,
}
use local_vibe.Routes.{Route, Failure, get, update, is_managed}
use local_vibe.Routes.Lookup.{get-update}
use local_vibe.Procs.{stop}
use local_vibe.Procs.Start.{stop_forgets}
use local_vibe.Timers.{Server, handle_managed_exit}
use local_vibe.Timers.Sync.{IsSynced}
use local_vibe.Timers.Idle.{update-IsSynced}
use local_vibe.Timers.Exit.{after_exit, handle_managed_exit_lem}
use local_vibe.Handlers.{Daemon, Surroundings, done, stopped, handle_stop}

-- The exit of a stopped process changes nothing more.
after_exit-stopped :
    (scanned : Failure) (pid : ℕ) (r : Route)
    → after_exit scanned pid (some (stopped r)) ≡ some (stopped r)
after_exit-stopped scanned pid r = elim (Bool-cases (is_managed r.type)) [
  | inr e ↦ rw e refl
  | inl e ↦ elim (Option-cases r.last_failure) [
    | inl f ↦ rw (e, f) refl
    | inr (x, f) ↦ rw (e, f) refl
  ]
]

handle_stop_server :
    (e : Surroundings) (d : Daemon) (name : Text) (route : Route)
    → get d.server.table name ≡ some route
    → let s : Server = d.server in
      ((handle_stop e d name).0 ≡ done)
      × ((handle_stop e d name).1.server
          ≡ record s { table = (update s.table name stopped).0; procs = (stop s.procs name).0 })
unfolding handle_stop
handle_stop_server e d name route f = rw (f, handle_stop) (refl, refl)

-- Stopping a known route succeeds. The route is then not running, not ready and without a PID, every other route is
-- as it was, the process manager has forgotten the name, and no timer is lost. The exit of the stopped process that
-- follows, whatever its PID and log, changes the route no more: in particular it seeds no failure.
pub handle_stop_lem :
    (e : Surroundings) (d : Daemon) (name : Text) (route : Route)
    → IsSynced d.server
    → get d.server.table name ≡ some route
    → ((handle_stop e d name).0 ≡ done)
      × IsSynced (handle_stop e d name).1.server
      × ((n : Text)
          → get (handle_stop e d name).1.server.table n ≡ (
              if text_eq name n
              then some (record route { running = false; ready = false; pid = none })
              else get d.server.table n))
      × (lookup name (handle_stop e d name).1.server.procs.procs ≡ none)
      × (lookup name (handle_stop e d name).1.server.procs.adopted ≡ none)
      × ((scanned : Failure) (pid : ℕ)
          → get (handle_managed_exit scanned name pid (handle_stop e d name).1.server).table name
            ≡ some (record route { running = false; ready = false; pid = none }))
handle_stop_lem e d name route h f =
    let s : Server = d.server in
    let s' : Server = record s {
      table = (update s.table name stopped).0;
      procs = (stop s.procs name).0;
    } in
    let (ok_, server) = handle_stop_server e d name route f in
    let synced : IsSynced s' =
      update-IsSynced name stopped (stop s.procs name).0 s (λ r. refl) (λ r. refl) (λ r. refl) h in
    let forgets = stop_forgets s.procs name name in
    let there : (n : Text)
        → get s'.table n ≡ (
            if text_eq name n
            then some (record route { running = false; ready = false; pid = none })
            else get s.table n) =
      λ n. ground (arith, (get-update s.table name stopped n).0) in
    let mine : get s'.table name
        ≡ some (record route { running = false; ready = false; pid = none }) =
      there name ∙ rw (text_eq_refl name) refl in
    rw server (
      ok_,
      synced,
      there,
      forgets.0 ∙ rw (text_eq_refl name) refl,
      forgets.1 ∙ rw (text_eq_refl name) refl,
      λ scanned pid.
          (handle_managed_exit_lem scanned name pid s' synced).1 name
          ∙ rw (text_eq_refl name, mine) (after_exit-stopped scanned pid route),
    )
