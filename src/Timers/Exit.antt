-- ===== src/Timers/Exit.antt =====
-- The exit of a managed app (internal/daemon/managed_exit.go, `handleManagedExit`).
use local_vibe.Base.{
  false, is_some, ℕ, ◌&&◌, ◌≡◌, refl, inl, inr, Bool-cases, Option-cases, Option, none, some, Text,
  arith, if◌then◌else◌, text_eq, text_eq_iff,
}
use local_vibe.Routes.{Route, Failure, get, is_managed}
use local_vibe.Routes.Lookup.{get-update}
use local_vibe.Timers.{Server, handle_managed_exit, exited, is_current}
use local_vibe.Timers.Sync.{IsSynced}
use local_vibe.Timers.Idle.{update-IsSynced}

-- What the exit of process `pid` leaves of the route that a name has.
abbrev pub after_exit : Failure → ℕ → Option Route → Option Route
after_exit scanned pid none = none
after_exit scanned pid (some r) =
    if is_managed r.type && is_current pid r.pid
    then some (record r {
      running = false;
      ready = false;
      pid = none;
      last_failure =
          if is_some r.last_failure
          then r.last_failure
          else if r.running
          then some scanned
          else none;
    })
    else some r

-- When a process exits, the managed route of its name, if it still has that process (or none, or the
-- PID is unknown), is no longer running and ready and has no PID; its failure is the one it had, or else the
-- scanned one if it was running. A stale exit, after a restart took another PID, changes nothing; nor
-- does the exit of an app that is not managed; other routes are as they were, and no timer is lost.
pub handle_managed_exit_lem :
    (scanned : Failure) (name : Text) (pid : ℕ) (s : Server)
    → IsSynced s
    → IsSynced (handle_managed_exit scanned name pid s)
      × ((n : Text)
          → get (handle_managed_exit scanned name pid s).table n
            ≡ (if text_eq name n then after_exit scanned pid (get s.table n) else get s.table n))
unfolding handle_managed_exit
handle_managed_exit_lem scanned name pid s h = elim (Option-cases (get s.table name)) [
  | inl e ↦ rw (e, handle_managed_exit) (h, λ n. ground (arith, text_eq_iff name n))
  | inr (r, e) ↦ elim (Bool-cases (is_managed r.type)) [
    | inr a ↦ rw (e, handle_managed_exit, a) (h, λ n. ground (arith, text_eq_iff name n))
    | inl a ↦ elim (Bool-cases (is_current pid r.pid)) [
      | inr b ↦ rw (e, handle_managed_exit, a, b) (h, λ n. ground (arith, text_eq_iff name n))
      | inl b ↦
          rw (e, handle_managed_exit, a, b)
            (
              update-IsSynced name (exited scanned) s.procs s (λ r. refl) (λ r. refl) (λ r. refl) h,
              λ n.
                  ground
                    (arith, text_eq_iff name n, (get-update s.table name (exited scanned) n).0),
            )
    ]
  ]
]
