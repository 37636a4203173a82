-- ===== src/Timers/Idle.antt =====
-- The idle timers of internal/daemon/managed_timers.go (`armIdle`, `rearmIdle`).
use local_vibe.Base.{
  ℕ, ◌+◌, ◌-◌, ◌<◌, ◌≤◌, Bool, true, false, ◌&&◌, ◌||◌, not, ◌≡◌, refl, inl, inr, Bool-cases,
  Option-cases, Option, none, some, Text, arith, if◌then◌else◌, ◌==◌, leb, ltb, lookup, has_key,
  lookup-insert, text_eq, text_eq_iff,
}
use local_vibe.Routes.{Route, get, update, is_managed, last_activity_or}
use local_vibe.Routes.Lookup.{get-update, update-SameHooks}
use local_vibe.Procs.{ProcessManager, stop}
use local_vibe.Timers.{Server, rearm_idle, idle_check, idle_stopped, minutes, second}
use local_vibe.Timers.Sync.{IsSynced}

abbrev pub idle_deadline : Route → ℕ
idle_deadline r = last_activity_or r r.registered_at + minutes r.idle_timeout

-- Whether an idle check stops the app that a name has.
abbrev pub stops : ℕ → Route → Bool
stops now r = is_managed r.type && ltb 0 r.idle_timeout && r.running && leb (idle_deadline r) now

abbrev pub after_check : ℕ → Option Route → Option Route
after_check now none = none
after_check now (some r) =
    if stops now r then some (record r { running = false; ready = false; pid = none }) else some r

rearm_idle-table :
    (now : ℕ) (name : Text) (d : ℕ) (s : Server) → (rearm_idle now name d s).table ≡ s.table
unfolding rearm_idle
rearm_idle-table now name d s = ground arith

-- Rearming changes the time of a pending timer and nothing else.
rearm_idle-IsSynced :
    (now : ℕ) (name : Text) (d : ℕ) (s : Server) → IsSynced s → IsSynced (rearm_idle now name d s)
unfolding rearm_idle
rearm_idle-IsSynced now name d s h = elim (Bool-cases (has_key name s.idle_timers)) [
  | inl e ↦
      let at = now + (if ltb d second then second else d) in
      rw e (record {
        hook_add = h.hook_add;
        hook_remove = h.hook_remove;
        ttl_match = h.ttl_match;
        idle_match = λ n. ground (
          arith,
          lookup-insert name n at s.idle_timers,
          text_eq_iff name n,
          h.idle_match n,
          h.idle_match name,
        );
      })
  | inr e ↦ rw e h
]

-- A write to a route that keeps its type, deadline and idle timeout keeps the timers in step.
pub update-IsSynced :
    (name : Text) (f : Route → Route) (procs : ProcessManager) (s : Server)
    → ((r : Route) → (f r).type ≡ r.type)
    → ((r : Route) → (f r).expires_at ≡ r.expires_at)
    → ((r : Route) → (f r).idle_timeout ≡ r.idle_timeout)
    → IsSynced s
    → IsSynced (record s { table = (update s.table name f).0; procs = procs })
update-IsSynced name f procs s a b c h = record {
  hook_add = ground (arith, update-SameHooks s.table name f, h.hook_add);
  hook_remove = ground (arith, update-SameHooks s.table name f, h.hook_remove);
  ttl_match = λ n. elim (Option-cases (get s.table name)) [
    | inl e ↦ ground (arith, (get-update s.table name f n).0, h.ttl_match n, text_eq_iff name n)
    | inr (r, e) ↦
        ground (arith, (get-update s.table name f n).0, h.ttl_match n, text_eq_iff name n, a r, b r)
  ];
  idle_match = λ n. elim (Option-cases (get s.table name)) [
    | inl e ↦ ground (arith, (get-update s.table name f n).0, h.idle_match n, text_eq_iff name n)
    | inr (r, e) ↦
        ground
          (arith, (get-update s.table name f n).0, h.idle_match n, text_eq_iff name n, a r, c r)
  ];
}

checked :
    (now : ℕ) (name : Text) (s : Server)
    → IsSynced s
    → IsSynced (idle_check now name s)
      × ((n : Text)
          → get (idle_check now name s).table n
            ≡ (if text_eq name n then after_check now (get s.table n) else get s.table n))
unfolding idle_check
checked now name s h = elim (Option-cases (get s.table name)) [
  | inl e ↦ rw (e, idle_check) (h, λ n. ground (arith, text_eq_iff name n))
  | inr (r, e) ↦ elim (Bool-cases (not (is_managed r.type) || r.idle_timeout == 0)) [
    | inl a ↦ rw (e, idle_check, a) (h, λ n. ground (arith, text_eq_iff name n))
    | inr a ↦ elim (Bool-cases r.running) [
      | inr b ↦
          rw (e, idle_check, a, b)
            (
              rearm_idle-IsSynced now name (minutes r.idle_timeout) s h,
              λ n.
                  rw (rearm_idle-table now name (minutes r.idle_timeout) s)
                    (ground (arith, text_eq_iff name n)),
            )
      | inl b ↦ elim (Bool-cases (leb (idle_deadline r) now)) [
        | inl c ↦
            rw (e, idle_check, a, b, c)
              (let s' : Server = record s {
                table = (update s.table name idle_stopped).0;
                procs = (stop s.procs name).0;
              } in
                (
                  rearm_idle-IsSynced now name (minutes r.idle_timeout) s' (
                      update-IsSynced name idle_stopped (stop s.procs name).0 s (λ r. refl)
                        (λ r. refl) (λ r. refl) h),
                  λ n. rw (rearm_idle-table now name (minutes r.idle_timeout) s') (
                      ground
                        (arith, text_eq_iff name n, (get-update s.table name idle_stopped n).0)),
                ))
        | inr c ↦
            rw (e, idle_check, a, b, c)
              (
                rearm_idle-IsSynced now name (idle_deadline r - now) s h,
                λ n.
                    rw (rearm_idle-table now name (idle_deadline r - now) s)
                      (ground (arith, text_eq_iff name n)),
              )
      ]
    ]
  ]
]

-- What an idle check leaves of the tracked processes: those of an app that it stops are forgotten, killed as `stop` says.
abbrev pub procs_after : ℕ → Text → Option Route → ProcessManager → ProcessManager
procs_after now name none pm = pm
procs_after now name (some r) pm = if stops now r then (stop pm name).0 else pm

rearm_idle-procs :
    (now : ℕ) (name : Text) (d : ℕ) (s : Server) → (rearm_idle now name d s).procs ≡ s.procs
unfolding rearm_idle
rearm_idle-procs now name d s = ground arith

idle_check-procs :
    (now : ℕ) (name : Text) (s : Server)
    → (idle_check now name s).procs ≡ procs_after now name (get s.table name) s.procs
unfolding idle_check
idle_check-procs now name s = elim (Option-cases (get s.table name)) [
  | inl e ↦ rw (e, idle_check) refl
  | inr (r, e) ↦ elim (Bool-cases (not (is_managed r.type) || r.idle_timeout == 0)) [
    | inl a ↦ rw (e, idle_check, a) (ground arith)
    | inr a ↦ elim (Bool-cases r.running) [
      | inr b ↦ rw (e, idle_check, a, b, rearm_idle-procs) (ground arith)
      | inl b ↦ elim (Bool-cases (leb (idle_deadline r) now)) [
        | inl c ↦ rw (e, idle_check, a, b, c, rearm_idle-procs) (ground arith)
        | inr c ↦ rw (e, idle_check, a, b, c, rearm_idle-procs) (ground arith)
      ]
    ]
  ]
]

-- An idle check, whenever it runs, stops the app of its own name exactly if that is a managed app with
-- an idle timeout, marked as running, whose last activity (or registration) is at least the timeout ago.
-- Every other route is as it was, a stopped one keeps its configuration, and no timer is lost. The process manager
-- stops the process of an app that is stopped, and is left alone otherwise.
pub idle_check_lem :
    (now : ℕ) (name : Text) (s : Server)
    → IsSynced s
    → IsSynced (idle_check now name s)
      × ((n : Text)
          → get (idle_check now name s).table n
            ≡ (if text_eq name n then after_check now (get s.table n) else get s.table n))
      × ((idle_check now name s).procs ≡ procs_after now name (get s.table name) s.procs)
idle_check_lem now name s h =
    let (synced, table) = checked now name s h in (synced, table, idle_check-procs now name s)

rearm_idle-lookup :
    (now : ℕ) (name : Text) (d : ℕ) (s : Server)
    → has_key name s.idle_timers ≡ true
    → lookup name (rearm_idle now name d s).idle_timers
      ≡ some (now + (if ltb d second then second else d))
unfolding rearm_idle
rearm_idle-lookup now name d s h = rw h (
    ground (
      arith,
      lookup-insert name name (now + (if ltb d second then second else d)) s.idle_timers,
      text_eq_iff name name,
    ))

-- The delay until the next check of a managed app.
abbrev pub next_delay : ℕ → Route → ℕ
next_delay now r =
    let d =
      if r.running && not (leb (idle_deadline r) now)
      then idle_deadline r - now
      else minutes r.idle_timeout in
    if ltb d second then second else d

-- Each idle check of a managed app with an idle timeout arms the next one, a second ahead at least: for
-- the time at which a running app will have been idle long enough, and a whole timeout ahead for an
-- app that is stopped or was just stopped.
pub idle_check-rearms :
    (now : ℕ) (name : Text) (r : Route) (s : Server)
    → IsSynced s
    → get s.table name ≡ some r
    → is_managed r.type ≡ true
    → 0 < r.idle_timeout
    → (lookup name (idle_check now name s).idle_timers ≡ some (now + next_delay now r))
      × (second ≤ next_delay now r)
unfolding idle_check
idle_check-rearms now name r s h e m t =
    let pending : has_key name s.idle_timers ≡ true = ground (arith, h.idle_match name) in
    let timed : (not (is_managed r.type) || r.idle_timeout == 0) ≡ false = ground arith in
    (rearmed pending timed, ground arith)
  where
    rearmed :
        has_key name s.idle_timers ≡ true
        → (not (is_managed r.type) || r.idle_timeout == 0) ≡ false
        → lookup name (idle_check now name s).idle_timers ≡ some (now + next_delay now r)
    rearmed pending timed = elim (Bool-cases r.running) [
      | inr b ↦
          rw (e, idle_check, timed, b)
            (rearm_idle-lookup now name (minutes r.idle_timeout) s pending)
      | inl b ↦ elim (Bool-cases (leb (idle_deadline r) now)) [
        | inl c ↦
            rw (e, idle_check, timed, b, c)
              (let s' : Server = record s {
                table = (update s.table name idle_stopped).0;
                procs = (stop s.procs name).0;
              } in
                rearm_idle-lookup now name (minutes r.idle_timeout) s' pending)
        | inr c ↦
            rw (e, idle_check, timed, b, c)
              (rearm_idle-lookup now name (idle_deadline r - now) s pending)
      ]
    ]
