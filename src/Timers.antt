-- ===== src/Timers.antt =====
-- internal/daemon/managed_timers.go and managed_exit.go: the watchers of a route's life.
-- The state is the table with its hooks set, the pending timers by name with the time at which they
-- fire, and the process manager. A timer that has fired keeps its entry, as in the code, until the
-- hook removes it or a new timer takes its place. The body of a timer may run at any time after it
-- was armed, so `fire_ttl` and `idle_check` are functions of any state. Times are nanoseconds; a
-- last activity in the future is an idle time below zero, which the additions below allow for.
pub mod Sync
pub mod Ttl
pub mod Idle
pub mod Exit
pub mod Tables
mod Tests
use local_vibe.Base.{
  ℕ, ◌+◌, ◌-◌, ◌*◌, Bool, true, false, ◌&&◌, ◌||◌, not, Option, none, some, List, [], ◌∷◌, Text,
  codes, if◌then◌else◌, ◌==◌, leb, ltb, lookup, insert, erase, has_key,
}
use local_vibe.Routes.{
  Route, RouteTable, HookCall, added, removed, Failure, RouteType, pid_tracked, is_managed, is_ttl,
  get, add, remove, update, last_activity_or, clear_pid,
}
use local_vibe.Procs.{ProcessManager, stop}

pub record Server : Type 0 where
  pub table : RouteTable
  pub ttl_timers : List (Text × ℕ)
  pub idle_timers : List (Text × ℕ)
  pub procs : ProcessManager
  pub watched : List (Text × ℕ)

abbrev pub second : ℕ
second = 1000000000

abbrev pub minutes : ℕ → ℕ
minutes n = n * 60 * second

-- `time.Until`, not below zero.
pub arm_ttl : ℕ → Text → ℕ → Server → Server
arm_ttl now name expires s = record s {
  ttl_timers = insert name (now + (expires - now)) s.ttl_timers;
}

unfoldable pub arm_idle : ℕ → Text → Server → Server
arm_idle now name s = elim (get s.table name) [
  | none ↦ s
  | some route ↦
      if not (is_managed route.type) || route.idle_timeout == 0
      then s
      else record s { idle_timers = insert name (now + minutes route.idle_timeout) s.idle_timers }
]

unfoldable pub on_route_removed : Text → Server → Server
on_route_removed name s = record s {
  ttl_timers = erase name s.ttl_timers;
  idle_timers = erase name s.idle_timers;
}

-- `table.Remove`, and the hook that it calls.
pub remove_route : Text → Server → Server
unfolding on_route_removed
remove_route name s =
    let (t, was, calls) = remove s.table name in
    let s' = record s { table = t } in if was && t.on_remove then on_route_removed name s' else s'

-- `watchTrackedPID`: gone at once, or watched.
pub watch_tracked_pid : (ℕ → Bool) → Text → ℕ → Server → Server
unfolding remove_route
watch_tracked_pid alive name pid s =
    if not (alive pid) then remove_route name s else record s { watched = (name, pid) ∷ s.watched }

-- The callback of that watch.
pub tracked_exit : Text → ℕ → Server → Server
unfolding remove_route
tracked_exit name pid s = elim (get s.table name) [
  | none ↦ s
  | some r ↦ elim r.pid [ none ↦ s | some cur ↦ if cur == pid then remove_route name s else s ]
]

abbrev pub is_tracked : RouteType → Bool
is_tracked pid_tracked = true
is_tracked _ = false

-- The `switch` of `onRouteAdded`; only the first case that applies is taken.
unfoldable pub on_untimed_added : ℕ → (ℕ → Bool) → Route → Server → Server
unfolding arm_idle watch_tracked_pid
on_untimed_added now alive r s =
    if is_managed r.type && ltb 0 r.idle_timeout then arm_idle now r.name s else elim r.pid [
      | none ↦ s
      | some pid ↦ if is_tracked r.type then watch_tracked_pid alive r.name pid s else s
    ]

unfoldable pub on_route_added : ℕ → (ℕ → Bool) → Route → Server → Server
unfolding arm_ttl on_untimed_added
on_route_added now alive r s = elim r.expires_at [
  | none ↦ on_untimed_added now alive r s
  | some expires ↦
      if is_ttl r.type then arm_ttl now r.name expires s else on_untimed_added now alive r s
]

unfoldable pub run_hook : ℕ → (ℕ → Bool) → HookCall → Server → Server
unfolding on_route_added on_route_removed
run_hook now alive (added r) s = on_route_added now alive r s
run_hook now alive (removed name) s = on_route_removed name s

unfoldable pub run_hooks : ℕ → (ℕ → Bool) → List HookCall → Server → Server
unfolding run_hook
run_hooks now alive [] s = s
run_hooks now alive (c ∷ cs) s = run_hooks now alive cs (run_hook now alive c s)

-- `table.Add`, and the hooks that it calls.
unfoldable pub add_route : ℕ → (ℕ → Bool) → Route → Server → Server
unfolding run_hooks
add_route now alive r s =
    let (t, calls) = add s.table r in run_hooks now alive calls (record s { table = t })

-- Whether a route is a TTL registration past its deadline.
abbrev pub is_expired : ℕ → Route → Bool
is_expired now r = elim r.expires_at [
  | none ↦ false
  | some expires ↦ is_ttl r.type && not (ltb now expires)
]

-- The body of the timer that `armTTL` starts.
pub fire_ttl : ℕ → Text → Server → Server
unfolding remove_route
fire_ttl now name s = elim (get s.table name) [
  | none ↦ s
  | some r ↦ if is_expired now r then remove_route name s else s
]

-- `rearmIdle` with the delay `d`.
pub rearm_idle : ℕ → Text → ℕ → Server → Server
rearm_idle now name d s =
    let delay = if ltb d second then second else d in
    if has_key name s.idle_timers
    then record s { idle_timers = insert name (now + delay) s.idle_timers }
    else s

-- The fields that an idle stop writes.
abbrev pub idle_stopped : Route → Route
idle_stopped r = record r { running = false; ready = false; pid = none }

-- The body of an idle timer.
pub idle_check : ℕ → Text → Server → Server
unfolding rearm_idle
idle_check now name s = elim (get s.table name) [
  | none ↦ s
  | some route ↦
      let timeout = minutes route.idle_timeout in
      let since = last_activity_or route route.registered_at in
      let stopped = record s {
        table = (update s.table name idle_stopped).0;
        procs = (stop s.procs name).0;
      } in
      if not (is_managed route.type) || route.idle_timeout == 0
      then s
      else if not route.running
      then rearm_idle now name timeout s
      else if leb (since + timeout) now
      then rearm_idle now name timeout stopped
      else rearm_idle now name (since + timeout - now) s
]

-- Whether the exit of `pid` is that of the process which the route has now; 0 is no PID.
abbrev pub is_current : ℕ → Option ℕ → Bool
is_current pid none = true
is_current pid (some cur) = pid == 0 || cur == pid

-- What `handleManagedExit` writes. `scanned` is the failure that it reads from the log.
abbrev pub exited : Failure → Route → Route
exited scanned r = record r {
  running = false;
  ready = false;
  pid = none;
  last_failure = elim r.last_failure [
    | some f ↦ some f
    | none ↦ if r.running then some scanned else none
  ];
}

pub handle_managed_exit : Failure → Text → ℕ → Server → Server
handle_managed_exit scanned name pid s = elim (get s.table name) [
  | none ↦ s
  | some r ↦
      if not (is_managed r.type)
      then s
      else if is_current pid r.pid
      then record s { table = (update s.table name (exited scanned)).0 }
      else s
]
