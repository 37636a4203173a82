-- ===== src/Timers/Tables.antt =====
-- What the hooked operations of internal/daemon/managed_timers.go leave of the table.
use local_vibe.Base.{
  ℕ, Bool, false, ◌&&◌, ◌≡◌, ◌∙◌, refl, inl, inr, Bool-cases, Option-cases, some, Text, arith,
  if◌then◌else◌, ltb, text_eq, has_key,
}
use local_vibe.Routes.{Route, get, add, remove, is_managed, is_ttl}
use local_vibe.Routes.Lookup.{get-add}
use local_vibe.Timers.Ttl.{get-remove_route}
use local_vibe.Timers.{
  Server, is_tracked, arm_ttl, arm_idle, on_route_removed, on_untimed_added, on_route_added,
  run_hook, run_hooks, add_route, remove_route, watch_tracked_pid,
}

arm_idle-table : (now : ℕ) (name : Text) (s : Server) → (arm_idle now name s).table ≡ s.table
unfolding arm_idle
arm_idle-table now name s = ground arith

on_untimed_added-table :
    (now : ℕ) (alive : ℕ → Bool) (r : Route) (s : Server)
    → is_tracked r.type ≡ false
    → (on_untimed_added now alive r s).table ≡ s.table
unfolding on_untimed_added
on_untimed_added-table now alive r s h =
    elim (Bool-cases (is_managed r.type && ltb 0 r.idle_timeout)) [
      | inl e ↦ rw e (arm_idle-table now r.name s)
      | inr e ↦ elim (Option-cases r.pid) [
        | inl p ↦ rw (e, p) refl
        | inr (pid, p) ↦ rw (e, p, h) refl
      ]
    ]

on_route_added-table :
    (now : ℕ) (alive : ℕ → Bool) (r : Route) (s : Server)
    → is_tracked r.type ≡ false
    → (on_route_added now alive r s).table ≡ s.table
unfolding on_route_added arm_ttl
on_route_added-table now alive r s h = elim (Option-cases r.expires_at) [
  | inl e ↦ rw e (on_untimed_added-table now alive r s h)
  | inr (x, e) ↦ elim (Bool-cases (is_ttl r.type)) [
    | inl t ↦ rw (e, t) refl
    | inr t ↦ rw (e, t) (on_untimed_added-table now alive r s h)
  ]
]

-- Adding a route that is not tied to a process stores it, whatever the hooks do.
pub get-add_route :
    (now : ℕ) (alive : ℕ → Bool) (r : Route) (s : Server) (n : Text)
    → is_tracked r.type ≡ false
    → get (add_route now alive r s).table n ≡ (if text_eq r.name n then some r else get s.table n)
unfolding add_route add run_hooks run_hook on_route_removed get
get-add_route now alive r s n h =
    elim (Bool-cases (has_key r.name s.table.routes && s.table.on_remove)) [
      | inl a ↦ elim (Bool-cases s.table.on_add) [
        | inl b ↦ rw (add_route, a, b, on_route_added-table now alive r _ h) (get-add s.table r n)
        | inr b ↦ rw (add_route, a, b) (get-add s.table r n)
      ]
      | inr a ↦ elim (Bool-cases s.table.on_add) [
        | inl b ↦ rw (add_route, a, b, on_route_added-table now alive r _ h) (get-add s.table r n)
        | inr b ↦ rw (add_route, a, b) (get-add s.table r n)
      ]
    ]

-- The hooks of an added route touch no route but it: only the watch of a dead process removes one.
on_untimed_added-others :
    (now : ℕ) (alive : ℕ → Bool) (r : Route) (s : Server) (n : Text)
    → text_eq r.name n ≡ false
    → get (on_untimed_added now alive r s).table n ≡ get s.table n
unfolding on_untimed_added arm_idle watch_tracked_pid
on_untimed_added-others now alive r s n h =
    elim (Bool-cases (is_managed r.type && ltb 0 r.idle_timeout)) [
      | inl e ↦ rw e (ground arith)
      | inr e ↦ elim (Option-cases r.pid) [
        | inl p ↦ rw (e, p) refl
        | inr (pid, p) ↦ rw (e, p) (ground (arith, get-remove_route r.name n s))
      ]
    ]

on_route_added-others :
    (now : ℕ) (alive : ℕ → Bool) (r : Route) (s : Server) (n : Text)
    → text_eq r.name n ≡ false
    → get (on_route_added now alive r s).table n ≡ get s.table n
unfolding on_route_added arm_ttl
on_route_added-others now alive r s n h = elim (Option-cases r.expires_at) [
  | inl e ↦ rw e (on_untimed_added-others now alive r s n h)
  | inr (x, e) ↦ elim (Bool-cases (is_ttl r.type)) [
    | inl t ↦ rw (e, t) refl
    | inr t ↦ rw (e, t) (on_untimed_added-others now alive r s n h)
  ]
]

-- Adding a route, whatever its type and whatever the hooks do, leaves the routes of other names as they were.
pub get-add_route_other :
    (now : ℕ) (alive : ℕ → Bool) (r : Route) (s : Server) (n : Text)
    → text_eq r.name n ≡ false
    → get (add_route now alive r s).table n ≡ get s.table n
unfolding add_route add run_hooks run_hook on_route_removed get
get-add_route_other now alive r s n h =
    let kept = get-add s.table r n ∙ rw h refl in
    elim (Bool-cases (has_key r.name s.table.routes && s.table.on_remove)) [
      | inl a ↦ elim (Bool-cases s.table.on_add) [
        | inl b ↦ rw (add_route, a, b) (on_route_added-others now alive r _ n h ∙ kept)
        | inr b ↦ rw (add_route, a, b) kept
      ]
      | inr a ↦ elim (Bool-cases s.table.on_add) [
        | inl b ↦ rw (add_route, a, b) (on_route_added-others now alive r _ n h ∙ kept)
        | inr b ↦ rw (add_route, a, b) kept
      ]
    ]

-- The operations on routes and their hooks start and stop no process.
pub remove_route-procs : (name : Text) (s : Server) → (remove_route name s).procs ≡ s.procs
unfolding remove_route
remove_route-procs name s =
    elim (Bool-cases ((remove s.table name).1 && (remove s.table name).0.on_remove)) [
      | inl e ↦ rw (e, remove_route) refl
      | inr e ↦ rw (e, remove_route) refl
    ]

on_untimed_added-procs :
    (now : ℕ) (alive : ℕ → Bool) (r : Route) (s : Server)
    → (on_untimed_added now alive r s).procs ≡ s.procs
unfolding on_untimed_added arm_idle watch_tracked_pid
on_untimed_added-procs now alive r s =
    elim (Bool-cases (is_managed r.type && ltb 0 r.idle_timeout)) [
      | inl e ↦ rw e (ground arith)
      | inr e ↦ elim (Option-cases r.pid) [
        | inl p ↦ rw (e, p) refl
        | inr (pid, p) ↦ rw (e, p) (ground (arith, remove_route-procs r.name s))
      ]
    ]

on_route_added-procs :
    (now : ℕ) (alive : ℕ → Bool) (r : Route) (s : Server)
    → (on_route_added now alive r s).procs ≡ s.procs
unfolding on_route_added arm_ttl
on_route_added-procs now alive r s = elim (Option-cases r.expires_at) [
  | inl e ↦ rw e (on_untimed_added-procs now alive r s)
  | inr (x, e) ↦ elim (Bool-cases (is_ttl r.type)) [
    | inl t ↦ rw (e, t) refl
    | inr t ↦ rw (e, t) (on_untimed_added-procs now alive r s)
  ]
]

pub add_route-procs :
    (now : ℕ) (alive : ℕ → Bool) (r : Route) (s : Server)
    → (add_route now alive r s).procs ≡ s.procs
unfolding add_route add run_hooks run_hook on_route_removed
add_route-procs now alive r s =
    elim (Bool-cases (has_key r.name s.table.routes && s.table.on_remove)) [
      | inl a ↦ elim (Bool-cases s.table.on_add) [
        | inl b ↦ rw (add_route, a, b) (on_route_added-procs now alive r _)
        | inr b ↦ rw (add_route, a, b) refl
      ]
      | inr a ↦ elim (Bool-cases s.table.on_add) [
        | inl b ↦ rw (add_route, a, b) (on_route_added-procs now alive r _)
        | inr b ↦ rw (add_route, a, b) refl
      ]
    ]
