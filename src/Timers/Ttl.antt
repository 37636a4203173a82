-- ===== src/Timers/Ttl.antt =====
-- The TTL timers of internal/daemon/managed_timers.go (`armTTL`).
use local_vibe.Base.{
  ℕ, ◌+◌, ◌-◌, Bool, true, false, ◌&&◌, ◌≡◌, refl, inl, inr, Bool-cases, Option-cases, Option, none,
  some, List, Text, arith, if◌then◌else◌, ltb, lookup, erase, lookup-insert, text_eq, text_eq_iff,
  is_some,
}
use local_vibe.Routes.{Route, get, is_ttl}
use local_vibe.Routes.Lookup.{get-add, get-remove, add-calls}
use local_vibe.Timers.{
  Server, arm_ttl, on_route_removed, remove_route, on_route_added, run_hook, run_hooks, add_route,
  fire_ttl, is_expired,
}
use local_vibe.Timers.Sync.{IsSynced, remove_route-IsSynced}

pub get-remove_route :
    (name n : Text) (s : Server)
    → get (remove_route name s).table n ≡ (if text_eq name n then none else get s.table n)
unfolding remove_route on_route_removed
get-remove_route name n s = ground (arith, (get-remove s.table name n).0)

-- Whether the timer's body drops the route that a name has.
abbrev pub drops : ℕ → Option Route → Bool
drops now none = false
drops now (some r) = is_expired now r

-- The body of a TTL timer, whenever it runs, removes the route of its own name if that is a TTL
-- registration whose deadline has passed, and no other route: a timer left over from an earlier
-- registration of the name removes nothing that is still due. The timers stay in step with the table.
pub fire_ttl_lem :
    (now : ℕ) (name : Text) (s : Server)
    → IsSynced s
    → IsSynced (fire_ttl now name s)
      × ((n : Text)
          → get (fire_ttl now name s).table n
            ≡ (if text_eq name n && drops now (get s.table n) then none else get s.table n))
unfolding fire_ttl
fire_ttl_lem now name s h = elim (Option-cases (get s.table name)) [
  | inl e ↦ rw (e, fire_ttl) (h, λ n. ground (arith, text_eq_iff name n))
  | inr (r, e) ↦ elim (Bool-cases (is_expired now r)) [
    | inl w ↦
        rw (e, fire_ttl, w)
          (
            remove_route-IsSynced name s h,
            λ n. ground (arith, text_eq_iff name n, get-remove_route name n s),
          )
    | inr w ↦ rw (e, fire_ttl, w) (h, λ n. ground (arith, text_eq_iff name n))
  ]
]

on_route_added_ttl :
    (now expires : ℕ) (alive : ℕ → Bool) (r : Route) (s : Server)
    → is_ttl r.type ≡ true
    → r.expires_at ≡ some expires
    → on_route_added now alive r s ≡ arm_ttl now r.name expires s
unfolding on_route_added
on_route_added_ttl now expires alive r s a b = rw (b, on_route_added, a) refl

add_route_ttl :
    (now expires : ℕ) (alive : ℕ → Bool) (r : Route) (s : Server)
    → s.table.on_add ≡ true
    → s.table.on_remove ≡ true
    → is_ttl r.type ≡ true
    → r.expires_at ≡ some expires
    → (lookup r.name (add_route now alive r s).ttl_timers ≡ some (now + (expires - now)))
      × (get (add_route now alive r s).table r.name ≡ some r)
unfolding add_route run_hooks run_hook arm_ttl on_route_removed
add_route_ttl now expires alive r s a b c d =
    let calls = add-calls s.table r a b in
    let stored = get-add s.table r r.name in
    let armed = λ (m : List (Text × ℕ)). lookup-insert r.name r.name (now + (expires - now)) m in
    elim (Bool-cases (is_some (get s.table r.name))) [
      | inl e ↦
          rw (calls.1, e, on_route_added_ttl now expires alive r _ c d)
            (
              ground (arith, armed (erase r.name s.ttl_timers), text_eq_iff r.name r.name),
              ground (arith, stored, text_eq_iff r.name r.name),
            )
      | inr e ↦
          rw (calls.1, e, on_route_added_ttl now expires alive r _ c d)
            (
              ground (arith, armed s.ttl_timers, text_eq_iff r.name r.name),
              ground (arith, stored, text_eq_iff r.name r.name),
            )
    ]

fire_stored :
    (later expires : ℕ) (r : Route) (s : Server)
    → get s.table r.name ≡ some r
    → is_ttl r.type ≡ true
    → r.expires_at ≡ some expires
    → get (fire_ttl later r.name s).table r.name ≡ (if ltb later expires then some r else none)
unfolding fire_ttl
fire_stored later expires r s e c d =
    rw (e, fire_ttl, d, c)
      (ground (arith, text_eq_iff r.name r.name, get-remove_route r.name r.name s))

-- Adding a TTL registration arms a timer for its name that fires at its deadline, or at once if the
-- deadline is past; the route stays until its deadline, and the timer's body at the armed time or later
-- removes it, if it is still what the name has.
pub ttl_lifetime :
    (now expires : ℕ) (alive : ℕ → Bool) (r : Route) (s : Server)
    → s.table.on_add ≡ true
    → s.table.on_remove ≡ true
    → is_ttl r.type ≡ true
    → r.expires_at ≡ some expires
    → (lookup r.name (add_route now alive r s).ttl_timers ≡ some (now + (expires - now)))
      × ((later : ℕ)
          → get (fire_ttl later r.name (add_route now alive r s)).table r.name
            ≡ (if ltb later expires then some r else none))
ttl_lifetime now expires alive r s a b c d =
    let put = add_route_ttl now expires alive r s a b c d in
    (put.0, λ later. fire_stored later expires r (add_route now alive r s) put.1 c d)
