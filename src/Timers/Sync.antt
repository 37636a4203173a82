-- ===== src/Timers/Sync.antt =====
-- The pending timers match the table (internal/daemon/managed_timers.go with the hooks of routes.go).
use local_vibe.Base.{
  ℕ, ◌+◌, ◌-◌, Bool, true, false, ◌&&◌, ◌||◌, not, ◌≡◌, refl, inl, inr, Bool-cases, Option-cases,
  Option, none, some, Text, arith, if◌then◌else◌, ◌==◌, ltb, has_key, lookup-insert, lookup-erase,
  text_eq, text_eq_iff, is_some,
}
use local_vibe.Routes.{
  Route, RouteType, get, is_ttl, is_managed, ttl, sticky, pid_tracked, managed, bookmark,
}
use local_vibe.Routes.Lookup.{get-add, get-remove, remove-SameHooks, add-calls}
use local_vibe.Timers.{
  Server, arm_ttl, arm_idle, on_route_removed, remove_route, watch_tracked_pid, on_untimed_added,
  on_route_added, run_hook, run_hooks, add_route, is_tracked, minutes,
}

-- The names that should have a TTL timer, and an idle timer.
abbrev pub wants_ttl : Option Route → Bool
wants_ttl none = false
wants_ttl (some r) = is_ttl r.type && is_some r.expires_at

abbrev pub wants_idle : Option Route → Bool
wants_idle none = false
wants_idle (some r) = is_managed r.type && ltb 0 r.idle_timeout

-- A name has a pending timer of a kind exactly if its route wants one.
pub record IsSynced (s : Server) : Type 0 where
  pub hook_add : s.table.on_add ≡ true
  pub hook_remove : s.table.on_remove ≡ true
  pub ttl_match : (n : Text) → has_key n s.ttl_timers ≡ wants_ttl (get s.table n)
  pub idle_match : (n : Text) → has_key n s.idle_timers ≡ wants_idle (get s.table n)

-- `table.Remove` with its hook keeps the timers in step with the table: a name has a pending timer of
-- a kind exactly if its route wants one.
pub remove_route-IsSynced : (name : Text) (s : Server) → IsSynced s → IsSynced (remove_route name s)
unfolding remove_route on_route_removed
remove_route-IsSynced name s h = elim (Bool-cases (is_some (get s.table name))) [
  | inl e ↦
      rw ((get-remove s.table name name).1, e, (remove-SameHooks s.table name).1, h.hook_remove)
        (record {
          hook_add = ground (arith, remove-SameHooks s.table name, h.hook_add);
          hook_remove = ground (arith, remove-SameHooks s.table name, h.hook_remove);
          ttl_match = λ n. ground (
            arith,
            lookup-erase name n s.ttl_timers,
            (get-remove s.table name n).0,
            h.ttl_match n,
          );
          idle_match = λ n. ground (
            arith,
            lookup-erase name n s.idle_timers,
            (get-remove s.table name n).0,
            h.idle_match n,
          );
        })
  | inr e ↦
      rw ((get-remove s.table name name).1, e)
        (record {
          hook_add = ground (arith, remove-SameHooks s.table name, h.hook_add);
          hook_remove = ground (arith, remove-SameHooks s.table name, h.hook_remove);
          ttl_match =
              λ n. ground (arith, (get-remove s.table name n).0, h.ttl_match n, text_eq_iff name n);
          idle_match = λ n.
              ground (arith, (get-remove s.table name n).0, h.idle_match n, text_eq_iff name n);
        })
]

-- A state whose only unmatched name is that of a route just added, which has no timer yet.
record IsFresh (r : Route) (s : Server) : Type 0 where
  hook_add : s.table.on_add ≡ true
  hook_remove : s.table.on_remove ≡ true
  stored : get s.table r.name ≡ some r
  ttl_rest :
      (n : Text)
      → has_key n s.ttl_timers ≡ (if text_eq r.name n then false else wants_ttl (get s.table n))
  idle_rest :
      (n : Text)
      → has_key n s.idle_timers ≡ (if text_eq r.name n then false else wants_idle (get s.table n))

-- A fresh state needs no timer for its new route.
IsFresh-IsSynced :
    (r : Route) (s : Server)
    → IsFresh r s
    → wants_ttl (some r) ≡ false
    → wants_idle (some r) ≡ false
    → IsSynced s
IsFresh-IsSynced r s h a b = record {
  hook_add = h.hook_add;
  hook_remove = h.hook_remove;
  ttl_match = λ n. ground (arith, h.ttl_rest n, h.stored, text_eq_iff r.name n);
  idle_match = λ n. ground (arith, h.idle_rest n, h.stored, text_eq_iff r.name n);
}

ttl-not_managed : (t : RouteType) (n : ℕ) → is_ttl t ≡ true → (is_managed t && ltb 0 n) ≡ false
ttl-not_managed ttl n e = refl
ttl-not_managed sticky n e = refl
ttl-not_managed pid_tracked n e = refl
ttl-not_managed bookmark n e = refl
ttl-not_managed managed n e = ground arith

arm_ttl-IsSynced :
    (now : ℕ) (r : Route) (expires : ℕ) (s : Server)
    → IsFresh r s
    → wants_ttl (some r) ≡ true
    → wants_idle (some r) ≡ false
    → IsSynced (arm_ttl now r.name expires s)
unfolding arm_ttl
arm_ttl-IsSynced now r expires s h a b = record {
  hook_add = h.hook_add;
  hook_remove = h.hook_remove;
  ttl_match = λ n. ground (
    arith,
    lookup-insert r.name n (now + (expires - now)) s.ttl_timers,
    h.ttl_rest n,
    h.stored,
    text_eq_iff r.name n,
  );
  idle_match = λ n. ground (arith, h.idle_rest n, h.stored, text_eq_iff r.name n);
}

arm_idle-IsSynced :
    (now : ℕ) (r : Route) (s : Server)
    → IsFresh r s
    → wants_ttl (some r) ≡ false
    → wants_idle (some r) ≡ true
    → IsSynced (arm_idle now r.name s)
unfolding arm_idle
arm_idle-IsSynced now r s h a b =
    let timed : (not (is_managed r.type) || r.idle_timeout == 0) ≡ false = ground arith in
    rw (h.stored, arm_idle, timed)
      (record {
        hook_add = h.hook_add;
        hook_remove = h.hook_remove;
        ttl_match = λ n. ground (arith, h.ttl_rest n, h.stored, text_eq_iff r.name n);
        idle_match = λ n. ground (
          arith,
          lookup-insert r.name n (now + minutes r.idle_timeout) s.idle_timers,
          h.idle_rest n,
          h.stored,
          text_eq_iff r.name n,
        );
      })

watch-IsSynced :
    (alive : ℕ → Bool) (name : Text) (pid : ℕ) (s : Server)
    → IsSynced s
    → IsSynced (watch_tracked_pid alive name pid s)
unfolding watch_tracked_pid
watch-IsSynced alive name pid s h = elim (Bool-cases (alive pid)) [
  | inl e ↦ rw e (record {
    hook_add = h.hook_add;
    hook_remove = h.hook_remove;
    ttl_match = h.ttl_match;
    idle_match = h.idle_match;
  })
  | inr e ↦ rw e (remove_route-IsSynced name s h)
]

on_untimed_added-IsSynced :
    (now : ℕ) (alive : ℕ → Bool) (r : Route) (s : Server)
    → IsFresh r s
    → wants_ttl (some r) ≡ false
    → IsSynced (on_untimed_added now alive r s)
unfolding on_untimed_added
on_untimed_added-IsSynced now alive r s h a =
    elim (Bool-cases (is_managed r.type && ltb 0 r.idle_timeout)) [
      | inl e ↦ rw e (arm_idle-IsSynced now r s h a e)
      | inr e ↦
          let synced = IsFresh-IsSynced r s h a e in
          rw e (elim (Option-cases r.pid) [
            | inl p ↦ rw p synced
            | inr (pid, p) ↦ rw p (elim (Bool-cases (is_tracked r.type)) [
              | inl w ↦ rw w (watch-IsSynced alive r.name pid s synced)
              | inr w ↦ rw w synced
            ])
          ])
    ]

on_route_added-IsSynced :
    (now : ℕ) (alive : ℕ → Bool) (r : Route) (s : Server)
    → IsFresh r s
    → IsSynced (on_route_added now alive r s)
unfolding on_route_added
on_route_added-IsSynced now alive r s h = elim (Option-cases r.expires_at) [
  | inl e ↦ rw e (on_untimed_added-IsSynced now alive r s h (ground arith))
  | inr (x, e) ↦ elim (Bool-cases (is_ttl r.type)) [
    | inl w ↦
        rw (e, w)
          (arm_ttl-IsSynced now r x s h (ground arith) (ttl-not_managed r.type r.idle_timeout w))
    | inr w ↦ rw (e, w) (on_untimed_added-IsSynced now alive r s h (ground arith))
  ]
]

-- `table.Add` with its hooks keeps the timers in step with the table, whatever route the name had
-- before: a name has a pending timer of a kind exactly if its route wants one.
pub add_route-IsSynced :
    (now : ℕ) (alive : ℕ → Bool) (r : Route) (s : Server)
    → IsSynced s
    → IsSynced (add_route now alive r s)
unfolding add_route run_hooks run_hook on_route_removed
add_route-IsSynced now alive r s h =
    let calls = add-calls s.table r h.hook_add h.hook_remove in
    elim (Bool-cases (is_some (get s.table r.name))) [
      | inl e ↦
          rw (calls.1, e)
            (on_route_added-IsSynced now alive r _ (record {
              hook_add = ground (arith, calls.0, h.hook_add);
              hook_remove = ground (arith, calls.0, h.hook_remove);
              stored = ground (arith, get-add s.table r r.name, text_eq_iff r.name r.name);
              ttl_rest = λ n.
                  ground
                    (arith, lookup-erase r.name n s.ttl_timers, get-add s.table r n, h.ttl_match n);
              idle_rest = λ n.
                  ground (
                    arith,
                    lookup-erase r.name n s.idle_timers,
                    get-add s.table r n,
                    h.idle_match n,
                  );
            }))
      | inr e ↦
          rw (calls.1, e)
            (on_route_added-IsSynced now alive r _ (record {
              hook_add = ground (arith, calls.0, h.hook_add);
              hook_remove = ground (arith, calls.0, h.hook_remove);
              stored = ground (arith, get-add s.table r r.name, text_eq_iff r.name r.name);
              ttl_rest =
                  λ n. ground (arith, get-add s.table r n, h.ttl_match n, text_eq_iff r.name n);
              idle_rest =
                  λ n. ground (arith, get-add s.table r n, h.idle_match n, text_eq_iff r.name n);
            }))
    ]
