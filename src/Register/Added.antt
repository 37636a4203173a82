-- ===== src/Register/Added.antt =====
-- What the writes of a registration leave of the table and of its timers.
use local_vibe.Base.{
  ℕ, Bool, true, false, not, ◌&&◌, ◌≡◌, ◌∙◌, refl, inl, inr, Bool-cases, Option-cases, some,
  Result-cases, List, [], ◌∷◌, ◌++◌, Text, if◌then◌else◌, ◌==◌, text_eq, is_some, insert,
}
use local_vibe.Routes.{Route, get, update}
use local_vibe.Routes.Lookup.{get-update}
use local_vibe.Procs.{ProcessManager, start}
use local_vibe.Timers.{Server, add_route, remove_route}
use local_vibe.Timers.Sync.{IsSynced, add_route-IsSynced, remove_route-IsSynced}
use local_vibe.Timers.Idle.{update-IsSynced}
use local_vibe.Timers.Tables.{get-add_route_other}
use local_vibe.Timers.Ttl.{get-remove_route}
use local_vibe.Ports.{find_free_port, reserve_port_values_sorted}
use local_vibe.Handlers.{or_else}
use local_vibe.Recover.{preflight_ports, spawned}
use local_vibe.Register.{
  Registering, write_entry, assign_reserve, start_registered, launch_registered, is_worktree_name,
}

-- Two servers whose tables agree but for one name, and whose timers are in step if the first's are.
pub record IsBeyond (name : Text) (s s' : Server) : Type 0 where
  pub others : (n : Text) → text_eq name n ≡ false → get s'.table n ≡ get s.table n
  pub synced : IsSynced s → IsSynced s'

pub IsBeyond-refl : (name : Text) (s : Server) → IsBeyond name s s
IsBeyond-refl name s = record { others = λ n h. refl; synced = λ h. h }

pub IsBeyond-trans :
    (name : Text) (s t u : Server) → IsBeyond name s t → IsBeyond name t u → IsBeyond name s u
IsBeyond-trans name s t u a b = record {
  others = λ n h. b.others n h ∙ a.others n h;
  synced = λ h. b.synced (a.synced h);
}

pub write_entry-IsBeyond :
    (name : Text) (f : Route → Route) (procs : ProcessManager) (s : Server)
    → ((r : Route) → (f r).type ≡ r.type)
    → ((r : Route) → (f r).expires_at ≡ r.expires_at)
    → ((r : Route) → (f r).idle_timeout ≡ r.idle_timeout)
    → IsBeyond name s (record s { table = (update s.table name f).0; procs = procs })
write_entry-IsBeyond name f procs s a b c = record {
  others = λ n h. (get-update s.table name f n).0 ∙ rw h refl;
  synced = update-IsSynced name f procs s a b c;
}

pub procs-IsBeyond :
    (name : Text) (procs : ProcessManager) (s : Server)
    → IsBeyond name s (record s { procs = procs })
procs-IsBeyond name procs s = record {
  others = λ n h. refl;
  synced = λ h. record {
    hook_add = h.hook_add;
    hook_remove = h.hook_remove;
    ttl_match = h.ttl_match;
    idle_match = h.idle_match;
  };
}

pub remove_route-IsBeyond : (name : Text) (s : Server) → IsBeyond name s (remove_route name s)
remove_route-IsBeyond name s = record {
  others = λ n h. get-remove_route name n s ∙ rw h refl;
  synced = remove_route-IsSynced name s;
}

pub add_route-IsBeyond :
    (now : ℕ) (alive : ℕ → Bool) (r : Route) (s : Server)
    → IsBeyond r.name s (add_route now alive r s)
add_route-IsBeyond now alive r s = record {
  others = get-add_route_other now alive r s;
  synced = add_route-IsSynced now alive r s;
}

pub assign_reserve-IsBeyond :
    (e : Registering) (name : Text) (l : List (Text × ℕ)) (s s' : Server) (r r' : Route)
    → assign_reserve e name l (s, r) ≡ some (s', r')
    → IsBeyond name s s'
unfolding assign_reserve
assign_reserve-IsBeyond e name [] s s' r r' h =
    let same : s ≡ s' = cc in rw (← same) (IsBeyond-refl name s)
assign_reserve-IsBeyond e name ((key, given) ∷ rest) s s' r r' h =
    let picked = find_free_port e.around.bindable (e.fallback key) s.table in
    let port = or_else picked 0 in
    let f : Route → Route = λ x. record x { reserve_ports = insert key port x.reserve_ports } in
    elim (Bool-cases (given == 0)) [
      | inr g ↦ assign_reserve-IsBeyond e name rest s s' r r' (rw (assign_reserve, g) at h)
      | inl g ↦ elim (Option-cases picked) [
        | inl p ↦ absurd (cc (rw (assign_reserve, g, p) at h))
        | inr (q, p) ↦
            IsBeyond-trans name s (write_entry name f s) s'
              (write_entry-IsBeyond name f s.procs s (λ x. refl) (λ x. refl) (λ x. refl))
              (assign_reserve-IsBeyond e name rest (write_entry name f s) s' (f r) r'
                (rw (assign_reserve, g, p) at h))
      ]
    ]

start_registered-IsBeyond :
    (e : Registering) (name : Text) (s : Server) (r : Route)
    → IsBeyond name s (start_registered e name (s, r)).1
unfolding start_registered
start_registered-IsBeyond e name s r =
    let held =
      (preflight_ports e.around.system e.later s.procs
        (reserve_port_values_sorted r.reserve_ports ++ ([], r.port) ∷ [])).0 in
    let outcome = (start e.around.system s.procs r).1 in
    let known = procs-IsBeyond name (start e.around.system s.procs r).0 s in
    elim (Option-cases held) [
      | inr (x, e1) ↦ rw (e1, start_registered) (IsBeyond-refl name s)
      | inl e1 ↦ elim (Result-cases outcome) [
        | inl (x, e2) ↦ rw (e1, start_registered, e2) known
        | inr (pid, e2) ↦
            rw (e1, start_registered, e2)
              (write_entry-IsBeyond name (spawned e.around.now pid)
                (start e.around.system s.procs r).0 s (λ x. refl) (λ x. refl) (λ x. refl))
      ]
    ]

pub either-IsBeyond :
    (name : Text) (b : Bool) (s t : Server)
    → IsBeyond name s t
    → IsBeyond name s (if b then t else s)
either-IsBeyond name true s t h = h
either-IsBeyond name false s t h = IsBeyond-refl name s

assigned-IsBeyond :
    (e : Registering) (name : Text) (b : Bool) (l : List (Text × ℕ)) (s s' : Server) (r r' : Route)
    → (if b then assign_reserve e name l (s, r) else some (s, r)) ≡ some (s', r')
    → IsBeyond name s s'
assigned-IsBeyond e name true l s s' r r' h = assign_reserve-IsBeyond e name l s s' r r' h
assigned-IsBeyond e name false l s s' r r' h =
    let same : s ≡ s' = cc in rw (← same) (IsBeyond-refl name s)

pub launch_registered-IsBeyond :
    (e : Registering) (name : Text) (s : Server) (r : Route)
    → IsBeyond name s (launch_registered e name (s, r)).1
unfolding launch_registered
launch_registered-IsBeyond e name s r =
    let picked = find_free_port e.around.bindable (e.fallback []) s.table in
    let port = if r.port == 0 then or_else picked 0 else r.port in
    let f : Route → Route = λ x. record x { port = port } in
    let s1 = if r.port == 0 then write_entry name f s else s in
    let assigned =
      if is_worktree_name r.parent
      then assign_reserve e name (reserve_port_values_sorted r.reserve_ports) (s1, f r)
      else some (s1, f r) in
    let written = write_entry-IsBeyond name f s.procs s (λ x. refl) (λ x. refl) (λ x. refl) in
    let ported : IsBeyond name s s1 =
      either-IsBeyond name (r.port == 0) s (write_entry name f s) written in
    elim (Bool-cases (r.port == 0 && not (is_some picked))) [
      | inl none_ ↦ rw (none_, launch_registered) (IsBeyond-refl name s)
      | inr some_ ↦ elim (Option-cases assigned) [
        | inl a ↦ rw (some_, launch_registered, a) ported
        | inr (state, a) ↦
            rw (some_, launch_registered, a)
              (IsBeyond-trans name s s1 (start_registered e name state).1 ported (
                IsBeyond-trans name s1 state.0 (start_registered e name state).1
                  (assigned-IsBeyond e name (is_worktree_name r.parent)
                    (reserve_port_values_sorted r.reserve_ports) s1 state.0 (f r) state.1 a)
                  (start_registered-IsBeyond e name state.0 state.1)))
      ]
    ]
