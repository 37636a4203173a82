-- ===== src/Starting/Adopted.antt =====
-- What becomes of a worktree that is adopted (internal/daemon/api.go, `handleAdoptWorktree`).
use local_vibe.Base.{
  ℕ, true, not, ◌||◌, ◌≡◌, ◌≢◌, ◌⊎◌, ◌∙◌, refl, subst, inl, inr, Bool-cases, Option-cases, Option,
  none, some, ok, Result-cases, List, [], ◌∷◌, Text, arith, text_eq, text_eq_refl, text_eq_iff, All,
}
use local_vibe.Names.{parse_route_name}
use local_vibe.Procs.{ProcessManager, start}
use local_vibe.Routes.{Route, get, list, is_managed}
use local_vibe.Timers.{add_route, remove_route}
use local_vibe.Timers.Ttl.{get-remove_route}
use local_vibe.Timers.Tables.{get-add_route, add_route-procs}
use local_vibe.Ports.{reserve_port_values_sorted}
use local_vibe.Handlers.{Daemon, Status, done, refused}
use local_vibe.Recover.{Visit, StartRefusal, spawned, start_managed_now}
use local_vibe.Recover.Launched.{IsLaunched, start_managed_now-IsLaunched_named}
use local_vibe.Recover.Beyond.{start_managed_now-IsBeyond}
use local_vibe.Register.{assign_reserve}
use local_vibe.Register.Added.{
  IsBeyond, IsBeyond-trans, add_route-IsBeyond, remove_route-IsBeyond, assign_reserve-IsBeyond,
}
use local_vibe.Register.Launched.{Kept, assign_reserve-get}
use local_vibe.Worktrees.{Disk, DiscoveredWorktree, child_name, discover_unregistered_worktrees}
use local_vibe.Worktrees.Found.{
  IsOffered, IsLinked, listed_as, discover_unregistered_worktrees_sound,
}
use local_vibe.Starting.Adopt.{
  matching, worktree_route, registering, finish_adopted, launch_worktree, handle_adopt_worktree,
}

matching_sound :
    (disk : Disk) (path : Text) (P : DiscoveredWorktree → Type 0) (l : List DiscoveredWorktree)
    (w : DiscoveredWorktree)
    → All P l
    → matching disk path l ≡ some w
    → P w × (disk.realpath w.path ≡ disk.realpath path)
unfolding matching
matching_sound disk path P [] w a h = absurd (cc)
matching_sound disk path P (q ∷ qs) w (p, ps) h =
    elim (Bool-cases (text_eq (disk.realpath q.path) (disk.realpath path))) [
      | inl e ↦
          let same : q ≡ w = cc (rw (matching, e) at h) in
          rw (← same) (p, (text_eq_iff (disk.realpath q.path) (disk.realpath path)).0 e)
      | inr e ↦ matching_sound disk path P qs w ps (rw (matching, e) at h)
    ]

-- A daemon in which at most the route of the name has changed; after a refusal there is no such route.
abbrev pub IsAdoption : Text → Daemon → Status × Daemon × List ℕ → Type 0
IsAdoption name d out =
    IsBeyond name d.server out.1.server × (out.0 ≢ done → get out.1.server.table name ≡ none)

finish_adopted-IsAdoption :
    (name : Text) (d : Daemon) (out : Option StartRefusal × Daemon × List ℕ)
    → IsBeyond name d.server out.1.server
    → IsAdoption name d (finish_adopted name out)
finish_adopted-IsAdoption name d (none, d', killed) h = (h, λ k. absurd (k refl))
finish_adopted-IsAdoption name d (some x, d', killed) h = (
  IsBeyond-trans name d.server d'.server (remove_route name d'.server) h
      (remove_route-IsBeyond name d'.server),
  λ k. get-remove_route name name d'.server ∙ rw (text_eq_refl name) refl,
)

launch_worktree-IsAdoption :
    (v : Visit) (fallback : Text → Option ℕ) (d : Daemon) (fresh : Route)
    → IsAdoption fresh.name d (launch_worktree v fallback d fresh)
unfolding launch_worktree
launch_worktree-IsAdoption v fallback d fresh =
    let name = fresh.name in
    let added = add_route v.around.now v.around.system.alive fresh d.server in
    let put = add_route-IsBeyond v.around.now v.around.system.alive fresh d.server in
    let ports = reserve_port_values_sorted fresh.reserve_ports in
    elim (Option-cases (assign_reserve (registering v fallback) name ports (added, fresh))) [
      | inl e ↦
          rw (e, launch_worktree)
            (
              IsBeyond-trans name d.server added (remove_route name added) put
                  (remove_route-IsBeyond name added),
              λ k. get-remove_route name name added ∙ rw (text_eq_refl name) refl,
            )
      | inr ((s, r), e) ↦
          let d1 : Daemon = record d { server = s } in
          let assigned =
            IsBeyond-trans name d.server added s put
              (assign_reserve-IsBeyond (registering v fallback) name ports added s fresh r e) in
          rw (e, launch_worktree)
            (finish_adopted-IsAdoption name d (start_managed_now v d1 name r)
              (IsBeyond-trans name d.server s _ assigned (start_managed_now-IsBeyond v d1 name r)))
    ]

-- The table has the route, running as the process that the manager gave when it started the route and which `d'` then
-- holds, with the command, the directory and the parent that it was added with.
abbrev pub IsRunningAs : Visit → ProcessManager → Route → Daemon → Type 0
IsRunningAs v pm fresh d' =
    (pid : ℕ) × (r : Route) × (get d'.server.table fresh.name ≡ some (spawned v.around.now pid r))
    × (start v.around.system pm r ≡ (d'.server.procs, ok pid))
    × (r.name ≡ fresh.name)
    × (r.cmd ≡ fresh.cmd)
    × (r.dir ≡ fresh.dir)
    × (r.parent ≡ fresh.parent)

finish_adopted-IsRunningAs :
    (v : Visit) (pm : ProcessManager) (fresh r : Route)
    (out : Option StartRefusal × Daemon × List ℕ)
    → Kept fresh r
    → (out.0 ≡ none
        → (d2 : Daemon) × (port : ℕ) × IsLaunched v pm d2 (record r { port = port }) out.1)
    → (finish_adopted fresh.name out).0 ≡ done
    → IsRunningAs v pm fresh (finish_adopted fresh.name out).1
finish_adopted-IsRunningAs v pm fresh r (some x, d', killed) k launched h = absurd (cc)
finish_adopted-IsRunningAs v pm fresh r (none, d', killed) (cmd, _, _, name, dir, parent) launched
      h =
    let (d2, port, (pid, stored, gave, _, _, _)) = launched refl in
    (pid, record r { port = port }, (rw (← name) stored), gave, name, cmd, dir, parent)

IsRunningAs-same :
    (v : Visit) (pm pm' : ProcessManager) (fresh : Route) (d' : Daemon)
    → pm' ≡ pm
    → IsRunningAs v pm' fresh d'
    → IsRunningAs v pm fresh d'
IsRunningAs-same v pm pm' fresh d' same h =
    subst (λ (m : ProcessManager). IsRunningAs v m fresh d') same h

launch_worktree-IsRunningAs :
    (v : Visit) (fallback : Text → Option ℕ) (d : Daemon) (fresh : Route)
    → is_managed fresh.type ≡ true
    → (launch_worktree v fallback d fresh).0 ≡ done
    → IsRunningAs v d.server.procs fresh (launch_worktree v fallback d fresh).1
unfolding launch_worktree
launch_worktree-IsRunningAs v fallback d fresh m h =
    let name = fresh.name in
    let added = add_route v.around.now v.around.system.alive fresh d.server in
    let stored : get added.table name ≡ some fresh =
      get-add_route v.around.now v.around.system.alive fresh d.server name (ground arith)
      ∙ rw (text_eq_refl name) refl in
    let ports = reserve_port_values_sorted fresh.reserve_ports in
    elim (Option-cases (assign_reserve (registering v fallback) name ports (added, fresh))) [
      | inl e ↦ absurd (cc (rw (launch_worktree, e) at h))
      | inr ((s, r), e) ↦
          let d1 : Daemon = record d { server = s } in
          let (here, kept, unstarted) =
            assign_reserve-get (registering v fallback) name ports added s fresh r e stored in
          let (_, _, _, same, _, _) = kept in
          rw (e, launch_worktree)
            (IsRunningAs-same v d.server.procs s.procs fresh
              (finish_adopted name (start_managed_now v d1 name r)).1
              (unstarted ∙ add_route-procs v.around.now v.around.system.alive fresh d.server)
              (finish_adopted-IsRunningAs v s.procs fresh r (start_managed_now v d1 name r) kept
                (start_managed_now-IsLaunched_named v d1 name r same here)
                (rw (launch_worktree, e) at h)))
    ]

-- An adoption that goes past the checks: of which app and worktree, and what it may change.
abbrev pub IsAdopted :
    Visit → Disk → Option Text → Daemon → Text → Status × Daemon × List ℕ → Type 0
IsAdopted v disk body d name out =
    (parent : Route) × (w : DiscoveredWorktree) × (path : Text) × (get d.server.table name
      ≡ some parent)
    × (is_managed parent.type ≡ true)
    × (body ≡ some path)
    × (disk.realpath w.path ≡ disk.realpath path)
    × IsOffered disk parent.name (list d.server.table) w
    × IsLinked disk parent.dir (listed_as w)
    × IsAdoption (child_name w.slug parent.name) d out
    × (out.0 ≡ done → IsRunningAs v d.server.procs (worktree_route v.around.now parent w) out.1)

-- An adoption of a worktree either is refused and changes nothing, or is of a worktree at the requested path which git
-- lists in the directory of a managed app, not as its main checkout, and which is not yet a route of it, under a valid
-- label whose name no route had. Then every route but the new one is as it was, and the timers stay in step with the
-- table; if the start succeeds, the new route runs as the process that the daemon's manager gave for it and then
-- holds, in the worktree with the command of the app, and if not, the route is gone again.
pub handle_adopt_worktree_lem :
    (v : Visit) (fallback : Text → Option ℕ) (disk : Disk) (body : Option Text) (d : Daemon)
    (name : Text)
    → let out = handle_adopt_worktree v fallback disk body d name in
      ((code : ℕ) × (out ≡ (refused code, d, []))) ⊎ IsAdopted v disk body d name out
unfolding handle_adopt_worktree
handle_adopt_worktree_lem v fallback disk body d name =
    elim (Option-cases (get d.server.table name)) [
      | inl e ↦ rw (e, handle_adopt_worktree) (inl (404, refl))
      | inr (parent, e) ↦
          elim (Bool-cases (not (is_managed parent.type) || text_eq parent.cmd [])) [
            | inl a ↦ rw (e, handle_adopt_worktree, a) (inl (400, refl))
            | inr a ↦ elim (Option-cases body) [
              | inl b ↦ rw (e, handle_adopt_worktree, a, b) (inl (400, refl))
              | inr (path, b) ↦ elim (Bool-cases (text_eq path [])) [
                | inl c ↦ rw (e, handle_adopt_worktree, a, b, c) (inl (400, refl))
                | inr c ↦
                    let found = discover_unregistered_worktrees disk d.server.table parent in
                    elim (Option-cases (matching disk path found)) [
                      | inl f ↦ rw (e, handle_adopt_worktree, a, b, c, f) (inl (404, refl))
                      | inr (w, f) ↦
                          let ((offered, linked), at_path) =
                            matching_sound disk path
                              (λ q.
                                IsOffered disk parent.name (list d.server.table) q
                                × IsLinked disk parent.dir (listed_as q))
                              found w
                              (discover_unregistered_worktrees_sound disk d.server.table parent).0
                              f in
                          let fresh = worktree_route v.around.now parent w in
                          elim (Result-cases (parse_route_name (child_name w.slug parent.name))) [
                            | inl (x, g) ↦
                                rw (e, handle_adopt_worktree, a, b, c, f, g) (inl (400, refl))
                            | inr (p, g) ↦
                                rw (e, handle_adopt_worktree, a, b, c, f, g)
                                  (inr (
                                    parent,
                                    w,
                                    path,
                                    refl,
                                    ground arith,
                                    refl,
                                    at_path,
                                    offered,
                                    linked,
                                    launch_worktree-IsAdoption v fallback d fresh,
                                    launch_worktree-IsRunningAs v fallback d fresh refl,
                                  ))
                          ]
                    ]
              ]
            ]
          ]
    ]
