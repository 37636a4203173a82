-- ===== src/Register/Tracked.antt =====
-- What a registration leaves of the processes that are tracked (internal/daemon/api.go, `handleRegister`).
use local_vibe.Base.{
  ℕ, Bool, true, false, not, ◌&&◌, ◌≡◌, ◌∙◌, refl, sym, subst, inl, inr, Bool-cases, Option-cases,
  Option, none, some, Result-cases, [], ◌∷◌, ◌++◌, Text, arith, if◌then◌else◌, ◌==◌, text_eq_refl,
  is_some,
}
use local_vibe.Routes.{Route, get, is_managed}
use local_vibe.Procs.{ProcessManager, start, stop}
use local_vibe.Procs.Tracked.{NoNew, SameBut, start-NoNew, stop-NoNew}
use local_vibe.Timers.{Server, add_route, remove_route}
use local_vibe.Timers.Tables.{get-add_route, add_route-procs, remove_route-procs}
use local_vibe.Ports.{find_free_port, reserve_port_values_sorted}
use local_vibe.Bridge.{reconcile_oauth_bridge_listeners}
use local_vibe.Handlers.{Daemon, refused, or_else}
use local_vibe.Recover.{preflight_ports}
use local_vibe.Register.{
  Registering, write_entry, assign_reserve, start_registered, launch_registered, launch_added,
  finish_registered, add_registered, is_worktree_name,
}
use local_vibe.Register.Launched.{assigned-get, ported-get}

-- Only the name's processes may have changed, and after a refusal no process is new.
abbrev pub IsAttempt : Text → ProcessManager → Option ℕ → ProcessManager → Type 0
IsAttempt name pm refusal after =
    SameBut name pm after × ((code : ℕ) → refusal ≡ some code → NoNew pm after)

unstarted : (name : Text) (pm : ProcessManager) (refusal : Option ℕ) → IsAttempt name pm refusal pm
unstarted name pm refusal = (λ n h. (refl, refl), λ code h n pid. (λ k. k, λ k. k))

IsAttempt-same :
    (name : Text) (pm pm' : ProcessManager) (refusal : Option ℕ) (after : ProcessManager)
    → pm' ≡ pm
    → IsAttempt name pm' refusal after
    → IsAttempt name pm refusal after
IsAttempt-same name pm pm' refusal after same h =
    subst (λ (m : ProcessManager). IsAttempt name m refusal after) same h

start_registered-IsAttempt :
    (e : Registering) (name : Text) (s : Server) (r : Route)
    → r.name ≡ name
    → IsAttempt name s.procs
        (start_registered e name (s, r)).0
        (start_registered e name (s, r)).1.procs
unfolding start_registered
start_registered-IsAttempt e name s r same =
    let held =
      (preflight_ports e.around.system e.later s.procs
        (reserve_port_values_sorted r.reserve_ports ++ ([], r.port) ∷ [])).0 in
    let pm = (start e.around.system s.procs r).0 in
    let (others, failed) = start-NoNew e.around.system s.procs r in
    let kept : SameBut name s.procs pm = rw (← same) others in
    elim (Option-cases held) [
      | inr (x, e1) ↦ rw (e1, start_registered) (unstarted name s.procs (some 409))
      | inl e1 ↦ elim (Result-cases (start e.around.system s.procs r).1) [
        | inl (x, e2) ↦ rw (e1, start_registered, e2) (kept, λ code h. failed x e2)
        | inr (pid, e2) ↦ rw (e1, start_registered, e2) (kept, λ code h. absurd (cc))
      ]
    ]

launch_registered-IsAttempt :
    (e : Registering) (name : Text) (s : Server) (r : Route)
    → get s.table name ≡ some r
    → r.name ≡ name
    → IsAttempt name s.procs
        (launch_registered e name (s, r)).0
        (launch_registered e name (s, r)).1.procs
unfolding launch_registered
launch_registered-IsAttempt e name s r g named =
    let picked = find_free_port e.around.bindable (e.fallback []) s.table in
    let port = if r.port == 0 then or_else picked 0 else r.port in
    let f : Route → Route = λ x. record x { port = port } in
    let s1 = if r.port == 0 then write_entry name f s else s in
    let assigned =
      if is_worktree_name r.parent
      then assign_reserve e name (reserve_port_values_sorted r.reserve_ports) (s1, f r)
      else some (s1, f r) in
    let (g1, same1) = ported-get name (r.port == 0) (or_else picked 0) s r g in
    elim (Bool-cases (r.port == 0 && not (is_some picked))) [
      | inl none_ ↦ rw (none_, launch_registered) (unstarted name s.procs (some 500))
      | inr some_ ↦ elim (Option-cases assigned) [
        | inl a ↦
            rw (some_, launch_registered, a)
              (IsAttempt-same name s.procs s1.procs (some 500) s1.procs same1
                (unstarted name s1.procs (some 500)))
        | inr (state, a) ↦
            let (_, (_, _, _, same_name, _, _), same2) =
              assigned-get e name (is_worktree_name r.parent)
                (reserve_port_values_sorted r.reserve_ports) s1 state.0 (f r) state.1 a g1 in
            rw (some_, launch_registered, a)
              (IsAttempt-same name s.procs state.0.procs (start_registered e name state).0
                (start_registered e name state).1.procs (same2 ∙ same1)
                (start_registered-IsAttempt e name state.0 state.1 (same_name ∙ named)))
      ]
    ]

-- A route that is not an app starts nothing.
launch_added-IsAttempt :
    (e : Registering) (d : Daemon) (fresh : Route)
    → let out = launch_added e d fresh in
      IsAttempt fresh.name d.server.procs out.0 out.1.procs
      × (is_managed fresh.type ≡ false → out.1.procs ≡ d.server.procs)
unfolding launch_added
launch_added-IsAttempt e d fresh =
    let now = e.around.now in
    let alive = e.around.system.alive in
    let name = fresh.name in
    let added = add_route now alive fresh d.server in
    let same = add_route-procs now alive fresh d.server in
    elim (Bool-cases (is_managed fresh.type)) [
      | inl m ↦
          let stored : get added.table name ≡ some fresh =
            get-add_route now alive fresh d.server name (ground arith)
            ∙ rw (text_eq_refl name) refl in
          rw (m, launch_added)
            (
              IsAttempt-same name d.server.procs added.procs
                  (launch_registered e name (added, fresh)).0
                  (launch_registered e name (added, fresh)).1.procs same
                  (launch_registered-IsAttempt e name added fresh stored refl),
              λ h. absurd (cc),
            )
      | inr m ↦
          rw (m, launch_added)
            (
              IsAttempt-same name d.server.procs added.procs none added.procs same
                  (unstarted name added.procs none),
              λ h. same,
            )
    ]

NoNew-same : (pm a b : ProcessManager) → a ≡ b → NoNew pm b → NoNew pm a
NoNew-same pm a b same h = subst (λ (m : ProcessManager). NoNew pm m) (sym same) h

-- What is tracked after the launch of a route, and after the stop when it is an app.
halted-NoNew :
    (managed : Bool) (pm : ProcessManager) (s : Server) (name : Text)
    → SameBut name pm s.procs
    → (managed ≡ false → s.procs ≡ pm)
    → NoNew pm (if managed then record s { procs = (stop s.procs name).0 } else s).procs
halted-NoNew true pm s name same h = stop-NoNew pm s.procs name same
halted-NoNew false pm s name same h = NoNew-same pm s.procs pm (h refl) (λ n pid. (λ k. k, λ k. k))

-- No process is new after a refusal.
pub add_registered-NoNew :
    (e : Registering) (d : Daemon) (fresh : Route) (code : ℕ)
    → (add_registered e d fresh).0 ≡ refused code
    → NoNew d.server.procs (add_registered e d fresh).1.server.procs
unfolding add_registered finish_registered
add_registered-NoNew e d fresh code h =
    let (refusal, s, killed) = launch_added e d fresh in
    let name = fresh.name in
    let ((others, failed), same) = launch_added-IsAttempt e d fresh in
    let halted = if is_managed fresh.type then record s { procs = (stop s.procs name).0 } else s in
    elim (Option-cases refusal) [
      | inr (c, r) ↦
          rw (add_registered, finish_registered, r)
            (NoNew-same d.server.procs (remove_route name s).procs s.procs
              (remove_route-procs name s) (failed c r))
      | inl r ↦
          elim (Option-cases
            (reconcile_oauth_bridge_listeners e.around.config s.table e.around.bindable
              d.listeners).1) [
                | inr (x, f) ↦
                    rw (add_registered, finish_registered, r, f)
                      (NoNew-same d.server.procs (remove_route name halted).procs halted.procs
                        (remove_route-procs name halted)
                        (halted-NoNew (is_managed fresh.type) d.server.procs s name others same))
                | inl f ↦ absurd (cc (rw (add_registered, finish_registered, r, f) at h))
              ]
    ]
