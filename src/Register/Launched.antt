-- ===== src/Register/Launched.antt =====
-- The launch of an app that is registered (internal/daemon/api.go, `handleRegister`).
use local_vibe.Base.{
  ℕ, Bool, true, false, not, ◌&&◌, ◌≡◌, ◌⊎◌, ◌∙◌, refl, sym, ap, subst, inl, inr, Bool-cases,
  Option-cases, Option, none, some, Result, ok, Result-cases, List, [], ◌∷◌, ◌++◌, Text,
  if◌then◌else◌, ◌==◌, text_eq_refl, is_some, insert,
}
use local_vibe.Routes.{Route, RouteTable, get}
use local_vibe.Routes.Lookup.{get-update}
use local_vibe.Procs.{ProcessManager, StartError, start}
use local_vibe.Timers.{Server}
use local_vibe.Ports.{find_free_port, reserve_port_values_sorted}
use local_vibe.Handlers.{or_else}
use local_vibe.Recover.{preflight_ports, spawned}
use local_vibe.Register.{
  Registering, write_entry, assign_reserve, start_registered, launch_registered, is_worktree_name,
}

get-write_entry :
    (name : Text) (f : Route → Route) (s : Server) (r : Route)
    → get s.table name ≡ some r
    → get (write_entry name f s).table name ≡ some (f r)
get-write_entry name f s r h = (get-update s.table name f name).0 ∙ rw (text_eq_refl name, h) refl

-- What does not change while ports are assigned.
abbrev pub Kept : Route → Route → Type 0
Kept r r' =
    (r'.cmd ≡ r.cmd)
    × (r'.port ≡ r.port)
    × (r'.type ≡ r.type)
    × (r'.name ≡ r.name)
    × (r'.dir ≡ r.dir)
    × (r'.parent ≡ r.parent)

pub assign_reserve-get :
    (e : Registering) (name : Text) (l : List (Text × ℕ)) (s s' : Server) (r r' : Route)
    → assign_reserve e name l (s, r) ≡ some (s', r')
    → get s.table name ≡ some r
    → (get s'.table name ≡ some r') × Kept r r' × (s'.procs ≡ s.procs)
unfolding assign_reserve
assign_reserve-get e name [] s s' r r' h g =
    let same : s ≡ s' = cc in
    let same_route : r ≡ r' = cc in
    rw (← same, ← same_route) (g, (refl, refl, refl, refl, refl, refl), refl)
assign_reserve-get e name ((key, given) ∷ rest) s s' r r' h g =
    let picked = find_free_port e.around.bindable (e.fallback key) s.table in
    let port = or_else picked 0 in
    let f : Route → Route = λ x. record x { reserve_ports = insert key port x.reserve_ports } in
    elim (Bool-cases (given == 0)) [
      | inr z ↦ assign_reserve-get e name rest s s' r r' (rw (assign_reserve, z) at h) g
      | inl z ↦ elim (Option-cases picked) [
        | inl p ↦ absurd (cc (rw (assign_reserve, z, p) at h))
        | inr (q, p) ↦
            assign_reserve-get e name rest (write_entry name f s) s' (f r) r'
              (rw (assign_reserve, z, p) at h) (get-write_entry name f s r g)
      ]
    ]

-- The stored route `r` is `launched`, running as the process that the start of it by the manager gave, which the
-- manager `after` then holds; it has the command, and none of its ports is held by a process that the manager does not
-- know.
abbrev pub IsUp : Registering → ProcessManager → ProcessManager → Text → Route → Type 0
IsUp e pm after cmd r =
    ((pid : ℕ) × (launched : Route) × (r ≡ spawned e.around.now pid launched)
      × (start e.around.system pm launched ≡ (after, ok pid)))
    × (r.cmd ≡ cmd)
    × ((preflight_ports e.around.system e.later pm
          (reserve_port_values_sorted r.reserve_ports ++ ([], r.port) ∷ [])).0
        ≡ none)

pub IsUp-same :
    (e : Registering) (pm pm' after : ProcessManager) (cmd : Text) (r : Route)
    → pm' ≡ pm
    → IsUp e pm' after cmd r
    → IsUp e pm after cmd r
IsUp-same e pm pm' after cmd r same h = subst (λ (m : ProcessManager). IsUp e m after cmd r) same h

start_registered-IsUp :
    (e : Registering) (name cmd : Text) (s : Server) (r : Route)
    → get s.table name ≡ some r
    → r.cmd ≡ cmd
    → (start_registered e name (s, r)).0 ≡ none
    → (r' : Route) × (get (start_registered e name (s, r)).1.table name ≡ some r')
      × IsUp e s.procs (start_registered e name (s, r)).1.procs cmd r'
      × (r'.port ≡ r.port)
      × (r'.name ≡ r.name)
unfolding start_registered
start_registered-IsUp e name cmd s r g c h =
    let held =
      (preflight_ports e.around.system e.later s.procs
        (reserve_port_values_sorted r.reserve_ports ++ ([], r.port) ∷ [])).0 in
    let outcome = (start e.around.system s.procs r).1 in
    elim (Option-cases held) [
      | inr (x, e1) ↦ absurd (cc (rw (start_registered, e1) at h))
      | inl e1 ↦ elim (Result-cases outcome) [
        | inl (x, e2) ↦ absurd (cc (rw (start_registered, e1, e2) at h))
        | inr (pid, e2) ↦
            let pm = (start e.around.system s.procs r).0 in
            let s' : Server = record s { procs = pm } in
            let gave : start e.around.system s.procs r ≡ (pm, ok pid) =
              ap (λ (o : Result StartError ℕ). (pm, o)) e2 in
            rw (e1, start_registered, e2)
              (
                spawned e.around.now pid r,
                get-write_entry name (spawned e.around.now pid) s' r g,
                ((pid, r, refl, gave), c, e1),
                refl,
                refl,
              )
      ]
    ]

-- The primary port of a route that is launched: its own, or the one that was found for it.
abbrev pub IsPortOf : Registering → RouteTable → Route → ℕ → Type 0
IsPortOf e t r port =
    (port ≡ r.port) × (r.port == 0 ≡ false)
    ⊎ find_free_port e.around.bindable (e.fallback []) t ≡ some port

pub assigned-get :
    (e : Registering) (name : Text) (b : Bool) (l : List (Text × ℕ)) (s s' : Server) (r r' : Route)
    → (if b then assign_reserve e name l (s, r) else some (s, r)) ≡ some (s', r')
    → get s.table name ≡ some r
    → (get s'.table name ≡ some r') × Kept r r' × (s'.procs ≡ s.procs)
assigned-get e name true l s s' r r' h g = assign_reserve-get e name l s s' r r' h g
assigned-get e name false l s s' r r' h g =
    let same : s ≡ s' = cc in
    let same_route : r ≡ r' = cc in
    rw (← same, ← same_route) (g, (refl, refl, refl, refl, refl, refl), refl)

pub ported-get :
    (name : Text) (b : Bool) (port : ℕ) (s : Server) (r : Route)
    → get s.table name ≡ some r
    → let f : Route → Route = λ x. record x { port = if b then port else r.port } in
      let s1 = if b then write_entry name f s else s in
      (get s1.table name ≡ some (f r)) × (s1.procs ≡ s.procs)
ported-get name true port s r g = (get-write_entry name (λ x. record x { port = port }) s r g, refl)
ported-get name false port s r g = (g, refl)

pub found_port :
    (b : Bool) (picked : Option ℕ) (given port : ℕ)
    → port ≡ (if b then or_else picked 0 else given)
    → (b && not (is_some picked)) ≡ false
    → (port ≡ given) × (b ≡ false) ⊎ picked ≡ some port
found_port true none given port h k = absurd (cc)
found_port true (some q) given port h k = inr (ap some (sym h))
found_port false picked given port h k = inl (h, refl)

-- A route that is launched without a refusal is up, and has the port it was given or one that was free.
pub launch_registered-IsUp :
    (e : Registering) (name : Text) (s : Server) (r : Route)
    → get s.table name ≡ some r
    → (launch_registered e name (s, r)).0 ≡ none
    → (r' : Route) × (get (launch_registered e name (s, r)).1.table name ≡ some r')
      × IsUp e s.procs (launch_registered e name (s, r)).1.procs r.cmd r'
      × IsPortOf e s.table r r'.port
      × (r'.name ≡ r.name)
unfolding launch_registered
launch_registered-IsUp e name s r g h =
    let picked = find_free_port e.around.bindable (e.fallback []) s.table in
    let port = if r.port == 0 then or_else picked 0 else r.port in
    let f : Route → Route = λ x. record x { port = port } in
    let s1 = if r.port == 0 then write_entry name f s else s in
    let assigned =
      if is_worktree_name r.parent
      then assign_reserve e name (reserve_port_values_sorted r.reserve_ports) (s1, f r)
      else some (s1, f r) in
    let (g1, unstarted) = ported-get name (r.port == 0) (or_else picked 0) s r g in
    elim (Bool-cases (r.port == 0 && not (is_some picked))) [
      | inl none_ ↦ absurd (cc (rw (none_, launch_registered) at h))
      | inr some_ ↦ elim (Option-cases assigned) [
        | inl a ↦ absurd (cc (rw (some_, launch_registered, a) at h))
        | inr (state, a) ↦
            let (g2, kept, same) =
              assigned-get e name (is_worktree_name r.parent)
                (reserve_port_values_sorted r.reserve_ports) s1 state.0 (f r) state.1 a g1 in
            let (r', g', up, port'', name'') =
              start_registered-IsUp e name r.cmd state.0 state.1 g2 kept.0
                (rw (some_, launch_registered, a) at h) in
            rw (some_, launch_registered, a)
              (
                r',
                g',
                IsUp-same e s.procs state.0.procs (start_registered e name state).1.procs r.cmd r'
                    (same ∙ unstarted) up,
                found_port (r.port == 0) picked r.port r'.port (port'' ∙ kept.1) some_,
                name'' ∙ kept.3,
              )
      ]
    ]
