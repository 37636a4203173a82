-- ===== src/Register/Served.antt =====
-- A registration of an app that succeeds (internal/daemon/api.go, `handleRegister`).
use local_vibe.Base.{
  ℕ, true, false, ◌≡◌, ◌⊎◌, ◌∙◌, refl, sym, ap, inl, inr, Bool-cases, Option-cases, Option, none,
  some, ok, Result-cases, List, [], Text, arith, text_eq, text_eq_refl, to_lower,
}
use local_vibe.Routes.{Route, RouteTable, RouteType, managed, get, is_managed}
use local_vibe.Procs.{ProcessManager}
use local_vibe.Timers.{Server, add_route, is_tracked}
use local_vibe.Timers.Tables.{get-add_route, add_route-procs}
use local_vibe.Ports.{vibe_port_claim, validate_reserve_ports, find_free_port}
use local_vibe.Config.{DaemonConfig}
use local_vibe.Bridge.{reconcile_oauth_bridge_listeners}
use local_vibe.Store.{save_sticky_routes}
use local_vibe.Handlers.{Daemon, done, or_else}
use local_vibe.Register.{
  Registering, RegisterRequest, launch_registered, callback_refused, check_request, check_ports,
  portless, new_route, type_of, is_kept, launch_added, finish_registered, add_registered,
  handle_register,
}
use local_vibe.Register.Launched.{IsUp, IsUp-same, launch_registered-IsUp}

is_managed-is_kept : (type : RouteType) → is_managed type ≡ true → is_kept type ≡ true
is_managed-is_kept type h = ground arith

finish_registered_done :
    (e : Registering) (d : Daemon) (fresh : Route) (refusal : Option ℕ) (s : Server)
    (killed : List ℕ)
    → is_managed fresh.type ≡ true
    → (finish_registered e d fresh (refusal, s, killed)).0 ≡ done
    → let d' = (finish_registered e d fresh (refusal, s, killed)).1 in
      (refusal ≡ none) × (d'.server ≡ s) × (d'.saved ≡ save_sticky_routes d'.server.table)
unfolding finish_registered
finish_registered_done e d fresh (some code) s killed m h = absurd (cc)
finish_registered_done e d fresh none s killed m h =
    elim (Option-cases
      (reconcile_oauth_bridge_listeners e.around.config s.table e.around.bindable d.listeners).1) [
        | inr (x, f) ↦ absurd (cc (rw (f, finish_registered) at h))
        | inl f ↦ rw (f, finish_registered, is_managed-is_kept fresh.type m) (refl, refl, refl)
      ]

launched_managed :
    (e : Registering) (d : Daemon) (fresh : Route)
    → is_managed fresh.type ≡ true
    → launch_added e d fresh
      ≡ launch_registered e fresh.name
          (add_route e.around.now e.around.system.alive fresh d.server, fresh)
unfolding launch_added
launched_managed e d fresh m = rw (m, launch_added) refl

check_ports-claim :
    (cfg : DaemonConfig) (table : RouteTable) (parent : Text) (q : RegisterRequest)
    (reserve : List (Text × ℕ))
    → check_ports cfg table parent q ≡ ok reserve
    → vibe_port_claim cfg table q.name q.port ≡ none
unfolding check_ports
check_ports-claim cfg table parent q reserve h = elim (Bool-cases (callback_refused cfg table q)) [
  | inl b ↦ absurd (cc (rw (check_ports, b) at h))
  | inr b ↦
      elim (Result-cases
        (validate_reserve_ports q.reserve_ports q.port (or_else q.oauth_callback_port 0))) [
          | inl (x, v) ↦ absurd (cc (rw (check_ports, b, v) at h))
          | inr (given, v) ↦ elim (Option-cases (vibe_port_claim cfg table q.name q.port)) [
            | inl c ↦ c
            | inr (x, c) ↦ absurd (cc (rw (check_ports, b, v, c) at h))
          ]
        ]
]

-- The port of a new app: one that nothing known to vibe claimed, or one that was found free when the route was in the
-- table.
abbrev pub IsUnclaimed : Registering → RouteTable → Text → ℕ → Type 0
IsUnclaimed e before name port =
    (vibe_port_claim e.around.config before name port ≡ none)
    ⊎ (t : RouteTable) × ((n : Text) → text_eq name n ≡ false → get t n ≡ get before n)
      × (find_free_port e.around.bindable (e.fallback []) t ≡ some port)

-- An app that is added with success is up on an unclaimed port, and saved.
added-IsUp :
    (e : Registering) (d : Daemon) (fresh : Route)
    → is_managed fresh.type ≡ true
    → vibe_port_claim e.around.config d.server.table fresh.name fresh.port ≡ none
    → (add_registered e d fresh).0 ≡ done
    → let d' = (add_registered e d fresh).1 in
      (r : Route) × (get d'.server.table fresh.name ≡ some r)
      × IsUp e d.server.procs d'.server.procs fresh.cmd r
      × IsUnclaimed e d.server.table fresh.name r.port
      × (r.name ≡ fresh.name)
      × (d'.saved ≡ save_sticky_routes d'.server.table)
unfolding add_registered
added-IsUp e d fresh m claim h =
    let now = e.around.now in
    let alive = e.around.system.alive in
    let name = fresh.name in
    let added = add_route now alive fresh d.server in
    let out = launch_added e d fresh in
    let (started, server, saved) = finish_registered_done e d fresh out.0 out.1 out.2 m h in
    let same = launched_managed e d fresh m in
    let free : is_tracked fresh.type ≡ false = ground arith in
    let stored : get added.table name ≡ some fresh =
      get-add_route now alive fresh d.server name free ∙ rw (text_eq_refl name) refl in
    let (r, there, up, port, named) =
      launch_registered-IsUp e name added fresh stored
        (sym (ap (λ (v : Option ℕ × Server × List ℕ). v.0) same) ∙ started) in
    (
      r,
      rw server (rw same there),
      rw server (
          rw same (
            IsUp-same e d.server.procs added.procs (launch_registered e name (added, fresh)).1.procs
              fresh.cmd r (add_route-procs now alive fresh d.server) up)),
      elim port [
        | inl (given, _) ↦ inl (rw given claim)
        | inr found ↦ inr (
          added.table,
          λ n other. get-add_route now alive fresh d.server n free ∙ rw other refl,
          found,
        )
      ],
      named,
      saved,
    )

IsUp-congr :
    (e : Registering) (pm after : ProcessManager) (cmd cmd' : Text) (r : Route)
    → cmd ≡ cmd'
    → IsUp e pm after cmd r
    → IsUp e pm after cmd' r
IsUp-congr e pm after cmd cmd' r h (launched, same, held) = (launched, same ∙ h, held)

-- A registration of an app that succeeds leaves its route running the command, without a failure and not yet ready, as
-- the process that the daemon's manager gave when it started the route; the manager is the one that this start leaves.
-- After the check before the start, none of the route's ports was held by a process that is neither the daemon's nor
-- tracked by the manager, and its primary port is one that nothing known to vibe claimed, or one that was found free.
-- The new table is what is saved.
pub handle_register_running :
    (e : Registering) (d : Daemon) (q : RegisterRequest)
    → text_eq q.url [] ≡ true
    → text_eq q.cmd [] ≡ false
    → (handle_register e d (some q)).0 ≡ done
    → let d' = (handle_register e d (some q)).1 in
      let name = to_lower q.name in
      (r : Route) × (get d'.server.table name ≡ some r)
      × IsUp e d.server.procs d'.server.procs q.cmd r
      × IsUnclaimed e d.server.table name r.port
      × (r.name ≡ name)
      × (d'.saved ≡ save_sticky_routes d'.server.table)
unfolding handle_register new_route
handle_register_running e d raw u c h =
    let q : RegisterRequest = record raw { name = to_lower raw.name } in
    elim (Result-cases (check_request e q)) [
      | inl (code, x) ↦ absurd (cc (rw (x, handle_register) at h))
      | inr (parent, x) ↦
          let q' = portless parent q in
          elim (Result-cases (check_ports e.around.config d.server.table parent q')) [
            | inl (code, p) ↦ absurd (cc (rw (x, handle_register, p) at h))
            | inr (reserve, p) ↦
                let fresh = new_route e.around.now parent reserve q' in
                let claim = check_ports-claim e.around.config d.server.table parent q' reserve p in
                let type : type_of q' ≡ managed = rw (u, c) refl in
                let same : fresh.cmd ≡ raw.cmd = rw type refl in
                let (r, there, up, port, named, saved) =
                  added-IsUp e d fresh (rw type refl) claim (rw (x, handle_register, p) at h) in
                rw (x, handle_register, p)
                  (
                    r,
                    there,
                    IsUp-congr e d.server.procs (add_registered e d fresh).1.server.procs fresh.cmd
                        raw.cmd r same up,
                    port,
                    named,
                    saved,
                  )
          ]
    ]
