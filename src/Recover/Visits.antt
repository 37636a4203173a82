-- ===== src/Recover/Visits.antt =====
-- What a visit may set off (internal/daemon/autostart.go, `recoverManagedRoute`).
use local_vibe.Base.{
  ℕ, Bool, true, false, not, ◌&&◌, ◌||◌, ◌≡◌, refl, inl, inr, Bool-cases, Option-cases, Option,
  none, some, List, [], ◌∷◌, Text, arith, if◌then◌else◌, ◌==◌, text_eq, is_some,
}
use local_vibe.Config.{auto_start_enabled}
use local_vibe.Routes.{Route}
use local_vibe.Procs.{System, ProcessManager, member, adopt}
use local_vibe.Handlers.{Daemon}
use local_vibe.Recover.{
  Visit, StartRefusal, Served, starting_page, start_page, proxied, worktree_dir_gone, in_group,
  adopt_orphan, normalized, may_spawn, write, start_managed_now, recover_managed_route,
}

in_group_sound :
    (sys : System) (pgid : ℕ) (ps : List ℕ)
    → in_group sys pgid ps ≡ true
    → (p : ℕ) × (member p ps ≡ true) × (sys.group_of p ≡ some pgid)
unfolding in_group
in_group_sound sys pgid [] h = absurd (cc)
in_group_sound sys pgid (q ∷ qs) h = elim (Option-cases (sys.group_of q)) [
  | inl e ↦ later (in_group_sound sys pgid qs (ground arith))
  | inr (g, e) ↦ elim (Bool-cases (g == pgid)) [
    | inl f ↦ (q, ground arith, ground arith)
    | inr f ↦ later (in_group_sound sys pgid qs (ground arith))
  ]
]
  where
    later :
        (p : ℕ) × (member p qs ≡ true) × (sys.group_of p ≡ some pgid)
        → (p : ℕ) × (member p (q ∷ qs) ≡ true) × (sys.group_of p ≡ some pgid)
    later (p, m, g) = (p, ground arith, g)

-- A process of the route's own: its PID lives, and a member of that PID's group holds the route's port.
abbrev pub IsServed : System → Route → Type 0
IsServed sys r =
    (leader : ℕ) × (pgid : ℕ) × (holder : ℕ) × (r.pid ≡ some leader)
    × (sys.alive leader ≡ true)
    × (sys.group_of leader ≡ some pgid)
    × (sys.group_of holder ≡ some pgid)
    × (member holder (sys.holders r.port) ≡ true)

adopt_orphan-IsServed :
    (sys : System) (r : Route) (pid : ℕ)
    → adopt_orphan sys (normalized sys r) ≡ some pid
    → IsServed sys r
unfolding adopt_orphan
adopt_orphan-IsServed sys r pid h = elim (Option-cases r.pid) [
  | inl e ↦ absurd (cc (rw (adopt_orphan, e) at h))
  | inr (leader, e) ↦ elim (Bool-cases (sys.alive leader)) [
    | inr a ↦ absurd (cc (rw (adopt_orphan, e, a) at h))
    | inl a ↦ elim (Option-cases (sys.group_of leader)) [
      | inl g ↦ absurd (ground arith)
      | inr (pgid, g) ↦
          let held : in_group sys pgid (sys.holders r.port) ≡ true =
            elim (Bool-cases (in_group sys pgid (sys.holders r.port))) [
              | inl b ↦ b
              | inr b ↦ absurd (ground arith)
            ] in
          let (holder, m, same) = in_group_sound sys pgid (sys.holders r.port) held in
          (leader, pgid, holder, e, a, g, same, m)
    ]
  ]
]

page_only :
    (begins : Bool) (idle after : Daemon) (killed : List ℕ) (refusal : Option StartRefusal)
    → (if◌then◌else◌ {A = Served × Daemon × List ℕ}
        (not begins)
        (starting_page, idle, [])
        (elim refusal [ some _ ↦ start_page | none ↦ starting_page ], after, killed)).0
      ≡ proxied
    → ⊥
page_only false idle after killed refusal h = cc
page_only true idle after killed none h = cc
page_only true idle after killed (some x) h = cc

-- With no process to adopt, a page is served.
pub recover_page :
    (v : Visit) (d : Daemon) (name : Text) (route : Route)
    → adopt_orphan v.around.system (normalized v.around.system route) ≡ none
    → (recover_managed_route v d name route).0 ≡ proxied
    → ⊥
unfolding recover_managed_route
recover_page v d name route e h = elim (Bool-cases (worktree_dir_gone v.is_gone route)) [
  | inl a ↦ cc (rw (recover_managed_route, a) at h)
  | inr a ↦ elim (Bool-cases v.auto_starting) [
    | inl b ↦ cc (rw (recover_managed_route, a, b) at h)
    | inr b ↦ elim (Bool-cases (not (route.port == 0) && v.around.system.port_ready route.port)) [
      | inl c ↦ cc (rw (recover_managed_route, a, b, e, c) at h)
      | inr c ↦
          elim (Bool-cases (
            may_spawn v (write d name (normalized v.around.system))
              (normalized v.around.system route))) [
                | inr f ↦ cc (rw (recover_managed_route, a, b, e, c, f) at h)
                | inl f ↦
                    let t =
                      start_managed_now v (write d name (normalized v.around.system)) name
                        (normalized v.around.system route) in
                    page_only v.begins (write d name (normalized v.around.system)) t.1 t.2 t.0
                      (rw (recover_managed_route, a, b, e, c, f) at h)
              ]
    ]
  ]
]

-- A visit to a managed route that is not running goes on to the proxy only if the route's own process
-- still serves its port: its PID lives, and a member of that process group holds the port.
pub recover_proxied :
    (v : Visit) (d : Daemon) (name : Text) (route : Route)
    → (recover_managed_route v d name route).0 ≡ proxied
    → IsServed v.around.system route
unfolding recover_managed_route
recover_proxied v d name route h =
    elim (Option-cases (adopt_orphan v.around.system (normalized v.around.system route))) [
      | inr (pid, e) ↦ adopt_orphan-IsServed v.around.system route pid e
      | inl e ↦ absurd (recover_page v d name route e h)
    ]

adopt_procs : (pm : ProcessManager) (name : Text) (pid : ℕ) → (adopt pm name pid).0.procs ≡ pm.procs
unfolding adopt
adopt_procs pm name pid = ground arith

-- Whether a visit must not spawn: the port is held, the feature is off, there is no command, or the last start failed.
abbrev pub is_blocked : Visit → Route → Bool
is_blocked v r =
    not (r.port == 0) && v.around.system.port_ready r.port
    || not (auto_start_enabled v.around.config)
    || text_eq r.cmd []
    || is_some r.last_failure

blocked_spawn :
    (v : Visit) (d : Daemon) (route : Route)
    → is_blocked v route ≡ true
    → (not (route.port == 0) && v.around.system.port_ready route.port) ≡ false
    → may_spawn v d (normalized v.around.system route) ≡ false
blocked_spawn v d route h c = ground arith

-- A visit to a route whose worktree is not gone signals no process and leaves the spawned children as they
-- are, if its port is held, on-demand starts are off, it has no command, or its last start left a failure.
pub recover_blocked :
    (v : Visit) (d : Daemon) (name : Text) (route : Route)
    → worktree_dir_gone v.is_gone route ≡ false
    → is_blocked v route ≡ true
    → ((recover_managed_route v d name route).1.server.procs.procs ≡ d.server.procs.procs)
      × ((recover_managed_route v d name route).2 ≡ [])
unfolding recover_managed_route
recover_blocked v d name route a h = elim (Bool-cases v.auto_starting) [
  | inl b ↦ rw (recover_managed_route, a, b) (refl, refl)
  | inr b ↦ elim (Option-cases (adopt_orphan v.around.system (normalized v.around.system route))) [
    | inr (pid, e) ↦ rw (recover_managed_route, a, b, e) (adopt_procs d.server.procs name pid, refl)
    | inl e ↦ elim (Bool-cases (not (route.port == 0) && v.around.system.port_ready route.port)) [
      | inl c ↦ rw (recover_managed_route, a, b, e, c) (refl, refl)
      | inr c ↦
          rw
            (
              recover_managed_route,
              a,
              b,
              e,
              c,
              blocked_spawn v (write d name (normalized v.around.system)) route h c,
            )
            (refl, refl)
    ]
  ]
]
