-- ===== src/Procs/Kill.antt =====
-- Whom the daemon signals (internal/daemon/daemon.go, `safeKillPID`, `killPort`, `preflightPort`).
use local_vibe.Base.{
  ℕ, true, false, ◌≡◌, ◌⊎◌, ◌<◌, refl, inl, inr, Bool-cases, some, ok, List, [], ◌∷◌, ◌++◌, Text,
  arith, ◌==◌, ◌||◌, lookup, not, All,
}
use local_vibe.Procs.{
  System, ProcessManager, pids, member, owns_pid, safe_kill_pid, kill_targets, kill_port, external,
  conflict_hint, build_port_conflict_recovery, preflight_port,
}
use local_vibe.Routes.{Recovery}

-- A process that the recovery flow may signal: not the daemon, no child of a route, nor a member of
-- a child's process group.
pub record IsStranger (sys : System) (pm : ProcessManager) (pid : ℕ) : Type 0 where
  pub not_daemon : (pid == sys.own_pid) ≡ false
  pub not_owned : owns_pid sys pm pid ≡ false

kill_targets-IsStranger :
    (sys : System) (pm : ProcessManager) (qs : List ℕ)
    → All (IsStranger sys pm) (kill_targets sys pm qs)
unfolding kill_targets
kill_targets-IsStranger sys pm [] = tt
kill_targets-IsStranger sys pm (q ∷ qs) = elim (Bool-cases (q == sys.own_pid)) [
  | inl e ↦ rw e (kill_targets-IsStranger sys pm qs)
  | inr e ↦ elim (Bool-cases (owns_pid sys pm q)) [
    | inl f ↦ rw (e, f) (kill_targets-IsStranger sys pm qs)
    | inr f ↦
        rw (e, f) (record { not_daemon = e; not_owned = f }, kill_targets-IsStranger sys pm qs)
  ]
]

-- Freeing a port signals strangers only, on every branch of the check before a start.
pub preflight_port-IsStranger :
    (sys later : System) (pm : ProcessManager) (port : ℕ)
    → All (IsStranger sys pm) (preflight_port sys later pm port).1
unfolding preflight_port kill_port
preflight_port-IsStranger sys later pm port = elim (Bool-cases (port == 0)) [
  | inl a ↦ rw a tt
  | inr a ↦ elim (Bool-cases (not (sys.port_ready port))) [
    | inl b ↦ rw (a, b) tt
    | inr b ↦ elim (Bool-cases (not (later.port_ready port))) [
      | inl c ↦ rw (a, b, c) (kill_targets-IsStranger sys pm (sys.holders port))
      | inr c ↦ rw (a, b, c) (kill_targets-IsStranger sys pm (sys.holders port))
    ]
  ]
]

-- A PID that a user asks to kill is signalled only if it is a living stranger above 1.
pub safe_kill_pid_sound :
    (sys : System) (pm : ProcessManager) (pid target : ℕ)
    → safe_kill_pid sys pm pid ≡ ok target
    → (target ≡ pid) × (1 < pid) × IsStranger sys pm pid × (sys.alive pid ≡ true)
unfolding safe_kill_pid
safe_kill_pid_sound sys pm pid target h = (
  ground arith,
  ground arith,
  record { not_daemon = ground arith; not_owned = ground arith },
  ground arith,
)

member-append : (p : ℕ) (qs rs : List ℕ) → member p (qs ++ rs) ≡ (member p qs || member p rs)
member-append p [] rs = refl
member-append p (q ∷ qs) rs = ground (arith, member-append p qs rs)

lookup-member :
    (name : Text) (pid : ℕ) (m : List (Text × ℕ))
    → lookup name m ≡ some pid
    → member pid (pids m) ≡ true
unfolding lookup
lookup-member name pid [] h = absurd (cc)
lookup-member name pid ((j, q) ∷ m) h = ground (arith, lookup-member name pid m)

-- A child that the manager tracks for any route, spawned or adopted, is owned, and so is every
-- process of its group: the recovery flow never signals them.
pub tracked-owned :
    (sys : System) (pm : ProcessManager) (name : Text) (leader pid : ℕ)
    → (lookup name pm.procs ≡ some leader) ⊎ (lookup name pm.adopted ≡ some leader)
    → (pid ≡ leader) ⊎ (sys.group_of pid ≡ some leader)
    → owns_pid sys pm pid ≡ true
unfolding owns_pid
tracked-owned sys pm name leader pid here who =
    let listed : member leader (pids pm.procs ++ pids pm.adopted) ≡ true = ground (
      arith,
      member-append leader (pids pm.procs) (pids pm.adopted),
      lookup-member name leader pm.procs,
      lookup-member name leader pm.adopted,
    ) in
    ground arith

-- A conflict hint never offers to kill the daemon or a managed child.
one_external :
    (sys : System) (pm : ProcessManager) (qs : List ℕ)
    → All (IsStranger sys pm) (external sys pm qs)
unfolding external
one_external sys pm [] = tt
one_external sys pm (q ∷ qs) = elim (Bool-cases (q == sys.own_pid)) [
  | inl e ↦ rw e (one_external sys pm qs)
  | inr e ↦ elim (Bool-cases (owns_pid sys pm q)) [
    | inl f ↦ rw (e, f) (one_external sys pm qs)
    | inr f ↦ rw (e, f) (record { not_daemon = e; not_owned = f }, one_external sys pm qs)
  ]
]

hint_pid :
    (sys : System) (pm : ProcessManager) (port : ℕ) (qs : List ℕ) (r : Recovery)
    → All (IsStranger sys pm) qs
    → conflict_hint sys port qs ≡ some r
    → (r.recovery_pid ≡ 0) ⊎ IsStranger sys pm r.recovery_pid
hint_pid sys pm port [] r h e = absurd (cc)
hint_pid sys pm port (q ∷ []) r h e = inr (ground arith)
hint_pid sys pm port (q ∷ s ∷ qs) r h e = inl (ground arith)

pub build_port_conflict_recovery-IsStranger :
    (sys : System) (pm : ProcessManager) (port : ℕ) (r : Recovery)
    → build_port_conflict_recovery sys pm port ≡ some r
    → (r.recovery_pid ≡ 0) ⊎ IsStranger sys pm r.recovery_pid
unfolding build_port_conflict_recovery
build_port_conflict_recovery-IsStranger sys pm port r h =
    hint_pid sys pm port (external sys pm (sys.holders port)) r
      (one_external sys pm (sys.holders port)) h
