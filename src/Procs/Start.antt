-- ===== src/Procs/Start.antt =====
-- Starting, stopping and exiting of managed children (internal/daemon/process.go).
use local_vibe.Base.{
  ℕ, true, false, ◌≡◌, ◌≢◌, ◌⊎◌, refl, inl, inr, Bool-cases, Option-cases, none, some, ok, [], Text,
  arith, if◌then◌else◌, lookup, lookup-insert, lookup-erase, text_eq, text_eq_iff, text_eq_refl,
}
use local_vibe.Procs.{
  System, ProcessManager, Launch, no_log, no_start, lives, dies, pid_alive, adopted_exit,
  spawned_exit, after_launch, start, stop,
}
use local_vibe.Routes.{Route}

-- Starting a route whose child lives, spawned or adopted, launches nothing: whatever a launch would
-- do, the manager is unchanged, and the PID returned is alive and tracked under the route's name.
pub start_running :
    (sys : System) (pm : ProcessManager) (route : Route)
    → (pid_alive sys (lookup route.name pm.procs) ≡ true)
      ⊎ (pid_alive sys (lookup route.name pm.adopted) ≡ true)
    → (pid : ℕ) × (start sys pm route ≡ (pm, ok pid))
      × (sys.alive pid ≡ true)
      × ((lookup route.name pm.procs ≡ some pid) ⊎ (lookup route.name pm.adopted ≡ some pid))
unfolding start
start_running sys pm route h = elim (Bool-cases (pid_alive sys (lookup route.name pm.procs))) [
  | inl e ↦ elim (Option-cases (lookup route.name pm.procs)) [
    | inl f ↦ absurd (ground arith)
    | inr (pid, f) ↦ (pid, ground arith, ground arith, inl f)
  ]
  | inr e ↦ elim (Option-cases (lookup route.name pm.adopted)) [
    | inl f ↦ absurd (ground arith)
    | inr (pid, f) ↦ (pid, ground arith, ground arith, inr f)
  ]
]

launched :
    (pm : ProcessManager) (name : Text) (l : Launch) (pid : ℕ)
    → (after_launch pm name l).1 ≡ ok pid
    → (l ≡ lives pid) × (lookup name (after_launch pm name l).0.procs ≡ some pid)
launched pm name no_log pid h = absurd (cc)
launched pm name no_start pid h = absurd (cc)
launched pm name (lives p) pid h =
    ground (arith, lookup-insert name name p pm.procs, text_eq_refl name)
launched pm name (dies p failed) pid h = absurd (cc)

-- A start that returns a PID leaves it tracked under the route's name, in one map or the other, and
-- alive, if a child that outlives its first second is alive.
pub start_tracks :
    (sys : System) (pm : ProcessManager) (route : Route) (pid : ℕ)
    → ((p : ℕ) → sys.launch route ≡ lives p → sys.alive p ≡ true)
    → (start sys pm route).1 ≡ ok pid
    → (sys.alive pid ≡ true)
      × ((lookup route.name (start sys pm route).0.procs ≡ some pid)
          ⊎ (lookup route.name (start sys pm route).0.adopted ≡ some pid))
unfolding start
start_tracks sys pm route pid fresh h =
    elim (Bool-cases (pid_alive sys (lookup route.name pm.procs))) [
      | inl e ↦ (ground arith, inl (ground arith))
      | inr e ↦ elim (Bool-cases (pid_alive sys (lookup route.name pm.adopted))) [
        | inl f ↦ (ground arith, inr (ground arith))
        | inr f ↦ elim (Bool-cases (text_eq route.cmd [])) [
          | inl g ↦ absurd (ground arith)
          | inr g ↦
              let (l, found) = launched pm route.name (sys.launch route) pid (rw (e, f, g) at h) in
              (fresh pid l, rw (e, f, g) (inl found))
        ]
      ]
    ]

stop_parts :
    (pm : ProcessManager) (name n : Text)
    → (lookup n (stop pm name).0.procs ≡ (if text_eq name n then none else lookup n pm.procs))
      × (lookup n (stop pm name).0.adopted ≡ (if text_eq name n then none else lookup n pm.adopted))
unfolding stop
stop_parts pm name n = elim (Option-cases (lookup name pm.procs)) [
  | inr (pid, e) ↦ rw (e, stop) (lookup-erase name n pm.procs, lookup-erase name n pm.adopted)
  | inl e ↦ elim (Option-cases (lookup name pm.adopted)) [
    | inr (pid, f) ↦
        rw (e, f, stop) (ground (arith, text_eq_iff name n), lookup-erase name n pm.adopted)
    | inl f ↦
        rw (e, f, stop) (ground (arith, text_eq_iff name n), ground (arith, text_eq_iff name n))
  ]
]

stop_untracked :
    (pm : ProcessManager) (name : Text)
    → lookup name pm.procs ≡ none
    → lookup name pm.adopted ≡ none
    → stop pm name ≡ (pm, none)
unfolding stop
stop_untracked pm name p a = rw (p, a, stop) refl

-- After a stop neither map has the name, every other name is as before, and a second stop reports
-- that nothing is running and changes nothing.
pub stop_forgets :
    (pm : ProcessManager) (name n : Text)
    → (lookup n (stop pm name).0.procs ≡ (if text_eq name n then none else lookup n pm.procs))
      × (lookup n (stop pm name).0.adopted ≡ (if text_eq name n then none else lookup n pm.adopted))
      × (stop (stop pm name).0 name ≡ ((stop pm name).0, none))
stop_forgets pm name n =
    let (p, a) = stop_parts pm name n in
    let (p', a') = stop_parts pm name name in
    (
      p,
      a,
      stop_untracked (stop pm name).0 name (ground (arith, text_eq_refl name))
          (ground (arith, text_eq_refl name)),
    )

-- A stale notice of an exit, for a PID that a restart has replaced, forgets nothing.
pub stale_exit :
    (pm : ProcessManager) (name : Text) (cur pid : ℕ)
    → cur ≢ pid
    → lookup name pm.procs ≡ some cur
    → lookup name pm.adopted ≡ some cur
    → (spawned_exit pm name pid ≡ pm) × (adopted_exit pm name pid ≡ (pm, false))
unfolding spawned_exit adopted_exit
stale_exit pm name cur pid ne p a = (ground arith, ground arith)
