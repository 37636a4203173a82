-- ===== src/Procs.antt =====
-- internal/daemon/process.go and the killing of ports and PIDs in internal/daemon/daemon.go.
-- The operating system is a record of functions: which PIDs live, their process groups, who listens
-- on a port, and what comes of launching a route's command. A signal that is sent is returned.
-- `Start` waits for a second; what the child does in that second is in the outcome of the launch.
-- The log file, the shell command's attributes and the watchers' goroutines are left out.
pub mod Start
pub mod Tracked
pub mod Kill
mod Tests
use local_vibe.Base.{
  ℕ, Bool, true, false, ◌&&◌, ◌||◌, not, Option, none, some, Result, ok, err, List, [], ◌∷◌, ◌++◌,
  map, Text, codes, if◌then◌else◌, ◌==◌, leb, lookup, insert, erase, text_eq, itoa, length, ◌-◌,
}
use local_vibe.Routes.{Route, Recovery}

-- What comes of opening the log and starting the command: no log, no start, a child that outlives
-- its first second, or one that does not, with whether its exit status was an error.
pub data Launch : Type 0 where
  no_log no_start : Launch
  lives : ℕ → Launch
  dies : ℕ → Bool → Launch

pub record System : Type 0 where
  pub alive : ℕ → Bool
  pub group_of : ℕ → Option ℕ
  pub holders : ℕ → List ℕ
  pub own_pid : ℕ
  pub launch : Route → Launch
  pub port_ready : ℕ → Bool
  pub command_of : ℕ → Text

pub record ProcessManager : Type 0 where
  pub procs : List (Text × ℕ)
  pub adopted : List (Text × ℕ)

pub data StartError : Type 0 where
  no_command log_failed start_failed exited_with_error exited_with_zero : StartError

-- A signal to the process tree of a child, or to the group of an adopted one.
pub data Signal : Type 0 where
  to_tree to_group : ℕ → Signal

abbrev pub new_process_manager : ProcessManager
new_process_manager = record { procs = []; adopted = [] }

abbrev pub pid_alive : System → Option ℕ → Bool
pid_alive sys none = false
pid_alive sys (some pid) = sys.alive pid

-- The Boolean says that a watcher is started.
unfoldable pub adopt : ProcessManager → Text → ℕ → ProcessManager × Bool
adopt pm name pid =
    let fresh : ProcessManager × Bool =
      (record pm { adopted = insert name pid pm.adopted }, true) in
    elim (lookup name pm.adopted) [
      | none ↦ fresh
      | some cur ↦ if cur == pid then (pm, false) else fresh
    ]

-- The watcher's callback; the Boolean says that `onExit` is called.
pub adopted_exit : ProcessManager → Text → ℕ → ProcessManager × Bool
adopted_exit pm name pid = elim (lookup name pm.adopted) [
  | none ↦ (pm, false)
  | some cur ↦
      if cur == pid then (record pm { adopted = erase name pm.adopted }, true) else (pm, false)
]

-- The goroutine behind `cmd.Wait`, after the first second: `onExit` is always called.
pub spawned_exit : ProcessManager → Text → ℕ → ProcessManager
spawned_exit pm name pid = elim (lookup name pm.procs) [
  | none ↦ pm
  | some cur ↦ if cur == pid then record pm { procs = erase name pm.procs } else pm
]

abbrev pub after_launch : ProcessManager → Text → Launch → ProcessManager × Result StartError ℕ
after_launch pm name no_log = (pm, err log_failed)
after_launch pm name no_start = (pm, err start_failed)
after_launch pm name (lives pid) =
    (record pm { procs = insert name pid pm.procs; adopted = erase name pm.adopted }, ok pid)
after_launch pm name (dies pid failed) = (
  record pm { procs = erase name (insert name pid pm.procs); adopted = erase name pm.adopted },
  err (if failed then exited_with_error else exited_with_zero),
)

-- What `Start` returns for a PID that it found alive.
abbrev pub tracked : Option ℕ → Result StartError ℕ
tracked none = err no_command
tracked (some pid) = ok pid

unfoldable pub start : System → ProcessManager → Route → ProcessManager × Result StartError ℕ
start sys pm route =
    let spawned = lookup route.name pm.procs in
    let adopted = lookup route.name pm.adopted in
    let run = after_launch pm route.name (sys.launch route) in
    if pid_alive sys spawned
    then (pm, tracked spawned)
    else if pid_alive sys adopted
    then (pm, tracked adopted)
    else if text_eq route.cmd []
    then (pm, err no_command)
    else run

-- none is the error "not running".
pub stop : ProcessManager → Text → ProcessManager × Option Signal
stop pm name = elim (lookup name pm.procs) [
  | some pid ↦ (
    record pm { procs = erase name pm.procs; adopted = erase name pm.adopted },
    some (to_tree pid),
  )
  | none ↦ elim (lookup name pm.adopted) [
    | some pid ↦ (record pm { adopted = erase name pm.adopted }, some (to_group pid))
    | none ↦ (pm, none)
  ]
]

pub is_running : System → ProcessManager → Text → Bool
is_running sys pm name = elim (lookup name pm.procs) [
  | some pid ↦ sys.alive pid
  | none ↦ pid_alive sys (lookup name pm.adopted)
]

abbrev pub pids : List (Text × ℕ) → List ℕ
pids [] = []
pids ((n, p) ∷ m) = p ∷ pids m

abbrev pub member : ℕ → List ℕ → Bool
member p [] = false
member p (q ∷ qs) = q == p || member p qs

pub owns_pid : System → ProcessManager → ℕ → Bool
owns_pid sys pm pid =
    let leaders = pids pm.procs ++ pids pm.adopted in
    if member pid leaders
    then true
    else elim (sys.group_of pid) [ none ↦ false | some pgid ↦ member pgid leaders ]

pub data KillRefusal : Type 0 where
  invalid_pid the_daemon managed_route not_found : KillRefusal

-- none of these refusals: the PID is signalled.
pub safe_kill_pid : System → ProcessManager → ℕ → Result KillRefusal ℕ
safe_kill_pid sys pm pid =
    if leb pid 1
    then err invalid_pid
    else if pid == sys.own_pid
    then err the_daemon
    else if owns_pid sys pm pid
    then err managed_route
    else if not (sys.alive pid)
    then err not_found
    else ok pid

-- The PIDs that `killPort` signals, in order.
pub kill_targets : System → ProcessManager → List ℕ → List ℕ
kill_targets sys pm [] = []
kill_targets sys pm (pid ∷ rest) =
    let more = kill_targets sys pm rest in
    if pid == sys.own_pid then more else if owns_pid sys pm pid then more else pid ∷ more

pub kill_port : System → ProcessManager → ℕ → List ℕ
unfolding kill_targets
kill_port sys pm port = kill_targets sys pm (sys.holders port)

-- The holders that are neither the daemon nor a managed child.
pub external : System → ProcessManager → List ℕ → List ℕ
external sys pm [] = []
external sys pm (pid ∷ rest) =
    let more = external sys pm rest in
    if pid == sys.own_pid then more else if owns_pid sys pm pid then more else pid ∷ more

abbrev pub held_message : ℕ → ℕ → Text → Text
held_message port pid cmd =
    codes "Port "
    ++ (itoa port
        ++ (codes " is held by PID "
            ++ (itoa pid
                ++ ((if text_eq cmd [] then [] else codes " (" ++ (cmd ++ codes ")"))
                    ++ codes ". Kill it and retry?"))))

abbrev pub conflict_hint : System → ℕ → List ℕ → Option Recovery
conflict_hint sys port [] = none
conflict_hint sys port (pid ∷ []) = some (record {
  message = held_message port pid (sys.command_of pid);
  action = codes "kill_pid";
  recovery_pid = pid;
  recovery_port = 0;
  suggested_cmd = [];
})
conflict_hint sys port (pid ∷ q ∷ more) = some (record {
  message =
      codes "Port "
      ++ (itoa port
          ++ (codes " is held by "
              ++ (itoa (length (pid ∷ q ∷ more)) ++ codes " processes. Kill them all and retry?")));
  action = codes "kill_port";
  recovery_pid = 0;
  recovery_port = port;
  suggested_cmd = [];
})

pub build_port_conflict_recovery : System → ProcessManager → ℕ → Option Recovery
unfolding external
build_port_conflict_recovery sys pm port =
    conflict_hint sys port (external sys pm (sys.holders port))

-- The hint, and the PIDs that were signalled on the way. `later` is the system half a second after
-- the signals.
unfoldable pub preflight_port : System → System → ProcessManager → ℕ → Option Recovery × List ℕ
preflight_port sys later pm port =
    if port == 0
    then (none, [])
    else if not (sys.port_ready port)
    then (none, [])
    else if not (later.port_ready port)
    then (none, kill_port sys pm port)
    else (build_port_conflict_recovery later pm port, kill_port sys pm port)

-- `strings.ToUpper` on ASCII.
abbrev pub upper : ℕ → ℕ
upper c = if leb b'a' c && leb c b'z' then c - 32 else c

abbrev pub reserve_env : List (Text × ℕ) → List Text
reserve_env [] = []
reserve_env ((name, p) ∷ rest) =
    (codes "PORT_" ++ (map upper name ++ (codes "=" ++ itoa p))) ∷ reserve_env rest

-- The bindings that `Start` appends to the daemon's environment.
pub spawn_env : Route → List Text → List Text
spawn_env route extra =
    ((codes "PORT=" ++ itoa route.port) ∷ reserve_env route.reserve_ports) ++ extra
