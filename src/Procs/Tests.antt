-- ===== src/Procs/Tests.antt =====
-- Tests of the process manager, and its theorems at one state of the system.
use local_vibe.Base.{◌≡◌, refl, some, err, [], ◌∷◌, codes, if◌then◌else◌, ◌==◌, ◌||◌, All, itoa}
use local_vibe.Procs.{
  System, ProcessManager, lives, owns_pid, safe_kill_pid, kill_port, preflight_port, spawn_env,
  managed_route,
}
use local_vibe.Procs.Kill.{IsStranger, preflight_port-IsStranger}
use local_vibe.Routes.Samples.{app}

-- 500 leads app's group, 501 is in it, 700 is a stranger, 900 is the daemon; all hold port 3000.
abbrev sys : System
sys = record {
  alive = λ pid. pid == 500 || (pid == 501 || (pid == 700 || pid == 900));
  group_of = λ pid. if pid == 501 then some 500 else some pid;
  holders = λ port. if port == 3000 then 501 ∷ 900 ∷ 700 ∷ [] else [];
  own_pid = 900;
  launch = λ r. lives 700;
  port_ready = λ port. port == 3000;
  command_of = λ pid. codes "node";
}

abbrev pm : ProcessManager
pm = record { procs = (codes "app", 500) ∷ []; adopted = [] }

abbrev empty : ProcessManager
empty = record { procs = []; adopted = [] }

targets : (kill_port sys pm 3000 ≡ 700 ∷ []) × (safe_kill_pid sys pm 501 ≡ err managed_route)
unfolding kill_port safe_kill_pid owns_pid
targets = (refl, refl)

env :
    spawn_env app (codes "AUTH_URL=http://localhost:4000" ∷ [])
    ≡ codes "PORT=3000" ∷ codes "PORT_SERVER=3002" ∷ codes "AUTH_URL=http://localhost:4000" ∷ []
unfolding spawn_env itoa
env = refl

preflight_port-IsStranger_example : All (IsStranger sys pm) (preflight_port sys sys pm 3000).1
preflight_port-IsStranger_example = preflight_port-IsStranger sys sys pm 3000
