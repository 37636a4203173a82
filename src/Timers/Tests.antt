-- ===== src/Timers/Tests.antt =====
-- Tests of the timers, and their theorems at concrete states.
use local_vibe.Base.{
  ℕ, ◌+◌, ◌-◌, ◌≤◌, Bool, true, ◌≡◌, refl, none, some, [], Text, codes, arith, if◌then◌else◌, ltb,
  lookup, insert, erase, text_eq,
}
use local_vibe.Routes.{Route, Failure, get, add, remove, managed, ttl, pid_tracked}
use local_vibe.Routes.Samples.{plain}
use local_vibe.Timers.{
  Server, remove_route, add_route, on_route_added, on_untimed_added, arm_idle, run_hook, run_hooks,
  on_route_removed, watch_tracked_pid, fire_ttl, idle_check, handle_managed_exit, second,
}
use local_vibe.Timers.Sync.{IsSynced, add_route-IsSynced}
use local_vibe.Timers.Ttl.{ttl_lifetime}
use local_vibe.Timers.Idle.{idle_check_lem, idle_check-rearms, after_check, procs_after, next_delay}
use local_vibe.Timers.Exit.{handle_managed_exit_lem, after_exit}

abbrev empty : Server
empty = record {
  table = record { routes = []; on_add = true; on_remove = true };
  ttl_timers = [];
  idle_timers = [];
  procs = record { procs = []; adopted = [] };
  watched = [];
}

empty-IsSynced : IsSynced empty
unfolding get lookup
empty-IsSynced = record {
  hook_add = refl;
  hook_remove = refl;
  ttl_match = λ n. refl;
  idle_match = λ n. refl;
}

abbrev shop : Text
shop = codes "shop"

-- A managed app with an idle timeout of one minute, running as process 500 since the time 1000.
abbrev app : Route
app = let base = plain shop managed 3000 in record base { idle_timeout = 1; pid = some 500 }

abbrev lease : Route
lease = let base = plain shop ttl 3000 in record base { expires_at = some 9000 }

abbrev dead : Route
dead = let base = plain shop pid_tracked 3000 in record base { pid = some 77 }

abbrev alive : ℕ → Bool
alive pid = ltb 100 pid

abbrev crash : Failure
crash = record { message = codes "exit 1"; log = []; recovery = none }

abbrev with_app : Server
with_app = add_route 1000 alive app empty

with_app-IsSynced : IsSynced with_app
with_app-IsSynced = add_route-IsSynced 1000 alive app empty empty-IsSynced

app_stored : get with_app.table shop ≡ some app
unfolding add_route run_hooks run_hook on_route_added on_untimed_added arm_idle get add lookup
    insert
app_stored = refl

-- A registration of a dead process is dropped at once.
dead_dropped : get (add_route 1000 alive dead empty).table shop ≡ none
unfolding add_route run_hooks run_hook on_route_added on_untimed_added watch_tracked_pid
    remove_route on_route_removed get add remove lookup erase insert
dead_dropped = refl

add_route-IsSynced_example : IsSynced (add_route 2000 alive lease with_app)
add_route-IsSynced_example = add_route-IsSynced 2000 alive lease with_app with_app-IsSynced

ttl_lifetime_example :
    (lookup shop (add_route 2000 alive lease with_app).ttl_timers ≡ some (2000 + (9000 - 2000)))
    × ((later : ℕ)
        → get (fire_ttl later shop (add_route 2000 alive lease with_app)).table shop
          ≡ (if ltb later 9000 then some lease else none))
ttl_lifetime_example =
    ttl_lifetime 2000 9000 alive lease with_app with_app-IsSynced.hook_add
      with_app-IsSynced.hook_remove refl refl

idle_check_lem_example :
    IsSynced (idle_check 60000001000 shop with_app)
    × ((n : Text)
        → get (idle_check 60000001000 shop with_app).table n ≡ (
            if text_eq shop n
            then after_check 60000001000 (get with_app.table n)
            else get with_app.table n))
    × ((idle_check 60000001000 shop with_app).procs
        ≡ procs_after 60000001000 shop (get with_app.table shop) with_app.procs)
idle_check_lem_example = idle_check_lem 60000001000 shop with_app with_app-IsSynced

idle_check-rearms_example :
    (lookup shop (idle_check 50000001000 shop with_app).idle_timers
      ≡ some (50000001000 + next_delay 50000001000 app))
    × (second ≤ next_delay 50000001000 app)
idle_check-rearms_example =
    idle_check-rearms 50000001000 shop app with_app with_app-IsSynced app_stored refl (omega arith)

handle_managed_exit_lem_example :
    IsSynced (handle_managed_exit crash shop 500 with_app)
    × ((n : Text)
        → get (handle_managed_exit crash shop 500 with_app).table n ≡ (
            if text_eq shop n
            then after_exit crash 500 (get with_app.table n)
            else get with_app.table n))
handle_managed_exit_lem_example = handle_managed_exit_lem crash shop 500 with_app with_app-IsSynced
