-- ===== src/Routes.antt =====
-- internal/daemon/routes.go: the `Route` record and the `RouteTable`.
-- The table's map holds pointers; a write through one is here a new record stored under the same
-- key (`update`). The hooks are not called but returned, as the list of calls in their order; the
-- scheduler of timers (Timers) runs them. A lock is held for each operation, so operations are
-- atomic here. Times are nanoseconds, ports and minutes are not negative. The fields of a route
-- that cache the last ownership probe are left out.
pub mod Lookup
pub mod Refined
pub mod Listing
pub mod Hooks
pub mod Samples
mod Tests
use local_vibe.Base.{
  ℕ, Bool, true, false, ◌&&◌, not, Option, none, some, List, [], ◌∷◌, ◌++◌, map, Text,
  if◌then◌else◌, ◌==◌, lookup, insert, erase, has_key, sort_by,
}

pub data RouteType : Type 0 where
  sticky pid_tracked ttl managed bookmark : RouteType

abbrev pub is_managed : RouteType → Bool
is_managed managed = true
is_managed _ = false

abbrev pub is_bookmark : RouteType → Bool
is_bookmark bookmark = true
is_bookmark _ = false

abbrev pub is_ttl : RouteType → Bool
is_ttl ttl = true
is_ttl _ = false

abbrev pub is_sticky : RouteType → Bool
is_sticky sticky = true
is_sticky _ = false

-- internal/daemon/log_scan.go, `Recovery`.
pub record Recovery : Type 0 where
  pub message : Text
  pub action : Text
  pub recovery_pid : ℕ
  pub recovery_port : ℕ
  pub suggested_cmd : Text

pub record Failure : Type 0 where
  pub message : Text
  pub log : Text
  pub recovery : Option Recovery

pub record Route : Type 0 where
  pub name : Text
  pub parent : Text
  pub port : ℕ
  pub ttl_seconds : Option ℕ
  pub cmd : Text
  pub dir : Text
  pub external_url : Text
  pub registered_at : ℕ
  pub expires_at : Option ℕ
  pub type : RouteType
  pub idle_timeout : ℕ
  pub icon : Text
  pub auto_icon : Text
  pub oauth_callback_port : ℕ
  pub reserve_ports : List (Text × ℕ)
  pub proxy : Bool
  pub insecure_skip_verify : Bool
  pub running : Bool
  pub ready : Bool
  pub pid : Option ℕ
  pub last_activity : Option ℕ
  pub last_failure : Option Failure

abbrev pub set_pid : ℕ → Route → Route
set_pid pid r = record r { pid = some pid }

abbrev pub clear_pid : Route → Route
clear_pid r = record r { pid = none }

-- `TouchActivity` at the time `now`.
abbrev pub touch_activity : ℕ → Route → Route
touch_activity now r = record r { last_activity = some now }

abbrev pub set_failure : Option Failure → Route → Route
set_failure f r = record r { last_failure = f }

-- The zero time counts as none.
abbrev pub last_activity_or : Route → ℕ → ℕ
last_activity_or r fallback = elim r.last_activity [
  | none ↦ fallback
  | some t ↦ if t == 0 then fallback else t
]

-- A call of `onAdd` or `onRemove`.
pub data HookCall : Type 0 where
  added : Route → HookCall
  removed : Text → HookCall

pub record RouteTable : Type 0 where
  pub routes : List (Text × Route)
  pub on_add : Bool
  pub on_remove : Bool

abbrev pub new_route_table : RouteTable
new_route_table = record { routes = []; on_add = false; on_remove = false }

abbrev pub set_hooks : Bool → Bool → RouteTable → RouteTable
set_hooks on_add on_remove t = record t { on_add = on_add; on_remove = on_remove }

unfoldable pub get : RouteTable → Text → Option Route
get t name = lookup name t.routes

unfoldable pub add : RouteTable → Route → RouteTable × List HookCall
add t r =
    let existed = has_key r.name t.routes in
    let torn_down = if existed && t.on_remove then removed r.name ∷ [] else [] in
    let armed = if t.on_add then added r ∷ [] else [] in
    (record t { routes = insert r.name r t.routes }, torn_down ++ armed)

-- The table, what `Remove` returns, and the hook's calls.
unfoldable pub remove : RouteTable → Text → RouteTable × Bool × List HookCall
remove t name =
    let ok = has_key name t.routes in
    (
      (if ok then record t { routes = erase name t.routes } else t),
      ok,
      (if ok && t.on_remove then removed name ∷ [] else []),
    )

-- A write through the pointer that the table holds for a name.
unfoldable pub update : RouteTable → Text → (Route → Route) → RouteTable × Bool
update t name f = elim (lookup name t.routes) [
  | none ↦ (t, false)
  | some r ↦ (record t { routes = insert name (f r) t.routes }, true)
]

abbrev pub with_managed_config : Text → ℕ → List (Text × ℕ) → Route → Route
with_managed_config cmd oauth_callback_port reserve_ports r = record r {
  cmd = cmd;
  oauth_callback_port = oauth_callback_port;
  reserve_ports = reserve_ports;
}

unfoldable pub update_managed_config :
    RouteTable → Text → Text → ℕ → List (Text × ℕ) → RouteTable × Bool
unfolding update
update_managed_config t name cmd oauth_callback_port reserve_ports =
    update t name (with_managed_config cmd oauth_callback_port reserve_ports)

pub update_port : RouteTable → Text → ℕ → RouteTable × Bool
unfolding update
update_port t name port = update t name (λ r. record r { port = port })

abbrev pub keys : List (Text × Route) → List Text
keys [] = []
keys ((k, r) ∷ m) = k ∷ keys m

abbrev pub values : List (Text × Route) → List Route
values [] = []
values ((k, r) ∷ m) = r ∷ values m

pub names : RouteTable → List Text
names t = sort_by (λ n. n) (keys t.routes)

unfoldable pub list : RouteTable → List Route
list t = sort_by (λ r. r.name) (values t.routes)
