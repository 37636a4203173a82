-- ===== src/Routes/Hooks.antt =====
-- The calls of the add and remove hooks (internal/daemon/routes.go, `Add` and `Remove`).
use local_vibe.Base.{
  ℕ, suc, true, ◌≡◌, Option, none, some, List, [], ◌∷◌, Text, arith, if◌then◌else◌, text_eq,
  text_eq_iff,
}
use local_vibe.Routes.{Route, RouteTable, HookCall, added, removed, get, add, remove}
use local_vibe.Routes.Lookup.{get-add, get-remove}

-- How many lifecycle watchers a name has after a hook call: adding arms one more, removing cancels
-- all of them.
abbrev pub run_hook : HookCall → (Text → ℕ) → Text → ℕ
run_hook (added r) armed n = if text_eq r.name n then suc (armed n) else armed n
run_hook (removed k) armed n = if text_eq k n then 0 else armed n

abbrev pub run_hooks : List HookCall → (Text → ℕ) → Text → ℕ
run_hooks [] armed = armed
run_hooks (c ∷ cs) armed = run_hooks cs (run_hook c armed)

abbrev pub watchers : Option Route → ℕ
watchers none = 0
watchers (some r) = 1

-- With both hooks set, and one watcher for each name of the table and none for the others, the calls
-- that `Add` makes lead to the same for the new table: also when the name is overwritten.
pub add-watchers :
    (t : RouteTable) (r : Route) (armed : Text → ℕ)
    → t.on_add ≡ true
    → t.on_remove ≡ true
    → ((n : Text) → armed n ≡ watchers (get t n))
    → (n : Text) → run_hooks (add t r).1 armed n ≡ watchers (get (add t r).0 n)
unfolding add get
add-watchers t r armed a b h n = ground (arith, get-add t r n, h n, h r.name, text_eq_iff r.name n)

-- The calls that `Remove` makes keep the watchers in step with the table too.
pub remove-watchers :
    (t : RouteTable) (name : Text) (armed : Text → ℕ)
    → t.on_remove ≡ true
    → ((n : Text) → armed n ≡ watchers (get t n))
    → (n : Text) → run_hooks (remove t name).2 armed n ≡ watchers (get (remove t name).0 n)
unfolding remove get
remove-watchers t name armed b h n =
    ground (arith, (get-remove t name n).0, h n, h name, text_eq_iff name n)
