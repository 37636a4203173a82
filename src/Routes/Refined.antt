-- ===== src/Routes/Refined.antt =====
-- The table of internal/daemon/routes.go against a map from names to routes: any sequence of its operations gives the
-- same answers and the same hook calls as the map does.
use local_vibe.Base.{
  ℕ, Bool, true, ◌≡◌, ◌∙◌, refl, ap, Option, none, some, List, [], ◌∷◌, Text, arith, if◌then◌else◌,
  text_eq, is_some,
}
use local_vibe.Routes.{
  Route, RouteTable, HookCall, added, removed, get, add, remove, update_managed_config, update_port,
  update, with_managed_config,
}
use local_vibe.Routes.Lookup.{
  get-add, get-remove, get-update, add-calls, remove-SameHooks, update-SameHooks,
}

-- A call of the table's interface.
pub data Operation : Type 0 where
  adding : Route → Operation
  removing : Text → Operation
  configuring : Text → Text → ℕ → List (Text × ℕ) → Operation
  porting : Text → ℕ → Operation

-- The table after a call, the hook calls that it makes and what it returns.
abbrev pub perform : Operation → RouteTable → RouteTable × List HookCall × Bool
perform (adding r) t = ((add t r).0, (add t r).1, true)
perform (removing name) t = ((remove t name).0, (remove t name).2, (remove t name).1)
perform (configuring name cmd port reserve) t =
    let (u, known) = update_managed_config t name cmd port reserve in (u, [], known)
perform (porting name port) t = let (u, known) = update_port t name port in (u, [], known)

abbrev pub View : Type 0
View = Text → Option Route

abbrev pub over : View → Text → Option Route → View
over f name o n = if text_eq name n then o else f n

abbrev pub changed : (Route → Route) → Option Route → Option Route
changed g none = none
changed g (some r) = some (g r)

-- What a call does to the map.
abbrev pub specify : Operation → View → View × List HookCall × Bool
specify (adding r) f = (
  over f r.name (some r),
  (if is_some (f r.name) then removed r.name ∷ added r ∷ [] else added r ∷ []),
  true,
)
specify (removing name) f =
    (over f name none, (if is_some (f name) then removed name ∷ [] else []), is_some (f name))
specify (configuring name cmd port reserve) f =
    (over f name (changed (with_managed_config cmd port reserve) (f name)), [], is_some (f name))
specify (porting name port) f =
    (over f name (changed (λ r. record r { port = port }) (f name)), [], is_some (f name))

-- The daemon's table, with both hooks, has the routes of the map.
abbrev pub Refines : RouteTable → View → Type 0
Refines t f = (t.on_add ≡ true) × (t.on_remove ≡ true) × ((n : Text) → get t n ≡ f n)

remove-calls :
    (t : RouteTable) (name : Text)
    → t.on_remove ≡ true
    → (remove t name).2 ≡ (if (remove t name).1 then removed name ∷ [] else [])
unfolding remove
remove-calls t name h = ground arith

changed_lem :
    (g : Route → Route) (o : Option Route)
    → elim o [ none ↦ none | some r ↦ some (g r) ] ≡ changed g o
changed_lem g none = refl
changed_lem g (some r) = refl

update-Refines :
    (t : RouteTable) (f : View) (name : Text) (g : Route → Route)
    → Refines t f
    → Refines (update t name g).0 (over f name (changed g (f name)))
      × ((update t name g).1 ≡ is_some (f name))
update-Refines t f name g (a, b, same) =
    let (hook_add, hook_remove) = update-SameHooks t name g in
    (
      (
        hook_add ∙ a,
        hook_remove ∙ b,
        λ n. (get-update t name g n).0 ∙ rw (same n, same name, changed_lem g (f name)) refl,
      ),
      (get-update t name g name).1 ∙ ap is_some (same name),
    )

perform-Refines :
    (op : Operation) (t : RouteTable) (f : View)
    → Refines t f
    → Refines (perform op t).0 (specify op f).0
      × ((perform op t).1 ≡ (specify op f).1)
      × ((perform op t).2 ≡ (specify op f).2)
unfolding update_managed_config update_port
perform-Refines (adding r) t f (a, b, same) =
    let ((hook_add, hook_remove), calls) = add-calls t r a b in
    (
      (hook_add ∙ a, hook_remove ∙ b, λ n. get-add t r n ∙ rw (same n) refl),
      calls ∙ rw (same r.name) refl,
      refl,
    )
perform-Refines (removing name) t f (a, b, same) =
    let (hook_add, hook_remove) = remove-SameHooks t name in
    let known = (get-remove t name name).1 ∙ ap is_some (same name) in
    (
      (hook_add ∙ a, hook_remove ∙ b, λ n. (get-remove t name n).0 ∙ rw (same n) refl),
      remove-calls t name b ∙ rw known refl,
      known,
    )
perform-Refines (configuring name cmd port reserve) t f h =
    let (after, known) = update-Refines t f name (with_managed_config cmd port reserve) h in
    (after, refl, known)
perform-Refines (porting name port) t f h =
    let (after, known) = update-Refines t f name (λ r. record r { port = port }) h in
    (after, refl, known)

-- The calls one after another, with what each of them answers and the hook calls that it makes.
abbrev pub replay : List Operation → RouteTable → RouteTable × List (List HookCall × Bool)
replay [] t = (t, [])
replay (op ∷ ops) t =
    let (u, calls, answer) = perform op t in
    let (v, out) = replay ops u in (v, (calls, answer) ∷ out)

abbrev pub specified : List Operation → View → View × List (List HookCall × Bool)
specified [] f = (f, [])
specified (op ∷ ops) f =
    let (g, calls, answer) = specify op f in
    let (h, out) = specified ops g in (h, (calls, answer) ∷ out)

pair_congr :
    {a b : List HookCall} {p q : Bool} {l m : List (List HookCall × Bool)}
    → a ≡ b
    → p ≡ q
    → l ≡ m
    → (a, p) ∷ l ≡ (b, q) ∷ m
pair_congr e f g = cc

-- The table implements a map from names to routes. Whatever the sequence of additions, removals, configuration updates
-- and port updates, a table with both hooks set answers every call as the map does, announces each replaced or removed
-- route to the removal hook before the added one to the other, and ends with the routes of the map.
pub replay-Refines :
    (ops : List Operation) (t : RouteTable) (f : View)
    → Refines t f
    → Refines (replay ops t).0 (specified ops f).0 × ((replay ops t).1 ≡ (specified ops f).1)
replay-Refines [] t f h = (h, refl)
replay-Refines (op ∷ ops) t f h =
    let (after, calls, answer) = perform-Refines op t f h in
    let (final, out) = replay-Refines ops (perform op t).0 (specify op f).0 after in
    (final, pair_congr calls answer out)
