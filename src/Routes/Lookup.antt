-- ===== src/Routes/Lookup.antt =====
-- The table of internal/daemon/routes.go as a map from names to routes.
use local_vibe.Base.{
  ℕ, true, ◌≡◌, refl, inl, inr, Bool-cases, Option-cases, none, some, List, [], ◌∷◌, Text, arith,
  if◌then◌else◌, lookup, erase, has_key, lookup-insert, lookup-erase, text_eq, text_eq_iff, is_some,
}
use local_vibe.Routes.{
  update_port, Route, RouteTable, added, removed, get, add, remove, update, update_managed_config,
  with_managed_config,
}

-- Adding a route replaces what its name had and leaves every other name as it was.
pub get-add :
    (t : RouteTable) (r : Route) (n : Text)
    → get (add t r).0 n ≡ (if text_eq r.name n then some r else get t n)
unfolding get add
get-add t r n = lookup-insert r.name n r t.routes

-- Removing a name forgets it alone, and reports whether it was there.
pub get-remove :
    (t : RouteTable) (name n : Text)
    → (get (remove t name).0 n ≡ (if text_eq name n then none else get t n))
      × ((remove t name).1 ≡ is_some (get t name))
unfolding get remove
get-remove t name n = (map_part, refl)
  where
    map_part :
        lookup n
          (if has_key name t.routes then record t { routes = erase name t.routes } else t).routes
        ≡ (if text_eq name n then none else lookup n t.routes)
    map_part = elim (Bool-cases (has_key name t.routes)) [
      | inl e ↦ rw e (lookup-erase name n t.routes)
      | inr e ↦ rw e (ground (arith, text_eq_iff name n))
    ]

pub get-update :
    (t : RouteTable) (name : Text) (f : Route → Route) (n : Text)
    → (get (update t name f).0 n ≡ (
        if text_eq name n
        then elim (get t name) [ none ↦ none | some r ↦ some (f r) ]
        else get t n))
      × ((update t name f).1 ≡ is_some (get t name))
unfolding get update
get-update t name f n = elim (Option-cases (lookup name t.routes)) [
  | inl e ↦ rw (e, update) (ground (arith, text_eq_iff name n), refl)
  | inr (r, e) ↦ rw (e, update) (lookup-insert name n (f r) t.routes, refl)
]

-- `UpdateManagedConfig` reports whether the name is known, writes its command, callback port and
-- reserve ports, and leaves its other fields and every other route as they were.
pub get-update_managed_config :
    (t : RouteTable) (name cmd : Text) (port : ℕ) (reserve : List (Text × ℕ)) (n : Text)
    → (get (update_managed_config t name cmd port reserve).0 n ≡ (
        if text_eq name n
        then elim (get t name) [
          | none ↦ none
          | some r ↦
              some (record r { cmd = cmd; oauth_callback_port = port; reserve_ports = reserve })
        ]
        else get t n))
      × ((update_managed_config t name cmd port reserve).1 ≡ is_some (get t name))
unfolding update_managed_config
get-update_managed_config t name cmd port reserve n =
    get-update t name (with_managed_config cmd port reserve) n

-- What an operation leaves of the hooks.
abbrev pub SameHooks : RouteTable → RouteTable → Type 0
SameHooks t u = (t.on_add ≡ u.on_add) × (t.on_remove ≡ u.on_remove)

pub remove-SameHooks : (t : RouteTable) (name : Text) → SameHooks (remove t name).0 t
unfolding remove
remove-SameHooks t name = (ground arith, ground arith)

pub update-SameHooks :
    (t : RouteTable) (name : Text) (f : Route → Route) → SameHooks (update t name f).0 t
unfolding update
update-SameHooks t name f = (ground arith, ground arith)

-- The hook calls of `Add` on a table with both hooks.
pub add-calls :
    (t : RouteTable) (r : Route)
    → t.on_add ≡ true
    → t.on_remove ≡ true
    → SameHooks (add t r).0 t
      × ((add t r).1
          ≡ (if is_some (get t r.name) then removed r.name ∷ added r ∷ [] else added r ∷ []))
unfolding add get
add-calls t r a b = ((refl, refl), ground arith)

pub get-update_port :
    (t : RouteTable) (name : Text) (port : ℕ) (n : Text)
    → get (update_port t name port).0 n ≡ (
        if text_eq name n
        then elim (get t name) [ none ↦ none | some r ↦ some (record r { port = port }) ]
        else get t n)
unfolding update_port
get-update_port t name port n = (get-update t name (λ r. record r { port = port }) n).0
