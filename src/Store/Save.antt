-- ===== src/Store/Save.antt =====
-- What a restart of the daemon keeps (internal/daemon/persistence.go).
use mathlib.Core.List.{Mem, mem-cons, not-mem-nil}
use mathlib.Core.Logic.Or
use mathlib.Core.Path.{subst}
use local_vibe.Base.{
  ap, true, false, not, ◌&&◌, ◌≡◌, ◌⊎◌, ◌∙◌, refl, sym, lookup, inl, inr, Bool-cases, Option-cases,
  Option, none, some, ok, All, List, [], ◌∷◌, Text, arith, if◌then◌else◌, text_eq, text_eq→eq,
  text_eq_refl, to_lower,
}
use local_vibe.Names.{parse_route_name, local_name}
use local_vibe.Routes.{is_managed, Route, RouteTable, new_route_table, get, add, list}
use local_vibe.Routes.Lookup.{get-add}
use local_vibe.Routes.Listing.{IsKeyed, list_exact, get-name}
use local_vibe.Store.{
  Survey, loaded, load_entry, load_sticky_routes, is_persistent, entry_of, save_entries,
  save_sticky_routes,
}

-- A route that can be stored: its name is in lower case, not that of the dashboard, and gives its parent; and
-- if it is a worktree's, that is not gone.
pub record IsStorable (s : Survey) (r : Route) : Type 0 where
  pub lower : to_lower r.name ≡ r.name
  pub parent : parse_route_name r.name ≡ ok r.parent
  pub not_local : text_eq r.name local_name ≡ false
  pub present : (not (text_eq r.parent []) && (not (text_eq r.dir []) && s.is_gone r.dir)) ≡ false

-- What the theorem asks of a route: only those that are saved have to be storable.
abbrev pub IsSafe : Survey → Route → Type 0
IsSafe s r = (is_persistent r.type ≡ false) ⊎ IsStorable s r

storable : (s : Survey) (r : Route) → IsSafe s r → is_persistent r.type ≡ true → IsStorable s r
storable s r (inl no_) p = absurd (cc)
storable s r (inr h) p = h

-- What is left of a route after a restart: its configuration, and the PID of a managed route that was running,
-- for its adoption.
abbrev pub restored : Route → Route
restored r = record r {
  ttl_seconds = none;
  expires_at = none;
  running = not (is_managed r.type);
  ready = not (is_managed r.type);
  pid = if is_managed r.type && r.running then r.pid else none;
  last_activity = none;
  last_failure = none;
}

loaded-entry_of : (r : Route) → loaded r.name r.parent (entry_of r) ≡ restored r
loaded-entry_of r = elim (Bool-cases (is_managed r.type)) [ inl e ↦ rw e refl | inr e ↦ rw e refl ]

abbrev pub after_restart : Option Route → Option Route
after_restart none = none
after_restart (some r) = if is_persistent r.type then some (restored r) else none

load_storable :
    (s : Survey) (r : Route) (t : RouteTable)
    → IsStorable s r
    → load_entry s r.name (entry_of r) t ≡ ((add t (restored r)).0, [])
unfolding load_entry
load_storable s r t h =
    rw (load_entry, h.lower, h.parent, h.lower, h.not_local, h.present)
      (ap (λ v. ((add t v).0, [])) (loaded-entry_of r))

All-and :
    {A : Type 0} (P Q : A → Type 0) (xs : List A)
    → All P xs
    → ((x : A) → Mem x xs → Q x)
    → All (λ x. P x × Q x) xs
All-and P Q [] p q = tt
All-and P Q (x ∷ xs) (p, ps) q =
    ((p, q x (mem-cons.1 (Or.inl refl))), All-and P Q xs ps (λ y m. q y (mem-cons.1 (Or.inr m))))

nothing_yet : (n : Text) → get new_route_table n ≡ none
unfolding get lookup
nothing_yet n = refl

Route-set : IsSet (Option Route)
Route-set = hlevel

module _ (s : Survey) (table : RouteTable) where
  -- The route of a name is what the restart makes of the stored table's.
  abbrev Settled : Text → RouteTable → Type 0
  Settled n t = get t n ≡ after_restart (get table n)

  abbrev IsOf : Route → Type 0
  IsOf r = IsSafe s r × (get table r.name ≡ some r)

  add-Settled :
      (r : Route) (n : Text) (t : RouteTable)
      → IsOf r
      → is_persistent r.type ≡ true
      → Settled n t
      → Settled n (add t (restored r)).0
  add-Settled r n t h p q = elim (Bool-cases (text_eq r.name n)) [
    | inl e ↦
        let same : r.name ≡ n = text_eq→eq r.name n e in
        let found : get table n ≡ some r = rw (← same) h.1 in
        rw (get-add t (restored r) n, found) (ground arith)
    | inr e ↦ get-add t (restored r) n ∙ rw e q
  ]

  keeps_Settled :
      (rs : List Route) (n : Text) (t : RouteTable)
      → All IsOf rs
      → Settled n t
      → Settled n (load_sticky_routes s (save_entries rs) t).0
  unfolding save_entries load_sticky_routes
  keeps_Settled [] n t h q = q
  keeps_Settled (r ∷ rs) n t (o, h) q = elim (Bool-cases (is_persistent r.type)) [
    | inr e ↦ rw e (keeps_Settled rs n t h q)
    | inl e ↦
        rw (e, load_sticky_routes, load_storable s r t (storable s r o.0 e))
          (keeps_Settled rs n (add t (restored r)).0 h (add-Settled r n t o e q))
  ]

  kept :
      (r : Route)
      → IsOf r
      → is_persistent r.type ≡ true
      → after_restart (get table r.name) ≡ some (restored r)
  kept r o p = rw (o.1, after_restart, p) refl

  loads_first :
      (r : Route) (rs : List Route) (t : RouteTable)
      → is_persistent r.type ≡ true
      → IsOf r
      → All IsOf rs
      → get (load_sticky_routes s (save_entries (r ∷ rs)) t).0 r.name ≡ some (restored r)
  unfolding save_entries load_sticky_routes
  loads_first r rs t p o h =
      let found : get (add t (restored r)).0 r.name ≡ some (restored r) =
        rw (get-add t (restored r) r.name, text_eq_refl r.name) refl in
      rw (p, load_sticky_routes, load_storable s r t (storable s r o.0 p))
        (keeps_Settled rs r.name (add t (restored r)).0 h (found ∙ sym (kept r o p)) ∙ kept r o p)

  loads :
      (r : Route) (rs : List Route) (t : RouteTable)
      → Mem r rs
      → is_persistent r.type ≡ true
      → All IsOf rs
      → get (load_sticky_routes s (save_entries rs) t).0 r.name ≡ some (restored r)
  unfolding save_entries load_sticky_routes
  loads r [] t m p h = absurd (not-mem-nil m)
  loads r (q ∷ rs) t m p (o, h) =
      Or.elim (Route-set _ _) (mem-cons.0 m)
        (λ same. rw (← same) (loads_first r rs t p (rw same o) h))
        (λ later. elim (Bool-cases (is_persistent q.type)) [
          | inr e ↦ rw e (loads r rs t later p h)
          | inl e ↦
              rw (e, load_sticky_routes, load_storable s q t (storable s q o.0 e))
                (loads r rs (add t (restored q)).0 later p h)
        ])

-- Saving a table and loading it into an empty one, as a restart of the daemon does, gives back under every name
-- exactly its sticky, managed and bookmark routes: with their configuration, as not running if managed, and with the
-- PID only of a managed route that was running. All other routes are gone. This is stated of a table in which each
-- name is that of its route, and each sticky, managed or bookmark route has a name in lower case which is a route name
-- of its parent and not the dashboard's own, and, if it is a worktree's, a directory that is not gone.
pub restart :
    (s : Survey) (table : RouteTable)
    → IsKeyed table.routes
    → All (IsSafe s) (list table)
    → (n : Text)
    → get (load_sticky_routes s (save_sticky_routes table) new_route_table).0 n
      ≡ after_restart (get table n)
unfolding save_sticky_routes
restart s table keyed h n =
    let (sorted, exact) = list_exact table keyed in
    let all : All (IsOf s table) (list table) =
      All-and (IsSafe s) (λ r. get table r.name ≡ some r) (list table) h (λ r m. (exact r).0 m) in
    elim (Option-cases (get table n)) [
      | inl e ↦ keeps_Settled s table (list table) n new_route_table all (rw e (nothing_yet n))
      | inr (r, e) ↦ elim (Bool-cases (is_persistent r.type)) [
        | inr p ↦
            keeps_Settled s table (list table) n new_route_table all
              (rw (e, after_restart, p) (nothing_yet n))
        | inl p ↦
            let named : r.name ≡ n = get-name table n r keyed e in
            let m : Mem r (list table) =
              (exact r).1 (subst (λ x. get table x ≡ some r) (sym named) e) in
            let back = loads s table r (list table) new_route_table m p all in
            rw (e, after_restart, p)
              (subst
                (λ x.
                  get (load_sticky_routes s (save_entries (list table)) new_route_table).0 x
                  ≡ some (restored r))
                named back)
      ]
    ]
