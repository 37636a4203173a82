-- ===== src/Store/Tests.antt =====
-- Tests of the store of routes, and its theorem at one table.
use local_vibe.Base.{inl, inr, ◌≡◌, refl, some, [], ◌∷◌, codes, ◌==◌, ◌&&◌, text_eq, lookup, All}
use local_vibe.Names.{parse_route_name, check_labels}
use local_vibe.Routes.{Route, RouteTable, ttl, new_route_table, get, list}
use local_vibe.Routes.Samples.{table, app, feature}
use local_vibe.Routes.Listing.{IsKeyed}
use local_vibe.Store.{Survey, entry_of, load_entry, load_sticky_routes, save_sticky_routes}
use local_vibe.Store.Save.{IsSafe, after_restart, restart}

-- The worktree /src/old was removed; process 77 still holds its port.
abbrev survey : Survey
survey = record {
  is_gone = λ dir. text_eq dir (codes "/src/old");
  process_alive = λ pid. pid == 77;
  pid_group_holds_port = λ pid port. pid == 77 && port == 3003;
}

-- A plain app may be in a directory that is no git checkout, and a TTL route may have any name.
abbrev plain_app : Route
plain_app = record app { name = codes "plain"; dir = codes "/src/old" }

abbrev short : Route
short = record app { name = codes "Short"; type = ttl }

abbrev mixed : RouteTable
mixed = record table {
  routes =
      (codes "plain", plain_app) ∷ (codes "Short", short) ∷ (codes "feature.app", feature) ∷ [];
}

keyed : IsKeyed mixed.routes
unfolding lookup
keyed = (refl, refl, (refl, refl, (refl, refl, tt)))

safe : All (IsSafe survey) (list mixed)
unfolding list parse_route_name check_labels
safe = (
  inl refl,
  (
    inr (record { lower = refl; parent = refl; not_local = refl; present = refl }),
    (inr (record { lower = refl; parent = refl; not_local = refl; present = refl }), tt),
  ),
)

-- A gone worktree is dropped, and its survivor killed.
gone_dropped :
    load_entry survey
      (codes "feature.app")
      (let e = entry_of feature in record e { dir = codes "/src/old"; pid = some 77 })
      new_route_table
    ≡ (new_route_table, 77 ∷ [])
unfolding load_entry parse_route_name check_labels
gone_dropped = refl

-- A hand-edited name that is no route name is skipped.
bad_name_skipped :
    load_entry survey (codes "../etc") (entry_of app) new_route_table ≡ (new_route_table, [])
unfolding load_entry parse_route_name check_labels
bad_name_skipped = refl

restart_example :
    get (load_sticky_routes survey (save_sticky_routes mixed) new_route_table).0 (codes "plain")
    ≡ after_restart (get mixed (codes "plain"))
restart_example = restart survey mixed keyed safe (codes "plain")
