-- ===== src/Routes/Tests.antt =====
-- Tests of the route table, and its theorems at one table.
use local_vibe.Base.{List, ◌≡◌, refl, [], ◌∷◌, codes, lookup}
use local_vibe.Routes.{added, removed, get, add, names}
use local_vibe.Routes.Samples.{table, api}
use local_vibe.Routes.Refined.{
  Operation, adding, removing, porting, replay, specified, Refines, replay-Refines,
}
use local_vibe.Routes.Listing.{IsKeyed}

sorted_names : names table ≡ codes "api" ∷ codes "app" ∷ codes "feature.app" ∷ codes "home" ∷ []
unfolding names
sorted_names = refl

overwritten : (add table api).1 ≡ removed (codes "api") ∷ added api ∷ []
unfolding add lookup
overwritten = refl

table-IsKeyed : IsKeyed table.routes
unfolding lookup
table-IsKeyed = (refl, refl, (refl, refl, (refl, refl, (refl, refl, tt))))

abbrev calls : List Operation
calls = adding api ∷ removing (codes "home") ∷ porting (codes "app") 3100 ∷ []

replay-Refines_example :
    Refines (replay calls table).0 (specified calls (get table)).0
    × ((replay calls table).1 ≡ (specified calls (get table)).1)
replay-Refines_example = replay-Refines calls table (get table) (refl, refl, λ n. refl)
