-- ===== src/Ports/Tests.antt =====
-- Tests of the port checks, and their theorems at concrete tables.
use local_vibe.Base.{
  ℕ, Bool, true, ◌≡◌, ◌↔◌, refl, none, some, ok, err, List, [], ◌∷◌, Text, codes, ◌==◌, not, insert,
  lookup, All,
}
use local_vibe.Config.{DaemonConfig}
use local_vibe.Routes.{list}
use local_vibe.Routes.Samples.{table, app}
use local_vibe.Ports.{
  vibe_port_claim, routes_claim, route_reserve, check_vibe_port_collisions, validate_reserve_ports,
  validate_loop, duplicate_port, find_free_port, scan_free,
}
use local_vibe.Ports.Claims.{IsUnclaimed, check_vibe_port_collisions_iff}
use local_vibe.Ports.Free.{is_free}

abbrev cfg : DaemonConfig
cfg = record {
  port = 7999;
  tld = codes "test";
  tls_enabled = true;
  tls_port = 7443;
  autostart = none;
}

reserve_claimed :
    vibe_port_claim cfg table (codes "feature.app") 3002
    ≡ some (route_reserve (codes "app") (codes "server"))
unfolding vibe_port_claim routes_claim list
reserve_claimed = refl

own_port_free : vibe_port_claim cfg table (codes "app") 3002 ≡ none
unfolding vibe_port_claim routes_claim list
own_port_free = refl

check_vibe_port_collisions_iff_example : (check_vibe_port_collisions cfg table app ≡ none) ↔ (
    IsUnclaimed cfg table app.name app.port
    × All (λ (e : Text × ℕ). IsUnclaimed cfg table app.name e.1) app.reserve_ports)
check_vibe_port_collisions_iff_example = check_vibe_port_collisions_iff cfg table app

abbrev given : List (Text × ℕ)
given = (codes " Server ", 3001) ∷ (codes "db_2", 3002) ∷ []

abbrev kept : List (Text × ℕ)
kept = (codes "server", 3001) ∷ (codes "db_2", 3002) ∷ []

validation_run : validate_reserve_ports given 3000 4000 ≡ ok kept
unfolding validate_reserve_ports validate_loop insert lookup
validation_run = refl

port_twice :
    validate_reserve_ports ((codes "a", 3001) ∷ (codes "b", 3001) ∷ []) 3000 4000
    ≡ err duplicate_port
unfolding validate_reserve_ports validate_loop insert lookup
port_twice = refl

-- A machine on which 3004 is in use.
abbrev bindable : ℕ → Bool
bindable port = not (port == 3004)

free_3005 : is_free bindable (list table) 3005 ≡ true
unfolding list
free_3005 = refl

found_3005 : find_free_port bindable none table ≡ some 3005
unfolding find_free_port scan_free list
found_3005 = refl
