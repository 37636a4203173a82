-- ===== src/Names/Tests.antt =====
-- Tests of the names, and their theorems at inputs.
use local_vibe.Base.{◌≡◌, ◌↔◌, refl, ok, err, [], codes}
use local_vibe.Names.{
  parse_route_name, strip_runs, slugify, sanitize_loop, sanitize_name, check_labels, NameError,
}
use local_vibe.Names.Parse.{IsRouteName, parse_route_name_iff}

feature_parses : parse_route_name (codes "feature-auth.myapp") ≡ ok (codes "myapp")
unfolding parse_route_name check_labels
feature_parses = refl

refused :
    (parse_route_name (codes "local.myapp") ≡ err NameError.reserved)
    × (parse_route_name (codes "a.b.c") ≡ err NameError.too_deep)
    × (parse_route_name (codes "-x") ≡ err NameError.bad_name)
unfolding parse_route_name check_labels
refused = (refl, refl, refl)

slugs :
    (slugify (codes "worktree-Feature/Auth_v2") ≡ codes "feature-auth-v2")
    × (slugify (codes "--//--") ≡ [])
    × (sanitize_name (codes "Gregs-iMac.local") ≡ codes "gregs-imac")
    × (sanitize_name (codes "..weird..") ≡ codes "weird")
unfolding slugify strip_runs sanitize_name sanitize_loop
slugs = (refl, refl, refl, refl)

parse_route_name_iff_example :
    (parse_route_name (codes "a.b") ≡ ok (codes "b")) ↔ IsRouteName (codes "a.b") (codes "b")
parse_route_name_iff_example = parse_route_name_iff (codes "a.b") (codes "b")
