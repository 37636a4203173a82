-- ===== src/Bridge/Tests.antt =====
-- Tests of the callback bridge, and its theorems at concrete flows.
use local_vibe.Base.{
  insert, erase, text_eq, if◌then◌else◌, true, ◌≡◌, refl, none, some, [], ◌∷◌, ◌++◌, codes,
  cut_prefix, lookup, insert, itoa, before, ◌==◌,
}
use local_vibe.Config.{DaemonConfig}
use local_vibe.Routes.{get, list}
use local_vibe.Routes.Samples.{table, app, feature}
use local_vibe.Ports.{validate_oauth_bridge_config, callback_user}
use local_vibe.Bridge.{
  UrlLibrary, Values, value_of, wrap_oauth_state, parse_wrapped_oauth_state, is_bridge_host,
  tag_authorize_url, bridge_owner, handle_oauth_callback_bridge, listening, wanted_ports,
  close_unwanted, open_wanted, reconcile_oauth_bridge_listeners, oauth_env_for_route,
  parent_bridge_port,
}
use local_vibe.Bridge.Callback.{tagged_callback}
use local_vibe.Bridge.Listeners.{is_wanted, reconcile_exact}

-- URLs of the form http://host/path, without a query.
abbrev lib : UrlLibrary
lib = record {
  parse_url = λ s. elim (cut_prefix s (codes "http://")) [
    | none ↦ none
    | some rest ↦
        some (record { scheme = codes "http"; host = before b'/' rest; path = []; query = [] })
  ];
  print_url = λ u. codes "http://" ++ u.host;
}

-- The authorize request of the worktree feature.app, with a state of the app's.
abbrev sent : Values
sent =
    (codes "redirect_uri", codes "http://localhost:4000/cb")
    ∷ (codes "state", codes "s!1")
    ∷ (codes "scope", codes "all")
    ∷ []

abbrev tagged : Values
tagged =
    (codes "redirect_uri", codes "http://localhost:4000/cb")
    ∷ (codes "state", codes "vibewt1!feature.app!s!1")
    ∷ (codes "scope", codes "all")
    ∷ []

abbrev callback : Values
callback = (codes "code", codes "42") ∷ (codes "state", codes "vibewt1!feature.app!s!1") ∷ []

tagging_run : tag_authorize_url lib sent feature.name 4000 ≡ some tagged
unfolding tag_authorize_url is_bridge_host wrap_oauth_state lookup insert itoa
tagging_run = refl

feature_found : get table feature.name ≡ some feature
unfolding get lookup
feature_found = refl

app_owns : bridge_owner 4000 (list table) ≡ some app
unfolding bridge_owner list
app_owns = refl

state_echoed : value_of callback (codes "state") ≡ value_of tagged (codes "state")
unfolding lookup
state_echoed = refl

tagged_callback_example :
    handle_oauth_callback_bridge table 4000 callback
    ≡ some (
      feature.name,
      (if text_eq (value_of sent (codes "state")) []
          then erase (codes "state") callback
          else insert (codes "state") (value_of sent (codes "state")) callback),
    )
tagged_callback_example =
    tagged_callback lib table 4000 app feature sent tagged callback tagging_run refl feature_found
      refl app_owns state_echoed

callback_run :
    handle_oauth_callback_bridge table 4000 callback
    ≡ some (codes "feature.app", (codes "code", codes "42") ∷ (codes "state", codes "s!1") ∷ [])
unfolding handle_oauth_callback_bridge bridge_owner parse_wrapped_oauth_state list get lookup insert
callback_run = refl

worktree_env :
    oauth_env_for_route table feature
    ≡ codes "AUTH_URL=http://localhost:4000" ∷ codes "NEXTAUTH_URL=http://localhost:4000" ∷ []
unfolding oauth_env_for_route parent_bridge_port get lookup itoa
worktree_env = refl

abbrev cfg : DaemonConfig
cfg = record {
  port = 7999;
  tld = codes "test";
  tls_enabled = true;
  tls_port = 7443;
  autostart = none;
}

-- 4100 is left over from a route that is gone.
reconciled : (reconcile_oauth_bridge_listeners cfg table (λ p. p == 4000) (4100 ∷ [])).1 ≡ none
unfolding reconcile_oauth_bridge_listeners wanted_ports close_unwanted open_wanted
    validate_oauth_bridge_config callback_user list
reconciled = refl

reconcile_exact_example :
    listening 4100 (reconcile_oauth_bridge_listeners cfg table (λ p. p == 4000) (4100 ∷ [])).0
    ≡ is_wanted 4100 (list table)
reconcile_exact_example = reconcile_exact cfg table (λ p. p == 4000) (4100 ∷ []) 4100 reconciled
