-- ===== src/SyncConfig/Tests.antt =====
-- Tests of the sync, and its theorem at a concrete edit.
use local_vibe.Base.{
  true, false, not, ◌≡◌, refl, Option, none, some, [], ◌∷◌, codes, ◌==◌, lookup, insert,
}
use local_vibe.Routes.{get, list, update, update_managed_config}
use local_vibe.Routes.Samples.{app, table}
use local_vibe.Ports.{
  vibe_port_claim, routes_claim, values_claim, reserve_ports_claim, validate_loop,
  validate_reserve_ports, validate_oauth_bridge_config, callback_user,
}
use local_vibe.Bridge.{
  ReconcileError, reconcile_oauth_bridge_listeners, wanted_ports, close_unwanted, open_wanted,
}
use local_vibe.Procs.{no_start}
use local_vibe.Handlers.{Daemon, Surroundings}
use local_vibe.SyncConfig.{
  VibeJson, SyncError, candidate, apply_candidate, sync_app, sync_route_from_vibe_json,
}

abbrev daemon : Daemon
daemon = record {
  server = record {
    table = table;
    ttl_timers = [];
    idle_timers = [];
    procs = record { procs = []; adopted = [] };
    watched = [];
  };
  listeners = 4000 ∷ [];
  saved = [];
}

-- Every port can be bound but 4100.
abbrev around : Surroundings
around = record {
  config = record {
    port = 7999;
    tld = codes "test";
    tls_enabled = true;
    tls_port = 7443;
    autostart = none;
  };
  now = 2000;
  system = record {
    alive = λ pid. pid == 500;
    group_of = λ pid. some pid;
    holders = λ port. [];
    own_pid = 900;
    launch = λ r. no_start;
    port_ready = λ port. false;
    command_of = λ pid. [];
  };
  bindable = λ port. not (port == 4100);
  urls = record { parse_url = λ s. none; print_url = λ u. [] };
}

-- An edit of the callback port.
abbrev edit : Option (Option VibeJson)
edit = some (
    some (record {
      name = codes "app";
      cmd = [];
      oauth_callback_port = some 4100;
      reserve_ports = (codes "server", 3002) ∷ [];
    }))

-- The first start after the edit is refused, since 4100 cannot be bound; the next one finds nothing to change.
edit_passes_later :
    let (first, d') = sync_route_from_vibe_json around true edit daemon app in
    let (again, d'') =
      sync_route_from_vibe_json around true edit d' (record app { oauth_callback_port = 4100 }) in
    (first ≡ some (SyncError.bridge_failed (ReconcileError.not_available 4100)))
    × (again ≡ none)
    × (d''.listeners ≡ [])
unfolding sync_route_from_vibe_json sync_app candidate apply_candidate update_managed_config update
    get list lookup insert validate_reserve_ports validate_loop validate_oauth_bridge_config
    callback_user reserve_ports_claim values_claim vibe_port_claim routes_claim
    reconcile_oauth_bridge_listeners wanted_ports close_unwanted open_wanted
edit_passes_later = (refl, refl, refl)
