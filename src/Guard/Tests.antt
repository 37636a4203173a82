-- ===== src/Guard/Tests.antt =====
-- Tests of the guard, and its theorems at concrete requests.
use local_vibe.Base.{
  true, false, ◌≡◌, ◌⊎◌, refl, Option, none, some, [], Text, codes, equal_fold, cut_prefix, cut_at,
  trim_prefix, lookup, itoa,
}
use local_vibe.Routes.{get}
use local_vibe.Routes.Samples.{table}
use local_vibe.Config.{DaemonConfig}
use local_vibe.Guard.{
  Url, Net, Request, method_get, method_post, register, daemon_port_trusted, origin_trusted,
  local_details_allowed, endpoint_of, is_daemon_api_path, api_state_changing,
  api_request_cross_site, api_handler, answered, forbidden,
}
use local_vibe.Guard.Trust.{IsDaemonPort, IsOwnHost, origin_trusted_sound}
use local_vibe.Guard.Dispatch.{api_handler_guard}

abbrev cfg : DaemonConfig
cfg = record {
  port = 7999;
  tld = codes "test";
  tls_enabled = true;
  tls_port = 7443;
  autostart = none;
}

abbrev split_port : Text → Option (Text × Text)
split_port = cut_at b':'

abbrev url_of : Text → Url
url_of s = elim (split_port s) [
  | none ↦ record { scheme = codes "http"; host = s; hostname = s; url_port = [] }
  | some (h, p) ↦ record { scheme = codes "http"; host = s; hostname = h; url_port = p }
]

-- URLs of the form http://host or http://host:port alone.
abbrev net : Net
net = record {
  parse =
      λ s. elim (cut_prefix s (codes "http://")) [ none ↦ none | some rest ↦ some (url_of rest) ];
  split_host_port = split_port;
}

-- A registration sent from the page of a route, app.
abbrev from_app : Request
from_app = record {
  method = method_post;
  path = codes "/_api/routes";
  request_host = codes "app.test:7999";
  remote_addr = codes "127.0.0.1:55555";
  origin = codes "http://app.test:7999";
  sec_fetch_site = codes "same-origin";
}

app_answered : api_handler net cfg table from_app ≡ answered register
unfolding api_handler is_daemon_api_path api_state_changing api_request_cross_site origin_trusted
    daemon_port_trusted endpoint_of get lookup itoa
app_answered = refl

-- The same from a proxied bookmark, home, and from another port.
bookmark_forbidden :
    api_handler net cfg table (record from_app { origin = codes "http://home.test:7999" })
    ≡ forbidden
unfolding api_handler is_daemon_api_path api_state_changing api_request_cross_site origin_trusted
    daemon_port_trusted endpoint_of get lookup itoa
bookmark_forbidden = refl

foreign_port_forbidden :
    api_handler net cfg table (record from_app { origin = codes "http://app.test:31337" })
    ≡ forbidden
unfolding api_handler is_daemon_api_path api_state_changing api_request_cross_site origin_trusted
    daemon_port_trusted endpoint_of get lookup itoa
foreign_port_forbidden = refl

app_trusted : origin_trusted net cfg table (codes "http://app.test:7999") ≡ true
unfolding origin_trusted daemon_port_trusted get lookup itoa
app_trusted = refl

api_handler_guard_example :
    (equal_fold from_app.sec_fetch_site (codes "cross-site") ≡ false)
    × ((from_app.origin ≡ []) ⊎ (origin_trusted net cfg table from_app.origin ≡ true))
api_handler_guard_example = api_handler_guard net cfg table from_app register app_answered refl

-- A path of the app's own API.
abbrev own_api : Request
own_api = record from_app { path = codes "/_api/collections" }

own_api-unknown : endpoint_of own_api.method (trim_prefix own_api.path (codes "/_api")) ≡ none
unfolding endpoint_of
own_api-unknown = refl

origin_trusted_sound_example :
    (u : Url) × (net.parse (codes "http://app.test:7999") ≡ some u)
    × IsDaemonPort cfg u.url_port
    × IsOwnHost cfg table u.hostname
origin_trusted_sound_example =
    origin_trusted_sound net cfg table (codes "http://app.test:7999") app_trusted

abbrev dashboard_read : Request
dashboard_read = record from_app { method = method_get; request_host = codes "local.test:7999" }

dashboard_allowed : local_details_allowed net cfg dashboard_read ≡ true
unfolding local_details_allowed daemon_port_trusted itoa
dashboard_allowed = refl

route_page_refused : local_details_allowed net cfg from_app ≡ false
unfolding local_details_allowed daemon_port_trusted itoa
route_page_refused = refl
