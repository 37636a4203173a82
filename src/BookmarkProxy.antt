-- ===== src/BookmarkProxy.antt =====
-- internal/daemon/proxy_bookmark.go and proxy_upgrade.go: what the bookmark proxy does to the cookies of an upstream
-- (`removeDomainAttr`, `stripCookieDomain`), and which requests are WebSocket upgrades (`isWebSocketUpgrade`).
-- A header is its values; one that is absent has none.
pub mod Attributes
mod Tests
use local_vibe.Base.{
  ℕ, Bool, true, false, ◌||◌, List, [], ◌∷◌, Text, codes, if◌then◌else◌, has_prefix, split, join,
  to_lower, trim_space, equal_fold, map,
}

abbrev pub is_domain_attr : Text → Bool
is_domain_attr p = has_prefix (to_lower (trim_space p)) (codes "domain=")

pub without_domain : List Text → List Text
without_domain [] = []
without_domain (p ∷ ps) =
    let rest = without_domain ps in if is_domain_attr p then rest else p ∷ rest

pub remove_domain_attr : Text → Text
unfolding without_domain
remove_domain_attr cookie = join (without_domain (split cookie b';')) b';'

-- The values of Set-Cookie.
pub strip_cookie_domain : List Text → List Text
strip_cookie_domain cookies = map remove_domain_attr cookies

abbrev pub has_upgrade : List Text → Bool
has_upgrade [] = false
has_upgrade (tok ∷ toks) =
    let rest = has_upgrade toks in
    if equal_fold (trim_space tok) (codes "upgrade") then true else rest

-- Of the first values of the headers Upgrade and Connection.
pub is_web_socket_upgrade : Text → Text → Bool
is_web_socket_upgrade upgrade connection =
    if equal_fold upgrade (codes "websocket") then has_upgrade (split connection b',') else false
