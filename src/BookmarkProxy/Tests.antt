-- ===== src/BookmarkProxy/Tests.antt =====
-- Tests of the bookmark proxy's headers, and their theorem at a cookie.
use local_vibe.Base.{true, false, ◌≡◌, refl, [], ◌∷◌, codes, split, All}
use local_vibe.BookmarkProxy.{
  is_domain_attr, without_domain, remove_domain_attr, strip_cookie_domain, is_web_socket_upgrade,
}
use local_vibe.BookmarkProxy.Attributes.{or_empty, other_attributes, remove_domain_attr_lem}

domain_stripped :
    strip_cookie_domain (codes "id=1; DOMAIN=ha.lan; Path=/" ∷ []) ≡ codes "id=1; Path=/" ∷ []
unfolding strip_cookie_domain remove_domain_attr without_domain
domain_stripped = refl

upgrade_requested : is_web_socket_upgrade (codes "WebSocket") (codes "keep-alive, Upgrade") ≡ true
unfolding is_web_socket_upgrade
upgrade_requested = refl

-- The prefix is that of the code: with a space before the equals sign the attribute stays.
spaced_kept : remove_domain_attr (codes "id=1; Domain =ha.lan") ≡ codes "id=1; Domain =ha.lan"
unfolding remove_domain_attr without_domain
spaced_kept = refl

remove_domain_attr_lem_example :
    let cookie = codes "id=1; Domain=ha.lan; Path=/" in
    (split (remove_domain_attr cookie) b';' ≡ or_empty (other_attributes (split cookie b';')))
    × All (λ p. is_domain_attr p ≡ false) (split (remove_domain_attr cookie) b';')
    × (remove_domain_attr (remove_domain_attr cookie) ≡ remove_domain_attr cookie)
remove_domain_attr_lem_example = remove_domain_attr_lem (codes "id=1; Domain=ha.lan; Path=/")
