-- ===== src/Guard/Trust.antt =====
-- Which origins and hosts the daemon trusts (internal/daemon/origin.go).
use local_vibe.Base.{
  true, false, ◌||◌, ◌≡◌, ◌⊎◌, refl, inl, inr, Bool-cases, Option-cases, Option, none, some, [],
  ◌++◌, Text, codes, arith, if◌then◌else◌, text_eq, text_eq_iff, text_eq→eq, has_suffix,
  trim_suffix, cut_suffix, cut_suffix_sound, itoa,
}
use local_vibe.Routes.{Route, RouteTable, get, is_bookmark}
use local_vibe.Config.{DaemonConfig}
use local_vibe.Guard.{
  Url, Net, Request, daemon_port_trusted, is_loopback, route_trusted, host_trusted, origin_trusted,
  own_host, local_details_allowed,
}

-- A port that the daemon itself answers on.
abbrev pub IsDaemonPort : DaemonConfig → Text → Type 0
IsDaemonPort cfg p =
    (p ≡ []) ⊎ ((p ≡ itoa cfg.port) ⊎ ((p ≡ itoa cfg.tls_port) × (cfg.tls_enabled ≡ true)))

daemon_port_trusted-IsDaemonPort :
    (cfg : DaemonConfig) (p : Text) → daemon_port_trusted cfg p ≡ true → IsDaemonPort cfg p
unfolding daemon_port_trusted
daemon_port_trusted-IsDaemonPort cfg p h = elim (Bool-cases (text_eq p [])) [
  | inl a ↦ inl ((text_eq_iff p []).0 a)
  | inr a ↦ elim (Bool-cases (text_eq p (itoa cfg.port))) [
    | inl b ↦ inr (inl ((text_eq_iff p (itoa cfg.port)).0 b))
    | inr b ↦ inr (inr ((text_eq_iff p (itoa cfg.tls_port)).0 (ground arith), ground arith))
  ]
]

-- A host of the daemon's own: loopback, the dashboard, or a registered route that is no bookmark.
abbrev pub IsOwnHost : DaemonConfig → RouteTable → Text → Type 0
IsOwnHost cfg table host =
    (is_loopback host ≡ true)
    ⊎ ((host ≡ codes "local." ++ cfg.tld)
        ⊎ ((name : Text) × (r : Route) × (host ≡ name ++ (codes "." ++ cfg.tld))
            × (get table name ≡ some r)
            × (is_bookmark r.type ≡ false)))

route_trusted_sound :
    (o : Option Route)
    → route_trusted o ≡ true
    → (r : Route) × (o ≡ some r) × (is_bookmark r.type ≡ false)
route_trusted_sound none h = absurd (cc)
route_trusted_sound (some r) h = (r, refl, ground arith)

suffix_trusted :
    (cfg : DaemonConfig) (table : RouteTable) (host : Text)
    → (if has_suffix host (codes "." ++ cfg.tld)
        then route_trusted (get table (trim_suffix host (codes "." ++ cfg.tld)))
        else false)
      ≡ true
    → (name : Text) × (r : Route) × (host ≡ name ++ (codes "." ++ cfg.tld))
      × (get table name ≡ some r)
      × (is_bookmark r.type ≡ false)
suffix_trusted cfg table host h = elim (Option-cases (cut_suffix host (codes "." ++ cfg.tld))) [
  | inl e ↦ absurd (ground arith)
  | inr (name, e) ↦
      let cut : trim_suffix host (codes "." ++ cfg.tld) ≡ name = ground arith in
      let passed : route_trusted (get table (trim_suffix host (codes "." ++ cfg.tld))) ≡ true =
        ground arith in
      let trusted : route_trusted (get table name) ≡ true = rw cut at passed in
      let (r, found, kind) = route_trusted_sound (get table name) trusted in
      (name, r, cut_suffix_sound host (codes "." ++ cfg.tld) name e, found, kind)
]

host_trusted_sound :
    (cfg : DaemonConfig) (table : RouteTable) (u : Url)
    → host_trusted cfg table u ≡ true
    → (daemon_port_trusted cfg u.url_port ≡ true) × IsOwnHost cfg table u.hostname
host_trusted_sound cfg table u h = elim (Bool-cases (is_loopback u.hostname)) [
  | inl a ↦ (ground arith, inl a)
  | inr a ↦ elim (Bool-cases (daemon_port_trusted cfg u.url_port)) [
    | inr b ↦ absurd (ground arith)
    | inl b ↦ elim (Bool-cases (text_eq u.hostname (codes "local." ++ cfg.tld))) [
      | inl c ↦ (b, inr (inl (text_eq→eq u.hostname (codes "local." ++ cfg.tld) c)))
      | inr c ↦ (b, inr (inr (suffix_trusted cfg table u.hostname (rw (a, b, c) at h))))
    ]
  ]
]

parsed_trusted :
    (net : Net) (cfg : DaemonConfig) (table : RouteTable) (origin : Text) (u : Url)
    → net.parse origin ≡ some u
    → origin_trusted net cfg table origin ≡ true
    → host_trusted cfg table u ≡ true
unfolding origin_trusted
parsed_trusted net cfg table origin u e h =
    elim (Bool-cases (text_eq origin [] || text_eq origin (codes "null"))) [
      | inl a ↦ absurd (ground arith)
      | inr a ↦ elim (Bool-cases (text_eq u.host [])) [
        | inl b ↦ absurd (ground (arith, the_false b a))
        | inr b ↦ rw (a, e, b) at h
      ]
    ]
  where
    the_false :
        text_eq u.host [] ≡ true
        → (text_eq origin [] || text_eq origin (codes "null")) ≡ false
        → false ≡ true
    the_false b a = rw (a, e, b) at h

-- An origin is trusted only if it is a URL, on a port that the daemon answers on, whose host is loopback, the
-- dashboard, or exactly that of a registered route which is not a bookmark.
pub origin_trusted_sound :
    (net : Net) (cfg : DaemonConfig) (table : RouteTable) (origin : Text)
    → origin_trusted net cfg table origin ≡ true
    → (u : Url) × (net.parse origin ≡ some u)
      × IsDaemonPort cfg u.url_port
      × IsOwnHost cfg table u.hostname
unfolding origin_trusted
origin_trusted_sound net cfg table origin h = elim (Option-cases (net.parse origin)) [
  | inl e ↦ absurd (ground arith)
  | inr (u, e) ↦
      let trusted : host_trusted cfg table u ≡ true = parsed_trusted net cfg table origin u e h in
      let (port, host) = host_trusted_sound cfg table u trusted in
      (u, e, daemon_port_trusted-IsDaemonPort cfg u.url_port port, host)
]

own_host_sound :
    (cfg : DaemonConfig) (host p : Text)
    → own_host cfg host p ≡ true
    → ((is_loopback host || text_eq host (codes "local." ++ cfg.tld)) ≡ true) × IsDaemonPort cfg p
own_host_sound cfg host p h =
    elim (Bool-cases (is_loopback host || text_eq host (codes "local." ++ cfg.tld))) [
      | inl a ↦ (a, daemon_port_trusted-IsDaemonPort cfg p (rw a at h))
      | inr a ↦ absurd (ground arith)
    ]

-- A read shows directories and commands only to a client on the Unix socket, whose address does not
-- split, or on a `Host` that is loopback or the dashboard, on a port of the daemon.
pub local_details_allowed_sound :
    (net : Net) (cfg : DaemonConfig) (r : Request)
    → local_details_allowed net cfg r ≡ true
    → (net.split_host_port r.remote_addr ≡ none)
      ⊎ ((host p : Text) × ((net.split_host_port r.request_host ≡ some (host, p))
            ⊎ ((net.split_host_port r.request_host ≡ none) × (host ≡ r.request_host) × (p ≡ [])))
          × ((is_loopback host || text_eq host (codes "local." ++ cfg.tld)) ≡ true)
          × IsDaemonPort cfg p)
unfolding local_details_allowed
local_details_allowed_sound net cfg r h = elim (Option-cases (net.split_host_port r.remote_addr)) [
  | inl e ↦ inl e
  | inr (a, e) ↦ inr (elim (Option-cases (net.split_host_port r.request_host)) [
    | inl f ↦
        let own : own_host cfg r.request_host [] ≡ true = rw (e, local_details_allowed, f) at h in
        let (named, port) = own_host_sound cfg r.request_host [] own in
        (r.request_host, [], inr (f, refl, refl), named, port)
    | inr ((host, p), f) ↦
        let own : own_host cfg host p ≡ true = rw (e, local_details_allowed, f) at h in
        let (named, port) = own_host_sound cfg host p own in (host, p, inl f, named, port)
  ])
]
