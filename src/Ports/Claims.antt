-- ===== src/Ports/Claims.antt =====
-- When a port is claimed (internal/daemon/api.go, `vibePortClaim`, `checkVibePortCollisions`;
-- internal/daemon/oauth_bridge.go, `validateOAuthBridgeConfig`).
use local_vibe.Base.{
  ℕ, ◌≤◌, Bool, false, ◌&&◌, ◌||◌, ◌≡◌, ◌≢◌, ◌⊎◌, ◌↔◌, refl, inl, inr, Bool-cases, Option-cases,
  none, List, [], ◌∷◌, Text, arith, ◌==◌, text_eq, text_eq_iff, is_some, All, sort_by, sort_by-All,
}
use local_vibe.Config.{DaemonConfig}
use local_vibe.Routes.{Route, RouteTable, list}
use local_vibe.Ports.{
  reserve_key, routes_claim, vibe_port_claim, values_claim, reserve_ports_claim,
  check_vibe_port_collisions, callback_user, validate_oauth_bridge_config,
}

-- Whether a route names a port, in any of its roles.
abbrev pub uses : ℕ → Route → Bool
uses port r =
    r.port == port || r.oauth_callback_port == port || is_some (reserve_key port r.reserve_ports)

abbrev pub is_daemon_port : DaemonConfig → ℕ → Bool
is_daemon_port cfg port = port == cfg.port || cfg.tls_enabled && port == cfg.tls_port

-- A port that a route may take: none at all, or neither the daemon's nor that of another route.
abbrev pub IsUnclaimed : DaemonConfig → RouteTable → Text → ℕ → Type 0
IsUnclaimed cfg table name port =
    (port ≡ 0)
    ⊎ ((is_daemon_port cfg port ≡ false)
        × All (λ r. (r.name ≡ name) ⊎ (uses port r ≡ false)) (list table))

routes_claim_iff :
    (name : Text) (port : ℕ) (rs : List Route)
    → (routes_claim name port rs ≡ none) ↔ All (λ r. (r.name ≡ name) ⊎ (uses port r ≡ false)) rs
unfolding routes_claim
routes_claim_iff name port [] = (λ h. tt, λ h. refl)
routes_claim_iff name port (r ∷ rs) =
    let (sound, complete) = routes_claim_iff name port rs in
    (
      λ h. elim (Bool-cases (text_eq r.name name)) [
        | inl e ↦ (inl ((text_eq_iff r.name name).0 e), sound (ground arith))
        | inr e ↦ elim (Bool-cases (uses port r)) [
          | inl u ↦ absurd (ground arith)
          | inr u ↦ (inr u, sound (ground arith))
        ]
      ],
      λ h. elim h.0 [
        | inl e ↦ rw ((text_eq_iff r.name name).1 e) (complete h.1)
        | inr u ↦ ground (arith, complete h.1)
      ],
    )

-- A start finds no claim on a port exactly if it is 0 or neither the daemon's HTTP or HTTPS port nor a primary
-- port, callback port or reserve port of another route.
pub vibe_port_claim_iff :
    (cfg : DaemonConfig) (table : RouteTable) (name : Text) (port : ℕ)
    → (vibe_port_claim cfg table name port ≡ none) ↔ IsUnclaimed cfg table name port
unfolding vibe_port_claim
vibe_port_claim_iff cfg table name port =
    let (sound, complete) = routes_claim_iff name port (list table) in
    (
      λ h. elim (Bool-cases (port == 0)) [
        | inl z ↦ inl (ground arith)
        | inr z ↦ inr (ground arith, sound (ground arith))
      ],
      λ h. elim h [ inl z ↦ ground arith | inr (d, o) ↦ ground (arith, complete o) ],
    )

values_claim_iff :
    (cfg : DaemonConfig) (table : RouteTable) (name : Text) (vs : List (Text × ℕ))
    → (values_claim cfg table name vs ≡ none)
      ↔ All (λ (e : Text × ℕ). IsUnclaimed cfg table name e.1) vs
unfolding values_claim
values_claim_iff cfg table name [] = (λ h. tt, λ h. refl)
values_claim_iff cfg table name ((key, p) ∷ vs) =
    let (sound, complete) = values_claim_iff cfg table name vs in
    let (free, claimed) = vibe_port_claim_iff cfg table name p in
    (
      λ h. elim (Bool-cases (p == 0)) [
        | inl z ↦ (inl (ground arith), sound (ground arith))
        | inr z ↦ elim (Option-cases (vibe_port_claim cfg table name p)) [
          | inl e ↦ (free e, sound (rw (z, e) at h))
          | inr (c, e) ↦ absurd (ground arith)
        ]
      ],
      λ h. elim (Bool-cases (p == 0)) [
        | inl z ↦ rw z (complete h.1)
        | inr z ↦ rw (z, claimed h.0) (complete h.1)
      ],
    )

-- The check before a start passes exactly if the route's primary port and each of its reserve ports are
-- unclaimed: 0, or neither the daemon's nor that of another route.
pub check_vibe_port_collisions_iff :
    (cfg : DaemonConfig) (table : RouteTable) (r : Route)
    → (check_vibe_port_collisions cfg table r ≡ none) ↔ (
        IsUnclaimed cfg table r.name r.port
        × All (λ (e : Text × ℕ). IsUnclaimed cfg table r.name e.1) r.reserve_ports)
unfolding check_vibe_port_collisions reserve_ports_claim
check_vibe_port_collisions_iff cfg table r =
    let (free, claimed) = vibe_port_claim_iff cfg table r.name r.port in
    let (sound, complete) =
      values_claim_iff cfg table r.name (sort_by (λ (e : Text × ℕ). e.0) r.reserve_ports) in
    let (there, back) =
      sort_by-All (λ (e : Text × ℕ). e.0) (λ (e : Text × ℕ). IsUnclaimed cfg table r.name e.1)
        r.reserve_ports in
    (
      λ h. elim (Option-cases (vibe_port_claim cfg table r.name r.port)) [
        | inl e ↦ (free e, there (sound (rw (e, check_vibe_port_collisions) at h)))
        | inr (c, e) ↦ absurd (ground arith)
      ],
      λ h. rw (claimed h.0, check_vibe_port_collisions) (complete (back h.1)),
    )

callback_user_iff :
    (name : Text) (callback : ℕ) (rs : List Route)
    → (callback_user name callback rs ≡ none)
      ↔ All (λ r. (r.name ≡ name) ⊎ (r.oauth_callback_port ≢ callback)) rs
unfolding callback_user
callback_user_iff name callback [] = (λ h. tt, λ h. refl)
callback_user_iff name callback (r ∷ rs) =
    let (sound, complete) = callback_user_iff name callback rs in
    (
      λ h. elim (Bool-cases (text_eq r.name name)) [
        | inl e ↦ (inl ((text_eq_iff r.name name).0 e), sound (ground arith))
        | inr e ↦ elim (Bool-cases (r.oauth_callback_port == callback)) [
          | inl u ↦ absurd (ground arith)
          | inr u ↦ (inr (ground arith), sound (ground arith))
        ]
      ],
      λ h. elim h.0 [
        | inl e ↦ rw ((text_eq_iff r.name name).1 e) (complete h.1)
        | inr u ↦ ground (arith, complete h.1)
      ],
    )

-- A callback port is accepted for a route exactly if it is from 1 to 65535, is not the app's own port, is
-- not the daemon's HTTP port nor, with TLS on, its HTTPS port, and no other route has it as its callback port.
pub validate_oauth_bridge_config_iff :
    (cfg : DaemonConfig) (table : RouteTable) (name : Text) (app_port callback : ℕ)
    → (validate_oauth_bridge_config cfg table name app_port callback ≡ none) ↔ (
        (1 ≤ callback)
        × (callback ≤ 65535)
        × ((app_port ≡ 0) ⊎ (callback ≢ app_port))
        × (is_daemon_port cfg callback ≡ false)
        × All (λ r. (r.name ≡ name) ⊎ (r.oauth_callback_port ≢ callback)) (list table))
unfolding validate_oauth_bridge_config
validate_oauth_bridge_config_iff cfg table name app_port callback =
    let (sound, complete) = callback_user_iff name callback (list table) in
    (
      λ h. (ground arith, ground arith, ground arith, ground arith, sound (ground arith)),
      λ h. ground (arith, complete h.4),
    )
