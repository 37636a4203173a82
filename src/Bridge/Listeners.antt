-- ===== src/Bridge/Listeners.antt =====
-- The bridge's listeners (internal/daemon/oauth_bridge.go, `reconcileOAuthBridgeListeners`).
use local_vibe.Base.{
  ℕ, Bool, true, false, ◌&&◌, ◌||◌, ◌≡◌, ◌∙◌, refl, sym, inl, inr, Bool-cases, Option-cases,
  Result-cases, none, Result, ok, err, ok_injective, err-ne-ok, List, [], ◌∷◌, arith, ◌==◌, ltb,
}
use local_vibe.Config.{DaemonConfig}
use local_vibe.Routes.{Route, RouteTable, list}
use local_vibe.Ports.{validate_oauth_bridge_config}
use local_vibe.Bridge.{
  listening, ReconcileError, wanted_ports, close_unwanted, open_wanted,
  reconcile_oauth_bridge_listeners,
}

-- Whether some route has the callback port.
abbrev pub is_wanted : ℕ → List Route → Bool
is_wanted p [] = false
is_wanted p (r ∷ rs) = ltb 0 r.oauth_callback_port && r.oauth_callback_port == p || is_wanted p rs

cons_ok :
    (c : ℕ) (rest : Result ReconcileError (List ℕ)) (ports : List ℕ)
    → ◌≡◌ {A = Result ReconcileError (List ℕ)}
        (elim rest [ err e ↦ err e | ok ps ↦ ok (c ∷ ps) ])
        (ok ports)
    → (ps : List ℕ) × (rest ≡ ok ps) × (ports ≡ c ∷ ps)
cons_ok c (err e) ports h = absurd (err-ne-ok h)
cons_ok c (ok ps) ports h = (ps, refl, sym (ok_injective h))

wanted_ports_sound :
    (cfg : DaemonConfig) (table : RouteTable) (rs : List Route) (ports : List ℕ)
    → wanted_ports cfg table rs ≡ ok ports
    → (p : ℕ) → listening p ports ≡ is_wanted p rs
unfolding wanted_ports
wanted_ports_sound cfg table [] ports h p = rw (← ok_injective h) refl
wanted_ports_sound cfg table (r ∷ rs) ports h p = elim (Bool-cases (ltb 0 r.oauth_callback_port)) [
  | inr e ↦ rw e (wanted_ports_sound cfg table rs ports (rw e at h) p)
  | inl e ↦
      elim (Option-cases
        (validate_oauth_bridge_config cfg table r.name r.port r.oauth_callback_port)) [
          | inr (x, f) ↦ absurd (err-ne-ok (rw (e, wanted_ports, f) at h))
          | inl f ↦
              let (ps, found, all) =
                cons_ok r.oauth_callback_port (wanted_ports cfg table rs) ports
                  (rw (e, wanted_ports, f) at h) in
              rw (all, e) (ground (arith, wanted_ports_sound cfg table rs ps found p))
        ]
]

close_unwanted_lem :
    (wanted open_ports : List ℕ) (p : ℕ)
    → listening p (close_unwanted wanted open_ports)
      ≡ (listening p open_ports && listening p wanted)
unfolding close_unwanted
close_unwanted_lem wanted [] p = refl
close_unwanted_lem wanted (q ∷ open_ports) p =
    ground (arith, close_unwanted_lem wanted open_ports p)

within : (a b c : Bool) → a ≡ (c && b) → (a || b) ≡ b
within a true c h = ground arith
within a false c h = ground arith

already :
    (q p : ℕ) (open_ports : List ℕ) (b : Bool)
    → listening q open_ports ≡ true
    → (listening p open_ports || b) ≡ (listening p open_ports || (q == p || b))
already q p open_ports b h = elim (Bool-cases (q == p)) [ inr e ↦ rw e refl | inl e ↦ ground arith ]

open_wanted_sound :
    (bindable : ℕ → Bool) (wanted open_ports : List ℕ)
    → (open_wanted bindable wanted open_ports).1 ≡ none
    → (p : ℕ)
    → listening p (open_wanted bindable wanted open_ports).0
      ≡ (listening p open_ports || listening p wanted)
unfolding open_wanted
open_wanted_sound bindable [] open_ports h p = ground arith
open_wanted_sound bindable (q ∷ wanted) open_ports h p =
    elim (Bool-cases (listening q open_ports)) [
      | inl e ↦
          let done : (open_wanted bindable wanted open_ports).1 ≡ none = ground arith in
          rw e (
            open_wanted_sound bindable wanted open_ports done p
            ∙ already q p open_ports (listening p wanted) e)
      | inr e ↦ elim (Bool-cases (bindable q)) [
        | inr f ↦ absurd (ground arith)
        | inl f ↦
            let done : (open_wanted bindable wanted (q ∷ open_ports)).1 ≡ none = ground arith in
            rw (e, f) (ground (arith, open_wanted_sound bindable wanted (q ∷ open_ports) done p))
      ]
    ]

-- After a reconciliation without an error there is a listener on a port exactly if some route has it as its
-- callback port: those that no route wants are closed, whatever was open before.
pub reconcile_exact :
    (cfg : DaemonConfig) (table : RouteTable) (bindable : ℕ → Bool) (open_ports : List ℕ) (p : ℕ)
    → (reconcile_oauth_bridge_listeners cfg table bindable open_ports).1 ≡ none
    → listening p (reconcile_oauth_bridge_listeners cfg table bindable open_ports).0
      ≡ is_wanted p (list table)
unfolding reconcile_oauth_bridge_listeners
reconcile_exact cfg table bindable open_ports p h =
    elim (Result-cases (wanted_ports cfg table (list table))) [
      | inl (x, e) ↦ absurd (ground arith)
      | inr (wanted, e) ↦
          let kept = close_unwanted wanted open_ports in
          let done : (open_wanted bindable wanted kept).1 ≡ none =
            rw (e, reconcile_oauth_bridge_listeners) at h in
          let opened = open_wanted_sound bindable wanted kept done p in
          rw (e, reconcile_oauth_bridge_listeners)
            (opened
              ∙ (within (listening p kept) (listening p wanted) (listening p open_ports)
                    (close_unwanted_lem wanted open_ports p)
                  ∙ wanted_ports_sound cfg table (list table) wanted e p))
    ]
