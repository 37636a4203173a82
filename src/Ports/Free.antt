-- ===== src/Ports/Free.antt =====
-- The choice of a free port (internal/daemon/daemon.go, `findFreePort`).
use local_vibe.Base.{
  ℕ, zero, suc, ◌+◌, ◌≤◌, ◌<◌, Bool, true, not, ◌&&◌, ◌≡◌, refl, inl, inr, Bool-cases, Option, some,
  List, arith,
}
use local_vibe.Routes.{Route, RouteTable, list}
use local_vibe.Ports.{claims, scan_free, find_free_port}

-- A port that no route names and that can be listened on.
abbrev pub is_free : (ℕ → Bool) → List Route → ℕ → Bool
is_free bindable rs port = not (claims port rs) && bindable port

scan_free_sound :
    (bindable : ℕ → Bool) (rs : List Route) (fuel start port : ℕ)
    → scan_free bindable rs fuel start ≡ some port
    → (is_free bindable rs port ≡ true) × (start ≤ port) × (port < start + fuel)
unfolding scan_free
scan_free_sound bindable rs zero start port h = absurd (cc)
scan_free_sound bindable rs (suc fuel) start port h =
    ground (arith, scan_free_sound bindable rs fuel (start + 1) port)

-- No free port of the range is passed over.
scan_free_least :
    (bindable : ℕ → Bool) (rs : List Route) (fuel start q : ℕ)
    → start ≤ q
    → q < start + fuel
    → is_free bindable rs q ≡ true
    → (port : ℕ) × (scan_free bindable rs fuel start ≡ some port) × (port ≤ q)
unfolding scan_free
scan_free_least bindable rs zero start q low high free = absurd (omega arith)
scan_free_least bindable rs (suc fuel) start q low high free =
    elim (Bool-cases (is_free bindable rs start)) [
      | inl e ↦ (start, ground arith, low)
      | inr e ↦
          let later : start + 1 ≤ q = ground arith in
          let (port, found, least) =
            scan_free_least bindable rs fuel (start + 1) q later (omega arith) free in
          (port, ground arith, least)
    ]

-- If some port from 3000 to 3999 is named by no route and can be listened on, the least such port is chosen.
pub find_free_port_least :
    (bindable : ℕ → Bool) (fallback : Option ℕ) (table : RouteTable) (q : ℕ)
    → 3000 ≤ q
    → q < 4000
    → is_free bindable (list table) q ≡ true
    → (port : ℕ) × (find_free_port bindable fallback table ≡ some port)
      × (is_free bindable (list table) port ≡ true)
      × (3000 ≤ port)
      × (port ≤ q)
unfolding find_free_port
find_free_port_least bindable fallback table q low high free =
    let (port, found, least) = scan_free_least bindable (list table) 1000 3000 q low high free in
    let sound = scan_free_sound bindable (list table) 1000 3000 port found in
    (port, rw (found, find_free_port) refl, sound.0, sound.1, least)
