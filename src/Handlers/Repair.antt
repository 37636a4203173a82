-- ===== src/Handlers/Repair.antt =====
-- A repair finds the port that a route moved to (internal/daemon/api.go, `handleRepair`).
use local_vibe.Base.{
  ℕ, Bool, true, not, ◌&&◌, ◌≡◌, ◌≢◌, ◌⊎◌, ◌∙◌, ap, inl, inr, Bool-cases, Option-cases, Option,
  none, some, List, [], ◌∷◌, Text, arith, if◌then◌else◌, ◌==◌, text_eq, text_eq_iff, All,
}
use local_vibe.Routes.{Route, RouteTable, get, list, update, update_port, is_bookmark}
use local_vibe.Routes.Lookup.{get-update, get-update_port}
use local_vibe.Handlers.{Daemon, Surroundings, repaired, serving, port_holder, handle_repair}

port_holder-none :
    (name : Text) (port : ℕ) (rs : List Route)
    → port_holder name port rs ≡ none
    → All (λ r. (r.name ≡ name) ⊎ (r.port ≢ port)) rs
unfolding port_holder
port_holder-none name port [] h = tt
port_holder-none name port (r ∷ rs) h = elim (Bool-cases (text_eq r.name name)) [
  | inl e ↦ (inl ((text_eq_iff r.name name).0 e), port_holder-none name port rs (ground arith))
  | inr e ↦ elim (Bool-cases (r.port == port)) [
    | inl f ↦ absurd (ground arith)
    | inr f ↦ (inr (ground arith), port_holder-none name port rs (ground arith))
  ]
]

repaired_port : {a b p q : ℕ} → repaired a p ≡ repaired b q → p ≡ q
repaired_port h = cc

moved_to :
    (t : RouteTable) (name : Text) (port : ℕ) (route : Route) (n : Text)
    → get t name ≡ some route
    → get (update (update_port t name port).0 name serving).0 n ≡ (
        if text_eq name n
        then some (record route { port = port; ready = true; last_failure = none })
        else get t n)
moved_to t name port route n f = ground (
  arith,
  (get-update (update_port t name port).0 name serving n).0,
  get-update_port t name port n,
  get-update_port t name port name,
  text_eq_iff name n,
  text_eq_iff name name,
)

-- A repair that moves a route takes the port that was discovered for it, which is not registered to any other
-- route. The route is then ready on that port without a failure, and every other route is as it was.
pub handle_repair_moved :
    (e : Surroundings) (foreign : Route → Bool) (discover : Route → Option ℕ) (d : Daemon)
    (name : Text) (route : Route) (old port : ℕ)
    → get d.server.table name ≡ some route
    → (handle_repair e foreign discover d name).0 ≡ repaired old port
    → (discover route ≡ some port)
      × All (λ r. (r.name ≡ route.name) ⊎ (r.port ≢ port)) (list d.server.table)
      × ((n : Text)
          → get (handle_repair e foreign discover d name).1.server.table n ≡ (
              if text_eq name n
              then some (record route { port = port; ready = true; last_failure = none })
              else get d.server.table n))
unfolding handle_repair
handle_repair_moved e foreign discover d name route old port f h =
    elim (Bool-cases (is_bookmark route.type)) [
      | inl a ↦ absurd (cc (rw (f, handle_repair, a) at h))
      | inr a ↦ elim (Bool-cases (e.system.port_ready route.port && not (foreign route))) [
        | inl b ↦ absurd (cc (rw (f, handle_repair, a, b) at h))
        | inr b ↦ elim (Option-cases (discover route)) [
          | inl c ↦ absurd (cc (rw (f, handle_repair, a, b, c) at h))
          | inr (p, c) ↦ elim (Option-cases (port_holder route.name p (list d.server.table))) [
            | inr (other, g) ↦ absurd (cc (rw (f, handle_repair, a, b, c, g) at h))
            | inl g ↦
                let same : p ≡ port = repaired_port (rw (f, handle_repair, a, b, c, g) at h) in
                (
                  c ∙ ap some same,
                  rw (← same) (port_holder-none route.name p (list d.server.table) g),
                  λ n.
                      rw (f, handle_repair, a, b, c, g, ← same)
                        (moved_to d.server.table name p route n f),
                )
          ]
        ]
      ]
    ]
