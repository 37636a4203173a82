-- ===== src/Routing/Reached.antt =====
-- What a paired machine's request reaches (internal/daemon/peer_listener.go, `peerServeRoute`).
use local_vibe.Base.{
  ℕ, Bool, true, false, ◌&&◌, ◌≡◌, ◌⊎◌, refl, inl, inr, Bool-cases, Option-cases, Option, none,
  some, List, ◌∷◌, Text, if◌then◌else◌, has_suffix, trim_suffix,
}
use local_vibe.Routes.{Route, get, is_managed, is_bookmark}
use local_vibe.Procs.{System}
use local_vibe.Handlers.{Daemon, handle_repair}
use local_vibe.Recover.{
  Visit, Served, to_parent, starting_page, start_page, proxied, recover_managed_route,
}
use local_vibe.Recover.Visits.{IsServed, recover_proxied}
use local_vibe.Routing.{host_name, is_down, if_adopted}
use local_vibe.Routing.Moved.{IsPortOf, handle_repair-IsPortOf, recover_proxied_port}
use local_vibe.Routing.Remote.{
  PeerAnswer, not_found, peer_starting_page, peer_port, peer_route_recovering, current, serve_ready,
  serve_shared, peer_serve_route,
}

-- A shared route may be served: it is not managed, its process lives, or its process group holds its port.
abbrev pub IsUp : System → Route → Type 0
IsUp sys r = (is_managed r.type ≡ false) ⊎ (is_down sys r ≡ false) ⊎ IsServed sys r

-- The daemon after the visit to a managed route that is not running; for another route no visit is made.
abbrev pub visited : Visit → Daemon → Text → Route → Daemon
visited v d name r =
    if is_managed r.type && is_down v.around.system r
    then (recover_managed_route v d name r).1
    else d

-- The table has the route under its name with the port of `r`, and `p` is that port, or the one that was discovered for
-- the route and that no other route of the table has.
abbrev pub IsPortIn : (Route → Option ℕ) → Daemon → Text → Route → ℕ → Type 0
IsPortIn discover d name r p =
    (now : Route) × (get d.server.table name ≡ some now)
    × (now.port ≡ r.port)
    × IsPortOf discover d now p

-- What a route that the table has, not a bookmark, may be answered with; `d` is the daemon after the visit.
abbrev pub Remote : Visit → (Route → Option ℕ) → Daemon → Text → Route → PeerAnswer → Type 0
Remote v discover d name r not_found = ⊥
Remote v discover d name r (peer_starting_page b) = is_bookmark r.type ≡ false
Remote v discover d name r (peer_port p) =
    (is_bookmark r.type ≡ false)
    × (v.around.system.port_ready p ≡ true)
    × IsUp v.around.system r
    × IsPortIn discover d name r p

healed_port :
    (v : Visit) (b : Bool) (foreign : Route → Bool) (discover : Route → Option ℕ) (d : Daemon)
    (name : Text) (now : Route)
    → get d.server.table name ≡ some now
    → let healed : Daemon =
        if b then (handle_repair v.around foreign discover d now.name).1 else d in
      IsPortOf discover d now (current (get healed.server.table name) now).port
healed_port v true foreign discover d name now g =
    handle_repair-IsPortOf v.around foreign discover d now.name name now g
healed_port v false foreign discover d name now g = inl (rw g refl)

serve_ready-Remote :
    (v : Visit) (starting : Bool) (foreign : Route → Bool) (discover : Route → Option ℕ)
    (d : Daemon) (name : Text) (r now : Route)
    → is_bookmark r.type ≡ false
    → IsUp v.around.system r
    → get d.server.table name ≡ some now
    → now.port ≡ r.port
    → Remote v discover d name r (serve_ready v starting foreign discover d name now).0
unfolding serve_ready
serve_ready-Remote v starting foreign discover d name r now n up g same =
    let healed : Daemon =
      if is_managed now.type && now.running
      then (handle_repair v.around foreign discover d now.name).1
      else d in
    let now' : Route = current (get healed.server.table name) now in
    elim (Bool-cases (v.around.system.port_ready now.port)) [
      | inl a ↦ rw (serve_ready, a) (n, a, up, (now, g, same, inl refl))
      | inr a ↦ elim (Bool-cases (v.around.system.port_ready now'.port)) [
        | inl b ↦
            rw (serve_ready, a, b)
              (
                n,
                b,
                up,
                (
                  now,
                  g,
                  same,
                  healed_port v (is_managed now.type && now.running) foreign discover d name now g,
                ),
              )
        | inr b ↦ rw (serve_ready, a, b) n
      ]
    ]

if_adopted-Remote :
    (v : Visit) (discover : Route → Option ℕ) (t : Daemon) (name : Text) (r : Route) (s : Served)
    (a : PeerAnswer × Daemon × List ℕ) (b : Bool) (d : Daemon) (killed : List ℕ)
    → is_bookmark r.type ≡ false
    → (s ≡ proxied → Remote v discover t name r a.0)
    → Remote v discover t name r (if_adopted s a (peer_starting_page b, d, killed)).0
if_adopted-Remote v discover t name r to_parent a b d killed n h = n
if_adopted-Remote v discover t name r starting_page a b d killed n h = n
if_adopted-Remote v discover t name r start_page a b d killed n h = n
if_adopted-Remote v discover t name r proxied a b d killed n h = h refl

serve_shared-Remote :
    (v : Visit) (starting : Bool) (foreign : Route → Bool) (discover : Route → Option ℕ)
    (d : Daemon) (name : Text) (r : Route)
    → is_bookmark r.type ≡ false
    → get d.server.table name ≡ some r
    → Remote v discover
        (visited v d name r)
        name
        r
        (serve_shared v starting foreign discover d name r).0
unfolding serve_shared
serve_shared-Remote v starting foreign discover d name r n g =
    let (served, d', killed) = recover_managed_route v d name r in
    let r' = current (get d'.server.table name) r in
    let (again, healed) = serve_ready v starting foreign discover d' name r' in
    elim (Bool-cases (is_managed r.type)) [
      | inr m ↦
          rw (serve_shared, m)
            (serve_ready-Remote v starting foreign discover d name r r n (inl m) g refl)
      | inl m ↦ elim (Bool-cases (is_down v.around.system r)) [
        | inr up ↦
            rw (serve_shared, m, up)
              (serve_ready-Remote v starting foreign discover d name r r n (inr (inl up)) g refl)
        | inl down ↦
            rw (serve_shared, m, down)
              (if_adopted-Remote v discover d' name r served (again, healed, killed)
                (peer_route_recovering starting r') d' killed n
                (λ e.
                  let (now, g', same) = recover_proxied_port v d name r g e in
                  rw g' (
                    serve_ready-Remote v starting foreign discover d' name r now n
                      (inr (inr (recover_proxied v d name r e))) g' same)))
      ]
    ]

-- What a name may be answered with, as the table has it.
abbrev pub Reached : Visit → (Route → Option ℕ) → Daemon → Text → Option Route → PeerAnswer → Type 0
Reached v discover d name none not_found = Unit
Reached v discover d name none (peer_starting_page b) = ⊥
Reached v discover d name none (peer_port p) = ⊥
Reached v discover d name (some r) not_found = is_bookmark r.type ≡ true
Reached v discover d name (some r) (peer_starting_page b) = is_bookmark r.type ≡ false
Reached v discover d name (some r) (peer_port p) =
    Remote v discover (visited v d name r) name r (peer_port p)

Remote-Reached :
    (v : Visit) (discover : Route → Option ℕ) (d : Daemon) (name : Text) (r : Route)
    (a : PeerAnswer)
    → Remote v discover (visited v d name r) name r a
    → Reached v discover d name (some r) a
Remote-Reached v discover d name r not_found h = absurd h
Remote-Reached v discover d name r (peer_starting_page b) h = h
Remote-Reached v discover d name r (peer_port p) h = h

-- A paired machine's request for a name under the configured domain is answered that there is no such route exactly
-- when the table does not have the name or has a bookmark for it. For any other route it is sent to a port
-- only if the port answers, and the route, when managed, has a live process or is served by its own process
-- group; in the other cases it gets the starting page. The port is that of the route, or one that was discovered for the
-- route and that no other route has.
pub peer_serve_route_sound :
    (v : Visit) (starting : Bool) (foreign : Route → Bool) (discover : Route → Option ℕ)
    (d : Daemon) (host : Text)
    → has_suffix (host_name host) (b'.' ∷ v.around.config.tld) ≡ true
    → let name = trim_suffix (host_name host) (b'.' ∷ v.around.config.tld) in
      Reached v discover d name
        (get d.server.table name)
        (peer_serve_route v starting foreign discover d host).0
unfolding peer_serve_route
peer_serve_route_sound v starting foreign discover d host under =
    let name = trim_suffix (host_name host) (b'.' ∷ v.around.config.tld) in
    elim (Option-cases (get d.server.table name)) [
      | inl e ↦ rw (peer_serve_route, under, e) tt
      | inr (r, e) ↦ elim (Bool-cases (is_bookmark r.type)) [
        | inl b ↦ rw (peer_serve_route, under, e, b) b
        | inr b ↦
            let (answer, _, _) = serve_shared v starting foreign discover d name r in
            rw (peer_serve_route, under, e, b)
              (Remote-Reached v discover d name r answer
                (serve_shared-Remote v starting foreign discover d name r b e))
      ]
    ]
