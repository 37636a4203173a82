-- ===== src/Register/Refused.antt =====
-- What a registration leaves, refused or not (internal/daemon/api.go, `handleRegister`).
use local_vibe.Base.{
  ℕ, false, ◌≡◌, ◌⊎◌, ◌∙◌, refl, sym, ap, inl, inr, Bool-cases, Option-cases, Option, none, some,
  Result-cases, List, [], Text, if◌then◌else◌, text_eq, text_eq_refl, to_lower,
}
use local_vibe.Routes.{Route, get, is_managed}
use local_vibe.Procs.{stop}
use local_vibe.Procs.Tracked.{NoNew}
use local_vibe.Timers.{Server, add_route, remove_route}
use local_vibe.Timers.Sync.{IsSynced}
use local_vibe.Timers.Ttl.{get-remove_route}
use local_vibe.Bridge.{reconcile_oauth_bridge_listeners}
use local_vibe.Handlers.{Daemon, Status, refused}
use local_vibe.Register.{
  Registering, RegisterRequest, check_request, check_ports, portless, new_route, launch_added,
  finish_registered, add_registered, handle_register,
}
use local_vibe.Register.Added.{
  IsBeyond, IsBeyond-trans, either-IsBeyond, procs-IsBeyond, remove_route-IsBeyond,
  add_route-IsBeyond, launch_registered-IsBeyond,
}
use local_vibe.Register.Tracked.{add_registered-NoNew}

-- What is known of an answer: every other route is as it was, and after a refusal the name is unknown and nothing is
-- saved.
abbrev pub Answered : Text → Daemon → Status × Daemon × List ℕ → Type 0
Answered name d out =
    IsBeyond name d.server out.1.server
    × ((code : ℕ)
        → out.0 ≡ refused code
        → (get out.1.server.table name ≡ none) × (out.1.saved ≡ d.saved))

launch_added-IsBeyond :
    (e : Registering) (d : Daemon) (fresh : Route)
    → IsBeyond fresh.name d.server (launch_added e d fresh).1
unfolding launch_added
launch_added-IsBeyond e d fresh =
    let now = e.around.now in
    let alive = e.around.system.alive in
    let added = add_route-IsBeyond now alive fresh d.server in
    elim (Bool-cases (is_managed fresh.type)) [
      | inl m ↦
          rw (m, launch_added)
            (IsBeyond-trans fresh.name d.server _ _ added
              (launch_registered-IsBeyond e fresh.name (add_route now alive fresh d.server) fresh))
      | inr m ↦ rw (m, launch_added) added
    ]

removed_after :
    (name : Text) (d : Daemon) (s : Server)
    → IsBeyond name d.server s
    → IsBeyond name d.server (remove_route name s) × (get (remove_route name s).table name ≡ none)
removed_after name d s h = (
  IsBeyond-trans name d.server s (remove_route name s) h (remove_route-IsBeyond name s),
  get-remove_route name name s ∙ rw (text_eq_refl name) refl,
)

finish_registered-Answered :
    (e : Registering) (d : Daemon) (fresh : Route) (refusal : Option ℕ) (s : Server)
    (killed : List ℕ)
    → IsBeyond fresh.name d.server s
    → Answered fresh.name d (finish_registered e d fresh (refusal, s, killed))
unfolding finish_registered
finish_registered-Answered e d fresh (some code) s killed h =
    let (beyond, gone) = removed_after fresh.name d s h in (beyond, λ c k. (gone, refl))
finish_registered-Answered e d fresh none s killed h =
    let pm = (stop s.procs fresh.name).0 in
    let halted = if is_managed fresh.type then record s { procs = pm } else s in
    let halted_beyond = IsBeyond-trans fresh.name d.server s halted h (
      either-IsBeyond fresh.name (is_managed fresh.type) s (record s { procs = pm })
        (procs-IsBeyond fresh.name pm s)) in
    elim (Option-cases
      (reconcile_oauth_bridge_listeners e.around.config s.table e.around.bindable d.listeners).1) [
        | inr (x, f) ↦
            let (beyond, gone) = removed_after fresh.name d halted halted_beyond in
            rw (f, finish_registered) (beyond, λ c k. (gone, refl))
        | inl f ↦ rw (f, finish_registered) (h, λ c k. absurd (cc))
      ]

add_registered-Answered :
    (e : Registering) (d : Daemon) (fresh : Route)
    → Answered fresh.name d (add_registered e d fresh)
unfolding add_registered
add_registered-Answered e d fresh =
    finish_registered-Answered e d fresh (launch_added e d fresh).0 (launch_added e d fresh).1
      (launch_added e d fresh).2 (launch_added-IsBeyond e d fresh)

-- The name that a request registers.
abbrev pub registered_name : Option RegisterRequest → Text
registered_name none = []
registered_name (some q) = to_lower q.name

-- Either the checks refuse, and nothing is done, or the route is added.
handled :
    (e : Registering) (d : Daemon) (body : Option RegisterRequest)
    → ((code : ℕ) × (handle_register e d body ≡ (refused code, d, [])))
      ⊎ ((fresh : Route) × (fresh.name ≡ registered_name body)
          × (handle_register e d body ≡ add_registered e d fresh))
unfolding handle_register new_route
handled e d none = inl (400, refl)
handled e d (some raw) =
    let q : RegisterRequest = record raw { name = to_lower raw.name } in
    elim (Result-cases (check_request e q)) [
      | inl (code, c) ↦ inl (code, rw (c, handle_register) refl)
      | inr (parent, c) ↦
          let q' = portless parent q in
          elim (Result-cases (check_ports e.around.config d.server.table parent q')) [
            | inl (code, p) ↦ inl (code, rw (c, handle_register, p) refl)
            | inr (reserve, p) ↦
                inr
                  (new_route e.around.now parent reserve q', refl, rw (c, handle_register, p) refl)
          ]
    ]

-- After a registration that is refused either the daemon is as it was, or no route has the name and every other route is
-- as it was, nothing is saved, and every process that the daemon's manager tracks is one that it tracked before, in the
-- same map under the same name. Of the callback listeners nothing is said.
pub handle_register-refused :
    (e : Registering) (d : Daemon) (body : Option RegisterRequest) (code : ℕ)
    → (handle_register e d body).0 ≡ refused code
    → let d' = (handle_register e d body).1 in
      (d' ≡ d)
      ⊎ (get d'.server.table (registered_name body) ≡ none)
        × ((n : Text)
            → text_eq (registered_name body) n ≡ false
            → get d'.server.table n ≡ get d.server.table n)
        × (d'.saved ≡ d.saved)
        × NoNew d.server.procs d'.server.procs
handle_register-refused e d body code h = elim (handled e d body) [
  | inl (c, r) ↦ inl (ap (λ (v : Status × Daemon × List ℕ). v.1) r)
  | inr (fresh, named, r) ↦
      let (beyond, after) = add_registered-Answered e d fresh in
      let refusal : (add_registered e d fresh).0 ≡ refused code =
        sym (ap (λ (v : Status × Daemon × List ℕ). v.0) r) ∙ h in
      let (gone, saved) = after code refusal in
      inr
        (rw (r, ← named) (gone, beyond.others, saved, add_registered-NoNew e d fresh code refusal))
]

-- Whatever comes of a registration, every route but the one that it names is as it was, and the timers are in step with
-- the table if they were: a name has a pending timer of a kind exactly if its route wants one.
pub handle_register-IsSynced :
    (e : Registering) (d : Daemon) (body : Option RegisterRequest)
    → IsSynced d.server
    → let d' = (handle_register e d body).1 in
      IsSynced d'.server
      × ((n : Text)
          → text_eq (registered_name body) n ≡ false
          → get d'.server.table n ≡ get d.server.table n)
handle_register-IsSynced e d body h = elim (handled e d body) [
  | inl (c, r) ↦ rw r (h, λ n other. refl)
  | inr (fresh, named, r) ↦
      let (beyond, after) = add_registered-Answered e d fresh in
      rw (r, ← named) (beyond.synced h, beyond.others)
]
