-- ===== src/Starting/Started.antt =====
-- A start through the API that succeeds (internal/daemon/api.go, `handleStart`).
use local_vibe.Base.{
  ℕ, Bool, true, false, not, ◌&&◌, ◌≡◌, ◌⊎◌, ◌∙◌, refl, subst, inl, inr, Bool-cases, Option-cases,
  Option, none, some, List, [], Text, if◌then◌else◌, ◌==◌, text_eq, text_eq_refl, is_some,
}
use local_vibe.Routes.{Route, get}
use local_vibe.Procs.{System, ProcessManager}
use local_vibe.Ports.{find_free_port}
use local_vibe.Handlers.{Daemon, done, or_else}
use local_vibe.Recover.{Visit, StartRefusal, start_on_port, write, worktree_dir_gone}
use local_vibe.Register.Launched.{found_port}
use local_vibe.SyncConfig.{VibeJson, sync_route_from_vibe_json}
use local_vibe.SyncConfig.Effect.{sync_route_from_vibe_json_lem}
use local_vibe.Starting.{
  StartRequest, status_of, start_ported, requested_kills, start_synced, start_known, handle_start,
}
use local_vibe.Recover.Launched.{
  get-write, get-write_other, SameOthers, IsLaunched, start_on_port-IsLaunched,
}

-- A route with another port.
abbrev pub with_port : ℕ → Route → Route
with_port port r = record r { port = port }

ported :
    (assigns : Bool) (d : Daemon) (r : Route) (fresh : ℕ)
    → get d.server.table r.name ≡ some r
    → let port = if assigns then fresh else r.port in
      let d1 = if assigns then write d r.name (with_port port) else d in
      (get d1.server.table r.name ≡ some (with_port port r))
      × SameOthers r.name d d1
      × (d1.server.procs ≡ d.server.procs)
ported true d r fresh g =
    (get-write d r.name (with_port fresh) r g, get-write_other d r.name (with_port fresh), refl)
ported false d r fresh g = (g, λ n h. refl, refl)

done_status : (o : Option StartRefusal) → status_of o ≡ done → o ≡ none
done_status none h = refl
done_status (some x) h = absurd (cc)

-- The daemon with the port written, and the launch from it by a manager.
abbrev pub IsStarted : Visit → ProcessManager → Daemon → Route → Daemon → Type 0
IsStarted v pm d r d' =
    (d1 : Daemon) × (port : ℕ) × SameOthers r.name d d1
    × ((port ≡ r.port) × ((r.port == 0) ≡ false)
        ⊎ find_free_port v.around.bindable v.fallback d.server.table ≡ some port)
    × IsLaunched v pm d1 (with_port port r) d'
    × SameOthers r.name d d'

IsLaunched-same :
    (v : Visit) (d d1 : Daemon) (r : Route) (d' : Daemon)
    → d1.server.procs ≡ d.server.procs
    → IsLaunched v d1.server.procs d1 r d'
    → IsLaunched v d.server.procs d1 r d'
IsLaunched-same v d d1 r d' same h = subst (λ (pm : ProcessManager). IsLaunched v pm d1 r d') same h

start_ported-IsStarted :
    (v : Visit) (d : Daemon) (r : Route)
    → get d.server.table r.name ≡ some r
    → (start_ported v d r.name r).0 ≡ done
    → IsStarted v d.server.procs d r (start_ported v d r.name r).1
unfolding start_ported
start_ported-IsStarted v d r g h =
    let picked = find_free_port v.around.bindable v.fallback d.server.table in
    let assigns = r.port == 0 in
    let port = if assigns then or_else picked 0 else r.port in
    let d1 = if assigns then write d r.name (with_port port) else d in
    let (stored, others, same) = ported assigns d r (or_else picked 0) g in
    elim (Bool-cases (assigns && not (is_some picked))) [
      | inl e ↦ absurd (cc (rw (start_ported, e) at h))
      | inr e ↦
          let (launched, kept) =
            start_on_port-IsLaunched v d1 (with_port port r) stored
              (done_status _ (rw (start_ported, e) at h)) in
          rw (start_ported, e)
            (
              d1,
              port,
              others,
              found_port assigns picked r.port port refl e,
              IsLaunched-same v d d1 (with_port port r)
                  (start_on_port v d1 r.name (with_port port r)).1 same launched,
              λ n m. kept n m ∙ others n m,
            )
    ]

start_synced-IsStarted :
    (v : Visit) (before between : System) (q : StartRequest) (d : Daemon) (r : Route)
    → get d.server.table r.name ≡ some r
    → (start_synced v before between q d r.name r).0 ≡ done
    → (text_eq r.cmd [] ≡ false)
      × IsStarted v d.server.procs d r (start_synced v before between q d r.name r).1
unfolding start_synced
start_synced-IsStarted v before between q d r g h = elim (Bool-cases (text_eq r.cmd [])) [
  | inl e ↦ absurd (cc (rw (start_synced, e) at h))
  | inr e ↦ elim (Option-cases (requested_kills before between d.server.procs q)) [
    | inl k ↦ absurd (cc (rw (start_synced, e, k) at h))
    | inr (asked, k) ↦
        rw (start_synced, e, k)
          (refl, start_ported-IsStarted v d r g (rw (start_synced, e, k) at h))
  ]
]

IsStarted-same :
    (v : Visit) (d d1 : Daemon) (r : Route) (d' : Daemon)
    → d1.server.procs ≡ d.server.procs
    → IsStarted v d1.server.procs d1 r d'
    → IsStarted v d.server.procs d1 r d'
IsStarted-same v d d1 r d' same h = subst (λ (pm : ProcessManager). IsStarted v pm d1 r d') same h

-- A start that is asked for through the API and succeeds. Reading vibe.json again has written at most the command, the
-- callback port and the reserve ports of the route, which has a command then. The route is started from there with its
-- own port, or with one that was found free if it had none: it runs, not yet ready and without a failure, as the
-- process that the daemon's manager gave for it, which the manager then holds; no port of it belongs to the daemon or
-- to another route, or was still held by a process that is neither the daemon's nor tracked by this manager; and the
-- saved routes are those of the table. Every other route is as it was.
pub handle_start_done :
    (v : Visit) (before between : System) (written : Bool) (file : Option (Option VibeJson))
    (q : StartRequest) (d : Daemon) (route : Route)
    → get d.server.table route.name ≡ some route
    → (handle_start v before between written file q d route.name).0 ≡ done
    → let d' = (handle_start v before between written file q d route.name).1 in
      (worktree_dir_gone v.is_gone route ≡ false)
      × ((cmd : Text) × (oauth : ℕ) × (reserve : List (Text × ℕ)) × (text_eq cmd [] ≡ false)
          × IsStarted v d.server.procs
              (sync_route_from_vibe_json v.around written file d route).1
              (record route { cmd = cmd; oauth_callback_port = oauth; reserve_ports = reserve })
              d')
      × SameOthers route.name d d'
unfolding handle_start start_known
handle_start_done v before between written file q d route g h =
    let (failed, d1) = sync_route_from_vibe_json v.around written file d route in
    let ((cmd, oauth, reserve, rewritten, _), _, procs, _) =
      sync_route_from_vibe_json_lem v.around written file d route g in
    let fresh : Route = record route {
      cmd = cmd;
      oauth_callback_port = oauth;
      reserve_ports = reserve;
    } in
    let stored : get d1.server.table route.name ≡ some fresh =
      rewritten route.name ∙ rw (text_eq_refl route.name) refl in
    elim (Bool-cases (worktree_dir_gone v.is_gone route)) [
      | inl a ↦ absurd (cc (rw (handle_start, g, start_known, a) at h))
      | inr a ↦ elim (Option-cases failed) [
        | inr (x, e) ↦ absurd (cc (rw (handle_start, g, start_known, a, e) at h))
        | inl e ↦
            let (named, started) =
              start_synced-IsStarted v before between q d1 fresh stored
                (rw (handle_start, g, start_known, a, e, stored) at h) in
            let (_, _, _, _, _, kept) = started in
            let others : SameOthers route.name d d1 = λ n m. rewritten n ∙ rw m refl in
            rw (handle_start, g, start_known, a, e, stored)
              (
                refl,
                (
                  cmd,
                  oauth,
                  reserve,
                  named,
                  IsStarted-same v d d1 fresh
                      (start_synced v before between q d1 fresh.name fresh).1 procs started,
                ),
                λ n m. kept n m ∙ others n m,
              )
      ]
    ]
