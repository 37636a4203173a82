-- ===== src/Handlers/Update.antt =====
-- What a refused update leaves (internal/daemon/api.go, `handleUpdate`).
use local_vibe.Base.{
  ℕ, Bool, true, false, not, ◌&&◌, ◌≡◌, ◌∙◌, ◌⊎◌, refl, sym, ap, inl, inr, Bool-cases, Option-cases,
  Option, none, some, [], Text, arith, if◌then◌else◌, ◌==◌, text_eq, text_eq_iff,
}
use local_vibe.Routes.{Route, RouteTable, get, update, is_bookmark}
use local_vibe.Routes.Lookup.{get-update}
use local_vibe.Timers.{Server, is_tracked, remove_route, add_route}
use local_vibe.Timers.Ttl.{get-remove_route}
use local_vibe.Timers.Tables.{get-add_route}
use local_vibe.Bridge.{reconcile_oauth_bridge_listeners}
use local_vibe.Handlers.{
  Daemon, Surroundings, Status, done, refused, UpdateRequest, lower_request, is_renaming,
  update_refusal, updated, rolled_back, bad_callback, commit, apply_update, handle_update,
}

-- The fields that a rollback does not restore were not written, but for the command.
rolled_back-updated :
    (name : Text) (q : UpdateRequest) (r : Route)
    → rolled_back r (updated name q r) ≡ record r { cmd = (updated name q r).cmd }
rolled_back-updated name q r = elim (Bool-cases (not (text_eq q.new_url []))) [
  | inl e ↦ rw e refl
  | inr e ↦ elim (Bool-cases (is_bookmark r.type && not (q.new_port == 0))) [
    | inl f ↦ rw (e, f) refl
    | inr f ↦ rw (e, f) refl
  ]
]

-- The table as it was, but for the command of one route.
abbrev pub OnlyCmd : Text → Text → Route → RouteTable → RouteTable → Type 0
OnlyCmd name cmd route before after =
    (n : Text)
    → get after n ≡ (if text_eq name n then some (record route { cmd = cmd }) else get before n)

undone-OnlyCmd :
    (name : Text) (fresh route old : Route) (t : RouteTable)
    → get t name ≡ some route
    → (n : Text)
    → get (update (update t name (λ r. fresh)).0 name (λ r. old)).0 n
      ≡ (if text_eq name n then some old else get t n)
undone-OnlyCmd name fresh route old t e n =
    let once = get-update t name (λ r. fresh) in
    let twice = get-update (update t name (λ r. fresh)).0 name (λ r. old) in
    ground
      (arith, (once n).0, (once name).0, (twice n).0, text_eq_iff name n, text_eq_iff name name)

-- The second rollback: the entry under the new name is removed, and the old route is added again.
back-OnlyCmd :
    (e : Surroundings) (name : Text) (renaming : Bool) (fresh route old : Route) (s : Server)
    → get s.table name ≡ some route
    → old.name ≡ name
    → is_tracked old.type ≡ false
    → is_tracked fresh.type ≡ false
    → (renaming ≡ true) × (text_eq fresh.name name ≡ false) × (get s.table fresh.name ≡ none)
      ⊎ (renaming ≡ false) × (fresh.name ≡ name)
    → (n : Text)
    → get
        (add_route e.now e.system.alive old (
          if renaming
          then remove_route fresh.name (
              commit e name renaming fresh
                (record s { table = (update s.table name (λ r. fresh)).0 }))
          else commit e name renaming fresh
              (record s { table = (update s.table name (λ r. fresh)).0 }))).table
        n
      ≡ (if text_eq name n then some old else get s.table n)
unfolding commit
back-OnlyCmd e name renaming fresh route old s f a b c h n =
    let s1 : Server = record s { table = (update s.table name (λ r. fresh)).0 } in
    let s2 = remove_route name s1 in
    let s3 = add_route e.now e.system.alive fresh s2 in
    let s4 = remove_route fresh.name s3 in
    let s5 = add_route e.now e.system.alive fresh s1 in
    let written = (get-update s.table name (λ r. fresh) n).0 in
    elim h [
      | inl (r, d, free) ↦ rw r (
          ground (
            arith,
            get-add_route e.now e.system.alive old s4 n b,
            get-remove_route fresh.name n s3,
            get-add_route e.now e.system.alive fresh s2 n c,
            get-remove_route name n s1,
            written,
            text_eq_iff name n,
            text_eq_iff fresh.name n,
            text_eq_iff old.name n,
          ))
      | inr (r, d) ↦ rw r (
          ground (
            arith,
            get-add_route e.now e.system.alive old s5 n b,
            get-add_route e.now e.system.alive fresh s1 n c,
            written,
            text_eq_iff name n,
            text_eq_iff fresh.name n,
            text_eq_iff old.name n,
          ))
    ]

updated-name :
    (name : Text) (q : UpdateRequest) (r : Route)
    → (updated name q r).name ≡ (if is_renaming name q then q.new_name else r.name)
updated-name name q r = elim (Bool-cases (not (text_eq q.new_url []))) [
  | inl e ↦ rw e refl
  | inr e ↦ elim (Bool-cases (is_bookmark r.type && not (q.new_port == 0))) [
    | inl f ↦ rw (e, f) refl
    | inr f ↦ rw (e, f) refl
  ]
]

updated-is_tracked :
    (name : Text) (q : UpdateRequest) (r : Route)
    → is_tracked r.type ≡ false
    → is_tracked (updated name q r).type ≡ false
updated-is_tracked name q r h = elim (Bool-cases (not (text_eq q.new_url []))) [
  | inl e ↦ rw e refl
  | inr e ↦ elim (Bool-cases (is_bookmark r.type && not (q.new_port == 0))) [
    | inl f ↦ rw (e, f) refl
    | inr f ↦ rw (e, f) h
  ]
]

-- Past the checks a new name is free.
renaming_free :
    (e : Surroundings) (table : RouteTable) (name : Text) (route : Route) (q : UpdateRequest)
    → update_refusal e.urls table name route q ≡ none
    → is_renaming name q ≡ true
    → get table q.new_name ≡ none
unfolding update_refusal
renaming_free e table name route q h r = ground arith

renaming_cases :
    (e : Surroundings) (table : RouteTable) (name : Text) (route : Route) (q : UpdateRequest)
    → update_refusal e.urls table name route q ≡ none
    → route.name ≡ name
    → (is_renaming name q ≡ true)
        × (text_eq (updated name q route).name name ≡ false)
        × (get table (updated name q route).name ≡ none)
      ⊎ (is_renaming name q ≡ false) × ((updated name q route).name ≡ name)
renaming_cases e table name route q h k = elim (Bool-cases (is_renaming name q)) [
  | inl r ↦
      let named : (updated name q route).name ≡ q.new_name =
        updated-name name q route ∙ rw r refl in
      inl (r, rw named (ground arith), rw named (renaming_free e table name route q h r))
  | inr r ↦ inr (r, updated-name name q route ∙ rw r k)
]

done-ne-refused :
    {a b : Daemon} {code : ℕ} → ◌≡◌ {A = Status × Daemon} (done, a) (refused code, b) → ⊥
done-ne-refused h = cc

module _ (e : Surroundings) (d : Daemon) (name : Text) (renaming : Bool) (route fresh : Route) where
  abbrev written_table : RouteTable
  written_table = (update d.server.table name (λ r. fresh)).0

  abbrev added_server : Server
  added_server =
      let s = d.server in commit e name renaming fresh (record s { table = written_table })

  abbrev back_server : Server
  back_server =
      add_route e.now e.system.alive (rolled_back route fresh)
        (if renaming then remove_route fresh.name added_server else added_server)

  -- The two ways in which the writes are refused.
  apply_outcome :
      (d' : Daemon) (code : ℕ)
      → apply_update e d name renaming route fresh ≡ (refused code, d')
      → (d'.server.table ≡ (update written_table name (λ r. rolled_back route fresh)).0)
        ⊎ (d'.server ≡ back_server)
  unfolding apply_update
  apply_outcome d' code h = elim (Bool-cases (bad_callback e written_table fresh)) [
    | inl b ↦ inl (sym (ap (λ (v : Status × Daemon). v.1.server.table) (rw (apply_update, b) at h)))
    | inr b ↦
        elim (Option-cases
          (reconcile_oauth_bridge_listeners e.config added_server.table e.bindable d.listeners).1) [
            | inl x ↦ absurd (done-ne-refused (rw (apply_update, b, x) at h))
            | inr (x, y) ↦
                inr (sym (ap (λ (v : Status × Daemon). v.1.server) (rw (apply_update, b, y) at h)))
          ]
  ]

unchanged :
    (d d' : Daemon) (name : Text) (route : Route)
    → get d.server.table name ≡ some route
    → d ≡ d'
    → OnlyCmd name route.cmd route d.server.table d'.server.table
unchanged d d' name route f same n = rw (← same) (ground (arith, text_eq_iff name n))

apply_update-refused :
    (e : Surroundings) (d d' : Daemon) (name : Text) (route : Route) (q : UpdateRequest) (code : ℕ)
    → get d.server.table name ≡ some route
    → route.name ≡ name
    → is_tracked route.type ≡ false
    → update_refusal e.urls d.server.table name route q ≡ none
    → apply_update e d name (is_renaming name q) route (updated name q route) ≡ (refused code, d')
    → OnlyCmd name (updated name q route).cmd route d.server.table d'.server.table
apply_update-refused e d d' name route q code f k t u h n =
    let fresh = updated name q route in
    let old = rolled_back route fresh in
    elim (apply_outcome e d name (is_renaming name q) route fresh d' code h) [
      | inl x ↦
          rw
            (
              x,
              undone-OnlyCmd name fresh route old d.server.table f n,
              rolled_back-updated name q route,
            )
            refl
      | inr x ↦
          rw
            (
              x,
              back-OnlyCmd e name (is_renaming name q) fresh route old d.server f k t
                  (updated-is_tracked name q route t)
                  (renaming_cases e d.server.table name route q u k) n,
              rolled_back-updated name q route,
            )
            refl
    ]

-- A refused update changes no route but, at most, the command of the one it names: neither a failed check nor a
-- callback port that is refused or cannot be opened leaves any other write or a half-done rename behind. This
-- is stated of a route that is stored under its own name and is not tied to a process.
pub handle_update-refused :
    (e : Surroundings) (d d' : Daemon) (name : Text) (body : Option UpdateRequest) (route : Route)
    (code : ℕ)
    → get d.server.table name ≡ some route
    → route.name ≡ name
    → is_tracked route.type ≡ false
    → handle_update e d name body ≡ (refused code, d')
    → (cmd : Text) × OnlyCmd name cmd route d.server.table d'.server.table
unfolding handle_update
handle_update-refused e d d' name none route code f k t h = (
  route.cmd,
  unchanged d d' name route f (ap (λ (v : Status × Daemon). v.1) (rw (handle_update, f) at h)),
)
handle_update-refused e d d' name (some raw) route code f k t h =
    let q = lower_request raw in
    elim (Option-cases (update_refusal e.urls d.server.table name route q)) [
      | inr (c, u) ↦ (
        route.cmd,
        unchanged d d' name route f
            (ap (λ (v : Status × Daemon). v.1) (rw (handle_update, f, u) at h)),
      )
      | inl u ↦ (
        (updated name q route).cmd,
        apply_update-refused e d d' name route q code f k t u (rw (handle_update, f, u) at h),
      )
    ]
