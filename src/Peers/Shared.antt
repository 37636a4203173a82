-- ===== src/Peers/Shared.antt =====
-- What a daemon tells its peers of its routes (`handlePeerRoutes`), and what a poll makes of it (`refreshPeerRoutes`).
use local_vibe.Base.{
  ℕ, Bool, true, false, ◌≡◌, ◌⊎◌, ◌∙◌, refl, sym, inl, inr, Bool-cases, none, some, List, [], ◌∷◌,
  Text, arith, text_eq, text_eq_iff, text_eq_refl, lookup, insert, lookup-insert, All, sort_by,
  sort_by-All,
}
use local_vibe.Routes.{Route, RouteTable, is_bookmark, list}
use local_vibe.Peers.{Peer, RouteSummary, PeerState, Peers}
use local_vibe.Peers.Sync.{
  start_refresh, finish_refresh, Fetch, not_modified, fetched, refresh_peer_routes, peer_state_for,
  put_state, cached_routes, summary_of, summaries_of, handle_peer_routes,
}

-- A summary of one of the routes that is not a bookmark.
abbrev pub IsShared : (ℕ → Bool) → List Route → RouteSummary → Type 0
IsShared ready [] sum = ⊥
IsShared ready (r ∷ rs) sum =
    (is_bookmark r.type ≡ false) × (sum ≡ summary_of ready r) ⊎ IsShared ready rs sum

All-IsShared-cons :
    (ready : ℕ → Bool) (r : Route) (rs : List Route) (l : List RouteSummary)
    → All (IsShared ready rs) l
    → All (IsShared ready (r ∷ rs)) l
All-IsShared-cons ready r rs [] h = tt
All-IsShared-cons ready r rs (sum ∷ l) h = (inr h.0, All-IsShared-cons ready r rs l h.1)

summaries_of-IsShared :
    (ready : ℕ → Bool) (rs : List Route) → All (IsShared ready rs) (summaries_of ready rs)
unfolding summaries_of
summaries_of-IsShared ready [] = tt
summaries_of-IsShared ready (r ∷ rs) =
    let tail =
      All-IsShared-cons ready r rs (summaries_of ready rs) (summaries_of-IsShared ready rs) in
    elim (Bool-cases (is_bookmark r.type)) [
      | inl e ↦ rw (e, summaries_of) tail
      | inr e ↦ rw (e, summaries_of) (inl (e, refl), tail)
    ]

-- The body that a daemon has for its peers.
abbrev pub told : (ℕ → Bool) → RouteTable → List RouteSummary
told ready table = sort_by (λ (r : RouteSummary). r.name) (summaries_of ready (list table))

-- What a peer gets is the summaries of routes of this daemon that are not bookmarks, and nothing else; or, when it has
-- sent the ETag of just those summaries, that they have not changed.
pub handle_peer_routes_sound :
    (ready : ℕ → Bool) (etag_of : List RouteSummary → Text) (table : RouteTable) (etag : Text)
    → let (body, sent) = handle_peer_routes ready etag_of table etag in
      (sent ≡ etag_of (told ready table))
      × All (IsShared ready (list table)) (told ready table)
      × (body ≡ some (told ready table) ⊎ (body ≡ none) × (etag ≡ etag_of (told ready table)))
unfolding handle_peer_routes
handle_peer_routes_sound ready etag_of table etag =
    let shared =
      (sort_by-All (λ (r : RouteSummary). r.name) (IsShared ready (list table))
          (summaries_of ready (list table))).1
        (summaries_of-IsShared ready (list table)) in
    elim (Bool-cases (text_eq etag (etag_of (told ready table)))) [
      | inl e ↦ rw (e, handle_peer_routes) (refl, shared, inr (refl, (text_eq_iff _ _).0 e))
      | inr e ↦ rw (e, handle_peer_routes) (refl, shared, inl refl)
    ]

-- A poll of a machine that runs this code; the summaries arrive as they were sent.
abbrev pub polled : (ℕ → Bool) → (List RouteSummary → Text) → RouteTable → Text → Fetch
polled ready etag_of table etag = elim (handle_peer_routes ready etag_of table etag).0 [
  | none ↦ not_modified
  | some body ↦ fetched body (handle_peer_routes ready etag_of table etag).1
]

-- The cached routes are those that the cached ETag is of.
abbrev pub IsFresh : (List RouteSummary → Text) → PeerState → Type 0
IsFresh etag_of st = (l : List RouteSummary) → st.etag ≡ etag_of l → st.routes ≡ l

finish_exact :
    (ready : ℕ → Bool) (etag_of : List RouteSummary → Text) (table : RouteTable) (now : ℕ)
    (st st1 : PeerState)
    → ((l m : List RouteSummary) → etag_of l ≡ etag_of m → l ≡ m)
    → st1.etag ≡ st.etag
    → st1.routes ≡ st.routes
    → IsFresh etag_of st
    → let st2 = (finish_refresh now (polled ready etag_of table st.etag) st1).1 in
      (st2.routes ≡ told ready table) × IsFresh etag_of st2
unfolding finish_refresh handle_peer_routes
finish_exact ready etag_of table now st st1 inj tag routes fresh =
    elim (Bool-cases (text_eq st.etag (etag_of (told ready table)))) [
      | inl e ↦
          let current = fresh (told ready table) ((text_eq_iff _ _).0 e) in
          rw (e, handle_peer_routes, finish_refresh)
            (routes ∙ current, λ l h. routes ∙ fresh l (sym tag ∙ h))
      | inr e ↦ rw (e, handle_peer_routes, finish_refresh) (refl, λ l h. inj _ _ h)
    ]

started_keeps :
    (now : ℕ) (force : Bool) (st : PeerState)
    → let st1 = (start_refresh now force st).1 in (st1.etag ≡ st.etag) × (st1.routes ≡ st.routes)
unfolding start_refresh
started_keeps now force st = ground arith

peer_state_for-put_state :
    (name : Text) (st : PeerState) (s : Peers) → peer_state_for name (put_state name st s) ≡ st
peer_state_for-put_state name st s =
    let found : lookup name (insert name st s.peer_states) ≡ some st =
      lookup-insert name name st s.peer_states ∙ rw (text_eq_refl name) refl in
    rw (found, peer_state_for) refl

cached_routes-put_state :
    (p : Peer) (st : PeerState) (s : Peers)
    → cached_routes (put_state p.name st s).peer_states p ≡ st.routes
cached_routes-put_state p st s =
    let found : lookup p.name (insert p.name st s.peer_states) ≡ some st =
      lookup-insert p.name p.name st s.peer_states ∙ rw (text_eq_refl p.name) refl in
    rw (found, cached_routes) refl

-- A poll that goes ahead and reaches a machine that runs this code leaves in the cache just the routes which that machine
-- tells, also when it answers that nothing has changed. What the next poll relies on is kept: the cached routes are
-- those that the cached ETag is of. The ETags of different lists are taken to differ.
pub refresh_peer_routes_exact :
    (ready : ℕ → Bool) (etag_of : List RouteSummary → Text) (table : RouteTable) (now : ℕ)
    (force : Bool) (p : Peer) (s : Peers)
    → ((l m : List RouteSummary) → etag_of l ≡ etag_of m → l ≡ m)
    → IsFresh etag_of (peer_state_for p.name s)
    → (start_refresh now force (peer_state_for p.name s)).0 ≡ true
    → let s' = (refresh_peer_routes now force (λ q. polled ready etag_of table) p s).1 in
      (cached_routes s'.peer_states p ≡ told ready table)
      × IsFresh etag_of (peer_state_for p.name s')
unfolding refresh_peer_routes
refresh_peer_routes_exact ready etag_of table now force p s inj fresh go =
    let st = peer_state_for p.name s in
    let st1 = (start_refresh now force st).1 in
    let st2 = (finish_refresh now (polled ready etag_of table st.etag) st1).1 in
    let (tag, routes) = started_keeps now force st in
    let done_ = finish_exact ready etag_of table now st st1 inj tag routes fresh in
    let went : (refresh_peer_routes now force (λ q. polled ready etag_of table) p s).1
        ≡ put_state p.name st2 s =
      rw (go, refresh_peer_routes) refl in
    let kept = peer_state_for-put_state p.name st2 s in
    rw went (cached_routes-put_state p st2 s ∙ done_.0, rw kept done_.1)
