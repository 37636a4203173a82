-- ===== src/Peers/Cache.antt =====
-- What the caches of peers' routes answer, and what is told to peers (internal/daemon/peer_sync.go, peer_listener.go).
use local_vibe.Base.{
  if◌then◌else◌, ℕ, ◌+◌, ◌<◌, Bool, true, false, not, ◌&&◌, ◌||◌, ◌≡◌, ◌⊎◌, ◌∙◌, refl, inl, inr,
  Bool-cases, Option-cases, Option, none, some, List, [], ◌∷◌, ◌++◌, Text, arith, text_eq,
  text_eq_iff, is_some,
}
use local_vibe.Peers.{Peer, RouteSummary, PeerState, Peers}
use local_vibe.Peers.Sync.{
  start_refresh, finish_refresh, Fetch, failed, not_modified, fetched, refresh_peer_routes,
  is_within, peer_refresh_throttle, refresh_each, refresh_all_peers, find_peer_route,
  peer_state_for, find_summary, cached_routes, first_with_route, peer_route_from_cache, text_member,
  add_names, collect_names, peer_route_names, has_name,
}

-- A peer whose cache has the name, with no such peer before it in the list.
abbrev pub IsFirst : List (Text × PeerState) → Text → Peer → RouteSummary → List Peer → Type 0
IsFirst states name p r [] = ⊥
IsFirst states name p r (q ∷ qs) =
    (q ≡ p) × (find_summary name (cached_routes states q) ≡ some r)
    ⊎ (has_name name (cached_routes states q) ≡ false) × IsFirst states name p r qs

find_summary_name :
    (name : Text) (l : List RouteSummary) → is_some (find_summary name l) ≡ has_name name l
find_summary_name name [] = refl
find_summary_name name (r ∷ rs) = ground (arith, find_summary_name name rs)

find_summary_sound :
    (name : Text) (l : List RouteSummary) (r : RouteSummary)
    → find_summary name l ≡ some r
    → r.name ≡ name
find_summary_sound name [] r h = absurd (cc)
find_summary_sound name (q ∷ qs) r h =
    ground (arith, text_eq_iff q.name name, find_summary_sound name qs r)

-- Whether some peer's cache has the name.
abbrev pub served_by_any : List (Text × PeerState) → Text → List Peer → Bool
served_by_any states name [] = false
served_by_any states name (p ∷ ps) =
    has_name name (cached_routes states p) || served_by_any states name ps

abbrev pub Found :
    List (Text × PeerState) → Text → List Peer → Option (Peer × RouteSummary) → Type 0
Found states name l none = served_by_any states name l ≡ false
Found states name l (some found) =
    (served_by_any states name l ≡ true)
    × (found.1.name ≡ name)
    × IsFirst states name found.0 found.1 l

first_with_route-Found :
    (states : List (Text × PeerState)) (name : Text) (l : List Peer)
    → Found states name l (first_with_route states name l)
unfolding first_with_route
first_with_route-Found states name [] = refl
first_with_route-Found states name (p ∷ ps) =
    let routes = cached_routes states p in
    let named = find_summary_name name routes in
    elim (Option-cases (find_summary name routes)) [
      | inr (r, e) ↦
          rw (e, first_with_route) (ground arith, find_summary_sound name routes r e, inl (refl, e))
      | inl e ↦
          let tail = first_with_route-Found states name ps in
          elim (Option-cases (first_with_route states name ps)) [
            | inl f ↦
                let none_ : served_by_any states name ps ≡ false = rw f at tail in
                rw (e, first_with_route, f) (ground arith)
            | inr (found, f) ↦
                let (some_, name_, first) = rw f at tail in
                rw (e, first_with_route, f) (ground arith, name_, inr (ground arith, first))
          ]
    ]

refresh_each-peer_list :
    (now : ℕ) (force : Bool) (fetch : Peer → Text → Fetch) (l : List Peer) (s : Peers)
    → (refresh_each now force fetch l s).peer_list ≡ s.peer_list
unfolding refresh_each refresh_peer_routes
refresh_each-peer_list now force fetch [] s = refl
refresh_each-peer_list now force fetch (p ∷ ps) s =
    refresh_each-peer_list now force fetch ps (refresh_peer_routes now force fetch p s).1
    ∙ step now force fetch p s
  where
    step :
        (now : ℕ) (force : Bool) (fetch : Peer → Text → Fetch) (p : Peer) (s : Peers)
        → (refresh_peer_routes now force fetch p s).1.peer_list ≡ s.peer_list
    step now force fetch p s =
        elim (Bool-cases (start_refresh now force (peer_state_for p.name s)).0) [
          | inl e ↦ rw (e, refresh_peer_routes) refl
          | inr e ↦ rw (e, refresh_peer_routes) refl
        ]

-- A name that is not served here is looked up among the paired machines: what is found is a route of that name in the
-- cache of the first paired machine whose cache has one, in the order of pairing, and nothing is found only when no
-- cache has the name. A hit leaves the daemon as it was; after a miss, one sweep of polls has run, and
-- the answer is that of the caches as it leaves them. No lookup changes which machines are paired.
pub find_peer_route_lem :
    (now : ℕ) (fetch : Peer → Text → Fetch) (name : Text) (s : Peers)
    → let (found, s') = find_peer_route now fetch name s in
      Found s'.peer_states name s'.peer_list found
      × (s'.peer_list ≡ s.peer_list)
      × (s' ≡ (
          if served_by_any s.peer_states name s.peer_list
          then s
          else refresh_all_peers now false fetch s))
unfolding find_peer_route peer_route_from_cache refresh_all_peers
find_peer_route_lem now fetch name s =
    let here = first_with_route-Found s.peer_states name s.peer_list in
    let swept = refresh_each now false fetch s.peer_list s in
    elim (Option-cases (first_with_route s.peer_states name s.peer_list)) [
      | inl e ↦
          let missed : served_by_any s.peer_states name s.peer_list ≡ false = rw e at here in
          rw (e, find_peer_route)
            (
              first_with_route-Found swept.peer_states name swept.peer_list,
              refresh_each-peer_list now false fetch s.peer_list s,
              rw missed refl,
            )
      | inr (found, e) ↦
          let first : Found s.peer_states name s.peer_list (some found) = rw e at here in
          rw (e, find_peer_route) (first, refl, rw (first.0) refl)
    ]

started :
    (now : ℕ) (force : Bool) (st : PeerState)
    → (start_refresh now force st).0 ≡ true
    → (start_refresh now force st).1 ≡ record st { refreshing = true; last_refresh = some now }
unfolding start_refresh
started now force st h =
    elim (Bool-cases (not force && is_within now peer_refresh_throttle st.last_refresh)) [
      | inl e ↦ absurd (cc (rw (start_refresh, e) at h))
      | inr e ↦ elim (Bool-cases st.refreshing) [
        | inl f ↦ absurd (cc (rw (start_refresh, e, f) at h))
        | inr f ↦ rw (start_refresh, e, f) refl
      ]
    ]

-- A poll that has started is not joined by another one, and is throttled from its start on.
busy :
    (now : ℕ) (force : Bool) (st : PeerState)
    → st.refreshing ≡ true
    → (start_refresh now force st).0 ≡ false
unfolding start_refresh
busy now force st h =
    elim (Bool-cases (not force && is_within now peer_refresh_throttle st.last_refresh)) [
      | inl e ↦ rw (start_refresh, e) refl
      | inr e ↦ rw (start_refresh, e, h) refl
    ]

throttled :
    (now start : ℕ) (st : PeerState)
    → st.last_refresh ≡ some start
    → now < start + peer_refresh_throttle
    → (start_refresh now false st).0 ≡ false
unfolding start_refresh
throttled now start st h early =
    let soon : is_within now peer_refresh_throttle st.last_refresh ≡ true = rw h (ground arith) in
    rw (start_refresh, soon) refl

finish_refresh-last_refresh :
    (now : ℕ) (f : Fetch) (st : PeerState)
    → (finish_refresh now f st).1.last_refresh ≡ st.last_refresh
unfolding finish_refresh
finish_refresh-last_refresh now (failed e) st = refl
finish_refresh-last_refresh now not_modified st = refl
finish_refresh-last_refresh now (fetched l etag) st = refl

-- A poll that starts keeps every other poll of its peer from starting, forced or not, until it ends; and for three
-- seconds from its start it keeps the polls that are not forced from starting, also after it has ended.
pub start_refresh_once :
    (now : ℕ) (force : Bool) (st : PeerState)
    → (start_refresh now force st).0 ≡ true
    → let st1 = (start_refresh now force st).1 in
      ((now' : ℕ) (force' : Bool) → (start_refresh now' force' st1).0 ≡ false)
      × ((now' ended : ℕ) (f : Fetch)
          → now' < now + peer_refresh_throttle
          → (start_refresh now' false (finish_refresh ended f st1).1).0 ≡ false)
unfolding start_refresh finish_refresh
start_refresh_once now force st h = rw (started now force st h) (
  λ now' force'. busy now' force' (record st { refreshing = true; last_refresh = some now }) refl,
  λ now' ended f early.
      throttled now' now
        (finish_refresh ended f (record st { refreshing = true; last_refresh = some now })).1
        (finish_refresh-last_refresh ended f _) early,
)

-- No name twice.
abbrev pub IsUnique : List Text → Type 0
IsUnique [] = Unit
IsUnique (n ∷ ns) = (text_member n ns ≡ false) × IsUnique ns

text_member-append :
    (n m : Text) (ns : List Text) → text_member n (ns ++ m ∷ []) ≡ (text_member n ns || text_eq m n)
text_member-append n m [] = ground arith
text_member-append n m (k ∷ ks) = ground (arith, text_member-append n m ks)

IsUnique-append :
    (m : Text) (ns : List Text) → text_member m ns ≡ false → IsUnique ns → IsUnique (ns ++ m ∷ [])
IsUnique-append m [] h u = (refl, tt)
IsUnique-append m (n ∷ ns) h u = (
  text_member-append n m ns ∙ ground (arith, text_eq_iff m n, text_eq_iff n m),
  IsUnique-append m ns (ground arith) u.1,
)

add_names_lem :
    (l : List RouteSummary) (names : List Text)
    → IsUnique names
    → IsUnique (add_names l names)
      × ((n : Text) → text_member n (add_names l names) ≡ (text_member n names || has_name n l))
unfolding add_names
add_names_lem [] names u = (u, λ n. ground arith)
add_names_lem (r ∷ rs) names u = elim (Bool-cases (text_member r.name names)) [
  | inl e ↦
      let (unique, same) = add_names_lem rs names u in
      rw (e, add_names) (unique, λ n. ground (arith, same n, text_eq_iff r.name n))
  | inr e ↦
      let (unique, same) =
        add_names_lem rs (names ++ r.name ∷ []) (IsUnique-append r.name names e u) in
      rw (e, add_names) (unique, λ n. ground (arith, same n, text_member-append n r.name names))
]

collect_names_lem :
    (states : List (Text × PeerState)) (l : List Peer) (names : List Text)
    → IsUnique names
    → IsUnique (collect_names states l names)
      × ((n : Text)
          → text_member n (collect_names states l names)
            ≡ (text_member n names || served_by_any states n l))
unfolding collect_names
collect_names_lem states [] names u = (u, λ n. ground arith)
collect_names_lem states (p ∷ ps) names u =
    let (unique, same) = add_names_lem (cached_routes states p) names u in
    let (unique', same') =
      collect_names_lem states ps (add_names (cached_routes states p) names) unique in
    (unique', λ n. ground (arith, same n, same' n))

-- The names for the certificate are those that the caches of the paired machines have, each of them once.
pub peer_route_names_exact :
    (s : Peers)
    → IsUnique (peer_route_names s)
      × ((n : Text)
          → text_member n (peer_route_names s) ≡ served_by_any s.peer_states n s.peer_list)
unfolding peer_route_names
peer_route_names_exact s = collect_names_lem s.peer_states s.peer_list [] tt
