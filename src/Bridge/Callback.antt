-- ===== src/Bridge/Callback.antt =====
-- A callback goes back to the route that started the flow (internal/daemon/oauth_worktree.go and
-- `handleOAuthCallbackBridge` of oauth_bridge.go).
use local_vibe.Base.{
  if◌then◌else◌, text_eq, [], insert, erase, ℕ, true, ◌≡◌, ◌⊎◌, ◌∙◌, refl, ap, inl, inr, Bool-cases,
  Option-cases, none, some, Text, codes, arith, text_eq, text_eq_iff, text_eq_refl, has_prefix,
  cut_at-append, lacks, insert, lookup-insert,
}
use local_vibe.Routes.{Route, RouteTable, get, list}
use local_vibe.Bridge.{
  UrlLibrary, Values, value_of, wrap_oauth_state, parse_wrapped_oauth_state, oauth_state_tag_prefix,
  tag_authorize_url, bridge_owner, handle_oauth_callback_bridge,
}

-- A tagged state is read back as the name and the state that went into it, if the name has no "!".
pub parse_wrapped-wrap_oauth_state :
    (name state : Text)
    → lacks b'!' name ≡ true
    → parse_wrapped_oauth_state (wrap_oauth_state name state) ≡ some (name, state)
unfolding parse_wrapped_oauth_state wrap_oauth_state
parse_wrapped-wrap_oauth_state name state h = cut_at-append b'!' name state h

value_of-insert : (key v : Text) (q : Values) → value_of (insert key v q) key ≡ v
value_of-insert key v q = rw (value_of, lookup-insert key key v q, text_eq_refl key) refl

tagged_state :
    (lib : UrlLibrary) (q q' : Values) (name : Text) (port : ℕ)
    → tag_authorize_url lib q name port ≡ some q'
    → value_of q' (codes "state") ≡ wrap_oauth_state name (value_of q (codes "state"))
unfolding tag_authorize_url
tagged_state lib q q' name port h =
    let tagged : insert (codes "state") (wrap_oauth_state name (value_of q (codes "state"))) q
        ≡ q' =
      ground arith in
    rw (← tagged)
      (value_of-insert (codes "state") (wrap_oauth_state name (value_of q (codes "state"))) q)

-- An authorize URL that is tagged for a worktree brings its callback back to that worktree. Whatever else
-- the provider adds to the callback, if it echoes the state, the bridge forwards to the worktree, with the
-- state that the app sent, or none if it sent none. The worktree's name has no "!", the worktree is
-- registered under it, and its parent is the first route with the bridge's port.
pub tagged_callback :
    (lib : UrlLibrary) (table : RouteTable) (port : ℕ) (owner wt : Route) (q q' back : Values)
    → tag_authorize_url lib q wt.name port ≡ some q'
    → lacks b'!' wt.name ≡ true
    → get table wt.name ≡ some wt
    → wt.parent ≡ owner.name
    → bridge_owner port (list table) ≡ some owner
    → value_of back (codes "state") ≡ value_of q' (codes "state")
    → handle_oauth_callback_bridge table port back
      ≡ some (
        wt.name,
        (if text_eq (value_of q (codes "state")) []
            then erase (codes "state") back
            else insert (codes "state") (value_of q (codes "state")) back),
      )
unfolding handle_oauth_callback_bridge
tagged_callback lib table port owner wt q q' back t n found parent own echoed =
    let state : parse_wrapped_oauth_state (value_of back (codes "state"))
        ≡ some (wt.name, value_of q (codes "state")) =
      ap parse_wrapped_oauth_state (echoed ∙ tagged_state lib q q' wt.name port t)
      ∙ parse_wrapped-wrap_oauth_state wt.name (value_of q (codes "state")) n in
    rw
      (own, handle_oauth_callback_bridge, state, found, (text_eq_iff wt.parent owner.name).1 parent)
      refl

-- A callback on the bridge is forwarded only to the first route that has the port as its callback port, or
-- to a registered worktree of that route: no state sends it anywhere else.
pub handle_oauth_callback_bridge_sound :
    (table : RouteTable) (port : ℕ) (q : Values) (target : Text) (q' : Values)
    → handle_oauth_callback_bridge table port q ≡ some (target, q')
    → (owner : Route) × (bridge_owner port (list table) ≡ some owner)
      × (((target ≡ owner.name) × (q' ≡ q))
          ⊎ ((name : Text) × (wt : Route) × (get table name ≡ some wt)
              × (wt.parent ≡ owner.name)
              × (target ≡ wt.name)))
unfolding handle_oauth_callback_bridge
handle_oauth_callback_bridge_sound table port q target q' h =
    elim (Option-cases (bridge_owner port (list table))) [
      | inl e ↦ absurd (ground arith)
      | inr (owner, e) ↦ (owner, e, forwarded owner e)
    ]
  where
    forwarded :
        (owner : Route)
        → bridge_owner port (list table) ≡ some owner
        → ((target ≡ owner.name) × (q' ≡ q))
          ⊎ ((name : Text) × (wt : Route) × (get table name ≡ some wt)
              × (wt.parent ≡ owner.name)
              × (target ≡ wt.name))
    forwarded owner e =
        elim (Option-cases (parse_wrapped_oauth_state (value_of q (codes "state")))) [
          | inl f ↦ inl (ground arith)
          | inr ((name, orig), f) ↦ elim (Option-cases (get table name)) [
            | inl g ↦ inl (ground arith)
            | inr (wt, g) ↦ elim (Bool-cases (text_eq wt.parent owner.name)) [
              | inl k ↦ inr (name, wt, g, (text_eq_iff wt.parent owner.name).0 k, ground arith)
              | inr k ↦ inl (ground arith)
            ]
          ]
        ]

-- A tagged URL is not tagged again.
pub tag_authorize_url_once :
    (lib : UrlLibrary) (q q' : Values) (name other : Text) (port : ℕ)
    → tag_authorize_url lib q name port ≡ some q'
    → tag_authorize_url lib q' other port ≡ none
unfolding tag_authorize_url wrap_oauth_state
tag_authorize_url_once lib q q' name other port h =
    let prefixed : has_prefix (value_of q' (codes "state")) oauth_state_tag_prefix ≡ true =
      rw (tagged_state lib q q' name port h) refl in
    rw prefixed (ground arith)
