-- ===== src/Procs/Tracked.antt =====
-- What a start and a stop change of the processes that are tracked (internal/daemon/process.go).
use local_vibe.Base.{
  ℕ, ◌≡◌, ◌∙◌, refl, false, inl, inr, Bool-cases, err, some, [], Text, arith, lookup, insert,
  lookup-insert, lookup-erase, text_eq,
}
use local_vibe.Procs.{
  System, ProcessManager, StartError, Launch, no_log, no_start, lives, dies, pid_alive,
  after_launch, start, stop,
}
use local_vibe.Procs.Start.{stop_forgets}
use local_vibe.Routes.{Route}

-- Every process that is tracked after was tracked before, in the same map under the same name.
abbrev pub NoNew : ProcessManager → ProcessManager → Type 0
NoNew pm after =
    (n : Text) (pid : ℕ)
    → (lookup n after.procs ≡ some pid → lookup n pm.procs ≡ some pid)
      × (lookup n after.adopted ≡ some pid → lookup n pm.adopted ≡ some pid)

-- The two maps are as they were but for one name.
abbrev pub SameBut : Text → ProcessManager → ProcessManager → Type 0
SameBut name pm after =
    (n : Text)
    → text_eq name n ≡ false
    → (lookup n after.procs ≡ lookup n pm.procs) × (lookup n after.adopted ≡ lookup n pm.adopted)

after_launch-SameBut :
    (pm : ProcessManager) (name : Text) (l : Launch) → SameBut name pm (after_launch pm name l).0
after_launch-SameBut pm name no_log n h = (refl, refl)
after_launch-SameBut pm name no_start n h = (refl, refl)
after_launch-SameBut pm name (lives pid) n h =
    (lookup-insert name n pid pm.procs ∙ rw h refl, lookup-erase name n pm.adopted ∙ rw h refl)
after_launch-SameBut pm name (dies pid failed) n h = (
  lookup-erase name n (insert name pid pm.procs)
      ∙ rw h (lookup-insert name n pid pm.procs ∙ rw h refl),
  lookup-erase name n pm.adopted ∙ rw h refl,
)

after_launch-NoNew :
    (pm : ProcessManager) (name : Text) (l : Launch) (x : StartError)
    → (after_launch pm name l).1 ≡ err x
    → NoNew pm (after_launch pm name l).0
after_launch-NoNew pm name no_log x h n pid = (λ k. k, λ k. k)
after_launch-NoNew pm name no_start x h n pid = (λ k. k, λ k. k)
after_launch-NoNew pm name (lives p) x h n pid = absurd (cc)
after_launch-NoNew pm name (dies p failed) x h n pid = (
  λ k.
      ground (arith, lookup-erase name n (insert name p pm.procs), lookup-insert name n p pm.procs),
  λ k. ground (arith, lookup-erase name n pm.adopted),
)

-- A start changes nothing under another name, and one that fails adds no process.
pub start-NoNew :
    (sys : System) (pm : ProcessManager) (r : Route)
    → SameBut r.name pm (start sys pm r).0
      × ((x : StartError) → (start sys pm r).1 ≡ err x → NoNew pm (start sys pm r).0)
unfolding start
start-NoNew sys pm r =
    let same : SameBut r.name pm pm = λ n h. (refl, refl) in
    let old : NoNew pm pm = λ n pid. (λ k. k, λ k. k) in
    elim (Bool-cases (pid_alive sys (lookup r.name pm.procs))) [
      | inl a ↦ rw (a, start) (same, λ x h. old)
      | inr a ↦ elim (Bool-cases (pid_alive sys (lookup r.name pm.adopted))) [
        | inl b ↦ rw (a, start, b) (same, λ x h. old)
        | inr b ↦ elim (Bool-cases (text_eq r.cmd [])) [
          | inl c ↦ rw (a, start, b, c) (same, λ x h. old)
          | inr c ↦
              rw (a, start, b, c)
                (
                  after_launch-SameBut pm r.name (sys.launch r),
                  after_launch-NoNew pm r.name (sys.launch r),
                )
        ]
      ]
    ]

-- Stopping the only name that has changed leaves no new process.
pub stop-NoNew :
    (pm after : ProcessManager) (name : Text) → SameBut name pm after → NoNew pm (stop after name).0
stop-NoNew pm after name same n pid =
    let (procs, adopted, _) = stop_forgets after name n in
    elim (Bool-cases (text_eq name n)) [
      | inl e ↦ (λ k. absurd (ground arith), λ k. absurd (ground arith))
      | inr e ↦ let (p, a) = same n e in (λ k. ground arith, λ k. ground arith)
    ]
