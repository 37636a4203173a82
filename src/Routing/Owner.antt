-- ===== src/Routing/Owner.antt =====
-- When the owner of a route's port is asked for (internal/daemon/daemon.go, `managedStrangerOnPort`).
use local_vibe.Base.{ℕ, Bool, true, false, not, ◌&&◌, ◌≡◌, ◌+◌, ltb, refl, if◌then◌else◌}
use local_vibe.Routing.{
  OwnerCheck, managed_owner_check_interval, recently_healthy, managed_stranger_on_port,
}

-- The port's owner is probed when there is no recent healthy verdict and no probe under way. The answer is what the
-- probe finds. A healthy verdict then answers for the next three seconds, whatever the port holds by then;
-- a foreign one is not reused, so that the next request probes again.
pub managed_stranger_on_port_again :
    (now later next last : ℕ) (first second : Bool) (c : OwnerCheck)
    → recently_healthy now c ≡ false
    → c.checking ≡ false
    → let (verdict, c') = managed_stranger_on_port now later first c in
      (verdict ≡ first)
      × ((managed_stranger_on_port next last second c').0 ≡ (
          if ltb next (later + managed_owner_check_interval) && not first then false else second))
unfolding managed_stranger_on_port
managed_stranger_on_port_again now later next last first second c stale idle =
    rw (managed_stranger_on_port, stale, idle)
      (refl, chosen _ _ _ _ (ltb next (later + managed_owner_check_interval) && not first))
  where
    chosen :
        (a b : Bool) (x y : OwnerCheck) (guard : Bool)
        → (if◌then◌else◌ {A = Bool × OwnerCheck} guard (a, x) (b, y)).0 ≡ (if guard then a else b)
    chosen a b x y true = refl
    chosen a b x y false = refl
