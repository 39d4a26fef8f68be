-- ===== src/Engine/Order.antt =====
-- The order of the event queue.
use simulation_core.Base.{ℕ, ◌<◌, ◌≡◌, true, false, String, arith, ◌&&◌, not}
use simulation_core.Engine.Event.{Event, less}
use simulation_core.Engine.State.{stamp}

module _ {Payload : Type 0} where
  -- The order of the queue is a strict weak one: no two events are each before the other, and where an
  -- event `z` is before `x`, every event `y` is after `z` or before `x`.
  pub less-IsStrictWeak :
      (x y z : Event Payload)
      → ((less x y && less y x) ≡ false) × ((less z x && not (less z y) && not (less y x)) ≡ false)
  unfolding less
  less-IsStrictWeak x y z = (ground arith, ground arith)

  pub less-asym : (x y : Event Payload) → less x y ≡ true → less y x ≡ false
  less-asym x y h = let weak = (less-IsStrictWeak x y x).0 in ground arith

  -- What is not before a later event is not before an earlier one.
  pub less-le : (x y z : Event Payload) → less x y ≡ true → less z y ≡ false → less z x ≡ false
  less-le x y z h k =
      let asym = less-asym x y h in let weak = (less-IsStrictWeak x y z).1 in ground arith

  -- Of two events that tie in time and in priority and are stamped with growing counters, the one with
  -- the smaller counter is before the other.
  pub less-stamp :
      (event_name : ℕ → String) (x y : Event Payload) (m n : ℕ)
      → x.time ≡ y.time
      → x.priority ≡ y.priority
      → x.sequence ≡ 0
      → y.sequence ≡ 0
      → m < n
      → less (stamp event_name m x) (stamp event_name n y) ≡ true
  unfolding less stamp
  less-stamp event_name x y m n time priority sx sy h = grind arith
