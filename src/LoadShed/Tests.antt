-- ===== src/LoadShed/Tests.antt =====
-- A call was dropped while it waited and another runs; the theorem at this history.
use oxi_gate.Base.{◌+◌, ◌≤◌, ◌<◌, ◌≡◌, refl, ◌↔◌, true, false, arith}
use oxi_gate.LoadShed.{State, new, is_refused, call, drop_future, Reach, start, after, calls, drops}
use oxi_gate.LoadShed.Bound.{running-le}

abbrev busy : State
busy = call (drop_future (call (new 2)))

history : Reach 3 (new 2) busy
unfolding call drop_future new
history = after (after (after start calls) (drops (omega arith))) calls

-- A dropped future keeps its place.
next_is_refused : (busy.running ≡ 1) × (is_refused busy ≡ true)
unfolding call drop_future new
next_is_refused = (refl, refl)

running-le_example :
    (busy.running ≤ 2)
    × ((is_refused busy ≡ false) ↔ (busy.running + busy.refused + busy.dropped < 2))
running-le_example = running-le 2 3 busy (omega arith) history
