-- ===== src/Client/Tests/Chains.antt =====
-- The theorem about chains of panels, on a chain of two that is switched on.
use bf_multiplayer.Prelude.{ℕ, ◌≡◌, ◌≤◌, Bool, true, false, refl, arith}
use bf_multiplayer.Client.PatanPanel.{
  Panel, Chain, Turns, Reach, start, exe, put, exe_nerve, exe_open_start, here, there, switched,
  frame, nrv_open_start,
}
use bf_multiplayer.Client.PatanPanel.Order.{IsOrdered}
use bf_multiplayer.Client.PatanPanel.Chains.{Reach-IsOrdered}
use bf_multiplayer.Client.PatanPanel.Frames.{Goes}

abbrev half_turn : Turns
half_turn = record { to_open = λ _. 18; to_next = λ _. 18 }

abbrev hidden : Panel
hidden = record {
  nerve = nrv_open_start;
  step = 0;
  alive = false;
  collision = true;
  clipping = true;
}

abbrev two_panels : Chain
two_panels = record { last = 1; panels = λ _. hidden; switched_on = false }

abbrev started_panels : Chain
started_panels = start 0 (record two_panels { switched_on = true })

abbrev turned_panels : Chain
turned_panels = put 0 (exe_open_start half_turn 0 (started_panels.panels 0)) started_panels

two_panels-Reach : Reach half_turn two_panels turned_panels
unfolding exe exe_nerve put start
two_panels-Reach =
    there started_panels turned_panels (there two_panels started_panels here (switched refl))
      (frame false 0 turned_panels (omega arith) refl refl)

Reach-IsOrdered_example :
    IsOrdered turned_panels
    × (turned_panels.last ≡ 1)
    × ((ended : Bool) (i : ℕ)
        → i ≤ turned_panels.last
        → (turned_panels.panels i).alive ≡ true
        → Goes half_turn ended i turned_panels)
Reach-IsOrdered_example =
    Reach-IsOrdered half_turn two_panels turned_panels (omega arith) (refl, λ j h. refl)
      two_panels-Reach
