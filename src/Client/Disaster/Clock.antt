-- ===== src/Client/Disaster/Clock.antt =====
-- The disaster clock from the host to another game.
use bf_multiplayer.Prelude.{ℕ, ◌≡◌, refl, false, List, Option, none, some, ◌==◌, ok, ◌||◌}
use bf_multiplayer.Client.Progress.{in_scene, guarded}
use bf_multiplayer.Client.Disaster.{
  Controller, ControllerCall, copy_clock, update_controller, controller_packet,
  handle_disaster_mode_controller_internal_update,
}

-- In a stage other than 0 and 9, the host's packet gives another game the host's clock, but for
-- mDisableClock, which takes an indeterminate value, and for the nerve, which is left to the calls.
pub handle_disaster_mode_controller_internal_update-controller_packet :
    (stage : ℕ) (host c : Controller) (last_nerve : Option ℕ)
    → (stage == 0 || stage == 9) ≡ false
    → (calls : List ControllerCall) × (handle_disaster_mode_controller_internal_update in_scene
          stage
          (controller_packet host last_nerve)
          (some c)
        ≡ ok (some (record host { disable_clock = none; nerve = c.nerve }), calls))
unfolding handle_disaster_mode_controller_internal_update guarded update_controller copy_clock
    controller_packet
handle_disaster_mode_controller_internal_update-controller_packet stage host c last_nerve h =
    ((update_controller (controller_packet host last_nerve) (some c)).1, rw h refl)
