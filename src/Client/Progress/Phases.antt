-- ===== src/Client/Progress/Phases.antt =====
-- The shared phases: what handleToC_PhaseUnlock makes of a packet of makePhaseUnlockPacketData.
use bf_multiplayer.Prelude.{◌≡◌, refl, ◌∙◌, Bool, true, false, ℤ, ok}
use bf_multiplayer.Client.Progress.{
  SingleModeData, Game, Progress, in_scene, make_phase_unlock_packet_data, set_phase_end_hook,
  copy_phase_unlock, end_phase, unlock_phase, handle_phase_unlock, guarded,
}

-- What the two functions of the game do to the members that a packet carries.
pub record KeepsPhases (g : Game) : Type 0 where
  pub unlocked :
      (p : ℤ) (d : SingleModeData) (e : Bool)
      → make_phase_unlock_packet_data (g.set_unlocked_phase p d) e
        ≡ make_phase_unlock_packet_data (record d { unlocked_phase = p }) e
  pub ended :
      (b : Bool) (d : SingleModeData) (e : Bool)
      → make_phase_unlock_packet_data (g.set_phase_end b d) e ≡ make_phase_unlock_packet_data d e

-- The state in which the handler of the sender's packet ends the phase.
abbrev switched_off : Game → SingleModeData → Bool → Progress → Progress
switched_off g sender is_end w =
    let p = make_phase_unlock_packet_data sender is_end in
    record w {
      single_mode = g.set_unlocked_phase p.unlocked_phase (copy_phase_unlock p w.single_mode);
      is_phase_hook_enabled = false;
    }

end_phase_lem :
    (g : Game) (is_over is_end : Bool) (w : Progress)
    → KeepsPhases g
    → w.is_phase_hook_enabled ≡ false
    → (make_phase_unlock_packet_data (end_phase g is_over is_end w).single_mode is_end
        ≡ make_phase_unlock_packet_data w.single_mode is_end)
      × ((end_phase g is_over is_end w).sent ≡ w.sent)
unfolding end_phase set_phase_end_hook
end_phase_lem g true is_end w k off = (refl, refl)
end_phase_lem g false is_end w k off = (k.ended is_end w.single_mode is_end, rw off refl)

-- In a scene, and where the game's two functions set only the member that they are named for of
-- those that are shared, a packet made from one player's data leaves the other player with data that makes the
-- same packet, sends nothing back, and leaves the hook switched on.
pub handle_phase_unlock-make :
    (g : Game) (sender : SingleModeData) (is_end : Bool) (w : Progress)
    → KeepsPhases g
    → (v : Progress) × (handle_phase_unlock g in_scene
          (make_phase_unlock_packet_data sender is_end)
          w
        ≡ ok v)
      × (make_phase_unlock_packet_data v.single_mode is_end
          ≡ make_phase_unlock_packet_data sender is_end)
      × (v.sent ≡ w.sent)
      × (v.is_phase_hook_enabled ≡ true)
unfolding handle_phase_unlock guarded unlock_phase
handle_phase_unlock-make g sender is_end w k =
    let ended = end_phase_lem g _ is_end (switched_off g sender is_end w) k refl in
    (
      unlock_phase g (make_phase_unlock_packet_data sender is_end) w,
      refl,
      ended.0 ∙ copied,
      ended.1,
      refl,
    )
  where
    copied :
        make_phase_unlock_packet_data (switched_off g sender is_end w).single_mode is_end
        ≡ make_phase_unlock_packet_data sender is_end
    copied =
        k.unlocked sender.unlocked_phase
          (copy_phase_unlock (make_phase_unlock_packet_data sender is_end) w.single_mode) is_end
        ∙ unfold make_phase_unlock_packet_data copy_phase_unlock in refl
