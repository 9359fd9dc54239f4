-- ===== src/Client/MapEvents/Flips.antt =====
-- The jump panels in the game.
use bf_multiplayer.Prelude.{ℕ, ◌≡◌, true, not, none, some, arith}
use bf_multiplayer.Packet.{JumpFlipData}
use bf_multiplayer.Client.MapEvents.{Panel, Panels, jump_flip_panel_trig_check}

-- A panel that sends a packet flips, the packet holds the new state, and every other panel that is
-- checked before the end of the frame flips with it and sends nothing.
pub jump_flip_panel_trig_check_all :
    (frequency now later : ℕ) (p q : Panel) (s : Panels) (sent : JumpFlipData)
    → (jump_flip_panel_trig_check frequency now p s).1 ≡ some sent
    → ((jump_flip_panel_trig_check frequency now p s).0 ≡ true)
      × (sent.flip_state ≡ not p.flip_state)
      × ((jump_flip_panel_trig_check frequency now p s).2.state ≡ sent.flip_state)
      × (jump_flip_panel_trig_check frequency later q
            (jump_flip_panel_trig_check frequency now p s).2
          ≡ (true, none, (jump_flip_panel_trig_check frequency now p s).2))
unfolding jump_flip_panel_trig_check
jump_flip_panel_trig_check_all frequency now later p q s sent h = ground arith
