-- ===== src/Client/World.antt =====
-- src/pe/Enet/ProjectPacketHandler.cpp and src/pe/Multiplayer/CheatPackets.cpp: the game as a whole,
-- and its table of handlers.
pub mod Islands
pub mod Packets
pub mod Collected
pub mod Join
use bf_multiplayer.Prelude.{
  ◌%◌, ◌^◌, ℕ, ◌+◌, ◌*◌, ◌/◌, ◌==◌, Bool, true, false, ℤ, pos, List, [], ◌∷◌, ◌++◌, Option, none,
  some, sub_ℕ, if◌then◌else◌, Result, ok, err, abort, null_pointer, ◌>>=◌,
}
use bf_multiplayer.Packet.{
  Uid, Vector3f, Packet, ToCGoalItemInfo, MiscMapSyncData, CheatPacket, teleport, to_c_player_list,
  to_c_puppet_pose, to_c_action, to_c_player_figure_change, to_c_goal_item_info, to_c_phase_unlock,
  to_c_scenario_update, to_c_disaster_mode_controller_internal_update, to_c_sync_clock_update,
  to_c_misc_map_sync, to_c_jump_flip, to_c_cheat_packet, save_data_chunk,
  DisasterModeControllerInternalUpdateData,
}
use bf_multiplayer.Client.SharedSave.{SaveDataBuffer, handle_save_data_chunk}
use bf_multiplayer.Client.Progress.{
  Situation, in_scene, guarded, Game, Progress, GoalItem, GoalItemInfo, Call, Island,
  handle_phase_unlock, handle_goal_item_info, handle_scenario_update,
}
use bf_multiplayer.Client.Disaster.{
  Controller, ControllerCall, disaster, handle_disaster_mode_controller_internal_update,
}
use bf_multiplayer.Client.Players.{
  Manager, handle_player_list_packet, handle_puppet_pose_packet, handle_action_packet,
  handle_figure_packet,
}
use bf_multiplayer.Client.MapEvents.{Saves, Actor, Panels, handle_misc_map_sync, handle_jump_flip}

-- What the handlers read and write. The actors of the scene are seen twice: as the handler of goal
-- items reads them, and as that of map events does; `none` when the scene has no list of actors.
-- `sync_clock_start` is mSyncClockStartTick, and `trans` the place of the player's own actor.
pub record World (v : Saves) : Type 0 where
  pub situation : Situation
  pub stage : ℕ
  pub progress : Progress
  pub goal_items : Option (List (Option GoalItem))
  pub islands : List Island
  pub saves : v.State
  pub actors : Option (List Actor)
  pub panels : Panels
  pub controller : Option Controller
  pub manager : Manager
  pub save_buffer : SaveDataBuffer
  pub sync_clock_start : ℤ
  pub trans : Vector3f
  pub calls : List Call
  pub controller_calls : List ControllerCall

-- What does not change: the user, the ticks of a second, those of a number of microseconds as doubles
-- give them, the game's functions, and the number that a member has which was sent without a value.
pub record Setting : Type 0 where
  pub me : Uid
  pub frequency : ℕ
  pub to_ticks : ℕ → ℕ
  pub game : Game
  pub unset : ℤ

-- What a handler reads besides: the clock's tick and the peer's round trip time.
pub record Reading : Type 0 where
  pub now : ℕ
  pub round_trip_time : ℕ

-- MultiplayerManager::isInSingleModeScene.
unfoldable pub is_in_single_mode_scene : Situation → Bool
is_in_single_mode_scene Situation.no_manager = false
is_in_single_mode_scene Situation.no_sequence = false
is_in_single_mode_scene Situation.wrong_nerve = false
is_in_single_mode_scene Situation.no_scene = false
is_in_single_mode_scene Situation.in_scene = true

unfoldable pub receive_goal_item : ℤ → ToCGoalItemInfo → GoalItemInfo
receive_goal_item unset p = record {
  num_collected_goal_items = p.num_collected_goal_items;
  is_collect_new_shine = p.is_collect_new_shine;
  island_id = elim p.island_id [ none ↦ unset | some i ↦ i ];
  shine_id = elim p.shine_id [ none ↦ unset | some i ↦ i ];
}

-- Whether the controller's nerve is Disaster.
unfoldable pub is_disaster : Option Controller → Option Bool
is_disaster none = none
is_disaster (some c) = some (c.nerve == disaster)

-- NetClient::updateSyncClockStartTick. `to_ticks` is the product with a double, and its conversion.
unfoldable pub update_sync_clock_start_tick : (ℕ → ℕ) → ℕ → ℕ → ℤ
update_sync_clock_start_tick to_ticks now microseconds = sub_ℕ now (to_ticks microseconds)

-- handleToC_SyncClockUpdate. The product is one of 32 bits, the sum one of 64.
unfoldable pub handle_sync_clock_update : (ℕ → ℕ) → ℕ → ℕ → ℕ → ℤ
unfolding update_sync_clock_start_tick
handle_sync_clock_update to_ticks now round_trip_time microseconds =
    update_sync_clock_start_tick to_ticks now
      ((microseconds + round_trip_time * 500 % 2 ^ 32) % 2 ^ 64)

module _ (v : Saves) (k : Setting) where
  unfoldable pub receive_goal_item_info : ToCGoalItemInfo → World v → Result (World v)
  unfolding receive_goal_item is_disaster
  receive_goal_item_info p w =
      handle_goal_item_info k.game w.situation w.goal_items (is_disaster w.controller)
        (receive_goal_item k.unset p) w.progress.single_mode
      >>= λ r. ok (record w {
        progress = record (w.progress) { single_mode = r.0 };
        calls = w.calls ++ r.1;
      })

  unfoldable pub receive_misc_map_sync : MiscMapSyncData → World v → Result (World v)
  receive_misc_map_sync p w = elim w.actors [
    | none ↦ guarded w.situation w (ok w)
    | some actors ↦ handle_misc_map_sync v w.situation p w.saves actors >>= λ r.
        ok (record w { saves = r.0; actors = some (r.1) })
  ]

  -- handleToC_CheatPacket. Outside the scenes of the game itself, `wrong_nerve`.
  unfoldable pub handle_cheat_packet : CheatPacket → World v → Result (World v)
  handle_cheat_packet (teleport t) w = guarded w.situation w (ok (record w { trans = t }))

  unfoldable pub receive_disaster :
      DisasterModeControllerInternalUpdateData → World v → Result (World v)
  receive_disaster p w =
      handle_disaster_mode_controller_internal_update w.situation w.stage p w.controller >>= λ c.
      ok (record w { controller = c.0; controller_calls = w.controller_calls ++ c.1 })

  -- PacketHandler::handlePacket with the table sEntries: a class without an entry ends the program.
  unfoldable pub handle : Reading → Packet → World v → Result (World v)
  unfolding is_in_single_mode_scene receive_goal_item_info receive_misc_map_sync handle_cheat_packet
      receive_disaster handle_sync_clock_update
  handle r (to_c_player_list es) w =
      ok (record w { manager = handle_player_list_packet k.frequency k.me es w.manager })
  handle r (to_c_puppet_pose p) w = ok (record w {
    manager =
        handle_puppet_pose_packet k.frequency r.now k.me (is_in_single_mode_scene w.situation) p
          w.manager;
  })
  handle r (to_c_action p) w = ok (record w {
    manager = handle_action_packet k.me (is_in_single_mode_scene w.situation) p w.manager;
  })
  handle r (to_c_player_figure_change p) w = ok (record w {
    manager = handle_figure_packet k.me (is_in_single_mode_scene w.situation) p w.manager;
  })
  handle r (to_c_goal_item_info p) w = receive_goal_item_info p w
  handle r (to_c_phase_unlock p) w =
      handle_phase_unlock k.game w.situation p.packet_data w.progress >>= λ progress.
      ok (record w { progress = progress })
  handle r (to_c_scenario_update p) w =
      handle_scenario_update w.situation p.packet_data w.islands >>= λ islands.
      ok (record w { islands = islands })
  handle r (to_c_disaster_mode_controller_internal_update p) w = receive_disaster p.packet_data w
  handle r (to_c_sync_clock_update microseconds) w = ok (record w {
    sync_clock_start = handle_sync_clock_update k.to_ticks r.now r.round_trip_time microseconds;
  })
  handle r (to_c_misc_map_sync p) w = receive_misc_map_sync p.packet_data w
  handle r (to_c_jump_flip p) w = ok (record w { panels = handle_jump_flip p.packet_data w.panels })
  handle r (to_c_cheat_packet p) w = handle_cheat_packet p w
  handle r (save_data_chunk p) w =
      handle_save_data_chunk p w.save_buffer >>= λ b. ok (record w { save_buffer = b })
  handle r other w = err abort

  -- Packets one after the other, each with what is read at its time.
  unfoldable pub handle_all : Reading → List Packet → World v → Result (World v)
  unfolding handle
  handle_all r [] w = ok w
  handle_all r (p ∷ ps) w = handle r p w >>= handle_all r ps
