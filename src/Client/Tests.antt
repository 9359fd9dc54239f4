-- ===== src/Client/Tests.antt =====
-- The theorems about the game, on a server with two players and a game at its start.
pub mod Events
pub mod Worlds
pub mod Menus
pub mod Moves
pub mod Files
pub mod Chains
use bf_multiplayer.Prelude.{
  ℕ, ◌≡◌, ◌⊎◌, refl, Bool, true, false, not, ◌&&◌, ◌||◌, ℤ, pos, ◌-ℤ◌, ◌+ℤ◌, List, [], ◌∷◌, ◌++◌,
  Option, none, some, Memory, Agree, Result, ok, err, arith, inl, inr, ltb, eqb_ℤ, map,
  if◌then◌else◌,
}
use bf_multiplayer.Packet.{
  SaveDataChunk, PlayerListDataEntry, PhaseUnlockData, ToSHello, JumpFlipData, shard_collect,
  zero_uid, Uid,
}
use bf_multiplayer.Server.State.{Server}
use bf_multiplayer.Server.SharedSave.Delivery.{IsDelivered}
use bf_multiplayer.Server.SharedSave.Uploads.{packets, handle_save_chunks}
use bf_multiplayer.Server.Tests.{two_players, bytes_file, file_chunks}
use bf_multiplayer.Server.Tests.Saves.{
  file-Fits, file_chunks-AreChunks, file_chunks-HasChunk, two_players-IsUploading,
}
use bf_multiplayer.Client.SharedSave.{
  SaveDataBuffer, upload, handle_save_data_chunks, reset_save_data_buffer,
}
use bf_multiplayer.Client.SharedSave.Transfer.{upload-IsDelivered, handle_save_data_chunks-Agree}
use bf_multiplayer.Client.Progress.{
  SingleModeData, Game, Progress, GoalItemInfo, Call, in_scene, make_phase_unlock_packet_data,
  handle_phase_unlock, handle_goal_item_info,
}
use bf_multiplayer.Client.Progress.Phases.{KeepsPhases, handle_phase_unlock-make}
use bf_multiplayer.Client.Progress.Counter.{CountsScenarios, handle_goal_item_info-num_collected}
use bf_multiplayer.Client.Disaster.{
  Controller, ControllerCall, controller_packet, handle_disaster_mode_controller_internal_update,
}
use bf_multiplayer.Client.Disaster.Clock.{
  handle_disaster_mode_controller_internal_update-controller_packet,
}
use bf_multiplayer.Client.Players.{Manager, PlayerData, handle_player_list_packet}
use bf_multiplayer.Client.Players.Roster.{IsLastHost, handle_player_list_packet-IsLastHost}
use bf_multiplayer.Client.MapEvents.{
  Saves, Actor, Panel, Panels, handle_misc_map_sync, jump_flip_panel_trig_check,
}
use bf_multiplayer.Client.MapEvents.Shards.{CollectsShards, handle_misc_map_sync_twice}
use bf_multiplayer.Client.MapEvents.Flips.{jump_flip_panel_trig_check_all}
use bf_multiplayer.Client.NetClient.{
  NetClient, Event, stall, service, connected, exe_connect, exe_service,
}
use bf_multiplayer.Client.NetClient.Lock.{exe_service-lock_depth}

abbrev filled_buffer : SaveDataBuffer
filled_buffer = record { work_buffer = bytes_file; ack = λ _. false; size = 60000 }

upload-IsDelivered_example :
    (ps : List SaveDataChunk) × (t : Server) × (upload filled_buffer ≡ ok ps)
    × (handle_save_chunks 1 ps two_players ≡ ok t)
    × IsDelivered 60000 bytes_file t.save_data
upload-IsDelivered_example =
    upload-IsDelivered 1 filled_buffer two_players file-Fits
      (two_players-IsUploading 60000 bytes_file)

handle_save_data_chunks-Agree_example :
    (b : SaveDataBuffer) × (handle_save_data_chunks (packets file_chunks) reset_save_data_buffer
      ≡ ok b)
    × (b.size ≡ 60000)
    × Agree 60000 b.work_buffer bytes_file
handle_save_data_chunks-Agree_example =
    handle_save_data_chunks-Agree 60000 bytes_file file_chunks file-Fits file_chunks-AreChunks
      file_chunks-HasChunk

abbrev pub started : SingleModeData
started = record {
  num_goal_items = pos 0;
  unlocked_phase = pos 1;
  is_phase_end = false;
  is_new_to_phase1 = true;
  is_new_to_phase2 = false;
  is_new_to_phase3 = false;
  is_new_to_phase4 = false;
  is_new_to_phase2_boss = false;
  is_new_to_phase3_boss = false;
  is_new_to_phase1_bowser_intro = true;
  is_new_to_phase2_bowser_intro = false;
  is_new_to_phase3_bowser_intro = false;
  is_new_to_phase1_bowser_exit = false;
  is_new_to_phase2_bowser_exit = false;
  is_new_to_phase3_bowser_exit = false;
  phase1_dark_bowser_hit_point = pos 10;
  phase2_dark_bowser_hit_point = pos 20;
  phase3_dark_bowser_hit_point = pos 30;
  phase4_dark_bowser_hit_point = pos 40;
  phase4_dark_bowser_hit_point_final = pos 50;
  phase3_dark_bowser_hit_point_pre_battle = pos 60;
  phase4_dark_bowser_hit_point_pre_battle = pos 70;
}

-- A game whose functions change only the member that they are named for.
abbrev pub plain_game : Game
plain_game = record {
  set_unlocked_phase = λ p d. record d { unlocked_phase = p };
  set_phase_end = λ b d. record d { is_phase_end = b };
  complete_scenario = λ i s d. record d { num_goal_items = d.num_goal_items +ℤ pos 1 };
  set_goal_item_checkpoint_pass = λ i s d. d;
}

plain_game-KeepsPhases : KeepsPhases plain_game
unfolding make_phase_unlock_packet_data
plain_game-KeepsPhases = record { unlocked = λ p d e. refl; ended = λ b d e. refl }

plain_game-CountsScenarios : CountsScenarios plain_game
plain_game-CountsScenarios = record { completed = λ i s d. refl; passed = λ i s d. refl }

abbrev advanced : SingleModeData
advanced = record started { unlocked_phase = pos 2; is_new_to_phase2 = true }

abbrev pub playing : Progress
playing = record {
  single_mode = started;
  is_phase_hook_enabled = true;
  has_client = true;
  sent = [];
}

handle_phase_unlock-make_example :
    (v : Progress) × (handle_phase_unlock plain_game in_scene
        (make_phase_unlock_packet_data advanced true)
        playing
      ≡ ok v)
    × (make_phase_unlock_packet_data v.single_mode true
        ≡ make_phase_unlock_packet_data advanced true)
    × (v.sent ≡ [])
    × (v.is_phase_hook_enabled ≡ true)
handle_phase_unlock-make_example =
    handle_phase_unlock-make plain_game advanced true playing plain_game-KeepsPhases

abbrev fifth_shine : GoalItemInfo
fifth_shine = record {
  num_collected_goal_items = pos 5;
  is_collect_new_shine = true;
  island_id = pos 2;
  shine_id = pos 1;
}

abbrev clock_at : ℕ → Controller
clock_at n = record {
  frames_of_disaster = pos n;
  frames_of_disaster_transition = pos n;
  frames_of_anticipation = pos n;
  frames_of_anticipation_transition = pos n;
  frames_of_prosperity = pos n;
  frames_of_prosperity_transition = pos n;
  progress_frames = pos n;
  frames_until_disaster = pos n;
  disable_clock = some false;
  is_raining = false;
  post_boss_peace_time = pos n;
  nerve = n;
}

handle_disaster_mode_controller_internal_update-controller_packet_example :
    (calls : List ControllerCall) × (handle_disaster_mode_controller_internal_update in_scene 1
        (controller_packet (clock_at 9) none)
        (some (clock_at 3))
      ≡ ok (some (record (clock_at 9) { disable_clock = none; nerve = 3 }), calls))
handle_disaster_mode_controller_internal_update-controller_packet_example =
    handle_disaster_mode_controller_internal_update-controller_packet 1 (clock_at 9) (clock_at 3)
      none refl
