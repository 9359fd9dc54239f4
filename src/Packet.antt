-- ===== src/Packet.antt =====
-- lib/penet/Include/pe/Enet/Packets/*.h: the packets, and the data that they carry. A float is the
-- number that its 32 bits spell, since this code only copies floats. A member that a constructor
-- leaves without a value is an `Option`: `none` is the indeterminate value of C++.
pub mod Channels
pub mod DataPacket
pub mod ArrayPacket
pub mod Log
pub mod Tests
use bf_multiplayer.Prelude.{ℕ, Bool, ℤ, List, Option, Memory}

-- nn::account::Uid, its two 64-bit halves (Types.h).
pub record Uid : Type 0 where
  pub storage0 : ℕ
  pub storage1 : ℕ

abbrev pub zero_uid : Uid
zero_uid = record { storage0 = 0; storage1 = 0 }

-- sead::Vector3f (Types.h).
pub record Vector3f : Type 0 where
  pub x : ℕ
  pub y : ℕ
  pub z : ℕ

-- sead::Quatf (Types.h).
pub record Quatf : Type 0 where
  pub x : ℕ
  pub y : ℕ
  pub z : ℕ
  pub w : ℕ

-- nn::account::Nickname, the 33 bytes of a `char[33]`.
abbrev pub Nickname : Type 0
Nickname = List ℕ

pub record ToSHello : Type 0 where
  pub uid : Uid
  pub name : Nickname
  pub is_ghost : Bool

pub record PlayerListDataEntry : Type 0 where
  pub user : Uid
  pub name : Nickname
  pub player_type : ℕ
  pub player_figure : ℕ
  pub is_new : Bool
  pub is_ghost : Bool

pub data ActionType : Type 0 where
  anim sub_anim material_anim raidon_anim : ActionType

-- `action` is a `char[127]`.
pub record ActionPacketData : Type 0 where
  pub type : ActionType
  pub action : List ℕ

pub record PlayerFigureChangeData : Type 0 where
  pub player_figure : ℕ

pub record ToSGoalItemInfo : Type 0 where
  pub island_id : ℤ
  pub shine_id : ℤ

pub record ToCGoalItemInfo : Type 0 where
  pub user : Uid
  pub num_collected_goal_items : ℤ
  pub is_collect_new_shine : Bool
  pub island_id : Option ℤ
  pub shine_id : Option ℤ

pub record PhaseUnlockData : Type 0 where
  pub unlocked_phase : ℤ
  pub end_current_phase : Bool
  pub boss_defeated_flag : Option ℕ
  pub is_new_to_phase1 : Bool
  pub is_new_to_phase2 : Bool
  pub is_new_to_phase3 : Bool
  pub is_new_to_phase4 : Bool
  pub is_new_to_phase2_boss : Bool
  pub is_new_to_phase3_boss : Bool
  pub is_new_to_phase1_bowser_intro : Bool
  pub is_new_to_phase2_bowser_intro : Bool
  pub is_new_to_phase3_bowser_intro : Bool
  pub is_new_to_phase1_bowser_exit : Bool
  pub is_new_to_phase2_bowser_exit : Bool
  pub is_new_to_phase3_bowser_exit : Bool
  pub phase1_dark_bowser_hit_point : ℤ
  pub phase2_dark_bowser_hit_point : ℤ
  pub phase3_dark_bowser_hit_point : ℤ
  pub phase4_dark_bowser_hit_point : ℤ
  pub phase4_dark_bowser_hit_point_final : ℤ
  pub phase3_dark_bowser_hit_point_pre_battle : ℤ
  pub phase4_dark_bowser_hit_point_pre_battle : ℤ

-- `island_name` is a `char[128]`.
pub record ScenarioUpdateData : Type 0 where
  pub island_name : List ℕ
  pub scenario : ℤ
  pub unk : Option Bool

pub record DisasterModeControllerInternalUpdateData : Type 0 where
  pub frames_of_prosperity_transition : ℤ
  pub frames_of_prosperity : ℤ
  pub frames_of_anticipation_transition : ℤ
  pub frames_of_anticipation : ℤ
  pub frames_of_disaster_transition : ℤ
  pub frames_of_disaster : ℤ
  pub frames_until_disaster : ℤ
  pub progress_frames : ℤ
  pub disable_clock : Option Bool
  pub is_raining : Bool
  pub post_boss_peace_time : ℤ
  pub is_new_nerve : Bool
  pub controller_nerve : ℕ

-- The tagged union MiscMapSyncData; `obj_id` is a `char[128]`.
pub data MiscMapSyncData : Type 0 where
  kill_actor_by_obj_id : List ℕ → MiscMapSyncData
  shard_collect : ℤ → ℤ → MiscMapSyncData
  dark_bowser_health : ℤ → MiscMapSyncData
  toad_unlock : ℤ → MiscMapSyncData

pub record JumpFlipData : Type 0 where
  pub flip_state : Bool

pub record PuppetPoseData : Type 0 where
  pub trans : Vector3f
  pub quat : Quatf
  pub anim_rate : ℕ
  pub blend_weights : List ℕ
  pub is_surfing_raidon : Bool

pub data CheatPacket : Type 0 where
  teleport : Vector3f → CheatPacket

-- sSaveDataChunkSize.
abbrev pub save_data_chunk_size : ℕ
save_data_chunk_size = 0x2100

-- `payload` is the array `data` of sSaveDataChunkSize bytes.
pub record SaveDataChunk : Type 0 where
  pub chunk_index : ℤ
  pub size : ℕ
  pub payload : Memory

-- RedistPacket<T>::ClientBound: the sender's id with the data that it sent.
pub record ClientBound (T : Type 0) : Type 0 where
  pub uid : Uid
  pub packet_data : T

-- Every packet class, in the order of PENET_CHANNELS. RedistPacket<T>::ServerBound is `T` itself.
pub data Packet : Type 0 where
  to_s_hello : ToSHello → Packet
  to_s_log : ℕ → List ℕ → Packet
  to_c_player_list : List PlayerListDataEntry → Packet
  to_s_single_mode_scene_enter : ℕ → Packet
  to_s_puppet_pose : PuppetPoseData → Packet
  to_c_puppet_pose : ClientBound PuppetPoseData → Packet
  to_s_action : ActionPacketData → Packet
  to_c_action : ClientBound ActionPacketData → Packet
  to_c_player_figure_change : ClientBound PlayerFigureChangeData → Packet
  to_s_player_figure_change : PlayerFigureChangeData → Packet
  to_s_goal_item_info : ToSGoalItemInfo → Packet
  to_c_goal_item_info : ToCGoalItemInfo → Packet
  to_s_phase_unlock : PhaseUnlockData → Packet
  to_c_phase_unlock : ClientBound PhaseUnlockData → Packet
  to_s_scenario_update : ScenarioUpdateData → Packet
  to_c_scenario_update : ClientBound ScenarioUpdateData → Packet
  to_s_disaster_mode_controller_internal_update : DisasterModeControllerInternalUpdateData → Packet
  to_c_disaster_mode_controller_internal_update :
      ClientBound DisasterModeControllerInternalUpdateData → Packet
  to_c_sync_clock_update : ℕ → Packet
  to_s_misc_map_sync : MiscMapSyncData → Packet
  to_c_misc_map_sync : ClientBound MiscMapSyncData → Packet
  to_s_jump_flip : JumpFlipData → Packet
  to_c_jump_flip : ClientBound JumpFlipData → Packet
  to_c_cheat_packet : CheatPacket → Packet
  save_data_chunk : SaveDataChunk → Packet
