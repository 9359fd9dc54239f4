-- ===== src/Packet/Channels.antt =====
-- lib/penet/Include/pe/Enet/Channels.h and Source/pe/Enet/Channels.cpp: the channel of each packet
-- class. identifyType finds the class of an object by its virtual table, which the compiler makes; here
-- the class of a packet is its constructor.
use bf_multiplayer.Prelude.{ℕ, List, [], ◌∷◌, length}
use bf_multiplayer.Packet.{Packet}

pub data ChannelType : Type 0 where
  to_s_hello : ChannelType
  to_s_log : ChannelType
  to_c_player_list : ChannelType
  to_s_single_mode_scene_enter : ChannelType
  to_s_puppet_pose : ChannelType
  to_c_puppet_pose : ChannelType
  to_s_action : ChannelType
  to_c_action : ChannelType
  to_c_player_figure_change : ChannelType
  to_s_player_figure_change : ChannelType
  to_s_goal_item_info : ChannelType
  to_c_goal_item_info : ChannelType
  to_s_phase_unlock : ChannelType
  to_c_phase_unlock : ChannelType
  to_s_scenario_update : ChannelType
  to_c_scenario_update : ChannelType
  to_s_disaster_mode_controller_internal_update : ChannelType
  to_c_disaster_mode_controller_internal_update : ChannelType
  to_c_sync_clock_update : ChannelType
  to_s_misc_map_sync : ChannelType
  to_c_misc_map_sync : ChannelType
  to_s_jump_flip : ChannelType
  to_c_jump_flip : ChannelType
  to_c_cheat_packet : ChannelType
  save_data_chunk : ChannelType

pub ChannelType-discrete : Discrete ChannelType
ChannelType-discrete = hlevel

-- The value of the enumerator, which is the ENet channel that the packet travels on.
unfoldable pub channel_index : ChannelType → ℕ
channel_index to_s_hello = 0
channel_index to_s_log = 1
channel_index to_c_player_list = 2
channel_index to_s_single_mode_scene_enter = 3
channel_index to_s_puppet_pose = 4
channel_index to_c_puppet_pose = 5
channel_index to_s_action = 6
channel_index to_c_action = 7
channel_index to_c_player_figure_change = 8
channel_index to_s_player_figure_change = 9
channel_index to_s_goal_item_info = 10
channel_index to_c_goal_item_info = 11
channel_index to_s_phase_unlock = 12
channel_index to_c_phase_unlock = 13
channel_index to_s_scenario_update = 14
channel_index to_c_scenario_update = 15
channel_index to_s_disaster_mode_controller_internal_update = 16
channel_index to_c_disaster_mode_controller_internal_update = 17
channel_index to_c_sync_clock_update = 18
channel_index to_s_misc_map_sync = 19
channel_index to_c_misc_map_sync = 20
channel_index to_s_jump_flip = 21
channel_index to_c_jump_flip = 22
channel_index to_c_cheat_packet = 23
channel_index save_data_chunk = 24

-- The tables of createChannels, in the order in which PENET_CHANNELS fills them.
abbrev pub channels : List ChannelType
channels =
    to_s_hello ∷ to_s_log ∷ to_c_player_list ∷ to_s_single_mode_scene_enter ∷ to_s_puppet_pose
    ∷ to_c_puppet_pose ∷ to_s_action ∷ to_c_action ∷ to_c_player_figure_change
    ∷ to_s_player_figure_change ∷ to_s_goal_item_info ∷ to_c_goal_item_info ∷ to_s_phase_unlock
    ∷ to_c_phase_unlock ∷ to_s_scenario_update ∷ to_c_scenario_update
    ∷ to_s_disaster_mode_controller_internal_update ∷ to_c_disaster_mode_controller_internal_update
    ∷ to_c_sync_clock_update ∷ to_s_misc_map_sync ∷ to_c_misc_map_sync ∷ to_s_jump_flip
    ∷ to_c_jump_flip ∷ to_c_cheat_packet ∷ save_data_chunk ∷ []

-- The class of an object.
unfoldable pub class_of : Packet → ChannelType
class_of (Packet.to_s_hello _) = to_s_hello
class_of (Packet.to_s_log _ _) = to_s_log
class_of (Packet.to_c_player_list _) = to_c_player_list
class_of (Packet.to_s_single_mode_scene_enter _) = to_s_single_mode_scene_enter
class_of (Packet.to_s_puppet_pose _) = to_s_puppet_pose
class_of (Packet.to_c_puppet_pose _) = to_c_puppet_pose
class_of (Packet.to_s_action _) = to_s_action
class_of (Packet.to_c_action _) = to_c_action
class_of (Packet.to_c_player_figure_change _) = to_c_player_figure_change
class_of (Packet.to_s_player_figure_change _) = to_s_player_figure_change
class_of (Packet.to_s_goal_item_info _) = to_s_goal_item_info
class_of (Packet.to_c_goal_item_info _) = to_c_goal_item_info
class_of (Packet.to_s_phase_unlock _) = to_s_phase_unlock
class_of (Packet.to_c_phase_unlock _) = to_c_phase_unlock
class_of (Packet.to_s_scenario_update _) = to_s_scenario_update
class_of (Packet.to_c_scenario_update _) = to_c_scenario_update
class_of (Packet.to_s_disaster_mode_controller_internal_update _) =
    to_s_disaster_mode_controller_internal_update
class_of (Packet.to_c_disaster_mode_controller_internal_update _) =
    to_c_disaster_mode_controller_internal_update
class_of (Packet.to_c_sync_clock_update _) = to_c_sync_clock_update
class_of (Packet.to_s_misc_map_sync _) = to_s_misc_map_sync
class_of (Packet.to_c_misc_map_sync _) = to_c_misc_map_sync
class_of (Packet.to_s_jump_flip _) = to_s_jump_flip
class_of (Packet.to_c_jump_flip _) = to_c_jump_flip
class_of (Packet.to_c_cheat_packet _) = to_c_cheat_packet
class_of (Packet.save_data_chunk _) = save_data_chunk

-- sChannels.channelCount, the value of `i` after the last class.
abbrev pub channel_count : ℕ
channel_count = length channels
