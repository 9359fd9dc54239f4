-- ===== src/Client/Tests/Worlds.antt =====
-- The theorems about the game as a whole.
use bf_multiplayer.Prelude.{
  ℕ, ◌≡◌, refl, true, false, ℤ, pos, [], ◌∷◌, none, some, ok, arith, map, bytes_eqb, bytes_ltb,
  IsSorted,
}
use bf_multiplayer.Packet.{zero_uid}
use bf_multiplayer.Server.SaveData.{ServerSaveData}
use bf_multiplayer.Server.Handlers.{world_packets}
use bf_multiplayer.Client.Progress.{in_scene, Island}
use bf_multiplayer.Client.World.{World, Setting, Reading, handle_all}
use bf_multiplayer.Client.World.Islands.{told, AreDistinct}
use bf_multiplayer.Client.World.Packets.{counter}
use bf_multiplayer.Client.World.Collected.{KeepsShards, AreCollected}
use bf_multiplayer.Client.World.Join.{handle_all-world_packets}
use bf_multiplayer.Client.Tests.{plain_game, playing}
use bf_multiplayer.Client.Tests.Events.{
  manager, shard_list, shard_list-CollectsShards, no_actors, panels,
}

pub shard_list-KeepsShards : KeepsShards shard_list
shard_list-KeepsShards = record {
  collect = λ zone id z i d h. ground arith;
  unlock = λ toad z i d h. h;
}

abbrev island : ℕ → Island
island n = record { name = n ∷ []; scenario = none }

abbrev entering : World shard_list
entering = record {
  situation = in_scene;
  stage = 1;
  progress = playing;
  goal_items = some [];
  islands = island 65 ∷ island 66 ∷ [];
  saves = [];
  actors = some [];
  panels = panels;
  controller = none;
  manager = manager;
  save_buffer = record { work_buffer = λ i. 0; ack = λ i. false; size = 0 };
  sync_clock_start = pos 0;
  trans = record { x = 0; y = 0; z = 0 };
  calls = [];
  controller_calls = [];
}

abbrev server_data : ServerSaveData
server_data = record {
  num_collected_goal_items = pos 1;
  collected_goal_items = record { island_id = pos 1; scenario_id = pos 2 } ∷ [];
  collected_shards = record { island_id = pos 1; scenario_id = pos 3 } ∷ [];
  island_to_scenario_map = (66 ∷ [], pos 2) ∷ (67 ∷ [], pos 4) ∷ [];
  unlocked_toads = pos 5 ∷ [];
  jump_flip_state = false;
  shared_save_size = 0;
  shared_save = λ i. 0;
}

abbrev setting : Setting
setting = record {
  me = zero_uid;
  frequency = 1000;
  to_ticks = λ n. n;
  game = plain_game;
  unset = pos 0;
}

abbrev reading : Reading
reading = record { now = 0; round_trip_time = 0 }

distinct : AreDistinct entering.islands
unfolding bytes_eqb
distinct = ((refl, tt), (tt, tt))

sorted : IsSorted server_data.island_to_scenario_map
unfolding bytes_ltb
sorted = ((refl, tt), (tt, tt))

handle_all-world_packets_example :
    (w' : World shard_list) × (handle_all shard_list setting reading
        (world_packets server_data)
        entering
      ≡ ok w')
    × (w'.islands ≡ map (told server_data.island_to_scenario_map) entering.islands)
    × AreCollected shard_list server_data.collected_shards w'.saves
    × ((zone id : ℤ)
        → shard_list.is_shard_collected zone id entering.saves ≡ true
        → shard_list.is_shard_collected zone id w'.saves ≡ true)
    × (w'.progress.single_mode.num_goal_items
        ≡ counter server_data server_data.collected_goal_items
            entering.progress.single_mode.num_goal_items)
handle_all-world_packets_example =
    handle_all-world_packets shard_list setting reading server_data entering [] no_actors refl refl
      refl (omega arith) (omega arith) distinct sorted shard_list-CollectsShards
      shard_list-KeepsShards
