-- ===== src/Client/World/Join.antt =====
-- A game that enters the shared scenes: the packets that the server sends it, one by one through the
-- game's handlers.
use bf_multiplayer.Prelude.{◌≡◌, refl, true, ℤ, List, map, Option, some, IsSorted, ok}
use bf_multiplayer.Server.SaveData.{ServerSaveData}
use bf_multiplayer.Server.Handlers.{scenario_packet, goal_item_packet, toad_packet, world_packets}
use bf_multiplayer.Client.Progress.{in_scene, GoalItem}
use bf_multiplayer.Client.MapEvents.{Saves, Actor}
use bf_multiplayer.Client.MapEvents.Shards.{CollectsShards}
use bf_multiplayer.Client.World.{World, Setting, Reading, handle_all}
use bf_multiplayer.Client.World.Islands.{FitKeys, FitAll, AreDistinct, told, set_scenarios-told}
use bf_multiplayer.Client.World.Packets.{
  handle_all-append, handle_all-scenarios, counter, counted_all, handle_all-goal_items,
}
use bf_multiplayer.Client.World.Collected.{
  KeepsShards, unlock_all, unlock_all-kept, handle_all-toads, collect_all, handle_all-shards,
  collect_all-kept, AreCollected, collect_all-AreCollected,
}

module _ (v : Saves) (k : Setting) (r : Reading) (d : ServerSaveData) where
  -- The game's world behind the packets.
  abbrev entered : World v → List Actor → World v
  entered w actors =
      let told_shines =
        counted_all d d.collected_goal_items
          (record w { islands = map (told d.island_to_scenario_map) w.islands }) in
      let shards =
        collect_all v d.collected_shards (unlock_all v d.unlocked_toads w.saves) actors in
      record told_shines { saves = shards.0; actors = some (shards.1) }

  handle_all-entered :
      (w : World v) (items : List (Option GoalItem)) (actors : List Actor)
      → w.situation ≡ in_scene
      → w.goal_items ≡ some items
      → w.actors ≡ some actors
      → FitKeys d.island_to_scenario_map
      → FitAll w.islands
      → AreDistinct w.islands
      → IsSorted d.island_to_scenario_map
      → handle_all v k r (world_packets d) w ≡ ok (entered w actors)
  unfolding world_packets
  handle_all-entered w items actors s gi ac fk fa di so =
      let w1 = record w { islands = map (told d.island_to_scenario_map) w.islands } in
      let w2 = counted_all d d.collected_goal_items w1 in
      let w3 = record w2 { saves = unlock_all v d.unlocked_toads w.saves } in
      rw (handle_all-append v k r (map scenario_packet d.island_to_scenario_map)) (
        rw
          (handle_all-scenarios v k r d.island_to_scenario_map w _ s
            (set_scenarios-told d.island_to_scenario_map w.islands fk fa di so))
          (rw (handle_all-append v k r (map (goal_item_packet d) d.collected_goal_items)) (
            rw (handle_all-goal_items v k r d d.collected_goal_items w1 items s gi) (
              rw (handle_all-append v k r (map toad_packet d.unlocked_toads)) (
                rw (handle_all-toads v k r d.unlocked_toads w2 actors s ac)
                  (handle_all-shards v k r d.collected_shards w3 actors s ac))))))

-- In a scene with actors, where every name is shorter than 128 bytes and holds no zero byte, the
-- islands of the game have different names, the server's islands are sorted by name, and a shard that
-- was collected counts and goes on counting as collected: the packets that tell a game of the world
-- all succeed one after the other. Behind them each island of the game has the scenario that the
-- server holds for its name, and keeps its own where the server holds none; every shard of the server
-- is collected, and every one that the game had collected; the counter is the server's if the server
-- knows a shine, and else the old one.
pub handle_all-world_packets :
    (v : Saves) (k : Setting) (r : Reading) (d : ServerSaveData) (w : World v)
    (items : List (Option GoalItem)) (actors : List Actor)
    → w.situation ≡ in_scene
    → w.goal_items ≡ some items
    → w.actors ≡ some actors
    → FitKeys d.island_to_scenario_map
    → FitAll w.islands
    → AreDistinct w.islands
    → IsSorted d.island_to_scenario_map
    → CollectsShards v
    → KeepsShards v
    → (w' : World v) × (handle_all v k r (world_packets d) w ≡ ok w')
      × (w'.islands ≡ map (told d.island_to_scenario_map) w.islands)
      × AreCollected v d.collected_shards w'.saves
      × ((zone id : ℤ)
          → v.is_shard_collected zone id w.saves ≡ true
          → v.is_shard_collected zone id w'.saves ≡ true)
      × (w'.progress.single_mode.num_goal_items
          ≡ counter d d.collected_goal_items w.progress.single_mode.num_goal_items)
handle_all-world_packets v k r d w items actors s gi ac fk fa di so c kept = (
  entered v k r d w actors,
  handle_all-entered v k r d w items actors s gi ac fk fa di so,
  refl,
  collect_all-AreCollected v d.collected_shards (unlock_all v d.unlocked_toads w.saves) actors c
      kept,
  λ zone id h.
      collect_all-kept v d.collected_shards zone id (unlock_all v d.unlocked_toads w.saves) actors
        kept (unlock_all-kept v d.unlocked_toads zone id w.saves kept h),
  refl,
)
