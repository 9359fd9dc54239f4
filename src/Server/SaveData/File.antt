-- ===== src/Server/SaveData/File.antt =====
-- server/Source/pe/ServerSaveData.cpp: `save` and `load`, over the files of the server's directory.
pub mod RoundTrip
use bf_multiplayer.Prelude.{
  ℕ, ◌≡◌, Bool, ℤ, pos, List, [], ◌∷◌, map, Memory, ltb, Option, none, some, if◌then◌else◌, Result,
  ok, err, overread, ◌>>=◌, insert,
}
use bf_multiplayer.Server.Json.{JsonLib}
use bf_multiplayer.Server.SaveData.{
  GoalItemCollectData, ServerSaveData, FileBytes, shared_save_capacity, load_shared_from,
  load_shared_default, reset,
}

-- `save_data` is SaveData.json, `game_data` GameData.bin, `game_data_default` GameDataDefault.bin.
-- A file that is not there is `none`. Writing always succeeds.
pub record Files (Text : Type 0) : Type 0 where
  pub save_data : Option Text
  pub game_data : Option FileBytes
  pub game_data_default : Option FileBytes

module _ (j : JsonLib) where
  open j use {Json, Text, of_bool, of_int, of_text, array, object, dump, parse}

  goal_item_json : GoalItemCollectData → Json
  goal_item_json g =
      object (("islandID", of_int g.island_id) ∷ ("scenarioID", of_int g.scenario_id) ∷ [])

  island_json : List ℕ × ℤ → Json
  island_json island = object (("name", of_text island.0) ∷ ("scenarioID", of_int island.1) ∷ [])

  shard_json : GoalItemCollectData → Json
  shard_json g = object (("zoneID", of_int g.island_id) ∷ ("shardID", of_int g.scenario_id) ∷ [])

  -- The document that `save` builds. Its loop over the toads pushes them to `islands`, which was
  -- copied into `data` before, so the array `toads` stays empty.
  unfoldable pub save_json : ServerSaveData → Json
  unfolding goal_item_json island_json shard_json
  save_json s = object (
      ("jumpFlipState", of_bool s.jump_flip_state)
      ∷ ("numCollectedGoalItems", of_int s.num_collected_goal_items)
      ∷ ("goalItems", array (map goal_item_json s.collected_goal_items))
      ∷ ("islands", array (map island_json s.island_to_scenario_map))
      ∷ ("unlockedToads", array [])
      ∷ ("collectedShards", array (map shard_json s.collected_shards))
      ∷ [])

  unfoldable pub save : ServerSaveData → Files Text → Result (Files Text)
  unfolding save_json
  save s files = dump (save_json s) >>= λ text.
      if ltb shared_save_capacity s.shared_save_size
      then err overread
      else ok (record files {
        save_data = some text;
        game_data = some (record { size = s.shared_save_size; bytes = s.shared_save });
      })

  -- The loops of `load`, each over the elements of an array.
  load_goal_items : List Json → Result (List GoalItemCollectData)
  load_goal_items [] = ok []
  load_goal_items (g ∷ gs) = do
    island ← j.at g "islandID"
    island_id ← j.as_int island
    scenario ← j.at g "scenarioID"
    scenario_id ← j.as_int scenario
    rest ← load_goal_items gs
    ok (record { island_id = island_id; scenario_id = scenario_id } ∷ rest)

  load_islands : List Json → List (List ℕ × ℤ) → Result (List (List ℕ × ℤ))
  load_islands [] m = ok m
  load_islands (i ∷ is) m = do
    n ← j.at i "name"
    name ← j.as_text n
    s ← j.at i "scenarioID"
    scenario ← j.as_int s
    load_islands is (insert name scenario m)

  load_toads : List Json → Result (List ℤ)
  load_toads [] = ok []
  load_toads (t ∷ ts) = do toad ← j.as_int t; rest ← load_toads ts; ok (toad ∷ rest)

  load_shards : List Json → Result (List GoalItemCollectData)
  load_shards [] = ok []
  load_shards (g ∷ gs) = do
    zone ← j.at g "zoneID"
    zone_id ← j.as_int zone
    shard ← j.at g "shardID"
    shard_id ← j.as_int shard
    rest ← load_shards gs
    ok (record { island_id = zone_id; scenario_id = shard_id } ∷ rest)

  -- `load` from the document, after `reset`.
  load_document : Json → Files Text → ServerSaveData → Result ServerSaveData
  unfolding load_goal_items load_islands load_toads load_shards load_shared_from
  load_document v files s = do
    flip ← j.at v "jumpFlipState"
    jump_flip ← j.as_bool flip
    num ← j.at v "numCollectedGoalItems"
    num_collected ← j.as_int num
    goal_items ← j.at v "goalItems"
    goals ← load_goal_items (j.items goal_items)
    islands ← j.at v "islands"
    scenarios ← load_islands (j.items islands) s.island_to_scenario_map
    unlocked_toads ← j.at v "unlockedToads"
    toads ← load_toads (j.items unlocked_toads)
    collected_shards ← j.at v "collectedShards"
    shards ← load_shards (j.items collected_shards)
    load_shared_from files.game_data (record s {
      jump_flip_state = jump_flip;
      num_collected_goal_items = num_collected;
      collected_goal_items = goals;
      island_to_scenario_map = scenarios;
      unlocked_toads = toads;
      collected_shards = shards;
    })

  unfoldable pub load : Files Text → ServerSaveData → Result (Files Text × ServerSaveData)
  unfolding load_document load_shared_default save reset
  load files s = elim files.save_data [
    | none ↦ do
      fresh ← load_shared_default files.game_data_default s
      files' ← save fresh files
      ok (files', fresh)
    | some t ↦ elim (parse t) [
      | none ↦ ok (files, s)
      | some v ↦ do
        empty ← reset files.game_data_default s
        loaded ← load_document v files empty
        ok (files, loaded)
    ]
  ]
