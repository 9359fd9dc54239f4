-- ===== src/Server/SaveData/File/RoundTrip.antt =====
-- What a restart of the server keeps: `load` after `save`.
use bf_multiplayer.Prelude.{
  ℕ, ◌∙◌, true, ◌≤◌, ◌≡◌, refl, false, ℤ, pos, List, [], ◌∷◌, map, Agree, memcpy, ltb, Option, some,
  arith, ok, IsSorted, insert_all, insert_all-IsSorted,
}
use bf_multiplayer.Server.Json.{JsonLib, IsJsonLib, find_key, all}
use bf_multiplayer.Server.SaveData.{
  GoalItemCollectData, ServerSaveData, FileBytes, shared_save_capacity, load_shared_from,
}
use bf_multiplayer.Server.SaveData.File.{
  Files, goal_item_json, island_json, shard_json, save_json, save, load_goal_items, load_islands,
  load_shards, load_toads, load_document, load,
}

-- What the server knows after a restart: all of `s` but the toads, and the shared save's bytes.
pub record Restored (s t : ServerSaveData) : Type 0 where
  pub num : t.num_collected_goal_items ≡ s.num_collected_goal_items
  pub goal_items : t.collected_goal_items ≡ s.collected_goal_items
  pub shards : t.collected_shards ≡ s.collected_shards
  pub islands : t.island_to_scenario_map ≡ s.island_to_scenario_map
  pub flip : t.jump_flip_state ≡ s.jump_flip_state
  pub toads : t.unlocked_toads ≡ []
  pub size : t.shared_save_size ≡ s.shared_save_size
  pub shared : Agree s.shared_save_size t.shared_save s.shared_save

module _ (j : JsonLib) (laws : IsJsonLib j) where
  load_goal_items-map :
      (gs : List GoalItemCollectData) → load_goal_items j (map (goal_item_json j) gs) ≡ ok gs
  unfolding load_goal_items goal_item_json find_key
  load_goal_items-map [] = refl
  load_goal_items-map (g ∷ gs) =
      rw
        (
          laws.at-object _ "islandID" _ refl,
          laws.as_int-of_int g.island_id,
          laws.at-object _ "scenarioID" _ refl,
          laws.as_int-of_int g.scenario_id,
          load_goal_items-map gs,
        )
        refl

  load_shards-map : (gs : List GoalItemCollectData) → load_shards j (map (shard_json j) gs) ≡ ok gs
  unfolding load_shards shard_json find_key
  load_shards-map [] = refl
  load_shards-map (g ∷ gs) =
      rw
        (
          laws.at-object _ "zoneID" _ refl,
          laws.as_int-of_int g.island_id,
          laws.at-object _ "shardID" _ refl,
          laws.as_int-of_int g.scenario_id,
          load_shards-map gs,
        )
        refl

  load_islands-map :
      (es m : List (List ℕ × ℤ)) → load_islands j (map (island_json j) es) m ≡ ok (insert_all es m)
  unfolding load_islands island_json find_key insert_all
  load_islands-map [] m = refl
  load_islands-map ((name, scenario) ∷ es) m =
      rw
        (
          laws.at-object _ "name" _ refl,
          laws.as_text-of_text name,
          laws.at-object _ "scenarioID" _ refl,
          laws.as_int-of_int scenario,
        )
        (load_islands-map es _)

  -- The document that `save` wrote, loaded into a server whose islands were cleared.
  load_document-save_json :
      (s t : ServerSaveData) (files : Files j.Text)
      → IsSorted s.island_to_scenario_map
      → t.island_to_scenario_map ≡ []
      → load_document j (save_json j s) files t
        ≡ load_shared_from files.game_data (record t {
          jump_flip_state = s.jump_flip_state;
          num_collected_goal_items = s.num_collected_goal_items;
          collected_goal_items = s.collected_goal_items;
          island_to_scenario_map = s.island_to_scenario_map;
          unlocked_toads = [];
          collected_shards = s.collected_shards;
        })
  unfolding load_document save_json find_key load_toads
  load_document-save_json s t files sorted cleared =
      rw
        (
          laws.at-object _ "jumpFlipState" _ refl,
          laws.as_bool-of_bool s.jump_flip_state,
          laws.at-object _ "numCollectedGoalItems" _ refl,
          laws.as_int-of_int s.num_collected_goal_items,
          laws.at-object _ "goalItems" _ refl,
          laws.items-array (map (goal_item_json j) s.collected_goal_items),
          load_goal_items-map s.collected_goal_items,
          laws.at-object _ "islands" _ refl,
          laws.items-array (map (island_json j) s.island_to_scenario_map),
          load_islands-map s.island_to_scenario_map t.island_to_scenario_map,
          cleared,
          insert_all-IsSorted s.island_to_scenario_map sorted,
          laws.at-object _ "unlockedToads" _ refl,
          laws.items-array [],
          laws.at-object _ "collectedShards" _ refl,
          laws.items-array (map (shard_json j) s.collected_shards),
          load_shards-map s.collected_shards,
        )
        refl

  -- The state after the restart, with the buffer's bytes beyond the save as `reset` left them.
  restored : ServerSaveData → ServerSaveData → FileBytes → ServerSaveData
  restored s old d = record s {
    unlocked_toads = [];
    shared_save =
        memcpy (memcpy old.shared_save 0 d.bytes d.size) 0 s.shared_save s.shared_save_size;
  }

  restored-Restored : (s old : ServerSaveData) (d : FileBytes) → Restored s (restored s old d)
  unfolding restored
  restored-Restored s old d = record {
    num = refl;
    goal_items = refl;
    shards = refl;
    islands = refl;
    flip = refl;
    toads = refl;
    size = refl;
    shared = λ i h. ground arith;
  }

  -- The state that `reset` leaves.
  abbrev emptied : ServerSaveData → FileBytes → ServerSaveData
  emptied old d = record {
    num_collected_goal_items = pos 0;
    collected_goal_items = [];
    collected_shards = [];
    island_to_scenario_map = [];
    unlocked_toads = [];
    jump_flip_state = false;
    shared_save_size = d.size;
    shared_save = memcpy old.shared_save 0 d.bytes d.size;
  }

  -- The files that `save` leaves.
  abbrev saved_files : j.Text → ServerSaveData → Option FileBytes → Files j.Text
  saved_files text s default = record {
    save_data = some text;
    game_data = some (record { size = s.shared_save_size; bytes = s.shared_save });
    game_data_default = default;
  }

  load_saved :
      (text : j.Text) (s old : ServerSaveData) (d : FileBytes)
      → j.parse text ≡ some (save_json j s)
      → IsSorted s.island_to_scenario_map
      → s.shared_save_size ≤ shared_save_capacity
      → d.size ≤ shared_save_capacity
      → load j (saved_files text s (some d)) old
        ≡ ok (saved_files text s (some d), restored s old d)
  unfolding load load_shared_from restored
  load_saved text s old d parsed sorted small dsmall =
      rw (parsed, load, not_above d.size dsmall)
        (rw
          (
            load_document-save_json s (emptied old d) (saved_files text s (some d)) sorted refl,
            not_above s.shared_save_size small,
          )
          refl)
    where
      not_above : (n : ℕ) → n ≤ shared_save_capacity → ltb shared_save_capacity n ≡ false
      not_above n h = ground arith

  goal_items_dumpable :
      (gs : List GoalItemCollectData) → all j.is_dumpable (map (goal_item_json j) gs) ≡ true
  unfolding goal_item_json
  goal_items_dumpable [] = refl
  goal_items_dumpable (g ∷ gs) =
      rw (laws.is_dumpable-object, laws.is_dumpable-of_int, laws.is_dumpable-of_int)
        (goal_items_dumpable gs)

  shards_dumpable :
      (gs : List GoalItemCollectData) → all j.is_dumpable (map (shard_json j) gs) ≡ true
  unfolding shard_json
  shards_dumpable [] = refl
  shards_dumpable (g ∷ gs) =
      rw (laws.is_dumpable-object, laws.is_dumpable-of_int, laws.is_dumpable-of_int)
        (shards_dumpable gs)

  island_dumpable :
      (island : List ℕ × ℤ) → j.is_dumpable (island_json j island) ≡ j.is_utf8 island.0
  unfolding island_json
  island_dumpable (name, scenario) =
      laws.is_dumpable-object _
      ∙ rw (laws.is_dumpable-of_text name, laws.is_dumpable-of_int scenario) (ground arith)

  islands_dumpable :
      (es : List (List ℕ × ℤ))
      → all j.is_dumpable (map (island_json j) es) ≡ all (λ e. j.is_utf8 e.0) es
  islands_dumpable [] = refl
  islands_dumpable (e ∷ es) = rw (island_dumpable e, islands_dumpable es) refl

  -- The document can be written exactly when every island's name is UTF-8.
  save_json-is_dumpable :
      (s : ServerSaveData)
      → j.is_dumpable (save_json j s) ≡ all (λ e. j.is_utf8 e.0) s.island_to_scenario_map
  unfolding save_json
  save_json-is_dumpable s =
      laws.is_dumpable-object _
      ∙ rw
          (
            laws.is_dumpable-of_bool s.jump_flip_state,
            laws.is_dumpable-of_int s.num_collected_goal_items,
            laws.is_dumpable-array (map (goal_item_json j) s.collected_goal_items),
            goal_items_dumpable s.collected_goal_items,
            laws.is_dumpable-array (map (island_json j) s.island_to_scenario_map),
            islands_dumpable s.island_to_scenario_map,
            laws.is_dumpable-array [],
            laws.is_dumpable-array (map (shard_json j) s.collected_shards),
            shards_dumpable s.collected_shards,
          )
          (ground arith)

  save-ok :
      (text : j.Text) (s : ServerSaveData) (files : Files j.Text)
      → j.dump (save_json j s) ≡ ok text
      → s.shared_save_size ≤ shared_save_capacity
      → save j s files ≡ ok (saved_files text s files.game_data_default)
  unfolding save
  save-ok text s files dumped small = rw dumped (ground arith)

  -- Saved and loaded again, with the islands in order and their names in UTF-8, both binary files
  -- within the buffer and the default save present, the state is the one that was saved, except that
  -- no toad is unlocked.
  pub load-save :
      (s old : ServerSaveData) (files : Files j.Text) (d : FileBytes)
      → IsSorted s.island_to_scenario_map
      → all (λ e. j.is_utf8 e.0) s.island_to_scenario_map ≡ true
      → s.shared_save_size ≤ shared_save_capacity
      → files.game_data_default ≡ some d
      → d.size ≤ shared_save_capacity
      → (files' : Files j.Text) × (t : ServerSaveData) × (save j s files ≡ ok files')
        × (load j files' old ≡ ok (files', t))
        × Restored s t
  load-save s old files d sorted named small default dsmall =
      let (text, dumped, parsed) =
        laws.parse-dump (save_json j s) (save_json-is_dumpable s ∙ named) in
      (
        saved_files text s files.game_data_default,
        restored s old d,
        save-ok text s files dumped small,
        rw default (load_saved text s old d parsed sorted small dsmall),
        restored-Restored s old d,
      )
