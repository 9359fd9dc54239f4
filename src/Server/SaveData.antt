-- ===== src/Server/SaveData.antt =====
-- server/Source/pe/ServerSaveData.cpp and server/Include/pe/ServerSaveData.h: what the server keeps
-- for all players, and its two files.
pub mod File
use bf_multiplayer.Prelude.{
  ℕ, zero, ◌+◌, ◌≡◌, Bool, true, false, ◌&&◌, ◌||◌, ℤ, pos, eqb_ℤ, List, [], ◌∷◌, Memory, memcpy,
  ltb, leb, Result, ok, err, ◌>>=◌, out_of_bounds, null_pointer, Option, none, some, if◌then◌else◌,
}

pub record GoalItemCollectData : Type 0 where
  pub island_id : ℤ
  pub scenario_id : ℤ

-- The length of `sharedSave`: the largest uint16_t and 0x100.
abbrev pub shared_save_capacity : ℕ
shared_save_capacity = 65535 + 0x100

pub record ServerSaveData : Type 0 where
  pub num_collected_goal_items : ℤ
  pub collected_goal_items : List GoalItemCollectData
  pub collected_shards : List GoalItemCollectData
  pub island_to_scenario_map : List (List ℕ × ℤ)
  pub unlocked_toads : List ℤ
  pub jump_flip_state : Bool
  pub shared_save_size : ℕ
  pub shared_save : Memory

-- A binary file's contents.
pub record FileBytes : Type 0 where
  pub size : ℕ
  pub bytes : Memory

-- The loop of isGoalItemAlreadyCollected.
abbrev pub collected_in : ℤ → ℤ → List GoalItemCollectData → Bool
collected_in island scenario [] = false
collected_in island scenario (shine ∷ rest) =
    (eqb_ℤ shine.island_id island && eqb_ℤ shine.scenario_id scenario)
    || collected_in island scenario rest

unfoldable pub is_goal_item_already_collected : ServerSaveData → ℤ → ℤ → Bool
is_goal_item_already_collected s island scenario =
    collected_in island scenario s.collected_goal_items

-- `fopen` of a missing file gives a null pointer, which `fseek` then follows.
unfoldable pub read_bytes_from_file : Option FileBytes → Result FileBytes
read_bytes_from_file none = err null_pointer
read_bytes_from_file (some f) = ok f

-- A binary file read and copied into `sharedSave`. Its size is set before the copy, which does not
-- test it.
unfoldable pub load_shared_from : Option FileBytes → ServerSaveData → Result ServerSaveData
unfolding read_bytes_from_file
load_shared_from file s = read_bytes_from_file file >>= λ f.
    if ltb shared_save_capacity f.size
    then err out_of_bounds
    else ok (record s {
      shared_save_size = f.size;
      shared_save = memcpy s.shared_save 0 f.bytes f.size;
    })

-- loadSharedDefault, given the contents of GameDataDefault.bin.
unfoldable pub load_shared_default : Option FileBytes → ServerSaveData → Result ServerSaveData
unfolding load_shared_from
load_shared_default game_data_default s = load_shared_from game_data_default s

unfoldable pub reset : Option FileBytes → ServerSaveData → Result ServerSaveData
unfolding load_shared_default
reset game_data_default s = load_shared_default game_data_default (record s {
  jump_flip_state = false;
  num_collected_goal_items = pos 0;
  collected_goal_items = [];
  island_to_scenario_map = [];
  unlocked_toads = [];
  collected_shards = [];
})
