-- ===== src/Client/Hooks.antt =====
-- The hooks of src/pe/Multiplayer/GoalItemSync.cpp and MiscMapSync.cpp that report what happens in
-- the game, as the packets that they send. `has_client` is that there is a manager with a client.
pub mod Names
use bf_multiplayer.Prelude.{
  ℕ, Bool, true, false, not, ◌&&◌, ℤ, List, [], ◌∷◌, Option, some, if◌then◌else◌,
}
use bf_multiplayer.Packet.{
  Packet, to_s_goal_item_info, to_s_scenario_update, to_s_misc_map_sync, kill_actor_by_obj_id,
  shard_collect, dark_bowser_health, toad_unlock,
}
use bf_multiplayer.Server.Handlers.{strncpy}
use bf_multiplayer.Client.MapEvents.{Shard}

-- goalItemCollectNrvHook.
unfoldable pub goal_item_collect_nrv : Bool → ℤ → ℤ → List Packet
goal_item_collect_nrv has_client island shine =
    if has_client
    then to_s_goal_item_info (record { island_id = island; shine_id = shine }) ∷ []
    else []

-- setScenarioIDHook, where `enabled` is sIsPhaseHookEnabled.
unfoldable pub set_scenario_id : Bool → Bool → List ℕ → ℤ → Bool → List Packet
set_scenario_id enabled has_client name scenario something =
    if enabled && has_client
    then to_s_scenario_update
        (record { island_name = strncpy 128 name; scenario = scenario; unk = some something })
      ∷ []
    else []

-- shadowMarioKill, in each step of the actor.
unfoldable pub shadow_mario_kill : Bool → List ℕ → List Packet
shadow_mario_kill is_first_step id_clone =
    if is_first_step
    then to_s_misc_map_sync (kill_actor_by_obj_id (strncpy 128 id_clone)) ∷ []
    else []

-- kameckKillHook and donketsuKill.
unfoldable pub actor_kill : List ℕ → List Packet
actor_kill id_clone = to_s_misc_map_sync (kill_actor_by_obj_id (strncpy 128 id_clone)) ∷ []

-- shardGot, in each step of the shard.
unfoldable pub shard_got : Bool → Shard → List Packet
shard_got is_first_step s =
    if is_first_step && not s.collected_by_hook
    then to_s_misc_map_sync (shard_collect s.zone_id s.shard_id) ∷ []
    else []

-- bowserDamageHook and sendDarkBowserHealthPacket: `health` is mHealth behind the damage, and
-- `disabled` sDisableBowserDamageHook.
unfoldable pub bowser_damage : Bool → ℤ → List Packet
bowser_damage disabled health =
    if disabled then [] else to_s_misc_map_sync (dark_bowser_health health) ∷ []

-- setUnlockedCharHook.
unfoldable pub set_unlocked_char : ℤ → List Packet
set_unlocked_char character = to_s_misc_map_sync (toad_unlock character) ∷ []
