-- ===== src/Client/World/Collected.antt =====
-- The packets of the toads and shards that a game is sent, through its handlers.
use bf_multiplayer.Prelude.{
  ◌≡◌, refl, true, ℤ, pos, ◌-ℤ◌, List, [], ◌∷◌, map, some, arith, All, Bool-cases, inl, inr, ok,
}
use bf_multiplayer.Server.SaveData.{GoalItemCollectData}
use bf_multiplayer.Server.Handlers.{toad_packet, shard_packet}
use bf_multiplayer.Client.Progress.{in_scene, guarded}
use bf_multiplayer.Client.MapEvents.{
  Saves, Actor, handle_misc_map_sync, sync_map, handle_shard_collect,
}
use bf_multiplayer.Client.MapEvents.Shards.{CollectsShards, handle_shard_collect-collected}
use bf_multiplayer.Client.World.{World, Setting, Reading, handle, handle_all, receive_misc_map_sync}

-- What a shard was collected for stays so under the other calls that the packets lead to.
pub record KeepsShards (v : Saves) : Type 0 where
  pub collect :
      (zone id z i : ℤ) (d : v.State)
      → v.is_shard_collected z i d ≡ true
      → v.is_shard_collected z i (v.collect_shard zone id d) ≡ true
  pub unlock :
      (toad z i : ℤ) (d : v.State)
      → v.is_shard_collected z i d ≡ true
      → v.is_shard_collected z i (v.set_unlocked_char toad d) ≡ true

module _ (v : Saves) where
  abbrev pub unlock_all : List ℤ → v.State → v.State
  unlock_all [] d = d
  unlock_all (t ∷ ts) d = unlock_all ts (v.set_unlocked_char t d)

  abbrev pub collect_all : List GoalItemCollectData → v.State → List Actor → v.State × List Actor
  collect_all [] d actors = (d, actors)
  collect_all (g ∷ gs) d actors =
      let now = handle_shard_collect v g.island_id g.scenario_id d actors in
      collect_all gs now.0 now.1

  handle_shard_collect-kept :
      (zone id z i : ℤ) (d : v.State) (actors : List Actor)
      → KeepsShards v
      → v.is_shard_collected z i d ≡ true
      → v.is_shard_collected z i (handle_shard_collect v zone id d actors).0 ≡ true
  unfolding handle_shard_collect
  handle_shard_collect-kept zone id z i d actors kept h =
      elim (Bool-cases (v.is_shard_collected (zone -ℤ pos 1) (id -ℤ pos 1) d)) [
        | inl old ↦ rw old h
        | inr new ↦ rw new (kept.collect _ _ _ _ _ h)
      ]

  pub collect_all-kept :
      (gs : List GoalItemCollectData) (z i : ℤ) (d : v.State) (actors : List Actor)
      → KeepsShards v
      → v.is_shard_collected z i d ≡ true
      → v.is_shard_collected z i (collect_all gs d actors).0 ≡ true
  collect_all-kept [] z i d actors kept h = h
  collect_all-kept (g ∷ gs) z i d actors kept h =
      let now = handle_shard_collect v g.island_id g.scenario_id d actors in
      collect_all-kept gs z i now.0 now.1 kept (handle_shard_collect-kept _ _ z i d actors kept h)

  abbrev pub AreCollected : List GoalItemCollectData → v.State → Type 0
  AreCollected gs d =
      All
        (λ (g : GoalItemCollectData).
          v.is_shard_collected (g.island_id -ℤ pos 1) (g.scenario_id -ℤ pos 1) d ≡ true)
        gs

  pub collect_all-AreCollected :
      (gs : List GoalItemCollectData) (d : v.State) (actors : List Actor)
      → CollectsShards v
      → KeepsShards v
      → AreCollected gs (collect_all gs d actors).0
  collect_all-AreCollected [] d actors c kept = tt
  collect_all-AreCollected (g ∷ gs) d actors c kept =
      let now = handle_shard_collect v g.island_id g.scenario_id d actors in
      (
        collect_all-kept gs _ _ now.0 now.1 kept
            (handle_shard_collect-collected v g.island_id g.scenario_id d actors c),
        collect_all-AreCollected gs now.0 now.1 c kept,
      )

  pub unlock_all-kept :
      (ts : List ℤ) (z i : ℤ) (d : v.State)
      → KeepsShards v
      → v.is_shard_collected z i d ≡ true
      → v.is_shard_collected z i (unlock_all ts d) ≡ true
  unlock_all-kept [] z i d kept h = h
  unlock_all-kept (t ∷ ts) z i d kept h =
      unlock_all-kept ts z i (v.set_unlocked_char t d) kept (kept.unlock t z i d h)

module _ (v : Saves) (k : Setting) (r : Reading) where
  handle-toad :
      (t : ℤ) (w : World v) (actors : List Actor)
      → w.situation ≡ in_scene
      → w.actors ≡ some actors
      → handle v k r (toad_packet t) w ≡ ok (record w { saves = v.set_unlocked_char t w.saves })
  unfolding handle toad_packet receive_misc_map_sync handle_misc_map_sync guarded sync_map
  handle-toad t w actors s h = ground arith

  pub handle_all-toads :
      (ts : List ℤ) (w : World v) (actors : List Actor)
      → w.situation ≡ in_scene
      → w.actors ≡ some actors
      → handle_all v k r (map toad_packet ts) w ≡ ok (record w { saves = unlock_all v ts w.saves })
  unfolding handle_all
  handle_all-toads [] w actors s h = refl
  handle_all-toads (t ∷ ts) w actors s h =
      rw (handle-toad t w actors s h)
        (handle_all-toads ts (record w { saves = v.set_unlocked_char t w.saves }) actors s h)

  handle-shard :
      (g : GoalItemCollectData) (w : World v) (actors : List Actor)
      → w.situation ≡ in_scene
      → w.actors ≡ some actors
      → handle v k r (shard_packet g) w
        ≡ ok (record w {
          saves = (handle_shard_collect v g.island_id g.scenario_id w.saves actors).0;
          actors = some (handle_shard_collect v g.island_id g.scenario_id w.saves actors).1;
        })
  unfolding handle shard_packet receive_misc_map_sync handle_misc_map_sync guarded sync_map
  handle-shard g w actors s h = ground arith

  pub handle_all-shards :
      (gs : List GoalItemCollectData) (w : World v) (actors : List Actor)
      → w.situation ≡ in_scene
      → w.actors ≡ some actors
      → handle_all v k r (map shard_packet gs) w
        ≡ ok (record w {
          saves = (collect_all v gs w.saves actors).0;
          actors = some (collect_all v gs w.saves actors).1;
        })
  unfolding handle_all
  handle_all-shards [] w actors s h = ground arith
  handle_all-shards (g ∷ gs) w actors s h =
      let now = handle_shard_collect v g.island_id g.scenario_id w.saves actors in
      rw (handle-shard g w actors s h)
        (handle_all-shards gs (record w { saves = now.0; actors = some (now.1) }) now.1 s refl)
