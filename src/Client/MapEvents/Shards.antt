-- ===== src/Client/MapEvents/Shards.antt =====
-- The shards in the game.
use bf_multiplayer.Prelude.{◌≡◌, refl, ap, true, ℤ, pos, ◌-ℤ◌, List, Bool-cases, inl, inr, ok}
use bf_multiplayer.Packet.{shard_collect}
use bf_multiplayer.Client.Progress.{in_scene, guarded}
use bf_multiplayer.Client.MapEvents.{
  Saves, Actor, handle_shard_collect, sync_map, handle_misc_map_sync,
}

-- A shard that was collected counts as collected.
pub record CollectsShards (v : Saves) : Type 0 where
  pub collected :
      (zone id : ℤ) (d : v.State) → v.is_shard_collected zone id (v.collect_shard zone id d) ≡ true

pub handle_shard_collect-collected :
    (v : Saves) (zone id : ℤ) (d : v.State) (actors : List Actor)
    → CollectsShards v
    → v.is_shard_collected (zone -ℤ pos 1) (id -ℤ pos 1) (handle_shard_collect v zone id d actors).0
      ≡ true
unfolding handle_shard_collect
handle_shard_collect-collected v zone id d actors c =
    elim (Bool-cases (v.is_shard_collected (zone -ℤ pos 1) (id -ℤ pos 1) d)) [
      | inl old ↦ rw old old
      | inr new ↦ rw new (c.collected _ _ _)
    ]

-- In a scene, and where a shard that was collected counts as collected, a shard's packet leaves the shard collected, and a second copy of the packet changes
-- neither the record nor the actors.
pub handle_misc_map_sync_twice :
    (v : Saves) (zone id : ℤ) (d : v.State) (actors : List Actor)
    → CollectsShards v
    → (r : v.State × List Actor) × (handle_misc_map_sync v in_scene (shard_collect zone id) d actors
        ≡ ok r)
      × (v.is_shard_collected (zone -ℤ pos 1) (id -ℤ pos 1) r.0 ≡ true)
      × (handle_misc_map_sync v in_scene (shard_collect zone id) r.0 r.1 ≡ ok r)
unfolding handle_misc_map_sync guarded sync_map
handle_misc_map_sync_twice v zone id d actors c =
    let once = handle_shard_collect-collected v zone id d actors c in
    (
      handle_shard_collect v zone id d actors,
      refl,
      once,
      ap ok (again (handle_shard_collect v zone id d actors) once),
    )
  where
    again :
        (r : v.State × List Actor)
        → v.is_shard_collected (zone -ℤ pos 1) (id -ℤ pos 1) r.0 ≡ true
        → handle_shard_collect v zone id r.0 r.1 ≡ r
    again r h = unfold handle_shard_collect in rw h refl
