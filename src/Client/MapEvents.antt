-- ===== src/Client/MapEvents.antt =====
-- src/pe/Multiplayer/MiscMapSync.cpp: shards, killed actors, the boss's health and jump panels.
pub mod Shards
pub mod Flips
use bf_multiplayer.Prelude.{
  ℕ, ◌+◌, ◌-◌, ◌*◌, ◌/◌, ◌≡◌, Bool, true, false, not, ◌&&◌, ◌||◌, ℤ, pos, ◌-ℤ◌, eqb_ℤ, List, [],
  ◌∷◌, ◌++◌, map, Option, none, some, ltb, ◌==◌, if◌then◌else◌, Result, ok, err, ◌>>=◌,
}
use bf_multiplayer.Packet.{
  MiscMapSyncData, kill_actor_by_obj_id, shard_collect, dark_bowser_health, toad_unlock,
  JumpFlipData,
}
use bf_multiplayer.Client.Progress.{Situation, guarded, is_equal_string}

-- The game's record of collected shards, and its functions: isShardCollected, collectShard and
-- setUnlockedChar of SingleModeDataFunction. Zones and shards count from 0 there.
pub record Saves : Type 1 where
  pub State : Type 0
  pub is_shard_collected : ℤ → ℤ → State → Bool
  pub collect_shard : ℤ → ℤ → State → State
  pub set_unlocked_char : ℤ → State → State

-- A shard among the actors. `is_got` is that its nerve was set to Got by the handler.
pub record Shard : Type 0 where
  pub zone_id : ℤ
  pub shard_id : ℤ
  pub collected_by_hook : Bool
  pub is_killed : Bool
  pub is_got : Bool

-- The kinds of actor that the handler tells apart, and the name in the placement holder: `none` for
-- mIdClone being null. A boss has its health and the damage that the handler asked for.
pub data Kind : Type 0 where
  shard : Shard → Kind
  dark_bowser : ℤ → List ℤ → Kind
  other : Kind

pub record Actor : Type 0 where
  pub kind : Kind
  pub id_clone : Option (List ℕ)
  pub killed_by_hook : Bool

-- The loop that tests the five shards of a zone.
unfoldable pub all_collected : (v : Saves) → ℤ → v.State → Bool
all_collected v zone d =
    v.is_shard_collected zone (pos 0) d
    && v.is_shard_collected zone (pos 1) d
    && v.is_shard_collected zone (pos 2) d
    && v.is_shard_collected zone (pos 3) d
    && v.is_shard_collected zone (pos 4) d

-- What the loop over the actors does with one shard.
unfoldable pub collect_actor_shard : ℤ → ℤ → Bool → Shard → Shard
collect_actor_shard zone id all s =
    if eqb_ℤ s.zone_id zone
    then (if all
        then record s { is_killed = true }
        else (if eqb_ℤ s.shard_id id
            then record s { collected_by_hook = true; is_got = true }
            else s))
    else s

unfoldable pub collect_kind : ℤ → ℤ → Bool → Kind → Kind
unfolding collect_actor_shard
collect_kind zone id all (shard s) = shard (collect_actor_shard zone id all s)
collect_kind zone id all (dark_bowser health damage) = dark_bowser health damage
collect_kind zone id all other = other

unfoldable pub collect_actor : ℤ → ℤ → Bool → Actor → Actor
unfolding collect_kind
collect_actor zone id all a = record a { kind = collect_kind zone id all a.kind }

-- The ShardCollect part.
unfoldable pub handle_shard_collect :
    (v : Saves) → ℤ → ℤ → v.State → List Actor → v.State × List Actor
unfolding all_collected collect_actor
handle_shard_collect v zone id d actors =
    if v.is_shard_collected (zone -ℤ pos 1) (id -ℤ pos 1) d
    then (d, actors)
    else (let d' = v.collect_shard (zone -ℤ pos 1) (id -ℤ pos 1) d in
        let all = all_collected v (zone -ℤ pos 1) d' in
        (d', map (collect_actor zone id all) actors))

-- The KillActorByObjId part, for one actor and for the loop.
unfoldable pub kill_actor : List ℕ → Actor → Result Actor
kill_actor obj_id a = if a.killed_by_hook then ok a else elim a.id_clone [
  | none ↦ ok a
  | some name ↦ is_equal_string obj_id name >>= λ same.
      ok (if same then record a { killed_by_hook = true } else a)
]

unfoldable pub kill_actors : List ℕ → List Actor → Result (List Actor)
unfolding kill_actor
kill_actors obj_id [] = ok []
kill_actors obj_id (a ∷ actors) = do
  b ← kill_actor obj_id a
  bs ← kill_actors obj_id actors
  ok (b ∷ bs)

-- The DarkBowserHealth part: the first boss among the actors is asked to take the difference.
unfoldable pub damage_bowser : ℤ → List Actor → List Actor
damage_bowser health [] = []
damage_bowser health (a ∷ actors) =
    let rest = damage_bowser health actors in
    elim a.kind [
      | shard s ↦ a ∷ rest
      | other ↦ a ∷ rest
      | dark_bowser h damage ↦
          (if eqb_ℤ h health
            then a ∷ actors
            else record a { kind = dark_bowser h (damage ++ (h -ℤ health) ∷ []) } ∷ actors)
    ]

-- handleToC_MiscMapSync behind its tests.
unfoldable pub sync_map :
    (v : Saves) → MiscMapSyncData → v.State → List Actor → Result (v.State × List Actor)
unfolding handle_shard_collect kill_actors damage_bowser
sync_map v (shard_collect zone id) d actors = ok (handle_shard_collect v zone id d actors)
sync_map v (kill_actor_by_obj_id obj_id) d actors = kill_actors obj_id actors >>= λ bs. ok (d, bs)
sync_map v (dark_bowser_health health) d actors = ok (d, damage_bowser health actors)
sync_map v (toad_unlock character) d actors = ok (v.set_unlocked_char character d, actors)

unfoldable pub handle_misc_map_sync :
    (v : Saves) → Situation → MiscMapSyncData → v.State → List Actor → Result (v.State × List Actor)
unfolding guarded sync_map
handle_misc_map_sync v at_scene p d actors = guarded at_scene (d, actors) (sync_map v p d actors)

-- The static variables of the jump panels; ticks of the system's clock.
pub record Panels : Type 0 where
  pub last_packet : ℕ
  pub state : Bool
  pub flip_all : Bool

-- What jumpFlipPanelTrigCheck reads of a panel: the player's jump, the panel's state, and whether it
-- flips and for fewer than 25 steps.
pub record Panel : Type 0 where
  pub is_jump_trig_on : Bool
  pub flip_state : Bool
  pub is_flipping : Bool
  pub is_step_early : Bool

unfoldable pub is_flip_wanted : Panels → Panel → Bool
is_flip_wanted s p =
    if not p.is_flipping then (if p.flip_state then not s.state else s.state) else false

-- jumpFlipPanelTrigCheck: its result, the packet that it sends, and the variables behind it. `now` is
-- the tick of the call, and `frequency` the ticks of a second.
unfoldable pub jump_flip_panel_trig_check :
    ℕ → ℕ → Panel → Panels → Bool × Option JumpFlipData × Panels
unfolding is_flip_wanted
jump_flip_panel_trig_check frequency now p s =
    if s.flip_all
    then (true, none, s)
    else (if p.is_jump_trig_on && not (p.is_flipping && p.is_step_early)
        then (if ltb (frequency / 1000 * 32) ((now - s.last_packet) + (s.last_packet - now))
            then (
              true,
              some (record { flip_state = not p.flip_state }),
              record { last_packet = now; state = not p.flip_state; flip_all = true },
            )
            else (is_flip_wanted s p, none, record s { last_packet = now }))
        else (is_flip_wanted s p, none, s))

-- actorExecuteEnd.
unfoldable pub actor_execute_end : Panels → Panels
actor_execute_end s = record s { flip_all = false }

-- handleToC_JumpFlip.
unfoldable pub handle_jump_flip : JumpFlipData → Panels → Panels
handle_jump_flip p s = record s { state = p.flip_state }
