-- ===== src/Client/Progress/Counter.antt =====
-- The counter of goal items in the game.
use bf_multiplayer.Prelude.{
  ◌≡◌, refl, ◌∙◌, Bool, true, false, ℤ, pos, negsuc, ◌-ℤ◌, ◌+ℤ◌, List, [], ◌∷◌, ◌++◌, Option, some,
  if◌then◌else◌, arith, Bool-cases, inl, inr, ok,
}
use bf_multiplayer.Client.Progress.{
  SingleModeData, Game, GoalItem, queue_shine_counter_update, end_instantly, GoalItemInfo, Call,
  in_scene, update_goal_items, disaster_calls, handle_goal_item_info, guarded, find_shine,
  shine_calls,
}

-- What the two functions of the game do to the counter.
pub record CountsScenarios (g : Game) : Type 0 where
  pub completed :
      (island shine : ℤ) (d : SingleModeData)
      → (g.complete_scenario island shine d).num_goal_items ≡ d.num_goal_items +ℤ pos 1
  pub passed :
      (island shine : ℤ) (d : SingleModeData)
      → (g.set_goal_item_checkpoint_pass island shine d).num_goal_items ≡ d.num_goal_items

predecessor : (n : ℤ) → (n -ℤ pos 1) +ℤ pos 1 ≡ n
predecessor (pos n) = ground arith
predecessor (negsuc n) = ground arith

-- What the handler returns for a new shine.
abbrev collected :
    Game
    → List (Option GoalItem)
    → Bool
    → GoalItemInfo
    → SingleModeData
    → SingleModeData × List Call
collected g actors is_disaster p d = (
  g.set_goal_item_checkpoint_pass p.island_id p.shine_id (
      g.complete_scenario (p.island_id -ℤ pos 1) (p.shine_id -ℤ pos 1)
        (record d { num_goal_items = p.num_collected_goal_items -ℤ pos 1 })),
  shine_calls (find_shine p.island_id p.shine_id actors)
      ++ queue_shine_counter_update true ∷ (if is_disaster then end_instantly ∷ [] else []),
)

-- In a scene with actors and a disaster controller, where completeScenario adds one to the counter
-- and the checkpoint leaves it, the handler succeeds, and the counter is then
-- the packet's, whether the shine is new or not.
pub handle_goal_item_info-num_collected :
    (g : Game) (actors : List (Option GoalItem)) (is_disaster : Bool) (p : GoalItemInfo)
    (d : SingleModeData)
    → CountsScenarios g
    → (r : SingleModeData × List Call) × (handle_goal_item_info g in_scene
          (some actors)
          (some is_disaster)
          p
          d
        ≡ ok r)
      × (r.0.num_goal_items ≡ p.num_collected_goal_items)
unfolding handle_goal_item_info guarded update_goal_items disaster_calls
handle_goal_item_info-num_collected g actors is_disaster p d c =
    elim (Bool-cases p.is_collect_new_shine) [
      | inl new ↦ (collected g actors is_disaster p d, rw new refl, counted)
      | inr old ↦ (
        (
          record d { num_goal_items = p.num_collected_goal_items },
          queue_shine_counter_update false ∷ [],
        ),
        rw old refl,
        refl,
      )
    ]
  where
    counted : (collected g actors is_disaster p d).0.num_goal_items ≡ p.num_collected_goal_items
    counted = c.passed _ _ _ ∙ c.completed _ _ _ ∙ predecessor p.num_collected_goal_items
