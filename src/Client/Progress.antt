-- ===== src/Client/Progress.antt =====
-- src/pe/Multiplayer/GoalItemSync.cpp: the shared progress of the game. The functions of the game's
-- own program are the fields of `Game`. The status text and the logs are left out.
pub mod Phases
pub mod Counter
use bf_multiplayer.Prelude.{
  ℕ, ◌≡◌, Bool, true, false, not, ◌&&◌, ℤ, pos, ◌-ℤ◌, eqb_ℤ, List, [], ◌∷◌, ◌++◌, Option, none,
  some, ◌==◌, if◌then◌else◌, Result, ok, err, null_pointer, overread, ◌>>=◌,
}
use bf_multiplayer.Packet.{Packet, PhaseUnlockData, ScenarioUpdateData, to_s_phase_unlock}

-- How far a handler comes with its tests of the manager, the sequence and the scene.
pub data Situation : Type 0 where
  no_manager no_sequence wrong_nerve no_scene in_scene : Situation

-- The tests that begin each handler. Without a manager the code warns and reads through the null
-- pointer.
unfoldable pub guarded : {A : Type 0} → Situation → A → Result A → Result A
guarded no_manager old run = err null_pointer
guarded no_sequence old run = ok old
guarded wrong_nerve old run = ok old
guarded no_scene old run = ok old
guarded in_scene old run = run

-- The members of SingleModeData that are shared.
pub record SingleModeData : Type 0 where
  pub num_goal_items : ℤ
  pub unlocked_phase : ℤ
  pub is_phase_end : Bool
  pub is_new_to_phase1 : Bool
  pub is_new_to_phase2 : Bool
  pub is_new_to_phase3 : Bool
  pub is_new_to_phase4 : Bool
  pub is_new_to_phase2_boss : Bool
  pub is_new_to_phase3_boss : Bool
  pub is_new_to_phase1_bowser_intro : Bool
  pub is_new_to_phase2_bowser_intro : Bool
  pub is_new_to_phase3_bowser_intro : Bool
  pub is_new_to_phase1_bowser_exit : Bool
  pub is_new_to_phase2_bowser_exit : Bool
  pub is_new_to_phase3_bowser_exit : Bool
  pub phase1_dark_bowser_hit_point : ℤ
  pub phase2_dark_bowser_hit_point : ℤ
  pub phase3_dark_bowser_hit_point : ℤ
  pub phase4_dark_bowser_hit_point : ℤ
  pub phase4_dark_bowser_hit_point_final : ℤ
  pub phase3_dark_bowser_hit_point_pre_battle : ℤ
  pub phase4_dark_bowser_hit_point_pre_battle : ℤ

-- SingleModeDataFunction of the game.
pub record Game : Type 0 where
  pub set_unlocked_phase : ℤ → SingleModeData → SingleModeData
  pub set_phase_end : Bool → SingleModeData → SingleModeData
  pub complete_scenario : ℤ → ℤ → SingleModeData → SingleModeData
  pub set_goal_item_checkpoint_pass : ℤ → ℤ → SingleModeData → SingleModeData

-- makePhaseUnlockPacketData, which leaves bossDefeatedFlag without a value.
unfoldable pub make_phase_unlock_packet_data : SingleModeData → Bool → PhaseUnlockData
make_phase_unlock_packet_data d is_end = record {
  unlocked_phase = d.unlocked_phase;
  end_current_phase = is_end;
  boss_defeated_flag = none;
  is_new_to_phase1 = d.is_new_to_phase1;
  is_new_to_phase2 = d.is_new_to_phase2;
  is_new_to_phase3 = d.is_new_to_phase3;
  is_new_to_phase4 = d.is_new_to_phase4;
  is_new_to_phase2_boss = d.is_new_to_phase2_boss;
  is_new_to_phase3_boss = d.is_new_to_phase3_boss;
  is_new_to_phase1_bowser_intro = d.is_new_to_phase1_bowser_intro;
  is_new_to_phase2_bowser_intro = d.is_new_to_phase2_bowser_intro;
  is_new_to_phase3_bowser_intro = d.is_new_to_phase3_bowser_intro;
  is_new_to_phase1_bowser_exit = d.is_new_to_phase1_bowser_exit;
  is_new_to_phase2_bowser_exit = d.is_new_to_phase2_bowser_exit;
  is_new_to_phase3_bowser_exit = d.is_new_to_phase3_bowser_exit;
  phase1_dark_bowser_hit_point = d.phase1_dark_bowser_hit_point;
  phase2_dark_bowser_hit_point = d.phase2_dark_bowser_hit_point;
  phase3_dark_bowser_hit_point = d.phase3_dark_bowser_hit_point;
  phase4_dark_bowser_hit_point = d.phase4_dark_bowser_hit_point;
  phase4_dark_bowser_hit_point_final = d.phase4_dark_bowser_hit_point_final;
  phase3_dark_bowser_hit_point_pre_battle = d.phase3_dark_bowser_hit_point_pre_battle;
  phase4_dark_bowser_hit_point_pre_battle = d.phase4_dark_bowser_hit_point_pre_battle;
}

-- What the handlers and hooks share: the data, sIsPhaseHookEnabled, whether there is a client to
-- send with, and the packets given to it, oldest first.
pub record Progress : Type 0 where
  pub single_mode : SingleModeData
  pub is_phase_hook_enabled : Bool
  pub has_client : Bool
  pub sent : List Packet

-- setPhaseEnd of the game with setPhaseEndHook around it.
unfoldable pub set_phase_end_hook : Game → Bool → Progress → Progress
unfolding make_phase_unlock_packet_data
set_phase_end_hook g is_end w =
    let d = g.set_phase_end is_end w.single_mode in
    record w {
      single_mode = d;
      sent =
          if w.is_phase_hook_enabled && w.has_client
          then w.sent ++ to_s_phase_unlock (make_phase_unlock_packet_data d is_end) ∷ []
          else w.sent;
    }

-- The assignments of handleToC_PhaseUnlock.
unfoldable pub copy_phase_unlock : PhaseUnlockData → SingleModeData → SingleModeData
copy_phase_unlock p d = record d {
  is_new_to_phase1 = p.is_new_to_phase1;
  is_new_to_phase2 = p.is_new_to_phase2;
  is_new_to_phase3 = p.is_new_to_phase3;
  is_new_to_phase4 = p.is_new_to_phase4;
  is_new_to_phase2_boss = p.is_new_to_phase2_boss;
  is_new_to_phase3_boss = p.is_new_to_phase3_boss;
  is_new_to_phase1_bowser_intro = p.is_new_to_phase1_bowser_intro;
  is_new_to_phase2_bowser_intro = p.is_new_to_phase2_bowser_intro;
  is_new_to_phase3_bowser_intro = p.is_new_to_phase3_bowser_intro;
  is_new_to_phase1_bowser_exit = p.is_new_to_phase1_bowser_exit;
  is_new_to_phase2_bowser_exit = p.is_new_to_phase2_bowser_exit;
  is_new_to_phase3_bowser_exit = p.is_new_to_phase3_bowser_exit;
  phase1_dark_bowser_hit_point = p.phase1_dark_bowser_hit_point;
  phase2_dark_bowser_hit_point = p.phase2_dark_bowser_hit_point;
  phase3_dark_bowser_hit_point = p.phase3_dark_bowser_hit_point;
  phase4_dark_bowser_hit_point = p.phase4_dark_bowser_hit_point;
  phase4_dark_bowser_hit_point_final = p.phase4_dark_bowser_hit_point_final;
  phase3_dark_bowser_hit_point_pre_battle = p.phase3_dark_bowser_hit_point_pre_battle;
  phase4_dark_bowser_hit_point_pre_battle = p.phase4_dark_bowser_hit_point_pre_battle;
}

-- `if (!sData->mIsPhaseEnd) setPhaseEnd(...)`, where the Bool is mIsPhaseEnd.
unfoldable pub end_phase : Game → Bool → Bool → Progress → Progress
unfolding set_phase_end_hook
end_phase g true is_end w = w
end_phase g false is_end w = set_phase_end_hook g is_end w

-- handleToC_PhaseUnlock, with the hook switched off around the calls of the game.
unfoldable pub unlock_phase : Game → PhaseUnlockData → Progress → Progress
unfolding copy_phase_unlock end_phase
unlock_phase g p w =
    let d = g.set_unlocked_phase p.unlocked_phase (copy_phase_unlock p w.single_mode) in
    let off = record w { single_mode = d; is_phase_hook_enabled = false } in
    record (end_phase g d.is_phase_end p.end_current_phase off) { is_phase_hook_enabled = true }

unfoldable pub handle_phase_unlock : Game → Situation → PhaseUnlockData → Progress → Result Progress
unfolding guarded unlock_phase
handle_phase_unlock g at_scene p w = guarded at_scene w (ok (unlock_phase g p w))

-- A GoalItem among the actors: what the handler reads of it.
pub record GoalItem : Type 0 where
  pub island_id : ℤ
  pub id : ℤ
  pub is_dead : Bool
  pub has_lighthouse : Bool
  pub has_ink_patch : Bool

-- The data of a goal item packet, each of its members received.
pub record GoalItemInfo : Type 0 where
  pub num_collected_goal_items : ℤ
  pub is_collect_new_shine : Bool
  pub island_id : ℤ
  pub shine_id : ℤ

-- What the handler asks of the actors and of the manager. `complete_lighthouse` stands for the five
-- calls on the shine's lighthouse.
pub data Call : Type 0 where
  kill_shine : GoalItem → Call
  complete_lighthouse : ℤ → Call
  disappear_ink_patch : Call
  queue_shine_counter_update : Bool → Call
  end_instantly : Call

-- The loop over the actors: the last goal item with both numbers. An actor that is none is `none`.
unfoldable pub find_shine : ℤ → ℤ → List (Option GoalItem) → Option GoalItem
find_shine island shine [] = none
find_shine island shine (none ∷ actors) = find_shine island shine actors
find_shine island shine (some a ∷ actors) =
    let this = if eqb_ℤ a.island_id island && eqb_ℤ a.id shine then some a else none in
    let later = find_shine island shine actors in elim later [ none ↦ this | some b ↦ some b ]

-- What is done with the shine's actor.
unfoldable pub shine_calls : Option GoalItem → List Call
shine_calls none = []
shine_calls (some a) =
    (if a.is_dead then [] else kill_shine a ∷ [])
    ++ (if a.has_lighthouse then complete_lighthouse a.id ∷ [] else [])
    ++ (if a.has_ink_patch then disappear_ink_patch ∷ [] else [])

-- The nerve of the disaster controller, which the code reads without a test of the pointer:
-- `none` when there is no controller, else whether its nerve is Disaster.
unfoldable pub disaster_calls : Option Bool → Result (List Call)
disaster_calls none = err null_pointer
disaster_calls (some is_disaster) = ok (if is_disaster then end_instantly ∷ [] else [])

-- handleToC_GoalItemInfo behind its tests.
unfoldable pub update_goal_items :
    Game
    → List (Option GoalItem)
    → Option Bool
    → GoalItemInfo
    → SingleModeData
    → Result (SingleModeData × List Call)
unfolding find_shine shine_calls disaster_calls
update_goal_items g actors controller p d =
    if p.is_collect_new_shine
    then (disaster_calls controller >>= λ ends. ok (
      g.set_goal_item_checkpoint_pass p.island_id p.shine_id (
          g.complete_scenario (p.island_id -ℤ pos 1) (p.shine_id -ℤ pos 1)
            (record d { num_goal_items = p.num_collected_goal_items -ℤ pos 1 })),
      shine_calls (find_shine p.island_id p.shine_id actors)
          ++ queue_shine_counter_update true ∷ ends,
    ))
    else ok (
      record d { num_goal_items = p.num_collected_goal_items },
      queue_shine_counter_update false ∷ [],
    )

-- handleToC_GoalItemInfo; `actors` is `none` when the scene has no actors.
unfoldable pub handle_goal_item_info :
    Game
    → Situation
    → Option (List (Option GoalItem))
    → Option Bool
    → GoalItemInfo
    → SingleModeData
    → Result (SingleModeData × List Call)
unfolding guarded update_goal_items
handle_goal_item_info g at_scene none controller p d = guarded at_scene (d, []) (ok (d, []))
handle_goal_item_info g at_scene (some actors) controller p d =
    guarded at_scene (d, []) (update_goal_items g actors controller p d)

-- al::isEqualString of an array of bytes with a C string of the game, given without its end.
unfoldable pub is_equal_string : List ℕ → List ℕ → Result Bool
is_equal_string [] name = err overread
is_equal_string (b ∷ bs) [] = ok (b == 0)
is_equal_string (b ∷ bs) (n ∷ ns) =
    let rest = is_equal_string bs ns in if b == n then rest else ok false

-- An IslandHolder, and the last arguments that setScenarioID got.
pub record Island : Type 0 where
  pub name : List ℕ
  pub scenario : Option (ℤ × Option Bool)

-- The loop over the islands, up to the first with the packet's name.
unfoldable pub set_scenario : ScenarioUpdateData → List Island → Result (List Island)
unfolding is_equal_string
set_scenario p [] = ok []
set_scenario p (i ∷ is) =
    let rest = set_scenario p is in
    (is_equal_string p.island_name i.name >>= λ same.
    if same
    then ok (record i { scenario = some (p.scenario, p.unk) } ∷ is)
    else (rest >>= λ js. ok (i ∷ js)))

-- handleToC_ScenarioUpdate.
unfoldable pub handle_scenario_update :
    Situation → ScenarioUpdateData → List Island → Result (List Island)
unfolding guarded set_scenario
handle_scenario_update at_scene p is = guarded at_scene is (set_scenario p is)
