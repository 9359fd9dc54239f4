-- ===== src/Client/World/Packets.antt =====
-- The packets of the islands and shines that a game is sent, through its handlers.
use bf_multiplayer.Prelude.{
  ℕ, ◌≡◌, refl, false, ℤ, List, [], ◌∷◌, ◌++◌, map, Option, some, arith, length, replicate, inl,
  inr, Result-cases, Result, ok, err, ◌>>=◌,
}
use bf_multiplayer.Packet.{Packet}
use bf_multiplayer.Server.SaveData.{GoalItemCollectData, ServerSaveData}
use bf_multiplayer.Server.Handlers.{scenario_packet, goal_item_packet}
use bf_multiplayer.Client.Progress.{
  in_scene, guarded, Island, GoalItem, handle_scenario_update, handle_goal_item_info,
  update_goal_items, set_scenario, queue_shine_counter_update,
}
use bf_multiplayer.Client.MapEvents.{Saves}
use bf_multiplayer.Client.World.{
  World, Setting, Reading, handle, handle_all, receive_goal_item_info, receive_goal_item,
}
use bf_multiplayer.Client.World.Islands.{scenario_data, set_scenarios}
use mathlib.Core.List.{append-nil, append_assoc}

-- The counter behind the packets of some shines.
abbrev pub counter : ServerSaveData → List GoalItemCollectData → ℤ → ℤ
counter d [] n = n
counter d (g ∷ gs) n = d.num_collected_goal_items

counter_again :
    (d : ServerSaveData) (gs : List GoalItemCollectData)
    → counter d gs d.num_collected_goal_items ≡ d.num_collected_goal_items
counter_again d [] = refl
counter_again d (g ∷ gs) = refl

-- What a packet of a known shine leaves behind.
abbrev counted : {v : Saves} → ServerSaveData → World v → World v
counted {v} d w = record w {
  progress = record (w.progress) {
    single_mode = record (w.progress.single_mode) { num_goal_items = d.num_collected_goal_items };
  };
  calls = w.calls ++ queue_shine_counter_update false ∷ [];
}

abbrev pub counted_all : {v : Saves} → ServerSaveData → List GoalItemCollectData → World v → World v
counted_all d gs w = record w {
  progress = record (w.progress) {
    single_mode = record (w.progress.single_mode) {
      num_goal_items = counter d gs w.progress.single_mode.num_goal_items;
    };
  };
  calls = w.calls ++ replicate (length gs) (queue_shine_counter_update false);
}

module _ (v : Saves) (k : Setting) (r : Reading) where
  pub handle_all-append :
      (ps qs : List Packet) (w : World v)
      → handle_all v k r (ps ++ qs) w ≡ (handle_all v k r ps w >>= handle_all v k r qs)
  unfolding handle_all
  handle_all-append [] qs w = refl
  handle_all-append (p ∷ ps) qs w = after (handle v k r p w) (handle_all-append ps qs)
    where
      after :
          (m : Result (World v))
          → ((w' : World v)
              → handle_all v k r (ps ++ qs) w' ≡ (handle_all v k r ps w' >>= handle_all v k r qs))
          → (m >>= handle_all v k r (ps ++ qs))
            ≡ ((m >>= handle_all v k r ps) >>= handle_all v k r qs)
      after (ok w') rest = rest w'
      after (err e) rest = refl

  handle-scenario :
      (name : List ℕ) (scenario : ℤ) (w : World v) (is : List Island)
      → w.situation ≡ in_scene
      → set_scenario (scenario_data name scenario) w.islands ≡ ok is
      → handle v k r (scenario_packet (name, scenario)) w ≡ ok (record w { islands = is })
  unfolding handle scenario_packet handle_scenario_update guarded
  handle-scenario name scenario w is s h = ground arith

  pub handle_all-scenarios :
      (es : List (List ℕ × ℤ)) (w : World v) (is : List Island)
      → w.situation ≡ in_scene
      → set_scenarios es w.islands ≡ ok is
      → handle_all v k r (map scenario_packet es) w ≡ ok (record w { islands = is })
  unfolding handle_all set_scenarios
  handle_all-scenarios [] w is s h = ground arith
  handle_all-scenarios ((name, scenario) ∷ es) w is s h =
      elim (Result-cases (set_scenario (scenario_data name scenario) w.islands)) [
        | inl (js, e) ↦
            rw (handle-scenario name scenario w js s e)
              (handle_all-scenarios es (record w { islands = js }) is s (ground arith))
        | inr (e, f) ↦ ground arith
      ]

  handle-goal_item :
      (d : ServerSaveData) (g : GoalItemCollectData) (w : World v) (items : List (Option GoalItem))
      → w.situation ≡ in_scene
      → w.goal_items ≡ some items
      → handle v k r (goal_item_packet d g) w ≡ ok (counted d w)
  unfolding handle receive_goal_item_info goal_item_packet handle_goal_item_info guarded
      update_goal_items receive_goal_item
  handle-goal_item d g w items s h = ground arith

  pub handle_all-goal_items :
      (d : ServerSaveData) (gs : List GoalItemCollectData) (w : World v)
      (items : List (Option GoalItem))
      → w.situation ≡ in_scene
      → w.goal_items ≡ some items
      → handle_all v k r (map (goal_item_packet d) gs) w ≡ ok (counted_all d gs w)
  unfolding handle_all
  handle_all-goal_items d [] w items s h = rw append-nil refl
  handle_all-goal_items d (g ∷ gs) w items s h = rw (handle-goal_item d g w items s h) (
      rw (handle_all-goal_items d gs (counted d w) items s h)
        (rw (counter_again d gs, append_assoc w.calls) refl))
