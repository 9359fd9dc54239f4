-- ===== src/Client/Tests/Moves.antt =====
-- The theorems about what moves in the game: the objects of the map by the clock, the puppets and the
-- player's own pose.
use bf_multiplayer.Prelude.{
  ℕ, ◌==◌, ◌+◌, ◌*◌, ◌%◌, ◌<◌, ◌≡◌, refl, Bool, true, false, List, [], ◌∷◌, none, some, ok, arith,
  length, take, get_elem?,
}
use Prim.Native.Nat.{compare, Ordering}
use bf_multiplayer.Packet.{zero_uid, Vector3f, PuppetPoseData, anim}
use bf_multiplayer.Client.MapObj.Clock.{
  ClockMapPartsNet, get_total_cycle_time, get_current_nerve_by_clock, rotate_parts,
  frames_into_cycle, nerve_at, rotate_parts, cycles_over, rotate_parts_bounds,
}
use bf_multiplayer.Client.MapObj.KeyMove.{
  KeyPose, calc_key_pose_frames, calc_key_pose_frames_total, calc_cur_key_pose_idx_by_sync_clock,
  calc_progress, calc_cur_key_pose_idx_by_sync_clock_lem,
}
use bf_multiplayer.Client.Players.{
  QueueEntry, Manager, handle_player_list_packet, handle_puppet_pose_packet, new_player,
}
use bf_multiplayer.Client.Players.Queue.{run_frames, actions, count, run_frames-count_all}
use bf_multiplayer.Client.Players.Poses.{ArePaced, handle_puppet_pose_packet-ArePaced}
use bf_multiplayer.Client.Players.Local.{LocalPlayer, Seen, is_moving, execute_local}
use bf_multiplayer.Client.Players.Local.Pose.{
  Keeps, poses_of, pose_at, run_local, run_local-rest_once,
}
use bf_multiplayer.Client.Tests.Events.{manager, entry_of_user}

abbrev poses : List KeyPose
poses = record { wait_time = 30; move_time = 60 } ∷ record { wait_time = 10; move_time = 50 } ∷ []

calc_cur_key_pose_idx_by_sync_clock_lem_example :
    (n : ℕ) × (p : KeyPose) × (into : ℕ) × (calc_cur_key_pose_idx_by_sync_clock 1000 poses
      ≡ ok (n, into))
    × (get_elem? poses n ≡ some p)
    × (into < calc_key_pose_frames p)
    × (calc_key_pose_frames_total (take n poses) + into ≡ 1000 % calc_key_pose_frames_total poses)
    × ((calc_progress into p).0 < (calc_progress into p).1)
calc_cur_key_pose_idx_by_sync_clock_lem_example =
    calc_cur_key_pose_idx_by_sync_clock_lem 1000 poses
      (unfold calc_key_pose_frames_total in omega arith)

abbrev gear : ClockMapPartsNet
gear = record { wait_time = 60; rotate_sign_time = 20; rotate_time = 40; delay_time = 5 }

rotate_parts_bounds_example :
    (parts : ℕ) × (rotate_parts gear 220 221 ≡ ok parts)
    × (cycles_over gear 221 * 40 < parts)
    × (parts < (cycles_over gear 221 + 1) * 40)
rotate_parts_bounds_example =
    rotate_parts_bounds gear 219 220 221 (unfold get_total_cycle_time in omega arith) (omega arith)
      (unfold cycles_over get_total_cycle_time in refl)
      (unfold cycles_over get_total_cycle_time in refl)
      (unfold get_current_nerve_by_clock frames_into_cycle nerve_at get_total_cycle_time in refl)

abbrev entry : ℕ → QueueEntry
entry n = record { action = record { type = anim; action = b'A' ∷ [] }; frames_left = n }

run_frames-count_all_example :
    ((run_frames 12 (entry 6 ∷ entry 6 ∷ [])).1 ≡ [])
    × (count (λ a. length a.action == 1) (run_frames 12 (entry 6 ∷ entry 6 ∷ [])).0
        ≡ count (λ a. length a.action == 1) (actions (entry 6 ∷ entry 6 ∷ [])))
run_frames-count_all_example =
    run_frames-count_all (λ a. length a.action == 1) 12 (entry 6 ∷ entry 6 ∷ []) (omega arith)
      (omega arith)

abbrev point : ℕ → Vector3f
point n = record { x = n; y = 0; z = 0 }

abbrev pose : ℕ → PuppetPoseData
pose n = record {
  trans = point n;
  quat = record { x = 0; y = 0; z = 0; w = 0 };
  anim_rate = 0;
  blend_weights = [];
  is_surfing_raidon = false;
}

abbrev paced : Manager
paced = record manager { players = new_player 1000 (entry_of_user 2) ∷ [] }

paced-ArePaced : ArePaced 1000 paced.players
unfolding new_player
paced-ArePaced = omega arith

handle_puppet_pose_packet-ArePaced_example :
    ArePaced 1000 (handle_player_list_packet 1000 zero_uid (entry_of_user 1 ∷ []) manager).players
    × ArePaced 1000
        (handle_puppet_pose_packet 1000 400 zero_uid true
          (record { uid = (entry_of_user 2).user; packet_data = pose 4 })
          paced).players
handle_puppet_pose_packet-ArePaced_example =
    handle_puppet_pose_packet-ArePaced 1000 400 zero_uid true
      (record { uid = (entry_of_user 2).user; packet_data = pose 4 }) (entry_of_user 1 ∷ []) paced
      manager paced-ArePaced

-- Whether the places differ, for places on a line.
abbrev apart : Vector3f → Vector3f → Bool
apart a b = elim (compare a.x b.x) [ Ordering.eq ↦ false | _ ↦ true ]

abbrev seen : ℕ → Seen
seen n = record {
  trans = point n;
  rotate = point 0;
  raidon = none;
  pose = pose n;
  figure = 1;
  stage = 0;
  controller = none;
}

abbrev standing : LocalPlayer
standing = record {
  frame_count = 100;
  frames_with_zero_delta = 0;
  last_trans = point 3;
  last_rotate = point 0;
  last_figure = some 1;
  last_raidon_action = [];
  last_nerve = none;
  is_host_client = false;
}

stands : Keeps apart false (seen 3 ∷ seen 3 ∷ seen 3 ∷ seen 3 ∷ seen 3 ∷ []) standing
unfolding is_moving execute_local
stands = (refl, (refl, (refl, (refl, (refl, tt)))))

run_local-rest_once_example :
    poses_of (run_local apart (seen 3 ∷ seen 3 ∷ seen 3 ∷ seen 3 ∷ seen 3 ∷ []) standing).1
    ≡ pose_at (seen 3 ∷ seen 3 ∷ seen 3 ∷ seen 3 ∷ seen 3 ∷ []) 3
run_local-rest_once_example =
    run_local-rest_once apart (seen 3 ∷ seen 3 ∷ seen 3 ∷ seen 3 ∷ seen 3 ∷ []) standing stands refl
      (omega arith)
