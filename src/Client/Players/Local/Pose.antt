-- ===== src/Client/Players/Local/Pose.antt =====
-- The poses that a game sends of its own player.
use bf_multiplayer.Prelude.{
  ℕ, zero, suc, ◌≤◌, int_max, ◌+◌, ◌/◌, ◌%◌, ◌<◌, ◌≡◌, refl, ap, sym, ◌∙◌, ◌&&◌, ◌||◌, bytes_eqb,
  Bool, true, false, List, [], ◌∷◌, ◌++◌, Option, none, some, arith, length, get_elem?, Bool-cases,
  inl, inr, if◌then◌else◌, ◌==◌, Option-cases,
}
use mathlib.Core.List.{append_assoc, append-nil}
use bf_multiplayer.Packet.{Packet, Vector3f, PuppetPoseData, to_s_puppet_pose}
use bf_multiplayer.Client.Players.Local.{
  LocalPlayer, Seen, Raidon, execute_local, update_local, is_moving, is_pose_due, pose_packets,
  figure_packets, raidon_packets, controller_packets, next_zero_delta, is_figure, is_new_nerve,
}

-- The poses among the packets.
abbrev pub pose_of : Packet × Bool → List PuppetPoseData
pose_of (to_s_puppet_pose p, reliable) = p ∷ []
pose_of (other, reliable) = []

abbrev pub poses_of : List (Packet × Bool) → List PuppetPoseData
poses_of [] = []
poses_of (p ∷ ps) = pose_of p ++ poses_of ps

poses_of-append : (ps qs : List (Packet × Bool)) → poses_of (ps ++ qs) ≡ poses_of ps ++ poses_of qs
poses_of-append [] qs = refl
poses_of-append (p ∷ ps) qs =
    rw (poses_of-append ps qs) (sym (append_assoc (pose_of p) (poses_of ps) (poses_of qs)))

figure_packets-poses : (s : Seen) (l : LocalPlayer) → poses_of (figure_packets s l) ≡ []
unfolding figure_packets
figure_packets-poses s l = elim (Bool-cases (is_figure l.last_figure s.figure)) [
  | inl same ↦ rw same refl
  | inr new ↦ rw new refl
]

raidon_packets-poses : (r : Option Raidon) (l : LocalPlayer) → poses_of (raidon_packets r l) ≡ []
unfolding raidon_packets
raidon_packets-poses none l = refl
raidon_packets-poses (some r) l = elim (Bool-cases (bytes_eqb l.last_raidon_action r.action)) [
  | inl same ↦ rw same refl
  | inr new ↦ rw new refl
]

controller_packets-poses : (s : Seen) (l : LocalPlayer) → poses_of (controller_packets s l) ≡ []
unfolding controller_packets
controller_packets-poses s l = elim (Bool-cases (s.stage == 0)) [
  | inl first ↦ rw first refl
  | inr later ↦ elim (Option-cases s.controller) [
    | inl none_there ↦ rw (later, none_there) refl
    | inr (c, there) ↦
        elim (Bool-cases
          (l.is_host_client && (l.frame_count % 120 == 0 || is_new_nerve l.last_nerve c.nerve))) [
            | inl due ↦ rw (later, there, due) refl
            | inr not_due ↦ rw (later, there, not_due) refl
          ]
  ]
]

other_packets-poses :
    (s : Seen) (l : LocalPlayer)
    → poses_of (figure_packets s l ++ (raidon_packets s.raidon l ++ controller_packets s l)) ≡ []
other_packets-poses s l = rw (poses_of-append (figure_packets s l)) (
    rw (figure_packets-poses s l) (
      rw (poses_of-append (raidon_packets s.raidon l))
        (rw (raidon_packets-poses s.raidon l) (controller_packets-poses s l))))

pose_packets-poses :
    (moving : Bool) (s : Seen) (l : LocalPlayer)
    → poses_of (pose_packets moving s l)
      ≡ (if is_pose_due moving l.frame_count l.frames_with_zero_delta then s.pose ∷ [] else [])
unfolding pose_packets
pose_packets-poses moving s l =
    elim (Bool-cases (is_pose_due moving l.frame_count l.frames_with_zero_delta)) [
      | inl due ↦ rw due refl
      | inr not_due ↦ rw not_due refl
    ]

-- A frame sends the pose that it reads, or none.
execute_local-poses :
    (differs : Vector3f → Vector3f → Bool) (s : Seen) (l : LocalPlayer)
    → poses_of (execute_local differs s l).1 ≡ (
        if is_pose_due (is_moving differs s l) (suc l.frame_count) l.frames_with_zero_delta
        then s.pose ∷ []
        else [])
unfolding execute_local update_local is_moving
execute_local-poses differs s l =
    let c = record l { frame_count = suc l.frame_count } in
    poses_of-append (pose_packets (is_moving differs s c) s c) _
    ∙ ap (λ q. poses_of (pose_packets (is_moving differs s c) s c) ++ q) (other_packets-poses s c)
    ∙ append-nil (poses_of (pose_packets (is_moving differs s c) s c))
    ∙ pose_packets-poses (is_moving differs s c) s c

execute_local-counts :
    (differs : Vector3f → Vector3f → Bool) (s : Seen) (l : LocalPlayer)
    → ((execute_local differs s l).0.frames_with_zero_delta
        ≡ (if is_moving differs s l then 0 else suc l.frames_with_zero_delta % 4294967296))
      × ((execute_local differs s l).0.frame_count ≡ suc l.frame_count)
unfolding execute_local update_local is_moving next_zero_delta
execute_local-counts differs s l = (refl, refl)

-- Frames one after the other, with all that they send.
unfoldable pub run_local :
    (Vector3f → Vector3f → Bool) → List Seen → LocalPlayer → LocalPlayer × List (Packet × Bool)
run_local differs [] l = (l, [])
run_local differs (s ∷ ss) l =
    let now = execute_local differs s l in
    let rest = run_local differs ss now.0 in (rest.0, now.1 ++ rest.1)

-- Whether the player moves is the same in every frame.
abbrev pub Keeps : (Vector3f → Vector3f → Bool) → Bool → List Seen → LocalPlayer → Type 0
Keeps differs moving [] l = Unit {0}
Keeps differs moving (s ∷ ss) l =
    (is_moving differs s l ≡ moving) × Keeps differs moving ss (execute_local differs s l).0

-- The pose of a frame, if there is one.
abbrev pub pose_at : List Seen → ℕ → List PuppetPoseData
pose_at ss n = elim (get_elem? ss n) [ none ↦ [] | some s ↦ s.pose ∷ [] ]

run_local-poses :
    (differs : Vector3f → Vector3f → Bool) (s : Seen) (ss : List Seen) (l : LocalPlayer)
    → poses_of (run_local differs (s ∷ ss) l).1
      ≡ (if is_pose_due (is_moving differs s l) (suc l.frame_count) l.frames_with_zero_delta
          then s.pose ∷ []
          else [])
        ++ poses_of (run_local differs ss (execute_local differs s l).0).1
unfolding run_local
run_local-poses differs s ss l =
    poses_of-append (execute_local differs s l).1 _
    ∙ ap (λ q. q ++ poses_of (run_local differs ss (execute_local differs s l).0).1)
        (execute_local-poses differs s l)

is_pose_due_rest : (c z : ℕ) → is_pose_due false c z ≡ (z == 3)
unfolding is_pose_due
is_pose_due_rest c z = refl

-- A frame of rest.
run_local-rest :
    (differs : Vector3f → Vector3f → Bool) (s : Seen) (ss : List Seen) (l : LocalPlayer)
    → is_moving differs s l ≡ false
    → l.frames_with_zero_delta < int_max
    → (poses_of (run_local differs (s ∷ ss) l).1
        ≡ (if l.frames_with_zero_delta == 3 then s.pose ∷ [] else [])
          ++ poses_of (run_local differs ss (execute_local differs s l).0).1)
      × ((execute_local differs s l).0.frames_with_zero_delta ≡ suc l.frames_with_zero_delta)
run_local-rest differs s ss l still few = (
  run_local-poses differs s ss l ∙ rw still (rw (is_pose_due_rest (suc l.frame_count)) refl),
  (execute_local-counts differs s l).0 ∙ rw still (omega arith),
)

rest_done :
    (differs : Vector3f → Vector3f → Bool) (ss : List Seen) (l : LocalPlayer)
    → Keeps differs false ss l
    → 3 < l.frames_with_zero_delta
    → l.frames_with_zero_delta + length ss ≤ int_max
    → poses_of (run_local differs ss l).1 ≡ []
unfolding run_local
rest_done differs [] l k h few = refl
rest_done differs (s ∷ ss) l k h few =
    let (now, next) = run_local-rest differs s ss l k.0 (omega arith) in
    ground (
      arith,
      now,
      rest_done differs ss (execute_local differs s l).0 k.1 (omega (arith, next))
          (omega (arith, next)),
    )

rest_from :
    (differs : Vector3f → Vector3f → Bool) (ss : List Seen) (l : LocalPlayer) (n : ℕ)
    → Keeps differs false ss l
    → l.frames_with_zero_delta + n ≡ 3
    → l.frames_with_zero_delta + length ss ≤ int_max
    → poses_of (run_local differs ss l).1 ≡ pose_at ss n
unfolding run_local
rest_from differs [] l n k h few = refl
rest_from differs (s ∷ ss) l zero k h few =
    let (now, next) = run_local-rest differs s ss l k.0 (omega arith) in
    ground (
      arith,
      now,
      rest_done differs ss (execute_local differs s l).0 k.1 (omega (arith, next))
          (omega (arith, next)),
    )
rest_from differs (s ∷ ss) l (suc n) k h few =
    let (now, next) = run_local-rest differs s ss l k.0 (omega arith) in
    ground (
      arith,
      now,
      rest_from differs ss (execute_local differs s l).0 n k.1 (omega (arith, next))
          (omega (arith, next)),
    )

-- A player who has just stopped: of the frames at rest only the fourth sends a pose, its own, and
-- there is no other, for a rest of at most as many frames as the largest int.
pub run_local-rest_once :
    (differs : Vector3f → Vector3f → Bool) (ss : List Seen) (l : LocalPlayer)
    → Keeps differs false ss l
    → l.frames_with_zero_delta ≡ 0
    → length ss ≤ int_max
    → poses_of (run_local differs ss l).1 ≡ pose_at ss 3
run_local-rest_once differs ss l k h few = rest_from differs ss l 3 k (omega arith) (omega arith)

length-due :
    (b : Bool) (p : PuppetPoseData) (ps : List PuppetPoseData)
    → length ((if b then p ∷ [] else []) ++ ps) ≡ (if b then 1 else 0) + length ps
length-due true p ps = omega arith
length-due false p ps = omega arith

moving_length :
    (moving : Bool) (z c : ℕ) (p : PuppetPoseData) (ps : List PuppetPoseData)
    → moving ≡ true
    → z ≡ 0
    → length ((if is_pose_due moving c z then p ∷ [] else []) ++ ps)
      ≡ (if c % 6 == 0 then 1 else 0) + length ps
unfolding is_pose_due
moving_length moving z c p ps m h = ground (arith, length-due (is_pose_due moving c z) p ps)

-- A player who moves sends a pose in each frame whose number is divisible by 6, and in no other: of
-- six frames one after the other exactly one sends a pose.
pub run_local-moving :
    (differs : Vector3f → Vector3f → Bool) (ss : List Seen) (l : LocalPlayer)
    → Keeps differs true ss l
    → l.frames_with_zero_delta ≡ 0
    → length (poses_of (run_local differs ss l).1) + l.frame_count / 6
      ≡ (l.frame_count + length ss) / 6
unfolding run_local
run_local-moving differs [] l k h = ground arith
run_local-moving differs (s ∷ ss) l k h =
    let next = execute_local-counts differs s l in
    let ih =
      run_local-moving differs ss (execute_local differs s l).0 k.1 (next.0 ∙ rw (k.0) refl) in
    let now =
      moving_length (is_moving differs s l) l.frames_with_zero_delta (suc l.frame_count) s.pose
        (poses_of (run_local differs ss (execute_local differs s l).0).1) k.0 h in
    ground
      (arith, ap (length {A = PuppetPoseData}) (run_local-poses differs s ss l), now, ih, next.1)
