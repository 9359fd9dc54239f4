-- ===== src/Client/Players/Local.antt =====
-- PlayerData::updateLocal (src/pe/Multiplayer/PlayerData.cpp): what the game tells the server of its
-- own player in each frame.
pub mod Pose
use bf_multiplayer.Prelude.{
  ℕ, zero, suc, ◌+◌, ◌%◌, ◌≡◌, Bool, true, false, not, ◌&&◌, ◌||◌, List, [], ◌∷◌, ◌++◌, Option,
  none, some, ◌==◌, if◌then◌else◌, bytes_eqb,
}
use bf_multiplayer.Packet.{
  Packet, Vector3f, PuppetPoseData, ActionType, raidon_anim, to_s_puppet_pose,
  to_s_player_figure_change, to_s_action, to_s_disaster_mode_controller_internal_update,
}
use bf_multiplayer.Server.Handlers.{strncpy}
use bf_multiplayer.Client.Players.{pose_packet_interval}
use bf_multiplayer.Client.Disaster.{Controller, controller_packet}

-- The members of PlayerData that updateLocal uses. A nerve is the offset of its address, `none` for a
-- null pointer, and `last_figure` is `none` for EPlayerFigure::None.
pub record LocalPlayer : Type 0 where
  pub frame_count : ℕ
  pub frames_with_zero_delta : ℕ
  pub last_trans : Vector3f
  pub last_rotate : Vector3f
  pub last_figure : Option ℕ
  pub last_raidon_action : List ℕ
  pub last_nerve : Option ℕ
  pub is_host_client : Bool

-- The raidon that the player surfs on: its place, its rotation and its action.
pub record Raidon : Type 0 where
  pub trans : Vector3f
  pub rotate : Vector3f
  pub action : List ℕ

-- What a frame reads of the game. `raidon` is there when the player surfs on one.
pub record Seen : Type 0 where
  pub trans : Vector3f
  pub rotate : Vector3f
  pub raidon : Option Raidon
  pub pose : PuppetPoseData
  pub figure : ℕ
  pub stage : ℕ
  pub controller : Option Controller

-- The test before the pose packet.
unfoldable pub is_pose_due : Bool → ℕ → ℕ → Bool
is_pose_due moving frame_count frames_with_zero_delta =
    (moving && frame_count % pose_packet_interval == 0) || frames_with_zero_delta == 3

-- mFramesWithZeroDelta behind the test, an int of 32 bits that wraps around.
unfoldable pub next_zero_delta : Bool → ℕ → ℕ
next_zero_delta moving frames = if moving then 0 else suc frames % 4294967296

abbrev pub place : Seen → Vector3f
place s = elim s.raidon [ none ↦ s.trans | some r ↦ r.trans ]

abbrev pub rotation : Seen → Vector3f
rotation s = elim s.raidon [ none ↦ s.rotate | some r ↦ r.rotate ]

-- `moving`. `differs` compares three pairs of floats: whether one of the distances is more than 1.
unfoldable pub is_moving : (Vector3f → Vector3f → Bool) → Seen → LocalPlayer → Bool
is_moving differs s l = differs l.last_trans (place s) || differs l.last_rotate s.rotate

-- The packets of one frame, each with whether it is reliable.
unfoldable pub pose_packets : Bool → Seen → LocalPlayer → List (Packet × Bool)
unfolding is_pose_due
pose_packets moving s l =
    if is_pose_due moving l.frame_count l.frames_with_zero_delta
    then (to_s_puppet_pose s.pose, false) ∷ []
    else []

abbrev pub is_figure : Option ℕ → ℕ → Bool
is_figure none figure = false
is_figure (some f) figure = f == figure

-- The figure is sent as a byte.
unfoldable pub figure_packets : Seen → LocalPlayer → List (Packet × Bool)
figure_packets s l =
    if is_figure l.last_figure s.figure
    then []
    else (to_s_player_figure_change (record { player_figure = s.figure % 256 }), true) ∷ []

unfoldable pub raidon_packets : Option Raidon → LocalPlayer → List (Packet × Bool)
unfolding bytes_eqb
raidon_packets none l = []
raidon_packets (some r) l =
    if bytes_eqb l.last_raidon_action r.action
    then []
    else (to_s_action (record { type = raidon_anim; action = strncpy 127 r.action }), true) ∷ []

unfoldable pub is_new_nerve : Option ℕ → ℕ → Bool
is_new_nerve none n = true
is_new_nerve (some m) n = not (m == n)

-- The end of updateLocal, with the packet of the host.
unfoldable pub controller_packets : Seen → LocalPlayer → List (Packet × Bool)
unfolding is_new_nerve
controller_packets s l = if s.stage == 0 then [] else elim s.controller [
  | none ↦ []
  | some c ↦
      if l.is_host_client && (l.frame_count % 120 == 0 || is_new_nerve l.last_nerve c.nerve)
      then (to_s_disaster_mode_controller_internal_update (controller_packet c l.last_nerve), true)
        ∷ []
      else []
]

unfoldable pub next_nerve : Seen → LocalPlayer → Option ℕ
next_nerve s l =
    if s.stage == 0
    then l.last_nerve
    else elim s.controller [ none ↦ l.last_nerve | some c ↦ some c.nerve ]

-- updateLocal, for a player whose actor is there.
unfoldable pub update_local :
    (Vector3f → Vector3f → Bool) → Seen → LocalPlayer → LocalPlayer × List (Packet × Bool)
unfolding is_moving pose_packets figure_packets raidon_packets controller_packets next_nerve
    next_zero_delta
update_local differs s l =
    let moving = is_moving differs s l in
    (
      record l {
        frames_with_zero_delta = next_zero_delta moving l.frames_with_zero_delta;
        last_trans = place s;
        last_rotate = rotation s;
        last_figure = some s.figure;
        last_raidon_action = elim s.raidon [ none ↦ l.last_raidon_action | some r ↦ r.action ];
        last_nerve = next_nerve s l;
      },
      pose_packets moving s l
          ++ (figure_packets s l ++ (raidon_packets s.raidon l ++ controller_packets s l)),
    )

-- A frame of MultiplayerManager::execute for the player's own object: PlayerData::update counts it,
-- below the largest int, and updateLocal follows.
unfoldable pub execute_local :
    (Vector3f → Vector3f → Bool) → Seen → LocalPlayer → LocalPlayer × List (Packet × Bool)
unfolding update_local
execute_local differs s l = update_local differs s (record l { frame_count = suc l.frame_count })
