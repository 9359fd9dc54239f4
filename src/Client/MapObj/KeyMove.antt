-- ===== src/Client/MapObj/KeyMove.antt =====
-- src/pe/Multiplayer/MapObj/KeyMoveMapPartsNet.cpp: a platform that goes from one key pose to the
-- next. The times of a pose are read from the placement and from the game's own program; they are
-- numbers of frames, and not negative.
use bf_multiplayer.Prelude.{
  ℕ, suc, ◌+◌, ◌-◌, ◌%◌, ◌≤◌, ◌<◌, ◌≡◌, refl, List, [], ◌∷◌, some, leb, ltb, ◌&&◌, ◌==◌,
  if◌then◌else◌, arith, take, get_elem?, Result, ok, err, zero_divisor, Bool-cases, inl, inr,
}

pub record KeyPose : Type 0 where
  pub wait_time : ℕ
  pub move_time : ℕ

-- calcKeyPoseFrames.
unfoldable pub calc_key_pose_frames : KeyPose → ℕ
calc_key_pose_frames p = p.wait_time + p.move_time

-- calcKeyPoseFramesTotal.
unfoldable pub calc_key_pose_frames_total : List KeyPose → ℕ
unfolding calc_key_pose_frames
calc_key_pose_frames_total [] = 0
calc_key_pose_frames_total (p ∷ ps) = calc_key_pose_frames p + calc_key_pose_frames_total ps

-- The loop of calcCurKeyPoseIdxBySyncClock from the pose `i` on: the index that it returns and
-- `*framesIntoPose`, which is 0 before. A loop that finds no pose leaves both at 0.
unfoldable pub find_key_pose : ℕ → ℕ → ℕ → List KeyPose → ℕ × ℕ
unfolding calc_key_pose_frames
find_key_pose frames i sum [] = (0, 0)
find_key_pose frames i sum (p ∷ ps) =
    let rest = find_key_pose frames (suc i) (sum + calc_key_pose_frames p) ps in
    if leb sum frames && ltb frames (sum + calc_key_pose_frames p) then (i, frames - sum) else rest

-- calcCurKeyPoseIdxBySyncClock.
unfoldable pub calc_cur_key_pose_idx_by_sync_clock : ℕ → List KeyPose → Result (ℕ × ℕ)
unfolding calc_key_pose_frames_total find_key_pose
calc_cur_key_pose_idx_by_sync_clock clock ps =
    if calc_key_pose_frames_total ps == 0
    then err zero_divisor
    else ok (find_key_pose (clock % calc_key_pose_frames_total ps) 0 0 ps)

-- `progress` in control, as a numerator and a denominator.
unfoldable pub calc_progress : ℕ → KeyPose → ℕ × ℕ
unfolding calc_key_pose_frames
calc_progress frames_into_pose p =
    if leb frames_into_pose p.wait_time
    then (0, 1)
    else (frames_into_pose - p.wait_time, calc_key_pose_frames p - p.wait_time)

-- The pose that is found: its index behind `i`, the frames before it, and the frames into it.
find_key_pose_lem :
    (frames i sum : ℕ) (ps : List KeyPose)
    → sum ≤ frames
    → frames < sum + calc_key_pose_frames_total ps
    → (n : ℕ) × (p : KeyPose) × (into : ℕ) × (find_key_pose frames i sum ps ≡ (i + n, into))
      × (get_elem? ps n ≡ some p)
      × (into < calc_key_pose_frames p)
      × (sum + calc_key_pose_frames_total (take n ps) + into ≡ frames)
unfolding find_key_pose calc_key_pose_frames_total
find_key_pose_lem frames i sum [] l h = absurd (omega arith)
find_key_pose_lem frames i sum (p ∷ ps) l h =
    elim (Bool-cases (ltb frames (sum + calc_key_pose_frames p))) [
      | inl here ↦ (0, p, frames - sum, ground arith, refl, ground arith, ground arith)
      | inr later ↦
          let (n, q, into, found, at, within, before) =
            find_key_pose_lem frames (suc i) (sum + calc_key_pose_frames p) ps (ground arith)
              (ground arith) in
          (suc n, q, into, ground (arith, found), at, within, omega (arith, before))
    ]

calc_progress_lt :
    (into : ℕ) (p : KeyPose)
    → into < calc_key_pose_frames p
    → (calc_progress into p).0 < (calc_progress into p).1
unfolding calc_progress calc_key_pose_frames
calc_progress_lt into p h = ground arith

-- While the poses last at least one frame together, the pose at a time of the clock is the one whose
-- frames hold that time in the platform's round: the frames of the poses before it and the frames
-- into it make up the time, the frames into it are fewer than its own, and its progress is less than
-- one.
pub calc_cur_key_pose_idx_by_sync_clock_lem :
    (clock : ℕ) (ps : List KeyPose)
    → 0 < calc_key_pose_frames_total ps
    → (n : ℕ) × (p : KeyPose) × (into : ℕ) × (calc_cur_key_pose_idx_by_sync_clock clock ps
        ≡ ok (n, into))
      × (get_elem? ps n ≡ some p)
      × (into < calc_key_pose_frames p)
      × (calc_key_pose_frames_total (take n ps) + into ≡ clock % calc_key_pose_frames_total ps)
      × ((calc_progress into p).0 < (calc_progress into p).1)
unfolding calc_cur_key_pose_idx_by_sync_clock
calc_cur_key_pose_idx_by_sync_clock_lem clock ps h =
    let (n, p, into, found, at, within, before) =
      find_key_pose_lem (clock % calc_key_pose_frames_total ps) 0 0 ps (omega arith)
        (grind arith) in
    (
      n,
      p,
      into,
      ground (arith, found),
      at,
      within,
      omega (arith, before),
      calc_progress_lt into p within,
    )
