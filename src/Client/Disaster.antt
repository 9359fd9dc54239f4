-- ===== src/Client/Disaster.antt =====
-- src/pe/Multiplayer/DisasterSync.cpp: the disaster clock of the game that is host, copied by the
-- others.
pub mod Clock
use bf_multiplayer.Prelude.{
  ℕ, ◌≡◌, Bool, true, false, not, ◌&&◌, ◌||◌, ℤ, List, [], ◌∷◌, ◌++◌, Option, none, some, ◌==◌,
  if◌then◌else◌, Result, ok, err, null_pointer, ◌>>=◌,
}
use bf_multiplayer.Packet.{DisasterModeControllerInternalUpdateData}
use bf_multiplayer.Client.Progress.{Situation, guarded}

-- The members of DisasterModeController. `disable_clock` is `none` when its value is indeterminate,
-- and `nerve` is the offset of its nerve in the program.
pub record Controller : Type 0 where
  pub frames_of_disaster : ℤ
  pub frames_of_disaster_transition : ℤ
  pub frames_of_anticipation : ℤ
  pub frames_of_anticipation_transition : ℤ
  pub frames_of_prosperity : ℤ
  pub frames_of_prosperity_transition : ℤ
  pub progress_frames : ℤ
  pub frames_until_disaster : ℤ
  pub disable_clock : Option Bool
  pub is_raining : Bool
  pub post_boss_peace_time : ℤ
  pub nerve : ℕ

abbrev pub prosperity : ℕ
prosperity = 0x01318b40

abbrev pub disaster : ℕ
disaster = 0x01318b30

-- The calls that the handler makes on the controller.
pub data ControllerCall : Type 0 where
  end_instantly : ControllerCall
  begin_immediate : ControllerCall
  set_nerve : ℕ → ControllerCall
  update_rain_effects : ControllerCall

-- The assignments of the handler.
unfoldable pub copy_clock : DisasterModeControllerInternalUpdateData → Controller → Controller
copy_clock p c = record c {
  frames_of_disaster = p.frames_of_disaster;
  frames_of_disaster_transition = p.frames_of_disaster_transition;
  frames_of_anticipation = p.frames_of_anticipation;
  frames_of_anticipation_transition = p.frames_of_anticipation_transition;
  frames_of_prosperity = p.frames_of_prosperity;
  frames_of_prosperity_transition = p.frames_of_prosperity_transition;
  progress_frames = p.progress_frames;
  frames_until_disaster = p.frames_until_disaster;
  disable_clock = p.disable_clock;
  is_raining = p.is_raining;
  post_boss_peace_time = p.post_boss_peace_time;
}

unfoldable pub nerve_calls :
    DisasterModeControllerInternalUpdateData → Controller → List ControllerCall
nerve_calls p c =
    if p.is_new_nerve || not (c.nerve == p.controller_nerve)
    then (if p.controller_nerve == prosperity
        then end_instantly ∷ []
        else (if p.controller_nerve == disaster
            then begin_immediate ∷ []
            else set_nerve p.controller_nerve ∷ []))
    else []

unfoldable pub rain_calls :
    DisasterModeControllerInternalUpdateData → Controller → List ControllerCall
rain_calls p c =
    if (c.is_raining && not p.is_raining) || (not c.is_raining && p.is_raining)
    then update_rain_effects ∷ []
    else []

-- The handler behind its tests of the controller's pointer and of what it points to.
unfoldable pub update_controller :
    DisasterModeControllerInternalUpdateData
    → Option Controller
    → Option Controller × List ControllerCall
unfolding copy_clock nerve_calls rain_calls
update_controller p none = (none, [])
update_controller p (some c) = (some (copy_clock p c), nerve_calls p c ++ rain_calls p c)

-- handleToC_DisasterModeControllerInternalUpdate. `stage` is mStageIndex, which is tested before
-- the scene is; the controller is `none` where the handler finds none.
unfoldable pub handle_disaster_mode_controller_internal_update :
    Situation
    → ℕ
    → DisasterModeControllerInternalUpdateData
    → Option Controller
    → Result (Option Controller × List ControllerCall)
unfolding guarded update_controller
handle_disaster_mode_controller_internal_update at_scene stage p c =
    guarded at_scene (c, [])
      (if stage == 0 || stage == 9 then ok (c, []) else ok (update_controller p c))

-- PlayerData::updateLocal, the packet of the host, which leaves mDisableClock without a value.
-- `last_nerve` is mLastDisasterModeControllerNrv.
unfoldable pub controller_packet : Controller → Option ℕ → DisasterModeControllerInternalUpdateData
controller_packet c last_nerve = record {
  frames_of_prosperity_transition = c.frames_of_prosperity_transition;
  frames_of_prosperity = c.frames_of_prosperity;
  frames_of_anticipation_transition = c.frames_of_anticipation_transition;
  frames_of_anticipation = c.frames_of_anticipation;
  frames_of_disaster_transition = c.frames_of_disaster_transition;
  frames_of_disaster = c.frames_of_disaster;
  frames_until_disaster = c.frames_until_disaster;
  progress_frames = c.progress_frames;
  disable_clock = none;
  is_raining = c.is_raining;
  post_boss_peace_time = c.post_boss_peace_time;
  is_new_nerve = elim last_nerve [ none ↦ true | some n ↦ not (n == c.nerve) ];
  controller_nerve = c.nerve;
}
