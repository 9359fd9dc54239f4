-- ===== src/Client/Players.antt =====
-- src/pe/Multiplayer/PlayerData.cpp and MultiplayerManager.cpp: the other players in the game. A
-- puppet is known by its player type and its place in the pool.
pub mod Roster
pub mod Queue
pub mod Local
pub mod Poses
use bf_multiplayer.Prelude.{
  ◌*◌, ◌/◌, ℕ, zero, suc, ◌+◌, ◌-◌, ◌/◌, ◌≡◌, Bool, true, false, not, ◌&&◌, List, [], ◌∷◌, ◌++◌,
  Option, none, some, ltb, ◌==◌, if◌then◌else◌, length,
}
use bf_multiplayer.Packet.{
  PuppetPoseData, Uid, PlayerListDataEntry, ActionPacketData, ActionType, PlayerFigureChangeData,
  ClientBound,
}

pub record QueueEntry : Type 0 where
  pub action : ActionPacketData
  pub frames_left : ℕ

-- The members of PlayerData that the handlers write. A puppet is `none` when the pointer is null.
-- `pose` is `none` before the first packet, when mPoseData has no value. `last_pose` are mLastTrans,
-- mLastQuat, mLastAnimRate and mLastBlendWeights, which the handler of poses sets together. Times are
-- ticks of the system's clock.
pub record PlayerData : Type 0 where
  pub list_data : PlayerListDataEntry
  pub puppet : Option (ℕ × ℕ)
  pub raidon_puppet : Option ℕ
  pub is_host_client : Bool
  pub figure : Option ℕ
  pub last_figure : Option ℕ
  pub action_queue : List QueueEntry
  pub pose : Option PuppetPoseData
  pub last_pose : Option PuppetPoseData
  pub last_pose_update : ℕ
  pub pose_update_interval : ℕ

-- The members of MultiplayerManager that the handlers use. `local_player` is the place in `players`
-- of the object that mLocalPlayer points to.
pub record Manager : Type 0 where
  pub players : List PlayerData
  pub local_player : Option ℕ
  pub puppets_ready : Bool

abbrev pub eqb_Uid : Uid → Uid → Bool
eqb_Uid a b = a.storage0 == b.storage0 && a.storage1 == b.storage1

-- MultiplayerManager::sPosePacketInterval.
abbrev pub pose_packet_interval : ℕ
pose_packet_interval = 6

-- Milliseconds as ticks, of which a second has `frequency`. The source computes with floats, which
-- are exact for the frequency of the console.
abbrev pub ticks_of : ℕ → ℕ → ℕ
ticks_of frequency ms = frequency * ms / 1000

-- PlayerData's constructor.
unfoldable pub new_player : ℕ → PlayerListDataEntry → PlayerData
new_player frequency e = record {
  list_data = e;
  puppet = none;
  raidon_puppet = none;
  is_host_client = false;
  figure = none;
  last_figure = none;
  action_queue = [];
  pose = none;
  last_pose = none;
  last_pose_update = 0;
  pose_update_interval = ticks_of frequency 200;
}

-- The loop's body in handlePlayerListPacket: `me` is the current user, `left` the number of entries
-- behind this one, and `pool` puppetPoolIdx.
unfoldable pub list_player : ℕ → Uid → Bool → ℕ → ℕ → PlayerListDataEntry → PlayerData
unfolding new_player
list_player frequency me ready left pool e =
    let hosted = record (new_player frequency e) { is_host_client = left == 0 } in
    if eqb_Uid e.user me
    then hosted
    else (if ready
        then record hosted { puppet = some (e.player_type, pool); raidon_puppet = some pool }
        else hosted)

-- The loop of handlePlayerListPacket.
unfoldable pub list_players : ℕ → Uid → Bool → ℕ → List PlayerListDataEntry → List PlayerData
unfolding list_player
list_players frequency me ready pool [] = []
list_players frequency me ready pool (e ∷ es) =
    list_player frequency me ready (length es) pool e
    ∷ list_players frequency me ready
        (if eqb_Uid e.user me then pool else (if ready then suc pool else pool)) es

-- What the loop leaves in mLocalPlayer: the last entry of the current user, or the old pointer.
unfoldable pub find_local : Uid → ℕ → Option ℕ → List PlayerListDataEntry → Option ℕ
find_local me i old [] = old
find_local me i old (e ∷ es) = find_local me (suc i) (if eqb_Uid e.user me then some i else old) es

-- MultiplayerManager::handlePlayerListPacket, but for the calls on the puppets and the status text.
unfoldable pub handle_player_list_packet : ℕ → Uid → List PlayerListDataEntry → Manager → Manager
unfolding list_players find_local
handle_player_list_packet frequency me es m = record m {
  players = list_players frequency me m.puppets_ready 0 es;
  local_player = find_local me 0 m.local_player es;
}

-- The change that a handler makes to the first player with an id (getPlayer), unless it is the
-- local one.
unfoldable pub change_player :
    Uid → Uid → (PlayerData → PlayerData) → List PlayerData → List PlayerData
change_player me uid f [] = []
change_player me uid f (p ∷ ps) =
    let rest = change_player me uid f ps in
    if eqb_Uid p.list_data.user uid
    then (if eqb_Uid p.list_data.user me then p ∷ ps else f p ∷ ps)
    else p ∷ rest

-- PlayerData::handleActionPacket.
unfoldable pub push_action : Bool → ActionPacketData → PlayerData → PlayerData
push_action at_scene a p =
    if at_scene
    then record p {
      action_queue =
          p.action_queue ++ record { action = a; frames_left = pose_packet_interval } ∷ [];
    }
    else p

-- MultiplayerManager::handleActionPacket.
unfoldable pub handle_action_packet : Uid → Bool → ClientBound ActionPacketData → Manager → Manager
unfolding change_player push_action
handle_action_packet me at_scene p m = record m {
  players = change_player me p.uid (push_action at_scene p.packet_data) m.players;
}

-- PlayerData::handlePosePacket at the tick `now`.
unfoldable pub update_pose : ℕ → ℕ → Bool → PuppetPoseData → PlayerData → PlayerData
update_pose frequency now at_scene pose p =
    let since = now - p.last_pose_update in
    let interval = if ltb (ticks_of frequency 250) since then ticks_of frequency 120 else since in
    if at_scene
    then record p {
      last_pose = p.pose;
      pose = some pose;
      last_pose_update = now;
      pose_update_interval = (p.pose_update_interval + interval) / 2;
    }
    else p

-- MultiplayerManager::handlePuppetPosePacket.
unfoldable pub handle_puppet_pose_packet :
    ℕ → ℕ → Uid → Bool → ClientBound PuppetPoseData → Manager → Manager
unfolding change_player update_pose
handle_puppet_pose_packet frequency now me at_scene p m = record m {
  players = change_player me p.uid (update_pose frequency now at_scene p.packet_data) m.players;
}

-- PlayerData::handleFigureChangePacket, but for the calls on the puppet.
unfoldable pub change_figure : Bool → ℕ → PlayerData → PlayerData
change_figure at_scene figure p =
    let changed = record p { figure = some figure } in
    elim p.puppet [
      | none ↦ changed
      | some puppet ↦ if at_scene then record changed { last_figure = some figure } else changed
    ]

-- MultiplayerManager::handleFigurePacket.
unfoldable pub handle_figure_packet :
    Uid → Bool → ClientBound PlayerFigureChangeData → Manager → Manager
unfolding change_player change_figure
handle_figure_packet me at_scene p m = record m {
  players = change_player me p.uid (change_figure at_scene p.packet_data.player_figure) m.players;
}

-- The loop over mActionQueue, whose entries have at least one frame left, in PlayerData::update: the actions that start, and the queue behind
-- it. An entry that starts is erased at its place `i`, and `i++` then passes over the entry that
-- moves there.
unfoldable pub run_queue : List QueueEntry → List ActionPacketData × List QueueEntry
run_queue [] = ([], [])
run_queue (e ∷ []) =
    if e.frames_left == 1
    then (e.action ∷ [], [])
    else ([], record e { frames_left = e.frames_left - 1 } ∷ [])
run_queue (e ∷ next ∷ es) =
    let behind = run_queue es in
    let rest = run_queue (next ∷ es) in
    if e.frames_left == 1
    then (e.action ∷ behind.0, next ∷ behind.1)
    else (rest.0, record e { frames_left = e.frames_left - 1 } ∷ rest.1)
