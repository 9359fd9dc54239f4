-- ===== src/Server/Handlers.antt =====
-- server/Source/pe/Enet/ProjectPacketHandler.cpp: what the server does with each packet. `node` is
-- the sender's `Client` object. A `Console::log` and the pauses between packets are left out.
pub mod GoalItems
pub mod Worlds
pub mod Flips
pub mod Clients
use bf_multiplayer.Prelude.{
  ℕ, ◌-◌, ◌/◌, ◌+◌, ◌≡◌, Bool, true, false, not, ℤ, pos, suc_int, eqb_ℤ, List, [], ◌∷◌, ◌++◌, map,
  Option, none, some, ltb, ◌==◌, if◌then◌else◌, Result, ok, err, abort, overread, ◌>>=◌, insert,
  take, replicate, length,
}
use mathlib.Core.Bool.{xor}
use bf_multiplayer.Packet.{
  Uid, zero_uid, Vector3f, Packet, ClientBound, ToSGoalItemInfo, ToCGoalItemInfo,
  ScenarioUpdateData, MiscMapSyncData, kill_actor_by_obj_id, shard_collect, dark_bowser_health,
  toad_unlock, JumpFlipData, PuppetPoseData, to_c_scenario_update, to_c_goal_item_info,
  to_c_misc_map_sync, to_c_jump_flip, to_c_puppet_pose, to_c_action, to_c_player_figure_change,
  to_c_phase_unlock, to_c_disaster_mode_controller_internal_update, to_s_hello, to_s_log,
  to_s_single_mode_scene_enter, to_s_puppet_pose, to_s_action, to_s_player_figure_change,
  to_s_goal_item_info, to_s_phase_unlock, to_s_scenario_update,
  to_s_disaster_mode_controller_internal_update, to_s_misc_map_sync, to_s_jump_flip,
  save_data_chunk,
}
use bf_multiplayer.Server.SaveData.{
  GoalItemCollectData, ServerSaveData, is_goal_item_already_collected,
}
use bf_multiplayer.Server.State.{
  Client, Server, Readings, saved, flush, emit, client_at, update_node, send_packet,
  send_packet_to_all, send_packet_to_all_except,
}
use bf_multiplayer.Server.PlayerList.{make_player_list_packet}
use bf_multiplayer.Server.SharedSave.{handle_save_chunk}
use bf_multiplayer.Server.Greeting.{handle_greet}

-- Server::redistributePacket, where `make` is the constructor of the packet class.
unfoldable pub redistribute_packet :
    {T : Type 0} → (ClientBound T → Packet) → Bool → T → Client → Server → Server
redistribute_packet make reliable packet c s =
    send_packet_to_all_except c.node (make (record { uid = c.uid; packet_data = packet })) reliable
      s

-- `strncpy(dst, src, n)` into an array of `n` bytes.
unfoldable pub strncpy : ℕ → List ℕ → List ℕ
strncpy n src = take n src ++ replicate (n - length src) 0

-- The C string in an array, which is read past its end when it has no terminator.
unfoldable pub c_string : List ℕ → Result (List ℕ)
c_string [] = err overread
c_string (b ∷ bs) = let rest = c_string bs in if b == 0 then ok [] else (rest >>= λ t. ok (b ∷ t))

-- The packets of the four loops of handleSingleModeSceneEnter.
unfoldable pub scenario_packet : List ℕ × ℤ → Packet
unfolding strncpy
scenario_packet island = to_c_scenario_update (record {
  uid = zero_uid;
  packet_data = record { island_name = strncpy 128 island.0; scenario = island.1; unk = none };
})

unfoldable pub goal_item_packet : ServerSaveData → GoalItemCollectData → Packet
goal_item_packet d shine = to_c_goal_item_info (record {
  user = zero_uid;
  num_collected_goal_items = d.num_collected_goal_items;
  is_collect_new_shine = false;
  island_id = some shine.island_id;
  shine_id = some shine.scenario_id;
})

unfoldable pub toad_packet : ℤ → Packet
toad_packet toad = to_c_misc_map_sync (record { uid = zero_uid; packet_data = toad_unlock toad })

unfoldable pub shard_packet : GoalItemCollectData → Packet
shard_packet shard =
    to_c_misc_map_sync
      (record { uid = zero_uid; packet_data = shard_collect shard.island_id shard.scenario_id })

-- One of those loops: each packet is sent reliably and flushed.
unfoldable pub send_and_flush : Client → List Packet → Server → Server
send_and_flush c [] s = s
send_and_flush c (p ∷ ps) s = send_and_flush c ps (emit flush (send_packet c p true s))

-- All the packets that tell a client of the world's state.
unfoldable pub world_packets : ServerSaveData → List Packet
unfolding scenario_packet goal_item_packet toad_packet shard_packet
world_packets d =
    map scenario_packet d.island_to_scenario_map
    ++ (map (goal_item_packet d) d.collected_goal_items
        ++ (map toad_packet d.unlocked_toads ++ map shard_packet d.collected_shards))

unfoldable pub handle_single_mode_scene_enter : ℕ → Client → Server → Server
unfolding world_packets
handle_single_mode_scene_enter player_type c s =
    let s1 = record s {
      clients = update_node c.node (λ c'. record c' { player_type = player_type }) s.clients;
    } in
    let s2 = send_packet_to_all (make_player_list_packet none s1) true s1 in
    send_and_flush c (world_packets s2.save_data) s2

-- The save data after a shine that was not known.
unfoldable pub collect_goal_item : ToSGoalItemInfo → ServerSaveData → ServerSaveData
collect_goal_item p d = record d {
  num_collected_goal_items = suc_int d.num_collected_goal_items;
  collected_goal_items =
      d.collected_goal_items ++ record { island_id = p.island_id; scenario_id = p.shine_id } ∷ [];
}

-- The packet that handleGoalItemInfo distributes. Its island and shine are not set for a shine that
-- was known.
unfoldable pub goal_item_reply : Bool → Uid → ToSGoalItemInfo → ServerSaveData → ToCGoalItemInfo
goal_item_reply already uid p d = record {
  user = uid;
  num_collected_goal_items = d.num_collected_goal_items;
  is_collect_new_shine = not already;
  island_id = if already then none else some p.island_id;
  shine_id = if already then none else some p.shine_id;
}

unfoldable pub handle_goal_item_info : ToSGoalItemInfo → Client → Server → Server
unfolding collect_goal_item goal_item_reply
handle_goal_item_info p c s =
    let already = is_goal_item_already_collected s.save_data p.island_id p.shine_id in
    let d = (if already then s.save_data else collect_goal_item p s.save_data) in
    let s1 = record s { save_data = d } in
    let reply = goal_item_reply already c.uid p d in
    let s2 = send_packet_to_all_except c.node (to_c_goal_item_info reply) true s1 in
    let s3 =
      send_packet c (to_c_goal_item_info (record reply { is_collect_new_shine = false })) true s2 in
    emit (saved s3.save_data) s3

unfoldable pub handle_scenario_update : ScenarioUpdateData → Client → Server → Result Server
unfolding redistribute_packet c_string
handle_scenario_update p c s =
    let s1 = redistribute_packet to_c_scenario_update true p c s in
    c_string p.island_name >>= λ name. ok (record s1 {
      save_data = record s1.save_data {
        island_to_scenario_map = insert name p.scenario s1.save_data.island_to_scenario_map;
      };
    })

-- The flip, once enough time has gone by.
unfoldable pub flip : JumpFlipData → Client → Server → Server
flip p c s =
    let state = not s.save_data.jump_flip_state in
    let s1 = record s { save_data = record s.save_data { jump_flip_state = state } } in
    let packet =
      to_c_jump_flip (record { uid = c.uid; packet_data = record { flip_state = state } }) in
    let s2 = send_packet_to_all_except c.node packet false s1 in
    if xor p.flip_state state then send_packet c packet false s2 else s2

-- The static variable `lastFlip`, which the first call initialises.
abbrev pub last_flip_at : Readings → Option ℕ → ℕ
last_flip_at r none = r.first
last_flip_at r (some t) = t

-- Milliseconds from one reading to the next; a difference below zero is below 16 too.
abbrev pub milliseconds : ℕ → ℕ → ℕ
milliseconds from to = (to - from) / 1000000

unfoldable pub handle_jump_flip : JumpFlipData → Readings → Client → Server → Server
unfolding flip
handle_jump_flip p r c s =
    let last = last_flip_at r s.last_flip in
    if ltb (milliseconds last r.now) 16
    then (record s { last_flip = some last })
    else flip p c (record s { last_flip = some r.now })

-- The loop over the toads that are unlocked.
unfoldable pub has_toad : ℤ → List ℤ → Bool
has_toad toad [] = false
has_toad toad (t ∷ ts) = let rest = has_toad toad ts in if eqb_ℤ t toad then true else rest

-- What handleMiscMapSync stores, behind the redistribution.
unfoldable pub store_misc_map_sync : MiscMapSyncData → Server → Server
unfolding has_toad
store_misc_map_sync (toad_unlock toad) s =
    if has_toad toad s.save_data.unlocked_toads
    then s
    else (let d = record s.save_data { unlocked_toads = s.save_data.unlocked_toads ++ toad ∷ [] } in
        emit (saved d) (record s { save_data = d }))
store_misc_map_sync (shard_collect zone shard) s =
    let d = record s.save_data {
      collected_shards =
          s.save_data.collected_shards ++ record { island_id = zone; scenario_id = shard } ∷ [];
    } in
    emit (saved d) (record s { save_data = d })
store_misc_map_sync (kill_actor_by_obj_id id) s = s
store_misc_map_sync (dark_bowser_health health) s = s

unfoldable pub handle_misc_map_sync : MiscMapSyncData → Client → Server → Server
unfolding redistribute_packet store_misc_map_sync
handle_misc_map_sync p c s =
    store_misc_map_sync p (redistribute_packet to_c_misc_map_sync true p c s)

unfoldable pub handle_puppet_pose : PuppetPoseData → Client → Server → Server
unfolding redistribute_packet
handle_puppet_pose p c s =
    let s1 = redistribute_packet to_c_puppet_pose false p c s in
    record s1 { clients = update_node c.node (λ c'. record c' { trans = p.trans }) s1.clients }

-- The handlers of sEntries, each for the class of its packet. The last clause stands for the
-- classes that the table does not list, which PacketHandler::handlePacket does not get to.
unfoldable pub handle : Packet → Readings → Client → Server → Result Server
unfolding redistribute_packet
handle (to_s_hello p) r c s = ok (handle_greet p r c.node s)
handle (to_s_log type msg) r c s = ok s
handle (to_s_single_mode_scene_enter t) r c s = ok (handle_single_mode_scene_enter t c s)
handle (to_s_puppet_pose p) r c s = ok (handle_puppet_pose p c s)
handle (to_s_action p) r c s = ok (redistribute_packet to_c_action false p c s)
handle (to_s_player_figure_change p) r c s =
    ok (redistribute_packet to_c_player_figure_change true p c s)
handle (to_s_goal_item_info p) r c s = ok (handle_goal_item_info p c s)
handle (to_s_phase_unlock p) r c s = ok (redistribute_packet to_c_phase_unlock true p c s)
handle (to_s_scenario_update p) r c s = handle_scenario_update p c s
handle (to_s_disaster_mode_controller_internal_update p) r c s =
    ok (redistribute_packet to_c_disaster_mode_controller_internal_update true p c s)
handle (to_s_misc_map_sync p) r c s = ok (handle_misc_map_sync p c s)
handle (to_s_jump_flip p) r c s = ok (handle_jump_flip p r c s)
handle (save_data_chunk p) r c s = handle_save_chunk p c.node s
handle other r c s = err abort
