-- ===== src/Server/Handlers/Clients.antt =====
-- No handler adds a client, removes one or changes what identifies one.
use bf_multiplayer.Prelude.{
  ℕ, ◌+◌, ◌*◌, ◌≡◌, refl, ap, ◌∙◌, inl, inr, Bool, true, false, ℤ, pos, negsuc, List, [], ◌∷◌, some,
  if◌then◌else◌, arith, Result, ok, err, not, Result-cases, out_of_bounds, Bool-cases, leb, ltb,
}
use mathlib.Core.Bool.{xor}
use bf_multiplayer.Packet.{
  Packet, ToSHello, ToSGoalItemInfo, ScenarioUpdateData, MiscMapSyncData, toad_unlock,
  shard_collect, kill_actor_by_obj_id, dark_bowser_health, JumpFlipData, PuppetPoseData,
  SaveDataChunk, ClientBound, to_c_scenario_update, to_c_misc_map_sync, to_c_puppet_pose,
  save_data_chunk_size,
}
use bf_multiplayer.Server.State.{Client, Server, Readings, send_packet_to_all}
use bf_multiplayer.Server.State.Table.{
  table, table-update_node, send_packet-clients, send_packet_to_all_except-clients,
}
use bf_multiplayer.Server.SharedSave.{
  begin_upload, stored, store_chunk, finish_upload, committed, accept_chunk, check_chunk,
  handle_save_chunk, is_empty, is_full, is_uploader, work_buffer_capacity,
}
use bf_multiplayer.Server.Greeting.{greeted, handle_greet}
use bf_multiplayer.Server.Handlers.{
  redistribute_packet, send_and_flush, handle_single_mode_scene_enter, handle_goal_item_info,
  c_string, handle_scenario_update, flip, handle_jump_flip, store_misc_map_sync,
  handle_misc_map_sync, handle_puppet_pose, handle,
}

-- A result has the same table of clients.
abbrev pub KeepsTable : Server → Result Server → Type 0
KeepsTable s (ok t) = table t.clients ≡ table s.clients
KeepsTable s (err f) = Unit

handle_greet-table :
    (p : ToSHello) (r : Readings) (n : ℕ) (s : Server)
    → table (handle_greet p r n s).clients ≡ table s.clients
unfolding handle_greet send_packet_to_all greeted
handle_greet-table p r n s = table-update_node n (greeted p) s.clients (λ c. (refl, refl))

redistribute_packet-clients :
    {T : Type 0} (make : ClientBound T → Packet) (reliable : Bool) (p : T) (c : Client) (s : Server)
    → (redistribute_packet make reliable p c s).clients ≡ s.clients
unfolding redistribute_packet
redistribute_packet-clients make reliable p c s = send_packet_to_all_except-clients _ _ _ s

send_and_flush-clients :
    (c : Client) (ps : List Packet) (s : Server) → (send_and_flush c ps s).clients ≡ s.clients
unfolding send_and_flush
send_and_flush-clients c [] s = refl
send_and_flush-clients c (p ∷ ps) s = send_and_flush-clients c ps _ ∙ send_packet-clients c p true s

handle_single_mode_scene_enter-table :
    (t : ℕ) (c : Client) (s : Server)
    → table (handle_single_mode_scene_enter t c s).clients ≡ table s.clients
unfolding handle_single_mode_scene_enter send_packet_to_all
handle_single_mode_scene_enter-table t c s =
    ap table (send_and_flush-clients c _ _)
    ∙ table-update_node c.node _ s.clients (λ c'. (refl, refl))

handle_goal_item_info-clients :
    (p : ToSGoalItemInfo) (c : Client) (s : Server)
    → (handle_goal_item_info p c s).clients ≡ s.clients
unfolding handle_goal_item_info
handle_goal_item_info-clients p c s =
    send_packet-clients c _ true _ ∙ send_packet_to_all_except-clients c.node _ true _

handle_scenario_update-KeepsTable :
    (p : ScenarioUpdateData) (c : Client) (s : Server) → KeepsTable s (handle_scenario_update p c s)
unfolding handle_scenario_update
handle_scenario_update-KeepsTable p c s = elim (Result-cases (c_string p.island_name)) [
  | inl (name, e) ↦
      rw (e, handle_scenario_update)
        (ap table (redistribute_packet-clients to_c_scenario_update true p c s))
  | inr (f, e) ↦ rw (e, handle_scenario_update) tt
]

flip-clients : (p : JumpFlipData) (c : Client) (s : Server) → (flip p c s).clients ≡ s.clients
unfolding flip
flip-clients p c s = elim (Bool-cases (xor p.flip_state (not s.save_data.jump_flip_state))) [
  | inl differ ↦
      rw differ
        (send_packet-clients c _ false _ ∙ send_packet_to_all_except-clients c.node _ false _)
  | inr same ↦ rw same (send_packet_to_all_except-clients c.node _ false _)
]

handle_jump_flip-clients :
    (p : JumpFlipData) (r : Readings) (c : Client) (s : Server)
    → (handle_jump_flip p r c s).clients ≡ s.clients
unfolding handle_jump_flip
handle_jump_flip-clients p r c s =
    ground (arith, flip-clients p c (record s { last_flip = some r.now }))

store_misc_map_sync-clients :
    (p : MiscMapSyncData) (s : Server) → (store_misc_map_sync p s).clients ≡ s.clients
unfolding store_misc_map_sync
store_misc_map_sync-clients (toad_unlock toad) s = ground arith
store_misc_map_sync-clients (shard_collect zone shard) s = refl
store_misc_map_sync-clients (kill_actor_by_obj_id id) s = refl
store_misc_map_sync-clients (dark_bowser_health health) s = refl

handle_misc_map_sync-clients :
    (p : MiscMapSyncData) (c : Client) (s : Server)
    → (handle_misc_map_sync p c s).clients ≡ s.clients
unfolding handle_misc_map_sync
handle_misc_map_sync-clients p c s =
    store_misc_map_sync-clients p (redistribute_packet to_c_misc_map_sync true p c s)
    ∙ redistribute_packet-clients to_c_misc_map_sync true p c s

handle_puppet_pose-table :
    (p : PuppetPoseData) (c : Client) (s : Server)
    → table (handle_puppet_pose p c s).clients ≡ table s.clients
unfolding handle_puppet_pose
handle_puppet_pose-table p c s =
    table-update_node c.node _ _ (λ c'. (refl, refl))
    ∙ ap table (redistribute_packet-clients to_c_puppet_pose false p c s)

begin_upload-clients : (n : ℕ) (s : Server) → (begin_upload n s).clients ≡ s.clients
unfolding begin_upload
begin_upload-clients n s = elim (Bool-cases (is_empty 8 s.save_data_ack)) [
  | inl new ↦ rw new refl
  | inr old ↦ rw old refl
]

finish_upload-KeepsTable : (s : Server) → KeepsTable s (finish_upload s)
unfolding finish_upload
finish_upload-KeepsTable s = elim (Bool-cases (is_full 8 s.save_data_ack)) [
  | inl full ↦
      rw full
        (elim (leb s.shared_save_work_buffer_size 65791)
          as (λ b. KeepsTable s (if b then ok (committed s) else err out_of_bounds)) [
            | true ↦ refl
            | false ↦ tt
          ])
  | inr some_missing ↦ rw some_missing refl
]

pub KeepsTable-trans :
    (s t : Server) (m : Result Server)
    → table t.clients ≡ table s.clients
    → KeepsTable t m
    → KeepsTable s m
KeepsTable-trans s t (ok u) e k = k ∙ e
KeepsTable-trans s t (err f) e k = tt

accept_chunk-KeepsTable :
    (i : ℕ) (p : SaveDataChunk) (s : Server) → KeepsTable s (accept_chunk i p s)
unfolding accept_chunk store_chunk
accept_chunk-KeepsTable i p s =
    elim (Bool-cases (leb (save_data_chunk_size * i + p.size) work_buffer_capacity)) [
      | inl fits ↦ rw fits (
          KeepsTable-trans s (stored i p s) (finish_upload (stored i p s)) refl
            (finish_upload-KeepsTable (stored i p s)))
      | inr beyond ↦ rw beyond tt
    ]

check_chunk-KeepsTable : (i : ℤ) (p : SaveDataChunk) (s : Server) → KeepsTable s (check_chunk i p s)
unfolding check_chunk
check_chunk-KeepsTable (negsuc i) p s = refl
check_chunk-KeepsTable (pos i) p s = elim (Bool-cases (leb 8 i)) [
  | inl above ↦ rw above refl
  | inr below ↦ rw below (elim (Bool-cases (ltb save_data_chunk_size p.size)) [
    | inl large ↦ rw large refl
    | inr small ↦ rw small (accept_chunk-KeepsTable i p s)
  ])
]

handle_save_chunk-KeepsTable :
    (p : SaveDataChunk) (n : ℕ) (s : Server) → KeepsTable s (handle_save_chunk p n s)
unfolding handle_save_chunk
handle_save_chunk-KeepsTable p n s =
    let begun = ap table (begin_upload-clients n s) in
    elim (Bool-cases (is_uploader (begin_upload n s).current_save_data_uploader n)) [
      | inl owner ↦
          rw (owner, handle_save_chunk)
            (KeepsTable-trans s (begin_upload n s) _ begun
              (check_chunk-KeepsTable p.chunk_index p (begin_upload n s)))
      | inr other ↦ rw (other, handle_save_chunk) begun
    ]

-- Whatever packet is handled, a result has the same entries in the table of clients.
pub handle-KeepsTable :
    (p : Packet) (r : Readings) (c : Client) (s : Server) → KeepsTable s (handle p r c s)
unfolding handle
handle-KeepsTable (Packet.to_s_hello p) r c s = handle_greet-table p r c.node s
handle-KeepsTable (Packet.to_s_log type msg) r c s = refl
handle-KeepsTable (Packet.to_s_single_mode_scene_enter t) r c s =
    handle_single_mode_scene_enter-table t c s
handle-KeepsTable (Packet.to_s_puppet_pose p) r c s = handle_puppet_pose-table p c s
handle-KeepsTable (Packet.to_s_action p) r c s =
    ap table (redistribute_packet-clients Packet.to_c_action false p c s)
handle-KeepsTable (Packet.to_s_player_figure_change p) r c s =
    ap table (redistribute_packet-clients Packet.to_c_player_figure_change true p c s)
handle-KeepsTable (Packet.to_s_goal_item_info p) r c s =
    ap table (handle_goal_item_info-clients p c s)
handle-KeepsTable (Packet.to_s_phase_unlock p) r c s =
    ap table (redistribute_packet-clients Packet.to_c_phase_unlock true p c s)
handle-KeepsTable (Packet.to_s_scenario_update p) r c s = handle_scenario_update-KeepsTable p c s
handle-KeepsTable (Packet.to_s_disaster_mode_controller_internal_update p) r c s =
    ap table
      (redistribute_packet-clients Packet.to_c_disaster_mode_controller_internal_update true p c s)
handle-KeepsTable (Packet.to_s_misc_map_sync p) r c s =
    ap table (handle_misc_map_sync-clients p c s)
handle-KeepsTable (Packet.to_s_jump_flip p) r c s = ap table (handle_jump_flip-clients p r c s)
handle-KeepsTable (Packet.save_data_chunk p) r c s = handle_save_chunk-KeepsTable p c.node s
handle-KeepsTable _ r c s = tt
