-- ===== src/Server/Service.antt =====
-- The server's loop: Server::exeService (server/Source/pe/Enet/Server.cpp), the table of handlers
-- and its threads (server/Source/pe/Enet/ProjectPacketHandler.cpp, and
-- lib/penet/Include/pe/Enet/PacketHandler.h). What ENet reports is an event; `hash` stands for
-- std::hash in calcEnetAddressHashCode and `create` for sChannels.createFuncs, which Packet models
-- class by class.
pub mod Table
pub mod Threads
use bf_multiplayer.Prelude.{
  ℕ, zero, suc, ◌+◌, ◌≡◌, Bool, true, false, not, ◌&&◌, List, [], ◌∷◌, ◌++◌, Option, none, some,
  ◌==◌, if◌then◌else◌, replicate, Result, ok, err, abort, ◌>>=◌, All, ◌≢◌,
}
use bf_multiplayer.Packet.{Packet, zero_uid}
use bf_multiplayer.Packet.Channels.{
  ChannelType, channel_index, to_s_hello, to_s_log, to_s_single_mode_scene_enter, to_s_puppet_pose,
  to_s_action, to_s_player_figure_change, to_s_goal_item_info, to_s_phase_unlock,
  to_s_scenario_update, to_s_disaster_mode_controller_internal_update, to_s_misc_map_sync,
  to_s_jump_flip, save_data_chunk,
}
use bf_multiplayer.Server.State.{
  Address, Peer, Client, Server, Readings, Thread, upload_save, handle_packet, disconnect, emit,
  client_at, count_packets, send_packet_to_all,
}
use bf_multiplayer.Server.PlayerList.{make_player_list_packet, nickname_size}
use bf_multiplayer.Server.SharedSave.{upload_save_thread}
use bf_multiplayer.Server.Handlers.{handle}

-- sEntries: the channels with a handler, and whether it runs on a thread of its own.
abbrev pub entries : List (ChannelType × Bool)
entries =
    (to_s_hello, false)
    ∷ (to_s_log, false)
    ∷ (to_s_single_mode_scene_enter, true)
    ∷ (to_s_puppet_pose, false)
    ∷ (to_s_action, false)
    ∷ (to_s_player_figure_change, false)
    ∷ (to_s_goal_item_info, false)
    ∷ (to_s_phase_unlock, false)
    ∷ (to_s_scenario_update, false)
    ∷ (to_s_disaster_mode_controller_internal_update, false)
    ∷ (to_s_misc_map_sync, false)
    ∷ (to_s_jump_flip, false)
    ∷ (save_data_chunk, false)
    ∷ []

-- The entry of a channel, as the loop over the table finds it.
unfoldable pub find_entry : ℕ → List (ChannelType × Bool) → Option Bool
find_entry channel [] = none
find_entry channel ((type, separate) ∷ es) =
    if channel_index type == channel then some separate else find_entry channel es

-- A client as the constructor leaves it.
unfoldable pub new_client : ℕ → Address → Client
new_client node address = record {
  node = node;
  peer = record { address = address; connected = true };
  has_greeting = false;
  uid = zero_uid;
  name = replicate nickname_size 0;
  is_ghost = false;
  trans = record { x = 0; y = 0; z = 0 };
  player_type = 0;
  player_figure = 0;
}

-- `mClients.find(hash)`.
unfoldable pub find_client : ℕ → List (ℕ × Client) → Option Client
find_client h [] = none
find_client h ((k, c) ∷ cs) = if k == h then some c else find_client h cs

-- `mClients.erase(hash)`.
unfoldable pub erase : ℕ → List (ℕ × Client) → List (ℕ × Client)
erase h [] = []
erase h ((k, c) ∷ cs) = let rest = erase h cs in if k == h then rest else (k, c) ∷ rest

-- What enet_host_service reports. A connection comes with the address that the hash table gives to
-- the new entry.
pub data Event : Type 0 where
  connect : ℕ → Address → Event
  receive : Address → ℕ → List ℕ → Event
  disconnected : Address → Event
  nothing : Event

module _ (hash : Address → ℕ) (create : ℕ → List ℕ → Result Packet) where
  -- PacketHandler::handlePacket up to the packet, before any use of the client.
  unfoldable pub read_packet : ℕ → List ℕ → Result Packet
  unfolding find_entry
  read_packet channel bytes = elim (find_entry channel entries) [
    | none ↦ err abort
    | some separate ↦ create channel bytes
  ]

  -- PacketHandler::handlePacket.
  unfoldable pub handle_packet_now : ℕ → List ℕ → Readings → Client → Server → Result Server
  unfolding read_packet
  handle_packet_now channel bytes r c s = read_packet channel bytes >>= λ p.
      handle p r c (record s { packets_received = count_packets 1 channel s.packets_received })

  -- The rest of it on a thread, whose handler is given a pointer to the client.
  unfoldable pub handle_from : ℕ → ℕ → Packet → Readings → Server → Result Server
  handle_from node channel p r s = client_at node s >>= λ c.
      handle p r c (record s { packets_received = count_packets 1 channel s.packets_received })

  -- ProjectPacketHandler::handlePacket.
  unfoldable pub dispatch : ℕ → List ℕ → Readings → Client → Server → Result Server
  unfolding find_entry handle_packet_now
  dispatch channel bytes r c s = elim (find_entry channel entries) [
    | none ↦ err abort
    | some separate ↦
        if separate
        then ok (record s { threads = s.threads ++ handle_packet channel bytes c.node ∷ [] })
        else handle_packet_now channel bytes r c s
  ]

  -- ENET_EVENT_TYPE_CONNECT: an old entry under the key is erased first.
  unfoldable pub on_connect : ℕ → Address → Server → Server
  unfolding erase new_client
  on_connect node address s = record s {
    clients = (hash address, new_client node address) ∷ erase (hash address) s.clients;
  }

  -- A packet from a client of the table.
  unfoldable pub receive_from : Client → ℕ → List ℕ → Readings → Server → Result Server
  unfolding dispatch
  receive_from c channel bytes r s =
      if not (channel == channel_index to_s_hello) && not c.has_greeting
      then ok s
      else dispatch channel bytes r c s

  -- ENET_EVENT_TYPE_RECEIVE.
  unfoldable pub on_receive : Address → ℕ → List ℕ → Readings → Server → Result Server
  unfolding find_client receive_from
  on_receive address channel bytes r s = elim (find_client (hash address) s.clients) [
    | none ↦ ok (emit (disconnect address) s)
    | some c ↦ receive_from c channel bytes r s
  ]

  -- ENET_EVENT_TYPE_DISCONNECT. Client::disconnect does nothing.
  unfoldable pub on_disconnect : Address → Server → Server
  unfolding find_client erase
  on_disconnect address s = elim (find_client (hash address) s.clients) [
    | none ↦ s
    | some c ↦
        let s1 = record s { clients = erase (hash address) s.clients } in
        send_packet_to_all (make_player_list_packet none s1) true s1
  ]

  -- One round of the loop in Server::exeService.
  unfoldable pub service : Event → Readings → Server → Result Server
  unfolding on_connect on_receive on_disconnect
  service (connect node address) r s = ok (on_connect node address s)
  service (receive address channel bytes) r s = on_receive address channel bytes r s
  service (disconnected address) r s = ok (on_disconnect address s)
  service nothing r s = ok s

  -- A detached thread, which holds the pointer to its client that it was started with.
  unfoldable pub run_thread : Thread → Readings → Server → Result Server
  run_thread (upload_save node) r s = upload_save_thread node s
  run_thread (handle_packet channel bytes node) r s =
      read_packet channel bytes >>= λ p. handle_from node channel p r s

  -- The allocator gives a new node of the hash table no address that a node has, behind the erasure of
  -- the old entry.
  unfoldable pub Allocates : Event → Server → Type 0
  unfolding erase
  Allocates (connect node address) s = All (λ e. e.1.node ≢ node) (erase (hash address) s.clients)
  Allocates other s = Unit

  -- What can happen next: an event of the loop, or any thread that was started runs.
  pub data Step (s : Server) : Result Server → Type 0 where
    event : (e : Event) (r : Readings) → Allocates e s → Step s (service e r s)
    thread :
        (before after : List Thread) (t : Thread) (r : Readings)
        → s.threads ≡ before ++ t ∷ after
        → Step s (run_thread t r (record s { threads = before ++ after }))

  -- The states that a server can get to.
  pub data Reach (s : Server) : Server → Type 0 where
    here : Reach s s
    next : {t u : Server} {v : Result Server} → Reach s t → Step t v → v ≡ ok u → Reach s u
