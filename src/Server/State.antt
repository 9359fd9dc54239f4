-- ===== src/Server/State.antt =====
-- server/Include/pe/Enet/{Client.h, Server.h}: the server's state, and the functions that send.
-- A `Client` object is known by `node`, its address in the node of the hash table that holds it: an
-- address stays the same until the entry is erased. What the server hands to ENet and to its files
-- is the list `out`, oldest first. The mutexes are left out: each event, each thread and each
-- console command is one step.
pub mod Sends
pub mod Table
use bf_multiplayer.Prelude.{
  ℕ, ◌+◌, ◌-◌, ◌/◌, ◌%◌, Bool, true, false, List, [], ◌∷◌, ◌++◌, Memory, Option, none, some, ◌==◌,
  if◌then◌else◌, Result, ok, err, dangling,
}
use bf_multiplayer.Packet.{Uid, zero_uid, Nickname, Vector3f, Packet}
use bf_multiplayer.Packet.Channels.{channel_index, class_of}
use bf_multiplayer.Server.SaveData.{ServerSaveData}

-- ENetAddress.
pub record Address : Type 0 where
  pub host : ℕ
  pub port : ℕ

-- The members of an ENetPeer that the server reads; `connected` is
-- `state == ENET_PEER_STATE_CONNECTED`.
pub record Peer : Type 0 where
  pub address : Address
  pub connected : Bool

pub record Client : Type 0 where
  pub node : ℕ
  pub peer : Peer
  pub has_greeting : Bool
  pub uid : Uid
  pub name : Nickname
  pub is_ghost : Bool
  pub trans : Vector3f
  pub player_type : ℕ
  pub player_figure : ℕ

-- What leaves the server. `saved` is a call of ServerSaveData::save with the data of that moment.
pub data Output : Type 0 where
  broadcast : Packet → Bool → Output
  send : Address → Packet → Bool → Output
  flush : Output
  disconnect : Address → Output
  saved : ServerSaveData → Output

-- The detached threads that have not run yet: Client::uploadSaveThread, and
-- Handlers::handlePacketOnNewThread with the channel and a copy of the bytes.
pub data Thread : Type 0 where
  upload_save : ℕ → Thread
  handle_packet : ℕ → List ℕ → ℕ → Thread

-- `clients` is the hash table, each entry behind its key, in the order in which a loop visits it.
-- `last_flip` is the static variable of handleJumpFlip, `none` until the first call.
pub record Server : Type 0 where
  pub clients : List (ℕ × Client)
  pub save_data : ServerSaveData
  pub sync_clock_start : ℕ
  pub current_save_data_uploader : Option ℕ
  pub save_data_ack : ℕ → Bool
  pub shared_save_work_buffer_size : ℕ
  pub shared_save_work_buffer : Memory
  pub last_flip : Option ℕ
  pub packets_sent : ℕ → ℕ
  pub packets_received : ℕ → ℕ
  pub threads : List Thread
  pub out : List Output

-- The readings of std::chrono::high_resolution_clock in one step, in nanoseconds: `first` is the one
-- that initialises a static variable, when this is the first call.
pub record Readings : Type 0 where
  pub first : ℕ
  pub now : ℕ

-- The client at an address, when its entry is still in the table.
unfoldable pub find_node : ℕ → List (ℕ × Client) → Option Client
find_node n [] = none
find_node n ((k, c) ∷ cs) = if c.node == n then some c else find_node n cs

-- A write through a client's pointer.
unfoldable pub update_node : ℕ → (Client → Client) → List (ℕ × Client) → List (ℕ × Client)
update_node n f [] = []
update_node n f ((k, c) ∷ cs) = (if c.node == n then (k, f c) else (k, c)) ∷ update_node n f cs

-- The clients other than the one at an address.
unfoldable pub other_clients : ℕ → List (ℕ × Client) → List Client
other_clients n [] = []
other_clients n ((k, c) ∷ cs) =
    let rest = other_clients n cs in if c.node == n then rest else c ∷ rest

-- A dereference of a client's pointer.
unfoldable pub client_at : ℕ → Server → Result Client
unfolding find_node
client_at n s = elim (find_node n s.clients) [ none ↦ err dangling | some c ↦ ok c ]

abbrev pub emit : Output → Server → Server
emit o s = record s { out = s.out ++ o ∷ [] }

-- `count` more packets on a channel.
abbrev pub count_packets : ℕ → ℕ → (ℕ → ℕ) → ℕ → ℕ
count_packets count channel f i = if i == channel then f i + count else f i

-- `mServer->peerCount`, the number of peers that exeStartup gives to enet_host_create.
abbrev pub peer_count : ℕ
peer_count = 12

-- The channel of the packet's class (Packet.Channels).
abbrev pub channel_of : Packet → ℕ
channel_of p = channel_index (class_of p)

-- Server::sendPacketToAll.
unfoldable pub send_packet_to_all : Packet → Bool → Server → Server
send_packet_to_all p reliable s = record s {
  packets_sent = count_packets peer_count (channel_of p) s.packets_sent;
  out = s.out ++ broadcast p reliable ∷ [];
}

-- The loop of Server::sendPacketToAllExcept.
unfoldable pub send_each_except : ℕ → Packet → Bool → List (ℕ × Client) → Server → Server
send_each_except except p reliable [] s = s
send_each_except except p reliable ((k, c) ∷ cs) s = send_each_except except p reliable cs (
    if c.node == except then s else (record s {
      packets_sent = count_packets 1 (channel_of p) s.packets_sent;
      out = s.out ++ send c.peer.address p reliable ∷ [];
    }))

-- Server::sendPacketToAllExcept.
unfoldable pub send_packet_to_all_except : ℕ → Packet → Bool → Server → Server
unfolding send_each_except
send_packet_to_all_except except p reliable s = send_each_except except p reliable s.clients s

-- Client::sendPacket, which does not count the packet.
unfoldable pub send_packet : Client → Packet → Bool → Server → Server
send_packet c p reliable s = if c.peer.connected then emit (send c.peer.address p reliable) s else s
