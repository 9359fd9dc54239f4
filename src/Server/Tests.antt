-- ===== src/Server/Tests.antt =====
-- A server with two players, on which the theorems about it are tried.
pub mod Saves
pub mod Players
pub mod Worlds
use bf_multiplayer.Prelude.{
  ℕ, ◌+◌, ◌*◌, ◌%◌, ◌≡◌, refl, Bool, true, false, pos, List, [], ◌∷◌, Option, none, some, Memory,
  shifted, Result, ok, err, abort, arith, inl, ltb, if◌then◌else◌,
}
use bf_multiplayer.Packet.{Packet, SaveDataChunk, save_data_chunk_size, zero_uid}
use bf_multiplayer.Server.SaveData.{ServerSaveData}
use bf_multiplayer.Server.State.{Address, Peer, Client, Server, Readings}
use bf_multiplayer.Server.SharedSave.{chunk_size}

abbrev pub client_named : ℕ → List ℕ → Bool → Client
client_named n name greeted = record {
  node = n;
  peer = record { address = record { host = n; port = 7032 }; connected = true };
  has_greeting = greeted;
  uid = record { storage0 = n; storage1 = 0 };
  name = name;
  is_ghost = false;
  trans = record { x = n; y = 0; z = 0 };
  player_type = 0;
  player_figure = 0;
}

abbrev pub ada : Client
ada = client_named 1 (65 ∷ 100 ∷ 97 ∷ 0 ∷ []) true

abbrev pub bob : Client
bob = client_named 2 (66 ∷ 111 ∷ 98 ∷ 0 ∷ []) false

abbrev pub host_of : Address → ℕ
host_of a = a.host

-- No bytes are a packet.
abbrev pub create_nothing : ℕ → List ℕ → Result Packet
create_nothing channel bytes = err abort

abbrev pub first_save : ServerSaveData
first_save = record {
  num_collected_goal_items = pos 1;
  collected_goal_items = record { island_id = pos 2; scenario_id = pos 1 } ∷ [];
  collected_shards = [];
  island_to_scenario_map = [];
  unlocked_toads = pos 3 ∷ [];
  jump_flip_state = false;
  shared_save_size = 0;
  shared_save = λ _. 0;
}

abbrev pub server_with : List (ℕ × Client) → Server
server_with cs = record {
  clients = cs;
  save_data = first_save;
  sync_clock_start = 0;
  current_save_data_uploader = none;
  save_data_ack = λ _. false;
  shared_save_work_buffer_size = 0;
  shared_save_work_buffer = λ _. 0;
  last_flip = none;
  packets_sent = λ _. 0;
  packets_received = λ _. 0;
  threads = [];
  out = [];
}

abbrev pub two_players : Server
two_players = server_with ((1, ada) ∷ (2, bob) ∷ [])

-- Ada's upload, of which only the first chunk has come.
abbrev pub half_uploaded : Server
half_uploaded = record two_players {
  current_save_data_uploader = some 1;
  save_data_ack = λ i. ltb i 1;
}

abbrev pub soon : Readings
soon = record { first = 1000; now = 2000 }

abbrev pub late : Readings
late = record { first = 1000; now = 50000000 }

abbrev pub bytes_file : Memory
bytes_file i = i % 256

-- The chunk `i` of a file of 60000 bytes.
abbrev pub file_chunk : ℕ → ℕ × SaveDataChunk
file_chunk i = (
  i,
  record {
    chunk_index = pos i;
    size = chunk_size 60000 i;
    payload = shifted bytes_file (save_data_chunk_size * i);
  },
)

abbrev pub file_chunks : List (ℕ × SaveDataChunk)
file_chunks =
    file_chunk 7
    ∷ file_chunk 0
    ∷ file_chunk 1
    ∷ file_chunk 2
    ∷ file_chunk 3
    ∷ file_chunk 4
    ∷ file_chunk 5
    ∷ file_chunk 6
    ∷ []
