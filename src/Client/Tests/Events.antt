-- ===== src/Client/Tests/Events.antt =====
-- The theorems about the players, the map and the connection in the game.
use bf_multiplayer.Prelude.{
  ℕ, Bool, true, false, ◌&&◌, ◌||◌, ℤ, List, [], ◌∷◌, none, some, arith, eqb_ℤ,
}
use bf_multiplayer.Packet.{PlayerListDataEntry, ToSHello, zero_uid}
use bf_multiplayer.Client.Players.{Manager, handle_player_list_packet}
use bf_multiplayer.Client.MapEvents.{Saves, Actor, Panel, Panels}
use bf_multiplayer.Client.MapEvents.Shards.{CollectsShards}
use bf_multiplayer.Client.NetClient.{NetClient, stall, service}

abbrev pub entry_of_user : ℕ → PlayerListDataEntry
entry_of_user n = record {
  user = record { storage0 = n; storage1 = 0 };
  name = [];
  player_type = 0;
  player_figure = 0;
  is_new = false;
  is_ghost = false;
}

abbrev pub manager : Manager
manager = record { players = []; local_player = none; puppets_ready = true }

abbrev listed : Manager
listed = handle_player_list_packet 1000 zero_uid (entry_of_user 1 ∷ entry_of_user 0 ∷ []) manager

-- A record of shards that is the list of those collected.
abbrev pub shard_in : ℤ → ℤ → List (ℤ × ℤ) → Bool
shard_in zone id [] = false
shard_in zone id (s ∷ ss) = (eqb_ℤ s.0 zone && eqb_ℤ s.1 id) || shard_in zone id ss

abbrev pub shard_list : Saves
shard_list = record {
  State = List (ℤ × ℤ);
  is_shard_collected = shard_in;
  collect_shard = λ zone id ss. (zone, id) ∷ ss;
  set_unlocked_char = λ c ss. ss;
}

pub shard_list-CollectsShards : CollectsShards shard_list
shard_list-CollectsShards = record { collected = λ zone id d. ground arith }

abbrev pub no_actors : List Actor
no_actors = []

abbrev panel : Panel
panel = record {
  is_jump_trig_on = true;
  flip_state = false;
  is_flipping = false;
  is_step_early = false;
}

abbrev pub panels : Panels
panels = record { last_packet = 0; state = false; flip_all = false }

abbrev flipped : Panels
flipped = record { last_packet = 1000000; state = true; flip_all = true }

abbrev offline : NetClient
offline = record {
  nerve = stall;
  step = 0;
  has_client = false;
  server_peer = none;
  lock_depth = 0;
  sent = [];
  received = [];
  connections = 0;
  packets_handled = 0;
}

abbrev hello : ToSHello
hello = record { uid = zero_uid; name = []; is_ghost = false }

abbrev online : NetClient
online = record offline { nerve = service; has_client = true; server_peer = some true }
