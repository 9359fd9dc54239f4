-- ===== src/Server/Tests/Worlds.antt =====
-- The theorems about the shared world, the player list and the console.
use bf_multiplayer.Prelude.{
  ℕ, ◌≡◌, ◌⊎◌, ◌↔◌, refl, true, pos, List, [], ◌∷◌, ◌++◌, none, some, err, overread, replicate,
}
use bf_multiplayer.Packet.{ScenarioUpdateData, toad_unlock, JumpFlipData, to_c_misc_map_sync}
use bf_multiplayer.Server.State.{Server, Output, saved, other_clients}
use bf_multiplayer.Server.State.Sends.{sends}
use bf_multiplayer.Server.PlayerList.{player_entry, player_entry-same_prefix}
use bf_multiplayer.Server.Handlers.{handle_misc_map_sync}
use bf_multiplayer.Server.Handlers.Worlds.{AreDistinctToads, IsListed, handle_misc_map_sync_lem}
use bf_multiplayer.Server.Console.{read_command}
use bf_multiplayer.Server.Console.Commands.{read_command_overread}
use bf_multiplayer.Server.Tests.{two_players, ada, client_named}

abbrev after_toad : Server
after_toad = handle_misc_map_sync (toad_unlock (pos 5)) ada two_players

handle_misc_map_sync_lem_example :
    AreDistinctToads after_toad.save_data.unlocked_toads
    × IsListed (toad_unlock (pos 5)) after_toad.save_data.unlocked_toads
    × ((kept : List Output) × (after_toad.out
          ≡ sends
              (to_c_misc_map_sync (record { uid = ada.uid; packet_data = toad_unlock (pos 5) }))
              true
              (other_clients 1 two_players.clients)
            ++ kept)
        × ((kept ≡ []) ⊎ (kept ≡ saved after_toad.save_data ∷ [])))
handle_misc_map_sync_lem_example =
    handle_misc_map_sync_lem (toad_unlock (pos 5)) ada two_players ((λ h. h), tt)

abbrev beach : ScenarioUpdateData
beach = record { island_name = 66 ∷ 0 ∷ []; scenario = pos 2; unk = some true }

abbrev flip_on : JumpFlipData
flip_on = record { flip_state = true }

abbrev sixteen : List ℕ
sixteen = replicate 16 65

player_entry-same_prefix_example :
    (player_entry none (client_named 1 (sixteen ++ 66 ∷ []) true)).name
    ≡ (player_entry none (client_named 2 (sixteen ++ 67 ∷ []) true)).name
player_entry-same_prefix_example =
    player_entry-same_prefix none (client_named 1 (sixteen ++ 66 ∷ []) true)
      (client_named 2 (sixteen ++ 67 ∷ []) true) sixteen (66 ∷ []) (67 ∷ []) refl refl refl

abbrev no_words : List ℕ
no_words = []

read_command_overread_example :
    (read_command (λ _. none) none no_words two_players ≡ err overread) ↔ (no_words ≡ [])
read_command_overread_example = read_command_overread (λ _. none) none no_words two_players
