-- ===== src/Server/Tests/Players.antt =====
-- The theorems about packets and players, on the server with two players.
use bf_multiplayer.Prelude.{
  ◌≡◌, ◌≢◌, int_max, ◌++◌, some, none, Fault, refl, true, false, pos, [], ok, err, dangling, arith,
}
use bf_multiplayer.Packet.{Packet, ToSGoalItemInfo, to_s_jump_flip}
use bf_multiplayer.Server.State.{Address, Server, upload_save, handle_packet}
use bf_multiplayer.Server.State.Table.{table}
use bf_multiplayer.Server.Handlers.{handle_goal_item_info}
use bf_multiplayer.Server.Handlers.GoalItems.{
  IsCollected, CountsShines, shine_outputs, handle_goal_item_info-CountsShines,
  handle_goal_item_info_outputs,
}
use bf_multiplayer.Server.Service.{
  Allocates, erase, connect, service, on_connect, on_disconnect, run_thread, read_packet,
  find_client, here, next, event,
}
use bf_multiplayer.Server.Service.Table.{IsTable, Reach-IsTable}
use bf_multiplayer.Server.Service.Threads.{run_thread-on_disconnect}
use bf_multiplayer.Server.Tests.{two_players, ada, bob, host_of, create_nothing, soon}

abbrev new_shine : ToSGoalItemInfo
new_shine = record { island_id = pos 4; shine_id = pos 2 }

abbrev after_shine : Server
after_shine = handle_goal_item_info new_shine ada two_players

handle_goal_item_info-CountsShines_example :
    CountsShines (pos 0) after_shine.save_data
    × IsCollected (pos 4) (pos 2) after_shine.save_data.collected_goal_items
    × ((handle_goal_item_info new_shine bob after_shine).save_data ≡ after_shine.save_data)
handle_goal_item_info-CountsShines_example =
    handle_goal_item_info-CountsShines (pos 0) new_shine ada bob two_players
      (record { distinct = ((λ h. h), tt); counted = refl }) (λ e. ground arith)

handle_goal_item_info_outputs_example :
    (IsCollected (pos 4) (pos 2) two_players.save_data.collected_goal_items
      → (after_shine.save_data ≡ two_players.save_data)
        × (after_shine.out
            ≡ two_players.out
              ++ shine_outputs false none none ada two_players.clients two_players.save_data))
    × ((¬ IsCollected (pos 4) (pos 2) two_players.save_data.collected_goal_items)
        → two_players.save_data.num_collected_goal_items ≢ pos int_max
        → (after_shine.save_data.num_collected_goal_items ≡ pos 2)
          × (after_shine.out
              ≡ two_players.out
                ++ shine_outputs true
                    (some (pos 4))
                    (some (pos 2))
                    ada
                    two_players.clients
                    after_shine.save_data))
handle_goal_item_info_outputs_example = handle_goal_item_info_outputs new_shine ada two_players

abbrev flip_packet_sent : Packet
flip_packet_sent = to_s_jump_flip (record { flip_state = true })

two_players-IsTable : IsTable host_of (table two_players.clients)
two_players-IsTable =
    (refl, ((λ e. ground arith), tt), ((λ e. ground arith), tt), (refl, tt, tt, tt))

abbrev newcomer : Address
newcomer = record { host = 3; port = 7032 }

abbrev three_players : Server
three_players = on_connect host_of create_nothing 7 newcomer two_players

Reach-IsTable_example : IsTable host_of (table three_players.clients)
unfolding service Allocates erase
Reach-IsTable_example =
    Reach-IsTable host_of create_nothing two_players three_players
      (next here (event (connect 7 newcomer) soon ((λ e. ground arith), ((λ e. ground arith), tt)))
        refl)
      two_players-IsTable

run_thread-on_disconnect_example :
    (run_thread host_of create_nothing
        (upload_save 1)
        soon
        (on_disconnect host_of create_nothing ada.peer.address two_players)
      ≡ err dangling)
    × ((p : Packet)
        → read_packet host_of create_nothing 3 [] ≡ ok p
        → run_thread host_of create_nothing
            (handle_packet 3 [] 1)
            soon
            (on_disconnect host_of create_nothing ada.peer.address two_players)
          ≡ err dangling)
    × ((f : Fault)
        → read_packet host_of create_nothing 3 [] ≡ err f
        → run_thread host_of create_nothing
            (handle_packet 3 [] 1)
            soon
            (on_disconnect host_of create_nothing ada.peer.address two_players)
          ≡ err f)
run_thread-on_disconnect_example =
    run_thread-on_disconnect host_of create_nothing ada.peer.address 3 [] soon ada two_players
      two_players-IsTable (unfold find_client in refl)
