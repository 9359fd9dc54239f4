-- ===== src/Server/Greeting.antt =====
-- Client::handleGreet (server/Source/pe/Enet/Client.cpp).
use bf_multiplayer.Prelude.{ℕ, ◌-◌, ◌/◌, true, [], ◌∷◌, ◌++◌, some}
use bf_multiplayer.Packet.{ToSHello, to_c_sync_clock_update}
use bf_multiplayer.Server.State.{
  Client, Server, Readings, upload_save, flush, emit, update_node, send_packet_to_all,
}
use bf_multiplayer.Server.PlayerList.{make_player_list_packet}

-- The assignments of handleGreet to the client.
unfoldable pub greeted : ToSHello → Client → Client
greeted p c = record c { is_ghost = p.is_ghost; has_greeting = true; uid = p.uid; name = p.name }

-- The microseconds since the server started; a duration_cast cuts off.
abbrev pub sync_clock_microseconds : Readings → Server → ℕ
sync_clock_microseconds r s = (r.now - s.sync_clock_start) / 1000

unfoldable pub handle_greet : ToSHello → Readings → ℕ → Server → Server
unfolding greeted
handle_greet p r node s =
    let s1 = record s { clients = update_node node (greeted p) s.clients } in
    let s2 = send_packet_to_all (make_player_list_packet (some node) s1) true s1 in
    let s3 = send_packet_to_all (to_c_sync_clock_update (sync_clock_microseconds r s2)) true s2 in
    let s4 = emit flush s3 in record s4 { threads = s4.threads ++ upload_save node ∷ [] }
