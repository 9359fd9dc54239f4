-- ===== src/Client/NetClient.antt =====
-- src/pe/Enet/NetClient.cpp: the connection of the game. What ENet answers is an argument.
pub mod Lock
use bf_multiplayer.Prelude.{
  ℕ, zero, suc, ◌+◌, ◌-◌, ◌*◌, ◌^◌, ◌%◌, ◌≡◌, Bool, true, false, not, ◌&&◌, ◌||◌, List, [], ◌∷◌,
  ◌++◌, Option, none, some, ltb, leb, ◌==◌, if◌then◌else◌, Result, ok, err, null_pointer, ◌>>=◌,
}
use bf_multiplayer.Packet.{Packet, ToSHello, to_s_hello}
use bf_multiplayer.Packet.Channels.{channel_count}

pub data Nerve : Type 0 where
  stall connect service : Nerve

-- `step` is the number of the nerve's steps before this one. `server_peer` is `none` for a null
-- pointer, else whether the peer's state is ENET_PEER_STATE_CONNECTED. `lock_depth` is how
-- often the network thread has locked mClientCS, which is recursive. `sent` are the packets given to ENet, and `received` the channels
-- and bytes given to the packet handler, oldest first.
pub record NetClient : Type 0 where
  pub nerve : Nerve
  pub step : ℕ
  pub has_client : Bool
  pub server_peer : Option Bool
  pub lock_depth : ℕ
  pub sent : List (Packet × Bool)
  pub received : List (ℕ × List ℕ)
  pub connections : ℕ
  pub packets_handled : ℕ

abbrev pub lock : NetClient → NetClient
lock c = record c { lock_depth = c.lock_depth + 1 }

abbrev pub unlock : NetClient → NetClient
unlock c = record c { lock_depth = c.lock_depth - 1 }

-- al::setNerve.
unfoldable pub set_nerve : Nerve → NetClient → NetClient
set_nerve n c = record c { nerve = n; step = 0 }

-- NetClient::disconnect.
unfoldable pub disconnect : NetClient → NetClient
unfolding set_nerve
disconnect c = set_nerve stall (record c { server_peer = none; has_client = false })

-- NetClient::sendPacket.
unfoldable pub send_packet : Packet → Bool → NetClient → NetClient
send_packet p reliable c = elim c.server_peer [
  | none ↦ c
  | some connected ↦ if connected then record c { sent = c.sent ++ (p, reliable) ∷ [] } else c
]

-- NetClient::checkStall.
unfoldable pub check_stall : NetClient → Bool × NetClient
unfolding set_nerve
check_stall c = if c.has_client then (false, c) else (true, set_nerve stall c)

-- The first step of exeConnect: `created` and `peer` are whether enet_host_create and
-- enet_host_connect return an object. Without a host, enet_host_connect is still called and reads
-- through the null pointer. The Bool is that the function goes on.
unfoldable pub begin_connect : Bool → Bool → NetClient → Result (Bool × NetClient)
unfolding set_nerve
begin_connect created peer c =
    if created
    then ok (
        if peer
        then (true, record c { has_client = true; server_peer = some false })
        else (false, set_nerve stall (record c { has_client = true; server_peer = none })))
    else err null_pointer

-- What enet_host_service reports.
pub data Event : Type 0 where
  connected disconnected : Event
  receive : ℕ → List ℕ → Event

-- The loop of exeConnect over every event.
unfoldable pub await_connect : List Event → NetClient → NetClient
unfolding set_nerve
await_connect [] c = c
await_connect (connected ∷ es) c =
    await_connect es (set_nerve service (record c { server_peer = some true }))
await_connect (disconnected ∷ es) c = await_connect es c
await_connect (receive channel bytes ∷ es) c = await_connect es c

-- The end of exeConnect, with the lock held: after 300 steps the connection begins again.
unfoldable pub finish_connect : List Event → NetClient → NetClient
unfolding check_stall await_connect set_nerve
finish_connect es c =
    let stalled = check_stall c in
    let d = await_connect es c in
    if stalled.0
    then unlock stalled.1
    else unlock (if ltb (5 * 60) d.step then set_nerve connect d else d)

-- NetClient::exeConnect.
unfoldable pub exe_connect : Bool → Bool → List Event → NetClient → Result NetClient
unfolding begin_connect finish_connect
exe_connect created peer es c =
    if c.step == 0
    then (begin_connect created peer (lock c) >>= λ begun.
        ok (if begun.0 then finish_connect es begun.1 else begun.1))
    else ok (finish_connect es (lock c))

-- sMaxPacketsPerStep.
abbrev pub max_packets_per_step : ℕ
max_packets_per_step = 32

-- The loop of exeService, with `left` packets left: what is left of them, or `none` when the
-- function returned from the loop. The handler is called with a channel of at most channelCount.
unfoldable pub service_events : ℕ → List Event → NetClient → Option ℕ × NetClient
unfolding set_nerve
service_events zero es c = (some (2 ^ 32 - 1), c)
service_events (suc left) [] c = (some left, c)
service_events (suc left) (disconnected ∷ es) c =
    (none, unlock (record (set_nerve connect c) { server_peer = some false }))
service_events (suc left) (receive channel bytes ∷ es) c = service_events left es (
    if ltb channel_count channel
    then c
    else record c { received = c.received ++ (channel, bytes) ∷ [] })
service_events (suc left) (connected ∷ es) c =
    service_events left es (record c { connections = suc c.connections })

-- NetClient::exeService behind its tests, with the lock held.
unfoldable pub service_held : List Event → NetClient → NetClient
unfolding service_events
service_held es c =
    let done = service_events max_packets_per_step es c in
    elim done.0 [
      | none ↦ done.1
      | some left ↦ record (unlock done.1) {
        packets_handled = (max_packets_per_step + 2 ^ 32 - left) % 2 ^ 32;
      }
    ]

-- NetClient::exeService; `free` is that no other thread holds the lock, so that tryLock takes it.
unfoldable pub exe_service : ToSHello → Bool → List Event → NetClient → NetClient
unfolding send_packet check_stall service_held
exe_service hello free es c =
    let greeted = if c.step == 0 then send_packet (to_s_hello hello) true c else c in
    let stalled = check_stall (lock greeted) in
    if free
    then (if stalled.0 then unlock stalled.1 else service_held es (lock greeted))
    else greeted
