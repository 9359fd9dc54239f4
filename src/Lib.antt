-- ===== src/Lib.antt =====
-- Bowser's Fury Online: a mod of the game and a server, which share one world between several
-- players over ENet.
--
-- The parts. A game (src/pe/) sends packets of the classes in lib/penet/ to the server (server/),
-- which keeps the shared world, sends each packet on to the other players, and writes the world to
-- files. A save file of the game goes through the server in eight chunks.
--
-- The files, with the code that each models:
--   Prelude/          results of steps that may fault, C integers, byte arrays, sorted maps.
--   Packet.antt       lib/penet/Include/pe/Enet/Packets: the data of each packet, `Packet` the sum of
--                     the classes. Packet/Channels: Channels.h. Packet/DataPacket,
--                     ArrayPacket, Log: build, read and calcSize of the classes of that kind.
--   Server/SaveData   server/Source/pe/ServerSaveData.cpp, and SaveData/File its save and load.
--                     Server/Json is the interface to the JSON library, with what is documented of it.
--   Server/State      server/Include/pe/Enet/Server.h, Client.h: the record `Server` and the
--                     functions that send. What leaves the server is the list `out`.
--   Server/PlayerList server/Source/pe/ServerUtil.cpp.
--   Server/SharedSave Client::uploadSaveThread and Handlers::handleSaveChunk.
--   Server/Greeting   Client::handleGreet. Server/Handlers: the other handlers of
--                     server/Source/pe/Enet/ProjectPacketHandler.cpp, put together by `handle`.
--   Server/Service    Server::exeService: `service` is one event, `run_thread` one detached thread,
--                     `Step` and `Reach` the runs of both in any order.
--   Server/Console    server/Source/pe/Enet/Console.cpp.
--   Client/SharedSave src/pe/Multiplayer/SaveDataSync.cpp. Client/Progress: GoalItemSync.cpp.
--   Client/Disaster   DisasterSync.cpp. Client/Players: MultiplayerManager.cpp, PlayerData.cpp.
--   Client/Hooks      the hooks of both that send packets.
--                     Client/Players/Local: PlayerData::updateLocal.
--   Client/MapEvents  MiscMapSync.cpp. Client/NetClient: src/pe/Enet/NetClient.cpp.
--   Client/World      the game as one record, with the table of src/pe/Enet/ProjectPacketHandler.cpp,
--                     CheatPackets.cpp, and NetClient::updateSyncClockStartTick.
--   Client/MapObj     src/pe/Multiplayer/MapObj: objects that move by the shared clock.
--   Client/Menu       src/pe/Hacks/TopMenuSceneMod.cpp: the nerves of the menu as a state, what comes
--                     to it as events. Menu/Address is enterIpCallback's reading of the text.
--   Client/StatusText src/pe/Multiplayer/MultiplayerStatusText.cpp.
--   Client/PatanPanel src/pe/MapObj/PatanPanel.cpp: a chain of panels as one state, with the panels'
--                     frames in any order.
--   Client/Directories createDirectoryRecursively of src/pe/Hacks/FSHacks.cpp.
-- A child module holds theorems about its parent; the modules named Tests try the theorems on
-- concrete values.
--
-- Loops are recursions on the list or the number that they run over, so no fuel is needed; the
-- loop over the directories above a path has fuel, and a bound that is enough is proved. An abort,
-- a use of a destroyed object and an access outside an array are results of the kind `err`. One
-- handler, one event and one thread are one step each: the mutexes, and what could happen between
-- two statements of a handler, are left out. So are the logs, the pauses between packets, the
-- drawing, and the program of the game itself, whose functions are parameters with named laws. The doubles of
-- the shared clock are not modelled: the ticks that they give are a parameter, and the frames of
-- getSyncClockFrames are arguments. A handler that saves notes it in `out`; what the save writes, and
-- that it can throw, is in Server/SaveData/File. How a write of the menu's file ends is part of the
-- input, as its result is not looked at.
pub mod Prelude
pub mod Packet
pub mod Server
pub mod Client
