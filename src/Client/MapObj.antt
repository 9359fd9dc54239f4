-- ===== src/Client/MapObj.antt =====
-- src/pe/Multiplayer/MapObj: the objects of the map that move by the shared clock, so that every game
-- shows them at the same place.
pub mod Clock
pub mod KeyMove
