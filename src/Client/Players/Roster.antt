-- ===== src/Client/Players/Roster.antt =====
-- The players behind a player list packet.
use bf_multiplayer.Prelude.{
  ℕ, suc, ◌≡◌, refl, ◌∙◌, Bool, true, false, List, [], ◌∷◌, map, ◌==◌, if◌then◌else◌, arith, length,
}
use bf_multiplayer.Packet.{Uid, PlayerListDataEntry}
use bf_multiplayer.Client.Players.{
  PlayerData, Manager, eqb_Uid, list_player, list_players, handle_player_list_packet, new_player,
}

-- Among the players, only the last is the host.
abbrev pub IsLastHost : List PlayerData → Type 0
IsLastHost [] = Unit
IsLastHost (p ∷ []) = p.is_host_client ≡ true
IsLastHost (p ∷ q ∷ ps) = (p.is_host_client ≡ false) × IsLastHost (q ∷ ps)

list_player-list_data :
    (frequency : ℕ) (me : Uid) (ready : Bool) (left pool : ℕ) (e : PlayerListDataEntry)
    → ((list_player frequency me ready left pool e).list_data ≡ e)
      × ((list_player frequency me ready left pool e).is_host_client ≡ (left == 0))
unfolding list_player new_player
list_player-list_data frequency me ready left pool e = ground arith

list_players-list_data :
    (frequency : ℕ) (me : Uid) (ready : Bool) (pool : ℕ) (es : List PlayerListDataEntry)
    → map (λ p. p.list_data) (list_players frequency me ready pool es) ≡ es
unfolding list_players
list_players-list_data frequency me ready pool [] = refl
list_players-list_data frequency me ready pool (e ∷ es) = cc (
  (list_player-list_data frequency me ready (length es) pool e).0,
  list_players-list_data frequency me ready
      (if eqb_Uid e.user me then pool else (if ready then suc pool else pool)) es,
)

list_players-IsLastHost :
    (frequency : ℕ) (me : Uid) (ready : Bool) (pool : ℕ) (es : List PlayerListDataEntry)
    → IsLastHost (list_players frequency me ready pool es)
unfolding list_players
list_players-IsLastHost frequency me ready pool [] = tt
list_players-IsLastHost frequency me ready pool (e ∷ []) =
    (list_player-list_data frequency me ready 0 pool e).1
list_players-IsLastHost frequency me ready pool (e ∷ e' ∷ es) = (
  (list_player-list_data frequency me ready (suc (length es)) pool e).1 ∙ ground arith,
  list_players-IsLastHost frequency me ready
      (if eqb_Uid e.user me then pool else (if ready then suc pool else pool)) (e' ∷ es),
)

-- The players are those of the packet, in its order, and the last of them, and no other, is the
-- host.
pub handle_player_list_packet-IsLastHost :
    (frequency : ℕ) (me : Uid) (es : List PlayerListDataEntry) (m : Manager)
    → (map (λ p. p.list_data) (handle_player_list_packet frequency me es m).players ≡ es)
      × IsLastHost (handle_player_list_packet frequency me es m).players
unfolding handle_player_list_packet
handle_player_list_packet-IsLastHost frequency me es m = (
  list_players-list_data frequency me m.puppets_ready 0 es,
  list_players-IsLastHost frequency me m.puppets_ready 0 es,
)
