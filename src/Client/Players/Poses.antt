-- ===== src/Client/Players/Poses.antt =====
-- The poses of the other players, as the game receives them.
use bf_multiplayer.Prelude.{
  ℕ, ◌≤◌, ◌≡◌, refl, ap, ◌∙◌, Bool, true, false, List, [], ◌∷◌, ◌++◌, some, arith, All, Bool-cases,
  inl, inr, if◌then◌else◌, length, suc,
}
use bf_multiplayer.Packet.{Uid, PlayerListDataEntry, PuppetPoseData, ClientBound}
use bf_multiplayer.Client.Players.{
  PlayerData, Manager, eqb_Uid, ticks_of, change_player, update_pose, handle_puppet_pose_packet,
  handle_player_list_packet, list_players, list_player, new_player,
}

-- No player has the id.
abbrev pub AreOthers : Uid → List PlayerData → Type 0
AreOthers uid = All (λ (p : PlayerData). eqb_Uid p.list_data.user uid ≡ false)

change_player-others :
    (me uid : Uid) (f : PlayerData → PlayerData) (ps : List PlayerData)
    → AreOthers uid ps
    → change_player me uid f ps ≡ ps
unfolding change_player
change_player-others me uid f [] a = refl
change_player-others me uid f (p ∷ ps) a =
    rw (a.0) (ap (λ l. p ∷ l) (change_player-others me uid f ps a.1))

change_player-first :
    (me uid : Uid) (f : PlayerData → PlayerData) (before : List PlayerData) (p : PlayerData)
    (behind : List PlayerData)
    → AreOthers uid before
    → eqb_Uid p.list_data.user uid ≡ true
    → change_player me uid f (before ++ p ∷ behind)
      ≡ before ++ (if eqb_Uid p.list_data.user me then p else f p) ∷ behind
unfolding change_player
change_player-first me uid f [] p behind a h =
    rw h (elim (Bool-cases (eqb_Uid p.list_data.user me)) [
      | inl mine ↦ rw mine refl
      | inr theirs ↦ rw theirs refl
    ])
change_player-first me uid f (q ∷ before) p behind a h =
    rw (a.0) (ap (λ l. q ∷ l) (change_player-first me uid f before p behind a.1 h))

change_player-same : (me uid : Uid) (ps : List PlayerData) → change_player me uid (λ p. p) ps ≡ ps
unfolding change_player
change_player-same me uid [] = refl
change_player-same me uid (p ∷ ps) = elim (Bool-cases (eqb_Uid p.list_data.user uid)) [
  | inl this ↦ elim (Bool-cases (eqb_Uid p.list_data.user me)) [
    | inl mine ↦ rw (this, mine) refl
    | inr theirs ↦ rw (this, theirs) refl
  ]
  | inr other ↦ rw other (ap (λ l. p ∷ l) (change_player-same me uid ps))
]

-- In a scene, the first player with the packet's id, if it is not the player's own object, gets the
-- packet's pose and keeps the pose before as the last one, and every other player stays as it was.
-- Outside of a scene all players stay as they were.
pub handle_puppet_pose_packet_lem :
    (frequency now : ℕ) (me : Uid) (packet : ClientBound PuppetPoseData) (m : Manager)
    (before : List PlayerData) (p : PlayerData) (behind : List PlayerData)
    → m.players ≡ before ++ p ∷ behind
    → AreOthers packet.uid before
    → eqb_Uid p.list_data.user packet.uid ≡ true
    → eqb_Uid p.list_data.user me ≡ false
    → (q : PlayerData) × ((handle_puppet_pose_packet frequency now me true packet m).players
        ≡ before ++ q ∷ behind)
      × (q.pose ≡ some packet.packet_data)
      × (q.last_pose ≡ p.pose)
      × ((handle_puppet_pose_packet frequency now me false packet m).players ≡ m.players)
unfolding handle_puppet_pose_packet update_pose
handle_puppet_pose_packet_lem frequency now me packet m before p behind e a h theirs = (
  update_pose frequency now true packet.packet_data p,
  rw e (
      change_player-first me packet.uid (update_pose frequency now true packet.packet_data) before p
        behind a h
      ∙ rw theirs refl),
  refl,
  refl,
  change_player-same me packet.uid m.players,
)

-- No interval is longer than a quarter of a second.
abbrev pub ArePaced : ℕ → List PlayerData → Type 0
ArePaced frequency = All (λ (p : PlayerData). p.pose_update_interval ≤ ticks_of frequency 250)

update_pose-paced :
    (frequency now : ℕ) (at_scene : Bool) (pose : PuppetPoseData) (p : PlayerData)
    → p.pose_update_interval ≤ ticks_of frequency 250
    → (update_pose frequency now at_scene pose p).pose_update_interval ≤ ticks_of frequency 250
unfolding update_pose
update_pose-paced frequency now at_scene pose p h = ground arith

change_player-ArePaced :
    (frequency : ℕ) (me uid : Uid) (f : PlayerData → PlayerData) (ps : List PlayerData)
    → ((p : PlayerData)
        → p.pose_update_interval ≤ ticks_of frequency 250
        → (f p).pose_update_interval ≤ ticks_of frequency 250)
    → ArePaced frequency ps
    → ArePaced frequency (change_player me uid f ps)
unfolding change_player
change_player-ArePaced frequency me uid f [] k a = tt
change_player-ArePaced frequency me uid f (p ∷ ps) k a =
    elim (Bool-cases (eqb_Uid p.list_data.user uid)) [
      | inl this ↦ elim (Bool-cases (eqb_Uid p.list_data.user me)) [
        | inl mine ↦ rw (this, mine) a
        | inr theirs ↦ rw (this, theirs) (k p a.0, a.1)
      ]
      | inr other ↦ rw other (a.0, change_player-ArePaced frequency me uid f ps k a.1)
    ]

list_player-paced :
    (frequency : ℕ) (me : Uid) (ready : Bool) (left pool : ℕ) (e : PlayerListDataEntry)
    → (list_player frequency me ready left pool e).pose_update_interval ≤ ticks_of frequency 250
unfolding list_player new_player
list_player-paced frequency me ready left pool e = ground arith

list_players-ArePaced :
    (frequency : ℕ) (me : Uid) (ready : Bool) (pool : ℕ) (es : List PlayerListDataEntry)
    → ArePaced frequency (list_players frequency me ready pool es)
unfolding list_players
list_players-ArePaced frequency me ready pool [] = tt
list_players-ArePaced frequency me ready pool (e ∷ es) = (
  list_player-paced frequency me ready (length es) pool e,
  list_players-ArePaced frequency me ready
      (if eqb_Uid e.user me then pool else (if ready then suc pool else pool)) es,
)

-- The time over which a puppet goes from one pose to the next is at most a quarter of a second for
-- every player behind a player list packet, and so it stays behind every pose packet, whatever the
-- time since the pose before.
pub handle_puppet_pose_packet-ArePaced :
    (frequency now : ℕ) (me : Uid) (at_scene : Bool) (packet : ClientBound PuppetPoseData)
    (es : List PlayerListDataEntry) (m n : Manager)
    → ArePaced frequency m.players
    → ArePaced frequency (handle_player_list_packet frequency me es n).players
      × ArePaced frequency (handle_puppet_pose_packet frequency now me at_scene packet m).players
unfolding handle_puppet_pose_packet handle_player_list_packet
handle_puppet_pose_packet-ArePaced frequency now me at_scene packet es m n a = (
  list_players-ArePaced frequency me n.puppets_ready 0 es,
  change_player-ArePaced frequency me packet.uid
      (update_pose frequency now at_scene packet.packet_data) m.players
      (λ p h. update_pose-paced frequency now at_scene packet.packet_data p h) a,
)
