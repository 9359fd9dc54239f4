-- ===== src/Server/PlayerList.antt =====
-- server/Source/pe/ServerUtil.cpp: the player list packet.
use bf_multiplayer.Prelude.{
  ℕ, zero, suc, ◌-◌, ◌≡◌, refl, ap, Bool, false, List, [], ◌∷◌, ◌++◌, ◌==◌, if◌then◌else◌, arith,
  length, take, replicate, Option, none, some, map, length-map,
}
use bf_multiplayer.Packet.{PlayerListDataEntry, Packet, to_c_player_list}
use bf_multiplayer.Server.State.{Client, Server}

-- sizeof(nn::account::Uid), the number of bytes of the name that are copied.
abbrev pub uid_size : ℕ
uid_size = 16

-- sizeof(nn::account::Nickname).
abbrev pub nickname_size : ℕ
nickname_size = 33

-- Whether `client` is the one that `newClient` points to.
abbrev pub is_node : Option ℕ → Client → Bool
is_node none c = false
is_node (some n) c = c.node == n

-- The entry that the loop's body fills. A new entry holds zeros, and the body leaves `isGhost` as
-- it was.
unfoldable pub player_entry : Option ℕ → Client → PlayerListDataEntry
player_entry new_client c = record {
  user = c.uid;
  name = take uid_size c.name ++ replicate (nickname_size - uid_size) 0;
  player_type = c.player_type;
  player_figure = c.player_figure;
  is_new = is_node new_client c;
  is_ghost = false;
}

-- The first loop of makePlayerListPacket.
unfoldable pub num_clients : List (ℕ × Client) → ℕ
num_clients [] = 0
num_clients ((k, c) ∷ cs) = let rest = num_clients cs in if c.is_ghost then rest else suc rest

-- The second loop of makePlayerListPacket.
unfoldable pub player_entries : Option ℕ → List (ℕ × Client) → List PlayerListDataEntry
unfolding player_entry
player_entries new_client [] = []
player_entries new_client ((k, c) ∷ cs) =
    let rest = player_entries new_client cs in
    if c.is_ghost then rest else player_entry new_client c ∷ rest

-- ServerUtil::makePlayerListPacket.
unfoldable pub make_player_list_packet : Option ℕ → Server → Packet
unfolding player_entries
make_player_list_packet new_client s = to_c_player_list (player_entries new_client s.clients)

-- The clients that are no ghosts, in the order of the table.
unfoldable pub visible : List (ℕ × Client) → List Client
visible [] = []
visible ((k, c) ∷ cs) = let rest = visible cs in if c.is_ghost then rest else c ∷ rest

player_entries-visible :
    (n : Option ℕ) (cs : List (ℕ × Client))
    → player_entries n cs ≡ map (player_entry n) (visible cs)
unfolding player_entries visible
player_entries-visible n [] = refl
player_entries-visible n ((k, c) ∷ cs) = ground (arith, player_entries-visible n cs)

num_clients-visible : (cs : List (ℕ × Client)) → num_clients cs ≡ length (visible cs)
unfolding num_clients visible
num_clients-visible [] = refl
num_clients-visible ((k, c) ∷ cs) = ground (arith, num_clients-visible cs)

-- The packet has one entry for each client that is no ghost, in the order of the table, and as many
-- as the array that the first loop sized.
pub make_player_list_packet_lem :
    (n : Option ℕ) (s : Server)
    → (make_player_list_packet n s ≡ to_c_player_list (map (player_entry n) (visible s.clients)))
      × (length (player_entries n s.clients) ≡ num_clients s.clients)
unfolding make_player_list_packet
make_player_list_packet_lem n s = (
  ap to_c_player_list (player_entries-visible n s.clients),
  rw (player_entries-visible n s.clients, num_clients-visible s.clients)
      (length-map (visible s.clients) (player_entry n)),
)

take_long {ℓ} :
    {A : Type ℓ} (n : ℕ) (xs ys zs : List A) → length xs ≡ n → take n (xs ++ ys) ≡ take n (xs ++ zs)
take_long zero xs ys zs h = refl
take_long (suc n) [] ys zs h = absurd (omega arith)
take_long (suc n) (x ∷ xs) ys zs h = ap (λ l. x ∷ l) (take_long n xs ys zs (omega arith))

-- Two players whose names agree on their first sixteen bytes appear with the same name, whatever
-- the other seventeen bytes are: only sizeof(Uid) bytes of a Nickname are copied.
pub player_entry-same_prefix :
    (n : Option ℕ) (c d : Client) (prefix xs ys : List ℕ)
    → length prefix ≡ uid_size
    → c.name ≡ prefix ++ xs
    → d.name ≡ prefix ++ ys
    → (player_entry n c).name ≡ (player_entry n d).name
unfolding player_entry
player_entry-same_prefix n c d prefix xs ys h hc hd =
    rw (hc, hd) (ap (λ l. l ++ replicate 17 0) (take_long uid_size prefix xs ys h))
