-- ===== src/Server/Console.antt =====
-- server/Source/pe/Enet/Console.cpp: the commands of the server's console. A line is its bytes. What
-- a command prints is left out.
pub mod Commands
use bf_multiplayer.Prelude.{
  ℕ, zero, suc, ◌≡◌, Bool, true, false, ◌||◌, ℤ, List, [], ◌∷◌, ◌++◌, Option, none, some, ◌==◌,
  if◌then◌else◌, Result, ok, err, ◌>>=◌, overread, bytes_eqb,
}
use Prim.Native.String.{String}
use Prim.Native.Char.{code}
use bf_multiplayer.Packet.{zero_uid, to_c_goal_item_info, to_c_cheat_packet, teleport}
use bf_multiplayer.Server.SaveData.{FileBytes, ServerSaveData, reset}
use bf_multiplayer.Server.State.{
  Client, Server, saved, emit, send_packet_to_all, send_packet_to_all_except,
}

-- The loop of `split`: std::getline up to each delimiter. `line` is the piece read so far; a piece
-- after the last delimiter is returned only if it has a byte.
unfoldable pub split_from : ℕ → List ℕ → List ℕ → List (List ℕ)
split_from delim line [] = elim line [ [] ↦ [] | c ∷ cs ↦ (c ∷ cs) ∷ [] ]
split_from delim line (b ∷ bs) =
    let next = split_from delim [] bs in
    let more = split_from delim (line ++ b ∷ []) bs in if b == delim then line ∷ next else more

unfoldable pub split : List ℕ → ℕ → List (List ℕ)
unfolding split_from
split str delim = split_from delim [] str

-- `strcmp(client->mName, query) == 0`, and `find` of one C string in another, on their bytes.
abbrev pub c_bytes : List ℕ → List ℕ
c_bytes [] = []
c_bytes (b ∷ bs) = if b == 0 then [] else b ∷ c_bytes bs

unfoldable pub is_prefix : List ℕ → List ℕ → Bool
is_prefix [] bs = true
is_prefix (q ∷ qs) [] = false
is_prefix (q ∷ qs) (b ∷ bs) = let rest = is_prefix qs bs in if q == b then rest else false

unfoldable pub is_infix : List ℕ → List ℕ → Bool
unfolding is_prefix
is_infix query [] = is_prefix query []
is_infix query (b ∷ bs) = is_prefix query (b ∷ bs) || is_infix query bs

-- Server::searchClient (server/Source/pe/Enet/Server.cpp).
unfoldable pub search_client : List ℕ → List (ℕ × Client) → Option Client
unfolding is_infix
search_client query [] = none
search_client query ((k, c) ∷ cs) =
    if bytes_eqb (c_bytes c.name) query || is_infix query (c_bytes c.name)
    then some c
    else search_client query cs

-- The bytes of a command's name.
abbrev pub codes : String → List ℕ
codes String.[] = []
codes (String.◌∷◌ c s) = code c ∷ codes s

-- `setshines`, once the amount has been read.
unfoldable pub set_shines : ℤ → Server → Server
set_shines amount s =
    let d = record s.save_data { num_collected_goal_items = amount } in
    send_packet_to_all
      (to_c_goal_item_info (record {
        user = zero_uid;
        num_collected_goal_items = amount;
        is_collect_new_shine = false;
        island_id = none;
        shine_id = none;
      }))
      true (emit (saved d) (record s { save_data = d }))

-- `tpall`, once the player has been found.
unfoldable pub teleport_all : Client → Server → Server
teleport_all player s =
    send_packet_to_all_except player.node (to_c_cheat_packet (teleport player.trans)) true s

-- `resetsave`, given the contents of GameDataDefault.bin.
unfoldable pub reset_save : Option FileBytes → Server → Result Server
reset_save default s =
    reset default s.save_data >>= λ d. ok (emit (saved d) (record s { save_data = d }))

-- The commands that take one argument; `stoi` is std::stoi, `none` where it throws.
unfoldable pub set_shines_command : (List ℕ → Option ℤ) → List (List ℕ) → Server → Server
unfolding set_shines
set_shines_command stoi (amount ∷ []) s = elim (stoi amount) [ none ↦ s | some n ↦ set_shines n s ]
set_shines_command stoi [] s = s
set_shines_command stoi (a ∷ b ∷ rest) s = s

unfoldable pub teleport_command : List (List ℕ) → Server → Server
unfolding search_client teleport_all
teleport_command (query ∷ []) s = elim (search_client query s.clients) [
  | none ↦ s
  | some c ↦ teleport_all c s
]
teleport_command [] s = s
teleport_command (a ∷ b ∷ rest) s = s

-- Console::processCommand. `args[0]` of an empty line does not exist.
unfoldable pub process_command :
    (List ℕ → Option ℤ) → Option FileBytes → List (List ℕ) → Server → Result Server
unfolding reset_save set_shines_command teleport_command
process_command stoi default [] s = err overread
process_command stoi default (name ∷ args) s =
    if bytes_eqb name (codes "help")
    then ok s
    else (if bytes_eqb name (codes "list")
        then ok s
        else (if bytes_eqb name (codes "save")
            then ok (emit (saved s.save_data) s)
            else (if bytes_eqb name (codes "resetsave")
                then reset_save default s
                else (if bytes_eqb name (codes "setshines")
                    then ok (set_shines_command stoi args s)
                    else (if bytes_eqb name (codes "tpall")
                        then ok (teleport_command args s)
                        else ok s)))))

-- One round of Console::threadFunc.
unfoldable pub read_command :
    (List ℕ → Option ℤ) → Option FileBytes → List ℕ → Server → Result Server
unfolding split process_command
read_command stoi default line s = process_command stoi default (split line b' ') s
