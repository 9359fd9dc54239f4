-- ===== src/Server/Console/Commands.antt =====
-- What the console makes of a line.
use bf_multiplayer.Prelude.{
  ℕ, ◌≡◌, ◌≢◌, ◌↔◌, refl, inl, inr, true, ℤ, List, [], ◌∷◌, ◌++◌, Option, some, ◌==◌, arith, err,
  overread, Bool-cases, All,
}
use bf_multiplayer.Packet.{to_c_cheat_packet, teleport}
use bf_multiplayer.Server.SaveData.{
  FileBytes, ServerSaveData, reset, load_shared_default, load_shared_from, read_bytes_from_file,
}
use bf_multiplayer.Server.State.{Client, Server, other_clients}
use bf_multiplayer.Server.State.Sends.{sends, send_packet_to_all_except_lem}
use bf_multiplayer.Server.Console.{
  split_from, split, search_client, teleport_all, reset_save, teleport_command, process_command,
  read_command,
}

All-append_one :
    (d : ℕ) (bs : List ℕ) (b : ℕ) → All (λ x. x ≢ d) bs → b ≢ d → All (λ x. x ≢ d) (bs ++ b ∷ [])
All-append_one d [] b a h = (h, tt)
All-append_one d (x ∷ bs) b a h = (a.0, All-append_one d bs b a.1 h)

split_from-free :
    (d : ℕ) (line str : List ℕ)
    → All (λ x. x ≢ d) line
    → All (λ piece. All (λ x. x ≢ d) piece) (split_from d line str)
unfolding split_from
split_from-free d [] [] a = tt
split_from-free d (c ∷ cs) [] a = (a, tt)
split_from-free d line (b ∷ bs) a = elim (Bool-cases (b == d)) [
  | inl cut ↦ rw cut (a, split_from-free d [] bs tt)
  | inr more ↦
      rw more (split_from-free d (line ++ b ∷ []) bs (All-append_one d line b a (ground arith)))
]

split_from-eq-nil :
    (d : ℕ) (line str : List ℕ) → split_from d line str ≡ [] → (line ≡ []) × (str ≡ [])
unfolding split_from
split_from-eq-nil d [] [] e = (refl, refl)
split_from-eq-nil d (c ∷ cs) [] e = cc
split_from-eq-nil d line (b ∷ bs) e = elim (Bool-cases (b == d)) [
  | inl cut ↦ ground (arith, cut)
  | inr more ↦
      let joined = (split_from-eq-nil d (line ++ b ∷ []) bs (ground (arith, more))).0 in
      absurd (append_one-ne-nil line b joined)
]
  where
    append_one-ne-nil : (l : List ℕ) (x : ℕ) → l ++ x ∷ [] ≡ [] → ⊥
    append_one-ne-nil [] x h = cc
    append_one-ne-nil (y ∷ l) x h = cc

-- A line is cut into pieces that do not have the delimiter, and into none exactly when it is empty.
pub split_lem :
    (line : List ℕ) (d : ℕ)
    → All (λ piece. All (λ x. x ≢ d) piece) (split line d) × ((split line d ≡ []) ↔ (line ≡ []))
unfolding split
split_lem line d = (
  split_from-free d [] line tt,
  (λ e. (split_from-eq-nil d [] line e).1, λ e. rw e (unfold split_from in refl)),
)

reset-ne-overread :
    (default : Option FileBytes) (d : ServerSaveData) → reset default d ≢ err overread
unfolding reset load_shared_default load_shared_from read_bytes_from_file
reset-ne-overread default d e = ground arith

reset_save-ne-overread :
    (default : Option FileBytes) (s : Server) → reset_save default s ≢ err overread
unfolding reset_save
reset_save-ne-overread default s e = ground (arith, reset-ne-overread default s.save_data)

process_command-ne-overread :
    (stoi : List ℕ → Option ℤ) (default : Option FileBytes) (name : List ℕ) (args : List (List ℕ))
    (s : Server)
    → process_command stoi default (name ∷ args) s ≢ err overread
unfolding process_command
process_command-ne-overread stoi default name args s e =
    ground (arith, reset_save-ne-overread default s)

-- A line makes the console read an argument that is not there exactly when the line is empty,
-- whatever the server's state and its files are.
pub read_command_overread :
    (stoi : List ℕ → Option ℤ) (default : Option FileBytes) (line : List ℕ) (s : Server)
    → (read_command stoi default line s ≡ err overread) ↔ (line ≡ [])
unfolding read_command
read_command_overread stoi default line s = (only (split line 32) refl, λ e. rw e refl)
  where
    only :
        (ps : List (List ℕ))
        → split line 32 ≡ ps
        → read_command stoi default line s ≡ err overread
        → line ≡ []
    only [] h e = (split_lem line 32).1.0 h
    only (name ∷ args) h e =
        absurd (process_command-ne-overread stoi default name args s (rw h at e))

-- `tpall` with a query that finds a player sends that player's position to every other client and
-- to nobody else, and changes nothing but the outputs and the count of sent packets.
pub teleport_command_lem :
    (query : List ℕ) (c : Client) (s : Server)
    → search_client query s.clients ≡ some c
    → let t = teleport_command (query ∷ []) s in
      (t.out
        ≡ s.out
          ++ sends (to_c_cheat_packet (teleport c.trans)) true (other_clients c.node s.clients))
      × (t.save_data ≡ s.save_data)
      × (t.clients ≡ s.clients)
unfolding teleport_command teleport_all
teleport_command_lem query c s found =
    rw (found, teleport_command, send_packet_to_all_except_lem) (refl, refl, refl)
