-- ===== src/Server/State/Table.antt =====
-- The table of clients without what the clients say: keys, nodes and addresses.
use bf_multiplayer.Prelude.{ℕ, ◌≡◌, refl, ap, List, [], ◌∷◌, map, arith, Bool}
use bf_multiplayer.Packet.{Packet}
use bf_multiplayer.Server.State.{
  Address, Client, Server, update_node, send_packet, send_packet_to_all, send_packet_to_all_except,
}
use bf_multiplayer.Server.State.Sends.{send_packet_lem, send_packet_to_all_except_lem}

-- What identifies an entry of the table: its key, the address of its node and its peer's address.
pub record Entry : Type 0 where
  pub key : ℕ
  pub node : ℕ
  pub address : Address

abbrev pub entry_of : ℕ × Client → Entry
entry_of (k, c) = record { key = k; node = c.node; address = c.peer.address }

abbrev pub table : List (ℕ × Client) → List Entry
table = map entry_of

-- A write through a client's pointer that leaves its node and its peer alone leaves the table.
pub table-update_node :
    (n : ℕ) (f : Client → Client) (cs : List (ℕ × Client))
    → ((c : Client) → ((f c).node ≡ c.node) × ((f c).peer ≡ c.peer))
    → table (update_node n f cs) ≡ table cs
unfolding update_node
table-update_node n f [] h = refl
table-update_node n f ((k, c) ∷ cs) h = ground (arith, table-update_node n f cs h, h c)

-- Sending leaves the clients as they are.
pub send_packet-clients :
    (c : Client) (p : Packet) (r : Bool) (s : Server) → (send_packet c p r s).clients ≡ s.clients
send_packet-clients c p r s = ap (λ (t : Server). t.clients) (send_packet_lem c p r s)

pub send_packet_to_all_except-clients :
    (n : ℕ) (p : Packet) (r : Bool) (s : Server)
    → (send_packet_to_all_except n p r s).clients ≡ s.clients
send_packet_to_all_except-clients n p r s =
    ap (λ (t : Server). t.clients) (send_packet_to_all_except_lem n p r s)

pub send_packet_to_all-clients :
    (p : Packet) (r : Bool) (s : Server) → (send_packet_to_all p r s).clients ≡ s.clients
unfolding send_packet_to_all
send_packet_to_all-clients p r s = refl
