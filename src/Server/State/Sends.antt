-- ===== src/Server/State/Sends.antt =====
-- Who receives what the server sends.
use bf_multiplayer.Prelude.{
  ℕ, suc, ◌≡◌, refl, ◌∙◌, Bool, List, [], ◌∷◌, ◌++◌, map, ◌==◌, Bool-cases, inl, inr, if◌then◌else◌,
  arith, length, fun_ext,
}
use mathlib.Core.List.{append-nil, append_assoc}
use bf_multiplayer.Packet.{Packet}
use bf_multiplayer.Server.State.{
  Client, Server, Output, send, other_clients, count_packets, channel_of, send_each_except,
  send_packet_to_all_except, send_packet,
}

-- What is sent to a list of clients.
abbrev pub sends : Packet → Bool → List Client → List Output
sends p reliable = map (λ c. send c.peer.address p reliable)

count_packets_add :
    (f : ℕ → ℕ) (n c : ℕ) → count_packets n c (count_packets 1 c f) ≡ count_packets (suc n) c f
count_packets_add f n c = fun_ext λ i. ground arith

count_packets_zero : (f : ℕ → ℕ) (c : ℕ) → f ≡ count_packets 0 c f
count_packets_zero f c = fun_ext λ i. ground arith

send_each_except_lem :
    (n : ℕ) (p : Packet) (r : Bool) (cs : List (ℕ × Client)) (s : Server)
    → send_each_except n p r cs s ≡ record s {
      packets_sent = count_packets (length (other_clients n cs)) (channel_of p) s.packets_sent;
      out = s.out ++ sends p r (other_clients n cs);
    }
unfolding send_each_except other_clients
send_each_except_lem n p r [] s =
    rw (← count_packets_zero s.packets_sent (channel_of p), append-nil) refl
send_each_except_lem n p r ((k, c) ∷ cs) s = elim (Bool-cases (c.node == n)) [
  | inl same ↦ rw same (send_each_except_lem n p r cs s)
  | inr other ↦ rw other (
      send_each_except_lem n p r cs _
      ∙ rw
          (
            count_packets_add s.packets_sent (length (other_clients n cs)) (channel_of p),
            append_assoc,
          )
          refl)
]

pub send_packet_to_all_except_lem :
    (n : ℕ) (p : Packet) (r : Bool) (s : Server)
    → send_packet_to_all_except n p r s ≡ record s {
      packets_sent =
          count_packets (length (other_clients n s.clients)) (channel_of p) s.packets_sent;
      out = s.out ++ sends p r (other_clients n s.clients);
    }
unfolding send_packet_to_all_except
send_packet_to_all_except_lem n p r s = send_each_except_lem n p r s.clients s

-- What sendPacket gives to ENet.
abbrev pub replies : Client → Packet → Bool → List Output
replies c p r = if c.peer.connected then send c.peer.address p r ∷ [] else []

pub send_packet_lem :
    (c : Client) (p : Packet) (r : Bool) (s : Server)
    → send_packet c p r s ≡ record s { out = s.out ++ replies c p r }
unfolding send_packet
send_packet_lem c p r s = elim (Bool-cases c.peer.connected) [
  | inl up ↦ rw up refl
  | inr down ↦ rw (down, append-nil) refl
]
