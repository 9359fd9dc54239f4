-- ===== src/Server/Service/Table.antt =====
-- The table of clients: what every step of the server keeps of it.
use bf_multiplayer.Prelude.{
  ℕ, zero, suc, ◌+◌, ◌≡◌, ◌≢◌, refl, ap, sym, subst, inl, inr, true, false, not, ◌&&◌, List, [],
  ◌∷◌, ◌++◌, ◌==◌, arith, Result, ok, err, Bool-cases, All, Option-cases, Result-cases,
}
use bf_multiplayer.Packet.{Packet, save_data_chunk}
use bf_multiplayer.Packet.Channels.{channel_index, to_s_hello}
use bf_multiplayer.Server.SaveData.{shared_save_capacity}
use bf_multiplayer.Server.State.{
  Address, Client, Server, Readings, Thread, upload_save, handle_packet, client_at, count_packets,
  send_packet, send_packet_to_all,
}
use bf_multiplayer.Server.State.Table.{Entry, send_packet-clients, table}
use bf_multiplayer.Server.SharedSave.{make_chunk, upload_rounds, upload_save_thread}
use bf_multiplayer.Server.Handlers.Clients.{KeepsTable, KeepsTable-trans, handle-KeepsTable}
use bf_multiplayer.Server.Service.{
  entries, find_entry, read_packet, handle_from, find_client, erase, new_client, handle_packet_now,
  dispatch, receive_from, on_connect, on_receive, on_disconnect, service, Event, connect, receive,
  disconnected, nothing, run_thread, Allocates, Step, event, thread, Reach, here, next,
}

-- Every client stands under the hash of its address, no two under one key, and no two in one node.
abbrev pub IsTable : (Address → ℕ) → List Entry → Type 0
IsTable hash [] = Unit
IsTable hash (e ∷ es) =
    (e.key ≡ hash e.address)
    × All (λ d. d.key ≢ e.key) es
    × All (λ d. d.node ≢ e.node) es
    × IsTable hash es

pub All-erase :
    (P : Entry → Type 0) (h : ℕ) (cs : List (ℕ × Client))
    → All P (table cs)
    → All P (table (erase h cs))
unfolding erase
All-erase P h [] a = tt
All-erase P h ((k, c) ∷ cs) a = elim (Bool-cases (k == h)) [
  | inl gone ↦ rw gone (All-erase P h cs a.1)
  | inr kept ↦ rw kept (a.0, All-erase P h cs a.1)
]

All-erase_key : (h : ℕ) (cs : List (ℕ × Client)) → All (λ e. e.key ≢ h) (table (erase h cs))
unfolding erase
All-erase_key h [] = tt
All-erase_key h ((k, c) ∷ cs) = elim (Bool-cases (k == h)) [
  | inl gone ↦ rw gone (All-erase_key h cs)
  | inr kept ↦ rw kept (ground arith, All-erase_key h cs)
]

pub erase-IsTable :
    (hash : Address → ℕ) (h : ℕ) (cs : List (ℕ × Client))
    → IsTable hash (table cs)
    → IsTable hash (table (erase h cs))
unfolding erase
erase-IsTable hash h [] a = tt
erase-IsTable hash h ((k, c) ∷ cs) a = elim (Bool-cases (k == h)) [
  | inl gone ↦ rw gone (erase-IsTable hash h cs a.3)
  | inr kept ↦ rw kept (
    a.0,
    All-erase (λ e. e.key ≢ k) h cs a.1,
    All-erase (λ e. e.node ≢ c.node) h cs a.2,
    erase-IsTable hash h cs a.3,
  )
]

nodes-All :
    (n : ℕ) (cs : List (ℕ × Client)) → All (λ e. e.1.node ≢ n) cs → All (λ e. e.node ≢ n) (table cs)
nodes-All n [] a = tt
nodes-All n ((k, c) ∷ cs) a = (a.0, nodes-All n cs a.1)

upload_rounds-KeepsTable :
    (rounds i : ℕ) (c : Client) (s : Server) → KeepsTable s (upload_rounds rounds i c s)
unfolding upload_rounds
upload_rounds-KeepsTable zero i c s = refl
upload_rounds-KeepsTable (suc rounds) i c s =
    elim (Result-cases
      (make_chunk shared_save_capacity s.save_data.shared_save_size s.save_data.shared_save i)) [
        | inl (p, e) ↦ rw e (
            KeepsTable-trans s (send_packet c (save_data_chunk p) true s) _
              (ap table (send_packet-clients c (save_data_chunk p) true s))
              (upload_rounds-KeepsTable rounds (i + 1) c
                (send_packet c (save_data_chunk p) true s)))
        | inr (f, e) ↦ rw e tt
      ]

module _ (hash : Address → ℕ) (create : ℕ → List ℕ → Result Packet) where
  handle_packet_now-KeepsTable :
      (channel : ℕ) (bytes : List ℕ) (r : Readings) (c : Client) (s : Server)
      → KeepsTable s (handle_packet_now hash create channel bytes r c s)
  unfolding handle_packet_now
  handle_packet_now-KeepsTable channel bytes r c s =
      elim (Result-cases (read_packet hash create channel bytes)) [
        | inl (p, e) ↦
            rw (e, handle_packet_now)
              (handle-KeepsTable p r c
                (record s { packets_received = count_packets 1 channel s.packets_received }))
        | inr (f, e) ↦ rw (e, handle_packet_now) tt
      ]

  dispatch-KeepsTable :
      (channel : ℕ) (bytes : List ℕ) (r : Readings) (c : Client) (s : Server)
      → KeepsTable s (dispatch hash create channel bytes r c s)
  unfolding dispatch
  dispatch-KeepsTable channel bytes r c s = elim (Option-cases (find_entry channel entries)) [
    | inl missing ↦ rw (missing, dispatch) tt
    | inr (true, found) ↦ rw (found, dispatch) refl
    | inr (false, found) ↦ rw (found, dispatch) (handle_packet_now-KeepsTable channel bytes r c s)
  ]

  on_receive-KeepsTable :
      (address : Address) (channel : ℕ) (bytes : List ℕ) (r : Readings) (s : Server)
      → KeepsTable s (on_receive hash create address channel bytes r s)
  unfolding on_receive receive_from
  on_receive-KeepsTable address channel bytes r s =
      elim (Option-cases (find_client (hash address) s.clients)) [
        | inl missing ↦ rw (missing, on_receive) refl
        | inr (c, found) ↦
            elim (Bool-cases (not (channel == channel_index to_s_hello) && not c.has_greeting)) [
              | inl silent ↦ rw (found, on_receive, silent) refl
              | inr heard ↦ rw (found, on_receive, heard) (dispatch-KeepsTable channel bytes r c s)
            ]
      ]

  run_thread-KeepsTable :
      (t : Thread) (r : Readings) (s : Server) → KeepsTable s (run_thread hash create t r s)
  unfolding run_thread upload_save_thread handle_from
  run_thread-KeepsTable (upload_save node) r s = elim (Result-cases (client_at node s)) [
    | inl (c, e) ↦ rw e (upload_rounds-KeepsTable 8 0 c s)
    | inr (f, e) ↦ rw e tt
  ]
  run_thread-KeepsTable (handle_packet channel bytes node) r s =
      elim (Result-cases (read_packet hash create channel bytes)) [
        | inr (f, e) ↦ rw (e, run_thread) tt
        | inl (p, e) ↦ elim (Result-cases (client_at node s)) [
          | inl (c, found) ↦
              rw (e, run_thread, found)
                (handle-KeepsTable p r c
                  (record s { packets_received = count_packets 1 channel s.packets_received }))
          | inr (f, lost) ↦ rw (e, run_thread, lost) tt
        ]
      ]

  IsTable-of_KeepsTable :
      (s t : Server) (m : Result Server)
      → KeepsTable s m
      → m ≡ ok t
      → IsTable hash (table s.clients)
      → IsTable hash (table t.clients)
  IsTable-of_KeepsTable s t (ok u) k e a =
      let same : u ≡ t = cc in
      subst (λ (v : Server). IsTable hash (table v.clients)) same (subst (IsTable hash) (sym k) a)
  IsTable-of_KeepsTable s t (err f) k e a = cc

  on_disconnect-IsTable :
      (address : Address) (s : Server)
      → IsTable hash (table s.clients)
      → IsTable hash (table (on_disconnect hash create address s).clients)
  unfolding on_disconnect send_packet_to_all
  on_disconnect-IsTable address s a = elim (Option-cases (find_client (hash address) s.clients)) [
    | inl missing ↦ rw (missing, on_disconnect) a
    | inr (c, found) ↦ rw (found, on_disconnect) (erase-IsTable hash (hash address) s.clients a)
  ]

  service-IsTable :
      (e : Event) (r : Readings) (s t : Server)
      → Allocates hash create e s
      → IsTable hash (table s.clients)
      → service hash create e r s ≡ ok t
      → IsTable hash (table t.clients)
  unfolding service on_connect new_client Allocates
  service-IsTable (connect node address) r s t fresh a e =
      subst (λ (m : Result Server). TableOf m) e
        (
          refl,
          All-erase_key (hash address) s.clients,
          nodes-All node (erase (hash address) s.clients) fresh,
          erase-IsTable hash (hash address) s.clients a,
        )
    where
      TableOf : Result Server → Type 0
      TableOf (ok u) = IsTable hash (table u.clients)
      TableOf (err f) = Unit
  service-IsTable (receive address channel bytes) r s t fresh a e =
      IsTable-of_KeepsTable s t _ (on_receive-KeepsTable address channel bytes r s) e a
  service-IsTable (disconnected address) r s t fresh a e =
      IsTable-of_KeepsTable (on_disconnect hash create address s) t _ refl e
        (on_disconnect-IsTable address s a)
  service-IsTable nothing r s t fresh a e = IsTable-of_KeepsTable s t _ refl e a

  Step-IsTable :
      (s t : Server) (m : Result Server)
      → Step hash create s m
      → m ≡ ok t
      → IsTable hash (table s.clients)
      → IsTable hash (table t.clients)
  Step-IsTable s t m (event x r fresh) e a = service-IsTable x r s t fresh a e
  Step-IsTable s t m (thread before after x r at) e a =
      IsTable-of_KeepsTable (record s { threads = before ++ after }) t _
        (run_thread-KeepsTable x r (record s { threads = before ++ after })) e a

  -- From a table in which each client stands under the hash of its address, and no two clients
  -- share a key or a node, the server gets only to such tables, by any events and with its threads
  -- running at any time, as long as a new entry gets a node that is not in use once the old entry of
  -- its address is erased.
  pub Reach-IsTable :
      (s t : Server)
      → Reach hash create s t
      → IsTable hash (table s.clients)
      → IsTable hash (table t.clients)
  Reach-IsTable s t here a = a
  Reach-IsTable s t (next {t = u} {v = m} reach step e) a =
      Step-IsTable u t m step e (Reach-IsTable s u reach a)
