-- ===== src/Server/Service/Threads.antt =====
-- What a disconnected client leaves behind: its threads, and its unfinished upload.
use bf_multiplayer.Prelude.{
  ℕ, ◌≡◌, ◌≢◌, refl, sym, subst, inl, inr, false, List, [], ◌∷◌, none, some, ◌==◌, arith, Result,
  ok, err, Fault, dangling, Bool-cases, All, Option-cases,
}
use bf_multiplayer.Packet.{Packet, SaveDataChunk}
use bf_multiplayer.Server.State.{
  Address, Client, Server, Readings, upload_save, handle_packet, client_at, find_node,
  send_packet_to_all,
}
use bf_multiplayer.Server.State.Table.{table}
use bf_multiplayer.Server.SharedSave.{is_empty, upload_save_thread}
use bf_multiplayer.Server.SharedSave.Blocked.{handle_sent_chunks, handle_sent_chunks_others}
use bf_multiplayer.Server.Service.{
  find_client, erase, on_disconnect, run_thread, read_packet, handle_from,
}
use bf_multiplayer.Server.Service.Table.{IsTable, All-erase}

find_node-none :
    (n : ℕ) (cs : List (ℕ × Client)) → All (λ e. e.node ≢ n) (table cs) → find_node n cs ≡ none
unfolding find_node
find_node-none n [] a = refl
find_node-none n ((k, c) ∷ cs) a = ground (arith, a.0, find_node-none n cs a.1)

find_client-All :
    (P : ℕ → Type 0) (h : ℕ) (c : Client) (cs : List (ℕ × Client))
    → find_client h cs ≡ some c
    → All (λ e. P e.node) (table cs)
    → P c.node
unfolding find_client
find_client-All P h c [] f a = cc
find_client-All P h c ((k, d) ∷ cs) f a = elim (Bool-cases (k == h)) [
  | inl here ↦ let same : d ≡ c = ground arith in subst (λ (x : Client). P x.node) same a.0
  | inr later ↦ find_client-All P h c cs (ground arith) a.1
]

erase-find_client :
    (hash : Address → ℕ) (h : ℕ) (c : Client) (cs : List (ℕ × Client))
    → IsTable hash (table cs)
    → find_client h cs ≡ some c
    → All (λ e. e.node ≢ c.node) (table (erase h cs))
unfolding find_client erase
erase-find_client hash h c [] a f = cc
erase-find_client hash h c ((k, d) ∷ cs) a f = elim (Bool-cases (k == h)) [
  | inl here ↦
      let same : d ≡ c = ground arith in
      rw here (
        All-erase (λ e. e.node ≢ c.node) h cs
          (subst (λ (x : Client). All (λ e. e.node ≢ x.node) (table cs)) same a.2))
  | inr later ↦
      let found : find_client h cs ≡ some c = ground arith in
      rw later (
        λ e. find_client-All (λ n. n ≢ d.node) h c cs found a.2 (sym e),
        erase-find_client hash h c cs a.3 found,
      )
]

module _ (hash : Address → ℕ) (create : ℕ → List ℕ → Result Packet) where
  -- A client disconnects while one of its threads has not run: the thread then follows a pointer
  -- to an object that was destroyed, be it the upload of the save or a packet that it can read. A
  -- packet that it cannot read aborts the server, as it does with its client there.
  pub run_thread-on_disconnect :
      (address : Address) (channel : ℕ) (bytes : List ℕ) (r : Readings) (c : Client) (s : Server)
      → IsTable hash (table s.clients)
      → find_client (hash address) s.clients ≡ some c
      → let t = on_disconnect hash create address s in
        (run_thread hash create (upload_save c.node) r t ≡ err dangling)
        × ((p : Packet)
            → read_packet hash create channel bytes ≡ ok p
            → run_thread hash create (handle_packet channel bytes c.node) r t ≡ err dangling)
        × ((f : Fault)
            → read_packet hash create channel bytes ≡ err f
            → run_thread hash create (handle_packet channel bytes c.node) r t ≡ err f)
  unfolding run_thread upload_save_thread client_at on_disconnect send_packet_to_all handle_from
  run_thread-on_disconnect address channel bytes r c s a f =
      let gone =
        find_node-none c.node (erase (hash address) s.clients)
          (erase-find_client hash (hash address) c s.clients a f) in
      rw (f, on_disconnect)
        (
          rw (gone, client_at) refl,
          λ p e. rw (e, run_thread) (rw (gone, client_at) refl),
          λ g e. rw (e, run_thread) refl,
        )

  -- Nor does a disconnection end an upload that is under way: afterwards, no number of chunks from
  -- other clients has any effect, so no upload can change the shared save until a client is taken for
  -- the one that is gone.
  pub on_disconnect-handle_sent_chunks :
      (address : Address) (m : ℕ) (es : List (ℕ × SaveDataChunk)) (s : Server)
      → s.current_save_data_uploader ≡ some m
      → is_empty 8 s.save_data_ack ≡ false
      → All (λ e. m ≢ e.0) es
      → let t = on_disconnect hash create address s in handle_sent_chunks es t ≡ ok t
  unfolding on_disconnect send_packet_to_all
  on_disconnect-handle_sent_chunks address m es s owner busy others =
      elim (Option-cases (find_client (hash address) s.clients)) [
        | inl missing ↦
            rw (missing, on_disconnect) (handle_sent_chunks_others m es s owner busy others)
        | inr (c, found) ↦
            rw (found, on_disconnect) (handle_sent_chunks_others m es _ owner busy others)
      ]
