-- ===== src/Server/SharedSave/Blocked.antt =====
-- What handleSaveChunk refuses, and what it does not refuse though it should.
use bf_multiplayer.Prelude.{
  ℕ, ◌*◌, ◌≤◌, ◌<◌, ◌≡◌, ◌≢◌, refl, ◌⊎◌, inl, inr, true, false, pos, negsuc, ℤ, List, [], ◌∷◌,
  Memory, some, Bool-cases, arith, Result, ok, err, ◌>>=◌, out_of_bounds, All,
}
use bf_multiplayer.Packet.{SaveDataChunk, save_data_chunk_size}
use bf_multiplayer.Server.State.{Server}
use bf_multiplayer.Server.SharedSave.{
  is_empty, begin_upload, store_chunk, accept_chunk, check_chunk, handle_save_chunk, is_uploader,
  chunk_size, make_chunk,
}

-- A chunk of another client than the uploader changes nothing while an upload is under way.
pub handle_save_chunk_other :
    (m node : ℕ) (p : SaveDataChunk) (s : Server)
    → s.current_save_data_uploader ≡ some m
    → is_empty 8 s.save_data_ack ≡ false
    → m ≢ node
    → handle_save_chunk p node s ≡ ok s
unfolding handle_save_chunk begin_upload
handle_save_chunk_other m node p s owner busy other =
    rw (busy, handle_save_chunk) (ground (arith, owner))

-- The chunks of several clients, each with its sender, in the order in which they come.
unfoldable pub handle_sent_chunks : List (ℕ × SaveDataChunk) → Server → Result Server
handle_sent_chunks [] s = ok s
handle_sent_chunks ((node, p) ∷ es) s = handle_save_chunk p node s >>= handle_sent_chunks es

-- While a client has sent some of its chunks and not all, no number of chunks from others has any
-- effect. Nothing but that client's own chunks ends this, whether it is still there or not.
pub handle_sent_chunks_others :
    (m : ℕ) (es : List (ℕ × SaveDataChunk)) (s : Server)
    → s.current_save_data_uploader ≡ some m
    → is_empty 8 s.save_data_ack ≡ false
    → All (λ e. m ≢ e.0) es
    → handle_sent_chunks es s ≡ ok s
unfolding handle_sent_chunks
handle_sent_chunks_others m [] s owner busy others = refl
handle_sent_chunks_others m ((node, p) ∷ es) s owner busy others =
    rw (handle_save_chunk_other m node p s owner busy others.0)
      (handle_sent_chunks_others m es s owner busy others.1)

-- The uploader's last chunk passes the test of its size, and is copied past the end of the work
-- buffer if it has more than 6655 bytes.
pub handle_save_chunk_overflows :
    (node : ℕ) (p : SaveDataChunk) (s : Server)
    → (is_empty 8 s.save_data_ack ≡ true) ⊎ (s.current_save_data_uploader ≡ some node)
    → p.chunk_index ≡ pos 7
    → 6655 < p.size
    → p.size ≤ save_data_chunk_size
    → handle_save_chunk p node s ≡ err out_of_bounds
unfolding handle_save_chunk begin_upload check_chunk accept_chunk store_chunk
handle_save_chunk_overflows node p s owner index large small =
    elim (Bool-cases (is_empty 8 s.save_data_ack)) [
      | inl new ↦ rw (new, index, handle_save_chunk) (ground arith)
      | inr old ↦ rw (old, index, handle_save_chunk) (ground (arith, owner))
    ]

begin_upload_kept :
    (node : ℕ) (s : Server)
    → ((begin_upload node s).save_data ≡ s.save_data)
      × ((begin_upload node s).save_data_ack ≡ s.save_data_ack)
      × ((begin_upload node s).shared_save_work_buffer ≡ s.shared_save_work_buffer)
unfolding begin_upload
begin_upload_kept node s = elim (Bool-cases (is_empty 8 s.save_data_ack)) [
  | inl new ↦ rw new (refl, refl, refl)
  | inr old ↦ rw old (refl, refl, refl)
]

-- A chunk with an index outside 0 to 7, or with more bytes than a chunk holds, stores nothing and
-- saves nothing, whoever sends it.
pub handle_save_chunk_invalid :
    (node : ℕ) (p : SaveDataChunk) (s : Server)
    → ((i : ℕ) → p.chunk_index ≡ pos i → (8 ≤ i) ⊎ (save_data_chunk_size < p.size))
    → (t : Server) × (handle_save_chunk p node s ≡ ok t)
      × (t.save_data ≡ s.save_data)
      × (t.save_data_ack ≡ s.save_data_ack)
      × (t.shared_save_work_buffer ≡ s.shared_save_work_buffer)
unfolding handle_save_chunk
handle_save_chunk_invalid node p s bad = (
  begin_upload node s,
  handled,
  (begin_upload_kept node s).0,
  (begin_upload_kept node s).1,
  (begin_upload_kept node s).2,
)
  where
    refused :
        (c : ℤ)
        → p.chunk_index ≡ c
        → check_chunk c p (begin_upload node s) ≡ ok (begin_upload node s)
    refused (negsuc i) e = unfold check_chunk in refl
    refused (pos i) e = unfold check_chunk in ground (arith, bad i e)

    handled : handle_save_chunk p node s ≡ ok (begin_upload node s)
    handled =
        elim (Bool-cases (is_uploader (begin_upload node s).current_save_data_uploader node)) [
          | inl owner ↦ rw (owner, handle_save_chunk) (refused p.chunk_index refl)
          | inr other ↦ rw (other, handle_save_chunk) refl
        ]

-- The last chunk of a file that is shorter than seven chunks: its size wraps around, and from 2049
-- bytes on more is copied into the packet than its array holds.
pub make_chunk_short :
    (capacity total : ℕ) (buffer : Memory)
    → 2048 < total
    → total < save_data_chunk_size * 7
    → make_chunk capacity total buffer 7 ≡ err out_of_bounds
unfolding make_chunk chunk_size
make_chunk_short capacity total buffer large small = ground arith
