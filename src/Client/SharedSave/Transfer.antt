-- ===== src/Client/SharedSave/Transfer.antt =====
-- The shared save from the game to the server and from the server to the game.
use bf_multiplayer.Prelude.{
  ℕ, zero, suc, ◌+◌, ◌*◌, ◌≤◌, ◌<◌, ◌≡◌, refl, ap, sym, subst, ◌∙◌, ◌⊎◌, inl, inr, Bool, true,
  false, pos, negsuc, ℤ, List, [], ◌∷◌, Memory, Agree, memcpy, ltb, leb, if◌then◌else◌, arith, ok,
  ◌>>=◌, Bool-cases, ℕ_discrete,
}
use bf_multiplayer.Packet.{SaveDataChunk, save_data_chunk_size}
use bf_multiplayer.Server.State.{Server}
use bf_multiplayer.Server.SharedSave.{set_ack, is_empty, is_full}
use bf_multiplayer.Server.SharedSave.Assembly.{
  Fits, IsChunk, acked_size, acked_size_empty, chunk_size-le, acked_size-set, acked_size_full,
  is_full-of_all, is_full-at,
}
use bf_multiplayer.Server.SharedSave.Delivery.{
  HasPart, HasPart-memcpy_self, HasPart-memcpy_other, parts-Agree, IsUploading, IsDelivered,
  make_chunk-IsChunk,
}
use bf_multiplayer.Server.SharedSave.Uploads.{
  HasChunk, AreChunks, packets, handle_save_chunks, handle_save_chunks-IsDelivered,
}
use bf_multiplayer.Client.SharedSave.{
  SaveDataBuffer, check_chunk, handle_save_data_chunk, handle_save_data_chunks, make_chunks, upload,
  work_buffer_capacity, reset_save_data_buffer,
}

-- The acknowledged chunks of a file are in the buffer, and their sizes add up to its size.
pub record IsReceiving (total : ℕ) (file : Memory) (b : SaveDataBuffer) : Type 0 where
  pub count : b.size ≡ acked_size total 8 b.ack
  pub parts : (k : ℕ) → k < 8 → b.ack k ≡ true → HasPart total file k b.work_buffer

-- Any chunk at all is handled without a fault: the game's buffer has room for eight full chunks.
pub handle_save_data_chunk_total :
    (p : SaveDataChunk) (b : SaveDataBuffer)
    → (b' : SaveDataBuffer) × (handle_save_data_chunk p b ≡ ok b')
unfolding handle_save_data_chunk
handle_save_data_chunk_total p b = total_at p.chunk_index
  where
    total_at : (c : ℤ) → (b' : SaveDataBuffer) × (check_chunk c p b ≡ ok b')
    total_at (negsuc i) = (b, unfold check_chunk in refl)
    total_at (pos i) = elim (Bool-cases (leb 8 i)) [
      | inl above ↦ (b, unfold check_chunk in ground arith)
      | inr below ↦ elim (Bool-cases (ltb save_data_chunk_size p.size)) [
        | inl large ↦ (b, unfold check_chunk in ground arith)
        | inr small ↦ (
          record {
            size = if b.ack i then b.size else b.size + p.size;
            work_buffer = memcpy b.work_buffer (save_data_chunk_size * i) p.payload p.size;
            ack = set_ack b.ack i;
          },
          unfold check_chunk in ground arith,
        )
      ]
    ]

pub handle_save_data_chunk-IsReceiving :
    (total i : ℕ) (file : Memory) (p : SaveDataChunk) (b : SaveDataBuffer)
    → Fits total
    → i < 8
    → IsChunk total file i p
    → IsReceiving total file b
    → (b' : SaveDataBuffer) × (handle_save_data_chunk p b ≡ ok b')
      × IsReceiving total file b'
      × (b'.ack ≡ set_ack b.ack i)
unfolding handle_save_data_chunk
handle_save_data_chunk-IsReceiving total i file p b fits h c r = (
  record {
    size = if b.ack i then b.size else b.size + p.size;
    work_buffer = memcpy b.work_buffer (save_data_chunk_size * i) p.payload p.size;
    ack = set_ack b.ack i;
  },
  rw c.index (unfold check_chunk in ground (arith, c.size, chunk_size-le total i fits)),
  record {
    count = ground (arith, r.count, c.size, acked_size-set total 8 i b.ack h);
    parts = λ k l a. part k l a;
  },
  refl,
)
  where
    part :
        (k : ℕ)
        → k < 8
        → set_ack b.ack i k ≡ true
        → HasPart total file k (memcpy b.work_buffer (save_data_chunk_size * i) p.payload p.size)
    part k l a = elim (ℕ_discrete k i) [
      | yes same ↦
          subst
            (λ m.
              HasPart total file m
                (memcpy b.work_buffer (save_data_chunk_size * i) p.payload p.size))
            (sym same) (HasPart-memcpy_self total i file b.work_buffer p c)
      | no other ↦
          HasPart-memcpy_other total i k file b.work_buffer p fits c other
            (r.parts k l (ground arith))
    ]

-- The rounds of an upload from the chunk `i` on give the chunks of the file, each with its index.
make_chunks-AreChunks :
    (rounds i total : ℕ) (file : Memory)
    → Fits total
    → i + rounds ≡ 8
    → (es : List (ℕ × SaveDataChunk)) × (make_chunks rounds i work_buffer_capacity total file
        ≡ ok (packets es))
      × AreChunks total file es
      × ((k : ℕ) → i ≤ k → k < 8 → HasChunk k es)
unfolding make_chunks
make_chunks-AreChunks zero i total file fits h = ([], refl, tt, λ k l u. absurd (omega arith))
make_chunks-AreChunks (suc rounds) i total file fits h =
    let (p, made, c) =
      make_chunk-IsChunk work_buffer_capacity total i file fits (omega arith) (omega arith) in
    let (es, rest, chunks, all) =
      make_chunks-AreChunks rounds (i + 1) total file fits (omega arith) in
    (
      (i, p) ∷ es,
      rw (made, rest) refl,
      ((omega arith, c), chunks),
      λ k l u. elim (ℕ_discrete k i) [
        | yes same ↦ inl same
        | no other ↦ inr (all k (ground arith) u)
      ],
    )

-- A file of seven full chunks and a last one goes from the game's buffer to the server: the game
-- makes its packets, and a server that has no upload of another client, or that holds a part of this one, has the file as
-- its shared save behind them.
pub upload-IsDelivered :
    (node : ℕ) (b : SaveDataBuffer) (s : Server)
    → Fits b.size
    → IsUploading node b.size b.work_buffer s
    → (ps : List SaveDataChunk) × (t : Server) × (upload b ≡ ok ps)
      × (handle_save_chunks node ps s ≡ ok t)
      × IsDelivered b.size b.work_buffer t.save_data
unfolding upload
upload-IsDelivered node b s fits u =
    let (es, made, chunks, all) =
      make_chunks-AreChunks 8 0 b.size b.work_buffer fits (omega arith) in
    let (t, handled, delivered) =
      handle_save_chunks-IsDelivered node b.size b.work_buffer es s fits chunks u
        (λ k h. inr (all k (omega arith) h)) in
    (packets es, t, made, handled, delivered)

-- The chunks of a file keep what was received, and each of them is acknowledged behind them.
handle_save_data_chunks-IsReceiving :
    (total : ℕ) (file : Memory) (es : List (ℕ × SaveDataChunk)) (b : SaveDataBuffer)
    → Fits total
    → AreChunks total file es
    → IsReceiving total file b
    → (b' : SaveDataBuffer) × (handle_save_data_chunks (packets es) b ≡ ok b')
      × IsReceiving total file b'
      × ((k : ℕ) → (b.ack k ≡ true) ⊎ HasChunk k es → b'.ack k ≡ true)
unfolding handle_save_data_chunks
handle_save_data_chunks-IsReceiving total file [] b fits c r = (b, refl, r, λ k a. ground arith)
handle_save_data_chunks-IsReceiving total file ((i, p) ∷ es) b fits c r =
    let (v, handled, received, set) =
      handle_save_data_chunk-IsReceiving total i file p b fits c.0.0 c.0.1 r in
    let (b', rest, received', acked) =
      handle_save_data_chunks-IsReceiving total file es v fits c.1 received in
    (
      b',
      ap (λ m. m >>= handle_save_data_chunks (packets es)) handled ∙ rest,
      received',
      λ k a. acked k (later v.ack set k a),
    )
  where
    later :
        (ack : ℕ → Bool)
        → ack ≡ set_ack b.ack i
        → (k : ℕ) → (b.ack k ≡ true) ⊎ HasChunk k ((i, p) ∷ es)
        → (ack k ≡ true) ⊎ HasChunk k es
    later ack set k (inl old) = inl (ap (λ f. f k) set ∙ ground arith)
    later ack set k (inr (inl new)) = inl (ap (λ f. f k) set ∙ ground arith)
    later ack set k (inr (inr rest)) = inr rest

pub reset-IsReceiving : (total : ℕ) (file : Memory) → IsReceiving total file reset_save_data_buffer
reset-IsReceiving total file = record {
  count = sym (acked_size_empty total 8 (λ _. false) (unfold is_empty in refl));
  parts = λ k l a. absurd (ground arith);
}

-- A buffer with every chunk of the file holds the file.
pub IsReceiving-Agree :
    (total : ℕ) (file : Memory) (b : SaveDataBuffer)
    → Fits total
    → IsReceiving total file b
    → is_full 8 b.ack ≡ true
    → (b.size ≡ total) × Agree total b.work_buffer file
IsReceiving-Agree total file b fits r full = (
  r.count ∙ acked_size_full total b.ack fits full,
  parts-Agree total file b.work_buffer fits (λ k h. r.parts k h (is_full-at 8 b.ack k full h)),
)

-- The chunks of a file of seven full chunks and a last one, in any order and with any repetitions, give the game that file
-- and its size, once each of the eight has come to the reset buffer.
pub handle_save_data_chunks-Agree :
    (total : ℕ) (file : Memory) (es : List (ℕ × SaveDataChunk))
    → Fits total
    → AreChunks total file es
    → ((k : ℕ) → k < 8 → HasChunk k es)
    → (b : SaveDataBuffer) × (handle_save_data_chunks (packets es) reset_save_data_buffer ≡ ok b)
      × (b.size ≡ total)
      × Agree total b.work_buffer file
handle_save_data_chunks-Agree total file es fits c all =
    let (b, handled, received, acked) =
      handle_save_data_chunks-IsReceiving total file es reset_save_data_buffer fits c
        (reset-IsReceiving total file) in
    let (size, bytes) =
      IsReceiving-Agree total file b fits received
        (is_full-of_all 8 b.ack (λ k h. acked k (inr (all k h)))) in
    (b, handled, size, bytes)
