-- ===== src/Server/SharedSave/Uploads.antt =====
-- Whole uploads: what handleSaveChunk makes of the chunks that one client sends.
use bf_multiplayer.Prelude.{
  ℕ, ◌<◌, ◌≡◌, refl, ap, sym, subst, ◌∙◌, ◌⊎◌, inl, inr, true, List, [], ◌∷◌, Memory, some, arith,
  Result, ok, ◌>>=◌, All,
}
use bf_multiplayer.Packet.{SaveDataChunk}
use bf_multiplayer.Server.State.{Server}
use bf_multiplayer.Server.SharedSave.{
  set_ack, begin_upload, store_chunk, finish_upload, accept_chunk, check_chunk, handle_save_chunk,
}
use bf_multiplayer.Server.SharedSave.Assembly.{Fits, IsChunk, chunk_size-le, is_full-of_all}
use bf_multiplayer.Server.SharedSave.Delivery.{
  IsUploading, IsDelivered, begin_upload-IsBegun, store_chunk-IsBegun, finish_upload-IsUploading,
}

-- A chunk that passes the tests is stored, and the upload is finished if it is full.
handle_save_chunk_accepts :
    (node total i : ℕ) (file : Memory) (p : SaveDataChunk) (s : Server)
    → Fits total
    → i < 8
    → IsChunk total file i p
    → (begin_upload node s).current_save_data_uploader ≡ some node
    → handle_save_chunk p node s ≡ (store_chunk i p (begin_upload node s) >>= finish_upload)
unfolding handle_save_chunk check_chunk accept_chunk
handle_save_chunk_accepts node total i file p s fits h c owned =
    rw (c.index, handle_save_chunk) (ground (arith, owned, c.size, chunk_size-le total i fits))

-- A chunk of a file of seven full chunks and a last one keeps the client's upload. It is acknowledged and nothing is saved, or it was the last
-- one that was missing and the file is the shared save.
pub handle_save_chunk-IsUploading :
    (node total i : ℕ) (file : Memory) (p : SaveDataChunk) (s : Server)
    → Fits total
    → i < 8
    → IsChunk total file i p
    → IsUploading node total file s
    → (t : Server) × (handle_save_chunk p node s ≡ ok t)
      × IsUploading node total file t
      × (IsDelivered total file t.save_data
          ⊎ ((t.save_data ≡ s.save_data) × (t.save_data_ack ≡ set_ack s.save_data_ack i)))
handle_save_chunk-IsUploading node total i file p s fits h c u =
    let (begun, same_data, same_ack) = begin_upload-IsBegun node total file s u in
    let (t, stored, begun', kept_data, acked) =
      store_chunk-IsBegun node total i file p (begin_upload node s) fits h c begun in
    let (v, finished, uploading, outcome) =
      finish_upload-IsUploading node total file t fits begun' in
    (
      v,
      handle_save_chunk_accepts node total i file p s fits h c begun.uploader
          ∙ ap (λ m. m >>= finish_upload) stored
          ∙ finished,
      uploading,
      ground (arith, outcome),
    )

-- The chunks of one client, handled one after the other.
unfoldable pub handle_save_chunks : ℕ → List SaveDataChunk → Server → Result Server
handle_save_chunks node [] s = ok s
handle_save_chunks node (p ∷ ps) s = handle_save_chunk p node s >>= handle_save_chunks node ps

-- One of the packets is the chunk `k` of the file.
abbrev pub HasChunk : ℕ → List (ℕ × SaveDataChunk) → Type 0
HasChunk k [] = ⊥
HasChunk k (e ∷ es) = (k ≡ e.0) ⊎ HasChunk k es

abbrev pub packets : List (ℕ × SaveDataChunk) → List SaveDataChunk
packets [] = []
packets (e ∷ es) = e.1 ∷ packets es

-- Each packet is a chunk of the file, with its index beside it.
abbrev pub AreChunks : ℕ → Memory → List (ℕ × SaveDataChunk) → Type 0
AreChunks total file = All (λ e. (e.0 < 8) × IsChunk total file e.0 e.1)

-- Every chunk that was acknowledged or has come since is acknowledged.
abbrev Acked : Server → List (ℕ × SaveDataChunk) → Server → Type 0
Acked s es t =
    (k : ℕ) → k < 8 → (s.save_data_ack k ≡ true) ⊎ HasChunk k es → t.save_data_ack k ≡ true

Outcome : ℕ → Memory → Server → List (ℕ × SaveDataChunk) → Server → Type 0
Outcome total file s es t =
    IsDelivered total file t.save_data ⊎ ((t.save_data ≡ s.save_data) × Acked s es t)

Outcome-step :
    (total i : ℕ) (file : Memory) (p : SaveDataChunk) (es : List (ℕ × SaveDataChunk))
    (s v t : Server)
    → IsDelivered total file v.save_data
      ⊎ ((v.save_data ≡ s.save_data) × (v.save_data_ack ≡ set_ack s.save_data_ack i))
    → Outcome total file v es t
    → Outcome total file s ((i, p) ∷ es) t
unfolding Outcome
Outcome-step total i file p es s v t first (inl done) = inl done
Outcome-step total i file p es s v t (inl done) (inr (same, acked)) =
    inl (subst (IsDelivered total file) (sym same) done)
Outcome-step total i file p es s v t (inr (same, set)) (inr (same', acked)) =
    inr (same' ∙ same, λ k h e. acked k h (later k e))
  where
    later :
        (k : ℕ)
        → (s.save_data_ack k ≡ true) ⊎ HasChunk k ((i, p) ∷ es)
        → (v.save_data_ack k ≡ true) ⊎ HasChunk k es
    later k (inl old) = inl (ap (λ f. f k) set ∙ ground arith)
    later k (inr (inl new)) = inl (ap (λ f. f k) set ∙ ground arith)
    later k (inr (inr rest)) = inr rest

handle_save_chunks-Outcome :
    (node total : ℕ) (file : Memory) (es : List (ℕ × SaveDataChunk)) (s : Server)
    → Fits total
    → AreChunks total file es
    → IsUploading node total file s
    → (t : Server) × (handle_save_chunks node (packets es) s ≡ ok t)
      × IsUploading node total file t
      × Outcome total file s es t
unfolding handle_save_chunks Outcome
handle_save_chunks-Outcome node total file [] s fits c u =
    (s, refl, u, inr (refl, λ k h e. ground arith))
handle_save_chunks-Outcome node total file ((i, p) ∷ es) s fits c u =
    let (v, handled, uploading, first) =
      handle_save_chunk-IsUploading node total i file p s fits c.0.0 c.0.1 u in
    let (t, rest, uploading', outcome) =
      handle_save_chunks-Outcome node total file es v fits c.1 uploading in
    (
      t,
      ap (λ m. m >>= handle_save_chunks node (packets es)) handled ∙ rest,
      uploading',
      Outcome-step total i file p es s v t first outcome,
    )

-- A file of seven full chunks and a last one, sent by one client as chunks in any order and with any
-- repetitions, while nobody else sends one, to a server that holds no upload or a part of this one,
-- is the shared save once each of the eight chunks has come.
pub handle_save_chunks-IsDelivered :
    (node total : ℕ) (file : Memory) (es : List (ℕ × SaveDataChunk)) (s : Server)
    → Fits total
    → AreChunks total file es
    → IsUploading node total file s
    → ((k : ℕ) → k < 8 → (s.save_data_ack k ≡ true) ⊎ HasChunk k es)
    → (t : Server) × (handle_save_chunks node (packets es) s ≡ ok t)
      × IsDelivered total file t.save_data
unfolding Outcome
handle_save_chunks-IsDelivered node total file es s fits c u all =
    let (t, handled, uploading, outcome) =
      handle_save_chunks-Outcome node total file es s fits c u in
    (t, handled, delivered t uploading outcome)
  where
    delivered :
        (t : Server)
        → IsUploading node total file t
        → Outcome total file s es t
        → IsDelivered total file t.save_data
    delivered t uploading (inl done) = done
    delivered t uploading (inr (same, acked)) =
        let full = is_full-of_all 8 t.save_data_ack (λ k h. acked k h (all k h)) in
        cc (uploading.partial)
