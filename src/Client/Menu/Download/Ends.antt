-- ===== src/Client/Menu/Download/Ends.antt =====
-- A download that ends.
use bf_multiplayer.Prelude.{
  ℕ, ◌<◌, ◌≡◌, ◌⊎◌, inl, inr, refl, ap, ◌∙◌, Bool, true, pos, some, List, [], ◌∷◌, arith, All,
  Bool-cases, Memory, ok, ◌>>=◌,
}
use bf_multiplayer.Packet.{SaveDataChunk}
use bf_multiplayer.Server.SharedSave.{is_full, set_ack}
use bf_multiplayer.Server.SharedSave.Assembly.{Fits, IsChunk, is_full-of_all}
use bf_multiplayer.Client.SharedSave.{reset_save_data_buffer}
use bf_multiplayer.Client.SharedSave.Transfer.{
  IsReceiving, IsReceiving-Agree, reset-IsReceiving, handle_save_data_chunk-IsReceiving,
  handle_save_data_chunk_total,
}
use bf_multiplayer.Client.Menu.{
  download_save, connect_end, completed, Menu, Input, Event, frame, chunk, step, run, begin_step,
  set_nerve,
}
use bf_multiplayer.Client.Menu.Download.{IsWritten}
use bf_multiplayer.Client.Menu.Download.Steps.{
  IsBegun, frame_first, frame_later, finish_download_partial, finish_download_full, frame_end,
}

-- A frame with a connection in which no write fails, or a chunk of which something holds.
abbrev pub IsServed : (SaveDataChunk → Type 0) → Event → Type 0
IsServed P (frame i) = (i.is_connected ≡ true) × (i.write_end ≡ completed)
IsServed P (chunk p) = P p
IsServed P other = ⊥

-- A chunk with the index `k` is among the events.
abbrev pub HasIndex : ℕ → List Event → Type 0
HasIndex k [] = ⊥
HasIndex k (chunk p ∷ es) = (p.chunk_index ≡ pos k) ⊎ HasIndex k es
HasIndex k (other ∷ es) = HasIndex k es

abbrev pub IsChunkOf : ℕ → Memory → SaveDataChunk → Type 0
IsChunkOf total file p = (i : ℕ) × (i < 8) × IsChunk total file i p

module _ (total : ℕ) (file : Memory) where
  -- A download that gets what it misses from the events, or that has ended.
  abbrev Completes : List Event → Menu → Type 0
  Completes es m =
      (IsBegun m
        × IsReceiving total file m.buffer
        × ((k : ℕ) → k < 8 → (m.buffer.ack k ≡ true) ⊎ HasIndex k es))
      ⊎ ((m.nerve ≡ connect_end) × IsWritten total file m.written)

  frame-Completes :
      (copy : List ℕ → List ℕ) (i : Input) (es : List Event) (m : Menu)
      → Fits total
      → i.is_connected ≡ true
      → i.write_end ≡ completed
      → Completes (frame i ∷ es) m
      → (m' : Menu) × (step copy (frame i) m ≡ ok m') × Completes es m'
  unfolding begin_step set_nerve
  frame-Completes copy i es m fits c whole (inl (b, r, all)) =
      elim (Bool-cases (is_full 8 m.buffer.ack)) [
        | inl full ↦ (
          set_nerve connect_end
              (record (begin_step m) { written = some (m.buffer.size, m.buffer.work_buffer) }),
          frame_later copy i m b c ∙ ap ok (finish_download_full i (begin_step m) full whole),
          inr (refl, IsReceiving-Agree total file m.buffer fits r full),
        )
        | inr partial ↦ (
          begin_step m,
          frame_later copy i m b c ∙ ap ok (finish_download_partial i (begin_step m) partial),
          inl ((b.0, refl), r, all),
        )
      ]
  frame-Completes copy i es m fits c whole (inr (n, w)) =
      (begin_step m, frame_end copy i m n, inr (n, w))

  chunk-Completes :
      (copy : List ℕ → List ℕ) (p : SaveDataChunk) (es : List Event) (m : Menu)
      → Fits total
      → IsChunkOf total file p
      → Completes (chunk p ∷ es) m
      → (m' : Menu) × (step copy (chunk p) m ≡ ok m') × Completes es m'
  unfolding step
  chunk-Completes copy p es m fits (i, h, c) (inl (b, r, all)) =
      let (b', handled, r', acked) =
        handle_save_data_chunk-IsReceiving total i file p m.buffer fits h c r in
      (
        record m { buffer = b' },
        rw handled refl,
        inl (b, r', λ k l. later b'.ack acked k (all k l)),
      )
    where
      later :
          (ack : ℕ → Bool)
          → ack ≡ set_ack m.buffer.ack i
          → (k : ℕ) → (m.buffer.ack k ≡ true) ⊎ HasIndex k (chunk p ∷ es)
          → (ack k ≡ true) ⊎ HasIndex k es
      later ack set k (inl old) = inl (ap (λ f. f k) set ∙ ground arith)
      later ack set k (inr (inl new)) = inl (ap (λ f. f k) set ∙ ground (arith, c.index))
      later ack set k (inr (inr rest)) = inr rest
  chunk-Completes copy p es m fits c (inr (n, w)) =
      let (b', handled) = handle_save_data_chunk_total p m.buffer in
      (record m { buffer = b' }, rw handled refl, inr (n, w))

  run-Completes :
      (copy : List ℕ → List ℕ) (es : List Event) (m : Menu)
      → Fits total
      → All (IsServed (IsChunkOf total file)) es
      → Completes es m
      → (m' : Menu) × (run copy es m ≡ ok m') × Completes [] m'
  unfolding run
  run-Completes copy [] m fits c d = (m, refl, d)
  run-Completes copy (frame i ∷ es) m fits c d =
      let (m1, now, d1) = frame-Completes copy i es m fits c.0.0 c.0.1 d in
      let (m2, ran, d2) = run-Completes copy es m1 fits c.1 d1 in
      (m2, ap (λ r. r >>= run copy es) now ∙ ran, d2)
  run-Completes copy (chunk p ∷ es) m fits c d =
      let (m1, now, d1) = chunk-Completes copy p es m fits c.0 d in
      let (m2, ran, d2) = run-Completes copy es m1 fits c.1 d1 in
      (m2, ap (λ r. r >>= run copy es) now ∙ ran, d2)
  run-Completes copy (other ∷ es) m fits c d = absurd c.0

  -- The last frame: nothing is missing any more.
  last-Completes :
      (copy : List ℕ → List ℕ) (i : Input) (m : Menu)
      → Fits total
      → i.is_connected ≡ true
      → i.write_end ≡ completed
      → Completes [] m
      → (m' : Menu) × (step copy (frame i) m ≡ ok m')
        × (m'.nerve ≡ connect_end)
        × IsWritten total file m'.written
  unfolding begin_step set_nerve
  last-Completes copy i m fits c whole (inl (b, r, all)) =
      let full = is_full-of_all 8 m.buffer.ack (λ k h. acked k (all k h)) in
      (
        set_nerve connect_end
            (record (begin_step m) { written = some (m.buffer.size, m.buffer.work_buffer) }),
        frame_later copy i m b c ∙ ap ok (finish_download_full i (begin_step m) full whole),
        refl,
        IsReceiving-Agree total file m.buffer fits r full,
      )
    where
      acked : (k : ℕ) → (m.buffer.ack k ≡ true) ⊎ HasIndex k [] → m.buffer.ack k ≡ true
      acked k (inl yes_acked) = yes_acked
      acked k (inr none_left) = absurd none_left
  last-Completes copy i m fits c whole (inr (n, w)) = (begin_step m, frame_end copy i m n, n, w)

-- A download ends: where the connection lasts, no write of a file fails and chunks of a file of seven full chunks and a last
-- one come between the frames, in any order and any number of times, each of the eight behind the
-- first frame, a frame behind them finds the menu at the end of the download, and the file that the
-- menu wrote is that file, with its size.
pub run-download_ends :
    (total : ℕ) (file : Memory) (copy : List ℕ → List ℕ) (i j : Input) (es : List Event) (m : Menu)
    → Fits total
    → m.nerve ≡ download_save
    → m.is_new ≡ true
    → i.is_connected ≡ true
    → j.is_connected ≡ true
    → j.write_end ≡ completed
    → All (IsServed (IsChunkOf total file)) es
    → ((k : ℕ) → k < 8 → HasIndex k es)
    → (m' : Menu) × ((run copy (frame i ∷ es) m >>= step copy (frame j)) ≡ ok m')
      × (m'.nerve ≡ connect_end)
      × IsWritten total file m'.written
unfolding run begin_step
run-download_ends total file copy i j es m fits n new ci cj whole of all =
    let begun = record (begin_step m) { buffer = reset_save_data_buffer } in
    let (m1, ran, d) =
      run-Completes total file copy es begun fits of
        (inl ((n, refl), reset-IsReceiving total file, λ k h. inr (all k h))) in
    let (m2, last, end, written) = last-Completes total file copy j m1 fits cj whole d in
    (
      m2,
      ap (λ r. (r >>= run copy es) >>= step copy (frame j))
            (frame_first copy i m n new ci ∙ ap ok (finish_download_partial i begun refl))
          ∙ ap (λ r. r >>= step copy (frame j)) ran
          ∙ last,
      end,
      written,
    )
