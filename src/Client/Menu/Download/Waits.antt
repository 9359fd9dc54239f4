-- ===== src/Client/Menu/Download/Waits.antt =====
-- A download that cannot end.
use bf_multiplayer.Prelude.{
  ℕ, ◌<◌, ◌≡◌, ◌≢◌, refl, ap, ◌∙◌, true, false, pos, List, [], ◌∷◌, All, ok, ◌>>=◌,
}
use bf_multiplayer.Server.SharedSave.{is_full}
use bf_multiplayer.Client.SharedSave.{reset_save_data_buffer}
use bf_multiplayer.Client.SharedSave.Transfer.{handle_save_data_chunk_total}
use bf_multiplayer.Client.Menu.{download_save, Menu, Input, Event, frame, chunk, run, begin_step}
use bf_multiplayer.Client.Menu.Download.Steps.{
  IsConnected, IsBegun, frame_first, frame_later, finish_download_partial,
  handle_save_data_chunk-other, is_full-missing,
}

-- A download whose chunk `k` is missing.
abbrev Misses : ℕ → Menu → Type 0
Misses k m = IsBegun m × (m.buffer.ack k ≡ false)

run-Misses :
    (copy : List ℕ → List ℕ) (k : ℕ) (es : List Event) (m : Menu)
    → k < 8
    → All (IsConnected (λ p. p.chunk_index ≢ pos k)) es
    → Misses k m
    → (m' : Menu) × (run copy es m ≡ ok m') × Misses k m'
unfolding run
run-Misses copy k [] m h c b = (m, refl, b)
run-Misses copy k (frame i ∷ es) m h c b =
    let partial : is_full 8 m.buffer.ack ≡ false = is_full-missing k m.buffer.ack h b.1 in
    let now =
      frame_later copy i m b.0 c.0
      ∙ ap ok (finish_download_partial i (begin_step m) (unfold begin_step in partial)) in
    let (m', ran, rest) =
      run-Misses copy k es (begin_step m) h c.1 (unfold begin_step in ((b.0.0, refl), b.1)) in
    (m', ap (λ r. r >>= run copy es) now ∙ ran, rest)
run-Misses copy k (chunk p ∷ es) m h c b =
    let (b', handled) = handle_save_data_chunk_total p m.buffer in
    let (m', ran, rest) =
      run-Misses copy k es (record m { buffer = b' }) h c.1
        (b.0, handle_save_data_chunk-other k p m.buffer b' c.0 handled ∙ b.1) in
    (m', rw handled ran, rest)
run-Misses copy k (other ∷ es) m h c b = absurd c.0

-- A chunk that came only before the first frame of a download is forgotten: while the connection
-- lasts and no chunk with its index comes again, the download does not end, whatever was acknowledged
-- before it.
pub run-download_waits :
    (copy : List ℕ → List ℕ) (k : ℕ) (i : Input) (es : List Event) (m : Menu)
    → k < 8
    → m.nerve ≡ download_save
    → m.is_new ≡ true
    → i.is_connected ≡ true
    → All (IsConnected (λ p. p.chunk_index ≢ pos k)) es
    → (m' : Menu) × (run copy (frame i ∷ es) m ≡ ok m') × (m'.nerve ≡ download_save)
unfolding run
run-download_waits copy k i es m h n new c others =
    let begun = record (begin_step m) { buffer = reset_save_data_buffer } in
    let (m', ran, missing) =
      run-Misses copy k es begun h others (unfold begin_step in ((n, refl), refl)) in
    (
      m',
      ap (λ r. r >>= run copy es)
            (frame_first copy i m n new c ∙ ap ok (finish_download_partial i begun refl))
          ∙ ran,
      missing.0.0,
    )
