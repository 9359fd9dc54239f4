-- ===== src/Server/Tests/Saves.antt =====
-- The theorems about the shared save and the save files, on a file of 60000 bytes.
use bf_multiplayer.Prelude.{
  ℕ, ◌≡◌, ◌<◌, refl, pos, [], ◌∷◌, none, some, Memory, ok, err, arith, inl, inr, out_of_bounds,
}
use bf_multiplayer.Packet.{SaveDataChunk}
use bf_multiplayer.Server.Json.Values.{values, values-IsJsonLib}
use bf_multiplayer.Server.SaveData.{ServerSaveData, FileBytes}
use bf_multiplayer.Server.SaveData.File.{Files, save, load}
use bf_multiplayer.Server.SaveData.File.RoundTrip.{Restored, load-save}
use bf_multiplayer.Server.State.{Server}
use bf_multiplayer.Server.SharedSave.{make_chunk, handle_save_chunk, is_empty, is_full}
use bf_multiplayer.Server.SharedSave.Assembly.{Fits, IsChunk}
use bf_multiplayer.Server.SharedSave.Delivery.{IsUploading, IsDelivered}
use bf_multiplayer.Server.SharedSave.Uploads.{
  HasChunk, AreChunks, packets, handle_save_chunks, handle_save_chunks-IsDelivered,
}
use bf_multiplayer.Server.SharedSave.Blocked.{
  handle_save_chunk_overflows, make_chunk_short, handle_sent_chunks,
}
use bf_multiplayer.Server.Service.{on_disconnect}
use bf_multiplayer.Server.Service.Threads.{on_disconnect-handle_sent_chunks}
use bf_multiplayer.Server.Tests.{
  two_players, half_uploaded, bytes_file, file_chunk, file_chunks, first_save, host_of,
  create_nothing, ada,
}

pub file-Fits : Fits 60000
file-Fits = (omega arith, omega arith)

pub file_chunk-IsChunk : (i : ℕ) → IsChunk 60000 bytes_file i (file_chunk i).1
file_chunk-IsChunk i = record { index = refl; size = refl; bytes = λ j h. refl }

pub file_chunks-AreChunks : AreChunks 60000 bytes_file file_chunks
file_chunks-AreChunks = (
  at_chunk 7 (omega arith),
  (
    at_chunk 0 (omega arith),
    (
      at_chunk 1 (omega arith),
      (
        at_chunk 2 (omega arith),
        (
          at_chunk 3 (omega arith),
          (at_chunk 4 (omega arith), (at_chunk 5 (omega arith), (at_chunk 6 (omega arith), tt))),
        ),
      ),
    ),
  ),
)
  where
    at_chunk : (i : ℕ) → i < 8 → (i < 8) × IsChunk 60000 bytes_file i (file_chunk i).1
    at_chunk i h = (h, file_chunk-IsChunk i)

pub file_chunks-HasChunk : (k : ℕ) → k < 8 → HasChunk k file_chunks
file_chunks-HasChunk k h = ground arith

pub two_players-IsUploading : (total : ℕ) (file : Memory) → IsUploading 1 total file two_players
two_players-IsUploading total file = record {
  owner = inl (unfold is_empty in refl);
  parts = λ k h a. absurd (ground arith);
  partial = unfold is_full in refl;
}

handle_save_chunks-IsDelivered_example :
    (t : Server) × (handle_save_chunks 1 (packets file_chunks) two_players ≡ ok t)
    × IsDelivered 60000 bytes_file t.save_data
handle_save_chunks-IsDelivered_example =
    handle_save_chunks-IsDelivered 1 60000 bytes_file file_chunks two_players file-Fits
      file_chunks-AreChunks (two_players-IsUploading 60000 bytes_file)
      (λ k h. inr (file_chunks-HasChunk k h))

abbrev last_chunk : SaveDataChunk
last_chunk = record { chunk_index = pos 7; size = 8000; payload = λ _. 1 }

handle_save_chunk_overflows_example : handle_save_chunk last_chunk 1 two_players ≡ err out_of_bounds
handle_save_chunk_overflows_example =
    handle_save_chunk_overflows 1 last_chunk two_players (inl (unfold is_empty in refl)) refl
      (omega arith) (omega arith)

abbrev ninth_chunk : SaveDataChunk
ninth_chunk = record { chunk_index = pos 8; size = 1; payload = λ _. 1 }

make_chunk_short_example : make_chunk 65791 10000 bytes_file 7 ≡ err out_of_bounds
make_chunk_short_example = make_chunk_short 65791 10000 bytes_file (omega arith) (omega arith)

on_disconnect-handle_sent_chunks_example :
    handle_sent_chunks
      ((2, last_chunk) ∷ [])
      (on_disconnect host_of create_nothing ada.peer.address half_uploaded)
    ≡ ok (on_disconnect host_of create_nothing ada.peer.address half_uploaded)
on_disconnect-handle_sent_chunks_example =
    on_disconnect-handle_sent_chunks host_of create_nothing ada.peer.address 1
      ((2, last_chunk) ∷ []) half_uploaded refl (unfold is_empty in refl) (ground arith, tt)

abbrev default_file : FileBytes
default_file = record { size = 100; bytes = λ _. 7 }

abbrev files_before : Files values.Text
files_before = record { save_data = none; game_data = none; game_data_default = some default_file }

load-save_example :
    (files' : Files values.Text) × (t : ServerSaveData) × (save values first_save files_before
      ≡ ok files')
    × (load values files' first_save ≡ ok (files', t))
    × Restored first_save t
load-save_example =
    load-save values values-IsJsonLib first_save first_save files_before default_file tt refl
      (omega arith) refl (omega arith)
