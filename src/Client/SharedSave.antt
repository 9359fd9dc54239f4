-- ===== src/Client/SharedSave.antt =====
-- src/pe/Multiplayer/SaveDataSync.cpp: the shared save file in the game.
pub mod Transfer
use bf_multiplayer.Prelude.{
  ℕ, zero, suc, ◌+◌, ◌*◌, ◌<◌, ◌≡◌, Bool, true, false, ℤ, pos, negsuc, List, [], ◌∷◌, ◌++◌, Memory,
  memcpy, ltb, leb, ◌==◌, if◌then◌else◌, Result, ok, err, ◌>>=◌, out_of_bounds,
}
use bf_multiplayer.Packet.{SaveDataChunk, save_data_chunk_size}
use bf_multiplayer.Server.SharedSave.{make_chunk, set_ack}

pub data SaveDataMode : Type 0 where
  local server : SaveDataMode

-- The length of sCachedSaveFileWorkBuffer.
abbrev pub work_buffer_capacity : ℕ
work_buffer_capacity = 65535 + 0x1000

-- The static variables: the buffer, sCachedSaveFileAck and sCachedSaveFileSize.
pub record SaveDataBuffer : Type 0 where
  pub work_buffer : Memory
  pub ack : ℕ → Bool
  pub size : ℕ

-- resetSaveDataBuffer.
abbrev pub reset_save_data_buffer : SaveDataBuffer
reset_save_data_buffer = record { work_buffer = λ _. 0; ack = λ _. false; size = 0 }

-- The tail of handle_SaveDataChunk, behind the tests.
unfoldable pub receive_chunk : ℕ → SaveDataChunk → SaveDataBuffer → Result SaveDataBuffer
receive_chunk i p b =
    if leb (save_data_chunk_size * i + p.size) work_buffer_capacity
    then ok (record {
      size = if b.ack i then b.size else b.size + p.size;
      work_buffer = memcpy b.work_buffer (save_data_chunk_size * i) p.payload p.size;
      ack = set_ack b.ack i;
    })
    else err out_of_bounds

-- The tests of the index and of the size.
unfoldable pub check_chunk : ℤ → SaveDataChunk → SaveDataBuffer → Result SaveDataBuffer
unfolding receive_chunk
check_chunk (negsuc i) p b = ok b
check_chunk (pos i) p b =
    if leb 8 i
    then ok b
    else (if ltb save_data_chunk_size p.size then ok b else receive_chunk i p b)

-- handle_SaveDataChunk.
unfoldable pub handle_save_data_chunk : SaveDataChunk → SaveDataBuffer → Result SaveDataBuffer
unfolding check_chunk
handle_save_data_chunk p b = check_chunk p.chunk_index p b

unfoldable pub handle_save_data_chunks : List SaveDataChunk → SaveDataBuffer → Result SaveDataBuffer
handle_save_data_chunks [] b = ok b
handle_save_data_chunks (p ∷ ps) b = handle_save_data_chunk p b >>= handle_save_data_chunks ps

-- The packets of one round of SaveDataUploadThread::threadFunc, from the chunk `i` on.
unfoldable pub make_chunks : ℕ → ℕ → ℕ → ℕ → Memory → Result (List SaveDataChunk)
make_chunks zero i capacity total buffer = ok []
make_chunks (suc rounds) i capacity total buffer = do
  p ← make_chunk capacity total buffer i
  ps ← make_chunks rounds (i + 1) capacity total buffer
  ok (p ∷ ps)

unfoldable pub upload : SaveDataBuffer → Result (List SaveDataChunk)
unfolding make_chunks
upload b = make_chunks 8 0 work_buffer_capacity b.size b.work_buffer

-- The calls of the system's file functions on the cached file, and what else a hook asks for.
pub data FileCall : Type 0 where
  create_file : ℕ → FileCall
  open_write : FileCall
  set_file_size : ℕ → FileCall
  write_file : ℕ → FileCall
  close_file : FileCall
  request_upload : FileCall
  original : FileCall

-- The bytes that the game saves: mSaveBuffer and mSaveBufferSize.
pub record GameSave : Type 0 where
  pub bytes : Memory
  pub size : ℕ

-- saveDataSequenceWriteHook; `exists` is FsHelper::isFileExist of the cached file.
unfoldable pub save_data_sequence_write :
    SaveDataMode → Bool → GameSave → SaveDataBuffer → Result (SaveDataBuffer × List FileCall)
save_data_sequence_write local exists g b = ok (b, original ∷ [])
save_data_sequence_write server exists g b =
    if g.size == 0
    then ok (b, [])
    else (if leb g.size work_buffer_capacity
        then ok (
          record b { work_buffer = memcpy b.work_buffer 0 g.bytes g.size; size = g.size },
          (if exists then create_file g.size ∷ [] else [])
              ++ open_write
                ∷ set_file_size g.size
                ∷ write_file g.size
                ∷ close_file
                ∷ request_upload
                ∷ [],
        )
        else err out_of_bounds)
