-- ===== src/Server/SharedSave.antt =====
-- The shared save file in transit: Client::uploadSaveThread (server/Source/pe/Enet/Client.cpp) and
-- handleSaveChunk (server/Source/pe/Enet/ProjectPacketHandler.cpp).
pub mod Assembly
pub mod Blocked
pub mod Delivery
pub mod Uploads
use bf_multiplayer.Prelude.{
  ℕ, zero, suc, ◌+◌, ◌-◌, ◌*◌, ◌%◌, ◌<◌, ◌≡◌, Bool, true, false, ◌&&◌, ◌||◌, not, ℤ, pos, negsuc,
  List, [], ◌∷◌, ◌++◌, ◌^◌, Memory, memcpy, shifted, ltb, leb, ◌==◌, Option, none, some,
  if◌then◌else◌, Result, ok, err, ◌>>=◌, ◌>>◌, require, out_of_bounds, overread,
}
use bf_multiplayer.Packet.{SaveDataChunk, save_data_chunk_size, save_data_chunk}
use bf_multiplayer.Server.SaveData.{ServerSaveData, shared_save_capacity}
use bf_multiplayer.Server.State.{Client, Server, saved, emit, client_at, send_packet}

-- `packet.size`: a size_t cut down to a u16. The last chunk has what the others leave, and a
-- smaller file wraps around.
unfoldable pub chunk_size : ℕ → ℕ → ℕ
chunk_size total i =
    if i == 7
    then (total + 2 ^ 64 - save_data_chunk_size * 7) % 2 ^ 64 % 2 ^ 16
    else save_data_chunk_size

-- The chunk `i` of a buffer of `capacity` bytes that holds a file of `total` bytes. `packet.data` is
-- an array of sSaveDataChunkSize zeros.
unfoldable pub make_chunk : ℕ → ℕ → Memory → ℕ → Result SaveDataChunk
unfolding chunk_size
make_chunk capacity total buffer i = do
  require (leb (chunk_size total i) save_data_chunk_size) out_of_bounds
  require (leb (save_data_chunk_size * i + chunk_size total i) capacity) overread
  ok (record {
    chunk_index = pos i;
    size = chunk_size total i;
    payload = memcpy (λ _. 0) 0 (shifted buffer (save_data_chunk_size * i)) (chunk_size total i);
  })

-- The loop of uploadSaveThread, with `rounds` rounds left.
unfoldable pub upload_rounds : ℕ → ℕ → Client → Server → Result Server
unfolding make_chunk
upload_rounds zero i c s = ok s
upload_rounds (suc rounds) i c s =
    make_chunk shared_save_capacity s.save_data.shared_save_size s.save_data.shared_save i >>= λ p.
    upload_rounds rounds (i + 1) c (send_packet c (save_data_chunk p) true s)

-- Client::uploadSaveThread, through a pointer to a client that may be gone.
unfoldable pub upload_save_thread : ℕ → Server → Result Server
unfolding upload_rounds
upload_save_thread node s = do c ← client_at node s; upload_rounds 8 0 c s

-- The loops over mSaveDataAck: `isEmpty` and `isFull`, over the first `n` entries.
unfoldable pub is_empty : ℕ → (ℕ → Bool) → Bool
is_empty zero ack = true
is_empty (suc n) ack = not (ack n) && is_empty n ack

unfoldable pub is_full : ℕ → (ℕ → Bool) → Bool
is_full zero ack = true
is_full (suc n) ack = ack n && is_full n ack

-- `a[i] = true`.
abbrev pub set_ack : (ℕ → Bool) → ℕ → ℕ → Bool
set_ack ack i k = if k == i then true else ack k

-- The value of mCurrentSaveDataUploader is this client.
abbrev pub is_uploader : Option ℕ → ℕ → Bool
is_uploader none n = false
is_uploader (some m) n = m == n

-- The size of mSharedSaveWorkBuffer, that of `sharedSave`.
abbrev pub work_buffer_capacity : ℕ
work_buffer_capacity = shared_save_capacity

-- The first block: an upload begins when no chunk is there.
unfoldable pub begin_upload : ℕ → Server → Server
unfolding is_empty
begin_upload node s =
    if is_empty 8 s.save_data_ack
    then (record s { shared_save_work_buffer_size = 0; current_save_data_uploader = some node })
    else s

-- The `memcpy` into the work buffer, and the bookkeeping behind it.
unfoldable pub stored : ℕ → SaveDataChunk → Server → Server
stored i p s = record s {
  shared_save_work_buffer =
      memcpy s.shared_save_work_buffer (save_data_chunk_size * i) p.payload p.size;
  shared_save_work_buffer_size =
      if s.save_data_ack i
      then s.shared_save_work_buffer_size
      else s.shared_save_work_buffer_size + p.size;
  save_data_ack = set_ack s.save_data_ack i;
}

-- The offset and the size are not tested against the buffer's end.
unfoldable pub store_chunk : ℕ → SaveDataChunk → Server → Result Server
unfolding stored
store_chunk i p s =
    if leb (save_data_chunk_size * i + p.size) work_buffer_capacity
    then ok (stored i p s)
    else err out_of_bounds

-- The shared save taken over from the work buffer.
unfoldable pub commit_save : ServerSaveData → Server → ServerSaveData
commit_save d s = record d {
  shared_save_size = s.shared_save_work_buffer_size;
  shared_save = memcpy d.shared_save 0 s.shared_save_work_buffer s.shared_save_work_buffer_size;
}

-- The server after a full buffer has become the shared save, which is written to the files.
unfoldable pub committed : Server → Server
unfolding commit_save
committed s = record s {
  save_data_ack = λ _. false;
  current_save_data_uploader = none;
  save_data = commit_save s.save_data s;
  out = s.out ++ saved (commit_save s.save_data s) ∷ [];
}

-- The last block. The accumulated size is not tested against the array's either.
unfoldable pub finish_upload : Server → Result Server
unfolding is_full committed
finish_upload s =
    if is_full 8 s.save_data_ack
    then (if leb s.shared_save_work_buffer_size shared_save_capacity
        then ok (committed s)
        else err out_of_bounds)
    else ok s

-- A chunk from the uploader whose index and size have been tested.
unfoldable pub accept_chunk : ℕ → SaveDataChunk → Server → Result Server
unfolding store_chunk finish_upload
accept_chunk i p s = store_chunk i p s >>= finish_upload

-- The tests of the index and of the size.
unfoldable pub check_chunk : ℤ → SaveDataChunk → Server → Result Server
unfolding accept_chunk
check_chunk (negsuc i) p s = ok s
check_chunk (pos i) p s =
    if leb 8 i then ok s else (if ltb save_data_chunk_size p.size then ok s else accept_chunk i p s)

-- handleSaveChunk.
unfoldable pub handle_save_chunk : SaveDataChunk → ℕ → Server → Result Server
unfolding begin_upload check_chunk
handle_save_chunk p node s =
    let t = begin_upload node s in
    if is_uploader t.current_save_data_uploader node then check_chunk p.chunk_index p t else ok t
