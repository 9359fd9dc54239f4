-- ===== src/Client/Menu/Download/Steps.antt =====
-- One frame and one chunk of a download, while the connection lasts.
use bf_multiplayer.Prelude.{
  ℕ, ◌<◌, ◌≡◌, ◌≢◌, inl, inr, refl, sym, ap, subst, ◌∙◌, Bool, true, false, ℤ, pos, negsuc, some,
  List, arith, Bool-cases, ok, ◌==◌,
}
use bf_multiplayer.Packet.{SaveDataChunk}
use bf_multiplayer.Server.SharedSave.{is_full}
use bf_multiplayer.Server.SharedSave.Assembly.{is_full-at}
use bf_multiplayer.Client.SharedSave.{
  SaveDataBuffer, check_chunk, receive_chunk, handle_save_data_chunk, reset_save_data_buffer,
}
use bf_multiplayer.Client.Menu.{
  Nerve, download_save, connect_end, Menu, Input, Event, frame, chunk, step, exe, update,
  begin_step, set_nerve, exe_download_save, finish_download, completed, write_file_to_path,
}

-- A frame with a connection, or a chunk of which something holds.
abbrev pub IsConnected : (SaveDataChunk → Type 0) → Event → Type 0
IsConnected P (frame i) = i.is_connected ≡ true
IsConnected P (chunk p) = P p
IsConnected P other = ⊥

-- A download behind its first frame.
abbrev pub IsBegun : Menu → Type 0
IsBegun m = (m.nerve ≡ download_save) × (m.is_new ≡ false)

pub exe-download :
    (n : Nerve) (i : Input) (m : Menu) → n ≡ download_save → exe n i m ≡ ok (exe_download_save i m)
exe-download n i m e =
    subst (λ k. exe k i m ≡ ok (exe_download_save i m)) (sym e) (unfold exe in refl)

pub begin_step_first : (m : Menu) → m.is_new ≡ true → ((begin_step m).step == 0) ≡ true
unfolding begin_step
begin_step_first m h = ground arith

pub begin_step_later : (m : Menu) → m.is_new ≡ false → ((begin_step m).step == 0) ≡ false
unfolding begin_step
begin_step_later m h = ground arith

exe_download_save_first :
    (i : Input) (m : Menu)
    → (m.step == 0) ≡ true
    → i.is_connected ≡ true
    → exe_download_save i m ≡ finish_download i (record m { buffer = reset_save_data_buffer })
unfolding exe_download_save
exe_download_save_first i m s c = rw (s, c) refl

exe_download_save_later :
    (i : Input) (m : Menu)
    → (m.step == 0) ≡ false
    → i.is_connected ≡ true
    → exe_download_save i m ≡ finish_download i m
unfolding exe_download_save
exe_download_save_later i m s c = rw (s, c) refl

-- The first frame forgets the chunks that came before it, and a later one ends the download or not.
pub frame_first :
    (copy : List ℕ → List ℕ) (i : Input) (m : Menu)
    → m.nerve ≡ download_save
    → m.is_new ≡ true
    → i.is_connected ≡ true
    → step copy (frame i) m
      ≡ ok (finish_download i (record (begin_step m) { buffer = reset_save_data_buffer }))
unfolding step update
frame_first copy i m n new c =
    exe-download m.nerve i (begin_step m) n
    ∙ ap ok (exe_download_save_first i (begin_step m) (begin_step_first m new) c)

pub frame_later :
    (copy : List ℕ → List ℕ) (i : Input) (m : Menu)
    → IsBegun m
    → i.is_connected ≡ true
    → step copy (frame i) m ≡ ok (finish_download i (begin_step m))
unfolding step update
frame_later copy i m b c =
    exe-download m.nerve i (begin_step m) b.0
    ∙ ap ok (exe_download_save_later i (begin_step m) (begin_step_later m b.1) c)

pub finish_download_partial :
    (i : Input) (m : Menu) → is_full 8 m.buffer.ack ≡ false → finish_download i m ≡ m
unfolding finish_download
finish_download_partial i m h = rw h refl

pub finish_download_full :
    (i : Input) (m : Menu)
    → is_full 8 m.buffer.ack ≡ true
    → i.write_end ≡ completed
    → finish_download i m
      ≡ set_nerve connect_end (record m { written = some (m.buffer.size, m.buffer.work_buffer) })
unfolding finish_download write_file_to_path
finish_download_full i m h whole = rw (h, whole) refl

-- A chunk with another index leaves the acknowledgement of one as it is.
pub handle_save_data_chunk-other :
    (k : ℕ) (p : SaveDataChunk) (b b' : SaveDataBuffer)
    → p.chunk_index ≢ pos k
    → handle_save_data_chunk p b ≡ ok b'
    → b'.ack k ≡ b.ack k
unfolding handle_save_data_chunk check_chunk receive_chunk
handle_save_data_chunk-other k p b b' h e = at_index p.chunk_index h e
  where
    at_index : (c : ℤ) → c ≢ pos k → check_chunk c p b ≡ ok b' → b'.ack k ≡ b.ack k
    at_index (pos i) n f = ground arith
    at_index (negsuc i) n f = ground arith

pub is_full-missing : (k : ℕ) (ack : ℕ → Bool) → k < 8 → ack k ≡ false → is_full 8 ack ≡ false
is_full-missing k ack h a = elim (Bool-cases (is_full 8 ack)) [
  | inl full ↦ ground (arith, is_full-at 8 ack k full h)
  | inr partial ↦ partial
]

pub frame_end :
    (copy : List ℕ → List ℕ) (i : Input) (m : Menu)
    → m.nerve ≡ connect_end
    → step copy (frame i) m ≡ ok (begin_step m)
unfolding step update
frame_end copy i m n =
    subst (λ k. exe k i (begin_step m) ≡ ok (begin_step m)) (sym n) (unfold exe in refl)
