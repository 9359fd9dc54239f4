-- ===== src/Client/Tests/Menus.antt =====
-- The theorems about the menu and the text on the screen.
use bf_multiplayer.Prelude.{
  ℕ, zero, suc, ◌+◌, ◌<◌, ◌≤◌, ◌≡◌, ◌∙◌, refl, ap, sym, Bool, true, false, List, [], ◌∷◌, ◌++◌,
  none, some, ok, err, arith, All, inl, inr, ◌>>=◌, length, take, Memory, out_of_bounds, pos,
}
use bf_multiplayer.Packet.{SaveDataChunk}
use bf_multiplayer.Server.SharedSave.Assembly.{acked_size_full}
use bf_multiplayer.Server.SharedSave.{is_full}
use bf_multiplayer.Server.SharedSave.Uploads.{AreChunks, HasChunk}
use bf_multiplayer.Server.Tests.{bytes_file, file_chunk, file_chunks}
use bf_multiplayer.Server.Tests.Saves.{file-Fits, file_chunks-AreChunks, file_chunks-HasChunk}
use bf_multiplayer.Client.SharedSave.{SaveDataBuffer, server}
use bf_multiplayer.Client.Menu.{
  Menu, Input, completed, Event, frame, chunk, download_save, connect_end, run, step,
  single_mode_title_hook,
}
use bf_multiplayer.Client.Menu.Address.{enter_ip, connect_to}
use bf_multiplayer.Client.Menu.Address.Ports.{KeepsShort, print_port, enter_ip-print_port}
use bf_multiplayer.Client.Menu.Download.{IsDownload, IsWritten}
use bf_multiplayer.Client.Menu.Download.Runs.{run-load_network_save}
use bf_multiplayer.Client.Menu.Download.Waits.{run-download_waits}
use bf_multiplayer.Client.Menu.Download.Ends.{IsServed, IsChunkOf, HasIndex, run-download_ends}
use bf_multiplayer.Client.StatusText.{StatusText, update, lines, line}
use bf_multiplayer.Client.StatusText.{run as run_frames}
use bf_multiplayer.Client.StatusText.Lines.{log_all, update-log_all, run_silent, faded}

-- A string class that cuts off what does not fit into 16 bytes.
abbrev cut_off : List ℕ → List ℕ
cut_off = take 15

take_all : (n : ℕ) (s : List ℕ) → length s ≤ n → take n s ≡ s
take_all zero [] h = refl
take_all (suc n) [] h = refl
take_all zero (c ∷ s) h = absurd (omega arith)
take_all (suc n) (c ∷ s) h = ap (λ l. c ∷ l) (take_all n s (omega arith))

cut_off-KeepsShort : KeepsShort cut_off
cut_off-KeepsShort = record { kept = λ s h. take_all 15 s (omega arith) }

abbrev host : List ℕ
host = b'1' ∷ b'.' ∷ b'2' ∷ []

enter_ip-print_port_example :
    enter_ip cut_off (host ++ b':' ∷ print_port 8080) ≡ connect_to host 8080
enter_ip-print_port_example =
    enter_ip-print_port cut_off host 8080 cut_off-KeepsShort (omega arith) (omega arith)
      (omega arith)

abbrev online_frame : Input
online_frame = record {
  is_pad_trigger_b = false;
  decided = none;
  is_connected = true;
  write_end = completed;
}

abbrev downloading : Bool → SaveDataBuffer → Menu
downloading is_new buffer = record {
  nerve = download_save;
  step = 7;
  is_new = is_new;
  is_return_from_file_select = false;
  next_nerve_after_char_select = none;
  nerve_back_char_select = none;
  is_mode_select_from_bootup = false;
  next_nerve_after_mode_select = none;
  player_type = 0;
  keyboards = 1;
  mode = server;
  buffer = buffer;
  written = none;
  calls = [];
}

abbrev full_buffer : SaveDataBuffer
full_buffer = record { work_buffer = bytes_file; ack = λ k. true; size = 60000 }

abbrev ended : Menu
ended = record (downloading false full_buffer) {
  nerve = connect_end;
  step = 8;
  is_new = true;
  written = some (60000, bytes_file);
}

full-IsDownload : IsDownload 60000 bytes_file (downloading false full_buffer)
full-IsDownload = record {
  receiving = λ a b. record {
    count = sym (acked_size_full 60000 (λ k. true) file-Fits (unfold is_full in refl));
    parts = λ k h c i l. refl;
  };
  written = λ a. cc;
  after_char_select = λ a. cc;
  back_char_select = λ a. cc;
  after_mode_select = λ a. cc;
}

run-load_network_save_example : (ended.mode ≡ server) × IsWritten 60000 bytes_file ended.written
run-load_network_save_example =
    run-load_network_save 60000 bytes_file cut_off (frame online_frame ∷ [])
      (downloading false full_buffer) ended file-Fits (refl, tt) full-IsDownload
      (unfold run in refl) (unfold single_mode_title_hook in refl)

abbrev chunk_events : List (ℕ × SaveDataChunk) → List Event
chunk_events [] = []
chunk_events (e ∷ es) = chunk e.1 ∷ chunk_events es

chunk_events-IsServed :
    (total : ℕ) (file : Memory) (es : List (ℕ × SaveDataChunk))
    → AreChunks total file es
    → All (IsServed (IsChunkOf total file)) (chunk_events es)
chunk_events-IsServed total file [] c = tt
chunk_events-IsServed total file (e ∷ es) c =
    ((e.0, c.0.0, c.0.1), chunk_events-IsServed total file es c.1)

chunk_events-HasIndex :
    (total : ℕ) (file : Memory) (k : ℕ) (es : List (ℕ × SaveDataChunk))
    → AreChunks total file es
    → HasChunk k es
    → HasIndex k (chunk_events es)
chunk_events-HasIndex total file k [] c h = h
chunk_events-HasIndex total file k (e ∷ es) c (inl this) = inl (c.0.1.index ∙ ap pos (sym this))
chunk_events-HasIndex total file k (e ∷ es) c (inr later) =
    inr (chunk_events-HasIndex total file k es c.1 later)

abbrev new_download : Menu
new_download = downloading true full_buffer

run-download_ends_example :
    (m' : Menu) × ((run cut_off (frame online_frame ∷ chunk_events file_chunks) new_download
        >>= step cut_off (frame online_frame))
      ≡ ok m')
    × (m'.nerve ≡ connect_end)
    × IsWritten 60000 bytes_file m'.written
run-download_ends_example =
    run-download_ends 60000 bytes_file cut_off online_frame online_frame (chunk_events file_chunks)
      new_download file-Fits refl refl refl refl refl
      (chunk_events-IsServed 60000 bytes_file file_chunks file_chunks-AreChunks)
      (λ k h.
        chunk_events-HasIndex 60000 bytes_file k file_chunks file_chunks-AreChunks
          (file_chunks-HasChunk k h))

run-download_waits_example :
    (m' : Menu) × (run cut_off
        (frame online_frame ∷ chunk (file_chunk 1).1 ∷ frame online_frame ∷ [])
        new_download
      ≡ ok m')
    × (m'.nerve ≡ download_save)
run-download_waits_example =
    run-download_waits cut_off 0 online_frame (chunk (file_chunk 1).1 ∷ frame online_frame ∷ [])
      new_download (omega arith) refl refl refl (λ e. ground arith, (refl, tt))

abbrev text_a : List ℕ
text_a = b'a' ∷ []

abbrev text_b : List ℕ
text_b = b'b' ∷ []

abbrev text_c : List ℕ
text_c = b'c' ∷ []

abbrev text_x : List ℕ
text_x = b'x' ∷ []

abbrev blank : StatusText
blank = record { first = none; second = none; third = none; step = 9; is_new = false; pane = [] }

update-log_all_example :
    (length text_a + length text_b + length text_c < 1021
      → (t : StatusText) × (update (log_all ((text_x ∷ []) ++ text_a ∷ text_b ∷ text_c ∷ []) blank)
          ≡ ok t)
        × (t.pane ≡ (text_a ++ b'\n' ∷ []) ++ ((text_b ++ b'\n' ∷ []) ++ (text_c ++ b'\n' ∷ []))))
    × (1021 ≤ length text_a + length text_b + length text_c
        → update (log_all ((text_x ∷ []) ++ text_a ∷ text_b ∷ text_c ∷ []) blank)
          ≡ err out_of_bounds)
update-log_all_example = update-log_all (text_x ∷ []) text_a text_b text_c blank

abbrev noisy : StatusText
noisy = record {
  first = none;
  second = some (b'a' ∷ []);
  third = some (b'b' ∷ []);
  step = 9;
  is_new = true;
  pane = [];
}

run_silent_example :
    (run_frames 361 noisy ≡ ok (faded noisy))
    × ((t : StatusText) × (run_frames 1084 noisy ≡ ok t) × (t.pane ≡ []) × (lines t ≡ []))
run_silent_example = run_silent noisy refl (unfold line in omega arith)
