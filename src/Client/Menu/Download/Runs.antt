-- ===== src/Client/Menu/Download/Runs.antt =====
-- The events of the menu, one after the other.
use bf_multiplayer.Prelude.{
  ℕ, suc, ◌<◌, ◌≡◌, refl, subst, true, false, List, [], ◌∷◌, ◌++◌, some, arith, All, Memory, ok,
  err, Result, ◌>>=◌,
}
use bf_multiplayer.Packet.{SaveDataChunk}
use bf_multiplayer.Server.SharedSave.Assembly.{Fits, IsChunk}
use bf_multiplayer.Client.SharedSave.{SaveDataBuffer, handle_save_data_chunk, server}
use bf_multiplayer.Client.SharedSave.Transfer.{
  IsReceiving, handle_save_data_chunk-IsReceiving, handle_save_data_chunk_total,
}
use bf_multiplayer.Client.Menu.Address.{Answer, ask_again, connect_to, enter_ip}
use bf_multiplayer.Client.Menu.{
  char_select, mode_select, connect, connect_end, Menu, Event, frame, keyboard, chunk,
  mode_select_hook, char_select_hook, file_select_hook, title_leave_hook, appear_hook, step, run,
  connect_call, set_nerve, enter_ip_callback, load_network_save, single_mode_title_hook,
  set_mode_select_nerve, set_char_select_nerve, set_char_select_nerve_return_from_file_select,
  on_single_mode_title_leave, on_appear,
}
use bf_multiplayer.Client.Menu.Download.{
  IsWritten, IsDownload, IsOf, Ensures, same-IsDownload, set_nerve-IsDownload,
}
use bf_multiplayer.Client.Menu.Download.Frames.{update-IsDownload}

module _ (total : ℕ) (file : Memory) where
  -- What enterIpCallback does with an answer.
  answered-IsDownload :
      (a : Answer) (m : Menu)
      → IsDownload total file m
      → IsDownload total file (elim a [
        | ask_again ↦ record m { keyboards = suc m.keyboards }
        | connect_to host port ↦
            set_nerve connect (record m { calls = m.calls ++ connect_call host port ∷ [] })
      ])
  answered-IsDownload ask_again m d = same-IsDownload total file m _ refl d
  answered-IsDownload (connect_to host port) m d =
      set_nerve-IsDownload total file connect
        (record m { calls = m.calls ++ connect_call host port ∷ [] }) (cc)
        (same-IsDownload total file m _ refl d)

  chunk-IsDownload :
      (k : ℕ) (p : SaveDataChunk) (m : Menu) (b : SaveDataBuffer)
      → Fits total
      → k < 8
      → IsChunk total file k p
      → handle_save_data_chunk p m.buffer ≡ ok b
      → IsDownload total file m
      → IsDownload total file (record m { buffer = b })
  chunk-IsDownload k p m b fits h c e d = record {
    receiving = λ x y.
        let (b', e', r, acked) =
          handle_save_data_chunk-IsReceiving total k file p m.buffer fits h c (d.receiving x y) in
        subst (IsReceiving total file) (cc) r;
    written = d.written;
    after_char_select = d.after_char_select;
    back_char_select = d.back_char_select;
    after_mode_select = d.after_mode_select;
  }

  step-IsDownload :
      (copy : List ℕ → List ℕ) (e : Event) (m : Menu)
      → Fits total
      → IsOf total file e
      → IsDownload total file m
      → Ensures (IsDownload total file) (step copy e m)
  unfolding step enter_ip_callback set_mode_select_nerve set_char_select_nerve
      set_char_select_nerve_return_from_file_select on_single_mode_title_leave on_appear
  step-IsDownload copy (frame i) m fits o d = update-IsDownload total file i m fits o d
  step-IsDownload copy (keyboard true text) m fits o d =
      set_nerve-IsDownload total file mode_select m (cc) d
  step-IsDownload copy (keyboard false text) m fits o d =
      answered-IsDownload (enter_ip copy text) m d
  step-IsDownload copy (chunk p) m fits o d =
      let (b, handled) = handle_save_data_chunk_total p m.buffer in
      rw handled (chunk-IsDownload o.0 p m b fits o.1 o.2 handled d)
  step-IsDownload copy mode_select_hook m fits o d =
      set_nerve-IsDownload total file mode_select (record m { is_mode_select_from_bootup = true })
        (cc) (same-IsDownload total file m _ refl d)
  step-IsDownload copy (char_select_hook n) m fits o d =
      set_nerve-IsDownload total file char_select
        (record m { next_nerve_after_char_select = some n; is_return_from_file_select = false })
        (cc)
        (record {
          receiving = d.receiving;
          written = d.written;
          after_char_select = λ h. o (cc);
          back_char_select = d.back_char_select;
          after_mode_select = d.after_mode_select;
        })
  step-IsDownload copy file_select_hook m fits o d =
      set_nerve-IsDownload total file char_select (record m { is_return_from_file_select = true })
        (cc) (same-IsDownload total file m _ refl d)
  step-IsDownload copy (title_leave_hook true) m fits o d =
      set_nerve-IsDownload total file mode_select (record m { is_mode_select_from_bootup = false })
        (cc) (same-IsDownload total file m _ refl d)
  step-IsDownload copy (title_leave_hook false) m fits o d = d
  step-IsDownload copy appear_hook m fits o d = same-IsDownload total file m _ refl d

  run-IsDownload :
      (copy : List ℕ → List ℕ) (es : List Event) (m : Menu)
      → Fits total
      → All (IsOf total file) es
      → IsDownload total file m
      → Ensures (IsDownload total file) (run copy es m)
  unfolding run
  run-IsDownload copy [] m fits o d = d
  run-IsDownload copy (e ∷ es) m fits o d =
      behind (step copy e m) (step-IsDownload copy e m fits o.0 d)
        (λ m' d'. run-IsDownload copy es m' fits o.1 d')
    where
      behind :
          (r : Result Menu)
          → Ensures (IsDownload total file) r
          → ((m' : Menu)
              → IsDownload total file m'
              → Ensures (IsDownload total file) (run copy es m'))
          → Ensures (IsDownload total file) (r >>= run copy es)
      behind (ok m') d' next = next m' d'
      behind (err e) d' next = tt

-- The scene goes on only from the end of a download with the mode of a server.
load_network_save_cases :
    (m : Menu)
    → single_mode_title_hook m ≡ load_network_save
    → (m.nerve ≡ connect_end) × (m.mode ≡ server)
unfolding single_mode_title_hook
load_network_save_cases m h = ground arith

-- Whatever the player and the game do: where each chunk that comes is one of a single file of seven
-- full chunks and a last one, no write of a file fails, and the menu's pointers and the game's own nerves do not lead to the end
-- of a download, the scene loads a save of the server only in the mode of a server and when the file
-- that the menu wrote is that file, with its size. It starts from any menu outside of a download, or
-- from one in which a download of the file goes on or is written.
pub run-load_network_save :
    (total : ℕ) (file : Memory) (copy : List ℕ → List ℕ) (es : List Event) (m m' : Menu)
    → Fits total
    → All (IsOf total file) es
    → IsDownload total file m
    → run copy es m ≡ ok m'
    → single_mode_title_hook m' ≡ load_network_save
    → (m'.mode ≡ server) × IsWritten total file m'.written
run-load_network_save total file copy es m m' fits o d ran loads =
    let (end, mode) = load_network_save_cases m' loads in
    let download : IsDownload total file m' =
      subst (Ensures (IsDownload total file)) ran (run-IsDownload total file copy es m fits o d) in
    (mode, download.written end)
