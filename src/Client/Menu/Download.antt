-- ===== src/Client/Menu/Download.antt =====
-- The download of the shared save in the menu: what holds of it all along.
pub mod Choices
pub mod Frames
pub mod Runs
pub mod Steps
pub mod Waits
pub mod Ends
use bf_multiplayer.Prelude.{
  ℕ, zero, suc, ◌<◌, ◌≡◌, ◌≢◌, ◌⊎◌, inl, inr, refl, sym, ap, subst, ◌∙◌, Bool, true, false, List,
  [], ◌∷◌, ◌++◌, Option, none, some, arith, All, Bool-cases, Option-cases, Result-cases, Memory,
  Agree, bytes_eqb, ok, err, Result, ◌>>=◌, if◌then◌else◌, ◌==◌,
}
use bf_multiplayer.Packet.{SaveDataChunk}
use bf_multiplayer.Server.SharedSave.{is_full}
use bf_multiplayer.Server.SharedSave.Assembly.{Fits, IsChunk}
use bf_multiplayer.Client.SharedSave.{
  SaveDataBuffer, handle_save_data_chunk, reset_save_data_buffer, server, local,
}
use bf_multiplayer.Client.SharedSave.Transfer.{
  IsReceiving, IsReceiving-Agree, reset-IsReceiving, handle_save_data_chunk-IsReceiving,
}
use bf_multiplayer.Client.Menu.{
  Nerve, char_select, char_select_back, mode_select, mode_select_out, enter_ip_nerve, connect,
  download_save, connect_end, of_game, Menu, Input, Event, completed, frame, keyboard, chunk,
  mode_select_hook, char_select_hook, file_select_hook, title_leave_hook, appear_hook, step, run,
  exe, update, begin_step, set_nerve_at, set_nerve, exe_char_select, exe_char_select_back,
  exe_mode_select_out, exe_download_save, exe_mode_select, exe_connect, exe_enter_ip,
  finish_download, leave, enter_ip_callback, Title, load_network_save, single_mode_title_hook,
  get_player_type, single_player, single_mode_title, anim_frames,
}

-- The file that the menu wrote is the shared save.
abbrev pub IsWritten : ℕ → Memory → Option (ℕ × Memory) → Type 0
IsWritten total file none = ⊥
IsWritten total file (some (size, bytes)) = (size ≡ total) × Agree total bytes file

-- A download that has begun holds chunks of the file only, at the end of one the file is written, and
-- no pointer leads to that end.
pub record IsDownload (total : ℕ) (file : Memory) (m : Menu) : Type 0 where
  pub receiving : m.nerve ≡ download_save → m.is_new ≡ false → IsReceiving total file m.buffer
  pub written : m.nerve ≡ connect_end → IsWritten total file m.written
  pub after_char_select : m.next_nerve_after_char_select ≢ some connect_end
  pub back_char_select : m.nerve_back_char_select ≢ some connect_end
  pub after_mode_select : m.next_nerve_after_mode_select ≢ some connect_end

-- A chunk that comes is one of the file, a write is completed, and the game's own nerves are not the end of a download.
abbrev pub IsOf : ℕ → Memory → Event → Type 0
IsOf total file (frame i) = i.write_end ≡ completed
IsOf total file (keyboard closed text) = Unit {0}
IsOf total file (chunk p) = (i : ℕ) × (i < 8) × IsChunk total file i p
IsOf total file mode_select_hook = Unit {0}
IsOf total file (char_select_hook n) = n ≢ connect_end
IsOf total file file_select_hook = Unit {0}
IsOf total file (title_leave_hook b) = Unit {0}
IsOf total file appear_hook = Unit {0}

-- What holds of a menu if the step ends without a fault.
abbrev pub Ensures : (Menu → Type 0) → Result Menu → Type 0
Ensures P (ok m) = P m
Ensures P (err e) = Unit {0}

-- What the invariant reads of a menu.
abbrev shared :
    Menu
    → Nerve
      × Bool
      × SaveDataBuffer
      × Option (ℕ × Memory)
      × Option Nerve
      × Option Nerve
      × Option Nerve
shared m = (
  m.nerve, m.is_new, m.buffer, m.written, m.next_nerve_after_char_select, m.nerve_back_char_select,
  m.next_nerve_after_mode_select,
)

module _ (total : ℕ) (file : Memory) where
  pub same-IsDownload :
      (m m' : Menu) → shared m' ≡ shared m → IsDownload total file m → IsDownload total file m'
  same-IsDownload m m' e d = record {
    receiving = λ a b.
        subst (IsReceiving total file) (sym (ap (λ t. t.2) e))
          (d.receiving (sym (ap (λ t. t.0) e) ∙ a) (sym (ap (λ t. t.1) e) ∙ b));
    written = λ a.
        subst (IsWritten total file) (sym (ap (λ t. t.3) e))
          (d.written (sym (ap (λ t. t.0) e) ∙ a));
    after_char_select = λ a. d.after_char_select (sym (ap (λ t. t.4) e) ∙ a);
    back_char_select = λ a. d.back_char_select (sym (ap (λ t. t.5) e) ∙ a);
    after_mode_select = λ a. d.after_mode_select (sym (ap (λ t. t.6) e) ∙ a);
  }

  pub set_nerve-IsDownload :
      (n : Nerve) (m : Menu)
      → n ≢ connect_end
      → IsDownload total file m
      → IsDownload total file (set_nerve n m)
  unfolding set_nerve
  set_nerve-IsDownload n m h d = record {
    receiving = λ a b. cc;
    written = λ a. absurd (h a);
    after_char_select = d.after_char_select;
    back_char_select = d.back_char_select;
    after_mode_select = d.after_mode_select;
  }

  pub set_nerve_at-IsDownload :
      (n : Option Nerve) (m : Menu)
      → n ≢ some connect_end
      → IsDownload total file m
      → Ensures (IsDownload total file) (set_nerve_at n m)
  unfolding set_nerve_at
  set_nerve_at-IsDownload none m h d = tt
  set_nerve_at-IsDownload (some n) m h d = set_nerve-IsDownload n m (λ e. h (ap some e)) d
