-- ===== src/Client/Menu/Download/Choices.antt =====
-- The frames of every nerve of the menu but that of the download.
use bf_multiplayer.Prelude.{
  ℕ, ◌≢◌, inl, inr, refl, Bool, true, false, Option, some, Bool-cases, Option-cases, Memory,
  bytes_eqb, ok, if◌then◌else◌, ◌==◌,
}
use bf_multiplayer.Client.SharedSave.{server}
use bf_multiplayer.Client.Menu.{
  Nerve, char_select, char_select_back, mode_select, mode_select_out, enter_ip_nerve, connect,
  download_save, connect_end, of_game, Menu, Input, exe, begin_step, set_nerve_at, set_nerve,
  exe_char_select, exe_char_select_back, exe_mode_select_out, exe_mode_select, exe_connect,
  exe_enter_ip, leave, get_player_type, single_player, single_mode_title, anim_frames,
}
use bf_multiplayer.Client.Menu.Download.{
  IsDownload, Ensures, same-IsDownload, set_nerve-IsDownload, set_nerve_at-IsDownload,
}

module _ (total : ℕ) (file : Memory) where
  -- Anything but the nerve, the buffer, the file and the pointers.
  pub begin_step-IsDownload :
      (m : Menu)
      → m.nerve ≢ download_save
      → IsDownload total file m
      → IsDownload total file (begin_step m)
  unfolding begin_step
  begin_step-IsDownload m h d = record {
    receiving = λ a b. absurd (h a);
    written = d.written;
    after_char_select = d.after_char_select;
    back_char_select = d.back_char_select;
    after_mode_select = d.after_mode_select;
  }

  exe_char_select-IsDownload :
      (i : Input) (m : Menu)
      → IsDownload total file m
      → Ensures (IsDownload total file) (exe_char_select i m)
  unfolding exe_char_select
  exe_char_select-IsDownload i m d = elim (Bool-cases i.is_pad_trigger_b) [
    | inl back ↦ rw back (set_nerve-IsDownload total file char_select_back m (cc) d)
    | inr on ↦ elim (Option-cases i.decided) [
      | inl none_yet ↦ rw (on, none_yet) d
      | inr (name, decided) ↦
          rw (on, decided)
            (set_nerve_at-IsDownload total file m.next_nerve_after_char_select
              (record m { player_type = get_player_type name }) d.after_char_select
              (same-IsDownload total file m _ refl d))
    ]
  ]

  -- Both ways on from a nerve whose frames are counted.
  at_end-IsDownload :
      (b : Bool) (n : Option Nerve) (m : Menu)
      → n ≢ some connect_end
      → IsDownload total file m
      → Ensures (IsDownload total file) (if b then set_nerve_at n m else ok m)
  at_end-IsDownload true n m h d = set_nerve_at-IsDownload total file n m h d
  at_end-IsDownload false n m h d = d

  -- Both choices of a mode.
  chosen-IsDownload :
      (b : Bool) (m : Menu)
      → IsDownload total file m
      → IsDownload total file (
          set_nerve mode_select_out (
            if b
            then record m {
              next_nerve_after_mode_select = some single_mode_title;
              nerve_back_char_select = some single_mode_title;
            }
            else record m {
              next_nerve_after_char_select = some enter_ip_nerve;
              next_nerve_after_mode_select = some char_select;
              nerve_back_char_select = some mode_select;
              is_mode_select_from_bootup = false;
            }))
  unfolding set_nerve
  chosen-IsDownload true m d = record {
    receiving = λ a b. cc;
    written = λ a. cc;
    after_char_select = d.after_char_select;
    back_char_select = cc;
    after_mode_select = cc;
  }
  chosen-IsDownload false m d = record {
    receiving = λ a b. cc;
    written = λ a. cc;
    after_char_select = cc;
    back_char_select = cc;
    after_mode_select = cc;
  }

  exe_mode_select-IsDownload :
      (i : Input) (m : Menu) → IsDownload total file m → IsDownload total file (exe_mode_select i m)
  unfolding exe_mode_select
  exe_mode_select-IsDownload i m d = elim (Option-cases i.decided) [
    | inl none_yet ↦ rw none_yet d
    | inr (name, decided) ↦ rw decided (chosen-IsDownload (bytes_eqb name single_player) m d)
  ]

  pub leave-IsDownload : (m : Menu) → IsDownload total file m → IsDownload total file (leave m)
  unfolding leave set_nerve
  leave-IsDownload m d = record {
    receiving = λ a b. cc;
    written = λ a. cc;
    after_char_select = d.after_char_select;
    back_char_select = d.back_char_select;
    after_mode_select = d.after_mode_select;
  }

  exe_connect-IsDownload :
      (i : Input) (m : Menu) → IsDownload total file m → IsDownload total file (exe_connect i m)
  unfolding exe_connect
  exe_connect-IsDownload i m d = elim (Bool-cases i.is_connected) [
    | inl on ↦ rw on (
        set_nerve-IsDownload total file download_save (record m { mode = server }) (cc)
          (same-IsDownload total file m _ refl d))
    | inr off ↦ elim (Bool-cases i.is_pad_trigger_b) [
      | inl back ↦ rw (off, back) (leave-IsDownload m d)
      | inr stays ↦ rw (off, stays) d
    ]
  ]

  exe_enter_ip-IsDownload :
      (m : Menu) → IsDownload total file m → IsDownload total file (exe_enter_ip m)
  unfolding exe_enter_ip
  exe_enter_ip-IsDownload m d = elim (Bool-cases (m.step == 0)) [
    | inl first ↦ rw first (same-IsDownload total file m _ refl d)
    | inr later ↦ rw later d
  ]

  pub exe-IsDownload :
      (n : Nerve) (i : Input) (m : Menu)
      → n ≢ download_save
      → IsDownload total file m
      → Ensures (IsDownload total file) (exe n i m)
  unfolding exe exe_char_select_back exe_mode_select_out
  exe-IsDownload char_select i m h d = exe_char_select-IsDownload i m d
  exe-IsDownload char_select_back i m h d =
      at_end-IsDownload (m.step == anim_frames) m.nerve_back_char_select m d.back_char_select d
  exe-IsDownload mode_select i m h d = exe_mode_select-IsDownload i m d
  exe-IsDownload mode_select_out i m h d =
      at_end-IsDownload (m.step == anim_frames) m.next_nerve_after_mode_select m d.after_mode_select
        d
  exe-IsDownload enter_ip_nerve i m h d = exe_enter_ip-IsDownload m d
  exe-IsDownload connect i m h d = exe_connect-IsDownload i m d
  exe-IsDownload download_save i m h d = absurd (h refl)
  exe-IsDownload connect_end i m h d = d
  exe-IsDownload (of_game a) i m h d = d
