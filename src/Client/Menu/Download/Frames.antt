-- ===== src/Client/Menu/Download/Frames.antt =====
-- The frames of the download itself.
use bf_multiplayer.Prelude.{
  ℕ, subst, sym, ◌≡◌, inl, inr, refl, Bool, true, false, arith, Bool-cases, Memory, if◌then◌else◌,
  ◌==◌,
}
use bf_multiplayer.Server.SharedSave.{is_full}
use bf_multiplayer.Server.SharedSave.Assembly.{Fits}
use bf_multiplayer.Client.SharedSave.{SaveDataBuffer, reset_save_data_buffer}
use bf_multiplayer.Client.SharedSave.Transfer.{IsReceiving, IsReceiving-Agree, reset-IsReceiving}
use bf_multiplayer.Client.Menu.{
  Nerve, download_save, Menu, Input, exe, update, begin_step, set_nerve, exe_download_save,
  finish_download, leave, completed, write_file_to_path,
}
use bf_multiplayer.Client.Menu.Download.{IsDownload, IsWritten, Ensures}
use bf_multiplayer.Client.Menu.Download.Choices.{begin_step-IsDownload, exe-IsDownload}

module _ (total : ℕ) (file : Memory) where
  finish_download-IsDownload :
      (i : Input) (m : Menu)
      → Fits total
      → i.write_end ≡ completed
      → IsReceiving total file m.buffer
      → IsDownload total file m
      → IsDownload total file (finish_download i m)
  unfolding finish_download set_nerve write_file_to_path
  finish_download-IsDownload i m fits whole r d = elim (Bool-cases (is_full 8 m.buffer.ack)) [
    | inl full ↦ rw full (record {
      receiving = λ a b. cc;
      written = λ a.
          subst
            (λ e.
              IsWritten total file
                (write_file_to_path e m.buffer.size m.buffer.work_buffer m.written))
            (sym whole) (IsReceiving-Agree total file m.buffer fits r full);
      after_char_select = d.after_char_select;
      back_char_select = d.back_char_select;
      after_mode_select = d.after_mode_select;
    })
    | inr partial ↦ rw partial d
  ]

  -- A frame of the download, with a connection or without.
  on_or_off-IsDownload :
      (i : Input) (m : Menu)
      → Fits total
      → i.write_end ≡ completed
      → IsReceiving total file m.buffer
      → IsDownload total file m
      → IsDownload total file (
          finish_download i
            (if i.is_connected then m else record (leave m) { buffer = reset_save_data_buffer }))
  unfolding leave set_nerve finish_download
  on_or_off-IsDownload i m fits whole r d = elim (Bool-cases i.is_connected) [
    | inl on ↦ rw on (finish_download-IsDownload i m fits whole r d)
    | inr off ↦ rw off (
        finish_download-IsDownload i (record (leave m) { buffer = reset_save_data_buffer }) fits
          whole (reset-IsReceiving total file)
          (record {
            receiving = λ a b. cc;
            written = λ a. cc;
            after_char_select = d.after_char_select;
            back_char_select = d.back_char_select;
            after_mode_select = d.after_mode_select;
          }))
  ]

  begun-IsDownload :
      (m : Menu) (b : SaveDataBuffer)
      → m.nerve ≡ download_save
      → IsReceiving total file b
      → IsDownload total file m
      → IsDownload total file (record (begin_step m) { buffer = b })
  unfolding begin_step
  begun-IsDownload m b n r d = record {
    receiving = λ x y. r;
    written = λ x. cc;
    after_char_select = d.after_char_select;
    back_char_select = d.back_char_select;
    after_mode_select = d.after_mode_select;
  }

  first_or_later-IsDownload :
      (first : Bool) (i : Input) (m : Menu)
      → Fits total
      → i.write_end ≡ completed
      → (first ≡ false → IsReceiving total file m.buffer)
      → ((b : SaveDataBuffer)
          → IsReceiving total file b
          → IsDownload total file (record m { buffer = b }))
      → IsDownload total file (
          let m1 = if first then record m { buffer = reset_save_data_buffer } else m in
          finish_download i
            (if i.is_connected then m1 else record (leave m1) { buffer = reset_save_data_buffer }))
  first_or_later-IsDownload true i m fits whole r d =
      on_or_off-IsDownload i (record m { buffer = reset_save_data_buffer }) fits whole
        (reset-IsReceiving total file) (d _ (reset-IsReceiving total file))
  first_or_later-IsDownload false i m fits whole r d =
      on_or_off-IsDownload i m fits whole (r refl) (d m.buffer (r refl))

  -- The step is zero in the first frame behind setNerve, and not in a later one.
  begin_step-later : (m : Menu) → ((begin_step m).step == 0) ≡ false → m.is_new ≡ false
  unfolding begin_step
  begin_step-later m h = ground arith

  exe_download_save-IsDownload :
      (i : Input) (m : Menu)
      → Fits total
      → i.write_end ≡ completed
      → m.nerve ≡ download_save
      → IsDownload total file m
      → IsDownload total file (exe_download_save i (begin_step m))
  unfolding exe_download_save
  exe_download_save-IsDownload i m fits whole n d =
      first_or_later-IsDownload ((begin_step m).step == 0) i (begin_step m) fits whole
        (λ later. unfold begin_step in d.receiving n (begin_step-later m later))
        (λ b r. begun-IsDownload m b n r d)

  pub update-IsDownload :
      (i : Input) (m : Menu)
      → Fits total
      → i.write_end ≡ completed
      → IsDownload total file m
      → Ensures (IsDownload total file) (update i m)
  unfolding update
  update-IsDownload i m fits whole d = at_nerve m.nerve refl
    where
      at_nerve :
          (n : Nerve) → m.nerve ≡ n → Ensures (IsDownload total file) (exe n i (begin_step m))
      at_nerve download_save e = unfold exe in exe_download_save-IsDownload i m fits whole e d
      at_nerve n e =
          exe-IsDownload total file n i (begin_step m) (λ h. cc)
            (begin_step-IsDownload total file m (λ h. cc) d)
