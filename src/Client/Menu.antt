-- ===== src/Client/Menu.antt =====
-- src/pe/Hacks/TopMenuSceneMod.cpp, include/pe/Util/PlayerModelNameUtil.h: the menu from the choice of
-- a mode to the downloaded save. Panes, buttons, sounds and the text of the download are left out.
pub mod Address
pub mod Download
use bf_multiplayer.Prelude.{
  ℕ, zero, suc, ◌+◌, ◌≡◌, Bool, true, false, not, ◌&&◌, ◌||◌, List, [], ◌∷◌, ◌++◌, Option, none,
  some, ◌==◌, if◌then◌else◌, Result, ok, err, null_pointer, ◌>>=◌, bytes_eqb, Memory,
}
use bf_multiplayer.Packet.{SaveDataChunk}
use bf_multiplayer.Server.SharedSave.{is_full}
use bf_multiplayer.Client.SharedSave.{
  SaveDataMode, local, server, SaveDataBuffer, reset_save_data_buffer, handle_save_data_chunk,
}
use bf_multiplayer.Client.Menu.Address.{Answer, connect_to, ask_again, enter_ip}

-- The nerves of TopMenuExt. `of_game` is a nerve of the game's own program, by its address.
pub data Nerve : Type 0 where
  char_select char_select_back mode_select mode_select_out enter_ip_nerve : Nerve
  connect download_save connect_end : Nerve
  of_game : ℕ → Nerve

abbrev pub single_mode_title : Nerve
single_mode_title = of_game 0x012f3758

-- What the menu asks of the connection.
pub data NetCall : Type 0 where
  connect_call : List ℕ → ℕ → NetCall
  disconnect_call : NetCall

-- A null pointer to a nerve is `none`. `step` counts the frames of the nerve before this one, and
-- `is_new` is that the nerve was set since the last frame. `keyboards` counts the calls of
-- showEnterIpSwkbd, and `written` is the file GameDataRemote.bin, if there is one.
pub record Menu : Type 0 where
  pub nerve : Nerve
  pub step : ℕ
  pub is_new : Bool
  pub is_return_from_file_select : Bool
  pub next_nerve_after_char_select : Option Nerve
  pub nerve_back_char_select : Option Nerve
  pub is_mode_select_from_bootup : Bool
  pub next_nerve_after_mode_select : Option Nerve
  pub player_type : ℕ
  pub keyboards : ℕ
  pub mode : SaveDataMode
  pub buffer : SaveDataBuffer
  pub written : Option (ℕ × Memory)
  pub calls : List NetCall

-- How FsHelper::writeFileToPath ends (src/helpers/fsHelper.cpp): the old file is still there, it is
-- gone and there is no new one, the new one has the size and other contents, or the write is complete.
pub data WriteEnd : Type 0 where
  kept not_created : WriteEnd
  not_written : Memory → WriteEnd
  completed : WriteEnd

unfoldable pub write_file_to_path :
    WriteEnd → ℕ → Memory → Option (ℕ × Memory) → Option (ℕ × Memory)
write_file_to_path kept size bytes old = old
write_file_to_path not_created size bytes old = none
write_file_to_path (not_written contents) size bytes old = some (size, contents)
write_file_to_path completed size bytes old = some (size, bytes)

-- What a frame reads: button B, the button that was decided on, NetClient::isConnected, and how a
-- write ends in it.
pub record Input : Type 0 where
  pub is_pad_trigger_b : Bool
  pub decided : Option (List ℕ)
  pub is_connected : Bool
  pub write_end : WriteEnd

-- al::setNerve, and the same through a pointer.
unfoldable pub set_nerve : Nerve → Menu → Menu
set_nerve n m = record m { nerve = n; is_new = true }

unfoldable pub set_nerve_at : Option Nerve → Menu → Result Menu
unfolding set_nerve
set_nerve_at none m = err null_pointer
set_nerve_at (some n) m = ok (set_nerve n m)

-- sCharSelectAndModeSelectAnimFrames.
abbrev pub anim_frames : ℕ
anim_frames = 15

-- getPlayerType, by the first letter of a name.
unfoldable pub get_player_type : List ℕ → ℕ
get_player_type [] = 0
get_player_type (c ∷ cs) =
    if c == b'M'
    then 0
    else (if c == b'L'
        then 1
        else (if c == b'P' then 2 else (if c == b'K' then 3 else (if c == b'R' then 4 else 0))))

unfoldable pub exe_char_select : Input → Menu → Result Menu
unfolding set_nerve set_nerve_at get_player_type
exe_char_select i m =
    if i.is_pad_trigger_b then ok (set_nerve char_select_back m) else elim i.decided [
      | none ↦ ok m
      | some name ↦
          set_nerve_at m.next_nerve_after_char_select
            (record m { player_type = get_player_type name })
    ]

unfoldable pub exe_char_select_back : Menu → Result Menu
unfolding set_nerve_at
exe_char_select_back m =
    if m.step == anim_frames then set_nerve_at m.nerve_back_char_select m else ok m

abbrev pub single_player : List ℕ
single_player =
    b'S' ∷ b'i' ∷ b'n' ∷ b'g' ∷ b'l' ∷ b'e' ∷ b'P' ∷ b'l' ∷ b'a' ∷ b'y' ∷ b'e' ∷ b'r' ∷ []

unfoldable pub exe_mode_select : Input → Menu → Menu
unfolding set_nerve bytes_eqb
exe_mode_select i m = elim i.decided [
  | none ↦ m
  | some name ↦ set_nerve mode_select_out (
      if bytes_eqb name single_player
      then record m {
        next_nerve_after_mode_select = some single_mode_title;
        nerve_back_char_select = some single_mode_title;
      }
      else record m {
        next_nerve_after_char_select = some enter_ip_nerve;
        next_nerve_after_mode_select = some char_select;
        nerve_back_char_select = some mode_select;
        is_mode_select_from_bootup = false;
      })
]

unfoldable pub exe_mode_select_out : Menu → Result Menu
unfolding set_nerve_at
exe_mode_select_out m =
    if m.step == anim_frames then set_nerve_at m.next_nerve_after_mode_select m else ok m

unfoldable pub exe_enter_ip : Menu → Menu
exe_enter_ip m = if m.step == 0 then record m { keyboards = suc m.keyboards } else m

-- The way back to the mode selection when there is no connection.
unfoldable pub leave : Menu → Menu
unfolding set_nerve
leave m = record (set_nerve mode_select (record m { calls = m.calls ++ disconnect_call ∷ [] })) {
  is_mode_select_from_bootup = false;
}

unfoldable pub exe_connect : Input → Menu → Menu
unfolding set_nerve leave
exe_connect i m =
    if i.is_connected
    then set_nerve download_save (record m { mode = server })
    else (if i.is_pad_trigger_b then leave m else m)

-- The loop over the acknowledgements, and the write, whose result is not looked at.
unfoldable pub finish_download : Input → Menu → Menu
unfolding set_nerve is_full write_file_to_path
finish_download i m =
    if is_full 8 m.buffer.ack
    then set_nerve connect_end (record m {
      written = write_file_to_path i.write_end m.buffer.size m.buffer.work_buffer m.written;
    })
    else m

unfoldable pub exe_download_save : Input → Menu → Menu
unfolding leave finish_download
exe_download_save i m =
    let m1 = if m.step == 0 then record m { buffer = reset_save_data_buffer } else m in
    finish_download i
      (if i.is_connected then m1 else record (leave m1) { buffer = reset_save_data_buffer })

-- One step of the menu's nerve. The nerves of the game are not in the repository.
unfoldable pub exe : Nerve → Input → Menu → Result Menu
unfolding exe_char_select exe_char_select_back exe_mode_select exe_mode_select_out exe_enter_ip
    exe_connect exe_download_save
exe char_select i m = exe_char_select i m
exe char_select_back i m = exe_char_select_back m
exe mode_select i m = ok (exe_mode_select i m)
exe mode_select_out i m = exe_mode_select_out m
exe enter_ip_nerve i m = ok (exe_enter_ip m)
exe connect i m = ok (exe_connect i m)
exe download_save i m = ok (exe_download_save i m)
exe connect_end i m = ok m
exe (of_game a) i m = ok m

-- The nerve's steps are counted from the first frame behind setNerve.
unfoldable pub begin_step : Menu → Menu
begin_step m = record m { step = if m.is_new then 0 else suc m.step; is_new = false }

unfoldable pub update : Input → Menu → Result Menu
unfolding exe begin_step
update i m = exe m.nerve i (begin_step m)

-- TopMenuExt::enterIpCallback.
unfoldable pub enter_ip_callback : (List ℕ → List ℕ) → Bool → List ℕ → Menu → Menu
unfolding set_nerve enter_ip
enter_ip_callback copy true text m = set_nerve mode_select m
enter_ip_callback copy false text m = elim (enter_ip copy text) [
  | ask_again ↦ record m { keyboards = suc m.keyboards }
  | connect_to host port ↦
      set_nerve connect (record m { calls = m.calls ++ connect_call host port ∷ [] })
]

-- The functions of `Hooks`, and the hook of the scene's appear.
unfoldable pub set_mode_select_nerve : Menu → Menu
unfolding set_nerve
set_mode_select_nerve m = set_nerve mode_select (record m { is_mode_select_from_bootup = true })

unfoldable pub set_char_select_nerve : Nerve → Menu → Menu
unfolding set_nerve
set_char_select_nerve n m =
    set_nerve char_select
      (record m { next_nerve_after_char_select = some n; is_return_from_file_select = false })

unfoldable pub set_char_select_nerve_return_from_file_select : Menu → Menu
unfolding set_nerve
set_char_select_nerve_return_from_file_select m =
    set_nerve char_select (record m { is_return_from_file_select = true })

unfoldable pub on_single_mode_title_leave : Bool → Menu → Menu
unfolding set_nerve
on_single_mode_title_leave is_leave m =
    if is_leave then set_nerve mode_select (record m { is_mode_select_from_bootup = false }) else m

unfoldable pub on_appear : Menu → Menu
on_appear m = record m { mode = local; calls = m.calls ++ disconnect_call ∷ [] }

-- topMenuSceneSingleModeTitleHook: whether the scene goes on by its own code, and whether it gets
-- the nerve LoadNetworkSave.
pub data Title : Type 0 where
  original load_network_save stay : Title

unfoldable pub single_mode_title_hook : Menu → Title
single_mode_title_hook m = elim m.mode [
  | local ↦ original
  | server ↦ elim m.nerve [ connect_end ↦ load_network_save | _ ↦ stay ]
]

-- What comes to the menu, one after the other. `chunk` is a packet that the connection handles.
pub data Event : Type 0 where
  frame : Input → Event
  keyboard : Bool → List ℕ → Event
  chunk : SaveDataChunk → Event
  mode_select_hook : Event
  char_select_hook : Nerve → Event
  file_select_hook : Event
  title_leave_hook : Bool → Event
  appear_hook : Event

-- `copy` is that of enterIpCallback.
unfoldable pub step : (List ℕ → List ℕ) → Event → Menu → Result Menu
unfolding update enter_ip_callback set_mode_select_nerve set_char_select_nerve
    set_char_select_nerve_return_from_file_select on_single_mode_title_leave on_appear
step copy (frame i) m = update i m
step copy (keyboard closed text) m = ok (enter_ip_callback copy closed text m)
step copy (chunk p) m = handle_save_data_chunk p m.buffer >>= λ b. ok (record m { buffer = b })
step copy mode_select_hook m = ok (set_mode_select_nerve m)
step copy (char_select_hook n) m = ok (set_char_select_nerve n m)
step copy file_select_hook m = ok (set_char_select_nerve_return_from_file_select m)
step copy (title_leave_hook b) m = ok (on_single_mode_title_leave b m)
step copy appear_hook m = ok (on_appear m)

unfoldable pub run : (List ℕ → List ℕ) → List Event → Menu → Result Menu
unfolding step
run copy [] m = ok m
run copy (e ∷ es) m = step copy e m >>= run copy es
