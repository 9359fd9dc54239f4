-- ===== src/Client/StatusText.antt =====
-- src/pe/Multiplayer/MultiplayerStatusText.cpp: the three lines of messages on the screen. A text is
-- its characters, without the zero at its end.
pub mod Lines
use bf_multiplayer.Prelude.{
  ℕ, zero, suc, ◌+◌, ◌≡◌, Bool, true, false, List, [], ◌∷◌, ◌++◌, Option, none, some, ltb, ◌==◌,
  if◌then◌else◌, Result, ok, err, out_of_bounds, ◌>>=◌, length,
}

-- mTexts, the steps of the nerve Wait before this one, and the text of the pane.
pub record StatusText : Type 0 where
  pub first : Option (List ℕ)
  pub second : Option (List ℕ)
  pub third : Option (List ℕ)
  pub step : ℕ
  pub is_new : Bool
  pub pane : List ℕ

-- A text with the '\n' that updatePane puts behind it.
unfoldable pub line : Option (List ℕ) → List ℕ
line none = []
line (some text) = text ++ b'\n' ∷ []

abbrev pub lines : StatusText → List ℕ
lines s = line s.first ++ (line s.second ++ line s.third)

-- updatePane. The copies and the last zero go into an array of 1024 characters without a test.
unfoldable pub update_pane : StatusText → Result StatusText
unfolding line
update_pane s =
    if ltb (length (lines s)) 1024 then ok (record s { pane = lines s }) else err out_of_bounds

-- log of a text, `none` for a null pointer: setNerve starts the steps again.
unfoldable pub log : Option (List ℕ) → StatusText → StatusText
log msg s = record s { first = s.second; second = s.third; third = msg; is_new = true }

-- exeWait in one frame.
unfoldable pub exe_wait : StatusText → Result StatusText
unfolding update_pane log
exe_wait s = (if s.step == 0 then update_pane s else ok s) >>= λ t.
    ok (if t.step == 360 then log none t else t)

-- A frame: the steps are counted from the first one behind setNerve.
unfoldable pub update : StatusText → Result StatusText
unfolding exe_wait
update s = exe_wait (record s { step = if s.is_new then 0 else suc s.step; is_new = false })

unfoldable pub run : ℕ → StatusText → Result StatusText
unfolding update
run zero s = ok s
run (suc n) s = update s >>= run n
