-- ===== src/Client/PatanPanel.antt =====
-- The panels of src/pe/MapObj/PatanPanel.cpp: a chain that opens one after the other, and closes
-- again from its start. What they turn and move by is a product of floats and left out; the number of
-- frames that a turn takes is given.
pub mod Order
pub mod Frames
pub mod Chains
use bf_multiplayer.Prelude.{
  ℕ, zero, suc, ◌+◌, ◌==◌, Bool, true, false, ◌&&◌, ◌||◌, Result, ok, err, null_pointer, ltb, ◌≤◌,
  ◌≡◌, if◌then◌else◌,
}

pub data Nerve : Type 0 where
  nrv_open_start nrv_open nrv_start_next nrv_close_sign nrv_close_face nrv_close : Nerve

pub record Panel : Type 0 where
  pub nerve : Nerve
  pub step : ℕ
  pub alive : Bool
  pub collision : Bool
  pub clipping : Bool

-- The panels from the one that was placed, number 0, to number `last`: mNext of a panel is the one
-- with the next number, mLast the one before it. `switched_on` is the switch OpenSwitchOff.
pub record Chain : Type 0 where
  pub last : ℕ
  pub panels : ℕ → Panel
  pub switched_on : Bool

unfoldable pub put : ℕ → Panel → Chain → Chain
put i p c = record c { panels = λ j. if j == i then p else c.panels j }

abbrev pub set_nerve : Nerve → Panel → Panel
set_nerve n p = record p { nerve = n; step = 0 }

-- The nerve goes on in the next frame.
abbrev pub tick : Panel → Panel
tick p = record p { step = p.step + 1 }

unfoldable pub start : ℕ → Chain → Chain
start i c =
    put i
      (record {
        nerve = nrv_open_start;
        step = 0;
        alive = true;
        collision = false;
        clipping = false;
      })
      c

unfoldable pub start_close : ℕ → Chain → Chain
start_close i c = put i (set_nerve nrv_close_sign (c.panels i)) c

unfoldable pub is_closing : Nerve → Bool
is_closing nrv_close_sign = true
is_closing nrv_close_face = true
is_closing nrv_close = true
is_closing nrv_open_start = false
is_closing nrv_open = false
is_closing nrv_start_next = false

unfoldable pub exe_open : Bool → Panel → Panel
exe_open ended p =
    let p1 = if p.step == 0 then record p { collision = true } else p in
    if ended then set_nerve nrv_start_next p1 else tick p1

-- The panel without a next one closes the first of the chain, which it finds from mLast on.
unfoldable pub close_first : ℕ → Chain → Result Chain
close_first zero c = err null_pointer
close_first (suc i) c = ok (if is_closing (c.panels 0).nerve then c else start_close 0 c)

unfoldable pub exe_start_next : ℕ → Chain → Result Chain
unfolding start close_first
exe_start_next i c =
    let c1 = put i (tick (c.panels i)) c in
    if ltb i c.last
    then ok (if (c.panels i).step == 0 then start (i + 1) c1 else c1)
    else close_first i c1

unfoldable pub exe_close_sign : Panel → Panel
exe_close_sign p = if p.step == 25 then set_nerve nrv_close_face p else tick p

unfoldable pub exe_close_face : Bool → Panel → Panel
exe_close_face ended p =
    if ended then set_nerve nrv_close (record p { collision = false }) else tick p

abbrev pub make_dead : Panel → Panel
make_dead p = tick (record p { alive = false; clipping = true })

-- The frames that a panel turns for while it opens and while it closes: mDegreesToRotate and
-- mDegreesToRotateToNext by ten, rounded up.
pub record Turns : Type 0 where
  pub to_open : ℕ → ℕ
  pub to_next : ℕ → ℕ

unfoldable pub exe_open_start : Turns → ℕ → Panel → Panel
exe_open_start t i p = if ltb p.step (t.to_open i) then tick p else set_nerve nrv_open p

unfoldable pub exe_close : Turns → ℕ → Chain → Chain
unfolding start_close put
exe_close t i c =
    let p = c.panels i in
    if ltb i c.last
    then (if ltb p.step (t.to_next i)
        then put i (tick p) c
        else put i (make_dead p) (start_close (i + 1) c))
    else (if p.step == 0
        then record (put i (make_dead p) c) { switched_on = false }
        else put i (tick p) c)

-- The function of a nerve at panel `i`; `ended` is isActionEnd.
unfoldable pub exe_nerve : Turns → Bool → ℕ → Chain → Nerve → Result Chain
exe_nerve t ended i c nrv_open_start = ok (put i (exe_open_start t i (c.panels i)) c)
exe_nerve t ended i c nrv_open = ok (put i (exe_open ended (c.panels i)) c)
exe_nerve t ended i c nrv_start_next = exe_start_next i c
exe_nerve t ended i c nrv_close_sign = ok (put i (exe_close_sign (c.panels i)) c)
exe_nerve t ended i c nrv_close_face = ok (put i (exe_close_face ended (c.panels i)) c)
exe_nerve t ended i c nrv_close = ok (exe_close t i c)

-- One frame of panel `i`.
unfoldable pub exe : Turns → Bool → ℕ → Chain → Result Chain
unfolding exe_nerve
exe t ended i c = exe_nerve t ended i c (c.panels i).nerve

-- What happens to a chain: a frame of a panel that is alive, or its switch, which starts the first
-- panel when it goes on.
pub data Step (t : Turns) (c : Chain) : Chain → Type 0 where
  frame :
      (ended : Bool) (i : ℕ) (d : Chain)
      → i ≤ c.last
      → (c.panels i).alive ≡ true
      → exe t ended i c ≡ ok d
      → Step t c d
  switched : c.switched_on ≡ false → Step t c (start 0 (record c { switched_on = true }))

pub data Reach (t : Turns) (c : Chain) : Chain → Type 0 where
  here : Reach t c c
  there : (d e : Chain) → Reach t c d → Step t d e → Reach t c e
