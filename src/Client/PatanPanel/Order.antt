-- ===== src/Client/PatanPanel/Order.antt =====
-- One panel of a chain at a time.
use bf_multiplayer.Prelude.{
  ℕ, zero, suc, ◌+◌, ◌<◌, ◌≤◌, ◌≡◌, ◌⊎◌, refl, Bool, true, false, ok, if◌then◌else◌, arith,
}
use bf_multiplayer.Client.PatanPanel.{
  Panel, Chain, Turns, put, tick, start, start_close, is_closing, close_first, exe_nerve,
  exe_start_next, make_dead, exe, nrv_open_start, nrv_open, nrv_start_next, nrv_close_sign,
  nrv_close_face, nrv_close,
}

-- A panel that is open: the player can stand on it, and the next panel was started.
abbrev pub IsOpen : Panel → Type 0
IsOpen p = (p.alive ≡ true) × (p.collision ≡ true) × (p.nerve ≡ nrv_start_next) × (0 < p.step)

-- A panel that opens. Behind its first frame in Open it can be stood on.
abbrev pub IsOpening : Panel → Type 0
IsOpening p =
    (p.alive ≡ true)
    × ((p.nerve ≡ nrv_open_start)
        ⊎ (((p.nerve ≡ nrv_open) × ((p.step ≡ 0) ⊎ (p.collision ≡ true)))
            ⊎ ((p.nerve ≡ nrv_start_next) × (p.step ≡ 0) × (p.collision ≡ true))))

-- A panel that closes. In Close it cannot be stood on.
abbrev pub IsClosing : Panel → Type 0
IsClosing p =
    (p.alive ≡ true)
    × ((p.nerve ≡ nrv_close_sign)
        ⊎ ((p.nerve ≡ nrv_close_face) ⊎ ((p.nerve ≡ nrv_close) × (p.collision ≡ false))))

abbrev pub IsClosed : Panel → Type 0
IsClosed p = (p.alive ≡ false) × (p.collision ≡ false) × (p.nerve ≡ nrv_close)

abbrev pub IsOff : Chain → Type 0
IsOff c = (c.switched_on ≡ false) × ((j : ℕ) → j ≤ c.last → (c.panels j).alive ≡ false)

-- Either no panel is there, or one panel opens, with those before it open and those behind it dead, or
-- one panel closes, with those before it closed and those behind it open.
pub data IsOrdered (c : Chain) : Type 0 where
  off : IsOff c → IsOrdered c
  opening :
      (k : ℕ)
      → k ≤ c.last
      → c.switched_on ≡ true
      → IsOpening (c.panels k)
      → ((j : ℕ) → j < k → IsOpen (c.panels j))
      → ((j : ℕ) → k < j → j ≤ c.last → (c.panels j).alive ≡ false)
      → IsOrdered c
  closing :
      (k : ℕ)
      → k ≤ c.last
      → c.switched_on ≡ true
      → IsClosing (c.panels k)
      → ((j : ℕ) → j < k → IsClosed (c.panels j))
      → ((j : ℕ) → k < j → j ≤ c.last → IsOpen (c.panels j))
      → IsOrdered c

-- The frame of a panel that waits is only counted.
pub exe-open_before :
    (t : Turns) (ended : Bool) (i : ℕ) (c : Chain)
    → i < c.last
    → IsOpen (c.panels i)
    → exe t ended i c ≡ ok (put i (tick (c.panels i)) c)
unfolding exe exe_nerve exe_start_next start put
exe-open_before t ended i c h (a, k, n, s) = rw n (ground arith)

pub exe-open_last :
    (t : Turns) (ended : Bool) (i : ℕ) (c : Chain)
    → 0 < i
    → i ≡ c.last
    → (c.panels i).nerve ≡ nrv_start_next
    → exe t ended i c
      ≡ ok (
          if is_closing (c.panels 0).nerve
          then put i (tick (c.panels i)) c
          else start_close 0 (put i (tick (c.panels i)) c))
unfolding exe exe_nerve exe_start_next start close_first put is_closing
exe-open_last t ended zero c f h n = absurd (omega arith)
exe-open_last t ended (suc i) c f h n = rw n (ground arith)

module _ (c : Chain) (i : ℕ) where
  -- The panel at the place that opens or closes may be replaced by one that still does.
  pub put-opening :
      (p : Panel)
      → i ≤ c.last
      → c.switched_on ≡ true
      → IsOpening p
      → ((j : ℕ) → j < i → IsOpen (c.panels j))
      → ((j : ℕ) → i < j → j ≤ c.last → (c.panels j).alive ≡ false)
      → IsOrdered (put i p c)
  unfolding put
  put-opening p h s o before behind =
      opening i h s (ground (arith, o)) (λ j l. ground (arith, before j l))
        (λ j l m. ground (arith, behind j l m))

  pub put-closing :
      (p : Panel)
      → i ≤ c.last
      → c.switched_on ≡ true
      → IsClosing p
      → ((j : ℕ) → j < i → IsClosed (c.panels j))
      → ((j : ℕ) → i < j → j ≤ c.last → IsOpen (c.panels j))
      → IsOrdered (put i p c)
  unfolding put
  put-closing p h s o before behind =
      closing i h s (ground (arith, o)) (λ j l. ground (arith, before j l))
        (λ j l m. ground (arith, behind j l m))

  -- The frame of an open panel keeps the order.
  pub tick_before :
      (k : ℕ)
      → i < k
      → k ≤ c.last
      → c.switched_on ≡ true
      → IsOpening (c.panels k)
      → ((j : ℕ) → j < k → IsOpen (c.panels j))
      → ((j : ℕ) → k < j → j ≤ c.last → (c.panels j).alive ≡ false)
      → IsOrdered (put i (tick (c.panels i)) c)
  unfolding put
  tick_before k l h s o before behind =
      opening k h s (ground (arith, o)) (λ j m. ground (arith, before j m, before i l))
        (λ j m n. ground (arith, behind j m n))

  pub tick_behind :
      (k : ℕ)
      → k < i
      → i ≤ c.last
      → c.switched_on ≡ true
      → IsClosing (c.panels k)
      → ((j : ℕ) → j < k → IsClosed (c.panels j))
      → ((j : ℕ) → k < j → j ≤ c.last → IsOpen (c.panels j))
      → IsOrdered (put i (tick (c.panels i)) c)
  unfolding put
  tick_behind k l h s o before behind =
      closing k (omega arith) s (ground (arith, o)) (λ j m. ground (arith, before j m))
        (λ j m n. ground (arith, behind j m n, behind i l h))

  -- The next panel is started behind one that has opened.
  pub start-opening :
      i < c.last
      → c.switched_on ≡ true
      → IsOpening (c.panels i)
      → (c.panels i).nerve ≡ nrv_start_next
      → ((j : ℕ) → j < i → IsOpen (c.panels j))
      → ((j : ℕ) → i < j → j ≤ c.last → (c.panels j).alive ≡ false)
      → IsOrdered (start (i + 1) (put i (tick (c.panels i)) c))
  unfolding start put
  start-opening h s o n before behind =
      opening (i + 1) (omega arith) s (ground (arith, o)) (λ j m. ground (arith, before j, o))
        (λ j m l. ground (arith, behind j (omega arith) l))

  -- The first panel closes when the last has opened.
  pub start_close-closing :
      0 < i
      → i ≡ c.last
      → c.switched_on ≡ true
      → IsOpening (c.panels i)
      → (c.panels i).nerve ≡ nrv_start_next
      → ((j : ℕ) → j < i → IsOpen (c.panels j))
      → IsOrdered (start_close 0 (put i (tick (c.panels i)) c))
  unfolding start_close put
  start_close-closing f h s o n before =
      closing 0 (omega arith) s (ground (arith, before 0 f)) (λ j m. absurd (omega arith))
        (λ j m l. ground (arith, before j, o))

  -- The next panel closes when one has.
  pub close-closing :
      i < c.last
      → c.switched_on ≡ true
      → IsClosing (c.panels i)
      → (c.panels i).nerve ≡ nrv_close
      → ((j : ℕ) → j < i → IsClosed (c.panels j))
      → ((j : ℕ) → i < j → j ≤ c.last → IsOpen (c.panels j))
      → IsOrdered (put i (make_dead (c.panels i)) (start_close (i + 1) c))
  unfolding start_close put
  close-closing h s o n before behind =
      closing (i + 1) (omega arith) s (ground (arith, behind (i + 1) (omega arith) (omega arith)))
        (λ j m. ground (arith, before j, o)) (λ j m l. ground (arith, behind j (omega arith) l))

  -- The chain is over when the last panel has closed.
  pub close-off :
      i ≡ c.last
      → ((j : ℕ) → j < i → IsClosed (c.panels j))
      → IsOrdered (record (put i (make_dead (c.panels i)) c) { switched_on = false })
  unfolding put
  close-off h before = off (refl, λ j m. ground (arith, before j))
