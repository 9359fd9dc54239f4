-- ===== src/Client/PatanPanel/Chains.antt =====
-- A chain of panels keeps its order.
use bf_multiplayer.Prelude.{
  ℕ, ◌<◌, ◌≤◌, ◌≡◌, inl, inr, refl, sym, ◌∙◌, Bool, true, false, arith, subst,
}
use bf_multiplayer.Client.PatanPanel.{
  Chain, Turns, Step, Reach, put, tick, start, frame, switched, here, there,
}
use bf_multiplayer.Client.PatanPanel.Order.{
  IsOpening, IsClosing, IsOff, IsOrdered, off, opening, closing, exe-open_before, tick_before,
  tick_behind,
}
use bf_multiplayer.Client.PatanPanel.Frames.{
  Goes, trichotomy, first_closing, exe-waiting, exe-opening, exe-closing,
}

-- A frame of a panel of a chain in order.
exe-IsOrdered :
    (t : Turns) (ended : Bool) (i : ℕ) (c : Chain)
    → 0 < c.last
    → IsOrdered c
    → i ≤ c.last
    → (c.panels i).alive ≡ true
    → Goes t ended i c
unfolding put
exe-IsOrdered t ended i c f (off (s, dead)) h a = cc (a, dead i h)
exe-IsOrdered t ended i c f (opening k h s o before behind) m a = elim (trichotomy i k) [
  | inl l ↦ (
    put i (tick (c.panels i)) c,
    exe-open_before t ended i c (omega arith) (before i l),
    tick_before c i k l h s o before behind,
    refl,
  )
  | inr (inl e) ↦
      exe-opening t ended i c f m s (subst (λ n. IsOpening (c.panels n)) (sym e) o)
        (λ j l. before j (omega arith)) (λ j l n. behind j (omega arith) n)
  | inr (inr l) ↦ cc (a, behind i l m)
]
exe-IsOrdered t ended i c f (closing k h s o before behind) m a = elim (trichotomy i k) [
  | inl l ↦ cc (a, (before i l).0)
  | inr (inl e) ↦
      exe-closing t ended i c m s (subst (λ n. IsClosing (c.panels n)) (sym e) o)
        (λ j l. before j (omega arith)) (λ j l n. behind j (omega arith) n)
  | inr (inr l) ↦ (
    put i (tick (c.panels i)) c,
    exe-waiting t ended i c (omega arith) m (behind i l m) (first_closing c k o before),
    tick_behind c i k l m s o before behind,
    refl,
  )
]

start-IsOrdered : (c : Chain) → IsOff c → IsOrdered (start 0 (record c { switched_on = true }))
unfolding start put
start-IsOrdered c (s, dead) =
    opening 0 (omega arith) refl (refl, inl refl) (λ j l. absurd (omega arith))
      (λ j l m. ground (arith, dead j m))

IsOff-switched : (c : Chain) → IsOrdered c → c.switched_on ≡ false → IsOff c
IsOff-switched c (off o) e = o
IsOff-switched c (opening k h s o before behind) e = cc (s, e)
IsOff-switched c (closing k h s o before behind) e = cc (s, e)

Step-IsOrdered :
    (t : Turns) (c d : Chain)
    → 0 < c.last
    → IsOrdered c
    → Step t c d
    → IsOrdered d × (d.last ≡ c.last)
unfolding start put
Step-IsOrdered t c d f o (frame ended i d' h a e) =
    let (x, x_is, ordered, same) = exe-IsOrdered t ended i c f o h a in
    let x≡d : x ≡ d = cc (x_is, e) in
    (subst IsOrdered x≡d ordered, subst (λ y. y.last ≡ c.last) x≡d same)
Step-IsOrdered t c d f o (switched s) = (start-IsOrdered c (IsOff-switched c o s), refl)

run-IsOrdered :
    (t : Turns) (c d : Chain) → 0 < c.last → IsOff c → Reach t c d → IsOrdered d × (d.last ≡ c.last)
run-IsOrdered t c d f o here = (off o, refl)
run-IsOrdered t c d f o (there b d' r step) =
    let (ordered, same) = run-IsOrdered t c b f o r in
    let (next, kept) = Step-IsOrdered t b d (omega arith) ordered step in (next, kept ∙ same)

-- Where a chain has at least two panels and starts off, every run of frames and switches, in any order
-- of the panels and with any length of their animations, leaves it in order: no panel is there, or one
-- panel opens, those before it open and those behind it dead, or one panel closes, those before it
-- closed and those behind it open. In each reached state the frame of a living panel does not fail.
pub Reach-IsOrdered :
    (t : Turns) (c d : Chain)
    → 0 < c.last
    → IsOff c
    → Reach t c d
    → IsOrdered d
      × (d.last ≡ c.last)
      × ((ended : Bool) (i : ℕ) → i ≤ d.last → (d.panels i).alive ≡ true → Goes t ended i d)
Reach-IsOrdered t c d f o r =
    let (ordered, same) = run-IsOrdered t c d f o r in
    (ordered, same, λ ended i h a. exe-IsOrdered t ended i d (omega arith) ordered h a)
