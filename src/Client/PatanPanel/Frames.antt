-- ===== src/Client/PatanPanel/Frames.antt =====
-- The frames of a chain of panels, by what the chain does.
use bf_multiplayer.Prelude.{
  ℕ, zero, suc, ◌+◌, ◌==◌, ◌<◌, ◌≤◌, ◌≡◌, ◌⊎◌, inl, inr, refl, ◌∙◌, ap, Bool, true, false, ok, ltb,
  if◌then◌else◌, arith, Bool-cases,
}
use bf_multiplayer.Client.PatanPanel.{
  Panel, Chain, Turns, put, tick, start, start_close, is_closing, exe_open, exe_nerve,
  exe_start_next, exe_close_sign, exe_close_face, make_dead, exe_open_start, exe_close, exe,
  nrv_open_start, nrv_open, nrv_start_next, nrv_close_sign, nrv_close_face, nrv_close,
}
use bf_multiplayer.Client.PatanPanel.Order.{
  IsOpen, IsOpening, IsClosing, IsClosed, IsOrdered, exe-open_before, exe-open_last, put-opening,
  put-closing, start-opening, start_close-closing, close-closing, close-off,
}

-- A frame does not fail, and leaves a chain in order.
abbrev pub Goes : Turns → Bool → ℕ → Chain → Type 0
Goes t ended i c = (d : Chain) × (exe t ended i c ≡ ok d) × IsOrdered d × (d.last ≡ c.last)

is_closing-open : (p : Panel) → IsOpen p → is_closing p.nerve ≡ false
unfolding is_closing
is_closing-open p (a, k, n, z) = ap is_closing n

is_closing-closing : (p : Panel) → IsClosing p → is_closing p.nerve ≡ true
unfolding is_closing
is_closing-closing p (a, inl n) = ap is_closing n
is_closing-closing p (a, inr (inl n)) = ap is_closing n
is_closing-closing p (a, inr (inr (n, k))) = ap is_closing n

is_closing-closed : (p : Panel) → IsClosed p → is_closing p.nerve ≡ true
unfolding is_closing
is_closing-closed p (a, k, n) = ap is_closing n

-- The first panel of a chain that closes is closing, or has.
pub first_closing :
    (c : Chain) (k : ℕ)
    → IsClosing (c.panels k)
    → ((j : ℕ) → j < k → IsClosed (c.panels j))
    → is_closing (c.panels 0).nerve ≡ true
first_closing c zero o before = is_closing-closing (c.panels 0) o
first_closing c (suc k) o before = is_closing-closed (c.panels 0) (before 0 (omega arith))

pub trichotomy : (i k : ℕ) → (i < k) ⊎ ((i ≡ k) ⊎ (k < i))
trichotomy i k = elim (Bool-cases (ltb i k)) [
  | inl l ↦ inl (ground (arith, l))
  | inr l ↦ elim (Bool-cases (ltb k i)) [
    | inl m ↦ inr (inr (ground (arith, m)))
    | inr m ↦ inr (inl (ground (arith, l, m)))
  ]
]

-- The frame of an open panel of a chain that closes is only counted.
pub exe-waiting :
    (t : Turns) (ended : Bool) (i : ℕ) (c : Chain)
    → 0 < i
    → i ≤ c.last
    → IsOpen (c.panels i)
    → is_closing (c.panels 0).nerve ≡ true
    → exe t ended i c ≡ ok (put i (tick (c.panels i)) c)
exe-waiting t ended i c f h o e = elim (trichotomy i c.last) [
  | inl l ↦ exe-open_before t ended i c l o
  | inr (inl l) ↦
      exe-open_last t ended i c f l o.2
      ∙ ap
          (λ b. ok (
            if b then put i (tick (c.panels i)) c else start_close 0 (put i (tick (c.panels i)) c)))
          e
  | inr (inr l) ↦ absurd (omega arith)
]

module _ (t : Turns) (ended : Bool) (i : ℕ) (c : Chain) where
  exe-nrv_open_start :
      (c.panels i).nerve ≡ nrv_open_start
      → exe t ended i c ≡ ok (put i (exe_open_start t i (c.panels i)) c)
  unfolding exe exe_nerve
  exe-nrv_open_start n = ap (exe_nerve t ended i c) n

  exe-nrv_open :
      (c.panels i).nerve ≡ nrv_open → exe t ended i c ≡ ok (put i (exe_open ended (c.panels i)) c)
  unfolding exe exe_nerve
  exe-nrv_open n = ap (exe_nerve t ended i c) n

  exe-nrv_start_next : (c.panels i).nerve ≡ nrv_start_next → exe t ended i c ≡ exe_start_next i c
  unfolding exe exe_nerve
  exe-nrv_start_next n = ap (exe_nerve t ended i c) n

  exe-nrv_close_sign :
      (c.panels i).nerve ≡ nrv_close_sign
      → exe t ended i c ≡ ok (put i (exe_close_sign (c.panels i)) c)
  unfolding exe exe_nerve
  exe-nrv_close_sign n = ap (exe_nerve t ended i c) n

  exe-nrv_close_face :
      (c.panels i).nerve ≡ nrv_close_face
      → exe t ended i c ≡ ok (put i (exe_close_face ended (c.panels i)) c)
  unfolding exe exe_nerve
  exe-nrv_close_face n = ap (exe_nerve t ended i c) n

  exe-nrv_close : (c.panels i).nerve ≡ nrv_close → exe t ended i c ≡ ok (exe_close t i c)
  unfolding exe exe_nerve
  exe-nrv_close n = ap (exe_nerve t ended i c) n

  at_last : i ≤ c.last → ltb i c.last ≡ false → i ≡ c.last
  at_last h l = ground (arith, h, l)

  exe_start_next_starts :
      ltb i c.last ≡ true
      → (c.panels i).step ≡ 0
      → exe_start_next i c ≡ ok (start (i + 1) (put i (tick (c.panels i)) c))
  unfolding exe_start_next put
  exe_start_next_starts l z = rw (l, z) refl

  pub exe-opening :
      0 < c.last
      → i ≤ c.last
      → c.switched_on ≡ true
      → IsOpening (c.panels i)
      → ((j : ℕ) → j < i → IsOpen (c.panels j))
      → ((j : ℕ) → i < j → j ≤ c.last → (c.panels j).alive ≡ false)
      → Goes t ended i c
  unfolding exe_open_start exe_open put start start_close
  exe-opening f h s (a, inl n) before behind = (
    put i (exe_open_start t i (c.panels i)) c,
    exe-nrv_open_start n,
    put-opening c i (exe_open_start t i (c.panels i)) h s (ground (arith, a, n)) before behind,
    refl,
  )
  exe-opening f h s (a, inr (inl (n, m))) before behind = (
    put i (exe_open ended (c.panels i)) c,
    exe-nrv_open n,
    put-opening c i (exe_open ended (c.panels i)) h s (ground (arith, a, n, m)) before behind,
    refl,
  )
  exe-opening f h s (a, inr (inr (n, z, k))) before behind = elim (Bool-cases (ltb i c.last)) [
    | inl l ↦ (
      start (i + 1) (put i (tick (c.panels i)) c),
      exe-nrv_start_next n ∙ exe_start_next_starts l z,
      start-opening c i (ground arith) s (a, inr (inr (n, z, k))) n before behind,
      refl,
    )
    | inr l ↦ (
      start_close 0 (put i (tick (c.panels i)) c),
      exe-open_last t ended i c (omega (arith, at_last h l)) (at_last h l) n
          ∙ ap
              (λ b. ok (
                if b
                then put i (tick (c.panels i)) c
                else start_close 0 (put i (tick (c.panels i)) c)))
              (is_closing-open (c.panels 0) (before 0 (omega (arith, at_last h l)))),
      start_close-closing c i (omega (arith, at_last h l)) (at_last h l) s (a, inr (inr (n, z, k)))
          n before,
      refl,
    )
  ]

  exe_close_turns :
      ltb (c.panels i).step (t.to_next i) ≡ true
      → ltb i c.last ≡ true
      → exe_close t i c ≡ put i (tick (c.panels i)) c
  unfolding exe_close
  exe_close_turns m l = rw (l, m, exe_close) refl

  exe_close_next :
      ltb (c.panels i).step (t.to_next i) ≡ false
      → ltb i c.last ≡ true
      → exe_close t i c ≡ put i (make_dead (c.panels i)) (start_close (i + 1) c)
  unfolding exe_close
  exe_close_next m l = rw (l, m, exe_close) refl

  exe_close_over :
      ((c.panels i).step == 0) ≡ true
      → ltb i c.last ≡ false
      → exe_close t i c ≡ record (put i (make_dead (c.panels i)) c) { switched_on = false }
  unfolding exe_close
  exe_close_over m l = rw (l, m, exe_close) refl

  exe_close_rests :
      ((c.panels i).step == 0) ≡ false
      → ltb i c.last ≡ false
      → exe_close t i c ≡ put i (tick (c.panels i)) c
  unfolding exe_close
  exe_close_rests m l = rw (l, m, exe_close) refl

  pub exe-closing :
      i ≤ c.last
      → c.switched_on ≡ true
      → IsClosing (c.panels i)
      → ((j : ℕ) → j < i → IsClosed (c.panels j))
      → ((j : ℕ) → i < j → j ≤ c.last → IsOpen (c.panels j))
      → Goes t ended i c
  unfolding exe_close_sign exe_close_face put start_close
  exe-closing h s (a, inl n) before behind = (
    put i (exe_close_sign (c.panels i)) c,
    exe-nrv_close_sign n,
    put-closing c i (exe_close_sign (c.panels i)) h s (ground (arith, a, n)) before behind,
    refl,
  )
  exe-closing h s (a, inr (inl n)) before behind = (
    put i (exe_close_face ended (c.panels i)) c,
    exe-nrv_close_face n,
    put-closing c i (exe_close_face ended (c.panels i)) h s (ground (arith, a, n)) before behind,
    refl,
  )
  exe-closing h s (a, inr (inr (n, k))) before behind = elim (Bool-cases (ltb i c.last)) [
    | inl l ↦ elim (Bool-cases (ltb (c.panels i).step (t.to_next i))) [
      | inl m ↦ (
        put i (tick (c.panels i)) c,
        exe-nrv_close n ∙ ap ok (exe_close_turns m l),
        put-closing c i (tick (c.panels i)) h s (a, inr (inr (n, k))) before behind,
        refl,
      )
      | inr m ↦ (
        put i (make_dead (c.panels i)) (start_close (i + 1) c),
        exe-nrv_close n ∙ ap ok (exe_close_next m l),
        close-closing c i (ground (arith, l)) s (a, inr (inr (n, k))) n before behind,
        refl,
      )
    ]
    | inr l ↦ elim (Bool-cases ((c.panels i).step == 0)) [
      | inl m ↦ (
        record (put i (make_dead (c.panels i)) c) { switched_on = false },
        exe-nrv_close n ∙ ap ok (exe_close_over m l),
        close-off c i (at_last h l) before,
        refl,
      )
      | inr m ↦ (
        put i (tick (c.panels i)) c,
        exe-nrv_close n ∙ ap ok (exe_close_rests m l),
        put-closing c i (tick (c.panels i)) h s (a, inr (inr (n, k))) before behind,
        refl,
      )
    ]
  ]
