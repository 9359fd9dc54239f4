-- ===== src/Client/StatusText/Lines.antt =====
-- The messages that are seen.
use bf_multiplayer.Prelude.{
  ℕ, zero, suc, ◌+◌, ◌≡◌, ◌≤◌, ◌<◌, refl, ap, ◌∙◌, true, false, List, [], ◌∷◌, ◌++◌, none, some,
  arith, length, length-append, Result, ok, err, ◌>>=◌, out_of_bounds,
}
use bf_multiplayer.Client.StatusText.{
  StatusText, line, lines, update_pane, log, exe_wait, update, run,
}

-- The messages one after the other.
unfoldable pub log_all : List (List ℕ) → StatusText → StatusText
log_all [] s = s
log_all (m ∷ ms) s = log_all ms (log (some m) s)

log_all-append :
    (ms ns : List (List ℕ)) (s : StatusText) → log_all (ms ++ ns) s ≡ log_all ns (log_all ms s)
unfolding log_all
log_all-append [] ns s = refl
log_all-append (m ∷ ms) ns s = log_all-append ms ns (log (some m) s)

lines_three :
    (s : StatusText) (a b c : List ℕ)
    → lines (log (some c) (log (some b) (log (some a) s)))
      ≡ (a ++ b'\n' ∷ []) ++ ((b ++ b'\n' ∷ []) ++ (c ++ b'\n' ∷ []))
unfolding log line
lines_three s a b c = refl

length_three :
    (a b c : List ℕ)
    → length ((a ++ b'\n' ∷ []) ++ ((b ++ b'\n' ∷ []) ++ (c ++ b'\n' ∷ [])))
      ≡ length a + length b + length c + 3
length_three a b c = omega (
  arith,
  length-append (a ++ b'\n' ∷ []) ((b ++ b'\n' ∷ []) ++ (c ++ b'\n' ∷ [])),
  length-append (b ++ b'\n' ∷ []) (c ++ b'\n' ∷ []),
  length-append a (b'\n' ∷ []),
  length-append b (b'\n' ∷ []),
  length-append c (b'\n' ∷ []),
)

-- A frame behind a message shows the lines, or writes past the end of the array.
update_first :
    (s : StatusText)
    → s.is_new ≡ true
    → length (lines s) < 1024
    → update s ≡ ok (record s { step = 0; is_new = false; pane = lines s })
unfolding update exe_wait update_pane
update_first s n h = ground (arith, n)

update_overflows :
    (s : StatusText) → s.is_new ≡ true → 1024 ≤ length (lines s) → update s ≡ err out_of_bounds
unfolding update exe_wait update_pane
update_overflows s n h = ground (arith, n)

-- The frame behind some messages shows the last three, the oldest first and each with a line break,
-- if they have fewer than 1021 characters together; with more, it writes past the end of the array
-- of 1024 characters.
pub update-log_all :
    (ms : List (List ℕ)) (a b c : List ℕ) (s : StatusText)
    → (length a + length b + length c < 1021
        → (t : StatusText) × (update (log_all (ms ++ a ∷ b ∷ c ∷ []) s) ≡ ok t)
          × (t.pane ≡ (a ++ b'\n' ∷ []) ++ ((b ++ b'\n' ∷ []) ++ (c ++ b'\n' ∷ []))))
      × (1021 ≤ length a + length b + length c
          → update (log_all (ms ++ a ∷ b ∷ c ∷ []) s) ≡ err out_of_bounds)
unfolding log_all log line
update-log_all ms a b c s = rw (log_all-append ms (a ∷ b ∷ c ∷ []) s) (
  λ h. (
    record shown {
      step = 0;
      is_new = false;
      pane = (a ++ b'\n' ∷ []) ++ ((b ++ b'\n' ∷ []) ++ (c ++ b'\n' ∷ []));
    },
    update_first shown refl (omega (arith, length_three a b c)),
    refl,
  ),
  λ h. update_overflows shown refl (omega (arith, length_three a b c)),
)
  where
    shown : StatusText
    shown = log (some c) (log (some b) (log (some a) (log_all ms s)))

-- A frame that is not the first of its nerve and not the 361st changes only the step.
update_quiet :
    (s : StatusText)
    → s.is_new ≡ false
    → s.step < 359
    → update s ≡ ok (record s { step = suc s.step })
unfolding update exe_wait
update_quiet s n h = ground (arith, n)

update_last :
    (s : StatusText)
    → s.is_new ≡ false
    → s.step ≡ 359
    → update s ≡ ok (log none (record s { step = 360 }))
unfolding update exe_wait log
update_last s n h = ground (arith, n)

run-add : (m n : ℕ) (s : StatusText) → run (m + n) s ≡ (run m s >>= run n)
unfolding run
run-add zero n s = ap (λ k. run k s) {x = 0 + n} {y = n} (omega arith)
run-add (suc m) n s =
    ap (λ k. run k s) {x = suc m + n} {y = suc (m + n)} (omega arith)
    ∙ behind (update s) (λ t. run-add m n t)
  where
    behind :
        (r : Result StatusText)
        → ((t : StatusText) → run (m + n) t ≡ (run m t >>= run n))
        → (r >>= run (m + n)) ≡ ((r >>= run m) >>= run n)
    behind (ok t) next = next t
    behind (err e) next = refl

run_quiet :
    (n : ℕ) (s : StatusText)
    → s.is_new ≡ false
    → n + s.step ≤ 359
    → run n s ≡ ok (record s { step = n + s.step })
unfolding run
run_quiet zero s e h =
    ap (λ k. ok (record s { step = k })) {x = s.step} {y = 0 + s.step} (omega arith)
run_quiet (suc n) s e h =
    ap (λ r. r >>= run n) (update_quiet s e (omega arith))
    ∙ run_quiet n (record s { step = suc s.step }) e (omega arith)
    ∙ ap (λ k. ok (record s { step = k })) {x = n + suc s.step} {y = suc n + s.step} (omega arith)

-- What 361 frames behind a message leave.
abbrev pub faded : StatusText → StatusText
faded s = record s {
  first = s.second;
  second = s.third;
  third = none;
  step = 360;
  is_new = true;
  pane = lines s;
}

run-faded : (s : StatusText) → s.is_new ≡ true → length (lines s) < 1024 → run 361 s ≡ ok (faded s)
unfolding run log
run-faded s n h =
    let seen = record s { step = 0; is_new = false; pane = lines s } in
    let waited = record seen { step = 359 } in
    ap (λ r. r >>= run 360) (update_first s n h)
    ∙ run-add 359 1 seen
    ∙ ap (λ r. r >>= run 1) (run_quiet 359 seen refl (omega arith))
    ∙ ap (λ r. r >>= run 0) (update_last waited refl refl)

lines-faded : (s : StatusText) → length (lines (faded s)) ≤ length (lines s)
unfolding line
lines-faded s = omega (
  arith,
  length-append (line s.second) (line s.third ++ []),
  length-append (line s.third) [],
  length-append (line s.first) (line s.second ++ line s.third),
  length-append (line s.second) (line s.third),
)

run_one : (s t : StatusText) → update s ≡ ok t → run 1 s ≡ ok t
unfolding run
run_one s t h = rw h refl

run_then :
    (m n : ℕ) (s t : StatusText) (r : Result StatusText)
    → run m s ≡ ok t
    → run n t ≡ r
    → run (m + n) s ≡ r
run_then m n s t r h k = run-add m n s ∙ ap (λ x. x >>= run n) h ∙ k

-- Without a new message the text vanishes: 361 frames take away the oldest line, and after 1084
-- frames no line and no text is left, if the lines fit at the start.
pub run_silent :
    (s : StatusText)
    → s.is_new ≡ true
    → length (lines s) < 1024
    → (run 361 s ≡ ok (faded s))
      × ((t : StatusText) × (run 1084 s ≡ ok t) × (t.pane ≡ []) × (lines t ≡ []))
unfolding line
run_silent s n h =
    let once = faded s in
    let twice = faded once in
    let thrice = faded twice in
    let fits : length (lines once) < 1024 = omega (arith, lines-faded s) in
    let fits' : length (lines twice) < 1024 = omega (arith, lines-faded once) in
    (
      run-faded s n h,
      (
        record thrice { step = 0; is_new = false; pane = [] },
        run_then 361 723 s once _ (run-faded s n h) (
            run_then 361 362 once twice _ (run-faded once refl fits) (
              run_then 361 1 twice thrice _ (run-faded twice refl fits')
                (run_one thrice _ (update_first thrice refl (omega arith))))),
        refl,
        refl,
      ),
    )
