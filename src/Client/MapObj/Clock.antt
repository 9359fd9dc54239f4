-- ===== src/Client/MapObj/Clock.antt =====
-- src/pe/Multiplayer/MapObj/ClockMapPartsNet.cpp: an object that waits, gives a sign and turns by an
-- angle, again and again. Its times are numbers of frames and not negative. A time is
-- getSyncClockFrames, which is below 864000, so that the floats of fmodf are exact.
use bf_multiplayer.Prelude.{
  ℕ, ◌+◌, ◌-◌, ◌*◌, ◌/◌, ◌%◌, ◌<◌, ◌≤◌, ◌≡◌, leb, ◌==◌, if◌then◌else◌, arith, Result, ok, err,
  zero_divisor, ◌>>=◌,
}

pub data Nerve : Type 0 where
  wait rotate_sign rotate : Nerve

-- The members that init reads from the placement.
pub record ClockMapPartsNet : Type 0 where
  pub wait_time : ℕ
  pub rotate_sign_time : ℕ
  pub rotate_time : ℕ
  pub delay_time : ℕ

unfoldable pub get_total_cycle_time : ClockMapPartsNet → ℕ
get_total_cycle_time o = o.wait_time + o.rotate_time + o.rotate_sign_time

-- `fmodf(clock, getTotalCycleTime())` as an int, which a cycle of no frames leaves without a value.
unfoldable pub frames_into_cycle : ClockMapPartsNet → ℕ → Result ℕ
unfolding get_total_cycle_time
frames_into_cycle o clock =
    if get_total_cycle_time o == 0
    then err zero_divisor
    else ok ((clock + o.delay_time) % get_total_cycle_time o)

unfoldable pub nerve_at : ClockMapPartsNet → ℕ → Nerve
nerve_at o at =
    if leb at o.wait_time
    then wait
    else (if leb at (o.wait_time + o.rotate_sign_time) then rotate_sign else rotate)

-- getCurrentNerveByClock.
unfoldable pub get_current_nerve_by_clock : ClockMapPartsNet → ℕ → Result Nerve
unfolding frames_into_cycle nerve_at
get_current_nerve_by_clock o clock = frames_into_cycle o clock >>= λ at. ok (nerve_at o at)

unfoldable pub progress_at : ClockMapPartsNet → ℕ → ℕ
progress_at o at =
    if leb at o.wait_time
    then o.wait_time
    else (if leb at (o.wait_time + o.rotate_sign_time)
        then at - o.wait_time
        else at - o.wait_time - o.rotate_sign_time)

-- getProgressIntoNrvByClock.
unfoldable pub get_progress_into_nrv_by_clock : ClockMapPartsNet → ℕ → Result ℕ
unfolding frames_into_cycle progress_at
get_progress_into_nrv_by_clock o clock = frames_into_cycle o clock >>= λ at. ok (progress_at o at)

-- The cycles that are over, `int((getSyncClockFrames() + mDelayTime) / getTotalCycleTime())`.
unfoldable pub cycles_over : ClockMapPartsNet → ℕ → ℕ
unfolding get_total_cycle_time
cycles_over o clock = (clock + o.delay_time) / get_total_cycle_time o

-- The angle of exeRotate before the last fmodf, in parts of `rotate_time` to each mClockAngle. It reads
-- the clock twice: `clock` for the progress, and `later` for the cycles that are over. The nerve itself
-- was set by an earlier reading, that of control.
unfoldable pub rotate_parts : ClockMapPartsNet → ℕ → ℕ → Result ℕ
unfolding get_progress_into_nrv_by_clock cycles_over
rotate_parts o clock later =
    get_progress_into_nrv_by_clock o clock >>= λ p. ok (p + cycles_over o later * o.rotate_time)

progress_at_bounds :
    (o : ClockMapPartsNet) (at : ℕ)
    → at < get_total_cycle_time o
    → nerve_at o at ≡ rotate
    → (0 < progress_at o at) × (progress_at o at < o.rotate_time)
unfolding progress_at nerve_at get_total_cycle_time
progress_at_bounds o at h r = ground arith

-- The object turns from a point of the cycle to its end.
nerve_at-rotate :
    (o : ClockMapPartsNet) (at at' : ℕ)
    → at ≤ at'
    → nerve_at o at ≡ rotate
    → nerve_at o at' ≡ rotate
unfolding nerve_at
nerve_at-rotate o at at' h r = ground arith

-- Within one cycle the point of the cycle does not go back.
same_cycle : (a b t : ℕ) → a ≤ b → 0 < t → a / t ≡ b / t → a % t ≤ b % t
same_cycle a b t h pos e = grind arith

between : (c p t : ℕ) → 0 < p → p < t → (c * t < p + c * t) × (p + c * t < (c + 1) * t)
between c p t a b = grind arith

-- An object turns by the nerve that control set at one reading of the clock, and is drawn with two
-- later readings. Where its cycle has frames and all three lie in one cycle, it lies strictly between
-- its angle before and its angle behind the cycle: it has turned by more than the cycles that are over
-- and by less than one more.
pub rotate_parts_bounds :
    (o : ClockMapPartsNet) (before clock later : ℕ)
    → 0 < get_total_cycle_time o
    → before ≤ clock
    → cycles_over o before ≡ cycles_over o clock
    → cycles_over o clock ≡ cycles_over o later
    → get_current_nerve_by_clock o before ≡ ok rotate
    → (parts : ℕ) × (rotate_parts o clock later ≡ ok parts)
      × (cycles_over o later * o.rotate_time < parts)
      × (parts < (cycles_over o later + 1) * o.rotate_time)
unfolding get_current_nerve_by_clock rotate_parts cycles_over
rotate_parts_bounds o before clock later h order e e' r =
    let at = (before + o.delay_time) % get_total_cycle_time o in
    let at' = (clock + o.delay_time) % get_total_cycle_time o in
    let turning : nerve_at o at ≡ rotate = ground (arith, r, h) in
    let forward : at ≤ at' =
      same_cycle (before + o.delay_time) (clock + o.delay_time) (get_total_cycle_time o)
        (omega arith) h e in
    let (above, below) =
      progress_at_bounds o at' (omega arith) (nerve_at-rotate o at at' forward turning) in
    let (over, under) = between (cycles_over o later) _ o.rotate_time above below in
    (progress_at o at' + cycles_over o later * o.rotate_time, ground arith, over, under)
